-- ===== src/Examples/Wire.antt =====
-- Announcements of numbered blocks. A signature is the number of its signer.
use dogeos_reth.Prelude.{
  ℕ, ◌+◌, ◌<◌, ◌^◌, ◌≡◌, ◌≢◌, ◌↔◌, ◌&&◌, refl, ap, inl, inr, Bool, true, false, Option, none, some,
  List, [], ◌∷◌, Result, ok, err, map, take, All, Bool-cases, length, ◌==◌, ◌||◌, arith,
}
use dogeos_reth.Types.Rlp.{input_too_short, Decoded, RlpCodec, IsRlpCodec}
use dogeos_reth.Wire.Message.{NewBlock, SignatureBytes, new_block, new_block_event}
use dogeos_reth.Wire.Signature.{
  Header, HeaderCodecs, BlockSignatureError, IsHeaderCodecs, Fits, signing_bytes,
}
use dogeos_reth.Wire.Signature.Commit.{IsSameSigned, signing_bytes_iff}
use dogeos_reth.Wire.Connection.{ScrollWireConnection, frame_of, event_of}
use dogeos_reth.Wire.Manager.{ScrollWireManager}
use dogeos_reth.Wire.Import.{LruCache, Has, lru_cache_size, new, key, run}
use dogeos_reth.Wire.Import.Spaced.{Spaced, imported_blocks}
use dogeos_reth.Wire.Import.Delivery.{Delivered}
use dogeos_reth.Wire.Pipeline.{verify, importer_of, announced_blocks_reach_engine}
use dogeos_reth.Examples.Codecs.{
  number, number-IsRlpCodec, decode_bytes, decode_bytes_lem, rlp, rlp-IsAlloyRlp,
}

abbrev codecs : HeaderCodecs
codecs = record { b256 = number; b64 = number; bloom = number }

codecs-IsHeaderCodecs : IsHeaderCodecs codecs
codecs-IsHeaderCodecs = record {
  b256_codec = number-IsRlpCodec _;
  b64_codec = number-IsRlpCodec _;
  bloom_codec = number-IsRlpCodec _;
}

abbrev header : ℕ → List ℕ → Header
header n extra = record {
  parent_hash = 1;
  ommers_hash = 2;
  beneficiary = 3;
  state_root = 4;
  transactions_root = 5;
  receipts_root = 6;
  logs_bloom = 7;
  difficulty = 1;
  number = n;
  gas_limit = 20_000_000;
  gas_used = 21_000;
  timestamp = 100;
  extra_data = extra;
  mix_hash = 0;
  nonce = 0;
  base_fee_per_gas = some 12;
  withdrawals_root = none;
  blob_gas_used = none;
  excess_blob_gas = none;
  parent_beacon_block_root = none;
  requests_hash = none;
}

fee_fits : (fee : ℕ) → ◌≡◌ {A = Option ℕ} (some 12) (some fee) → fee < 2 ^ 64
fee_fits fee e = ground arith

header-Fits : (extra : List ℕ) → Fits (header 8 extra)
header-Fits extra = record {
  parent_hash_b256 = omega arith;
  ommers_hash_b256 = omega arith;
  beneficiary_address = omega arith;
  state_root_b256 = omega arith;
  transactions_root_b256 = omega arith;
  receipts_root_b256 = omega arith;
  logs_bloom_bits = omega arith;
  difficulty_u256 = omega arith;
  number_u64 = omega arith;
  gas_limit_u64 = omega arith;
  gas_used_u64 = omega arith;
  timestamp_u64 = omega arith;
  mix_hash_b256 = omega arith;
  nonce_b64 = omega arith;
  base_fee_u64 = fee_fits;
}

signing_bytes_iff_example :
    (signing_bytes rlp codecs (header 8 []) ≡ signing_bytes rlp codecs (header 8 (9 ∷ [])))
    ↔ IsSameSigned (header 8 []) (header 8 (9 ∷ []))
signing_bytes_iff_example =
    signing_bytes_iff rlp codecs rlp-IsAlloyRlp codecs-IsHeaderCodecs (header 8 [])
      (header 8 (9 ∷ [])) (header-Fits []) (header-Fits (9 ∷ []))

-- The latest keys as a list.
abbrev Key : Type 0
Key = ℕ × ℕ

abbrev elem : Key → List Key → Bool
elem k [] = false
elem k (x ∷ xs) = (x.0 == k.0 && x.1 == k.1) || elem k xs

pair_path : {a b c d : ℕ} → a ≡ c → b ≡ d → ◌≡◌ {A = Key} (a, b) (c, d)
pair_path e f = rw (e, f)

elem-true : (k : Key) (xs : List Key) → elem k xs ≡ true → Has k xs
elem-true k [] h = cc
elem-true k (x ∷ xs) h = elim (Bool-cases (x.0 == k.0 && x.1 == k.1)) [
  | inl same ↦ inl (pair_path (ground arith) (ground arith))
  | inr other ↦ inr (elem-true k xs (rw other at h))
]

elem-false : (k : Key) (xs : List Key) → elem k xs ≡ false → All (λ x. x ≢ k) xs
elem-false k [] h = tt
elem-false k (x ∷ xs) h = (
  λ e. let a = ap (λ (y : Key). y.0) e in let b = ap (λ (y : Key). y.1) e in ground arith,
  elem-false k xs (ground arith),
)

abbrev cache : LruCache Key
cache = record {
  C = ℕ × List Key;
  new = λ n. (n, []);
  contains = λ c k. elem k c.1;
  insert = λ c k. (c.0, take c.0 (k ∷ c.1));
  limit = λ c. c.0;
  contents = λ c. c.1;
  contents_new = λ n. refl;
  limit_new = λ n. refl;
  limit-insert = λ c k. refl;
  contents-insert = λ c k unseen. refl;
  contains_true = λ c k h. elem-true k c.1 h;
  contains_false = λ c k h. elem-false k c.1 h;
}

abbrev from_raw : List ℕ → Option ℕ
from_raw [] = none
from_raw (s ∷ rest) = some s

abbrev signatures : SignatureBytes ℕ
signatures = record { as_rsy = λ s. s ∷ []; from_raw = from_raw; from_raw-as_rsy = λ s. refl }

abbrev with_block : ℕ → Decoded (List ℕ) → Decoded (NewBlock ℕ)
with_block block (err e) = err e
with_block block (ok (signature, rest)) = ok (record { signature = signature; block = block }, rest)

abbrev decode_new_block : List ℕ → Decoded (NewBlock ℕ)
decode_new_block [] = err input_too_short
decode_new_block (block ∷ rest) = with_block block (decode_bytes rest)

abbrev codec : RlpCodec (NewBlock ℕ)
codec = record {
  encode = λ b. b.block ∷ length b.signature ∷ b.signature;
  encoded_length = λ b. 2 + length b.signature;
  decode = decode_new_block;
}

codec-IsRlpCodec : IsRlpCodec codec (λ b. b.block < 1000)
codec-IsRlpCodec = record {
  decode-encode = λ b rest fits. ap (with_block b.block) (decode_bytes_lem b.signature rest);
  length-encode = λ b fits. omega arith;
  encoded_length_pos = λ b fits. omega arith;
}

-- A signature recovers to itself as the signer.
abbrev recover : ℕ → ℕ → Option ℕ
recover signature hash = some signature

abbrev keccak256 : List ℕ → ℕ
keccak256 bytes = length bytes

abbrev header_of : ℕ → Header
header_of n = header n []

abbrev new_payload : List (ℕ × ℕ) → ℕ → Result ℕ ℕ
new_payload before block = ok block

abbrev check : ℕ → ℕ → Option ℕ → Result BlockSignatureError (Unit {0})
check block signature signer = verify rlp codecs keccak256 recover header_of block signature signer

abbrev announced : List (ℕ × ℕ)
announced = (8, 5) ∷ (9, 6) ∷ []

abbrev connection : ScrollWireConnection ℕ ℕ ℕ
connection = record {
  conn = map (frame_of codec signatures) announced;
  conn_ended = false;
  outbound = [];
  events_open = true;
  events = [];
  peer_id = 77;
}

abbrev block_hash : ℕ → ℕ
block_hash n = n

fits : All (λ (a : ℕ × ℕ). (new_block signatures a.1 a.0).block < 1000) announced
unfolding new_block
fits = (omega arith, (omega arith, tt))

-- The same block is announced twice.
abbrev manager : ScrollWireManager ℕ ℕ
manager = record {
  events = new_block_event 77 8 5 ∷ new_block_event 78 8 5 ∷ [];
  connections = λ peer. none;
}

-- Signer 5 is authorized, so that the first of the two blocks is imported.
announced_blocks_reach_engine_example :
    ((run check block_hash cache new_payload 3 (
        importer_of rlp codecs keccak256 recover header_of block_hash cache new_payload codec
          signatures connection
          (some 5))).manager.events
      ≡ [])
    × Delivered check block_hash cache new_payload (some 5) (map (event_of 77) announced) (
        run check block_hash cache new_payload 3 (
          importer_of rlp codecs keccak256 recover header_of block_hash cache new_payload codec
            signatures connection
            (some 5)))
announced_blocks_reach_engine_example =
    announced_blocks_reach_engine rlp codecs keccak256 recover header_of block_hash cache
      new_payload codec signatures codec-IsRlpCodec announced connection (some 5) 3 fits refl refl
      refl refl (omega arith)

imported_blocks_example :
    Spaced lru_cache_size (
      map
        (key block_hash)
        (run check block_hash cache new_payload 3
          (new check block_hash cache new_payload manager (some 5))).payloads)
    × All
        (λ p. check p.0 p.1 (some 5) ≡ ok tt)
        (run check block_hash cache new_payload 3
          (new check block_hash cache new_payload manager (some 5))).payloads
imported_blocks_example = imported_blocks check block_hash cache new_payload (some 5) 3 manager
