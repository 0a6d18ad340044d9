-- ===== src/Wire/Signature.antt =====
-- crates/dogeos-scroll-wire/src/signature.rs: the hash that a block's signature is over, and its check.
-- keccak256 and the recovery of a signer are parameters; hashes and signatures' signers are numbers.
pub mod Commit
use dogeos_reth.Prelude.{
  ℕ, ◌+◌, ◌<◌, ◌^◌, ◌≡◌, sym, ap, ◌∙◌, ◌↔◌, Bool, true, not, Option, none, some, List, [], ◌∷◌,
  ◌++◌, Result, ok, err, ◌==◌, if◌then◌else◌, length, length-append, arith,
}
use dogeos_reth.Types.Rlp.{RlpCodec, IsRlpCodec, RlpHeader, AlloyRlp, IsAlloyRlp, encode-injective}

-- alloy's `Header`
pub record Header : Type 0 where
  pub parent_hash : ℕ
  pub ommers_hash : ℕ
  pub beneficiary : ℕ
  pub state_root : ℕ
  pub transactions_root : ℕ
  pub receipts_root : ℕ
  pub logs_bloom : ℕ
  pub difficulty : ℕ
  pub number : ℕ
  pub gas_limit : ℕ
  pub gas_used : ℕ
  pub timestamp : ℕ
  pub extra_data : List ℕ
  pub mix_hash : ℕ
  pub nonce : ℕ
  pub base_fee_per_gas : Option ℕ
  pub withdrawals_root : Option ℕ
  pub blob_gas_used : Option ℕ
  pub excess_blob_gas : Option ℕ
  pub parent_beacon_block_root : Option ℕ
  pub requests_hash : Option ℕ

-- The codecs of the fixed-size byte arrays.
pub record HeaderCodecs : Type 0 where
  pub b256 : RlpCodec ℕ
  pub b64 : RlpCodec ℕ
  pub bloom : RlpCodec ℕ

pub record IsHeaderCodecs (codecs : HeaderCodecs) : Type 0 where
  pub b256_codec : IsRlpCodec codecs.b256 (λ n. n < 2 ^ 256)
  pub b64_codec : IsRlpCodec codecs.b64 (λ n. n < 2 ^ 64)
  pub bloom_codec : IsRlpCodec codecs.bloom (λ n. n < 2 ^ 2048)

pub data BlockSignatureError : Type 0 where
  recovery_failed : BlockSignatureError
  unauthorized_signer : ℕ → ℕ → BlockSignatureError

-- The fields are values of their machine types.
pub record Fits (h : Header) : Type 0 where
  pub parent_hash_b256 : h.parent_hash < 2 ^ 256
  pub ommers_hash_b256 : h.ommers_hash < 2 ^ 256
  pub beneficiary_address : h.beneficiary < 2 ^ 160
  pub state_root_b256 : h.state_root < 2 ^ 256
  pub transactions_root_b256 : h.transactions_root < 2 ^ 256
  pub receipts_root_b256 : h.receipts_root < 2 ^ 256
  pub logs_bloom_bits : h.logs_bloom < 2 ^ 2048
  pub difficulty_u256 : h.difficulty < 2 ^ 256
  pub number_u64 : h.number < 2 ^ 64
  pub gas_limit_u64 : h.gas_limit < 2 ^ 64
  pub gas_used_u64 : h.gas_used < 2 ^ 64
  pub timestamp_u64 : h.timestamp < 2 ^ 64
  pub mix_hash_b256 : h.mix_hash < 2 ^ 256
  pub nonce_b64 : h.nonce < 2 ^ 64
  pub base_fee_u64 : (fee : ℕ) → h.base_fee_per_gas ≡ some fee → fee < 2 ^ 64

module _ (rlp : AlloyRlp) (codecs : HeaderCodecs) where
  open rlp use {u64, u256, address}
  open codecs use {b256, b64, bloom}

  abbrev pub base_fee_length : Option ℕ → ℕ
  base_fee_length none = 0
  base_fee_length (some fee) = u256.encoded_length fee

  abbrev pub base_fee_bytes : Option ℕ → List ℕ
  base_fee_bytes none = []
  base_fee_bytes (some fee) = u256.encode fee

  unfoldable pub signing_payload_length : Header → ℕ
  signing_payload_length h =
      b256.encoded_length h.parent_hash
      + b256.encoded_length h.ommers_hash
      + address.encoded_length h.beneficiary
      + b256.encoded_length h.state_root
      + b256.encoded_length h.transactions_root
      + b256.encoded_length h.receipts_root
      + bloom.encoded_length h.logs_bloom
      + u256.encoded_length h.difficulty
      + u256.encoded_length h.number
      + u256.encoded_length h.gas_limit
      + u256.encoded_length h.gas_used
      + u64.encoded_length h.timestamp
      + b256.encoded_length h.mix_hash
      + b64.encoded_length h.nonce
      + base_fee_length h.base_fee_per_gas

  unfoldable pub signing_fields : Header → List ℕ
  signing_fields h =
      b256.encode h.parent_hash
      ++ (b256.encode h.ommers_hash
          ++ (address.encode h.beneficiary
              ++ (b256.encode h.state_root
                  ++ (b256.encode h.transactions_root
                      ++ (b256.encode h.receipts_root
                          ++ (bloom.encode h.logs_bloom
                              ++ (u256.encode h.difficulty
                                  ++ (u256.encode h.number
                                      ++ (u256.encode h.gas_limit
                                          ++ (u256.encode h.gas_used
                                              ++ (u64.encode h.timestamp
                                                  ++ (b256.encode h.mix_hash
                                                      ++ (b64.encode h.nonce
                                                          ++ base_fee_bytes
                                                            h.base_fee_per_gas)))))))))))))

  -- The bytes that `signature_hash` gives to keccak256.
  unfoldable pub signing_bytes : Header → List ℕ
  signing_bytes h =
      rlp.header.encode (record { list = true; payload_length = signing_payload_length h })
      ++ signing_fields h

  module _ (keccak256 : List ℕ → ℕ) where
    unfoldable pub signature_hash : Header → ℕ
    signature_hash h = keccak256 (signing_bytes h)

    module _ {Sig : Type 0} (recover_signer : Sig → ℕ → Option ℕ) where
      abbrev pub check_signer : ℕ → Option ℕ → Result BlockSignatureError (Unit {0})
      check_signer expected none = err recovery_failed
      check_signer expected (some actual) =
          if not (actual == expected) then err (unauthorized_signer expected actual) else ok tt

      unfoldable pub verify_block_signature :
          Header → Sig → Option ℕ → Result BlockSignatureError (Unit {0})
      verify_block_signature h signature none = ok tt
      verify_block_signature h signature (some expected) =
          check_signer expected (recover_signer signature (signature_hash h))
