-- ===== src/Examples/Codecs.antt =====
-- Concrete codecs: a number is one byte, a byte string has its length in front, and a header is a mark
-- and the payload's length.
use dogeos_reth.Prelude.{
  ℕ, ◌+◌, ◌<◌, ◌≡◌, refl, Bool, true, false, List, [], ◌∷◌, ◌++◌, ok, err, length, take, drop,
  take-append, drop-append, ltb, ◌==◌, if◌then◌else◌, arith,
}
use dogeos_reth.Types.Rlp.{
  input_too_short, Decoded, RlpCodec, IsRlpCodec, RlpHeader, AlloyRlp, IsAlloyRlp,
}
use dogeos_reth.Types.Envelope.{Decoded2718, Decodable2718}

abbrev pub decode_number : List ℕ → Decoded ℕ
decode_number [] = err input_too_short
decode_number (n ∷ rest) = ok (n, rest)

abbrev pub number : RlpCodec ℕ
number = record { encode = λ n. n ∷ []; encoded_length = λ n. 1; decode = decode_number }

pub number-IsRlpCodec : (Fits : ℕ → Type 0) → IsRlpCodec number Fits
number-IsRlpCodec Fits = record {
  decode-encode = λ n rest fits. refl;
  length-encode = λ n fits. refl;
  encoded_length_pos = λ n fits. omega arith;
}

abbrev pub decode_bytes : List ℕ → Decoded (List ℕ)
decode_bytes [] = err input_too_short
decode_bytes (n ∷ rest) = ok (take n rest, drop n rest)

pub decode_bytes_lem : (xs rest : List ℕ) → decode_bytes (length xs ∷ (xs ++ rest)) ≡ ok (xs, rest)
decode_bytes_lem xs rest =
    rw (take-append xs rest (length xs) refl, drop-append xs rest (length xs) refl)

abbrev pub bytes : RlpCodec (List ℕ)
bytes = record {
  encode = λ xs. length xs ∷ xs;
  encoded_length = λ xs. length xs + 1;
  decode = decode_bytes;
}

pub bytes-IsRlpCodec : (Fits : List ℕ → Type 0) → IsRlpCodec bytes Fits
bytes-IsRlpCodec Fits = record {
  decode-encode = λ xs rest fits. decode_bytes_lem xs rest;
  length-encode = λ xs fits. omega arith;
  encoded_length_pos = λ xs fits. omega arith;
}

abbrev pub encode_header : RlpHeader → List ℕ
encode_header h = (if h.list then 200 else 180) ∷ h.payload_length ∷ []

abbrev pub decode_header : List ℕ → Decoded RlpHeader
decode_header [] = err input_too_short
decode_header (mark ∷ []) = err input_too_short
decode_header (mark ∷ n ∷ rest) = ok (record { list = mark == 200; payload_length = n }, rest)

abbrev pub rlp : AlloyRlp
rlp = record {
  header = record { encode = encode_header; encoded_length = λ h. 2; decode = decode_header };
  length_with_payload = λ h. 2 + h.payload_length;
  u8 = number;
  u64 = number;
  u256 = number;
  address = number;
  bytes = bytes;
}

decode-encode_header :
    (list : Bool) (n : ℕ) (rest : List ℕ)
    → decode_header (encode_header (record { list = list; payload_length = n }) ++ rest)
      ≡ ok (record { list = list; payload_length = n }, rest)
decode-encode_header true n rest = refl
decode-encode_header false n rest = refl

first_of_list :
    (list : Bool) (n : ℕ)
    → list ≡ true
    → (byte : ℕ) × (others : List ℕ) × (127 < byte)
      × (encode_header (record { list = list; payload_length = n }) ≡ byte ∷ others)
first_of_list true n e = (200, n ∷ [], omega arith, refl)
first_of_list false n e = cc

pub rlp-IsAlloyRlp : IsAlloyRlp rlp
rlp-IsAlloyRlp = record {
  decode-header = λ h rest fits kind. decode-encode_header h.list h.payload_length rest;
  length-header = λ h. refl;
  list_head = λ h e. first_of_list h.list h.payload_length e;
  length_with_payload_lem = λ h. refl;
  u8_byte = λ byte rest low high. refl;
  u64_codec = number-IsRlpCodec _;
  u256_codec = number-IsRlpCodec _;
  address_codec = number-IsRlpCodec _;
  bytes_codec = bytes-IsRlpCodec _;
}

-- A first byte below 128 is a type.
abbrev dispatch :
    {A : Type 0} → (ℕ → List ℕ → Decoded2718 A) → (List ℕ → Decoded2718 A) → List ℕ → Decoded2718 A
dispatch typed fallback [] = fallback []
dispatch typed fallback (byte ∷ buf) =
    if ltb byte 128 then typed byte buf else fallback (byte ∷ buf)

abbrev pub decodable : (A : Type 0) → Decodable2718 A
decodable A = record {
  decode_2718 = dispatch;
  typed_lem = λ typed fallback ty buf low. ground arith;
  fallback_lem = λ typed fallback byte buf high. ground arith;
  empty_lem = λ typed fallback. refl;
}
