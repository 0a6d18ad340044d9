-- ===== src/Types/Rlp.antt =====
-- What crates/dogeos-protocol-types and crates/dogeos-reth-primitives use of alloy's RLP: its errors,
-- its headers and the codecs of the values, which are parameters with the laws that the callers rely
-- on. A buffer is the list of the bytes that are left; a decoder returns its value and what is left.
use dogeos_reth.Prelude.{
  ℕ, ◌+◌, ◌<◌, ◌^◌, ◌≡◌, sym, ap, ◌∙◌, ◌⊎◌, Bool, true, List, ◌∷◌, ◌++◌, Result, ok, length, All,
}

-- The errors of alloy_rlp that the code names; `alloy` stands for those of the library's decoders.
pub data RlpError : Type 0 where
  unexpected_string unexpected_length input_too_short custom : RlpError
  list_length_mismatch : ℕ → ℕ → RlpError
  alloy : ℕ → RlpError

abbrev pub Decoded : Type 0 → Type 0
Decoded A = Result RlpError (A × List ℕ)

pub record RlpCodec (A : Type 0) : Type 0 where
  pub encode : A → List ℕ
  pub encoded_length : A → ℕ
  pub decode : List ℕ → Decoded A

-- A value that fits its machine type is read back, whatever follows it, and has the length that is
-- announced, at least one byte.
pub record IsRlpCodec {A : Type 0} (codec : RlpCodec A) (Fits : A → Type 0) : Type 0 where
  pub decode-encode :
      (a : A) (rest : List ℕ) → Fits a → codec.decode (codec.encode a ++ rest) ≡ ok (a, rest)
  pub length-encode : (a : A) → Fits a → length (codec.encode a) ≡ codec.encoded_length a
  pub encoded_length_pos : (a : A) → Fits a → 0 < codec.encoded_length a

-- alloy_rlp::Header
pub record RlpHeader : Type 0 where
  pub list : Bool
  pub payload_length : ℕ

pub record AlloyRlp : Type 0 where
  pub header : RlpCodec RlpHeader
  pub length_with_payload : RlpHeader → ℕ
  pub u8 : RlpCodec ℕ
  pub u64 : RlpCodec ℕ
  pub u256 : RlpCodec ℕ
  pub address : RlpCodec ℕ
  pub bytes : RlpCodec (List ℕ)

-- A header is read back before a payload that is at least as long as it says; a string of one byte
-- may be its own encoding and has no header. A byte from 1 to 127 is its own encoding, and the first
-- byte of a list is above 127.
pub record IsAlloyRlp (rlp : AlloyRlp) : Type 0 where
  pub decode-header :
      (h : RlpHeader) (rest : List ℕ)
      → h.payload_length < length rest + 1
      → (h.list ≡ true) ⊎ (1 < h.payload_length)
      → rlp.header.decode (rlp.header.encode h ++ rest) ≡ ok (h, rest)
  pub length-header : (h : RlpHeader) → length (rlp.header.encode h) ≡ rlp.header.encoded_length h
  pub list_head :
      (h : RlpHeader)
      → h.list ≡ true
      → (byte : ℕ) × (bytes : List ℕ) × (127 < byte) × (rlp.header.encode h ≡ byte ∷ bytes)
  pub length_with_payload_lem :
      (h : RlpHeader) → rlp.length_with_payload h ≡ rlp.header.encoded_length h + h.payload_length
  pub u8_byte :
      (byte : ℕ) (rest : List ℕ)
      → 0 < byte
      → byte < 128
      → rlp.u8.decode (byte ∷ rest) ≡ ok (byte, rest)
  pub u64_codec : IsRlpCodec rlp.u64 (λ n. n < 2 ^ 64)
  pub u256_codec : IsRlpCodec rlp.u256 (λ n. n < 2 ^ 256)
  pub address_codec : IsRlpCodec rlp.address (λ n. n < 2 ^ 160)
  pub bytes_codec : IsRlpCodec rlp.bytes (All (λ b. b < 256))

-- Encodings that start equal bytes are of one value, and the same bytes follow.
pub encode-injective :
    {A : Type 0} {codec : RlpCodec A} {Fits : A → Type 0} (c : IsRlpCodec codec Fits) (a b : A)
    (rest rest' : List ℕ)
    → Fits a
    → Fits b
    → codec.encode a ++ rest ≡ codec.encode b ++ rest'
    → (a ≡ b) × (rest ≡ rest')
encode-injective {codec = codec} c a b rest rest' fa fb e =
    let same =
      sym (c.decode-encode a rest fa) ∙ ap (λ l. codec.decode l) e ∙ c.decode-encode b rest' fb in
    (cc, cc)
