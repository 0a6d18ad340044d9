-- ===== src/Types/Envelope.antt =====
-- crates/dogeos-protocol-types/src/transaction/envelope.rs: the EIP-2718 encoding of the envelope and
-- the signer. alloy's signed transactions with their encodings, its dispatch on the type byte and the
-- recovery of a signer are parameters; the seal of an L1 message, its hash, is left out.
use dogeos_reth.Prelude.{
  ℕ, ◌<◌, ◌≡◌, ◌≢◌, ◌↔◌, sym, ap, ◌∙◌, inl, inr, Result-cases, Option, none, some, List, [], ◌∷◌,
  ◌++◌, Result, ok, err, ◌>>=◌, map_err, length, arith,
}
use dogeos_reth.Types.Rlp.{custom, Decoded, AlloyRlp, IsAlloyRlp}
use dogeos_reth.Types.L1Message.{
  Eip2718Error, unexpected_type, rlp_error, Fits, rlp_decode, rlp_encode, eip2718_encode,
  eip2718_encoded_length, rlp_decode-encode, length-eip2718_encode,
}
use dogeos_reth.Types.Transaction.{
  TxL1Message, ScrollTxEnvelope, legacy, eip2930, eip1559, eip7702, l1_message,
}
use dogeos_reth.Types.TxType.{ScrollTxType, TxTypeError, as_u8, try_from_u8, try_from_u8_iff}

-- The encodings of `Signed<T>` for one of alloy's transaction types.
pub record SignedCodec (S : Type 0) : Type 0 where
  pub eip2718_encode : S → List ℕ
  pub eip2718_encoded_length : S → ℕ
  pub rlp_decode_signed : List ℕ → Decoded S

-- A transaction of the type is its type byte with a list that is read back; `Valid` says that a
-- transaction is one of this type whose fields fit.
pub record IsTypedCodec {S : Type 0} (codec : SignedCodec S) (ty : ℕ) (Valid : S → Type 0)
    : Type 0 where
  pub body : S → List ℕ
  pub encode_body : (tx : S) → codec.eip2718_encode tx ≡ ty ∷ body tx
  pub decode-body :
      (tx : S) (rest : List ℕ)
      → Valid tx
      → codec.rlp_decode_signed (body tx ++ rest) ≡ ok (tx, rest)
  pub length-encode :
      (tx : S) → Valid tx → length (codec.eip2718_encode tx) ≡ codec.eip2718_encoded_length tx

-- A legacy transaction is a list alone.
pub record IsLegacyCodec {S : Type 0} (codec : SignedCodec S) (Valid : S → Type 0) : Type 0 where
  pub first : S → ℕ
  pub others : S → List ℕ
  pub encode_list : (tx : S) → codec.eip2718_encode tx ≡ first tx ∷ others tx
  pub first_high : (tx : S) → 127 < first tx
  pub decode-encode :
      (tx : S) (rest : List ℕ)
      → Valid tx
      → codec.rlp_decode_signed (codec.eip2718_encode tx ++ rest) ≡ ok (tx, rest)
  pub length-encode :
      (tx : S) → Valid tx → length (codec.eip2718_encode tx) ≡ codec.eip2718_encoded_length tx

pub record AlloyTransactions (S : Type 0) : Type 0 where
  pub tx_legacy : SignedCodec S
  pub tx_eip2930 : SignedCodec S
  pub tx_eip1559 : SignedCodec S
  pub tx_eip7702 : SignedCodec S

abbrev pub Decoded2718 : Type 0 → Type 0
Decoded2718 A = Result Eip2718Error (A × List ℕ)

-- The provided method `Decodable2718::decode_2718`: it takes a first byte up to 127 for a type and
-- leaves everything else, no byte included, to
-- `fallback_decode`.
pub record Decodable2718 (A : Type 0) : Type 0 where
  pub decode_2718 : (ℕ → List ℕ → Decoded2718 A) → (List ℕ → Decoded2718 A) → List ℕ → Decoded2718 A
  pub typed_lem :
      (typed : ℕ → List ℕ → Decoded2718 A) (fallback : List ℕ → Decoded2718 A) (ty : ℕ)
      (buf : List ℕ)
      → ty < 128
      → decode_2718 typed fallback (ty ∷ buf) ≡ typed ty buf
  pub fallback_lem :
      (typed : ℕ → List ℕ → Decoded2718 A) (fallback : List ℕ → Decoded2718 A) (byte : ℕ)
      (buf : List ℕ)
      → 127 < byte
      → decode_2718 typed fallback (byte ∷ buf) ≡ fallback (byte ∷ buf)
  pub empty_lem :
      (typed : ℕ → List ℕ → Decoded2718 A) (fallback : List ℕ → Decoded2718 A)
      → decode_2718 typed fallback [] ≡ fallback []

-- `Ok(Self::Variant(decode(buf)?))`
abbrev pub wrap : {A B : Type 0} → (A → B) → Decoded A → Decoded2718 B
wrap f (ok (a, buf)) = ok (f a, buf)
wrap f (err e) = err (rlp_error e)

abbrev pub unexpected : {A : Type 0} → ℕ → Result TxTypeError A → Result Eip2718Error A
unexpected ty r = map_err (λ e. unexpected_type ty) r

module _ {S : Type 0} where
  unfoldable pub tx_type : ScrollTxEnvelope S → ScrollTxType
  tx_type (legacy _) = ScrollTxType.legacy
  tx_type (eip2930 _) = ScrollTxType.eip2930
  tx_type (eip1559 _) = ScrollTxType.eip1559
  tx_type (eip7702 _) = ScrollTxType.eip7702
  tx_type (l1_message _) = ScrollTxType.l1_message

  unfoldable pub type_flag : ScrollTxEnvelope S → Option ℕ
  type_flag (legacy _) = none
  type_flag (eip2930 _) = some (as_u8 ScrollTxType.eip2930)
  type_flag (eip1559 _) = some (as_u8 ScrollTxType.eip1559)
  type_flag (eip7702 _) = some (as_u8 ScrollTxType.eip7702)
  type_flag (l1_message _) = some (as_u8 ScrollTxType.l1_message)

  -- `Signature` and the recovery are alloy's.
  unfoldable pub signature : {Sig : Type 0} → (S → Sig) → ScrollTxEnvelope S → Option Sig
  signature of (legacy tx) = some (of tx)
  signature of (eip2930 tx) = some (of tx)
  signature of (eip1559 tx) = some (of tx)
  signature of (eip7702 tx) = some (of tx)
  signature of (l1_message _) = none

  module _ (rlp : AlloyRlp) (txs : AlloyTransactions S) where
    open txs use {tx_legacy, tx_eip2930, tx_eip1559, tx_eip7702}

    unfoldable pub encode_2718 : ScrollTxEnvelope S → List ℕ
    encode_2718 (legacy tx) = tx_legacy.eip2718_encode tx
    encode_2718 (eip2930 tx) = tx_eip2930.eip2718_encode tx
    encode_2718 (eip1559 tx) = tx_eip1559.eip2718_encode tx
    encode_2718 (eip7702 tx) = tx_eip7702.eip2718_encode tx
    encode_2718 (l1_message tx) = eip2718_encode rlp tx

    unfoldable pub encode_2718_len : ScrollTxEnvelope S → ℕ
    encode_2718_len (legacy tx) = tx_legacy.eip2718_encoded_length tx
    encode_2718_len (eip2930 tx) = tx_eip2930.eip2718_encoded_length tx
    encode_2718_len (eip1559 tx) = tx_eip1559.eip2718_encoded_length tx
    encode_2718_len (eip7702 tx) = tx_eip7702.eip2718_encoded_length tx
    encode_2718_len (l1_message tx) = eip2718_encoded_length rlp tx

    abbrev pub decode_as : List ℕ → ScrollTxType → Decoded2718 (ScrollTxEnvelope S)
    decode_as buf ScrollTxType.eip2930 = wrap eip2930 (tx_eip2930.rlp_decode_signed buf)
    decode_as buf ScrollTxType.eip1559 = wrap eip1559 (tx_eip1559.rlp_decode_signed buf)
    decode_as buf ScrollTxType.eip7702 = wrap eip7702 (tx_eip7702.rlp_decode_signed buf)
    decode_as buf ScrollTxType.l1_message = wrap l1_message (rlp_decode rlp buf)
    decode_as buf ScrollTxType.legacy = err (rlp_error custom)

    unfoldable pub typed_decode : ℕ → List ℕ → Decoded2718 (ScrollTxEnvelope S)
    typed_decode ty buf = unexpected ty (try_from_u8 ty) >>= decode_as buf

    unfoldable pub fallback_decode : List ℕ → Decoded2718 (ScrollTxEnvelope S)
    fallback_decode buf = wrap legacy (tx_legacy.rlp_decode_signed buf)

    -- The envelope holds a transaction of its variant's type whose fields fit.
    abbrev pub IsValid : (ScrollTxType → S → Type 0) → ScrollTxEnvelope S → Type 0
    IsValid Valid (legacy tx) = Valid ScrollTxType.legacy tx
    IsValid Valid (eip2930 tx) = Valid ScrollTxType.eip2930 tx
    IsValid Valid (eip1559 tx) = Valid ScrollTxType.eip1559 tx
    IsValid Valid (eip7702 tx) = Valid ScrollTxType.eip7702 tx
    IsValid Valid (l1_message tx) = Fits tx

    pub record IsAlloyTransactions (Valid : ScrollTxType → S → Type 0) : Type 0 where
      pub legacy_codec : IsLegacyCodec tx_legacy (Valid ScrollTxType.legacy)
      pub eip2930_codec : IsTypedCodec tx_eip2930 1 (Valid ScrollTxType.eip2930)
      pub eip1559_codec : IsTypedCodec tx_eip1559 2 (Valid ScrollTxType.eip1559)
      pub eip7702_codec : IsTypedCodec tx_eip7702 4 (Valid ScrollTxType.eip7702)

    module _ (d : Decodable2718 (ScrollTxEnvelope S)) (Valid : ScrollTxType → S → Type 0) where
      by_type :
          {codec : SignedCodec S} {ty : ℕ} {V : S → Type 0} (c : IsTypedCodec codec ty V) (tx : S)
          (rest : List ℕ)
          → ty < 128
          → d.decode_2718 typed_decode fallback_decode (codec.eip2718_encode tx ++ rest)
            ≡ typed_decode ty (c.body tx ++ rest)
      by_type c tx rest low =
          ap (λ bytes. d.decode_2718 typed_decode fallback_decode (bytes ++ rest))
            (c.encode_body tx)
          ∙ d.typed_lem typed_decode fallback_decode _ (c.body tx ++ rest) low

      by_list :
          (c : IsLegacyCodec tx_legacy (Valid ScrollTxType.legacy)) (tx : S) (rest : List ℕ)
          → d.decode_2718 typed_decode fallback_decode (tx_legacy.eip2718_encode tx ++ rest)
            ≡ fallback_decode (tx_legacy.eip2718_encode tx ++ rest)
      by_list c tx rest = rw (c.encode_list tx) (
          d.fallback_lem typed_decode fallback_decode (c.first tx) (c.others tx ++ rest)
            (c.first_high tx))

      typed-eip2930 :
          (c : IsTypedCodec tx_eip2930 1 (Valid ScrollTxType.eip2930)) (tx : S) (rest : List ℕ)
          → Valid ScrollTxType.eip2930 tx
          → typed_decode 1 (c.body tx ++ rest) ≡ ok (eip2930 tx, rest)
      unfolding typed_decode try_from_u8
      typed-eip2930 c tx rest v = rw (c.decode-body tx rest v)

      typed-eip1559 :
          (c : IsTypedCodec tx_eip1559 2 (Valid ScrollTxType.eip1559)) (tx : S) (rest : List ℕ)
          → Valid ScrollTxType.eip1559 tx
          → typed_decode 2 (c.body tx ++ rest) ≡ ok (eip1559 tx, rest)
      unfolding typed_decode try_from_u8
      typed-eip1559 c tx rest v = rw (c.decode-body tx rest v)

      typed-eip7702 :
          (c : IsTypedCodec tx_eip7702 4 (Valid ScrollTxType.eip7702)) (tx : S) (rest : List ℕ)
          → Valid ScrollTxType.eip7702 tx
          → typed_decode 4 (c.body tx ++ rest) ≡ ok (eip7702 tx, rest)
      unfolding typed_decode try_from_u8
      typed-eip7702 c tx rest v = rw (c.decode-body tx rest v)

      typed-l1_message :
          IsAlloyRlp rlp
          → (tx : TxL1Message) (rest : List ℕ) → Fits tx
          → typed_decode 0x7e (rlp_encode rlp tx ++ rest) ≡ ok (l1_message tx, rest)
      unfolding typed_decode try_from_u8
      typed-l1_message laws tx rest v = rw (rlp_decode-encode rlp laws tx rest v)

      -- Where alloy's encodings are read back, a valid transaction of any type that is encoded and
      -- followed by any bytes is decoded to itself, and the decoder stops right before those bytes.
      pub decode_2718-encode_2718 :
          IsAlloyRlp rlp
          → IsAlloyTransactions Valid
          → (tx : ScrollTxEnvelope S) (rest : List ℕ) → IsValid Valid tx
          → d.decode_2718 typed_decode fallback_decode (encode_2718 tx ++ rest) ≡ ok (tx, rest)
      unfolding encode_2718 eip2718_encode fallback_decode
      decode_2718-encode_2718 laws codecs (legacy tx) rest v =
          by_list codecs.legacy_codec tx rest
          ∙ ap (wrap legacy) (codecs.legacy_codec.decode-encode tx rest v)
      decode_2718-encode_2718 laws codecs (eip2930 tx) rest v =
          by_type codecs.eip2930_codec tx rest (omega arith)
          ∙ typed-eip2930 codecs.eip2930_codec tx rest v
      decode_2718-encode_2718 laws codecs (eip1559 tx) rest v =
          by_type codecs.eip1559_codec tx rest (omega arith)
          ∙ typed-eip1559 codecs.eip1559_codec tx rest v
      decode_2718-encode_2718 laws codecs (eip7702 tx) rest v =
          by_type codecs.eip7702_codec tx rest (omega arith)
          ∙ typed-eip7702 codecs.eip7702_codec tx rest v
      decode_2718-encode_2718 laws codecs (l1_message tx) rest v =
          d.typed_lem typed_decode fallback_decode 0x7e (rlp_encode rlp tx ++ rest) (omega arith)
          ∙ typed-l1_message laws tx rest v

    -- The length that is announced for a valid transaction is the length of its encoding.
    pub length-encode_2718 :
        IsAlloyRlp rlp
        → (Valid : ScrollTxType → S → Type 0) → IsAlloyTransactions Valid
        → (tx : ScrollTxEnvelope S) → IsValid Valid tx
        → length (encode_2718 tx) ≡ encode_2718_len tx
    unfolding encode_2718 encode_2718_len
    length-encode_2718 laws V codecs (legacy tx) v = codecs.legacy_codec.length-encode tx v
    length-encode_2718 laws V codecs (eip2930 tx) v = codecs.eip2930_codec.length-encode tx v
    length-encode_2718 laws V codecs (eip1559 tx) v = codecs.eip1559_codec.length-encode tx v
    length-encode_2718 laws V codecs (eip7702 tx) v = codecs.eip7702_codec.length-encode tx v
    length-encode_2718 laws V codecs (l1_message tx) v = length-eip2718_encode rlp laws tx v

    wrap_ne :
        {A : Type 0} (f : A → ScrollTxEnvelope S) (r : Decoded A) (t : ℕ)
        → wrap f r ≢ err (unexpected_type t)
    wrap_ne f (ok (a, buf)) t h = cc
    wrap_ne f (err e) t h = cc

    decode_as-ne :
        (buf : List ℕ) (ty : ScrollTxType) (t : ℕ) → decode_as buf ty ≢ err (unexpected_type t)
    decode_as-ne buf ScrollTxType.legacy t h = cc
    decode_as-ne buf ScrollTxType.eip2930 t h = wrap_ne eip2930 _ t h
    decode_as-ne buf ScrollTxType.eip1559 t h = wrap_ne eip1559 _ t h
    decode_as-ne buf ScrollTxType.eip7702 t h = wrap_ne eip7702 _ t h
    decode_as-ne buf ScrollTxType.l1_message t h = wrap_ne l1_message _ t h

    -- A typed transaction is refused for its type, with the byte that was read, exactly when the byte
    -- is that of no transaction type.
    pub typed_decode-unexpected_type :
        (ty : ℕ) (buf : List ℕ) (t : ℕ)
        → (typed_decode ty buf ≡ err (unexpected_type t))
          ↔ ((t ≡ ty) × ((known : ScrollTxType) → ty ≢ as_u8 known))
    unfolding typed_decode
    typed_decode-unexpected_type ty buf t = elim (Result-cases (try_from_u8 ty)) [
      | inl (known, e) ↦
          let is = try_from_u8_iff ty known in
          (λ h. absurd (decode_as-ne buf known t (rw e at h)), λ h. absurd (h.1 known (is.0 e)))
      | inr (e', e) ↦ (
        λ h. (
          let same = rw e at h in cc,
          λ known is. let found = (try_from_u8_iff ty known).1 is in cc,
        ),
        λ h. rw e (ap (λ n. err (unexpected_type n)) (sym h.0)),
      )
    ]
