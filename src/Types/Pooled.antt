-- ===== src/Types/Pooled.antt =====
-- crates/dogeos-protocol-types/src/transaction/pooled.rs: the transactions that peers exchange, with
-- their EIP-2718 encoding, and `try_into_pooled` of envelope.rs.
use dogeos_reth.Prelude.{
  ℕ, ◌≡◌, refl, ap, sym, inl, inr, Option, none, some, List, [], ◌∷◌, Result, ok, err, ◌>>=◌,
  map_err, arith, ltb, Bool-cases,
}
use dogeos_reth.Types.Rlp.{custom, AlloyRlp, Decoded}
use dogeos_reth.Types.L1Message.{Eip2718Error, unexpected_type, rlp_error, rlp_decode}
use dogeos_reth.Types.Envelope.{AlloyTransactions, SignedCodec, Decoded2718, Decodable2718, wrap}
use dogeos_reth.Types.Envelope
use dogeos_reth.Types.Transaction.{ScrollTxEnvelope, TxL1Message, l1_message}
use dogeos_reth.Types.TxType.{ScrollTxType, TxTypeError, as_u8, try_from_u8}

pub data ScrollPooledTransaction (S : Type 0) : Type 0 where
  legacy eip2930 eip1559 eip7702 : S → ScrollPooledTransaction S

-- A type byte that is none of the types is an RLP error here.
abbrev custom_error : {A : Type 0} → Result TxTypeError A → Result Eip2718Error A
custom_error r = map_err (λ e. rlp_error custom) r

module _ {S : Type 0} where
  unfoldable pub into_scroll_envelope : ScrollPooledTransaction S → ScrollTxEnvelope S
  into_scroll_envelope (legacy tx) = ScrollTxEnvelope.legacy tx
  into_scroll_envelope (eip2930 tx) = ScrollTxEnvelope.eip2930 tx
  into_scroll_envelope (eip1559 tx) = ScrollTxEnvelope.eip1559 tx
  into_scroll_envelope (eip7702 tx) = ScrollTxEnvelope.eip7702 tx

  -- The error gives the envelope back.
  unfoldable pub try_into_pooled :
      ScrollTxEnvelope S → Result (ScrollTxEnvelope S) (ScrollPooledTransaction S)
  try_into_pooled (ScrollTxEnvelope.legacy tx) = ok (legacy tx)
  try_into_pooled (ScrollTxEnvelope.eip2930 tx) = ok (eip2930 tx)
  try_into_pooled (ScrollTxEnvelope.eip1559 tx) = ok (eip1559 tx)
  try_into_pooled (ScrollTxEnvelope.eip7702 tx) = ok (eip7702 tx)
  try_into_pooled (l1_message tx) = err (l1_message tx)

  unfoldable pub type_flag : ScrollPooledTransaction S → Option ℕ
  type_flag (legacy _) = none
  type_flag (eip2930 _) = some 0x01
  type_flag (eip1559 _) = some 0x02
  type_flag (eip7702 _) = some 0x04

  unfoldable pub signature : {Sig : Type 0} → (S → Sig) → ScrollPooledTransaction S → Sig
  signature of (legacy tx) = of tx
  signature of (eip2930 tx) = of tx
  signature of (eip1559 tx) = of tx
  signature of (eip7702 tx) = of tx

  module _ (txs : AlloyTransactions S) where
    open txs use {tx_legacy, tx_eip2930, tx_eip1559, tx_eip7702}

    unfoldable pub encode_2718 : ScrollPooledTransaction S → List ℕ
    encode_2718 (legacy tx) = tx_legacy.eip2718_encode tx
    encode_2718 (eip2930 tx) = tx_eip2930.eip2718_encode tx
    encode_2718 (eip1559 tx) = tx_eip1559.eip2718_encode tx
    encode_2718 (eip7702 tx) = tx_eip7702.eip2718_encode tx

    unfoldable pub encode_2718_len : ScrollPooledTransaction S → ℕ
    encode_2718_len (legacy tx) = tx_legacy.eip2718_encoded_length tx
    encode_2718_len (eip2930 tx) = tx_eip2930.eip2718_encoded_length tx
    encode_2718_len (eip1559 tx) = tx_eip1559.eip2718_encoded_length tx
    encode_2718_len (eip7702 tx) = tx_eip7702.eip2718_encoded_length tx

    abbrev decode_as : List ℕ → ScrollTxType → Decoded2718 (ScrollPooledTransaction S)
    decode_as buf ScrollTxType.eip2930 = wrap eip2930 (tx_eip2930.rlp_decode_signed buf)
    decode_as buf ScrollTxType.eip1559 = wrap eip1559 (tx_eip1559.rlp_decode_signed buf)
    decode_as buf ScrollTxType.eip7702 = wrap eip7702 (tx_eip7702.rlp_decode_signed buf)
    decode_as buf ScrollTxType.legacy = err (unexpected_type (as_u8 ScrollTxType.legacy))
    decode_as buf ScrollTxType.l1_message = err (unexpected_type (as_u8 ScrollTxType.l1_message))

    unfoldable pub typed_decode : ℕ → List ℕ → Decoded2718 (ScrollPooledTransaction S)
    typed_decode ty buf = custom_error (try_from_u8 ty) >>= decode_as buf

    unfoldable pub fallback_decode : List ℕ → Decoded2718 (ScrollPooledTransaction S)
    fallback_decode buf = wrap legacy (tx_legacy.rlp_decode_signed buf)

    -- Both results are the same transaction with the same bytes left, or the pooled decoder refuses
    -- and the other one does too or has an L1 message.
    abbrev pub Agree :
        Decoded2718 (ScrollPooledTransaction S) → Decoded2718 (ScrollTxEnvelope S) → Type 0
    Agree (ok (p, buf)) r = r ≡ ok (into_scroll_envelope p, buf)
    Agree (err e) (ok (tx, buf)) = try_into_pooled tx ≡ err tx
    Agree (err e) (err e') = Unit {0}

    module _ (rlp : AlloyRlp) where
      wrap-Agree :
          (f : S → ScrollPooledTransaction S) (g : S → ScrollTxEnvelope S)
          → ((tx : S) → into_scroll_envelope (f tx) ≡ g tx)
          → (r : Decoded S) → Agree (wrap f r) (wrap g r)
      wrap-Agree f g same (ok (tx, buf)) = ap (λ e. ok (e, buf)) (sym (same tx))
      wrap-Agree f g same (err e) = tt

      l1_message-Agree :
          (r : Decoded TxL1Message) (e : Eip2718Error) → Agree (err e) (wrap l1_message r)
      unfolding try_into_pooled
      l1_message-Agree (ok (tx, buf)) e = refl
      l1_message-Agree (err e') e = tt

      decode_as-Agree :
          (buf : List ℕ) (ty : ℕ) (r : Result TxTypeError ScrollTxType)
          → Agree
              (custom_error r >>= decode_as buf)
              (Envelope.unexpected ty r >>= Envelope.decode_as rlp txs buf)
      unfolding into_scroll_envelope
      decode_as-Agree buf ty (ok ScrollTxType.legacy) = tt
      decode_as-Agree buf ty (ok ScrollTxType.eip2930) =
          wrap-Agree eip2930 ScrollTxEnvelope.eip2930 (λ tx. refl)
            (tx_eip2930.rlp_decode_signed buf)
      decode_as-Agree buf ty (ok ScrollTxType.eip1559) =
          wrap-Agree eip1559 ScrollTxEnvelope.eip1559 (λ tx. refl)
            (tx_eip1559.rlp_decode_signed buf)
      decode_as-Agree buf ty (ok ScrollTxType.eip7702) =
          wrap-Agree eip7702 ScrollTxEnvelope.eip7702 (λ tx. refl)
            (tx_eip7702.rlp_decode_signed buf)
      decode_as-Agree buf ty (ok ScrollTxType.l1_message) =
          l1_message-Agree (rlp_decode rlp buf) (unexpected_type (as_u8 ScrollTxType.l1_message))
      decode_as-Agree buf ty (err e) = tt

      fallback_decode-Agree :
          (buf : List ℕ) → Agree (fallback_decode buf) (Envelope.fallback_decode rlp txs buf)
      unfolding fallback_decode Envelope.fallback_decode into_scroll_envelope
      fallback_decode-Agree buf =
          wrap-Agree legacy ScrollTxEnvelope.legacy (λ tx. refl) (tx_legacy.rlp_decode_signed buf)

      typed_decode-Agree :
          (ty : ℕ) (buf : List ℕ)
          → Agree (typed_decode ty buf) (Envelope.typed_decode rlp txs ty buf)
      unfolding typed_decode Envelope.typed_decode
      typed_decode-Agree ty buf = decode_as-Agree buf ty (try_from_u8 ty)

      -- On every byte string, the decoder of pooled transactions and that of envelopes agree: where the
      -- first returns a transaction, the second returns the same one in an envelope and leaves the
      -- same bytes; where the first refuses, the second refuses or returns what cannot be pooled.
      pub pooled_decoder_agrees :
          (d : Decodable2718 (ScrollPooledTransaction S)) (d' : Decodable2718 (ScrollTxEnvelope S))
          (buf : List ℕ)
          → Agree (d.decode_2718 typed_decode fallback_decode buf) (
              d'.decode_2718 (Envelope.typed_decode rlp txs) (Envelope.fallback_decode rlp txs) buf)
      pooled_decoder_agrees d d' [] =
          rw
            (
              d.empty_lem typed_decode fallback_decode,
              d'.empty_lem (Envelope.typed_decode rlp txs) (Envelope.fallback_decode rlp txs),
            )
            (fallback_decode-Agree [])
      pooled_decoder_agrees d d' (byte ∷ buf) = elim (Bool-cases (ltb byte 128)) [
        | inl low ↦
            rw
              (
                d.typed_lem typed_decode fallback_decode byte buf (ground arith),
                d'.typed_lem (Envelope.typed_decode rlp txs) (Envelope.fallback_decode rlp txs) byte
                    buf (ground arith),
              )
              (typed_decode-Agree byte buf)
        | inr high ↦
            rw
              (
                d.fallback_lem typed_decode fallback_decode byte buf (ground arith),
                d'.fallback_lem (Envelope.typed_decode rlp txs) (Envelope.fallback_decode rlp txs)
                    byte buf (ground arith),
              )
              (fallback_decode-Agree (byte ∷ buf))
      ]
