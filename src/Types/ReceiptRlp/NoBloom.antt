-- ===== src/Types/ReceiptRlp/NoBloom.antt =====
-- crates/dogeos-reth-primitives/src/receipt.rs: the encodings of receipts without a bloom, which are
-- their EIP-2718 encodings.
use dogeos_reth.Prelude.{
  ℕ, ◌+◌, ◌≡◌, refl, ap, ◌∙◌, inl, true, false, not, List, ◌∷◌, ◌++◌, ok, ◌>>=◌, ◌>>◌, reject_if,
  map_err, length, length-append, ◌==◌, arith,
}
use dogeos_reth.Types.Rlp.{
  unexpected_string, unexpected_length, Decoded, RlpHeader, AlloyRlp, IsAlloyRlp,
}
use dogeos_reth.Types.L1Message.{rlp_error}
use dogeos_reth.Types.Envelope.{Decoded2718, Decodable2718, unexpected}
use dogeos_reth.Types.Receipt.{
  Receipt, ScrollTransactionReceipt, ScrollReceipt, legacy, eip2930, eip1559, eip7702, l1_message,
  tx_type, as_receipt,
}
use dogeos_reth.Types.ReceiptRlp.{AlloyReceipts, IsAlloyReceipts, flag_byte, flag_length, is_legacy}
use dogeos_reth.Types.ReceiptRlp.RoundTrip.{forget_fee, typed_byte, length-flag}
use dogeos_reth.Types.TxType.{ScrollTxType, as_u8, try_from_u8}
use mathlib.Core.List.{append_assoc}

module _ {L : Type 0} where
  unfoldable pub l1_fee : ScrollReceipt L → ℕ
  l1_fee (legacy receipt) = receipt.l1_fee
  l1_fee (eip2930 receipt) = receipt.l1_fee
  l1_fee (eip1559 receipt) = receipt.l1_fee
  l1_fee (eip7702 receipt) = receipt.l1_fee
  l1_fee (l1_message _) = 0

  -- The last `match` of `rlp_decode_inner_without_bloom`.
  abbrev pub receipt_of_type : Receipt L → ScrollTxType → ScrollReceipt L
  receipt_of_type inner ScrollTxType.legacy = legacy (record { inner = inner; l1_fee = 0 })
  receipt_of_type inner ScrollTxType.eip2930 = eip2930 (record { inner = inner; l1_fee = 0 })
  receipt_of_type inner ScrollTxType.eip1559 = eip1559 (record { inner = inner; l1_fee = 0 })
  receipt_of_type inner ScrollTxType.eip7702 = eip7702 (record { inner = inner; l1_fee = 0 })
  receipt_of_type inner ScrollTxType.l1_message = l1_message inner

  receipt_of_type-as_receipt :
      (r : ScrollReceipt L) → receipt_of_type (as_receipt r) (tx_type r) ≡ forget_fee r
  unfolding as_receipt tx_type
  receipt_of_type-as_receipt (legacy r) = refl
  receipt_of_type-as_receipt (eip2930 r) = refl
  receipt_of_type-as_receipt (eip1559 r) = refl
  receipt_of_type-as_receipt (eip7702 r) = refl
  receipt_of_type-as_receipt (l1_message r) = refl

  -- What decoding loses is the fee alone: no fee is left, and the type and the receipt are kept.
  pub forget_fee_lem :
      (r : ScrollReceipt L)
      → (l1_fee (forget_fee r) ≡ 0)
        × (tx_type (forget_fee r) ≡ tx_type r)
        × (as_receipt (forget_fee r) ≡ as_receipt r)
  unfolding l1_fee tx_type as_receipt
  forget_fee_lem (legacy r) = (refl, refl, refl)
  forget_fee_lem (eip2930 r) = (refl, refl, refl)
  forget_fee_lem (eip1559 r) = (refl, refl, refl)
  forget_fee_lem (eip7702 r) = (refl, refl, refl)
  forget_fee_lem (l1_message r) = (refl, refl, refl)

module _ {L Bl : Type 0} (rlp : AlloyRlp) (receipts : AlloyReceipts L Bl) where
  open rlp use {header, u64, length_with_payload}
  open receipts use {status, logs}

  unfoldable pub rlp_encode_fields_without_bloom : ScrollReceipt L → List ℕ
  rlp_encode_fields_without_bloom r =
      status.encode ((as_receipt r).status)
      ++ (u64.encode ((as_receipt r).cumulative_gas_used) ++ logs.encode ((as_receipt r).logs))

  unfoldable pub rlp_encoded_fields_length_without_bloom : ScrollReceipt L → ℕ
  rlp_encoded_fields_length_without_bloom r =
      status.encoded_length ((as_receipt r).status)
      + u64.encoded_length ((as_receipt r).cumulative_gas_used)
      + logs.encoded_length ((as_receipt r).logs)

  unfoldable pub rlp_header_inner_without_bloom : ScrollReceipt L → RlpHeader
  rlp_header_inner_without_bloom r = record {
    list = true;
    payload_length = rlp_encoded_fields_length_without_bloom r;
  }

  unfoldable pub rlp_decode_inner_without_bloom : List ℕ → ScrollTxType → Decoded (ScrollReceipt L)
  rlp_decode_inner_without_bloom buf ty = do
    head ← header.decode buf
    reject_if (not head.0.list) unexpected_string
    s ← status.decode head.1
    cumulative_gas_used ← u64.decode s.1
    l ← logs.decode cumulative_gas_used.1
    reject_if (not (length l.1 + head.0.payload_length == length head.1)) unexpected_length
    ok (
      receipt_of_type
          (record { status = s.0; cumulative_gas_used = cumulative_gas_used.0; logs = l.0 }) ty,
      l.1,
    )

  unfoldable pub encode_2718_len : ScrollReceipt L → ℕ
  encode_2718_len r = flag_length r + length_with_payload (rlp_header_inner_without_bloom r)

  unfoldable pub encode_2718 : ScrollReceipt L → List ℕ
  encode_2718 r =
      flag_byte r
      ++ (header.encode (rlp_header_inner_without_bloom r) ++ rlp_encode_fields_without_bloom r)

  unfoldable pub typed_decode : ℕ → List ℕ → Decoded2718 (ScrollReceipt L)
  typed_decode ty buf = do
    tx_type ← unexpected ty (try_from_u8 ty)
    map_err rlp_error (rlp_decode_inner_without_bloom buf tx_type)

  unfoldable pub fallback_decode : List ℕ → Decoded2718 (ScrollReceipt L)
  fallback_decode buf = map_err rlp_error (rlp_decode_inner_without_bloom buf ScrollTxType.legacy)

  module _ (Valid : Receipt L → Type 0) (laws : IsAlloyRlp rlp)
      (codec : IsAlloyReceipts rlp receipts Valid) where
    length-fields :
        (r : ScrollReceipt L)
        → Valid (as_receipt r)
        → length (rlp_encode_fields_without_bloom r) ≡ rlp_encoded_fields_length_without_bloom r
    unfolding rlp_encode_fields_without_bloom rlp_encoded_fields_length_without_bloom
    length-fields r v =
        simp
          (
            length-append,
            codec.status_codec.length-encode,
            laws.u64_codec.length-encode,
            codec.length-logs (as_receipt r) v,
            codec.gas_fits (as_receipt r) v,
          )
          (omega arith)

    -- The announced length of the EIP-2718 encoding of a receipt is its length.
    pub length-encode_2718 :
        (r : ScrollReceipt L) → Valid (as_receipt r) → length (encode_2718 r) ≡ encode_2718_len r
    unfolding encode_2718 encode_2718_len rlp_header_inner_without_bloom
    length-encode_2718 r v =
        let inner = rlp_header_inner_without_bloom r in
        omega (
          arith,
          length-flag r,
          laws.length-header inner,
          laws.length_with_payload_lem inner,
          length-fields r v,
          length-append (header.encode inner) (rlp_encode_fields_without_bloom r),
          length-append (flag_byte r) (header.encode inner ++ rlp_encode_fields_without_bloom r),
        )

    decode_steps :
        (r : Receipt L) (ty : ScrollTxType) (payload : ℕ) (whole buf gas_buf logs_buf rest : List ℕ)
        → header.decode whole ≡ ok (record { list = true; payload_length = payload }, buf)
        → status.decode buf ≡ ok (r.status, gas_buf)
        → u64.decode gas_buf ≡ ok (r.cumulative_gas_used, logs_buf)
        → logs.decode logs_buf ≡ ok (r.logs, rest)
        → length rest + payload ≡ length buf
        → rlp_decode_inner_without_bloom whole ty ≡ ok (receipt_of_type r ty, rest)
    unfolding rlp_decode_inner_without_bloom
    decode_steps r ty payload whole buf gas_buf logs_buf rest head s gas l exact =
        simp (head, s, gas, l, exact) (ground arith)

    decode-fields :
        (r : ScrollReceipt L) (rest : List ℕ)
        → Valid (as_receipt r)
        → rlp_decode_inner_without_bloom
            (header.encode (rlp_header_inner_without_bloom r)
              ++ (rlp_encode_fields_without_bloom r ++ rest))
            (tx_type r)
          ≡ ok (forget_fee r, rest)
    unfolding rlp_header_inner_without_bloom rlp_encode_fields_without_bloom
    decode-fields r rest v =
        let exact = length-fields r v in
        let inner = as_receipt r in
        let buf = rlp_encode_fields_without_bloom r ++ rest in
        let total = length-append (rlp_encode_fields_without_bloom r) rest in
        let head =
          laws.decode-header (rlp_header_inner_without_bloom r) buf (omega (arith, exact, total))
            (inl refl) in
        decode_steps inner (tx_type r) (rlp_encoded_fields_length_without_bloom r) _ buf
          (u64.encode inner.cumulative_gas_used ++ (logs.encode inner.logs ++ rest))
          (logs.encode inner.logs ++ rest) rest head
          (ap (λ b. status.decode b) (simp append_assoc)
            ∙ codec.status_codec.decode-encode inner.status _ tt)
          (laws.u64_codec.decode-encode inner.cumulative_gas_used _ (codec.gas_fits inner v))
          (codec.logs_codec inner rest v) (omega (arith, exact, total))
        ∙ ap (λ x. ok (x, rest)) (receipt_of_type-as_receipt r)

    module _ (d : Decodable2718 (ScrollReceipt L)) where
      typed_bytes :
          (r : ScrollReceipt L) (rest : List ℕ)
          → is_legacy (tx_type r) ≡ false
          → encode_2718 r ++ rest
            ≡ as_u8 (tx_type r)
              ∷ (header.encode (rlp_header_inner_without_bloom r)
                  ++ (rlp_encode_fields_without_bloom r ++ rest))
      unfolding encode_2718
      typed_bytes r rest e = rw e (ap (λ l. as_u8 (tx_type r) ∷ l) (append_assoc _ _ rest))

      round_trip_typed :
          (r : ScrollReceipt L) (rest : List ℕ)
          → is_legacy (tx_type r) ≡ false
          → Valid (as_receipt r)
          → d.decode_2718 typed_decode fallback_decode (encode_2718 r ++ rest)
            ≡ ok (forget_fee r, rest)
      unfolding typed_decode
      round_trip_typed r rest e v =
          let byte = typed_byte (tx_type r) e in
          ap (λ b. d.decode_2718 typed_decode fallback_decode b) (typed_bytes r rest e)
          ∙ d.typed_lem typed_decode fallback_decode (as_u8 (tx_type r)) _ byte.1
          ∙ rw (byte.2, decode-fields r rest v)

      legacy_bytes :
          (r : ScrollTransactionReceipt L) (rest : List ℕ)
          → encode_2718 (legacy r) ++ rest
            ≡ header.encode (rlp_header_inner_without_bloom (legacy r))
              ++ (rlp_encode_fields_without_bloom (legacy r) ++ rest)
      unfolding encode_2718 tx_type
      legacy_bytes r rest = append_assoc _ _ rest

      -- A list header leads to `fallback_decode`.
      by_list :
          (h : RlpHeader) (buf : List ℕ)
          → h.list ≡ true
          → d.decode_2718 typed_decode fallback_decode (header.encode h ++ buf)
            ≡ fallback_decode (header.encode h ++ buf)
      by_list h buf is_list =
          let first = laws.list_head h is_list in
          rw first.3 (d.fallback_lem typed_decode fallback_decode first.0 (first.1 ++ buf) first.2)

      round_trip_legacy :
          (r : ScrollTransactionReceipt L) (rest : List ℕ)
          → Valid (as_receipt (legacy r))
          → d.decode_2718 typed_decode fallback_decode (encode_2718 (legacy r) ++ rest)
            ≡ ok (forget_fee (legacy r), rest)
      unfolding fallback_decode rlp_header_inner_without_bloom tx_type
      round_trip_legacy r rest v =
          ap (λ b. d.decode_2718 typed_decode fallback_decode b) (legacy_bytes r rest)
          ∙ by_list (rlp_header_inner_without_bloom (legacy r)) _ refl
          ∙ ap (λ r'. map_err rlp_error r') (decode-fields (legacy r) rest v)

      -- The EIP-2718 encoding of a receipt, followed by any bytes, is read back without the L1 fee,
      -- and the reader stops right before those bytes.
      pub receipt_decode-encode_2718 :
          (r : ScrollReceipt L) (rest : List ℕ)
          → Valid (as_receipt r)
          → d.decode_2718 typed_decode fallback_decode (encode_2718 r ++ rest)
            ≡ ok (forget_fee r, rest)
      unfolding tx_type
      receipt_decode-encode_2718 (legacy r) rest v = round_trip_legacy r rest v
      receipt_decode-encode_2718 (eip2930 r) rest v = round_trip_typed (eip2930 r) rest refl v
      receipt_decode-encode_2718 (eip1559 r) rest v = round_trip_typed (eip1559 r) rest refl v
      receipt_decode-encode_2718 (eip7702 r) rest v = round_trip_typed (eip7702 r) rest refl v
      receipt_decode-encode_2718 (l1_message r) rest v = round_trip_typed (l1_message r) rest refl v
