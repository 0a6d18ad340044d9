-- ===== src/Types/ReceiptRlp/RoundTrip.antt =====
-- The encodings of receipts with a bloom: what is read back, and the announced lengths.
use dogeos_reth.Prelude.{
  ℕ, ◌+◌, ◌<◌, ◌≡◌, refl, ap, ◌∙◌, inl, inr, true, false, List, ◌∷◌, ◌++◌, ok, length,
  length-append, take-append, drop-append, arith,
}
use dogeos_reth.Types.Rlp.{RlpHeader, AlloyRlp, IsAlloyRlp}
use dogeos_reth.Types.Receipt.{
  Receipt, ScrollTransactionReceipt, ScrollReceipt, legacy, eip2930, eip1559, eip7702, l1_message,
  tx_type, as_receipt,
}
use dogeos_reth.Types.ReceiptRlp.{
  ReceiptWithBloom, AlloyReceipts, IsAlloyReceipts, rlp_decode_fields_with_bloom,
  rlp_decode_with_bloom_of_transaction, rlp_encoded_fields_length, rlp_encode_fields,
  rlp_header_inner, rlp_decode_inner, eip2718_encoded_length_with_bloom, eip2718_encode_with_bloom,
  rlp_encoded_length_with_bloom, rlp_encode_with_bloom, decode_tx_type, rlp_decode_typed,
  rlp_decode_with_bloom, string_header, flag_byte, flag_length, is_legacy,
}
use dogeos_reth.Types.TxType.{ScrollTxType, as_u8, try_from_u8, try_from_u8_iff}
use mathlib.Core.List.{append_assoc}

module _ {L : Type 0} where
  -- The receipt without its L1 fee, which the encodings do not have.
  abbrev pub forget_fee : ScrollReceipt L → ScrollReceipt L
  forget_fee (legacy r) = legacy (record { inner = r.inner; l1_fee = 0 })
  forget_fee (eip2930 r) = eip2930 (record { inner = r.inner; l1_fee = 0 })
  forget_fee (eip1559 r) = eip1559 (record { inner = r.inner; l1_fee = 0 })
  forget_fee (eip7702 r) = eip7702 (record { inner = r.inner; l1_fee = 0 })
  forget_fee (l1_message r) = l1_message r

  pub length-flag : (r : ScrollReceipt L) → length (flag_byte r) ≡ flag_length r
  unfolding tx_type
  length-flag (legacy r) = refl
  length-flag (eip2930 r) = refl
  length-flag (eip1559 r) = refl
  length-flag (eip7702 r) = refl
  length-flag (l1_message r) = refl

-- A receipt of another type than legacy has a type byte from 1 to 127.
pub typed_byte :
    (ty : ScrollTxType)
    → is_legacy ty ≡ false
    → (0 < as_u8 ty) × (as_u8 ty < 128) × (try_from_u8 (as_u8 ty) ≡ ok ty)
typed_byte ScrollTxType.legacy e = cc
typed_byte ScrollTxType.eip2930 e =
    (omega arith, omega arith, (try_from_u8_iff _ ScrollTxType.eip2930).1 refl)
typed_byte ScrollTxType.eip1559 e =
    (omega arith, omega arith, (try_from_u8_iff _ ScrollTxType.eip1559).1 refl)
typed_byte ScrollTxType.eip7702 e =
    (omega arith, omega arith, (try_from_u8_iff _ ScrollTxType.eip7702).1 refl)
typed_byte ScrollTxType.l1_message e =
    (omega arith, omega arith, (try_from_u8_iff _ ScrollTxType.l1_message).1 refl)

module _ {L Bl : Type 0} (rlp : AlloyRlp) (receipts : AlloyReceipts L Bl)
    (Valid : Receipt L → Type 0) (laws : IsAlloyRlp rlp)
    (codec : IsAlloyReceipts rlp receipts Valid) where
  open rlp use {header}

  transaction-list :
      (r : Receipt L) (b : Bl) (rest : List ℕ)
      → Valid r
      → rlp_decode_with_bloom_of_transaction rlp receipts (
          header.encode
            (record { list = true; payload_length = receipts.encoded_fields_length_with_bloom r b })
          ++ (receipts.encode_fields_with_bloom r b ++ rest))
        ≡ ok (record { receipt = record { inner = r; l1_fee = 0 }; logs_bloom = b }, rest)
  unfolding rlp_decode_with_bloom_of_transaction rlp_decode_fields_with_bloom
  transaction-list r b rest v =
      let fields = receipts.encode_fields_with_bloom r b in
      let exact = codec.length-fields r b v in
      let total = length-append fields rest in
      let head =
        laws.decode-header
          (record { list = true; payload_length = receipts.encoded_fields_length_with_bloom r b })
          (fields ++ rest) (omega arith) (inl refl) in
      let first = take-append fields rest _ exact in
      let last = drop-append fields rest _ exact in
      simp (head, first, last, codec.decode-fields r b v) (ground arith)

  inner-list :
      (r : ScrollReceipt L) (b : Bl) (rest : List ℕ)
      → Valid (as_receipt r)
      → rlp_decode_inner rlp receipts
          (header.encode (rlp_header_inner rlp receipts r b)
            ++ (rlp_encode_fields rlp receipts r b ++ rest))
          (tx_type r)
        ≡ ok (record { receipt = forget_fee r; logs_bloom = b }, rest)
  unfolding as_receipt tx_type rlp_decode_inner rlp_header_inner rlp_encode_fields
      rlp_encoded_fields_length
  inner-list (legacy r) b rest v = rw (transaction-list r.inner b rest v)
  inner-list (eip2930 r) b rest v = rw (transaction-list r.inner b rest v)
  inner-list (eip1559 r) b rest v = rw (transaction-list r.inner b rest v)
  inner-list (eip7702 r) b rest v = rw (transaction-list r.inner b rest v)
  inner-list (l1_message r) b rest v = rw (codec.decode-list r b rest v)

  length-fields :
      (r : ScrollReceipt L) (b : Bl)
      → Valid (as_receipt r)
      → length (rlp_encode_fields rlp receipts r b) ≡ rlp_encoded_fields_length rlp receipts r b
  unfolding as_receipt rlp_encode_fields rlp_encoded_fields_length
  length-fields (legacy r) b v = codec.length-fields r.inner b v
  length-fields (eip2930 r) b v = codec.length-fields r.inner b v
  length-fields (eip1559 r) b v = codec.length-fields r.inner b v
  length-fields (eip7702 r) b v = codec.length-fields r.inner b v
  length-fields (l1_message r) b v = codec.length-fields r b v

  -- The list that follows the type byte.
  abbrev body : ScrollReceipt L → Bl → List ℕ
  body r b = header.encode (rlp_header_inner rlp receipts r b) ++ rlp_encode_fields rlp receipts r b

  length-body :
      (r : ScrollReceipt L) (b : Bl)
      → Valid (as_receipt r)
      → length (body r b) ≡ rlp.length_with_payload (rlp_header_inner rlp receipts r b)
  unfolding rlp_header_inner
  length-body r b v = omega (
    arith,
    length-append (header.encode (rlp_header_inner rlp receipts r b))
        (rlp_encode_fields rlp receipts r b),
    laws.length-header (rlp_header_inner rlp receipts r b),
    laws.length_with_payload_lem (rlp_header_inner rlp receipts r b),
    length-fields r b v,
  )

  length-eip2718_encode_with_bloom :
      (r : ScrollReceipt L) (b : Bl)
      → Valid (as_receipt r)
      → length (eip2718_encode_with_bloom rlp receipts r b)
        ≡ eip2718_encoded_length_with_bloom rlp receipts r b
  unfolding eip2718_encode_with_bloom eip2718_encoded_length_with_bloom
  length-eip2718_encode_with_bloom r b v =
      omega (arith, length-append (flag_byte r) (body r b), length-flag r, length-body r b v)

  length-typed :
      (r : ScrollReceipt L) (b : Bl)
      → is_legacy (tx_type r) ≡ false
      → Valid (as_receipt r)
      → length (rlp_encode_with_bloom rlp receipts r b)
        ≡ rlp_encoded_length_with_bloom rlp receipts r b
  unfolding rlp_encode_with_bloom rlp_encoded_length_with_bloom
  length-typed r b e v =
      let inner = length-eip2718_encode_with_bloom r b v in
      let head = laws.length-header (string_header rlp receipts r b) in
      let total =
        length-append (header.encode (string_header rlp receipts r b))
          (eip2718_encode_with_bloom rlp receipts r b) in
      rw e (omega (arith, inner, head, total))

  encoded_bytes :
      (r : ScrollReceipt L) (b : Bl) (rest : List ℕ)
      → is_legacy (tx_type r) ≡ false
      → eip2718_encode_with_bloom rlp receipts r b ++ rest
        ≡ as_u8 (tx_type r)
          ∷ (header.encode (rlp_header_inner rlp receipts r b)
              ++ (rlp_encode_fields rlp receipts r b ++ rest))
  unfolding eip2718_encode_with_bloom
  encoded_bytes r b rest e = rw e (ap (λ l. as_u8 (tx_type r) ∷ l) (append_assoc _ _ rest))

  typed_steps :
      (head : RlpHeader) (buf tail rest : List ℕ) (ty : ScrollTxType)
      (x : ReceiptWithBloom (ScrollReceipt L) Bl)
      → rlp.u8.decode buf ≡ ok (as_u8 ty, tail)
      → try_from_u8 (as_u8 ty) ≡ ok ty
      → rlp_decode_inner rlp receipts tail ty ≡ ok (x, rest)
      → length rest + head.payload_length ≡ length buf
      → rlp_decode_typed rlp receipts head buf ≡ ok (x, rest)
  unfolding decode_tx_type
  typed_steps head buf tail rest ty x read known inner exact =
      simp (read, known, inner, exact) (ground arith)

  decode_typed :
      (r : ScrollReceipt L) (b : Bl) (rest : List ℕ)
      → is_legacy (tx_type r) ≡ false
      → Valid (as_receipt r)
      → rlp_decode_typed rlp receipts
          (string_header rlp receipts r b)
          (eip2718_encode_with_bloom rlp receipts r b ++ rest)
        ≡ ok (record { receipt = forget_fee r; logs_bloom = b }, rest)
  decode_typed r b rest e v =
      let byte = typed_byte (tx_type r) e in
      let exact = length-eip2718_encode_with_bloom r b v in
      let total = length-append (eip2718_encode_with_bloom rlp receipts r b) rest in
      typed_steps (string_header rlp receipts r b)
        (eip2718_encode_with_bloom rlp receipts r b ++ rest)
        (header.encode (rlp_header_inner rlp receipts r b)
          ++ (rlp_encode_fields rlp receipts r b ++ rest))
        rest (tx_type r) (record { receipt = forget_fee r; logs_bloom = b })
        (ap (λ bytes. rlp.u8.decode bytes) (encoded_bytes r b rest e)
          ∙ laws.u8_byte (as_u8 (tx_type r)) _ byte.0 byte.1)
        byte.2 (inner-list r b rest v) (omega (arith, exact, total))

  -- The announced length of the network encoding of a receipt is its length.
  pub length-rlp_encode_with_bloom :
      (r : ScrollReceipt L) (b : Bl)
      → Valid (as_receipt r)
      → length (rlp_encode_with_bloom rlp receipts r b)
        ≡ rlp_encoded_length_with_bloom rlp receipts r b
  unfolding rlp_encode_with_bloom rlp_encoded_length_with_bloom tx_type
  length-rlp_encode_with_bloom (legacy r) b v =
      omega (arith, length-eip2718_encode_with_bloom (legacy r) b v)
  length-rlp_encode_with_bloom (eip2930 r) b v = length-typed (eip2930 r) b refl v
  length-rlp_encode_with_bloom (eip1559 r) b v = length-typed (eip1559 r) b refl v
  length-rlp_encode_with_bloom (eip7702 r) b v = length-typed (eip7702 r) b refl v
  length-rlp_encode_with_bloom (l1_message r) b v = length-typed (l1_message r) b refl v

  -- The string header announces more than one byte: the type byte and a list header.
  string_long :
      (r : ScrollReceipt L) (b : Bl)
      → is_legacy (tx_type r) ≡ false
      → 1 < (string_header rlp receipts r b).payload_length
  unfolding eip2718_encoded_length_with_bloom rlp_header_inner
  string_long r b e =
      let inner = rlp_header_inner rlp receipts r b in
      let announced = laws.length-header inner in
      let payload = laws.length_with_payload_lem inner in
      let first = laws.list_head inner refl in
      let filled = rw first.3 at announced in rw e (omega (arith, filled, payload))

  round_trip_typed :
      (r : ScrollReceipt L) (b : Bl) (rest : List ℕ)
      → is_legacy (tx_type r) ≡ false
      → Valid (as_receipt r)
      → rlp_decode_with_bloom rlp receipts (rlp_encode_with_bloom rlp receipts r b ++ rest)
        ≡ ok (record { receipt = forget_fee r; logs_bloom = b }, rest)
  unfolding rlp_encode_with_bloom rlp_decode_with_bloom
  round_trip_typed r b rest e v =
      let exact = length-eip2718_encode_with_bloom r b v in
      let total = length-append (eip2718_encode_with_bloom rlp receipts r b) rest in
      let head =
        laws.decode-header (string_header rlp receipts r b)
          (eip2718_encode_with_bloom rlp receipts r b ++ rest) (omega (arith, exact, total))
          (inr (string_long r b e)) in
      rw (e, append_assoc, head) (decode_typed r b rest e v)

  decode-header_inner :
      (r : ScrollReceipt L) (b : Bl) (rest : List ℕ)
      → Valid (as_receipt r)
      → header.decode (
          header.encode (rlp_header_inner rlp receipts r b)
          ++ (rlp_encode_fields rlp receipts r b ++ rest))
        ≡ ok (rlp_header_inner rlp receipts r b, rlp_encode_fields rlp receipts r b ++ rest)
  unfolding rlp_header_inner
  decode-header_inner r b rest v =
      let exact = length-fields r b v in
      let total = length-append (rlp_encode_fields rlp receipts r b) rest in
      laws.decode-header (rlp_header_inner rlp receipts r b)
        (rlp_encode_fields rlp receipts r b ++ rest) (omega (arith, exact, total)) (inl refl)

  legacy_bytes :
      (r : ScrollTransactionReceipt L) (b : Bl) (rest : List ℕ)
      → rlp_encode_with_bloom rlp receipts (legacy r) b ++ rest
        ≡ header.encode (rlp_header_inner rlp receipts (legacy r) b)
          ++ (rlp_encode_fields rlp receipts (legacy r) b ++ rest)
  unfolding rlp_encode_with_bloom eip2718_encode_with_bloom tx_type
  legacy_bytes r b rest = append_assoc _ _ rest

  round_trip_legacy :
      (r : ScrollTransactionReceipt L) (b : Bl) (rest : List ℕ)
      → Valid r.inner
      → rlp_decode_with_bloom rlp receipts (rlp_encode_with_bloom rlp receipts (legacy r) b ++ rest)
        ≡ ok (record { receipt = forget_fee (legacy r); logs_bloom = b }, rest)
  unfolding rlp_decode_with_bloom rlp_header_inner as_receipt tx_type
  round_trip_legacy r b rest v =
      rw (legacy_bytes r b rest, decode-header_inner (legacy r) b rest v)
        (inner-list (legacy r) b rest v)

  -- A network encoding of a receipt with its bloom, followed by any bytes, is read back without the
  -- L1 fee, and the reader stops right before those bytes.
  pub rlp_decode-rlp_encode_with_bloom :
      (r : ScrollReceipt L) (b : Bl) (rest : List ℕ)
      → Valid (as_receipt r)
      → rlp_decode_with_bloom rlp receipts (rlp_encode_with_bloom rlp receipts r b ++ rest)
        ≡ ok (record { receipt = forget_fee r; logs_bloom = b }, rest)
  unfolding as_receipt tx_type
  rlp_decode-rlp_encode_with_bloom (legacy r) b rest v = round_trip_legacy r b rest v
  rlp_decode-rlp_encode_with_bloom (eip2930 r) b rest v = round_trip_typed (eip2930 r) b rest refl v
  rlp_decode-rlp_encode_with_bloom (eip1559 r) b rest v = round_trip_typed (eip1559 r) b rest refl v
  rlp_decode-rlp_encode_with_bloom (eip7702 r) b rest v = round_trip_typed (eip7702 r) b rest refl v
  rlp_decode-rlp_encode_with_bloom (l1_message r) b rest v =
      round_trip_typed (l1_message r) b rest refl v
