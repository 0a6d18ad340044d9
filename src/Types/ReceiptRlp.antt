-- ===== src/Types/ReceiptRlp.antt =====
-- The RLP and EIP-2718 encodings of receipts: crates/dogeos-reth-primitives/src/receipt.rs and
-- crates/dogeos-protocol-types/src/receipt/receipt.rs. alloy's `Receipt` with the encodings of its
-- fields is a parameter, `Bl` stands for its bloom filter. The bytes that a function puts into its
-- output buffer are its result.
pub mod RoundTrip
pub mod NoBloom
use dogeos_reth.Prelude.{
  ℕ, ◌+◌, ◌<◌, ◌^◌, ◌≡◌, refl, ap, ◌∙◌, inl, inr, Bool, true, false, not, Option, none, some, List,
  [], ◌∷◌, ◌++◌, Result, ok, err, ◌>>=◌, ◌>>◌, reject_if, map_err, length, length-append, take,
  drop, take-append, drop-append, ltb, ◌==◌, if◌then◌else◌, arith,
}
use dogeos_reth.Types.Rlp.{
  RlpError, unexpected_string, unexpected_length, input_too_short, custom, Decoded, RlpCodec,
  IsRlpCodec, RlpHeader, AlloyRlp, IsAlloyRlp,
}
use dogeos_reth.Types.L1Message.{Eip2718Error, rlp_error}
use dogeos_reth.Types.Envelope.{Decoded2718, Decodable2718, unexpected}
use dogeos_reth.Types.Receipt.{
  Receipt, ScrollTransactionReceipt, ScrollReceipt, legacy, eip2930, eip1559, eip7702, l1_message,
  tx_type, as_receipt,
}
use dogeos_reth.Types.TxType.{ScrollTxType, as_u8, try_from_u8}
use mathlib.Core.List.{append_assoc}

pub record ReceiptWithBloom (R Bl : Type 0) : Type 0 where
  pub receipt : R
  pub logs_bloom : Bl

pub record AlloyReceipts (L Bl : Type 0) : Type 0 where
  pub encode_fields_with_bloom : Receipt L → Bl → List ℕ
  pub encoded_fields_length_with_bloom : Receipt L → Bl → ℕ
  pub decode_fields_with_bloom : List ℕ → Decoded (ReceiptWithBloom (Receipt L) Bl)
  pub decode_with_bloom : List ℕ → Decoded (ReceiptWithBloom (Receipt L) Bl)
  pub status : RlpCodec Bool
  pub logs : RlpCodec (List L)

-- ScrollTxType::is_legacy
abbrev pub is_legacy : ScrollTxType → Bool
is_legacy ScrollTxType.legacy = true
is_legacy ScrollTxType.eip2930 = false
is_legacy ScrollTxType.eip1559 = false
is_legacy ScrollTxType.eip7702 = false
is_legacy ScrollTxType.l1_message = false

-- A value of `Receipt` that fits, with any bloom, is read back from its fields alone and from a list
-- of them that other bytes follow; so are its parts.
pub record IsAlloyReceipts {L Bl : Type 0} (rlp : AlloyRlp) (receipts : AlloyReceipts L Bl)
    (Valid : Receipt L → Type 0) : Type 0 where
  pub decode-fields :
      (r : Receipt L) (b : Bl)
      → Valid r
      → receipts.decode_fields_with_bloom (receipts.encode_fields_with_bloom r b)
        ≡ ok (record { receipt = r; logs_bloom = b }, [])
  pub decode-list :
      (r : Receipt L) (b : Bl) (rest : List ℕ)
      → Valid r
      → receipts.decode_with_bloom (
          rlp.header.encode
            (record { list = true; payload_length = receipts.encoded_fields_length_with_bloom r b })
          ++ (receipts.encode_fields_with_bloom r b ++ rest))
        ≡ ok (record { receipt = r; logs_bloom = b }, rest)
  pub length-fields :
      (r : Receipt L) (b : Bl)
      → Valid r
      → length (receipts.encode_fields_with_bloom r b)
        ≡ receipts.encoded_fields_length_with_bloom r b
  pub status_codec : IsRlpCodec receipts.status (λ s. Unit {0})
  pub logs_codec :
      (r : Receipt L) (rest : List ℕ)
      → Valid r
      → receipts.logs.decode (receipts.logs.encode r.logs ++ rest) ≡ ok (r.logs, rest)
  pub length-logs :
      (r : Receipt L)
      → Valid r
      → length (receipts.logs.encode r.logs) ≡ receipts.logs.encoded_length r.logs
  pub gas_fits : (r : Receipt L) → Valid r → r.cumulative_gas_used < 2 ^ 64

module _ {L : Type 0} where
  -- `!is_legacy as usize`
  abbrev pub flag_length : ScrollReceipt L → ℕ
  flag_length r = if is_legacy (tx_type r) then 0 else 1

  -- The type byte, which legacy receipts do not have.
  abbrev pub flag_byte : ScrollReceipt L → List ℕ
  flag_byte r = if is_legacy (tx_type r) then [] else as_u8 (tx_type r) ∷ []

module _ {L Bl : Type 0} (rlp : AlloyRlp) (receipts : AlloyReceipts L Bl) where
  open rlp use {header, u8, u64, length_with_payload}
  open receipts use {
    encode_fields_with_bloom, encoded_fields_length_with_bloom, decode_fields_with_bloom,
    decode_with_bloom, status, logs,
  }

  -- ScrollTransactionReceipt::rlp_decode_fields_with_bloom; the fee is not in the encoding.
  unfoldable pub rlp_decode_fields_with_bloom :
      List ℕ → Decoded (ReceiptWithBloom (ScrollTransactionReceipt L) Bl)
  rlp_decode_fields_with_bloom buf = do
    inner ← decode_fields_with_bloom buf
    ok (
      record {
        receipt = record { inner = inner.0.receipt; l1_fee = 0 };
        logs_bloom = inner.0.logs_bloom;
      },
      inner.1,
    )

  abbrev pub is_empty : {A : Type 0} → List A → Bool
  is_empty [] = true
  is_empty (x ∷ xs) = false

  -- ScrollTransactionReceipt::rlp_decode_with_bloom
  unfoldable pub rlp_decode_with_bloom_of_transaction :
      List ℕ → Decoded (ReceiptWithBloom (ScrollTransactionReceipt L) Bl)
  rlp_decode_with_bloom_of_transaction buf = do
    head ← header.decode buf
    reject_if (not head.0.list) unexpected_string
    reject_if (ltb (length head.1) head.0.payload_length) input_too_short
    this ← rlp_decode_fields_with_bloom (take head.0.payload_length head.1)
    reject_if (not (is_empty this.1)) unexpected_length
    ok (this.0, drop head.0.payload_length head.1)

  unfoldable pub rlp_encoded_fields_length : ScrollReceipt L → Bl → ℕ
  rlp_encoded_fields_length (legacy receipt) bloom =
      encoded_fields_length_with_bloom receipt.inner bloom
  rlp_encoded_fields_length (eip2930 receipt) bloom =
      encoded_fields_length_with_bloom receipt.inner bloom
  rlp_encoded_fields_length (eip1559 receipt) bloom =
      encoded_fields_length_with_bloom receipt.inner bloom
  rlp_encoded_fields_length (eip7702 receipt) bloom =
      encoded_fields_length_with_bloom receipt.inner bloom
  rlp_encoded_fields_length (l1_message receipt) bloom =
      encoded_fields_length_with_bloom receipt bloom

  unfoldable pub rlp_encode_fields : ScrollReceipt L → Bl → List ℕ
  rlp_encode_fields (legacy receipt) bloom = encode_fields_with_bloom receipt.inner bloom
  rlp_encode_fields (eip2930 receipt) bloom = encode_fields_with_bloom receipt.inner bloom
  rlp_encode_fields (eip1559 receipt) bloom = encode_fields_with_bloom receipt.inner bloom
  rlp_encode_fields (eip7702 receipt) bloom = encode_fields_with_bloom receipt.inner bloom
  rlp_encode_fields (l1_message receipt) bloom = encode_fields_with_bloom receipt bloom

  unfoldable pub rlp_header_inner : ScrollReceipt L → Bl → RlpHeader
  rlp_header_inner r bloom = record {
    list = true;
    payload_length = rlp_encoded_fields_length r bloom;
  }

  abbrev pub wrap :
      (ScrollTransactionReceipt L → ScrollReceipt L)
      → Decoded (ReceiptWithBloom (ScrollTransactionReceipt L) Bl)
      → Decoded (ReceiptWithBloom (ScrollReceipt L) Bl)
  wrap f r = do
    inner ← r
    ok (record { receipt = f inner.0.receipt; logs_bloom = inner.0.logs_bloom }, inner.1)

  unfoldable pub rlp_decode_inner :
      List ℕ → ScrollTxType → Decoded (ReceiptWithBloom (ScrollReceipt L) Bl)
  rlp_decode_inner buf ScrollTxType.legacy = wrap legacy (rlp_decode_with_bloom_of_transaction buf)
  rlp_decode_inner buf ScrollTxType.eip2930 =
      wrap eip2930 (rlp_decode_with_bloom_of_transaction buf)
  rlp_decode_inner buf ScrollTxType.eip1559 =
      wrap eip1559 (rlp_decode_with_bloom_of_transaction buf)
  rlp_decode_inner buf ScrollTxType.eip7702 =
      wrap eip7702 (rlp_decode_with_bloom_of_transaction buf)
  rlp_decode_inner buf ScrollTxType.l1_message = do
    inner ← decode_with_bloom buf
    ok (record { receipt = l1_message inner.0.receipt; logs_bloom = inner.0.logs_bloom }, inner.1)

  unfoldable pub eip2718_encoded_length_with_bloom : ScrollReceipt L → Bl → ℕ
  eip2718_encoded_length_with_bloom r bloom =
      flag_length r + length_with_payload (rlp_header_inner r bloom)

  unfoldable pub eip2718_encode_with_bloom : ScrollReceipt L → Bl → List ℕ
  eip2718_encode_with_bloom r bloom =
      flag_byte r ++ (header.encode (rlp_header_inner r bloom) ++ rlp_encode_fields r bloom)

  abbrev pub string_header : ScrollReceipt L → Bl → RlpHeader
  string_header r bloom = record {
    list = false;
    payload_length = eip2718_encoded_length_with_bloom r bloom;
  }

  unfoldable pub rlp_encoded_length_with_bloom : ScrollReceipt L → Bl → ℕ
  rlp_encoded_length_with_bloom r bloom =
      eip2718_encoded_length_with_bloom r bloom
      + (if is_legacy (tx_type r) then 0 else header.encoded_length (string_header r bloom))

  unfoldable pub rlp_encode_with_bloom : ScrollReceipt L → Bl → List ℕ
  rlp_encode_with_bloom r bloom =
      (if is_legacy (tx_type r) then [] else header.encode (string_header r bloom))
      ++ eip2718_encode_with_bloom r bloom

  -- `ScrollTxType::decode` of tx_type.rs
  unfoldable pub decode_tx_type : List ℕ → Decoded ScrollTxType
  decode_tx_type buf = do
    ty ← u8.decode buf
    tx_type ← map_err (λ e. custom) (try_from_u8 ty.0)
    ok (tx_type, ty.1)

  abbrev pub rlp_decode_typed : RlpHeader → List ℕ → Decoded (ReceiptWithBloom (ScrollReceipt L) Bl)
  rlp_decode_typed head buf = do
    ty ← decode_tx_type buf
    this ← rlp_decode_inner ty.1 ty.0
    reject_if (not (length this.1 + head.payload_length == length buf)) unexpected_length
    ok this

  unfoldable pub rlp_decode_with_bloom : List ℕ → Decoded (ReceiptWithBloom (ScrollReceipt L) Bl)
  rlp_decode_with_bloom buf = do
    head ← header.decode buf
    if head.0.list then rlp_decode_inner buf ScrollTxType.legacy else rlp_decode_typed head.0 head.1
