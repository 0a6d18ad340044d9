-- ===== src/Examples/Encodings.antt =====
-- Transactions and receipts in the concrete codecs of `Codecs`. A signed transaction is a number; a
-- legacy one is a list mark and the number, a typed one has its type in front.
use dogeos_reth.Prelude.{
  ℕ, ◌+◌, ◌<◌, ◌^◌, ◌≡◌, ◌≢◌, ◌↔◌, refl, sym, ap, ◌∙◌, Bool, true, false, none, some, List, [], ◌∷◌,
  ◌++◌, ok, err, ◌>>=◌, length, arith, if◌then◌else◌, ◌==◌,
}
use dogeos_reth.Types.Rlp.{input_too_short, Decoded}
use dogeos_reth.Types.L1Message.{unexpected_type, Fits}
use dogeos_reth.Types.Transaction.{TxL1Message, ScrollTxEnvelope}
use dogeos_reth.Types.TxType.{ScrollTxType, as_u8}
use dogeos_reth.Types.Envelope.{SignedCodec, AlloyTransactions, IsAlloyTransactions}
use dogeos_reth.Types.Envelope
use dogeos_reth.Types.Pooled.{ScrollPooledTransaction, pooled_decoder_agrees}
use dogeos_reth.Types.Pooled
use dogeos_reth.Types.Views.{Transaction, create, Kept, pooling_keeps}
use dogeos_reth.Types.Receipt.{Receipt, ScrollReceipt, as_receipt}
use dogeos_reth.Types.ReceiptRlp.{
  ReceiptWithBloom, AlloyReceipts, IsAlloyReceipts, rlp_decode_with_bloom, rlp_encode_with_bloom,
}
use dogeos_reth.Types.ReceiptRlp.RoundTrip.{forget_fee, rlp_decode-rlp_encode_with_bloom}
use dogeos_reth.Types.ReceiptRlp.NoBloom.{receipt_decode-encode_2718}
use dogeos_reth.Types.ReceiptRlp.NoBloom
use mathlib.Core.List.{append-nil}
use dogeos_reth.Examples.Codecs.{
  decode_bytes, decode_bytes_lem, decode_header, bytes, rlp, rlp-IsAlloyRlp, decodable,
}

abbrev decode_signed : List ℕ → Decoded ℕ
decode_signed [] = err input_too_short
decode_signed (mark ∷ []) = err input_too_short
decode_signed (mark ∷ tx ∷ rest) = ok (tx, rest)

abbrev typed : ℕ → SignedCodec ℕ
typed ty = record {
  eip2718_encode = λ tx. ty ∷ 200 ∷ tx ∷ [];
  eip2718_encoded_length = λ tx. 3;
  rlp_decode_signed = decode_signed;
}

abbrev txs : AlloyTransactions ℕ
txs = record {
  tx_legacy = record {
    eip2718_encode = λ tx. 200 ∷ tx ∷ [];
    eip2718_encoded_length = λ tx. 2;
    rlp_decode_signed = decode_signed;
  };
  tx_eip2930 = typed 1;
  tx_eip1559 = typed 2;
  tx_eip7702 = typed 4;
}

abbrev Valid : ScrollTxType → ℕ → Type 0
Valid ty tx = tx < 1000

typed-IsTypedCodec : (ty : ℕ) (V : ℕ → Type 0) → Envelope.IsTypedCodec (typed ty) ty V
typed-IsTypedCodec ty V = record {
  body = λ tx. 200 ∷ tx ∷ [];
  encode_body = λ tx. refl;
  decode-body = λ tx rest v. refl;
  length-encode = λ tx v. refl;
}

txs-IsAlloyTransactions : IsAlloyTransactions rlp txs Valid
txs-IsAlloyTransactions = record {
  legacy_codec = record {
    first = λ tx. 200;
    others = λ tx. tx ∷ [];
    encode_list = λ tx. refl;
    first_high = λ tx. omega arith;
    decode-encode = λ tx rest v. refl;
    length-encode = λ tx v. refl;
  };
  eip2930_codec = typed-IsTypedCodec 1 _;
  eip1559_codec = typed-IsTypedCodec 2 _;
  eip7702_codec = typed-IsTypedCodec 4 _;
}

abbrev message : TxL1Message
message = record {
  queue_index = 5;
  gas_limit = 21_000;
  to = 7;
  value = 8;
  sender = 9;
  input = 1 ∷ 2 ∷ [];
}

message-Fits : Fits message
message-Fits = record {
  queue_index_u64 = omega arith;
  gas_limit_u64 = omega arith;
  to_address = omega arith;
  value_u256 = omega arith;
  sender_address = omega arith;
  input_bytes = (omega arith, (omega arith, tt));
}

decode_2718-encode_2718_example :
    (decodable (ScrollTxEnvelope ℕ)).decode_2718
      (Envelope.typed_decode rlp txs)
      (Envelope.fallback_decode rlp txs)
      (Envelope.encode_2718 rlp txs (ScrollTxEnvelope.l1_message message) ++ (6 ∷ []))
    ≡ ok (ScrollTxEnvelope.l1_message message, 6 ∷ [])
decode_2718-encode_2718_example =
    Envelope.decode_2718-encode_2718 rlp txs (decodable (ScrollTxEnvelope ℕ)) Valid rlp-IsAlloyRlp
      txs-IsAlloyTransactions (ScrollTxEnvelope.l1_message message) (6 ∷ []) message-Fits

typed_decode-unexpected_type_example :
    (Envelope.typed_decode rlp txs 3 (200 ∷ []) ≡ err (unexpected_type 3))
    ↔ (◌≡◌ {A = ℕ} 3 3 × ((known : ScrollTxType) → 3 ≢ as_u8 known))
typed_decode-unexpected_type_example = Envelope.typed_decode-unexpected_type rlp txs 3 (200 ∷ []) 3

pooled_decoder_agrees_example :
    Pooled.Agree txs
      ((decodable (ScrollPooledTransaction ℕ)).decode_2718
        (Pooled.typed_decode txs)
        (Pooled.fallback_decode txs)
        (2 ∷ 200 ∷ 33 ∷ []))
      ((decodable (ScrollTxEnvelope ℕ)).decode_2718
        (Envelope.typed_decode rlp txs)
        (Envelope.fallback_decode rlp txs)
        (2 ∷ 200 ∷ 33 ∷ []))
pooled_decoder_agrees_example =
    pooled_decoder_agrees txs rlp (decodable (ScrollPooledTransaction ℕ))
      (decodable (ScrollTxEnvelope ℕ)) (2 ∷ 200 ∷ 33 ∷ [])

-- What the trait answers for the transaction with a given nonce.
abbrev methods : ℕ → Transaction ℕ ℕ
methods tx = record {
  chain_id = some 1;
  nonce = tx;
  gas_limit = 21_000;
  gas_price = none;
  max_fee_per_gas = 10;
  max_priority_fee_per_gas = some 1;
  max_fee_per_blob_gas = none;
  priority_fee_or_price = 1;
  effective_gas_price = λ base_fee. 2;
  is_dynamic_fee = true;
  kind = create;
  is_create = true;
  value = 3;
  input = [];
  access_list = none;
  blob_versioned_hashes = none;
  authorization_list = none;
}

pooling_keeps_example :
    Kept methods
      (λ tx. tx)
      rlp
      txs
      (λ tx. tx + 1)
      (ScrollTxEnvelope.eip1559 33)
      (ScrollPooledTransaction.eip1559 33)
unfolding Pooled.try_into_pooled
pooling_keeps_example =
    pooling_keeps methods (λ tx. tx) rlp txs (λ tx. tx + 1) (ScrollTxEnvelope.eip1559 33)
      (ScrollPooledTransaction.eip1559 33) refl

-- A receipt as its status, its gas, its bloom and its logs.
abbrev encode_status : Bool → List ℕ
encode_status s = (if s then 1 else 0) ∷ []

abbrev decode_status : List ℕ → Decoded Bool
decode_status [] = err input_too_short
decode_status (s ∷ rest) = ok (s == 1, rest)

abbrev encode_fields : Receipt ℕ → ℕ → List ℕ
encode_fields r bloom =
    (if r.status then 1 else 0) ∷ r.cumulative_gas_used ∷ bloom ∷ length r.logs ∷ r.logs

abbrev with_logs : Bool → ℕ → ℕ → Decoded (List ℕ) → Decoded (ReceiptWithBloom (Receipt ℕ) ℕ)
with_logs s gas bloom (err e) = err e
with_logs s gas bloom (ok (logs, rest)) = ok (
  record {
    receipt = record { status = s; cumulative_gas_used = gas; logs = logs };
    logs_bloom = bloom;
  },
  rest,
)

abbrev decode_fields : List ℕ → Decoded (ReceiptWithBloom (Receipt ℕ) ℕ)
decode_fields (s ∷ gas ∷ bloom ∷ rest) = with_logs (s == 1) gas bloom (decode_bytes rest)
decode_fields buf = err input_too_short

abbrev pub receipts : AlloyReceipts ℕ ℕ
receipts = record {
  encode_fields_with_bloom = encode_fields;
  encoded_fields_length_with_bloom = λ r bloom. 4 + length r.logs;
  decode_fields_with_bloom = decode_fields;
  decode_with_bloom = λ buf. decode_header buf >>= λ head. decode_fields head.1;
  status = record { encode = encode_status; encoded_length = λ s. 1; decode = decode_status };
  logs = bytes;
}

decode_status_lem :
    (s : Bool) (rest : List ℕ) → decode_status (encode_status s ++ rest) ≡ ok (s, rest)
decode_status_lem true rest = refl
decode_status_lem false rest = refl

decode_fields_lem :
    (s : Bool) (gas bloom : ℕ) (logs rest : List ℕ)
    → decode_fields (
        encode_fields (record { status = s; cumulative_gas_used = gas; logs = logs }) bloom ++ rest)
      ≡ ok (
        record {
          receipt = record { status = s; cumulative_gas_used = gas; logs = logs };
          logs_bloom = bloom;
        },
        rest,
      )
decode_fields_lem true gas bloom logs rest =
    ap (λ l. with_logs true gas bloom l) (decode_bytes_lem logs rest)
decode_fields_lem false gas bloom logs rest =
    ap (λ l. with_logs false gas bloom l) (decode_bytes_lem logs rest)

abbrev GasFits : Receipt ℕ → Type 0
GasFits r = r.cumulative_gas_used < 2 ^ 64

receipts-IsAlloyReceipts : IsAlloyReceipts rlp receipts GasFits
receipts-IsAlloyReceipts = record {
  decode-fields = λ r b v.
      ap (λ l. decode_fields l) (sym (append-nil (encode_fields r b)))
      ∙ decode_fields_lem r.status r.cumulative_gas_used b r.logs [];
  decode-list = λ r b rest v. decode_fields_lem r.status r.cumulative_gas_used b r.logs rest;
  length-fields = λ r b v. omega arith;
  status_codec = record {
    decode-encode = λ s rest v. decode_status_lem s rest;
    length-encode = λ s v. refl;
    encoded_length_pos = λ s v. omega arith;
  };
  logs_codec = λ r rest v. decode_bytes_lem r.logs rest;
  length-logs = λ r v. omega arith;
  gas_fits = λ r v. v;
}

abbrev receipt : ScrollReceipt ℕ
receipt = ScrollReceipt.eip1559 (record {
  inner = record { status = true; cumulative_gas_used = 21_000; logs = 4 ∷ 5 ∷ [] };
  l1_fee = 12;
})

rlp_decode-rlp_encode_with_bloom_example :
    rlp_decode_with_bloom rlp receipts (rlp_encode_with_bloom rlp receipts receipt 3 ++ (6 ∷ []))
    ≡ ok (record { receipt = forget_fee receipt; logs_bloom = 3 }, 6 ∷ [])
unfolding as_receipt
rlp_decode-rlp_encode_with_bloom_example =
    rlp_decode-rlp_encode_with_bloom rlp receipts GasFits rlp-IsAlloyRlp receipts-IsAlloyReceipts
      receipt 3 (6 ∷ []) (omega arith)

receipt_decode-encode_2718_example :
    (decodable (ScrollReceipt ℕ)).decode_2718
      (NoBloom.typed_decode rlp receipts)
      (NoBloom.fallback_decode rlp receipts)
      (NoBloom.encode_2718 rlp receipts receipt ++ (6 ∷ []))
    ≡ ok (forget_fee receipt, 6 ∷ [])
unfolding as_receipt
receipt_decode-encode_2718_example =
    receipt_decode-encode_2718 rlp receipts GasFits rlp-IsAlloyRlp receipts-IsAlloyReceipts
      (decodable (ScrollReceipt ℕ)) receipt (6 ∷ []) (omega arith)
