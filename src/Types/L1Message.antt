-- ===== src/Types/L1Message.antt =====
-- crates/dogeos-protocol-types/src/transaction/l1_message.rs: the RLP and EIP-2718 encodings of an L1
-- message. The bytes that a function puts into its output buffer are its result.
use dogeos_reth.Prelude.{
  ℕ, ◌+◌, ◌-◌, ◌<◌, ◌^◌, ◌≡◌, refl, inl, true, not, List, ◌∷◌, ◌++◌, Result, ok, err, ◌>>=◌, ◌>>◌,
  reject_if, map_err, length, length-append, All, ◌==◌, if◌then◌else◌, arith,
}
use dogeos_reth.Types.Rlp.{
  RlpError, unexpected_string, list_length_mismatch, Decoded, RlpHeader, AlloyRlp, IsAlloyRlp,
}
use dogeos_reth.Types.Transaction.{TxL1Message}
use dogeos_reth.Types.TxType.{l1_message_tx_type_id}
use mathlib.Core.List.{append_assoc}

-- `Eip2718Error`
pub data Eip2718Error : Type 0 where
  unexpected_type : ℕ → Eip2718Error
  rlp_error : RlpError → Eip2718Error

-- The fields are values of their machine types.
pub record Fits (tx : TxL1Message) : Type 0 where
  pub queue_index_u64 : tx.queue_index < 2 ^ 64
  pub gas_limit_u64 : tx.gas_limit < 2 ^ 64
  pub to_address : tx.to < 2 ^ 160
  pub value_u256 : tx.value < 2 ^ 256
  pub sender_address : tx.sender < 2 ^ 160
  pub input_bytes : All (λ b. b < 256) tx.input

module _ (rlp : AlloyRlp) where
  open rlp use {u64, u256, address, bytes, header, length_with_payload}

  unfoldable pub rlp_decode_fields : List ℕ → Decoded TxL1Message
  rlp_decode_fields buf = do
    queue_index ← u64.decode buf
    gas_limit ← u64.decode queue_index.1
    to ← address.decode gas_limit.1
    value ← u256.decode to.1
    input ← bytes.decode value.1
    sender ← address.decode input.1
    ok (
      record {
        queue_index = queue_index.0;
        gas_limit = gas_limit.0;
        to = to.0;
        value = value.0;
        sender = sender.0;
        input = input.0;
      },
      sender.1,
    )

  unfoldable pub rlp_decode : List ℕ → Decoded TxL1Message
  rlp_decode buf = do
    head ← header.decode buf
    reject_if (not head.0.list) unexpected_string
    this ← rlp_decode_fields head.1
    reject_if (not (length this.1 + head.0.payload_length == length head.1))
        (list_length_mismatch head.0.payload_length (length head.1 - length this.1))
    ok this

  unfoldable pub rlp_encoded_fields_length : TxL1Message → ℕ
  rlp_encoded_fields_length tx =
      u64.encoded_length tx.queue_index
      + u64.encoded_length tx.gas_limit
      + address.encoded_length tx.to
      + u256.encoded_length tx.value
      + bytes.encoded_length tx.input
      + address.encoded_length tx.sender

  unfoldable pub rlp_encode_fields : TxL1Message → List ℕ
  rlp_encode_fields tx =
      u64.encode tx.queue_index
      ++ (u64.encode tx.gas_limit
          ++ (address.encode tx.to
              ++ (u256.encode tx.value ++ (bytes.encode tx.input ++ address.encode tx.sender))))

  unfoldable pub rlp_header : TxL1Message → RlpHeader
  rlp_header tx = record { list = true; payload_length = rlp_encoded_fields_length tx }

  unfoldable pub rlp_encode : TxL1Message → List ℕ
  rlp_encode tx = header.encode (rlp_header tx) ++ rlp_encode_fields tx

  unfoldable pub rlp_encoded_length : TxL1Message → ℕ
  rlp_encoded_length tx = length_with_payload (rlp_header tx)

  unfoldable pub eip2718_encoded_length : TxL1Message → ℕ
  eip2718_encoded_length tx = rlp_encoded_length tx + 1

  unfoldable pub eip2718_encode : TxL1Message → List ℕ
  eip2718_encode tx = l1_message_tx_type_id ∷ rlp_encode tx

  unfoldable pub typed_decode : ℕ → List ℕ → Result Eip2718Error (TxL1Message × List ℕ)
  typed_decode ty buf =
      if not (ty == l1_message_tx_type_id)
      then err (unexpected_type ty)
      else map_err rlp_error (rlp_decode buf)

  unfoldable pub fallback_decode : List ℕ → Result Eip2718Error (TxL1Message × List ℕ)
  fallback_decode buf = map_err rlp_error (rlp_decode buf)

  pub fields-encode :
      IsAlloyRlp rlp
      → (tx : TxL1Message) (rest : List ℕ) → Fits tx
      → rlp_decode_fields (rlp_encode_fields tx ++ rest) ≡ ok (tx, rest)
  unfolding rlp_decode_fields rlp_encode_fields
  fields-encode laws tx rest f = simp (
    append_assoc, laws.u64_codec.decode-encode, laws.address_codec.decode-encode,
    laws.u256_codec.decode-encode, laws.bytes_codec.decode-encode, f.queue_index_u64,
    f.gas_limit_u64, f.to_address, f.value_u256, f.input_bytes, f.sender_address,
  )

  pub length-fields :
      IsAlloyRlp rlp
      → (tx : TxL1Message) → Fits tx
      → length (rlp_encode_fields tx) ≡ rlp_encoded_fields_length tx
  unfolding rlp_encode_fields rlp_encoded_fields_length
  length-fields laws tx f =
      simp
        (
          length-append, laws.u64_codec.length-encode, laws.address_codec.length-encode,
          laws.u256_codec.length-encode, laws.bytes_codec.length-encode, f.queue_index_u64,
          f.gas_limit_u64, f.to_address, f.value_u256, f.input_bytes, f.sender_address,
        )
        (omega arith)

  pub rlp_decode-encode :
      IsAlloyRlp rlp
      → (tx : TxL1Message) (rest : List ℕ) → Fits tx
      → rlp_decode (rlp_encode tx ++ rest) ≡ ok (tx, rest)
  unfolding rlp_decode rlp_encode rlp_header
  rlp_decode-encode laws tx rest f =
      let fits = length-append (rlp_encode_fields tx) rest in
      let exact = length-fields laws tx f in
      let head =
        laws.decode-header (rlp_header tx) (rlp_encode_fields tx ++ rest) (omega arith)
          (inl refl) in
      let same = fields-encode laws tx rest f in
      simp (append_assoc, head, same) (ground (arith, exact))

  pub length-eip2718_encode :
      IsAlloyRlp rlp
      → (tx : TxL1Message) → Fits tx
      → length (eip2718_encode tx) ≡ eip2718_encoded_length tx
  unfolding eip2718_encode eip2718_encoded_length rlp_encode rlp_encoded_length rlp_header
  length-eip2718_encode laws tx f = omega (
    arith,
    length-append (header.encode (rlp_header tx)) (rlp_encode_fields tx),
    laws.length-header (rlp_header tx),
    laws.length_with_payload_lem (rlp_header tx),
    length-fields laws tx f,
  )
