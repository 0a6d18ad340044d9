-- ===== src/Wire/Message.antt =====
-- crates/dogeos-scroll-wire/src/protocol/{proto, event}.rs: block announcements and their encoding.
-- `B` stands for blocks and `Sig` for alloy's signatures. The RLP codec that is derived for the pair
-- of signature bytes and block, and the conversions of a signature, are parameters.
use dogeos_reth.Prelude.{
  ℕ, ◌≡◌, Option, none, some, List, [], ◌∷◌, ◌++◌, ok, err, ◌==◌, if◌then◌else◌,
}
use dogeos_reth.Types.Rlp.{RlpCodec, IsRlpCodec}

pub record NewBlock (B : Type 0) : Type 0 where
  pub signature : List ℕ
  pub block : B

pub data ScrollMessageId : Type 0 where
  new_block_id : ScrollMessageId

-- `ScrollMessageId as u8`
abbrev pub id_byte : ScrollMessageId → ℕ
id_byte new_block_id = 0

-- `TryFrom<u8> for ScrollMessageId`
abbrev pub id_of_byte : ℕ → Option ScrollMessageId
id_of_byte value = if value == 0 then some new_block_id else none

pub data ScrollMessagePayload (B : Type 0) : Type 0 where
  new_block_payload : NewBlock B → ScrollMessagePayload B

pub record ScrollMessage (B : Type 0) : Type 0 where
  pub id : ScrollMessageId
  pub payload : ScrollMessagePayload B

-- `T` stands for the sending ends of channels.
pub data ScrollWireEvent (B Sig T : Type 0) : Type 0 where
  connection_established : (peer_id : ℕ) → (to_connection : T) → ScrollWireEvent B Sig T
  new_block_event : (peer_id : ℕ) → B → Sig → ScrollWireEvent B Sig T

-- `as_rsy` writes `r || s || y_parity`, which `from_raw` reads back.
pub record SignatureBytes (Sig : Type 0) : Type 0 where
  pub as_rsy : Sig → List ℕ
  pub from_raw : List ℕ → Option Sig
  pub from_raw-as_rsy : (s : Sig) → from_raw (as_rsy s) ≡ some s

module _ {B : Type 0} where
  unfoldable pub new_block : {Sig : Type 0} → SignatureBytes Sig → Sig → B → NewBlock B
  new_block signatures signature block = record {
    signature = signatures.as_rsy signature;
    block = block;
  }

  -- ScrollMessage::new_block
  unfoldable pub new_block_message : NewBlock B → ScrollMessage B
  new_block_message block = record { id = new_block_id; payload = new_block_payload block }

  module _ (codec : RlpCodec (NewBlock B)) where
    abbrev pub payload_bytes : ScrollMessagePayload B → List ℕ
    payload_bytes (new_block_payload block) = codec.encode block

    unfoldable pub encoded : ScrollMessage B → List ℕ
    encoded message = id_byte message.id ∷ payload_bytes message.payload

    abbrev decode_payload : List ℕ → Option ScrollMessageId → Option (ScrollMessage B)
    decode_payload buffer none = none
    decode_payload buffer (some new_block_id) = elim (codec.decode buffer) [
      | ok (block, rest) ↦ some (record { id = new_block_id; payload = new_block_payload block })
      | err e ↦ none
    ]

    unfoldable pub decode : List ℕ → Option (ScrollMessage B)
    decode [] = none
    decode (byte ∷ buffer) = decode_payload buffer (id_of_byte byte)

    -- An announcement that is encoded is decoded to itself, also where other bytes follow.
    pub decode-encoded :
        {Fits : NewBlock B → Type 0}
        → IsRlpCodec codec Fits
        → (block : NewBlock B) (rest : List ℕ) → Fits block
        → decode (encoded (new_block_message block) ++ rest) ≡ some (new_block_message block)
    unfolding decode encoded new_block_message
    decode-encoded c block rest fits = rw (c.decode-encode block rest fits)
