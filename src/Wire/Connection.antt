-- ===== src/Wire/Connection.antt =====
-- crates/dogeos-scroll-wire/src/connection/mod.rs: the stream of a connection. The frames that have
-- arrived and the messages that wait to be sent are lists; a poll reads them as they are at its start.
use dogeos_reth.Prelude.{
  ℕ, ◌≡◌, refl, sym, ap, ◌∙◌, Bool, true, false, Option, none, some, List, [], ◌∷◌, ◌++◌, map, All,
  if◌then◌else◌,
}
use dogeos_reth.Types.Rlp.{RlpCodec, IsRlpCodec}
use dogeos_reth.Wire.Message.{
  NewBlock, ScrollMessage, ScrollMessagePayload, new_block_payload, ScrollWireEvent,
  new_block_event, SignatureBytes, encoded, decode, decode-encoded, new_block, new_block_message,
}
use mathlib.Core.List.{append-nil, append_assoc}

-- `conn` with the frames that are there and whether it ends behind them; `events` is the channel to
-- the manager: whether its receiver is alive, and what was sent, oldest first.
pub record ScrollWireConnection (B Sig T : Type 0) : Type 0 where
  pub conn : List (List ℕ)
  pub conn_ended : Bool
  pub outbound : List (ScrollMessage B)
  pub events_open : Bool
  pub events : List (ScrollWireEvent B Sig T)
  pub peer_id : ℕ

-- `Poll<Option<BytesMut>>`
pub data PollItem : Type 0 where
  pending finished : PollItem
  ready : List ℕ → PollItem

abbrev pub event_of : {B Sig T : Type 0} → ℕ → B × Sig → ScrollWireEvent B Sig T
event_of peer (block, signature) = new_block_event peer block signature

module _ {B Sig : Type 0} (codec : RlpCodec (NewBlock B)) (signatures : SignatureBytes Sig) where
  abbrev signed : ScrollMessagePayload B → Option (B × Sig)
  signed (new_block_payload new_block) = elim (signatures.from_raw new_block.signature) [
    | none ↦ none
    | some signature ↦ some (new_block.block, signature)
  ]

  abbrev signed_message : Option (ScrollMessage B) → Option (B × Sig)
  signed_message none = none
  signed_message (some message) = signed message.payload

  -- A frame as its block and signature; `none` where the connection is closed for it.
  unfoldable pub announcement : List ℕ → Option (B × Sig)
  announcement frame = signed_message (decode codec frame)

  -- What a peer sends to announce a block.
  abbrev pub frame_of : B × Sig → List ℕ
  frame_of (block, signature) =
      encoded codec (new_block_message (new_block signatures signature block))

  announcement-decoded :
      (frame : List ℕ) (message : ScrollMessage B)
      → decode codec frame ≡ some message
      → announcement frame ≡ signed message.payload
  unfolding announcement
  announcement-decoded frame message e = ap signed_message e

  announcement-frame_of :
      {Fits : NewBlock B → Type 0}
      → IsRlpCodec codec Fits
      → (block : B) (signature : Sig) → Fits (new_block signatures signature block)
      → announcement (frame_of (block, signature)) ≡ some (block, signature)
  unfolding new_block_message new_block
  announcement-frame_of c block signature fits =
      let back =
        sym (ap (λ l. decode codec l) (append-nil (frame_of (block, signature))))
        ∙ decode-encoded codec c (new_block signatures signature block) [] fits in
      announcement-decoded _ _ back ∙ rw (signatures.from_raw-as_rsy signature)

  module _ {T : Type 0} where
    abbrev pub closed :
        List (List ℕ) → ScrollWireConnection B Sig T → PollItem × ScrollWireConnection B Sig T
    closed frames c = (finished, record c { conn = frames })

    -- The sending of the event, and the next round of the loop where it succeeds.
    abbrev pub deliver :
        (ScrollWireConnection B Sig T → PollItem × ScrollWireConnection B Sig T)
        → List (List ℕ)
        → Bool
        → Option (B × Sig)
        → ScrollWireConnection B Sig T
        → PollItem × ScrollWireConnection B Sig T
    deliver next frames events_open none c = closed frames c
    deliver next frames false (some (block, signature)) c = closed frames c
    deliver next frames true (some (block, signature)) c =
        next (record c { events = c.events ++ (new_block_event c.peer_id block signature ∷ []) })

    -- The loop of `poll_next` while no message waits to be sent.
    unfoldable pub poll_conn :
        List (List ℕ) → ScrollWireConnection B Sig T → PollItem × ScrollWireConnection B Sig T
    poll_conn [] c = (if c.conn_ended then finished else pending, record c { conn = [] })
    poll_conn (frame ∷ frames) c =
        deliver (poll_conn frames) frames c.events_open (announcement frame) c

    abbrev pub poll_outbound :
        List (ScrollMessage B)
        → ScrollWireConnection B Sig T
        → PollItem × ScrollWireConnection B Sig T
    poll_outbound [] c = poll_conn c.conn c
    poll_outbound (message ∷ outbound) c =
        (ready (encoded codec message), record c { outbound = outbound })

    unfoldable pub poll_next :
        ScrollWireConnection B Sig T → PollItem × ScrollWireConnection B Sig T
    poll_next c = poll_outbound c.outbound c

    poll_conn-frames :
        {Fits : NewBlock B → Type 0}
        → IsRlpCodec codec Fits
        → (announced : List (B × Sig)) (c : ScrollWireConnection B Sig T)
        → All (λ a. Fits (new_block signatures a.1 a.0)) announced
        → c.events_open ≡ true
        → poll_conn (map frame_of announced) c ≡ (
          if c.conn_ended then finished else pending,
          record c { conn = []; events = c.events ++ map (event_of c.peer_id) announced },
        )
    unfolding poll_conn
    poll_conn-frames codec_lem [] c fits is_open = simp append-nil (refl)
    poll_conn-frames codec_lem ((block, signature) ∷ announced) c fits is_open =
        let sent = c.events ++ (new_block_event c.peer_id block signature ∷ []) in
        let next =
          poll_conn-frames codec_lem announced (record c { events_open = true; events = sent })
            fits.1 refl in
        rw (is_open, announcement-frame_of codec_lem block signature fits.0)
          (next
            ∙ ap
                (λ es. (
                  if c.conn_ended then finished else pending,
                  record c { conn = []; events_open = true; events = es },
                ))
                (append_assoc c.events _ _))

    -- While no message waits to be sent and the manager listens, one poll of a connection on which a
    -- peer has announced blocks reports each of them, in order, with its own signature, after the
    -- events that were there, and then waits, or ends where the peer has ended it.
    pub poll_next_reports :
        {Fits : NewBlock B → Type 0}
        → IsRlpCodec codec Fits
        → (announced : List (B × Sig)) (c : ScrollWireConnection B Sig T)
        → All (λ a. Fits (new_block signatures a.1 a.0)) announced
        → c.outbound ≡ []
        → c.events_open ≡ true
        → poll_next (record c { conn = map frame_of announced }) ≡ (
          if c.conn_ended then finished else pending,
          record c { conn = []; events = c.events ++ map (event_of c.peer_id) announced },
        )
    unfolding poll_next
    poll_next_reports codec_lem announced c fits none_waits is_open = rw none_waits (
        poll_conn-frames codec_lem announced
          (record c { conn = map frame_of announced; outbound = [] }) fits is_open)
