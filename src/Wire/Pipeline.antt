-- ===== src/Wire/Pipeline.antt =====
-- The parts of the protocol together: what a peer announces on a connection, through the manager, to
-- the engine.
use mathlib.Core.Path.{subst}
use dogeos_reth.Prelude.{
  ℕ, suc, ◌∷◌, ◌<◌, ◌≡◌, refl, sym, ap, ◌∙◌, true, Option, List, [], Result, map, All, length,
}
use dogeos_reth.Types.Rlp.{RlpCodec, IsRlpCodec, AlloyRlp}
use dogeos_reth.Wire.Message.{NewBlock, ScrollWireEvent, SignatureBytes, new_block}
use dogeos_reth.Wire.Signature.{Header, HeaderCodecs, BlockSignatureError, verify_block_signature}
use dogeos_reth.Wire.Connection.{
  ScrollWireConnection, poll_next, frame_of, event_of, poll_next_reports,
}
use dogeos_reth.Wire.Manager.{new_manager}
use dogeos_reth.Wire.Import.{LruCache, DogeosScrollWireEngineImporter, new, run}
use dogeos_reth.Wire.Import.Spaced.{new-IsImporter}
use dogeos_reth.Wire.Import.Delivery.{Delivered, run_delivers}

length-map : {A B : Type 0} (f : A → B) (xs : List A) → length (map f xs) ≡ length xs
length-map f [] = refl
length-map f (x ∷ xs) = ap (λ n. suc n) (length-map f xs)

module _ {B Sig : Type 0} (rlp : AlloyRlp) (codecs : HeaderCodecs) (keccak256 : List ℕ → ℕ)
    (recover_signer : Sig → ℕ → Option ℕ) (header_of : B → Header) where
  abbrev pub verify : B → Sig → Option ℕ → Result BlockSignatureError (Unit {0})
  verify block sig signer =
      verify_block_signature rlp codecs keccak256 recover_signer (header_of block) sig signer

  module _ {St X : Type 0} (hash_slow : B → ℕ) (cache : LruCache (ℕ × Sig))
      (new_payload : List (B × Sig) → B → Result X St) (codec : RlpCodec (NewBlock B))
      (signatures : SignatureBytes Sig) where
    -- A new importer whose manager has the events that the connection has reported after one poll.
    abbrev pub importer_of :
        ScrollWireConnection B Sig ℕ
        → Option ℕ
        → DogeosScrollWireEngineImporter verify hash_slow cache new_payload
    importer_of c signer =
        new verify hash_slow cache new_payload
          (new_manager ((poll_next codec signatures c).1.events)) signer

    run-Delivered :
        (events : List (ScrollWireEvent B Sig ℕ)) (signer : Option ℕ) (fuel : ℕ)
        → length events < fuel
        → ((run verify hash_slow cache new_payload fuel
              (new verify hash_slow cache new_payload (new_manager events) signer)).manager.events
            ≡ [])
          × Delivered verify hash_slow cache new_payload signer events (
              run verify hash_slow cache new_payload fuel
                (new verify hash_slow cache new_payload (new_manager events) signer))
    unfolding new new_manager
    run-Delivered events signer fuel enough =
        run_delivers verify hash_slow cache new_payload signer fuel
          (new verify hash_slow cache new_payload (new_manager events) signer)
          (new-IsImporter verify hash_slow cache new_payload signer (new_manager events)) enough

    reported_events :
        {Fits : NewBlock B → Type 0}
        → IsRlpCodec codec Fits
        → (announced : List (B × Sig)) (c : ScrollWireConnection B Sig ℕ)
        → All (λ a. Fits (new_block signatures a.1 a.0)) announced
        → c.outbound ≡ []
        → c.events_open ≡ true
        → c.events ≡ []
        → c.conn ≡ map (frame_of codec signatures) announced
        → (poll_next codec signatures c).1.events ≡ map (event_of c.peer_id) announced
    reported_events codec_lem announced c fits none_waits is_open fresh sent =
        ap (λ frames. (poll_next codec signatures (record c { conn = frames })).1.events) sent
        ∙ ap (λ p. p.1.events)
            (poll_next_reports codec signatures codec_lem announced c fits none_waits is_open)
        ∙ rw fresh (refl)

    -- A peer announces blocks on a connection that waits for nothing else and has reported nothing yet.
    -- After one poll of the connection, an importer with one round more than there are announcements
    -- has handled every event, and each announced block has been sent to the engine, or one of the same
    -- hash and signature has, unless the check of its signature fails.
    pub announced_blocks_reach_engine :
        {Fits : NewBlock B → Type 0}
        → IsRlpCodec codec Fits
        → (announced : List (B × Sig)) (c : ScrollWireConnection B Sig ℕ) (signer : Option ℕ)
          (fuel : ℕ)
        → All (λ a. Fits (new_block signatures a.1 a.0)) announced
        → c.outbound ≡ []
        → c.events_open ≡ true
        → c.events ≡ []
        → c.conn ≡ map (frame_of codec signatures) announced
        → length announced < fuel
        → ((run verify hash_slow cache new_payload fuel (importer_of c signer)).manager.events ≡ [])
          × Delivered verify hash_slow cache new_payload signer
              (map (event_of c.peer_id) announced)
              (run verify hash_slow cache new_payload fuel (importer_of c signer))
    announced_blocks_reach_engine codec_lem announced c signer fuel fits none_waits is_open fresh
          sent enough =
        let reported = reported_events codec_lem announced c fits none_waits is_open fresh sent in
        subst
          (λ events.
            ((run verify hash_slow cache new_payload fuel
                (new verify hash_slow cache new_payload (new_manager events) signer)).manager.events
              ≡ [])
            × Delivered verify hash_slow cache new_payload signer
                (map (event_of c.peer_id) announced)
                (run verify hash_slow cache new_payload fuel
                  (new verify hash_slow cache new_payload (new_manager events) signer)))
          (sym reported)
          (run-Delivered (map (event_of c.peer_id) announced) signer fuel
            (rw (length-map (event_of c.peer_id) announced) enough))
