-- ===== src/Wire/Import/Delivery.antt =====
-- The importer and the events that are there.
use mathlib.Core.Path.{subst}
use dogeos_reth.Prelude.{
  ℕ, zero, suc, ◌<◌, ◌≡◌, ◌⊎◌, refl, ap, ◌∙◌, inl, inr, Bool, true, false, Option, none, some, List,
  [], ◌∷◌, Result, ok, err, map, take, Bool-cases, Result-cases, length, arith,
}
use dogeos_reth.Wire.Message.{ScrollWireEvent, connection_established, new_block_event}
use dogeos_reth.Wire.Signature.{BlockSignatureError}
use dogeos_reth.Wire.Manager.{ScrollWireManager, poll, poll_events, insert}
use dogeos_reth.Wire.Import.{
  LruCache, Has, lru_cache_size, key, import_unseen, import_verified, import_event, after_poll, run,
}
use dogeos_reth.Wire.Import.Spaced.{Importer, IsImporter, import_event-IsImporter, with_manager}

Has-take : {A : Type 0} (n : ℕ) (k : A) (xs : List A) → Has k (take n xs) → Has k xs
Has-take zero k xs h = absurd h
Has-take (suc n) k [] h = absurd h
Has-take (suc n) k (x ∷ xs) (inl e) = inl e
Has-take (suc n) k (x ∷ xs) (inr h) = inr (Has-take n k xs h)

module _ {B Sig St X : Type 0} (verify : B → Sig → Option ℕ → Result BlockSignatureError (Unit {0}))
    (hash_slow : B → ℕ) (cache : LruCache (ℕ × Sig))
    (new_payload : List (B × Sig) → B → Result X St) (signer : Option ℕ) where
  abbrev pub Sent : B → Sig → Importer verify hash_slow cache new_payload signer → Type 0
  Sent block sig s = Has (hash_slow block, sig) (map (key hash_slow) s.payloads)

  -- The announcement was sent to the engine, now or before, or its signature is refused.
  abbrev pub Handled : B → Sig → Importer verify hash_slow cache new_payload signer → Type 0
  Handled block sig s =
      Sent block sig s ⊎ ((e : BlockSignatureError) × (verify block sig signer ≡ err e))

  -- So were all announcements among the events.
  abbrev pub Delivered :
      List (ScrollWireEvent B Sig ℕ) → Importer verify hash_slow cache new_payload signer → Type 0
  Delivered [] s = Unit
  Delivered (connection_established peer channel ∷ events) s = Delivered events s
  Delivered (new_block_event peer block sig ∷ events) s = Handled block sig s × Delivered events s

  unseen_keeps :
      (seen : Bool) (b b' : B) (sig sig' : Sig)
      (s : Importer verify hash_slow cache new_payload signer)
      → Sent b sig s
      → Sent b sig ((import_unseen verify hash_slow cache new_payload seen b' sig' s).1)
  unseen_keeps true b b' sig sig' s h = h
  unseen_keeps false b b' sig sig' s h = inr h

  verified_keeps :
      (r : Result BlockSignatureError (Unit {0})) (b b' : B) (sig sig' : Sig)
      (s : Importer verify hash_slow cache new_payload signer)
      → Sent b sig s
      → Sent b sig ((import_verified verify hash_slow cache new_payload r b' sig' s).1)
  verified_keeps (ok u) b b' sig sig' s h = unseen_keeps _ b b' sig sig' s h
  verified_keeps (err e) b b' sig sig' s h = h

  event_keeps :
      (event : ScrollWireEvent B Sig ℕ) (b : B) (sig : Sig)
      (s : Importer verify hash_slow cache new_payload signer)
      → Sent b sig s
      → Sent b sig ((import_event verify hash_slow cache new_payload event s).1)
  unfolding import_event
  event_keeps (connection_established peer channel) b sig s h = h
  event_keeps (new_block_event peer b' sig') b sig s h = verified_keeps _ b b' sig sig' s h

  polled_keeps :
      (fuel : ℕ) (polled : Option (ScrollWireEvent B Sig ℕ) × ScrollWireManager B Sig) (b : B)
      (sig : Sig) (s : Importer verify hash_slow cache new_payload signer)
      → ((s' : Importer verify hash_slow cache new_payload signer)
          → Sent b sig s'
          → Sent b sig (run verify hash_slow cache new_payload fuel s'))
      → Sent b sig s
      → Sent b sig (
          after_poll verify hash_slow cache new_payload
            (run verify hash_slow cache new_payload fuel)
            polled
            s)
  polled_keeps fuel (none, m) b sig s next h = h
  polled_keeps fuel (some event, m) b sig s next h =
      next _ (event_keeps event b sig (record s { manager = m }) h)

  run_keeps :
      (fuel : ℕ) (b : B) (sig : Sig) (s : Importer verify hash_slow cache new_payload signer)
      → Sent b sig s
      → Sent b sig (run verify hash_slow cache new_payload fuel s)
  unfolding run
  run_keeps zero b sig s h = h
  run_keeps (suc fuel) b sig s h =
      polled_keeps fuel (poll s.manager) b sig s (run_keeps fuel b sig) h

  import_unseen-Sent :
      (b : B) (sig : Sig) (s : Importer verify hash_slow cache new_payload signer)
      → IsImporter verify hash_slow cache new_payload signer s
      → Sent b sig (
          (import_unseen verify hash_slow cache new_payload
            (cache.contains s.blocks_seen (hash_slow b, sig))
            b
            sig
            s).1)
  import_unseen-Sent b sig s i =
      elim (Bool-cases (cache.contains s.blocks_seen (hash_slow b, sig))) [
        | inl seen ↦
            let there = cache.contains_true s.blocks_seen (hash_slow b, sig) seen in
            rw seen (Has-take lru_cache_size (hash_slow b, sig) _ (rw i.seen at there))
        | inr unseen ↦ rw unseen (inl refl)
      ]

  import_event-Sent :
      (peer : ℕ) (b : B) (sig : Sig) (s : Importer verify hash_slow cache new_payload signer)
      → IsImporter verify hash_slow cache new_payload signer s
      → verify b sig signer ≡ ok tt
      → Sent b sig
          ((import_event verify hash_slow cache new_payload (new_block_event peer b sig) s).1)
  unfolding import_event
  import_event-Sent peer b sig s i v =
      let accepted = ap (λ a. verify b sig a) i.same_signer ∙ v in
      rw accepted (import_unseen-Sent b sig s i)

  unseen_manager :
      (seen : Bool) (b : B) (sig : Sig) (s : Importer verify hash_slow cache new_payload signer)
      → (import_unseen verify hash_slow cache new_payload seen b sig s).1.manager ≡ s.manager
  unseen_manager true b sig s = refl
  unseen_manager false b sig s = refl

  verified_manager :
      (r : Result BlockSignatureError (Unit {0})) (b : B) (sig : Sig)
      (s : Importer verify hash_slow cache new_payload signer)
      → (import_verified verify hash_slow cache new_payload r b sig s).1.manager ≡ s.manager
  verified_manager (ok u) b sig s = unseen_manager _ b sig s
  verified_manager (err e) b sig s = refl

  event_manager :
      (peer : ℕ) (b : B) (sig : Sig) (s : Importer verify hash_slow cache new_payload signer)
      → (import_event verify hash_slow cache new_payload (new_block_event peer b sig) s).1.manager
        ≡ s.manager
  unfolding import_event
  event_manager peer b sig s = verified_manager _ b sig s

  -- Where a poll waits, the events hold no announcement; otherwise it returns the first one, and
  -- fewer events are left.
  abbrev Waits : List (ScrollWireEvent B Sig ℕ) → (ℕ → Option ℕ) → Type 0
  Waits events connections =
      (m : ScrollWireManager B Sig) × (poll_events events connections ≡ (none, m))
      × (m.events ≡ [])
      × ((s : Importer verify hash_slow cache new_payload signer) → Delivered events s)

  abbrev Returns : List (ScrollWireEvent B Sig ℕ) → (ℕ → Option ℕ) → Type 0
  Returns events connections =
      (m : ScrollWireManager B Sig) × (peer : ℕ) × (b : B) × (sig : Sig) × (poll_events events
          connections
        ≡ (some (new_block_event peer b sig), m))
      × (length m.events < length events)
      × ((s : Importer verify hash_slow cache new_payload signer)
          → Handled b sig s
          → Delivered m.events s
          → Delivered events s)

  poll_progress :
      (events : List (ScrollWireEvent B Sig ℕ)) (connections : ℕ → Option ℕ)
      → Waits events connections ⊎ Returns events connections
  unfolding poll_events
  poll_progress [] connections = inl (_, refl, refl, λ s. tt)
  poll_progress (new_block_event peer b sig ∷ events) connections =
      inr (_, peer, b, sig, refl, omega arith, λ s sent rest. (sent, rest))
  poll_progress (connection_established peer channel ∷ events) connections =
      elim (poll_progress events (insert peer channel connections)) [
        | inl (m, e, none_left, delivered) ↦ inl (m, e, none_left, delivered)
        | inr (m, peer', b, sig, e, fewer, delivered) ↦
            inr (m, peer', b, sig, e, omega arith, delivered)
      ]

  run_handles :
      (fuel peer : ℕ) (b : B) (sig : Sig) (s : Importer verify hash_slow cache new_payload signer)
      → IsImporter verify hash_slow cache new_payload signer s
      → Handled b sig (
          run verify hash_slow cache new_payload fuel
            ((import_event verify hash_slow cache new_payload (new_block_event peer b sig) s).1))
  run_handles fuel peer b sig s i = elim (Result-cases (verify b sig signer)) [
    | inl (u, v) ↦ inl (run_keeps fuel b sig _ (import_event-Sent peer b sig s i v))
    | inr (e, v) ↦ inr (e, v)
  ]

  pub run_delivers :
      (fuel : ℕ) (s : Importer verify hash_slow cache new_payload signer)
      → IsImporter verify hash_slow cache new_payload signer s
      → length s.manager.events < fuel
      → ((run verify hash_slow cache new_payload fuel s).manager.events ≡ [])
        × Delivered s.manager.events (run verify hash_slow cache new_payload fuel s)
  unfolding run poll
  run_delivers zero s i enough = absurd (omega arith)
  run_delivers (suc fuel) s i enough = elim (poll_progress s.manager.events s.manager.connections) [
    | inl (m, e, none_left, delivered) ↦ rw e (none_left, delivered _)
    | inr (m, peer, b, sig, e, fewer, delivered) ↦
        let event = new_block_event peer b sig in
        let s' = record s { manager = m } in
        let after = (import_event verify hash_slow cache new_payload event s').1 in
        let i' = import_event-IsImporter verify hash_slow cache new_payload signer event m s i in
        let same = event_manager peer b sig s' in
        let rest = run_delivers fuel after i' (rw same (omega arith)) in
        rw e (
          rest.0,
          delivered _
              (run_handles fuel peer b sig s'
                (with_manager verify hash_slow cache new_payload signer m s i))
              (subst (λ mm. Delivered mm.events (run verify hash_slow cache new_payload fuel after))
                same rest.1),
        )
  ]
