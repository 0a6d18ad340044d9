-- ===== src/Wire/Import/Spaced.antt =====
-- What the importer sends to the engine.
use dogeos_reth.Prelude.{
  ℕ, zero, suc, ◌≡◌, ◌≢◌, refl, sym, ap, ◌∙◌, inl, inr, Option, none, some, List, [], ◌∷◌, Result,
  ok, map, take, All, Bool-cases, Result-cases,
}
use dogeos_reth.Wire.Message.{ScrollWireEvent, connection_established, new_block_event}
use dogeos_reth.Wire.Signature.{BlockSignatureError}
use dogeos_reth.Wire.Manager.{ScrollWireManager, poll}
use dogeos_reth.Wire.Import.{
  LruCache, lru_cache_size, DogeosScrollWireEngineImporter, new, key, import_unseen,
  import_verified, import_event, after_poll, run,
}

module _ {A : Type 0} where
  -- Between two occurrences of an element there are at least `n` others.
  abbrev pub Spaced : ℕ → List A → Type 0
  Spaced n [] = Unit
  Spaced n (x ∷ xs) = All (λ y. y ≢ x) (take n xs) × Spaced n xs

  take-suc : (n : ℕ) (xs : List A) → take n (take (suc n) xs) ≡ take n xs
  take-suc zero xs = refl
  take-suc (suc n) [] = refl
  take-suc (suc n) (x ∷ xs) = ap (λ l. x ∷ l) (take-suc n xs)

  pub take-cons : (n : ℕ) (x : A) (xs : List A) → take n (x ∷ take n xs) ≡ take n (x ∷ xs)
  take-cons zero x xs = refl
  take-cons (suc n) x xs = ap (λ l. x ∷ l) (take-suc n xs)

module _ {B Sig St X : Type 0} (verify : B → Sig → Option ℕ → Result BlockSignatureError (Unit {0}))
    (hash_slow : B → ℕ) (cache : LruCache (ℕ × Sig))
    (new_payload : List (B × Sig) → B → Result X St) (signer : Option ℕ) where
  abbrev pub Importer : Type 0
  Importer = DogeosScrollWireEngineImporter verify hash_slow cache new_payload

  -- The cache holds the latest keys, they are spaced, and every payload was verified.
  pub record IsImporter (s : Importer) : Type 0 where
    pub same_signer : s.authorized_signer ≡ signer
    pub limit : cache.limit s.blocks_seen ≡ lru_cache_size
    pub seen : cache.contents s.blocks_seen ≡ take lru_cache_size (map (key hash_slow) s.payloads)
    pub spaced : Spaced lru_cache_size (map (key hash_slow) s.payloads)
    pub verified : All (λ p. verify p.0 p.1 signer ≡ ok tt) s.payloads

  import_unseen-IsImporter :
      (block : B) (sig : Sig) (s : Importer)
      → verify block sig signer ≡ ok tt
      → IsImporter s
      → IsImporter (
          (import_unseen verify hash_slow cache new_payload
            (cache.contains s.blocks_seen (hash_slow block, sig))
            block
            sig
            s).1)
  import_unseen-IsImporter block sig s v i =
      elim (Bool-cases (cache.contains s.blocks_seen (hash_slow block, sig))) [
        | inl seen ↦ rw seen i
        | inr unseen ↦ rw unseen (record {
          same_signer = i.same_signer;
          limit = cache.limit-insert s.blocks_seen (hash_slow block, sig) ∙ i.limit;
          seen =
              cache.contents-insert s.blocks_seen (hash_slow block, sig) unseen
              ∙ rw (i.limit, i.seen)
                  (take-cons lru_cache_size (hash_slow block, sig)
                    (map (key hash_slow) s.payloads));
          spaced =
              let others = cache.contains_false s.blocks_seen (hash_slow block, sig) unseen in
              (rw i.seen at others, i.spaced);
          verified = (v, i.verified);
        })
      ]

  import_verified-IsImporter :
      (block : B) (sig : Sig) (s : Importer)
      → IsImporter s
      → IsImporter (
          (import_verified verify hash_slow cache new_payload
            (verify block sig s.authorized_signer)
            block
            sig
            s).1)
  import_verified-IsImporter block sig s i =
      let same = ap (λ a. verify block sig a) i.same_signer in
      elim (Result-cases (verify block sig s.authorized_signer)) [
        | inl (u, e) ↦ rw e (import_unseen-IsImporter block sig s (sym same ∙ e) i)
        | inr (e', e) ↦ rw e i
      ]

  pub with_manager :
      (m : ScrollWireManager B Sig) (s : Importer)
      → IsImporter s
      → IsImporter (record s { manager = m })
  with_manager m s i = record {
    same_signer = i.same_signer;
    limit = i.limit;
    seen = i.seen;
    spaced = i.spaced;
    verified = i.verified;
  }

  -- The state in which an event is imported: the manager alone has changed.
  pub import_event-IsImporter :
      (event : ScrollWireEvent B Sig ℕ) (m : ScrollWireManager B Sig) (s : Importer)
      → IsImporter s
      → IsImporter
          ((import_event verify hash_slow cache new_payload event (record s { manager = m })).1)
  unfolding import_event
  import_event-IsImporter (connection_established peer channel) m s i = with_manager m s i
  import_event-IsImporter (new_block_event peer block sig) m s i =
      import_verified-IsImporter block sig (record s { manager = m }) (with_manager m s i)

  after_poll-IsImporter :
      (fuel : ℕ) (polled : Option (ScrollWireEvent B Sig ℕ) × ScrollWireManager B Sig)
      (s : Importer)
      → IsImporter s
      → ((s' : Importer)
          → IsImporter s'
          → IsImporter (run verify hash_slow cache new_payload fuel s'))
      → IsImporter (
          after_poll verify hash_slow cache new_payload
            (run verify hash_slow cache new_payload fuel)
            polled
            s)
  after_poll-IsImporter fuel (none, m) s i next = with_manager m s i
  after_poll-IsImporter fuel (some event, m) s i next = next _ (import_event-IsImporter event m s i)

  pub run-IsImporter :
      (fuel : ℕ) (s : Importer)
      → IsImporter s
      → IsImporter (run verify hash_slow cache new_payload fuel s)
  unfolding run
  run-IsImporter zero s i = i
  run-IsImporter (suc fuel) s i =
      after_poll-IsImporter fuel (poll s.manager) s i (run-IsImporter fuel)

  pub new-IsImporter :
      (manager : ScrollWireManager B Sig)
      → IsImporter (new verify hash_slow cache new_payload manager signer)
  unfolding new
  new-IsImporter manager = record {
    same_signer = refl;
    limit = cache.limit_new lru_cache_size;
    seen = cache.contents_new lru_cache_size;
    spaced = tt;
    verified = tt;
  }

  -- However many events a new importer handles, among the hundred payloads before one that is sent to
  -- the engine none has the same block hash and signature, and every block that is sent was verified
  -- under the authorized signer.
  pub imported_blocks :
      (fuel : ℕ) (manager : ScrollWireManager B Sig)
      → Spaced lru_cache_size (
          map
            (key hash_slow)
            (run verify hash_slow cache new_payload fuel
              (new verify hash_slow cache new_payload manager signer)).payloads)
        × All
            (λ p. verify p.0 p.1 signer ≡ ok tt)
            (run verify hash_slow cache new_payload fuel
              (new verify hash_slow cache new_payload manager signer)).payloads
  imported_blocks fuel manager =
      let end = run-IsImporter fuel _ (new-IsImporter manager) in (end.spaced, end.verified)
