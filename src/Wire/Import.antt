-- ===== src/Wire/Import.antt =====
-- crates/dogeos-reth-node/src/wire_import.rs: the import of announced blocks. reth's LRU cache, the
-- engine and the hash of a block's header are parameters; `St` stands for payload statuses and `X` for
-- the engine's errors.
pub mod Spaced
pub mod Delivery
use dogeos_reth.Prelude.{
  ℕ, zero, suc, ◌≡◌, ◌≢◌, ◌⊎◌, Bool, true, false, Option, none, some, List, [], ◌∷◌, Result, ok,
  err, map_err, map, take, All,
}
use dogeos_reth.Wire.Message.{ScrollWireEvent, connection_established, new_block_event}
use dogeos_reth.Wire.Signature.{BlockSignatureError}
use dogeos_reth.Wire.Manager.{ScrollWireManager, poll}

-- LRU_CACHE_SIZE
abbrev pub lru_cache_size : ℕ
lru_cache_size = 100

-- A key is in the list.
abbrev pub Has : {K : Type 0} → K → List K → Type 0
Has k [] = ⊥
Has k (x ∷ xs) = (x ≡ k) ⊎ Has k xs

-- `LruCache`: it holds at most `limit` keys, the latest ones to be inserted; `contains` does not touch
-- their order, and a key that is there is not inserted again by the code below.
pub record LruCache (K : Type 0) : Type 1 where
  pub C : Type 0
  pub new : ℕ → C
  pub contains : C → K → Bool
  pub insert : C → K → C
  pub limit : C → ℕ
  pub contents : C → List K
  pub contents_new : (n : ℕ) → contents (new n) ≡ []
  pub limit_new : (n : ℕ) → limit (new n) ≡ n
  pub limit-insert : (c : C) (k : K) → limit (insert c k) ≡ limit c
  pub contents-insert :
      (c : C) (k : K)
      → contains c k ≡ false
      → contents (insert c k) ≡ take (limit c) (k ∷ contents c)
  pub contains_true : (c : C) (k : K) → contains c k ≡ true → Has k (contents c)
  pub contains_false : (c : C) (k : K) → contains c k ≡ false → All (λ x. x ≢ k) (contents c)

pub data ScrollWireImportError (X : Type 0) : Type 0 where
  signature : BlockSignatureError → ScrollWireImportError X
  engine : X → ScrollWireImportError X

-- `block_key`
abbrev pub key : {B Sig : Type 0} → (B → ℕ) → B × Sig → ℕ × Sig
key hash_slow (block, sig) = (hash_slow block, sig)

module _ {B Sig St X : Type 0}
    -- `verify_block_signature` of a block's header, under the authorized signer
    (verify : B → Sig → Option ℕ → Result BlockSignatureError (Unit {0})) (hash_slow : B → ℕ)
    (cache : LruCache (ℕ × Sig))
    -- the engine's answer to `new_payload`, which may depend on the payloads before
    (new_payload : List (B × Sig) → B → Result X St) where
  -- `payloads` are the blocks that were sent to the engine with their signatures, latest first.
  pub record DogeosScrollWireEngineImporter : Type 0 where
    pub manager : ScrollWireManager B Sig
    pub authorized_signer : Option ℕ
    pub blocks_seen : cache.C
    pub payloads : List (B × Sig)

  unfoldable pub new : ScrollWireManager B Sig → Option ℕ → DogeosScrollWireEngineImporter
  new manager authorized_signer = record {
    manager = manager;
    authorized_signer = authorized_signer;
    blocks_seen = cache.new lru_cache_size;
    payloads = [];
  }

  abbrev pub Imported : Type 0
  Imported = Result (ScrollWireImportError X) (Option St) × DogeosScrollWireEngineImporter

  -- The block is sent to the engine where its key was not seen.
  abbrev pub import_unseen : Bool → B → Sig → DogeosScrollWireEngineImporter → Imported
  import_unseen true block sig s = (ok none, s)
  import_unseen false block sig s = (
    map_err engine (map_ok (new_payload s.payloads block)),
    record s {
      blocks_seen = cache.insert s.blocks_seen (key hash_slow (block, sig));
      payloads = (block, sig) ∷ s.payloads;
    },
  )
    where
      map_ok : Result X St → Result X (Option St)
      map_ok (ok status) = ok (some status)
      map_ok (err e) = err e

  abbrev pub import_verified :
      Result BlockSignatureError (Unit {0}) → B → Sig → DogeosScrollWireEngineImporter → Imported
  import_verified (err e) block sig s = (err (signature e), s)
  import_verified (ok _) block sig s =
      import_unseen (cache.contains s.blocks_seen (key hash_slow (block, sig))) block sig s

  unfoldable pub import_event : ScrollWireEvent B Sig ℕ → DogeosScrollWireEngineImporter → Imported
  import_event (connection_established peer channel) s = (ok none, s)
  import_event (new_block_event peer block sig) s =
      import_verified (verify block sig s.authorized_signer) block sig s

  -- The loop of `run` for as many rounds as the fuel says, stopped where the manager waits. A failed
  -- import is logged and the loop goes on.
  abbrev pub after_poll :
      (DogeosScrollWireEngineImporter → DogeosScrollWireEngineImporter)
      → Option (ScrollWireEvent B Sig ℕ) × ScrollWireManager B Sig
      → DogeosScrollWireEngineImporter
      → DogeosScrollWireEngineImporter
  after_poll next (none, m) s = record s { manager = m }
  after_poll next (some event, m) s = next ((import_event event (record s { manager = m })).1)

  unfoldable pub run : ℕ → DogeosScrollWireEngineImporter → DogeosScrollWireEngineImporter
  run zero s = s
  run (suc fuel) s = after_poll (run fuel) (poll s.manager) s
