-- ===== src/TxPool/L1Fee/Refresh.antt =====
-- What a refresh of the L1 fee cache leaves behind.
use mathlib.Core.Path.{subst}
use dogeos_reth.Prelude.{
  ℕ, suc, ◌+◌, ◌*◌, ◌<◌, ◌≡◌, ◌≢◌, ◌⊎◌, Result-cases, inl, inr, refl, Bool, true, false, Option,
  none, some, Result, ok, err, map_err, reject_if, bind-ok, ok-injective, Bool-cases, not, ap, sym,
  ◌==◌, arith,
}
use dogeos_reth.TxPool.L1Fee.{
  SealedHeader, DogeosL1FeeError, exact_state_open, oracle_account_read, oracle_storage_read,
  DogeosL1FeeSnapshot, DogeosL1FeeCache, ready, unavailable, disabled, Client, read_head,
  snapshot_of, load_for_head, publish_l1_fee_refresh, verified, attempt, refresh_loop,
  refresh_enabled, refresh_head_moved, max_l1_fee_refresh_attempts,
  refresh_l1_fee_cache_from_latest,
}

-- Attempt `a` of a refresh reads the latest header with the numbers `2 * a` and `2 * a + 1`.
module _ {R L V : Type 0} (client : Client R L V) (cache : DogeosL1FeeCache R L) where
  -- An attempt that saw the head move while it loaded the snapshot.
  pub record Moved (a : ℕ) (target head : SealedHeader) : Type 0 where
    pub before : read_head client (2 * a) ≡ ok target
    pub after : read_head client (2 * a + 1) ≡ ok head
    pub differs : head.hash ≢ target.hash

  abbrev pub AllMoved : ℕ → Type 0
  AllMoved a =
      (b : ℕ) → b < a → (target : SealedHeader) × (head : SealedHeader) × Moved b target head

  -- The head was the same before and after its snapshot was loaded.
  pub record Confirmed (a : ℕ) (target : SealedHeader) : Type 0 where
    pub again : SealedHeader
    pub after : read_head client (2 * a + 1) ≡ ok again
    pub same_head : again.hash ≡ target.hash

  -- A snapshot of the head that one of the three attempts read, after the head moved in every
  -- attempt before it: the snapshot that the cache held, or one loaded from that head's state while
  -- it stayed the latest one.
  pub record IsCurrent (snapshot : DogeosL1FeeSnapshot L) : Type 0 where
    pub attempt_no : ℕ
    pub bounded : attempt_no < 3
    pub moved : AllMoved attempt_no
    pub head : SealedHeader
    pub was_latest : read_head client (2 * attempt_no) ≡ ok head
    pub same_hash : snapshot.head_hash ≡ head.hash
    pub origin :
        (cache ≡ ready snapshot)
        ⊎ ((load_for_head client head ≡ ok snapshot) × Confirmed attempt_no head)

  -- Why a refresh fails, after the head moved in every attempt before the one that does.
  pub data Failure (e : DogeosL1FeeError R) : Type 0 where
    read_failed : (a : ℕ) → a < 3 → AllMoved a → read_head client (2 * a) ≡ err e → Failure e
    reread_failed :
        (a : ℕ) (target : SealedHeader)
        → a < 3
        → AllMoved a
        → read_head client (2 * a) ≡ ok target
        → read_head client (2 * a + 1) ≡ err e
        → Failure e
    load_failed :
        (a : ℕ) (target : SealedHeader)
        → a < 3
        → AllMoved a
        → read_head client (2 * a) ≡ ok target
        → load_for_head client target ≡ err e
        → Confirmed a target
        → Failure e
    always_moved :
        (target head : SealedHeader)
        → AllMoved 2
        → Moved 2 target head
        → e ≡ refresh_head_moved 3 target head
        → Failure e

  -- What a refresh may leave behind.
  abbrev pub IsRefreshed : Option (DogeosL1FeeCache R L × Bool) → Type 0
  IsRefreshed none = ⊥
  IsRefreshed (some (ready snapshot, true)) = IsCurrent snapshot
  IsRefreshed (some (ready snapshot, false)) = ⊥
  IsRefreshed (some (unavailable e, usable)) = (usable ≡ false) × Failure e
  IsRefreshed (some (disabled, usable)) = (usable ≡ true) × (cache ≡ disabled)

  loaded_hash :
      (header : SealedHeader) (snapshot : DogeosL1FeeSnapshot L)
      → load_for_head client header ≡ ok snapshot
      → snapshot.head_hash ≡ header.hash
  unfolding load_for_head
  loaded_hash header snapshot h =
      let (provider, opened, h1) =
        bind-ok
          (map_err (exact_state_open header.hash header.number)
            (client.state_by_block_hash header.hash))
          _ snapshot h in
      let (found, read, h2) =
        bind-ok
          (map_err (oracle_account_read header.hash header.number)
            (client.has_oracle_account provider))
          _ snapshot h1 in
      let (u, exists, h3) = bind-ok (reject_if (not found) _) _ snapshot h2 in
      let (info, fetched, h4) =
        bind-ok (map_err (oracle_storage_read header.hash header.number) _)
          (λ info. ok (snapshot_of client header info)) snapshot h3 in
      let same = ok-injective (snapshot_of client header info) snapshot h4 in
      sym (ap (λ (s : DogeosL1FeeSnapshot L). s.head_hash) same)

  extended :
      (a : ℕ) (target head : SealedHeader) → AllMoved a → Moved a target head → AllMoved (suc a)
  extended a target head moved moves b below = elim (Bool-cases (b == a)) [
    | inl e ↦
        let same : a ≡ b = ground arith in
        (target, head, subst (λ c. Moved c target head) same moves)
    | inr e ↦ let less : b < a = ground arith in moved b less
  ]

  published-IsRefreshed :
      (a : ℕ) (target : SealedHeader)
      → a < 3
      → AllMoved a
      → read_head client (2 * a) ≡ ok target
      → Confirmed a target
      → IsRefreshed (some (publish_l1_fee_refresh client (load_for_head client target)))
  unfolding publish_l1_fee_refresh
  published-IsRefreshed a target bounded moved was confirmed =
      elim (Result-cases (load_for_head client target)) [
        | inl (snapshot, e) ↦ rw e (record {
          attempt_no = a;
          bounded = bounded;
          moved = moved;
          head = target;
          was_latest = was;
          same_hash = loaded_hash target snapshot e;
          origin = inr (e, confirmed);
        })
        | inr (error, e) ↦ rw e (refl, load_failed a target bounded moved was e confirmed)
      ]

  -- The attempt `a`, given what follows it: the third one is the last.
  verified-IsRefreshed :
      (last : Bool) (more : Option (DogeosL1FeeCache R L × Bool)) (a : ℕ) (target : SealedHeader)
      (after : Result (DogeosL1FeeError R) SealedHeader)
      → a < 3
      → AllMoved a
      → read_head client (2 * a) ≡ ok target
      → read_head client (2 * a + 1) ≡ after
      → (last ≡ true → a ≡ 2)
      → (last ≡ false → AllMoved (suc a) → IsRefreshed more)
      → IsRefreshed (verified client last more target after)
  unfolding publish_l1_fee_refresh
  verified-IsRefreshed last more a target (err e) bounded moved was then third h =
      (refl, reread_failed a target bounded moved was then)
  verified-IsRefreshed last more a target (ok head) bounded moved was then third h =
      elim (Bool-cases (head.hash == target.hash)) [
        | inl e ↦
            let same : head.hash ≡ target.hash = ground arith in
            rw e (
              published-IsRefreshed a target bounded moved was
                (record { again = head; after = then; same_head = same }))
        | inr e ↦
            let moves : Moved a target head = record {
              before = was;
              after = then;
              differs = λ same. ground arith;
            } in
            elim (Bool-cases last) [
              | inl l ↦
                  rw (e, l)
                    (
                      refl,
                      always_moved target head (subst AllMoved (third l) moved)
                          (subst (λ b. Moved b target head) (third l) moves) refl,
                    )
              | inr l ↦ rw (e, l) (h l (extended a target head moved moves))
            ]
      ]

  attempt-IsRefreshed :
      (last : Bool) (more : Option (DogeosL1FeeCache R L × Bool)) (a : ℕ)
      (target after : Result (DogeosL1FeeError R) SealedHeader) (held : DogeosL1FeeCache R L)
      → cache ≡ held
      → a < 3
      → AllMoved a
      → read_head client (2 * a) ≡ target
      → read_head client (2 * a + 1) ≡ after
      → (last ≡ true → a ≡ 2)
      → (last ≡ false → AllMoved (suc a) → IsRefreshed more)
      → IsRefreshed (attempt client last more held target after)
  unfolding publish_l1_fee_refresh
  attempt-IsRefreshed last more a (err e) after held is bounded moved was then third h =
      (refl, read_failed a bounded moved was)
  attempt-IsRefreshed last more a (ok target) after (ready snapshot) is bounded moved was then third
        h =
      elim (Bool-cases (snapshot.head_hash == target.hash)) [
        | inl e ↦ rw e (record {
          attempt_no = a;
          bounded = bounded;
          moved = moved;
          head = target;
          was_latest = was;
          same_hash = ground arith;
          origin = inl is;
        })
        | inr e ↦
            rw e (verified-IsRefreshed last more a target after bounded moved was then third h)
      ]
  attempt-IsRefreshed last more a (ok target) after (unavailable x) is bounded moved was then third
        h =
      verified-IsRefreshed last more a target after bounded moved was then third h
  attempt-IsRefreshed last more a (ok target) after disabled is bounded moved was then third h =
      verified-IsRefreshed last more a target after bounded moved was then third h

  loop-IsRefreshed :
      (held : DogeosL1FeeCache R L)
      → cache ≡ held
      → IsRefreshed (refresh_loop client max_l1_fee_refresh_attempts 0 held)
  unfolding refresh_loop
  loop-IsRefreshed held is =
      attempt-IsRefreshed false _ 0 (read_head client 0) (read_head client 1) held is (omega arith)
        (λ b below. ground arith) refl refl (λ l. cc)
        (λ l moved.
          attempt-IsRefreshed false _ 1 (read_head client 2) (read_head client 3) held is
            (omega arith) moved refl refl (λ l'. cc)
            (λ l' moved'.
              attempt-IsRefreshed true none 2 (read_head client 4) (read_head client 5) held is
                (omega arith) moved' refl refl (λ l''. refl) (λ l''. cc)))

  enabled-IsRefreshed :
      (held : DogeosL1FeeCache R L) → cache ≡ held → IsRefreshed (refresh_enabled client held)
  enabled-IsRefreshed disabled is = (refl, is)
  enabled-IsRefreshed (ready snapshot) is = loop-IsRefreshed (ready snapshot) is
  enabled-IsRefreshed (unavailable e) is = loop-IsRefreshed (unavailable e) is

  -- A refresh reaches a result within its three attempts, however the head moves meanwhile. It answers
  -- yes with a snapshot of the head that its last attempt read as the latest one: the snapshot that
  -- the cache held, or one loaded from that head's state, after which the head was read again and
  -- was the same. Or the cache is disabled, and it answers yes. Or the cache is unavailable with the
  -- error of a read or of the load, or because the head moved in all three attempts, and it
  -- answers no. In every attempt before the last one the head moved.
  pub refresh_is_current : IsRefreshed (refresh_l1_fee_cache_from_latest client cache)
  unfolding refresh_l1_fee_cache_from_latest
  refresh_is_current = enabled-IsRefreshed cache refl
