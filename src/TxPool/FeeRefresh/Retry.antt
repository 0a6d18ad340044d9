-- ===== src/TxPool/FeeRefresh/Retry.antt =====
-- The retries of the task that keeps the L1 fee cache fresh: when they are armed and how long they wait.
use dogeos_reth.Prelude.{
  ℕ, zero, suc, ◌+◌, ◌*◌, ◌^◌, ◌≤◌, leb, ◌≡◌, refl, Bool, true, false, Bool-cases, inl, inr, none,
  some, List, [], ◌∷◌, Result, ok, err, min, arith, length, sym,
}
use dogeos_reth.TxPool.FeeRefresh.{
  L1FeeRetryBackoff, duration_max, TryRecvError, lagged, empty, closed, FeeLoop, looping,
  refresh_afresh, start, on_notification, on_lagged, on_retry, Turn, notification, lag, retry,
  Turns, stay, turn,
}

-- A retry is armed exactly while the cache is unavailable.
pub record IsArmed {S : Type 0} (backoff : L1FeeRetryBackoff) (l : FeeLoop S) : Type 0 where
  pub initial : backoff.initial ≤ l.retry_delay
  pub max : l.retry_delay ≤ backoff.max
  pub idle : l.available ≡ true → l.retry_deadline ≡ none
  pub waiting : l.available ≡ false → l.retry_deadline ≡ some (l.clock + l.retry_delay)

module _ {S : Type 0} (backoff : L1FeeRetryBackoff) (refresh : S → S × Bool)
    (resubscribe : S → S) where
  afresh-IsArmed :
      (now : ℕ) (s : S)
      → backoff.initial ≤ backoff.max
      → IsArmed backoff (refresh_afresh backoff refresh resubscribe now s)
  unfolding refresh_afresh
  afresh-IsArmed now s ordered = ground arith

  start-IsArmed :
      (answers : List (Result TryRecvError (Unit {0}))) (waits : Bool) (now : ℕ) (s : S)
      (l : FeeLoop S)
      → backoff.initial ≤ backoff.max
      → start backoff refresh resubscribe answers waits now s ≡ looping l
      → IsArmed backoff l
  unfolding start
  start-IsArmed [] waits now s l ordered h = cc
  start-IsArmed (ok u ∷ answers) waits now s l ordered h =
      start-IsArmed answers waits now (refresh s).0 l ordered h
  start-IsArmed (err (lagged skipped) ∷ answers) waits now s l ordered h =
      start-IsArmed answers waits now (refresh (resubscribe s)).0 l ordered h
  start-IsArmed (err empty ∷ answers) true now s l ordered h =
      let same : refresh_afresh backoff refresh resubscribe now s ≡ l = cc in
      rw (sym same) (afresh-IsArmed now s ordered)
  start-IsArmed (err empty ∷ answers) false now s l ordered h = cc
  start-IsArmed (err closed ∷ answers) waits now s l ordered h = cc

  Turn-IsArmed :
      {l m : FeeLoop S}
      → backoff.initial ≤ backoff.max
      → backoff.max ≤ duration_max
      → Turn backoff refresh resubscribe l m
      → IsArmed backoff l
      → IsArmed backoff m
  unfolding on_notification on_lagged on_retry
  Turn-IsArmed ordered small (notification now l after) v = afresh-IsArmed now l.world ordered
  Turn-IsArmed ordered small (lag now l after) v = afresh-IsArmed now (resubscribe l.world) ordered
  Turn-IsArmed ordered small (retry now deadline l e due) v = ground arith

  Turns-IsArmed :
      {l m : FeeLoop S}
      → backoff.initial ≤ backoff.max
      → backoff.max ≤ duration_max
      → Turns backoff refresh resubscribe l m
      → IsArmed backoff l
      → IsArmed backoff m
  Turns-IsArmed ordered small (stay l) v = v
  Turns-IsArmed ordered small (turn l m n first rest) v =
      Turns-IsArmed ordered small rest (Turn-IsArmed ordered small first v)

  -- However the notifications arrive, while the cache is unavailable the task has a retry armed that
  -- is due at most the longest delay after its last turn, and at that instant the retry can
  -- run; while it is available none is armed. The backoff is one of durations, the first at most
  -- the longest.
  pub unavailable_is_retried :
      (answers : List (Result TryRecvError (Unit {0}))) (waits : Bool) (now : ℕ) (s : S)
      (l m : FeeLoop S)
      → backoff.initial ≤ backoff.max
      → backoff.max ≤ duration_max
      → start backoff refresh resubscribe answers waits now s ≡ looping l
      → Turns backoff refresh resubscribe l m
      → (m.available ≡ true → m.retry_deadline ≡ none)
        × (m.available ≡ false
            → (due : ℕ) × (m.retry_deadline ≡ some due)
              × (due ≤ m.clock + backoff.max)
              × Turn backoff refresh resubscribe m (on_retry backoff refresh resubscribe due m))
  unavailable_is_retried answers waits now s l m ordered small h reached =
      let v = Turns-IsArmed ordered small reached (start-IsArmed answers waits now s l ordered h) in
      (
        v.idle,
        λ down. (
          m.clock + m.retry_delay,
          v.waiting down,
          omega (arith, v.max),
          retry _ _ m (v.waiting down) (omega arith),
        ),
      )

  -- `q` is one less than the power of two.
  capped-double :
      (d q m n : ℕ) → m ≤ n → min (min (min (d * 2) n) m * suc q) m ≡ min (d * (suc q * 2)) m
  capped-double d q m n small = elim (Bool-cases (leb (d * 2) m)) [
    | inl e ↦
        let le : d * 2 ≤ m = ground arith in
        let same : min (min (d * 2) n) m ≡ d * 2 = omega (arith, le, small) in rw same (omega arith)
    | inr e ↦
        let lt : m ≤ d * 2 = ground arith in
        let same : min (min (d * 2) n) m ≡ m = omega (arith, lt, small) in
        rw same (omega (arith, lt))
  ]

  power_suc : (n : ℕ) → (q : ℕ) × (2 ^ n ≡ suc q)
  power_suc zero = (0, refl)
  power_suc (suc n) = let (q, e) = power_suc n in (q * 2 + 1, omega (arith, e))

  -- Retries at the instants given, in order.
  abbrev pub retries : List ℕ → FeeLoop S → FeeLoop S
  retries [] l = l
  retries (now ∷ times) l = retries times (on_retry backoff refresh resubscribe now l)

  retries-delay :
      (times : List ℕ) (l : FeeLoop S)
      → backoff.max ≤ duration_max
      → ((s : S) → (refresh s).1 ≡ false)
      → l.retry_delay ≤ backoff.max
      → (retries times l).retry_delay ≡ min (l.retry_delay * 2 ^ length times) backoff.max
  unfolding on_retry
  retries-delay [] l small down bound = omega (arith, bound)
  retries-delay (now ∷ times) l small down bound =
      let doubled : (on_retry backoff refresh resubscribe now l).retry_delay
          ≡ min (min (l.retry_delay * 2) duration_max) backoff.max =
        rw (down l.world) refl in
      let (q, e) = power_suc (length times) in
      let next =
        retries-delay times (on_retry backoff refresh resubscribe now l) small down
          (omega (arith, doubled)) in
      let power : 2 ^ suc (length times) ≡ suc q * 2 = omega (arith, e) in
      rw (power, next, doubled, e) (capped-double l.retry_delay q backoff.max duration_max small)

  -- While every refresh fails, the delay after a notification or the startup doubles with each retry
  -- from the first delay up to the longest one. The backoff is one of durations, the first at
  -- most the longest.
  pub retry_delay_doubles :
      (times : List ℕ) (now : ℕ) (s : S)
      → backoff.initial ≤ backoff.max
      → backoff.max ≤ duration_max
      → ((world : S) → (refresh world).1 ≡ false)
      → (retries times (refresh_afresh backoff refresh resubscribe now s)).retry_delay
        ≡ min (backoff.initial * 2 ^ length times) backoff.max
  unfolding refresh_afresh
  retry_delay_doubles times now s ordered small down =
      retries-delay times (refresh_afresh backoff refresh resubscribe now s) small down ordered
