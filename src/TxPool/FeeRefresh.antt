-- ===== src/TxPool/FeeRefresh.antt =====
-- `run_dogeos_l1_fee_cache_maintenance` of crates/dogeos-reth-node/src/pool.rs, the task that keeps the
-- L1 fee cache fresh. `S` is the world that a refresh reads and changes; durations are counted in
-- nanoseconds and instants are natural numbers, which do not overflow.
pub mod Retry
use dogeos_reth.Prelude.{
  ℕ, ◌+◌, ◌-◌, ◌*◌, ◌≤◌, ◌≡◌, ◌^◌, Bool, true, false, Option, none, some, List, [], ◌∷◌, Result, ok,
  err, min,
}

pub record L1FeeRetryBackoff : Type 0 where
  pub initial : ℕ
  pub max : ℕ

-- 1 second and 30 seconds
abbrev pub l1_fee_retry_backoff : L1FeeRetryBackoff
l1_fee_retry_backoff = record { initial = 1_000_000_000; max = 30_000_000_000 }

-- `Duration::MAX`
abbrev pub duration_max : ℕ
duration_max = (2 ^ 64 - 1) * 1_000_000_000 + 999_999_999

pub data TryRecvError : Type 0 where
  lagged : ℕ → TryRecvError
  empty closed : TryRecvError

-- The locals of the loop with the world; `clock` is the instant of the last turn.
pub record FeeLoop (S : Type 0) : Type 0 where
  pub world : S
  pub available : Bool
  pub retry_delay : ℕ
  pub retry_deadline : Option ℕ
  pub clock : ℕ

-- The task after its startup: still draining, returned, or in its loop.
pub data Startup (S : Type 0) : Type 0 where
  draining returned : S → Startup S
  looping : FeeLoop S → Startup S

module _ {S : Type 0} (backoff : L1FeeRetryBackoff) (refresh : S → S × Bool)
    (resubscribe : S → S) where
  abbrev pub deadline_of : Bool → ℕ → ℕ → Option ℕ
  deadline_of true now delay = none
  deadline_of false now delay = some (now + delay)

  -- A refresh with the first delay, at the instant given.
  unfoldable pub refresh_afresh : ℕ → S → FeeLoop S
  refresh_afresh now s =
      let (world, available) = refresh s in
      record {
        world = world;
        available = available;
        retry_delay = backoff.initial;
        retry_deadline = deadline_of available now backoff.initial;
        clock = now;
      }

  abbrev signal : Bool → FeeLoop S → Startup S
  signal true l = looping l
  signal false l = returned l.world

  -- The startup, over the answers of `try_recv` and whether the receiver of `ready` still waits.
  unfoldable pub start : List (Result TryRecvError (Unit {0})) → Bool → ℕ → S → Startup S
  unfolding refresh_afresh
  start [] waits now s = draining s
  start (ok u ∷ answers) waits now s = start answers waits now (refresh s).0
  start (err (lagged skipped) ∷ answers) waits now s =
      start answers waits now (refresh (resubscribe s)).0
  start (err empty ∷ answers) waits now s = signal waits (refresh_afresh now s)
  start (err closed ∷ answers) waits now s = returned s

  -- The branch of a notification.
  unfoldable pub on_notification : ℕ → FeeLoop S → FeeLoop S
  unfolding refresh_afresh
  on_notification now l = refresh_afresh now l.world

  unfoldable pub on_lagged : ℕ → FeeLoop S → FeeLoop S
  unfolding refresh_afresh
  on_lagged now l = refresh_afresh now (resubscribe l.world)

  abbrev retried : Bool → S → ℕ → FeeLoop S → FeeLoop S
  retried true world now l = record {
    world = world;
    available = true;
    retry_delay = backoff.initial;
    retry_deadline = none;
    clock = now;
  }
  retried false world now l =
      let delay = min (min (l.retry_delay * 2) duration_max) backoff.max in
      record {
        world = world;
        available = false;
        retry_delay = delay;
        retry_deadline = some (now + delay);
        clock = now;
      }

  -- The branch of the timer.
  unfoldable pub on_retry : ℕ → FeeLoop S → FeeLoop S
  on_retry now l = retried (refresh l.world).1 (refresh l.world).0 now l

  -- A turn of `select!`. The timer's branch waits for a deadline, for ever where there is none. When
  -- the notifications are closed the task returns, so there is no turn.
  pub data Turn : FeeLoop S → FeeLoop S → Type 0 where
    notification : (now : ℕ) (l : FeeLoop S) → l.clock ≤ now → Turn l (on_notification now l)
    lag : (now : ℕ) (l : FeeLoop S) → l.clock ≤ now → Turn l (on_lagged now l)
    retry :
        (now deadline : ℕ) (l : FeeLoop S)
        → l.retry_deadline ≡ some deadline
        → deadline ≤ now
        → Turn l (on_retry now l)

  pub data Turns : FeeLoop S → FeeLoop S → Type 0 where
    stay : (l : FeeLoop S) → Turns l l
    turn : (l m n : FeeLoop S) → Turn l m → Turns m n → Turns l n
