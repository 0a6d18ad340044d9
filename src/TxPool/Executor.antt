-- ===== src/TxPool/Executor.antt =====
-- crates/dogeos-reth-txpool/src/executor.rs: the validation executor. tokio's semaphores are counts
-- of free permits, and each await point of `validate_transaction` is a step. A request that waits
-- for a worker holds an admission permit, one that runs holds both, until the validator returns.
use dogeos_reth.Prelude.{
  ℕ, ◌+◌, ◌-◌, ◌^◌, ◌↔◌, ◌≤◌, ◌<◌, ◌≡◌, ◌⊎◌, Option, none, some, min, ltb, if◌then◌else◌, arith,
}

-- `usize::MAX` on a 64-bit target
abbrev usize_max : ℕ
usize_max = 2 ^ 64 - 1

pub record DogeosValidationExecutor : Type 0 where
  -- free permits of the two semaphores
  pub inflight : ℕ
  pub workers : ℕ
  -- requests that wait for a worker, and that validate
  pub waiting : ℕ
  pub running : ℕ

abbrev pub worker_count : ℕ → ℕ → ℕ
worker_count max_inflight additional_validation_tasks =
    min (min (additional_validation_tasks + 1) usize_max) max_inflight

-- `none` is the panic of the assertion.
unfoldable pub new : ℕ → ℕ → Option DogeosValidationExecutor
new max_inflight additional_validation_tasks =
    if ltb 0 max_inflight
    then some (record {
      inflight = max_inflight;
      workers = worker_count max_inflight additional_validation_tasks;
      waiting = 0;
      running = 0;
    })
    else none

-- `try_acquire_owned` on the admission semaphore; `none` is the answer `Busy`.
unfoldable pub try_admit : DogeosValidationExecutor → Option DogeosValidationExecutor
try_admit s =
    if ltb 0 s.inflight
    then some (record s { inflight = s.inflight - 1; waiting = s.waiting + 1 })
    else none

-- What may happen at the await points.
pub data Step : DogeosValidationExecutor → DogeosValidationExecutor → Type 0 where
  -- a request arrives and is admitted
  admit : (s s' : DogeosValidationExecutor) → try_admit s ≡ some s' → Step s s'
  -- a request arrives and is answered `Busy`
  refuse : (s : DogeosValidationExecutor) → try_admit s ≡ none → Step s s
  -- a waiting request gets a worker
  start :
      (s : DogeosValidationExecutor)
      → 0 < s.waiting
      → 0 < s.workers
      → Step s
          (record s { workers = s.workers - 1; waiting = s.waiting - 1; running = s.running + 1 })
  -- the caller of a waiting request goes away
  cancel :
      (s : DogeosValidationExecutor)
      → 0 < s.waiting
      → Step s (record s { inflight = s.inflight + 1; waiting = s.waiting - 1 })
  -- a validation returns or panics; a caller that goes away earlier frees nothing
  finish :
      (s : DogeosValidationExecutor)
      → 0 < s.running
      → Step s
          (record s { inflight = s.inflight + 1; workers = s.workers + 1; running = s.running - 1 })

pub data Steps : DogeosValidationExecutor → DogeosValidationExecutor → Type 0 where
  done : (s : DogeosValidationExecutor) → Steps s s
  step : (s t u : DogeosValidationExecutor) → Step s t → Steps t u → Steps s u

-- No permit is lost or made.
pub record IsConserved (max_inflight worker_max : ℕ) (s : DogeosValidationExecutor) : Type 0 where
  pub inflight : s.inflight + s.waiting + s.running ≡ max_inflight
  pub workers : s.workers + s.running ≡ worker_max

module _ (max_inflight worker_max : ℕ) where
  step-IsConserved :
      {s t : DogeosValidationExecutor}
      → Step s t
      → IsConserved max_inflight worker_max s
      → IsConserved max_inflight worker_max t
  unfolding try_admit
  step-IsConserved (admit s s' h) v = ground arith
  step-IsConserved (refuse s h) v = v
  step-IsConserved (start s w f) v = ground arith
  step-IsConserved (cancel s w) v = ground arith
  step-IsConserved (finish s r) v = ground arith

  steps-IsConserved :
      {s t : DogeosValidationExecutor}
      → Steps s t
      → IsConserved max_inflight worker_max s
      → IsConserved max_inflight worker_max t
  steps-IsConserved (done s) v = v
  steps-IsConserved (step s t u first rest) v = steps-IsConserved rest (step-IsConserved first v)

-- In every reachable state at most `max_inflight` requests are held and at most the workers run, a
-- request is answered `Busy` exactly when all the admission permits are held, and a waiting request
-- is never stuck: a worker is free or one is running.
pub executor_capacity :
    (max_inflight additional : ℕ) (s t : DogeosValidationExecutor)
    → new max_inflight additional ≡ some s
    → Steps s t
    → (t.running ≤ worker_count max_inflight additional)
      × (t.waiting + t.running ≤ max_inflight)
      × (try_admit t ≡ none ↔ t.waiting + t.running ≡ max_inflight)
      × ((t.waiting ≡ 0) ⊎ ((0 < t.workers) ⊎ (0 < t.running)))
unfolding new try_admit
executor_capacity max_inflight additional s t h steps =
    let v =
      steps-IsConserved max_inflight (worker_count max_inflight additional) steps (ground arith) in
    let positive : 0 < max_inflight = ground arith in
    (
      omega (arith, v.workers),
      omega (arith, v.inflight),
      (λ e. ground arith, λ e. ground arith),
      ground arith,
    )
