-- ===== src/Payload/Limits.antt =====
-- The limits on a payload under construction in `build_payload` of
-- crates/dogeos-reth-payload/src/builder.rs, and what one executed transaction adds.
pub mod Forced
pub mod Pool
use mathlib.Core.Path.{subst}
use dogeos_reth.Prelude.{
  ℕ, ◌+◌, ◌≤◌, ◌<◌, ◌≡◌, refl, Bool, true, false, Option, none, some, List, [], ◌∷◌, Result, ok,
  err, Result-cases, Bool-cases, Option-cases, ◌⊎◌, inl, inr, arith, All, length, ltb, sat_add64,
  wrap_add64, ap, ◌∙◌, min, u64_max, zero, suc, if◌then◌else◌, ◌||◌, not,
}
use dogeos_reth.CodeWitness.{Meter, begin_transaction, accept_transaction, reject_transaction}
use dogeos_reth.CodeWitness.Inspector.{run_hooks}
use dogeos_reth.CodeWitness.Keeps.{IsSizedHook, run_hooks-keeps}
use dogeos_reth.CodeWitness.Invariant.{IsMetered, reset-IsMetered, accept-IsMetered}
use dogeos_reth.CodeWitness.Budget.{HasSize, inspector, IsMetered-Keeps}
use dogeos_reth.Payload.{
  new_info, ExecutionInfo, TxApi, ScrollBuilderConfig, should_break, record_tx, is_tx_over_limits,
}
use dogeos_reth.Payload.Execute.{
  BlockExecutionError, invalid_tx, fatal, ScrollPayloadBuilderError, Executor, Executed,
  code_witness_commit, execute_with_code_budget, settle, forced_code_budget_result,
}
use dogeos_reth.Payload.Forced.{
  exceeds, WithEncoded, Building, forced_gas_used, after_forced, push_gas, execute_forced,
  run_forced, da_bytes_from, forced_transactions_da_bytes,
}
use dogeos_reth.Payload.Pool.{
  BestTransactions, Signals, PoolEnd, finished, cancelled, out_of_fuel, failed, PoolStep, included,
  dropped, aborted, Round, stop, again, continue, after_step, pool_step, pool_round, pool_loop,
}

-- What is known of reth's executor: a transaction uses at most its gas limit, and the codes that the
-- inspector sees have the sizes of their hashes.
pub record IsExecutor {X B T : Type 0} (size : ℕ → ℕ) (api : TxApi T) (executor : Executor X B T)
    : Type 0 where
  pub gas :
      (b : B) (tx : T) (m : Meter) (gas_used : ℕ) (b' : B)
      → (executor b tx m).outcome ≡ ok (gas_used, b')
      → gas_used ≤ api.gas_limit tx
  pub sized :
      (b : B) (tx : T) (m : Meter) → All (IsSizedHook (HasSize size)) (executor b tx m).hooks

abbrev pub DaWithin : Option ℕ → ℕ → Type 0
DaWithin none bytes = Unit
DaWithin (some limit) bytes = bytes ≤ limit

pub da_intro :
    (da : Option ℕ) (bytes : ℕ)
    → ((limit : ℕ) → da ≡ some limit → bytes ≤ limit)
    → DaWithin da bytes
da_intro none bytes h = tt
da_intro (some limit) bytes h = h limit refl

-- The gas of the block and the bytes for data availability within their limits, and the meter.
pub record IsWithin {B : Type 0} (size : ℕ → ℕ) (config : ScrollBuilderConfig) (block_gas_limit : ℕ)
    (s : Building B) : Type 0 where
  pub gas : s.info.cumulative_gas_used ≤ block_gas_limit
  pub da : DaWithin config.max_da_block_size s.info.cumulative_da_bytes_used
  pub metered : IsMetered size config.max_code_witness_bytes s.meter

module _ {X B T : Type 0} (size : ℕ → ℕ) (api : TxApi T) (executor : Executor X B T)
    (law : IsExecutor size api executor) where
  settle_gas :
      (b : B) (m : Meter) (outcome : Result (BlockExecutionError X) (ℕ × B)) (gas_used : ℕ)
      → (settle executor b m outcome).outcome ≡ ok (some gas_used)
      → (b' : B) × (outcome ≡ ok (gas_used, b'))
  unfolding settle
  settle_gas b m (err e) gas_used h = ground arith
  settle_gas b m (ok (g, b')) gas_used h = elim (Bool-cases (code_witness_commit m)) [
    | inl e ↦ let h' = rw e at h in (b', ground arith)
    | inr e ↦ let h' = rw e at h in ground arith
  ]

  -- The gas that a committed transaction reports is within its gas limit.
  pub executed_gas :
      (b : B) (tx : T) (m : Meter) (gas_used : ℕ)
      → (execute_with_code_budget executor b tx m).outcome ≡ ok (some gas_used)
      → gas_used ≤ api.gas_limit tx
  unfolding execute_with_code_budget
  executed_gas b tx m gas_used h =
      let (b', e) = settle_gas b _ _ gas_used h in law.gas b tx (begin_transaction m) gas_used b' e

  settle-IsMetered :
      (limit : ℕ) (b : B) (m : Meter) (outcome : Result (BlockExecutionError X) (ℕ × B))
      → IsMetered size limit m
      → IsMetered size limit (settle executor b m outcome).meter
  unfolding settle reject_transaction
  settle-IsMetered limit b m (err e) v = reset-IsMetered size limit v
  settle-IsMetered limit b m (ok (g, b')) v = elim (Bool-cases (code_witness_commit m)) [
    | inl e ↦ rw e (accept-IsMetered size limit v)
    | inr e ↦ rw e (reset-IsMetered size limit v)
  ]

  pub executed-IsMetered :
      (limit : ℕ) (b : B) (tx : T) (m : Meter)
      → IsMetered size limit m
      → IsMetered size limit (execute_with_code_budget executor b tx m).meter
  unfolding execute_with_code_budget begin_transaction
  executed-IsMetered limit b tx m v = settle-IsMetered limit b _ _ (
      run_hooks-keeps (HasSize size) (IsMetered size limit) (IsMetered-Keeps size limit)
        (executor b tx (begin_transaction m)).hooks (inspector (begin_transaction m))
        (law.sized b tx (begin_transaction m)) (reset-IsMetered size limit v))
