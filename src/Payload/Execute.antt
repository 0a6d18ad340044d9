-- ===== src/Payload/Execute.antt =====
-- `execute_with_code_budget`, `code_witness_commit` and the code-budget results of
-- crates/dogeos-reth-payload/src/builder.rs. reth's block builder is a parameter: what executing a
-- transaction shows the inspector, and the gas and the builder after a commit, or the error.
use dogeos_reth.Prelude.{
  ℕ, Bool, not, Option, none, some, List, Result, ok, err, if◌then◌else◌, is_some,
}
use dogeos_reth.CodeWitness.{Meter, begin_transaction, accept_transaction, reject_transaction}
use dogeos_reth.CodeWitness.Inspector.{Hook, run_hooks}
use dogeos_reth.CodeWitness.Budget.{inspector}

-- `BlockExecutionError`: an invalid transaction, whose nonce may be too low, or another failure.
pub data BlockExecutionError (X : Type 0) : Type 0 where
  invalid_tx : Bool → BlockExecutionError X
  fatal : X → BlockExecutionError X

pub data ScrollPayloadBuilderError (X : Type 0) : Type 0 where
  transaction_ec_recover_failed blob_transaction_rejected : ScrollPayloadBuilderError X
  block_gas_limit_exceeded_by_forced_transactions : List ℕ → ℕ → ScrollPayloadBuilderError X
  block_da_limit_exceeded_by_forced_transactions : ℕ → ℕ → ScrollPayloadBuilderError X
  block_code_limit_exceeded_by_forced_transactions : ℕ → ScrollPayloadBuilderError X
  block_code_limit_exceeded_by_system_execution : ℕ → ScrollPayloadBuilderError X
  evm : BlockExecutionError X → ScrollPayloadBuilderError X
  -- a forced transaction that does not decode
  decoding : ScrollPayloadBuilderError X
  -- reth's own errors: before the first and at the last step of a build
  internal : X → ScrollPayloadBuilderError X
  -- not an error of the source: a panic of an `expect` or of `clamp`
  panicked : ScrollPayloadBuilderError X

pub record Attempt (X B : Type 0) : Type 0 where
  pub hooks : List Hook
  pub outcome : Result (BlockExecutionError X) (ℕ × B)

-- The builder stops the interpreter by the meter, so executing reads it.
abbrev pub Executor : Type 0 → Type 0 → Type 0 → Type 0
Executor X B T = B → T → Meter → Attempt X B

-- `CommitChanges::Yes` is true.
unfoldable pub code_witness_commit : Meter → Bool
code_witness_commit m = not (is_some m.exceeded)

pub record Executed (X B : Type 0) : Type 0 where
  pub builder : B
  pub meter : Meter
  pub outcome : Result (BlockExecutionError X) (Option ℕ)

module _ {X B T : Type 0} (executor : Executor X B T) where
  -- The end of an attempt: commit and accept, or leave the builder and reject.
  unfoldable pub settle : B → Meter → Result (BlockExecutionError X) (ℕ × B) → Executed X B
  unfolding code_witness_commit accept_transaction reject_transaction
  settle b m (err e) = record { builder = b; meter = reject_transaction m; outcome = err e }
  settle b m (ok (gas_used, b')) =
      if code_witness_commit m
      then record { builder = b'; meter = (accept_transaction m).0; outcome = ok (some gas_used) }
      else record { builder = b; meter = reject_transaction m; outcome = ok none }

  unfoldable pub execute_with_code_budget : B → T → Meter → Executed X B
  unfolding settle begin_transaction
  execute_with_code_budget b tx m =
      let begun = begin_transaction m in
      let attempt = executor b tx begun in
      settle b (run_hooks attempt.hooks (inspector begun)).meter attempt.outcome

-- Forced inputs may not be dropped for their code.
unfoldable pub forced_code_budget_result :
    {X : Type 0} → Option ℕ → ℕ → Result (ScrollPayloadBuilderError X) ℕ
forced_code_budget_result none limit = err (block_code_limit_exceeded_by_forced_transactions limit)
forced_code_budget_result (some gas_used) limit = ok gas_used

unfoldable pub accept_system_code_budget :
    {X : Type 0} → Meter → ℕ → Result (ScrollPayloadBuilderError X) Meter
unfolding accept_transaction
accept_system_code_budget m limit =
    let (m', accepted) = accept_transaction m in
    if accepted then ok m' else err (block_code_limit_exceeded_by_system_execution limit)
