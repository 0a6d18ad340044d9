-- ===== src/TxPool/Admission.antt =====
-- crates/dogeos-reth-txpool/src/code_witness.rs: the admission of a pool transaction by executing it
-- under the meter. The provider, revm's cache over its state and the EVM are parameters.
pub mod Verdict
use dogeos_reth.Prelude.{
  ℕ, Bool, false, Option, none, some, List, Result, ok, err, ◌>>=◌, ◌>>◌, map_err, reject_if, ltb,
  not, is_some, ◌==◌, u64_max, ◌+◌, if◌then◌else◌,
}
use dogeos_reth.Payload.{default_max_code_witness_bytes}
use dogeos_reth.Hardforks.{ForkConditions}
use dogeos_reth.Consensus.{BlockHeader}
use dogeos_reth.BaseFee.{Storage, next_block_base_fee}
use dogeos_reth.CodeWitness.{
  CodeWitnessLimit, Meter, new, begin_transaction, code_bytes, execution_steps,
}
use dogeos_reth.CodeWitness.Inspector.{CodeWitnessInspector, Hook, run_hooks}
use dogeos_reth.CodeWitness.Budget.{inspector}
use dogeos_reth.Execution.EvmEnv.{
  EvmEnv, ScrollNextBlockEnvAttributes, ScrollEvmConfig, next_evm_env,
}

pub record CodeWitnessValidationConfig : Type 0 where
  pub max_code_witness_bytes : ℕ
  pub max_steps : ℕ
  pub max_inflight : ℕ

unfoldable pub default_config : CodeWitnessValidationConfig
default_config = record {
  max_code_witness_bytes = default_max_code_witness_bytes;
  max_steps = 1_000_000;
  max_inflight = 64;
}

-- The reasons behind the message of `Indeterminate`; `M` is what the EVM reports.
pub data Inconclusive (M : Type 0) : Type 0 where
  parent_number_overflow parent_timestamp_overflow parent_has_no_base_fee : Inconclusive M
  evm_failed : M → Inconclusive M

pub data CodeWitnessValidationError (P M : Type 0) : Type 0 where
  -- observed, limit
  code_bytes_over : ℕ → ℕ → CodeWitnessValidationError P M
  execution_steps_over : ℕ → CodeWitnessValidationError P M
  provider : P → CodeWitnessValidationError P M
  missing_head panicked : CodeWitnessValidationError P M
  indeterminate : Inconclusive M → CodeWitnessValidationError P M

-- revm's `EVMError`, by what the check tells apart
pub data EvmError (P M : Type 0) : Type 0 where
  database : P → EvmError P M
  other_error : M → EvmError P M

-- `V` is the state at a block, `C` revm's cache over it, `T` the transactions and `R` the EVM's results.
pub record AdmissionEnv (P M T R : Type 0) : Type 1 where
  pub V : Type 0
  pub C : Type 0
  -- the latest header with its hash
  pub latest_header : Result P (Option (ℕ × BlockHeader))
  pub state_by_block_hash : ℕ → Result P V
  pub cache_db : V → C
  -- `load_account(address)?.info.nonce = nonce`
  pub override_nonce : C → ℕ → ℕ → Result P C
  pub storage : C → Storage P
  pub sender : T → ℕ
  pub nonce : T → ℕ
  -- The hooks that the EVM calls of the inspector given, and its result; the flag is whether the
  -- transaction's gas price is checked.
  pub transact : C → EvmEnv → CodeWitnessInspector → Bool → T → List Hook × Result (EvmError P M) R

module _ {P M T R : Type 0} (f : ForkConditions) (evm_config : ScrollEvmConfig f)
    (env : AdmissionEnv P M T R) where
  open env use {C}

  abbrev pub Validated : Type 0 → Type 0
  Validated A = Result (CodeWitnessValidationError P M) A

  abbrev head_of : Option (ℕ × BlockHeader) → Validated (ℕ × BlockHeader)
  head_of none = err missing_head
  head_of (some head) = ok head

  -- The base-fee rule panics on a parent without a base fee.
  abbrev priced : Option (Result P ℕ) → Validated ℕ
  priced none = err panicked
  priced (some fee) = map_err provider fee

  abbrev attributes_of : BlockHeader → ℕ → ScrollNextBlockEnvAttributes
  attributes_of parent base_fee = record {
    timestamp = parent.timestamp + 1;
    suggested_fee_recipient = parent.beneficiary;
    gas_limit = parent.gas_limit;
    base_fee = base_fee;
  }

  abbrev executed :
      CodeWitnessValidationConfig
      → List Hook × Result (EvmError P M) R
      → Meter × Result (EvmError P M) R
  executed config (hooks, result) = (
    (run_hooks hooks
        (inspector (begin_transaction (new config.max_code_witness_bytes config.max_steps)))).meter,
    result,
  )

  -- The state and the environment of the simulation.
  unfoldable pub prepare : T → Validated (C × EvmEnv)
  prepare transaction = do
    latest ← map_err provider env.latest_header
    (hash, parent) ← head_of latest
    reject_if (parent.number == u64_max) (indeterminate parent_number_overflow)
    state ← map_err provider (env.state_by_block_hash hash)
    cache ←
        map_err provider
          (env.override_nonce (env.cache_db state) (env.sender transaction) (env.nonce transaction))
    reject_if (ltb u64_max (parent.timestamp + 1)) (indeterminate parent_timestamp_overflow)
    reject_if (not (is_some parent.base_fee_per_gas)) (indeterminate parent_has_no_base_fee)
    base_fee ← priced (
        next_block_base_fee f evm_config.chain_spec (env.storage cache) parent
          (parent.timestamp + 1))
    ok (cache, next_evm_env f evm_config parent (attributes_of parent base_fee))

  -- `validate_code_witness` as far as the execution of the transaction.
  unfoldable pub simulate :
      CodeWitnessValidationConfig → T → Validated (Meter × Result (EvmError P M) R)
  unfolding prepare
  simulate config transaction = do
    (cache, evm_env) ← prepare transaction
    ok (
        executed config (
          env.transact cache evm_env
            (inspector (begin_transaction (new config.max_code_witness_bytes config.max_steps)))
            false transaction))

  abbrev of_result : Result (EvmError P M) R → Validated (Unit {0})
  of_result (ok result) = ok tt
  of_result (err (database e)) = err (provider e)
  of_result (err (other_error m)) = err (indeterminate (evm_failed m))

  abbrev of_limit :
      CodeWitnessValidationConfig
      → Meter × Result (EvmError P M) R
      → Option CodeWitnessLimit
      → Validated (Unit {0})
  of_limit config (meter, result) none = of_result result
  of_limit config (meter, result) (some code_bytes) =
      err (code_bytes_over meter.transaction_bytes config.max_code_witness_bytes)
  of_limit config (meter, result) (some execution_steps) =
      err (execution_steps_over config.max_steps)

  -- What follows the execution.
  unfoldable pub verdict :
      CodeWitnessValidationConfig → Meter × Result (EvmError P M) R → Validated (Unit {0})
  verdict config run = of_limit config run run.0.exceeded

  unfoldable pub validate_code_witness : CodeWitnessValidationConfig → T → Validated (Unit {0})
  unfolding simulate verdict
  validate_code_witness config transaction = do
    run ← simulate config transaction
    verdict config run
