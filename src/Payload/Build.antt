-- ===== src/Payload/Build.antt =====
-- `build_payload` of crates/dogeos-reth-payload/src/builder.rs. The block builder is a parameter:
-- its steps before the first and after the last transaction show the inspector hooks as well. The
-- state root is in `finish`; the caches and the trie task are left out.
use dogeos_reth.Prelude.{
  ℕ, Bool, Option, none, some, List, Result, ok, err, ◌>>=◌, if◌then◌else◌, map_err, u64_max,
}
use dogeos_reth.CodeWitness.{Meter, new, begin_transaction}
use dogeos_reth.CodeWitness.Inspector.{Hook, run_hooks}
use dogeos_reth.CodeWitness.Budget.{inspector}
use dogeos_reth.Consensus.{SharedRules}
use dogeos_reth.Payload.{new_info, TxApi, ScrollBuilderConfig}
use dogeos_reth.Payload.GasLimit.{next_block_gas_limit}
use dogeos_reth.Payload.Execute.{
  ScrollPayloadBuilderError, internal, decoding, panicked, Executor, accept_system_code_budget,
}
use dogeos_reth.Payload.Forced.{decode_forced_transactions, Building, run_forced}
use dogeos_reth.Payload.Pool.{
  BestTransactions, Signals, PoolEnd, finished, cancelled, out_of_fuel, failed, pool_loop,
}

-- A step of the block builder outside transactions.
pub record SystemStep (X A : Type 0) : Type 0 where
  pub hooks : List Hook
  pub outcome : Result X A

-- reth's block builder for a block with a gas limit, and the rest of the environment of a job.
pub record BuildEnv (X B T I P : Type 0) : Type 0 where
  pub create_block_builder : ℕ → B
  pub block_gas_limit : B → ℕ
  pub apply_pre_execution_changes : B → Meter → SystemStep X B
  pub executor : Executor X B T
  pub finish : B → Meter → SystemStep X P
  pub decode : List ℕ → Option (T × List ℕ)
  pub best : BestTransactions I T
  pub best_txs : ℕ → I
  pub signals : Signals
  pub is_better_payload : ℕ → Bool
  pub base_fee : ℕ
  pub min_transaction_gas : ℕ

-- `ScrollPayloadAttributes`
pub record ScrollPayloadAttributes : Type 0 where
  pub transactions : Option (List (List ℕ))
  pub no_tx_pool : Bool
  pub gas_limit : Option ℕ

-- reth's `BuildOutcome`; a payload comes with what its building counted.
pub data BuildOutcome (B P : Type 0) : Type 0 where
  better freeze : P → Building B → BuildOutcome B P
  aborted : ℕ → BuildOutcome B P
  cancelled_job : BuildOutcome B P
  -- not of the source: the fuel of the pool loop ran out
  unfinished : BuildOutcome B P

module _ {X B T I P : Type 0} (rules : SharedRules X) (api : TxApi T) (env : BuildEnv X B T I P)
    (config : ScrollBuilderConfig) (attributes : ScrollPayloadAttributes) where
  -- The code of a system step counts in the block; the meter after it.
  unfoldable pub run_system :
      {A : Type 0} → SystemStep X A → Meter → Result (ScrollPayloadBuilderError X) (A × Meter)
  unfolding accept_system_code_budget
  run_system step m = do
    a ← map_err internal step.outcome
    m' ←
        accept_system_code_budget (run_hooks step.hooks (inspector m)).meter
          config.max_code_witness_bytes
    ok (a, m')

  abbrev pub start_building : B → Result (ScrollPayloadBuilderError X) (Building B)
  start_building b = do
    let begun = begin_transaction (new config.max_code_witness_bytes u64_max)
    (b', m) ← run_system (env.apply_pre_execution_changes b begun) begun
    ok (record { builder = b'; meter = m; info = new_info })

  abbrev pub finish_building : Building B → Result (ScrollPayloadBuilderError X) (P × Building B)
  finish_building s = do
    let begun = begin_transaction s.meter
    (payload, m) ← run_system (env.finish s.builder begun) begun
    ok (payload, record s { meter = m })

  abbrev pub freeze_payload : Building B → Result (ScrollPayloadBuilderError X) (BuildOutcome B P)
  freeze_payload s = do (payload, s') ← finish_building s; ok (freeze payload s')

  abbrev pub better_of : Building B → Result (ScrollPayloadBuilderError X) (BuildOutcome B P)
  better_of s = do (payload, s') ← finish_building s; ok (better payload s')

  -- After the pool loop.
  abbrev pub better_payload : PoolEnd X B → Result (ScrollPayloadBuilderError X) (BuildOutcome B P)
  better_payload (finished s) =
      if env.is_better_payload s.info.total_fees
      then better_of s
      else ok (aborted s.info.total_fees)
  better_payload cancelled = ok cancelled_job
  better_payload out_of_fuel = ok unfinished
  better_payload (failed e) = err e

  abbrev pub fill_payload :
      ℕ → ℕ → Building B → Result (ScrollPayloadBuilderError X) (BuildOutcome B P)
  fill_payload fuel block_gas_limit s =
      if attributes.no_tx_pool
      then freeze_payload s
      else better_payload (
          pool_loop api env.executor env.best env.signals config env.min_transaction_gas
            block_gas_limit env.base_fee fuel 0 (env.best_txs env.base_fee) s)

  abbrev pub build_with_gas_limit :
      ℕ → Option ℕ → Result (ScrollPayloadBuilderError X) (BuildOutcome B P)
  build_with_gas_limit fuel none = err panicked
  build_with_gas_limit fuel (some gas_limit) = do
    s ← start_building (env.create_block_builder gas_limit)
    let block_gas_limit = env.block_gas_limit s.builder
    forced ← map_err (λ e. decoding) (decode_forced_transactions env.decode attributes.transactions)
    s' ← run_forced api env.executor config block_gas_limit forced s
    fill_payload fuel block_gas_limit s'

  unfoldable pub build_payload : ℕ → ℕ → Result (ScrollPayloadBuilderError X) (BuildOutcome B P)
  unfolding run_system begin_transaction new decode_forced_transactions run_forced pool_loop
      next_block_gas_limit
  build_payload fuel parent_gas_limit =
      build_with_gas_limit fuel
        (next_block_gas_limit rules attributes.gas_limit config.gas_limit parent_gas_limit)
