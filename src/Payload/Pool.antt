-- ===== src/Payload/Pool.antt =====
-- The loop over the pool's best transactions in `build_payload` of
-- crates/dogeos-reth-payload/src/builder.rs. The iterator is a parameter; `signals` tells by round
-- whether the job is cancelled and whether the time limit has passed. Each round takes one
-- transaction of the iterator and one unit of fuel.
use dogeos_reth.Prelude.{
  ℕ, zero, suc, ◌+◌, ◌*◌, Bool, true, not, ◌||◌, Option, none, some, Result, ok, err, if◌then◌else◌,
  wrap_add256, ◌^◌, ◌%◌,
}
use dogeos_reth.Payload.{
  ExecutionInfo, TxApi, ScrollBuilderConfig, should_break, record_tx, is_tx_over_limits,
}
use dogeos_reth.Payload.Execute.{
  BlockExecutionError, invalid_tx, fatal, ScrollPayloadBuilderError, evm, panicked, Executor,
  Executed, execute_with_code_budget,
}
use dogeos_reth.Payload.Forced.{Building}

-- reth's `BestTransactions`
pub record BestTransactions (I T : Type 0) : Type 0 where
  pub next : I → Option (T × I)
  pub mark_invalid : I → T → I

pub record Signals : Type 0 where
  pub is_cancelled : ℕ → Bool
  pub time_up : ℕ → Bool

pub data PoolEnd (X B : Type 0) : Type 0 where
  finished : Building B → PoolEnd X B
  cancelled out_of_fuel : PoolEnd X B
  failed : ScrollPayloadBuilderError X → PoolEnd X B

-- A round ends the loop or goes on with the rest of the pool.
pub data Round (X B I : Type 0) : Type 0 where
  stop : PoolEnd X B → Round X B I
  again : I → Building B → Round X B I

abbrev pub continue : {X B I : Type 0} → (I → Building B → PoolEnd X B) → Round X B I → PoolEnd X B
continue k (stop e) = e
continue k (again pool s) = k pool s

-- What one executed transaction does to the loop.
pub data PoolStep (X B : Type 0) : Type 0 where
  included : Building B → PoolStep X B
  -- the flag: whether the pool is told that the transaction is invalid
  dropped : Bool → Building B → PoolStep X B
  aborted : ScrollPayloadBuilderError X → PoolStep X B

abbrev add_fee : ExecutionInfo → ℕ → ℕ → ExecutionInfo
add_fee info tip gas_used = record info {
  total_fees = wrap_add256 info.total_fees ((tip * gas_used) % 2 ^ 256);
}

module _ {X B T : Type 0} (api : TxApi T) where
  abbrev include_tx : T → Executed X B → Building B → ℕ → Option ℕ → PoolStep X B
  include_tx tx done s gas_used none = aborted panicked
  include_tx tx done s gas_used (some tip) = included (record {
    builder = done.builder;
    meter = done.meter;
    info = add_fee (record_tx api s.info tx gas_used) tip gas_used;
  })

  unfoldable pub pool_step :
      T
      → Executed X B
      → Building B
      → Option ℕ
      → Result (BlockExecutionError X) (Option ℕ)
      → PoolStep X B
  unfolding record_tx
  pool_step tx done s miner_fee (ok (some gas_used)) = include_tx tx done s gas_used miner_fee
  pool_step tx done s miner_fee (ok none) =
      dropped true (record s { builder = done.builder; meter = done.meter })
  pool_step tx done s miner_fee (err (invalid_tx nonce_too_low)) =
      dropped (not nonce_too_low) (record s { builder = done.builder; meter = done.meter })
  pool_step tx done s miner_fee (err (fatal e)) = aborted (evm (fatal e))

module _ {X B T I : Type 0} (api : TxApi T) (executor : Executor X B T)
    (best : BestTransactions I T) (signals : Signals) (config : ScrollBuilderConfig)
    (min_transaction_gas block_gas_limit base_fee : ℕ) where
  -- The end of a round on the transaction `tx`, given what the step made of it.
  abbrev pub after_step : T → I → PoolStep X B → Round X B I
  after_step tx rest (included s) = again rest s
  after_step tx rest (dropped mark s) = again (if mark then best.mark_invalid rest tx else rest) s
  after_step tx rest (aborted e) = stop (failed e)

  unfoldable pub pool_round : ℕ → Option (T × I) → Building B → Round X B I
  unfolding should_break is_tx_over_limits execute_with_code_budget pool_step
  pool_round round none s = stop (finished s)
  pool_round round (some (tx, rest)) s =
      let done = execute_with_code_budget executor s.builder tx s.meter in
      let miner_fee = api.effective_tip_per_gas tx base_fee in
      if is_tx_over_limits api s.info tx block_gas_limit config.max_da_block_size
        || api.is_eip4844 tx
        || api.is_l1_message tx
      then again (best.mark_invalid rest tx) s
      else if signals.is_cancelled round
      then stop cancelled
      else if should_break min_transaction_gas config (signals.time_up round)
          s.info.cumulative_gas_used s.info.cumulative_da_bytes_used
      then stop (finished s)
      else after_step tx rest (pool_step api tx done s miner_fee done.outcome)

  unfoldable pub pool_loop : ℕ → ℕ → I → Building B → PoolEnd X B
  unfolding pool_round
  pool_loop zero round pool s = out_of_fuel
  pool_loop (suc fuel) round pool s =
      continue (λ pool' s'. pool_loop fuel (round + 1) pool' s')
        (pool_round round (best.next pool) s)
