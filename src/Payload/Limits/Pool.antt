-- ===== src/Payload/Limits/Pool.antt =====
-- The loop over the pool within the limits of the block.
use mathlib.Core.Path.{subst}
use dogeos_reth.Prelude.{
  ℕ, ◌+◌, ◌≤◌, ◌<◌, ◌≡◌, refl, Bool, true, false, Option, none, some, Result, ok, err, Bool-cases,
  ◌⊎◌, inl, inr, arith, u64_max, zero, suc, if◌then◌else◌, ◌||◌,
}
use dogeos_reth.CodeWitness.Invariant.{IsMetered}
use dogeos_reth.Payload.{ExecutionInfo, TxApi, ScrollBuilderConfig, is_tx_over_limits}
use dogeos_reth.Payload.Execute.{
  BlockExecutionError, invalid_tx, fatal, Executor, Executed, execute_with_code_budget,
}
use dogeos_reth.Payload.Forced.{Building}
use dogeos_reth.Payload.Limits.{da_intro, IsExecutor, IsWithin, executed_gas, executed-IsMetered}
use dogeos_reth.Payload.Pool.{
  BestTransactions, Signals, PoolEnd, finished, cancelled, PoolStep, included, dropped, aborted,
  Round, stop, again, after_step, pool_step, pool_round, pool_loop,
}

pub Round-cases :
    {X B I : Type 0} (r : Round X B I)
    → ((end : PoolEnd X B) × (r ≡ stop end)) ⊎ ((pool : I) × (s : Building B) × (r ≡ again pool s))
Round-cases (stop end) = inl (end, refl)
Round-cases (again pool s) = inr (pool, s, refl)

module _ {X B T : Type 0} (size : ℕ → ℕ) (api : TxApi T) (executor : Executor X B T)
    (law : IsExecutor size api executor) (config : ScrollBuilderConfig) (block_gas_limit : ℕ)
    (fits : block_gas_limit < u64_max)
    (da_fits : (limit : ℕ) → config.max_da_block_size ≡ some limit → limit < u64_max) where
  abbrev IsWithinStep : PoolStep X B → Type 0
  IsWithinStep (included s) = IsWithin size config block_gas_limit s
  IsWithinStep (dropped mark s) = IsWithin size config block_gas_limit s
  IsWithinStep (aborted e) = Unit

  record_tx-da :
      (info : ExecutionInfo) (tx : T) (da : Option ℕ) (limit : ℕ)
      → is_tx_over_limits api info tx block_gas_limit da ≡ false
      → da ≡ some limit
      → limit < u64_max
      → info.cumulative_da_bytes_used + api.encode_2718_len tx ≤ limit
  unfolding is_tx_over_limits
  record_tx-da info tx none limit over e below = ground arith
  record_tx-da info tx (some l) limit over e below = ground arith

  record_tx-gas :
      (info : ExecutionInfo) (tx : T) (da : Option ℕ)
      → is_tx_over_limits api info tx block_gas_limit da ≡ false
      → info.cumulative_gas_used + api.gas_limit tx ≤ block_gas_limit
  unfolding is_tx_over_limits
  record_tx-gas info tx none over = ground arith
  record_tx-gas info tx (some l) over = ground arith

  -- One transaction of the pool that is not over the limits.
  pool_step-IsWithin :
      (tx : T) (s : Building B) (done : Executed X B) (miner_fee : Option ℕ)
      (outcome : Result (BlockExecutionError X) (Option ℕ))
      → IsWithin size config block_gas_limit s
      → is_tx_over_limits api s.info tx block_gas_limit config.max_da_block_size ≡ false
      → ((g : ℕ) → outcome ≡ ok (some g) → g ≤ api.gas_limit tx)
      → IsMetered size config.max_code_witness_bytes done.meter
      → IsWithinStep (pool_step api tx done s miner_fee outcome)
  unfolding pool_step
  pool_step-IsWithin tx s done none (ok (some g)) v over used met = tt
  pool_step-IsWithin tx s done (some tip) (ok (some g)) v over used met =
      let gas = used g refl in
      let room = record_tx-gas s.info tx config.max_da_block_size over in
      record {
        gas = ground arith;
        da = da_intro config.max_da_block_size _ (λ limit e.
            let below = da_fits limit e in
            let room' = record_tx-da s.info tx config.max_da_block_size limit over e below in
            ground arith);
        metered = met;
      }
  pool_step-IsWithin tx s done miner_fee (ok none) v over used met = record {
    gas = v.gas;
    da = v.da;
    metered = met;
  }
  pool_step-IsWithin tx s done miner_fee (err (invalid_tx low)) v over used met = record {
    gas = v.gas;
    da = v.da;
    metered = met;
  }
  pool_step-IsWithin tx s done miner_fee (err (fatal e)) v over used met = tt

  module _ {I : Type 0} (best : BestTransactions I T) (signals : Signals)
      (min_transaction_gas base_fee : ℕ) where
    abbrev IsWithinRound : Round X B I → Type 0
    IsWithinRound (stop end) =
        (s : Building B) → end ≡ finished s → IsWithin size config block_gas_limit s
    IsWithinRound (again pool s) = IsWithin size config block_gas_limit s

    after_step-IsWithin :
        (tx : T) (rest : I) (step : PoolStep X B)
        → IsWithinStep step
        → IsWithinRound (
            after_step api executor best signals config min_transaction_gas block_gas_limit base_fee
              tx rest step)
    after_step-IsWithin tx rest (included s) v = v
    after_step-IsWithin tx rest (dropped mark s) v = v
    after_step-IsWithin tx rest (aborted e) v = λ s same. ground arith

    abbrev over_test : Building B → T → Bool
    over_test s tx =
        is_tx_over_limits api s.info tx block_gas_limit config.max_da_block_size
        || api.is_eip4844 tx
        || api.is_l1_message tx

    over_false :
        (s : Building B) (tx : T)
        → over_test s tx ≡ false
        → is_tx_over_limits api s.info tx block_gas_limit config.max_da_block_size ≡ false
    over_false s tx h =
        elim (Bool-cases
          (is_tx_over_limits api s.info tx block_gas_limit config.max_da_block_size)) [
            | inl e ↦ let h' = rw e at h in ground arith
            | inr e ↦ e
          ]

    if_round :
        (b : Bool) (x y : Round X B I)
        → IsWithinRound x
        → (b ≡ false → IsWithinRound y)
        → IsWithinRound (if b then x else y)
    if_round true x y px py = px
    if_round false x y px py = py refl

    stopped :
        (s t : Building B)
        → IsWithin size config block_gas_limit s
        → ◌≡◌ {A = PoolEnd X B} (finished s) (finished t)
        → IsWithin size config block_gas_limit t
    stopped s t v same =
        let e : s ≡ t = ground arith in subst (IsWithin size config block_gas_limit) e v

    pool_round-IsWithin :
        (round : ℕ) (item : Option (T × I)) (s : Building B)
        → IsWithin size config block_gas_limit s
        → IsWithinRound (
            pool_round api executor best signals config min_transaction_gas block_gas_limit base_fee
              round item s)
    unfolding pool_round
    pool_round-IsWithin round none s v = λ t same. stopped s t v same
    pool_round-IsWithin round (some (tx, rest)) s v =
        let done = execute_with_code_budget executor s.builder tx s.meter in
        if_round (over_test s tx) _ _ v (λ over.
          if_round (signals.is_cancelled round) (stop cancelled) _ (λ t same. ground arith)
            (λ e.
              if_round _ (stop (finished s)) _ (λ t same. stopped s t v same)
                (λ e'. after_step-IsWithin tx rest _ (
                  pool_step-IsWithin tx s done (api.effective_tip_per_gas tx base_fee) done.outcome
                    v (over_false s tx over)
                    (executed_gas size api executor law s.builder tx s.meter)
                    (executed-IsMetered size api executor law config.max_code_witness_bytes
                      s.builder tx s.meter v.metered)))))

    pub pool_loop-IsWithin :
        (fuel round : ℕ) (pool : I) (s s' : Building B)
        → IsWithin size config block_gas_limit s
        → pool_loop api executor best signals config min_transaction_gas block_gas_limit base_fee
            fuel round pool s
          ≡ finished s'
        → IsWithin size config block_gas_limit s'
    unfolding pool_loop
    pool_loop-IsWithin zero round pool s s' v h = ground arith
    pool_loop-IsWithin (suc fuel) round pool s s' v h =
        let w = pool_round-IsWithin round (best.next pool) s v in
        elim (Round-cases (
          pool_round api executor best signals config min_transaction_gas block_gas_limit base_fee
            round (best.next pool) s)) [
              | inl (end, e) ↦ subst IsWithinRound e w s' (rw e at h)
              | inr (pool', t, e) ↦
                  pool_loop-IsWithin fuel (round + 1) pool' t s' (subst IsWithinRound e w)
                    (rw e at h)
            ]
