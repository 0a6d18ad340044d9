-- ===== src/Payload/Within.antt =====
-- The results of `build_payload` against the limits of the block.
use mathlib.Core.Path.{subst}
use dogeos_reth.Prelude.{
  ℕ, ◌<◌, ◌≡◌, refl, inl, inr, Bool, true, false, some, Result, ok, err, ◌>>=◌, Bool-cases, bind-ok,
  map_err-ok, ok-injective, ap, ◌∙◌, map_err, if◌then◌else◌, u64_max, All,
}
use dogeos_reth.CodeWitness.{Meter, new, begin_transaction, accept_transaction}
use dogeos_reth.CodeWitness.Inspector.{run_hooks}
use dogeos_reth.CodeWitness.Keeps.{IsSizedHook, run_hooks-keeps}
use dogeos_reth.CodeWitness.Invariant.{IsMetered, new-IsMetered, reset-IsMetered, accept-IsMetered}
use dogeos_reth.CodeWitness.Budget.{HasSize, inspector, IsMetered-Keeps}
use dogeos_reth.Consensus.{SharedRules}
use dogeos_reth.Payload.{new_info, TxApi, ScrollBuilderConfig}
use dogeos_reth.Payload.Execute.{
  ScrollPayloadBuilderError, internal, decoding, accept_system_code_budget,
}
use dogeos_reth.Payload.Forced.{decode_forced_transactions, Building, run_forced}
use dogeos_reth.Payload.Pool.{PoolEnd, finished, cancelled, out_of_fuel, failed, pool_loop}
use dogeos_reth.Payload.Limits.{IsExecutor, IsWithin}
use dogeos_reth.Payload.Limits.Forced.{run_forced-IsWithin}
use dogeos_reth.Payload.Limits.Pool.{pool_loop-IsWithin}
use dogeos_reth.Payload.GasLimit.{next_block_gas_limit}
use dogeos_reth.Payload.Build.{
  SystemStep, BuildEnv, ScrollPayloadAttributes, BuildOutcome, better, freeze, aborted,
  cancelled_job, unfinished, run_system, start_building, finish_building, freeze_payload,
  better_payload, fill_payload, build_payload,
}

-- What is known of the block builder: its executor obeys `IsExecutor`, it shows sized codes, and a
-- builder's block keeps the gas limit that it was created with.
pub record IsBuildEnv {X B T I P : Type 0} (size : ℕ → ℕ) (api : TxApi T) (env : BuildEnv X B T I P)
    : Type 0 where
  pub executor : IsExecutor size api env.executor
  pub pre_sized :
      (b : B) (m : Meter)
      → All (IsSizedHook (HasSize size)) (env.apply_pre_execution_changes b m).hooks
  pub finish_sized : (b : B) (m : Meter) → All (IsSizedHook (HasSize size)) (env.finish b m).hooks
  pub gas_limit :
      (limit : ℕ) (m : Meter) (b : B)
      → (env.apply_pre_execution_changes (env.create_block_builder limit) m).outcome ≡ ok b
      → env.block_gas_limit b ≡ limit

module _ {X B T I P : Type 0} (rules : SharedRules X) (size : ℕ → ℕ) (api : TxApi T)
    (env : BuildEnv X B T I P) (config : ScrollBuilderConfig) (attributes : ScrollPayloadAttributes)
    (law : IsBuildEnv size api env) where
  accept_system-IsMetered :
      (m m' : Meter)
      → IsMetered size config.max_code_witness_bytes m
      → accept_system_code_budget {X = X} m config.max_code_witness_bytes ≡ ok m'
      → IsMetered size config.max_code_witness_bytes m'
  unfolding accept_system_code_budget
  accept_system-IsMetered m m' v h = elim (Bool-cases (accept_transaction m).1) [
    | inl e ↦
        subst (IsMetered size config.max_code_witness_bytes) (ok-injective _ _ (rw e at h))
          (accept-IsMetered size config.max_code_witness_bytes v)
    | inr e ↦ let h' = rw e at h in cc
  ]

  run_system-IsMetered :
      {A : Type 0} (step : SystemStep X A) (m m' : Meter) (a : A)
      → All (IsSizedHook (HasSize size)) step.hooks
      → IsMetered size config.max_code_witness_bytes m
      → run_system rules api env config attributes step m ≡ ok (a, m')
      → (step.outcome ≡ ok a) × IsMetered size config.max_code_witness_bytes m'
  unfolding run_system
  run_system-IsMetered step m m' a sized v h =
      let (a', did, h1) = bind-ok (map_err internal step.outcome) _ (a, m') h in
      let (m1, accepted, h2) =
        bind-ok
          (accept_system_code_budget (run_hooks step.hooks (inspector m)).meter
            config.max_code_witness_bytes)
          _ (a, m') h1 in
      let same = ok-injective _ _ h2 in
      let v' =
        accept_system-IsMetered (run_hooks step.hooks (inspector m)).meter m1
          (run_hooks-keeps (HasSize size) (IsMetered size config.max_code_witness_bytes)
            (IsMetered-Keeps size config.max_code_witness_bytes) step.hooks (inspector m) sized v)
          accepted in
      (
        map_err-ok internal step.outcome a (did ∙ ap ok (ap (λ p. p.0) same)),
        subst (λ p. IsMetered size config.max_code_witness_bytes p.1) same v',
      )

  start-IsWithin :
      (gas_limit : ℕ) (s : Building B)
      → start_building rules api env config attributes (env.create_block_builder gas_limit) ≡ ok s
      → (s.info ≡ new_info)
        × (env.block_gas_limit s.builder ≡ gas_limit)
        × IsMetered size config.max_code_witness_bytes s.meter
  unfolding begin_transaction
  start-IsWithin gas_limit s h =
      let begun = begin_transaction (new config.max_code_witness_bytes u64_max) in
      let step = env.apply_pre_execution_changes (env.create_block_builder gas_limit) begun in
      let ((b, m), ran, h1) =
        bind-ok (run_system rules api env config attributes step begun) _ s h in
      let same = ok-injective _ _ h1 in
      let (did, v) =
        run_system-IsMetered step begun m b
          (law.pre_sized (env.create_block_builder gas_limit) begun)
          (reset-IsMetered size config.max_code_witness_bytes
            (new-IsMetered size config.max_code_witness_bytes u64_max))
          ran in
      subst
        (λ t.
          (t.info ≡ new_info)
          × (env.block_gas_limit t.builder ≡ gas_limit)
          × IsMetered size config.max_code_witness_bytes t.meter)
        same (refl, law.gas_limit gas_limit begun b did, v)

  finish-IsWithin :
      (gas_limit : ℕ) (s t : Building B) (payload : P)
      → IsWithin size config gas_limit s
      → finish_building rules api env config attributes s ≡ ok (payload, t)
      → IsWithin size config gas_limit t
  unfolding begin_transaction
  finish-IsWithin gas_limit s t payload v h =
      let begun = begin_transaction s.meter in
      let step = env.finish s.builder begun in
      let ((q, m), ran, h1) =
        bind-ok (run_system rules api env config attributes step begun) _ (payload, t) h in
      let same = ok-injective _ _ h1 in
      let (did, v') =
        run_system-IsMetered step begun m q (law.finish_sized s.builder begun)
          (reset-IsMetered size config.max_code_witness_bytes v.metered) ran in
      subst (λ p. IsWithin size config gas_limit p.1) same
        (record { gas = v.gas; da = v.da; metered = v' })

  -- What a result says of the limits.
  abbrev pub IsWithinOutcome : ℕ → Result (ScrollPayloadBuilderError X) (BuildOutcome B P) → Type 0
  IsWithinOutcome gas_limit (err e) = Unit
  IsWithinOutcome gas_limit (ok (better payload s)) = IsWithin size config gas_limit s
  IsWithinOutcome gas_limit (ok (freeze payload s)) = IsWithin size config gas_limit s
  IsWithinOutcome gas_limit (ok (aborted fees)) = Unit
  IsWithinOutcome gas_limit (ok cancelled_job) = Unit
  IsWithinOutcome gas_limit (ok unfinished) = Unit

  bind_IsWithin :
      {A : Type 0} (gas_limit : ℕ) (r : Result (ScrollPayloadBuilderError X) A)
      (k : A → Result (ScrollPayloadBuilderError X) (BuildOutcome B P))
      → ((a : A) → r ≡ ok a → IsWithinOutcome gas_limit (k a))
      → IsWithinOutcome gas_limit (r >>= k)
  bind_IsWithin gas_limit (ok a) k h = h a refl
  bind_IsWithin gas_limit (err e) k h = tt

  freeze-IsWithin :
      (gas_limit : ℕ) (s : Building B)
      → IsWithin size config gas_limit s
      → IsWithinOutcome gas_limit (freeze_payload rules api env config attributes s)
  freeze-IsWithin gas_limit s v =
      bind_IsWithin gas_limit (finish_building rules api env config attributes s)
        (λ done. ok (freeze done.0 done.1))
        (λ done h. finish-IsWithin gas_limit s done.1 done.0 v h)

  better-IsWithin :
      (gas_limit : ℕ) (end : PoolEnd X B)
      → ((s : Building B) → end ≡ finished s → IsWithin size config gas_limit s)
      → IsWithinOutcome gas_limit (better_payload rules api env config attributes end)
  better-IsWithin gas_limit (finished s) v =
      elim (Bool-cases (env.is_better_payload s.info.total_fees)) [
        | inl e ↦ rw e (
            bind_IsWithin gas_limit (finish_building rules api env config attributes s)
              (λ done. ok (better done.0 done.1))
              (λ done h. finish-IsWithin gas_limit s done.1 done.0 (v s refl) h))
        | inr e ↦ rw e tt
      ]
  better-IsWithin gas_limit cancelled v = tt
  better-IsWithin gas_limit out_of_fuel v = tt
  better-IsWithin gas_limit (failed e) v = tt

  module _ (da_fits : (limit : ℕ) → config.max_da_block_size ≡ some limit → limit < u64_max)
      (fuel gas_limit : ℕ) (fits : gas_limit < u64_max) where
    if_IsWithin :
        (b : Bool) (x y : Result (ScrollPayloadBuilderError X) (BuildOutcome B P))
        → IsWithinOutcome gas_limit x
        → IsWithinOutcome gas_limit y
        → IsWithinOutcome gas_limit (if b then x else y)
    if_IsWithin true x y px py = px
    if_IsWithin false x y px py = py

    fill-IsWithin :
        (s : Building B)
        → IsWithin size config gas_limit s
        → IsWithinOutcome gas_limit (fill_payload rules api env config attributes fuel gas_limit s)
    fill-IsWithin s v =
        if_IsWithin attributes.no_tx_pool (freeze_payload rules api env config attributes s) _
          (freeze-IsWithin gas_limit s v)
          (better-IsWithin gas_limit
            (pool_loop api env.executor env.best env.signals config env.min_transaction_gas
              gas_limit env.base_fee fuel 0 (env.best_txs env.base_fee) s)
            (λ t h.
              pool_loop-IsWithin size api env.executor law.executor config gas_limit fits da_fits
                env.best env.signals env.min_transaction_gas env.base_fee fuel 0
                (env.best_txs env.base_fee) s t v h))

    forced-IsWithin :
        (s : Building B)
        → s.info ≡ new_info
        → IsMetered size config.max_code_witness_bytes s.meter
        → IsWithinOutcome gas_limit (
            map_err (λ e. decoding) (decode_forced_transactions env.decode attributes.transactions)
            >>= λ forced. run_forced api env.executor config gas_limit forced s >>= λ s'.
                fill_payload rules api env config attributes fuel gas_limit s')
    forced-IsWithin s fresh met = bind_IsWithin gas_limit _ _ (λ forced decoded.
        bind_IsWithin gas_limit _ _ (λ s' ran. fill-IsWithin s' (
          run_forced-IsWithin size api env.executor law.executor config gas_limit fits da_fits
            forced s s' fresh met ran)))

    -- Whatever the transactions, forced or from the pool, a payload that is built respects the limits
    -- of the block: the gas used is within the selected gas limit, the bytes for data availability
    -- within the configured limit where there is one, and the meter's bytes of accepted code, those of
    -- forced transactions and system calls included, within the code limit. This is under a block
    -- builder that executes a transaction within its gas limit and shows the inspector codes of one
    -- size per hash, and for a gas limit and a limit for data availability below the largest u64.
    pub build_payload_within :
        (parent_gas_limit : ℕ)
        → next_block_gas_limit rules attributes.gas_limit config.gas_limit parent_gas_limit
          ≡ some gas_limit
        → IsWithinOutcome gas_limit
            (build_payload rules api env config attributes fuel parent_gas_limit)
    unfolding build_payload
    build_payload_within parent_gas_limit selected = rw selected (
        bind_IsWithin gas_limit
          (start_building rules api env config attributes (env.create_block_builder gas_limit)) _
          (λ s h.
            let (fresh, limit, met) = start-IsWithin gas_limit s h in
            rw limit (forced-IsWithin s fresh met)))
