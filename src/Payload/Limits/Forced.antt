-- ===== src/Payload/Limits/Forced.antt =====
-- The forced transactions within the limits of the block.
use mathlib.Core.Path.{subst}
use dogeos_reth.Prelude.{
  ℕ, ◌≤◌, ◌<◌, ◌≡◌, refl, true, false, Option, none, some, List, [], ◌∷◌, Result, ok, err,
  Result-cases, Bool-cases, inl, inr, arith, length, ltb, sat_add64, wrap_add64, ap, ◌∙◌, u64_max,
}
use dogeos_reth.CodeWitness.Invariant.{IsMetered}
use dogeos_reth.Payload.{new_info, TxApi, ScrollBuilderConfig}
use dogeos_reth.Payload.Execute.{
  BlockExecutionError, invalid_tx, fatal, Executor, Executed, execute_with_code_budget,
  forced_code_budget_result,
}
use dogeos_reth.Payload.Forced.{
  exceeds, WithEncoded, Building, forced_gas_used, after_forced, push_gas, execute_forced,
  run_forced, da_bytes_from, forced_transactions_da_bytes,
}
use dogeos_reth.Payload.Limits.{da_intro, IsExecutor, IsWithin, executed_gas, executed-IsMetered}

module _ {X B T : Type 0} (size : ℕ → ℕ) (api : TxApi T) (executor : Executor X B T)
    (law : IsExecutor size api executor) (config : ScrollBuilderConfig) (block_gas_limit : ℕ)
    (fits : block_gas_limit < u64_max)
    (da_fits : (limit : ℕ) → config.max_da_block_size ≡ some limit → limit < u64_max) where
  -- The transactions of the block, as bytes for data availability.
  abbrev IsForcedWithin : List (WithEncoded T) → Building B → Type 0
  IsForcedWithin rest s =
      s.info.cumulative_gas_used ≤ block_gas_limit
      × s.info.cumulative_da_bytes_used ≤ u64_max
      × ((limit : ℕ)
          → config.max_da_block_size ≡ some limit
          → da_bytes_from s.info.cumulative_da_bytes_used rest ≤ limit)
      × IsMetered size config.max_code_witness_bytes s.meter

  da_bytes-le :
      (total : ℕ) (txs : List (WithEncoded T)) → total ≤ u64_max → total ≤ da_bytes_from total txs
  unfolding da_bytes_from
  da_bytes-le total [] h = omega arith
  da_bytes-le total (tx ∷ txs) h =
      omega (arith, da_bytes-le (sat_add64 total (length tx.encoded_bytes)) txs (omega arith))

  da_bytes_mono :
      (a b : ℕ) (txs : List (WithEncoded T)) → a ≤ b → da_bytes_from a txs ≤ da_bytes_from b txs
  unfolding da_bytes_from
  da_bytes_mono a b [] h = h
  da_bytes_mono a b (tx ∷ txs) h =
      da_bytes_mono (sat_add64 a (length tx.encoded_bytes)) (sat_add64 b (length tx.encoded_bytes))
        txs (omega arith)

  forced_gas-ok :
      (r : Result (BlockExecutionError X) (Option ℕ)) (g : ℕ)
      → forced_gas_used api executor config block_gas_limit r ≡ ok (some g)
      → r ≡ ok (some g)
  unfolding forced_code_budget_result
  forced_gas-ok (ok none) g h = ground arith
  forced_gas-ok (ok (some n)) g h = ground arith
  forced_gas-ok (err (invalid_tx true)) g h = ground arith
  forced_gas-ok (err (invalid_tx false)) g h = ground arith
  forced_gas-ok (err (fatal e)) g h = ground arith

  after_forced-IsWithin :
      (tx : WithEncoded T) (rest : List (WithEncoded T)) (s : Building B) (done : Executed X B)
      (gas : Option ℕ)
      → IsForcedWithin (tx ∷ rest) s
      → sat_add64 s.info.cumulative_gas_used (api.gas_limit tx.value) ≤ block_gas_limit
      → ((g : ℕ) → gas ≡ some g → g ≤ api.gas_limit tx.value)
      → IsMetered size config.max_code_witness_bytes done.meter
      → IsForcedWithin rest
          (after_forced api executor config block_gas_limit done (length tx.encoded_bytes) s gas)
  unfolding da_bytes_from
  after_forced-IsWithin tx rest s done none v room used met =
      let kept =
        da_bytes_mono s.info.cumulative_da_bytes_used
          (sat_add64 s.info.cumulative_da_bytes_used (length tx.encoded_bytes)) rest
          (omega (arith, v.1)) in
      (v.0, v.1, λ limit e. let total = v.2 limit e in omega arith, met)
  after_forced-IsWithin tx rest s done (some g) v room used met =
      let gas = used g refl in
      let kept =
        da_bytes_mono (wrap_add64 s.info.cumulative_da_bytes_used (length tx.encoded_bytes))
          (sat_add64 s.info.cumulative_da_bytes_used (length tx.encoded_bytes)) rest
          (omega arith) in
      (omega (arith, v.0), omega arith, λ limit e. let total = v.2 limit e in omega arith, met)

  execute_forced-IsWithin :
      (forced : List (WithEncoded T)) (forced_gas : List ℕ) (s s' : Building B)
      → IsForcedWithin forced s
      → execute_forced api executor config block_gas_limit forced forced_gas s ≡ ok s'
      → IsForcedWithin [] s'
  unfolding execute_forced da_bytes_from
  execute_forced-IsWithin [] forced_gas s s' v h =
      let same : s ≡ s' = ground arith in subst (IsForcedWithin []) same v
  execute_forced-IsWithin (tx ∷ rest) forced_gas s s' v h =
      let done = execute_with_code_budget executor s.builder tx.value s.meter in
      elim (Bool-cases (api.is_eip4844 tx.value)) [
        | inl e ↦ let h' = rw e at h in ground arith
        | inr e1 ↦ elim (Bool-cases (api.recovers tx.value)) [
          | inr e ↦ let h' = rw (e1, e) at h in ground arith
          | inl e2 ↦
              elim (Bool-cases (
                ltb block_gas_limit
                  (sat_add64 s.info.cumulative_gas_used (api.gas_limit tx.value)))) [
                    | inl e ↦ let h' = rw (e1, e2, e) at h in ground arith
                    | inr e3 ↦
                        elim (Result-cases
                          (forced_gas_used api executor config block_gas_limit done.outcome)) [
                            | inr (x, e) ↦ let h' = rw (e1, e2, e3, e) at h in ground arith
                            | inl (gas, e) ↦
                                let h' = rw (e1, e2, e3, e) at h in
                                execute_forced-IsWithin rest
                                  (push_gas api executor config block_gas_limit forced_gas gas)
                                  (after_forced api executor config block_gas_limit done
                                    (length tx.encoded_bytes) s gas)
                                  s'
                                  (after_forced-IsWithin tx rest s done gas v (ground arith)
                                    (λ g same.
                                      executed_gas size api executor law s.builder tx.value s.meter
                                        g (forced_gas-ok done.outcome g (e ∙ ap ok same)))
                                    (executed-IsMetered size api executor law
                                      config.max_code_witness_bytes s.builder tx.value s.meter v.3))
                                  h'
                          ]
                  ]
        ]
      ]

  da_exceeds :
      (da : Option ℕ) (bytes limit : ℕ) → exceeds da bytes ≡ false → da ≡ some limit → bytes ≤ limit
  da_exceeds none bytes limit h e = ground arith
  da_exceeds (some l) bytes limit h e = ground arith

  pub run_forced-IsWithin :
      (forced : List (WithEncoded T)) (s s' : Building B)
      → s.info ≡ new_info
      → IsMetered size config.max_code_witness_bytes s.meter
      → run_forced api executor config block_gas_limit forced s ≡ ok s'
      → IsWithin size config block_gas_limit s'
  unfolding run_forced forced_transactions_da_bytes da_bytes_from
  run_forced-IsWithin forced s s' fresh met h =
      elim (Bool-cases (exceeds config.max_da_block_size (forced_transactions_da_bytes forced))) [
        | inl e ↦ let h' = rw e at h in ground arith
        | inr e ↦
            let h' = rw e at h in
            let start : IsForcedWithin forced s = (
              rw fresh (omega arith),
              rw fresh (omega arith),
              λ limit same.
                  rw fresh
                    (da_exceeds config.max_da_block_size (da_bytes_from 0 forced) limit e same),
              met,
            ) in
            let done = execute_forced-IsWithin forced [] s s' start h' in
            record {
              gas = done.0;
              da = da_intro config.max_da_block_size s'.info.cumulative_da_bytes_used done.2;
              metered = done.3;
            }
      ]
