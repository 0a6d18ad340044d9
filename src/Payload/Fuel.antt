-- ===== src/Payload/Fuel.antt =====
-- The fuel of the loop over the pool's transactions in crates/dogeos-reth-payload/src/builder.rs.
use dogeos_reth.Prelude.{ℕ, zero, suc, ◌+◌, ◌≡◌, ◌≢◌, refl, ap, arith, sym, ◌∙◌}
use dogeos_reth.Payload.{TxApi, ScrollBuilderConfig}
use dogeos_reth.Payload.Execute.{Executor}
use dogeos_reth.Payload.Forced.{Building}
use dogeos_reth.Payload.Pool.{
  BestTransactions, Signals, PoolEnd, out_of_fuel, Round, stop, again, continue, pool_round,
  pool_loop,
}

add_zero : (n : ℕ) → n + 0 ≡ n
add_zero n = omega arith

add_suc : (n m : ℕ) → n + suc m ≡ suc (n + m)
add_suc n m = omega arith

continue_same :
    {X B I : Type 0} (k more : I → Building B → PoolEnd X B) (r : Round X B I)
    → ((pool : I) (s : Building B) → k pool s ≢ out_of_fuel → more pool s ≡ k pool s)
    → continue k r ≢ out_of_fuel
    → continue more r ≡ continue k r
continue_same k more (stop end) same h = refl
continue_same k more (again pool s) same h = same pool s h

module _ {X B T I : Type 0} (api : TxApi T) (executor : Executor X B T)
    (best : BestTransactions I T) (signals : Signals) (config : ScrollBuilderConfig)
    (min_transaction_gas block_gas_limit base_fee : ℕ) where
  abbrev loop : ℕ → ℕ → I → Building B → PoolEnd X B
  loop = pool_loop api executor best signals config min_transaction_gas block_gas_limit base_fee

  -- Where the loop ends with some fuel, it ends in the same way with one more.
  pool_loop-suc :
      (fuel round : ℕ) (pool : I) (s : Building B)
      → loop fuel round pool s ≢ out_of_fuel
      → loop (suc fuel) round pool s ≡ loop fuel round pool s
  unfolding pool_loop
  pool_loop-suc zero round pool s h = elim (h refl) [ ]
  pool_loop-suc (suc fuel) round pool s h =
      continue_same (λ pool' s'. loop fuel (round + 1) pool' s')
        (λ pool' s'. loop (suc fuel) (round + 1) pool' s')
        (pool_round api executor best signals config min_transaction_gas block_gas_limit base_fee
          round (best.next pool) s)
        (λ pool' s' ended. pool_loop-suc fuel (round + 1) pool' s' ended) h

  -- The fuel does not show in how the loop ends: where it ends with some fuel, it ends in the same way
  -- with any more.
  pub pool_loop-more :
      (more fuel round : ℕ) (pool : I) (s : Building B)
      → loop fuel round pool s ≢ out_of_fuel
      → loop (fuel + more) round pool s ≡ loop fuel round pool s
  pool_loop-more zero fuel round pool s h = ap (λ n. loop n round pool s) (add_zero fuel)
  pool_loop-more (suc more) fuel round pool s h =
      let rest = pool_loop-more more fuel round pool s h in
      ap (λ n. loop n round pool s) (add_suc fuel more)
      ∙ (pool_loop-suc (fuel + more) round pool s (λ e. h (sym rest ∙ e)) ∙ rest)
