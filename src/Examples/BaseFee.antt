-- ===== src/Examples/BaseFee.antt =====
-- The base-fee rule on a concrete chain.
use dogeos_reth.Prelude.{ℕ, ◌≡◌, ◌≤◌, refl, some, ok, err, Result, if◌then◌else◌}
use dogeos_reth.Hardforks.{is_tsuki_v2_active_at_timestamp}
use dogeos_reth.Consensus.Header.{maximum_base_fee}
use dogeos_reth.BaseFee.{
  ScrollBaseFeeParent, max_l2_base_fee, pre_tsuki_v2_max_l2_base_fee, next_block_base_fee,
}
use dogeos_reth.BaseFee.Bounds.{next_block_base_fee_bounds}
use dogeos_reth.BaseFee.Overhead.{next_block_base_fee_error}
use dogeos_reth.Examples.{forks, activation, chain_spec, storage, header_at}

fee_computed :
    next_block_base_fee forks chain_spec storage (header_at 5 40 30_000) 41 ≡ some (ok 20_000_001)
unfolding next_block_base_fee
fee_computed = refl

next_block_base_fee_bounds_example :
    (20_000_001 ≤ (
      if is_tsuki_v2_active_at_timestamp forks activation 41
      then max_l2_base_fee
      else pre_tsuki_v2_max_l2_base_fee))
    × (20_000_001 ≤ maximum_base_fee)
next_block_base_fee_bounds_example =
    next_block_base_fee_bounds forks chain_spec storage (header_at 5 40 30_000) 41 20_000_001
      fee_computed

abbrev parent : ScrollBaseFeeParent
parent = record { base_fee_per_gas = 20_000_000; gas_used = 21_000; gas_limit = 30_000 }

abbrev broken : ℕ → ℕ → Result ℕ ℕ
broken address slot = err 404

next_block_base_fee_error_example :
    next_block_base_fee forks chain_spec broken (header_at 5 40 30_000) 41 ≡ some (err 404)
next_block_base_fee_error_example =
    next_block_base_fee_error forks chain_spec broken (header_at 5 40 30_000) 41 20_000_000 404 refl
      refl
