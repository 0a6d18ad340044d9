-- ===== src/BaseFee/Bounds.antt =====
-- Bounds of `next_block_base_fee`, from above and from below.
use dogeos_reth.Prelude.{ℕ, ◌≤◌, ◌≡◌, some, ok, if◌then◌else◌, min, arith, u64_max}
use dogeos_reth.Hardforks.{ForkConditions, is_tsuki_v2_active_at_timestamp}
use dogeos_reth.Consensus.{BlockHeader}
use dogeos_reth.Consensus.Header.{maximum_base_fee}
use dogeos_reth.BaseFee.{
  ChainSpec, Storage, ScrollBaseFeeParent, max_l2_base_fee_at_timestamp,
  next_block_base_fee_with_overhead, next_block_base_fee, pre_tsuki_v2_max_l2_base_fee,
  max_l2_base_fee,
}

module _ (f : ForkConditions) (spec : ChainSpec f) where
  pub max-le-maximum :
      (timestamp : ℕ) → max_l2_base_fee_at_timestamp f spec timestamp ≤ maximum_base_fee
  unfolding max_l2_base_fee_at_timestamp
  max-le-maximum timestamp = ground arith

  pub with_overhead-le :
      (parent : ScrollBaseFeeParent) (overhead timestamp : ℕ)
      → next_block_base_fee_with_overhead f spec parent overhead timestamp
        ≤ max_l2_base_fee_at_timestamp f spec timestamp
  unfolding next_block_base_fee_with_overhead
  with_overhead-le parent overhead timestamp = omega arith

  -- The base fee that the rule computes for any header is within the cap of the timestamp, which is
  -- 10 gwei until TsukiV2 is active, and never exceeds the bound of the header check.
  pub next_block_base_fee_bounds :
      {E : Type 0} (storage : Storage E) (header : BlockHeader) (timestamp fee : ℕ)
      → next_block_base_fee f spec storage header timestamp ≡ some (ok fee)
      → (fee ≤ (
          if is_tsuki_v2_active_at_timestamp f spec.activation timestamp
          then max_l2_base_fee
          else pre_tsuki_v2_max_l2_base_fee))
        × (fee ≤ maximum_base_fee)
  unfolding next_block_base_fee
  next_block_base_fee_bounds storage header timestamp fee h = ground arith

  -- For an overhead that is a u64, the base fee is at least the lesser of the overhead and the cap,
  -- whatever the parent.
  pub overhead-le-base_fee :
      (parent : ScrollBaseFeeParent) (overhead timestamp : ℕ)
      → overhead ≤ u64_max
      → min overhead (max_l2_base_fee_at_timestamp f spec timestamp)
        ≤ next_block_base_fee_with_overhead f spec parent overhead timestamp
  unfolding next_block_base_fee_with_overhead
  overhead-le-base_fee parent overhead timestamp h = ground arith
