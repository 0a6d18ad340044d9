-- ===== src/BaseFee/Overhead.antt =====
-- The configured overhead, and the base fee that follows from it.
use dogeos_reth.Prelude.{ℕ, ◌≤◌, ◌<◌, ◌≡◌, some, ok, err, arith, u64_max}
use dogeos_reth.Hardforks.{ForkConditions}
use dogeos_reth.Consensus.{BlockHeader}
use dogeos_reth.BaseFee.{
  ChainSpec, Storage, base_fee_overhead, next_block_base_fee, l2_base_fee_overhead_slot,
}

module _ (f : ForkConditions) (spec : ChainSpec f) {E : Type 0} (storage : Storage E) where
  -- The overhead that is read is a positive u64.
  pub overhead_range :
      (overhead : ℕ)
      → base_fee_overhead f spec storage ≡ ok overhead
      → (0 < overhead) × (overhead ≤ u64_max)
  unfolding base_fee_overhead
  overhead_range overhead h = ground arith

  -- No block has a base fee of zero: whatever slot 101 of the system config holds, the base fee of
  -- a child is positive.
  pub base_fee_pos :
      (header : BlockHeader) (timestamp fee : ℕ)
      → next_block_base_fee f spec storage header timestamp ≡ some (ok fee)
      → 0 < fee
  unfolding next_block_base_fee
  base_fee_pos header timestamp fee h = ground arith

  -- On a header with a base fee the rule does not panic, and when the slot cannot be read it
  -- fails with that error.
  pub next_block_base_fee_error :
      (header : BlockHeader) (timestamp base_fee : ℕ) (e : E)
      → header.base_fee_per_gas ≡ some base_fee
      → storage spec.l2_system_config_address l2_base_fee_overhead_slot ≡ err e
      → next_block_base_fee f spec storage header timestamp ≡ some (err e)
  unfolding next_block_base_fee
  next_block_base_fee_error header timestamp base_fee e h failed = ground arith
