-- ===== src/BaseFee.antt =====
-- crates/dogeos-reth-evm/src/base_fee.rs: the L2 base-fee rule. The state is a database that is
-- only read here, so reading it is a function; alloy's EIP-1559 step and the chain's parameters at a
-- timestamp are parameters. `none` is the panic of an `expect`.
pub mod Bounds
pub mod Overhead
use dogeos_reth.Prelude.{
  ℕ, ◌-◌, Option, none, some, Bool, Result, ok, ◌>>=◌, min, sat_add64, sat_to64, ◌==◌,
  if◌then◌else◌,
}
use dogeos_reth.Hardforks.{ForkConditions, Activation, is_tsuki_v2_active_at_timestamp}
use dogeos_reth.Consensus.{BlockHeader}

-- `MAX_L2_BASE_FEE` and `PRE_TSUKI_V2_MAX_L2_BASE_FEE` of crates/dogeos-protocol-types/src/lib.rs
abbrev pub max_l2_base_fee : ℕ
max_l2_base_fee = 420_000_000_000_000

abbrev pub pre_tsuki_v2_max_l2_base_fee : ℕ
pre_tsuki_v2_max_l2_base_fee = 10_000_000_000

abbrev pub l2_base_fee_overhead_slot : ℕ
l2_base_fee_overhead_slot = 101

abbrev pub default_base_fee_overhead : ℕ
default_base_fee_overhead = 15_680_000

pub record ScrollBaseFeeParent : Type 0 where
  pub base_fee_per_gas : ℕ
  pub gas_used : ℕ
  pub gas_limit : ℕ

abbrev with_base_fee : BlockHeader → Option ℕ → Option ScrollBaseFeeParent
with_base_fee header none = none
with_base_fee header (some fee) =
    some
      (record { base_fee_per_gas = fee; gas_used = header.gas_used; gas_limit = header.gas_limit })

unfoldable pub from_header : BlockHeader → Option ScrollBaseFeeParent
from_header header = with_base_fee header header.base_fee_per_gas

-- alloy's `BaseFeeParams`
pub record BaseFeeParams : Type 0 where
  pub max_change_denominator : ℕ
  pub elasticity_multiplier : ℕ

-- What the rule takes from the chain specification and from alloy.
pub record ChainSpec (f : ForkConditions) : Type 0 where
  pub activation : Activation f
  pub base_fee_params_at_timestamp : ℕ → BaseFeeParams
  pub calc_next_block_base_fee : ℕ → ℕ → ℕ → BaseFeeParams → ℕ
  pub l2_system_config_address : ℕ

-- `db.storage(address, slot)`
abbrev pub Storage : Type 0 → Type 0
Storage E = ℕ → ℕ → Result E ℕ

module _ (f : ForkConditions) (spec : ChainSpec f) where
  unfoldable pub max_l2_base_fee_at_timestamp : ℕ → ℕ
  max_l2_base_fee_at_timestamp timestamp =
      if is_tsuki_v2_active_at_timestamp f spec.activation timestamp
      then max_l2_base_fee
      else pre_tsuki_v2_max_l2_base_fee

  unfoldable pub next_block_base_fee_with_overhead : ScrollBaseFeeParent → ℕ → ℕ → ℕ
  unfolding max_l2_base_fee_at_timestamp
  next_block_base_fee_with_overhead parent overhead timestamp =
      let parent_eip1559_base_fee = parent.base_fee_per_gas - overhead in
      let next_eip1559_base_fee =
        spec.calc_next_block_base_fee parent.gas_used parent.gas_limit parent_eip1559_base_fee
          (spec.base_fee_params_at_timestamp timestamp) in
      min (sat_add64 next_eip1559_base_fee overhead) (max_l2_base_fee_at_timestamp timestamp)

  module _ {E : Type 0} (storage : Storage E) where
    unfoldable pub base_fee_overhead : Result E ℕ
    base_fee_overhead = do
      configured ← storage spec.l2_system_config_address l2_base_fee_overhead_slot
      ok (sat_to64 (if configured == 0 then default_base_fee_overhead else configured))

    unfoldable pub next_block_base_fee_for_parent : ScrollBaseFeeParent → ℕ → Result E ℕ
    unfolding base_fee_overhead next_block_base_fee_with_overhead
    next_block_base_fee_for_parent parent timestamp = do
      overhead ← base_fee_overhead
      ok (next_block_base_fee_with_overhead parent overhead timestamp)

    abbrev for_parent : Option ScrollBaseFeeParent → ℕ → Option (Result E ℕ)
    for_parent none timestamp = none
    for_parent (some parent) timestamp = some (next_block_base_fee_for_parent parent timestamp)

    unfoldable pub next_block_base_fee : BlockHeader → ℕ → Option (Result E ℕ)
    unfolding from_header next_block_base_fee_for_parent
    next_block_base_fee header timestamp = for_parent (from_header header) timestamp

    unfoldable pub predict_next_block_base_fee : BlockHeader → Option (Result E ℕ)
    unfolding next_block_base_fee
    predict_next_block_base_fee header = next_block_base_fee header (sat_add64 header.timestamp 1)
