-- ===== src/Consensus/GasLimit.antt =====
-- `validate_gas_limit_against_parent` of crates/dogeos-reth-consensus/src/lib.rs.
use dogeos_reth.Prelude.{
  ℕ, ◌+◌, ◌-◌, ◌/◌, ◌≤◌, ◌≡◌, ◌↔◌, Result, ok, err, ltb, if◌then◌else◌, arith,
}
use dogeos_reth.Consensus.{
  ConsensusError, SharedRules, gas_limit_invalid_increase, gas_limit_invalid_decrease,
  gas_limit_invalid_minimum,
}

-- u64::abs_diff
abbrev pub abs_diff : ℕ → ℕ → ℕ
abs_diff a b = if ltb a b then b - a else a - b

module _ {X : Type 0} (rules : SharedRules X) where
  unfoldable pub validate_gas_limit_against_parent : ℕ → ℕ → Result (ConsensusError X) (Unit {0})
  validate_gas_limit_against_parent gas_limit parent_gas_limit =
      let diff = abs_diff gas_limit parent_gas_limit in
      let limit = parent_gas_limit / rules.gas_limit_bound_divisor in
      if ltb limit diff
      then (if ltb parent_gas_limit gas_limit
          then err (gas_limit_invalid_increase parent_gas_limit gas_limit)
          else err (gas_limit_invalid_decrease parent_gas_limit gas_limit))
      else if ltb gas_limit rules.minimum_gas_limit
      then err (gas_limit_invalid_minimum gas_limit)
      else ok tt

  -- The gas limits that a child of a block may have: within the parent's bound on both sides, and
  -- at least the minimum.
  pub record IsReachable (parent child : ℕ) : Type 0 where
    pub not_above : child ≤ parent + parent / rules.gas_limit_bound_divisor
    pub not_below : parent ≤ child + parent / rules.gas_limit_bound_divisor
    pub not_small : rules.minimum_gas_limit ≤ child

  pub accepts_reachable :
      (parent child : ℕ)
      → IsReachable parent child
      → validate_gas_limit_against_parent child parent ≡ ok tt
  unfolding validate_gas_limit_against_parent
  accepts_reachable parent child r = ground arith

  pub accepted-IsReachable :
      (parent child : ℕ)
      → validate_gas_limit_against_parent child parent ≡ ok tt
      → IsReachable parent child
  unfolding validate_gas_limit_against_parent
  accepted-IsReachable parent child h = ground arith

  -- The gas-limit check accepts a child exactly when its gas limit differs from the parent's by at
  -- most the parent's bound and is at least the minimum.
  pub validate_gas_limit_iff :
      (parent child : ℕ)
      → (validate_gas_limit_against_parent child parent ≡ ok tt) ↔ IsReachable parent child
  validate_gas_limit_iff parent child =
      (accepted-IsReachable parent child, accepts_reachable parent child)
