-- ===== src/Payload/GasLimit.antt =====
-- `next_block_gas_limit` of crates/dogeos-reth-payload/src/builder.rs. `none` is the panic of `clamp`
-- on bounds that are out of order.
use dogeos_reth.Prelude.{
  ℕ, ◌-◌, ◌/◌, ◌≤◌, ◌≡◌, Option, none, some, refl, ok, ltb, if◌then◌else◌, arith, sat_add64,
  u64_max,
}
use dogeos_reth.Consensus.{SharedRules}
use dogeos_reth.Consensus.GasLimit.{validate_gas_limit_against_parent}

-- `Ord::clamp`
abbrev clamp : ℕ → ℕ → ℕ → Option ℕ
clamp x low high =
    if ltb high low then none else some (if ltb x low then low else if ltb high x then high else x)

module _ {X : Type 0} (rules : SharedRules X) where
  abbrev toward_target : Option ℕ → ℕ → Option ℕ
  toward_target none parent = some parent
  toward_target (some target) parent =
      let step = parent / rules.gas_limit_bound_divisor in
      clamp target (parent - step) (sat_add64 parent step)

  unfoldable pub next_block_gas_limit : Option ℕ → Option ℕ → ℕ → Option ℕ
  next_block_gas_limit (some gas_limit) target parent = some gas_limit
  next_block_gas_limit none target parent = toward_target target parent

  -- Without a gas limit in the attributes, from a parent's and a target that are not below the
  -- minimum, the builder selects a gas limit, without a panic, that the consensus check accepts
  -- against the parent.
  pub next_block_gas_limit_accepted :
      (target : Option ℕ) (parent : ℕ)
      → parent ≤ u64_max
      → rules.minimum_gas_limit ≤ parent
      → ((t : ℕ) → target ≡ some t → rules.minimum_gas_limit ≤ t)
      → (selected : ℕ) × (next_block_gas_limit none target parent ≡ some selected)
        × (validate_gas_limit_against_parent rules selected parent ≡ ok tt)
  unfolding next_block_gas_limit validate_gas_limit_against_parent
  next_block_gas_limit_accepted none parent fits big targets = (parent, ground arith, ground arith)
  next_block_gas_limit_accepted (some target) parent fits big targets =
      let step = parent / rules.gas_limit_bound_divisor in
      let low = parent - step in
      let high = sat_add64 parent step in
      let big_target = targets target refl in
      (
        if ltb target low then low else if ltb high target then high else target,
        ground arith,
        ground arith,
      )
