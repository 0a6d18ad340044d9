-- ===== src/Hardforks/SpecId.antt =====
-- `spec_id_at_timestamp_and_number` of crates/dogeos-reth-evm/src/spec.rs.
use dogeos_reth.Prelude.{ℕ, ◌≤◌, ◌≡◌, true, ◌||◌, if◌then◌else◌, arith}
use dogeos_reth.Hardforks.{DogeosHardfork, ForkConditions, Activation}

-- The identifiers of `revm-scroll` that the mapping returns.
pub data ScrollSpecId : Type 0 where
  feynman galileo tsuki tsuki_v2 : ScrollSpecId

-- Their order in time.
abbrev pub spec_rank : ScrollSpecId → ℕ
spec_rank ScrollSpecId.feynman = 0
spec_rank ScrollSpecId.galileo = 1
spec_rank ScrollSpecId.tsuki = 2
spec_rank ScrollSpecId.tsuki_v2 = 3

module _ (f : ForkConditions) where
  open f use {active_at_timestamp_or_number}

  unfoldable pub spec_id_at_timestamp_and_number : ℕ → ℕ → Activation f → ScrollSpecId
  spec_id_at_timestamp_and_number timestamp number activation =
      let active = λ (fork : DogeosHardfork).
        active_at_timestamp_or_number (activation fork) timestamp number in
      if active DogeosHardfork.tsuki_v2
      then ScrollSpecId.tsuki_v2
      else if active DogeosHardfork.tsuki
      then ScrollSpecId.tsuki
      else if active DogeosHardfork.galileo_v2 || active DogeosHardfork.galileo
      then ScrollSpecId.galileo
      else ScrollSpecId.feynman

  -- Conditions that, once active, stay active.
  abbrev pub Stays : Activation f → ℕ → ℕ → ℕ → ℕ → Type 0
  Stays activation now number later higher =
      (fork : DogeosHardfork)
      → active_at_timestamp_or_number (activation fork) now number ≡ true
      → active_at_timestamp_or_number (activation fork) later higher ≡ true

  -- Under conditions that stay active from one block to another, the specification never goes back.
  pub spec_id_mono :
      (activation : Activation f) (now number later higher : ℕ)
      → Stays activation now number later higher
      → spec_rank (spec_id_at_timestamp_and_number now number activation)
        ≤ spec_rank (spec_id_at_timestamp_and_number later higher activation)
  unfolding spec_id_at_timestamp_and_number
  spec_id_mono activation now number later higher h = ground (
    arith,
    h DogeosHardfork.tsuki_v2,
    h DogeosHardfork.tsuki,
    h DogeosHardfork.galileo_v2,
    h DogeosHardfork.galileo,
  )
