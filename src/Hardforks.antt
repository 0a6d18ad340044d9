-- ===== src/Hardforks.antt =====
-- crates/dogeos-hardforks/src/lib.rs, with the genesis schedule of
-- crates/dogeos-chainspec/src/genesis.rs and the EVM specification of
-- crates/dogeos-reth-evm/src/spec.rs. alloy's `ForkCondition` is a parameter.
pub mod Schedule
pub mod Genesis
pub mod SpecId
use dogeos_reth.Prelude.{ℕ, ◌≡◌, Bool, false, List, [], ◌∷◌, leb}

pub data DogeosHardfork : Type 0 where
  feynman galileo galileo_v2 tsuki tsuki_v2 : DogeosHardfork

-- alloy's fork conditions: a timestamp condition holds from its time on, `Never` does not hold.
pub record ForkConditions : Type 1 where
  pub ForkCondition : Type 0
  pub timestamp : ℕ → ForkCondition
  pub never : ForkCondition
  pub active_at_timestamp : ForkCondition → ℕ → Bool
  pub active_at_timestamp_or_number : ForkCondition → ℕ → ℕ → Bool
  pub timestamp_active : (t now : ℕ) → active_at_timestamp (timestamp t) now ≡ leb t now
  pub never_active : (now : ℕ) → active_at_timestamp never now ≡ false
  pub timestamp_active_or_number :
      (t now number : ℕ) → active_at_timestamp_or_number (timestamp t) now number ≡ leb t now
  pub never_active_or_number :
      (now number : ℕ) → active_at_timestamp_or_number never now number ≡ false

-- 2027-01-01T00:00:00Z, also `tsukiV2Time` of the Chikyu genesis document
abbrev pub chikyu_tsuki_v2_timestamp : ℕ
chikyu_tsuki_v2_timestamp = 1_798_761_600

module _ (f : ForkConditions) where
  open f use {ForkCondition, timestamp, active_at_timestamp}

  -- `trait DogeosHardforks`: what a schedule answers.
  abbrev pub Activation : Type 0
  Activation = DogeosHardfork → ForkCondition

  abbrev pub is_feynman_active_at_timestamp : Activation → ℕ → Bool
  is_feynman_active_at_timestamp activation now = active_at_timestamp (activation feynman) now

  abbrev pub is_tsuki_active_at_timestamp : Activation → ℕ → Bool
  is_tsuki_active_at_timestamp activation now = active_at_timestamp (activation tsuki) now

  abbrev pub is_tsuki_v2_active_at_timestamp : Activation → ℕ → Bool
  is_tsuki_v2_active_at_timestamp activation now = active_at_timestamp (activation tsuki_v2) now

  abbrev pub chikyu : List (DogeosHardfork × ForkCondition)
  chikyu =
      (feynman, timestamp 0)
      ∷ (galileo, timestamp 1_790_030_800)
      ∷ (galileo_v2, timestamp 1_790_030_800)
      ∷ (tsuki, timestamp 1_790_030_900)
      ∷ (tsuki_v2, timestamp chikyu_tsuki_v2_timestamp)
      ∷ []

  abbrev pub mainnet : List (DogeosHardfork × ForkCondition)
  mainnet =
      (feynman, timestamp 0)
      ∷ (galileo, timestamp 0)
      ∷ (galileo_v2, timestamp 0)
      ∷ (tsuki, timestamp 0)
      ∷ (tsuki_v2, timestamp 0)
      ∷ []

  abbrev pub dev : List (DogeosHardfork × ForkCondition)
  dev =
      (feynman, timestamp 0)
      ∷ (galileo, timestamp 0)
      ∷ (galileo_v2, timestamp 0)
      ∷ (tsuki, timestamp 0)
      ∷ (tsuki_v2, timestamp 0)
      ∷ []
