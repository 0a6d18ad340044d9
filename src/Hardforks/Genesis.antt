-- ===== src/Hardforks/Genesis.antt =====
-- `DogeosHardforkInfo` of crates/dogeos-chainspec/src/genesis.rs: the fork times of a genesis
-- document, their validation, and the activation schedule. Reading the JSON is serde's part.
use dogeos_reth.Prelude.{
  ℕ, ◌≡◌, Bool, true, false, Option, none, some, List, [], ◌∷◌, Result, ok, err, ltb, if◌then◌else◌,
  arith,
}
use dogeos_reth.Hardforks.Schedule.{new, dogeos_fork_activation}
use dogeos_reth.Hardforks.{
  DogeosHardfork, feynman, galileo, galileo_v2, tsuki, tsuki_v2, ForkConditions, Activation,
  is_tsuki_active_at_timestamp, is_tsuki_v2_active_at_timestamp,
}

pub record DogeosHardforkInfo : Type 0 where
  pub feynman_time : Option ℕ
  pub galileo_time : Option ℕ
  pub galileo_v2_time : Option ℕ
  pub tsuki_time : Option ℕ
  pub tsuki_v2_time : Option ℕ

pub data GenesisError : Type 0 where
  tsuki_v2_required tsuki_required tsuki_v2_early retired_tsuki_fee_params_time : GenesisError
  malformed : GenesisError

abbrev check_times :
    Option ℕ → Option ℕ → DogeosHardforkInfo → Result GenesisError DogeosHardforkInfo
check_times (some _) none info = err tsuki_v2_required
check_times none (some _) info = err tsuki_required
check_times (some t) (some v2) info = if ltb v2 t then err tsuki_v2_early else ok info
check_times none none info = ok info

unfoldable pub validate : DogeosHardforkInfo → Result GenesisError DogeosHardforkInfo
validate info = check_times info.tsuki_time info.tsuki_v2_time info

-- `TryFrom<&OtherFields>`: `retired` tells whether the retired key is there, `parsed` is what serde
-- reads from the fields.
unfoldable pub try_from_fields :
    Bool → Option DogeosHardforkInfo → Result GenesisError DogeosHardforkInfo
unfolding validate
try_from_fields true parsed = err retired_tsuki_fee_params_time
try_from_fields false none = err malformed
try_from_fields false (some info) = validate info

module _ (f : ForkConditions) where
  open f use {ForkCondition, timestamp, never, timestamp_active, never_active}

  abbrev condition : Option ℕ → ForkCondition
  condition none = never
  condition (some t) = timestamp t

  unfoldable pub activation_schedule : DogeosHardforkInfo → List (DogeosHardfork × ForkCondition)
  activation_schedule info =
      (feynman, condition info.feynman_time)
      ∷ (galileo, condition info.galileo_time)
      ∷ (galileo_v2, condition info.galileo_v2_time)
      ∷ (tsuki, condition info.tsuki_time)
      ∷ (tsuki_v2, condition info.tsuki_v2_time)
      ∷ []

  -- The activation that the schedule of a document has.
  unfoldable pub scheduled :
      (ForkCondition → ForkCondition → Bool) → DogeosHardforkInfo → Activation f
  unfolding activation_schedule new dogeos_fork_activation
  scheduled cond_lt info = dogeos_fork_activation f (new f cond_lt (activation_schedule info))

  ordered_times :
      (t v2 : Option ℕ) (info checked : DogeosHardforkInfo) (now : ℕ)
      → check_times t v2 info ≡ ok checked
      → f.active_at_timestamp (condition v2) now ≡ true
      → f.active_at_timestamp (condition t) now ≡ true
  ordered_times none none info checked now h active = active
  ordered_times none (some v2) info checked now h active = cc
  ordered_times (some t) none info checked now h active = cc
  ordered_times (some t) (some v2) info checked now h active =
      ground (arith, timestamp_active t now, timestamp_active v2 now)

  -- Under the schedule of a document that passes validation, TsukiV2 is never active without Tsuki.
  pub tsuki_v2_implies_tsuki :
      (cond_lt : ForkCondition → ForkCondition → Bool) (retired : Bool)
      (parsed : Option DogeosHardforkInfo) {info : DogeosHardforkInfo} (now : ℕ)
      → try_from_fields retired parsed ≡ ok info
      → is_tsuki_v2_active_at_timestamp f (scheduled cond_lt info) now ≡ true
      → is_tsuki_active_at_timestamp f (scheduled cond_lt info) now ≡ true
  unfolding try_from_fields scheduled
  tsuki_v2_implies_tsuki cond_lt true parsed now h active = cc
  tsuki_v2_implies_tsuki cond_lt false none now h active = cc
  tsuki_v2_implies_tsuki cond_lt false (some doc) {info} now h active =
      let same : doc ≡ info = ground arith in
      ordered_times info.tsuki_time info.tsuki_v2_time info info now (rw same at h) active
