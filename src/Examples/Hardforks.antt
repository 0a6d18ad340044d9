-- ===== src/Examples/Hardforks.antt =====
-- The schedules on concrete documents.
use dogeos_reth.Prelude.{ℕ, ◌≡◌, ◌≤◌, refl, true, false, Bool, Option, some, List, [], ◌∷◌}
use dogeos_reth.Hardforks.{
  DogeosHardfork, feynman, galileo, galileo_v2, tsuki, tsuki_v2, is_tsuki_active_at_timestamp,
}
use dogeos_reth.Hardforks.Schedule.{new, dogeos_fork_activation}
use dogeos_reth.Hardforks.Schedule.Lookup.{dogeos_fork_activation-new, entry_of}
use dogeos_reth.Hardforks.Genesis.{
  DogeosHardforkInfo, try_from_fields, scheduled, tsuki_v2_implies_tsuki,
}
use dogeos_reth.Hardforks.SpecId.{Stays, spec_rank, spec_id_at_timestamp_and_number, spec_id_mono}
use dogeos_reth.Examples.{forks, activation}

abbrev info : DogeosHardforkInfo
info = record {
  feynman_time = some 0;
  galileo_time = some 5;
  galileo_v2_time = some 5;
  tsuki_time = some 10;
  tsuki_v2_time = some 20;
}

abbrev cond_lt : Option ℕ → Option ℕ → Bool
cond_lt a b = false

tsuki_v2_implies_tsuki_example :
    is_tsuki_active_at_timestamp forks (scheduled forks cond_lt info) 25 ≡ true
unfolding try_from_fields scheduled
tsuki_v2_implies_tsuki_example = tsuki_v2_implies_tsuki forks cond_lt false (some info) 25 refl refl

abbrev unordered : List (DogeosHardfork × Option ℕ)
unordered = (tsuki, some 10) ∷ (feynman, some 0) ∷ (galileo, some 5) ∷ []

dogeos_fork_activation-new_example :
    dogeos_fork_activation forks (new forks cond_lt unordered) galileo ≡ some 5
unfolding entry_of
dogeos_fork_activation-new_example =
    dogeos_fork_activation-new forks cond_lt unordered galileo (refl, (refl, (refl, tt)))

stays : Stays forks activation 15 1 25 2
stays feynman h = refl
stays galileo h = refl
stays galileo_v2 h = refl
stays tsuki h = refl
stays tsuki_v2 h = cc

spec_id_mono_example :
    spec_rank (spec_id_at_timestamp_and_number forks 15 1 activation)
    ≤ spec_rank (spec_id_at_timestamp_and_number forks 25 2 activation)
spec_id_mono_example = spec_id_mono forks activation 15 1 25 2 stays
