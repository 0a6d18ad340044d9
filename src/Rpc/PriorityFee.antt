-- ===== src/Rpc/PriorityFee.antt =====
-- The capacity test and the tip of crates/dogeos-reth-rpc/src/priority_fee.rs. Tips are u128, fees
-- are U256.
pub mod Median
use dogeos_reth.Prelude.{
  ℕ, ◌+◌, ◌-◌, ◌/◌, ◌%◌, ◌^◌, Bool, Option, none, some, List, [], ◌∷◌, ◌||◌, ◌==◌, ltb, leb,
  if◌then◌else◌, length, get_elem?, min, max, sat_add64, wrap_add256,
}

unfoldable pub is_at_capacity : ℕ → ℕ → ℕ → ℕ → ℕ → ℕ → Bool
is_at_capacity gas_used gas_limit max_tx_gas_used total_payload_size max_tx_payload_size
      payload_size_limit =
    ltb gas_limit (sat_add64 gas_used max_tx_gas_used)
    || ltb payload_size_limit (sat_add64 total_payload_size max_tx_payload_size)

-- `sort_unstable` on numbers, by insertion
unfoldable pub insert_tip : ℕ → List ℕ → List ℕ
insert_tip tip [] = tip ∷ []
insert_tip tip (t ∷ tips) = if leb tip t then tip ∷ t ∷ tips else t ∷ insert_tip tip tips

unfoldable pub sort_tips : List ℕ → List ℕ
unfolding insert_tip
sort_tips [] = []
sort_tips (tip ∷ tips) = insert_tip tip (sort_tips tips)

-- The mean of the two tips in the middle, whose sum wraps on u128 in a release build.
abbrev pub mean_of : Option ℕ → Option ℕ → Option ℕ
mean_of none upper = none
mean_of (some lower) none = none
mean_of (some lower) (some upper) = some (((lower + upper) % 2 ^ 128) / 2)

-- `none` is the panic of an index out of range.
unfoldable pub median_of : List ℕ → Option ℕ
median_of tips =
    let half = length tips / 2 in
    if length tips % 2 == 1
    then get_elem? tips half
    else mean_of (get_elem? tips (half - 1)) (get_elem? tips half)

abbrev pub at_most : Option ℕ → ℕ → ℕ
at_most none suggestion = suggestion
at_most (some maximum) suggestion = min suggestion maximum

abbrev pub suggest : ℕ → Option ℕ → Option ℕ → Option ℕ
suggest minimum maximum none = none
suggest minimum maximum (some median) =
    some (at_most maximum (max (wrap_add256 median (median / 10)) minimum))

-- `none` is a panic.
unfoldable pub capacity_tip : List ℕ → ℕ → Option ℕ → Option ℕ
unfolding sort_tips median_of
capacity_tip [] minimum maximum = some minimum
capacity_tip (tip ∷ tips) minimum maximum =
    suggest minimum maximum (median_of (sort_tips (tip ∷ tips)))
