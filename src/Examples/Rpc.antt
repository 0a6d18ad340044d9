-- ===== src/Examples/Rpc.antt =====
-- The tips of three and of two transactions.
use dogeos_reth.Prelude.{ℕ, ◌+◌, ◌/◌, ◌≡◌, refl, List, [], ◌∷◌, some, none, max, arith}
use dogeos_reth.Rpc.PriorityFee.{at_most, capacity_tip}
use dogeos_reth.Rpc.PriorityFee.Median.{IsSortOf, IsMedian, capacity_tip_lem}

tip_of_three : capacity_tip (30 ∷ 10 ∷ 20 ∷ []) 5 (some 100) ≡ some 22
unfolding capacity_tip
tip_of_three = refl

tip_of_two : capacity_tip (30 ∷ 10 ∷ []) 5 none ≡ some 22
unfolding capacity_tip
tip_of_two = refl

capacity_tip_lem_example :
    (ordered : List ℕ) × (median : ℕ) × IsSortOf (30 ∷ 10 ∷ 20 ∷ []) ordered
    × IsMedian ordered median
    × (capacity_tip (30 ∷ 10 ∷ 20 ∷ []) 5 (some 100)
        ≡ some (at_most (some 100) (max (median + median / 10) 5)))
capacity_tip_lem_example =
    capacity_tip_lem 30 (10 ∷ 20 ∷ []) 5 (some 100) (omega arith, (omega arith, (omega arith, tt)))
