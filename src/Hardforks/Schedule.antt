-- ===== src/Hardforks/Schedule.antt =====
-- `DogeosChainHardforks` of crates/dogeos-hardforks/src/lib.rs: a schedule is sorted when it is
-- built, and is read by binary search. The search is the textbook loop over a slice, on fuel.
pub mod Lookup
use dogeos_reth.Prelude.{
  ℕ, zero, suc, ◌+◌, ◌-◌, ◌/◌, ◌≤◌, ◌<◌, ◌≡◌, ◌≢◌, ◌∙◌, refl, get_elem?-lt, Bool, Option, none,
  some, List, [], ◌∷◌, ltb, ◌==◌, if◌then◌else◌, arith, length, not, ◌&&◌, ◌||◌, get_elem?, All,
  Option-cases, Bool-cases, inl, inr,
}
use dogeos_reth.Hardforks.{
  DogeosHardfork, feynman, galileo, galileo_v2, tsuki, tsuki_v2, ForkConditions,
}

-- The order that `derive(Ord)` gives the forks.
abbrev pub rank : DogeosHardfork → ℕ
rank feynman = 0
rank galileo = 1
rank galileo_v2 = 2
rank tsuki = 3
rank tsuki_v2 = 4

module _ {C : Type 0} (cond_lt : C → C → Bool) where
  -- `<=` on the pairs, which compares the forks first. `cond_lt` is the order of the conditions.
  abbrev entry_le : DogeosHardfork × C → DogeosHardfork × C → Bool
  entry_le (f, c) (g, d) = ltb (rank f) (rank g) || (rank f == rank g && not (cond_lt d c))

  -- `Vec::sort`, which is stable, by insertion
  unfoldable pub insert_sorted :
      DogeosHardfork × C → List (DogeosHardfork × C) → List (DogeosHardfork × C)
  insert_sorted x [] = x ∷ []
  insert_sorted x (y ∷ ys) = if entry_le x y then x ∷ y ∷ ys else y ∷ insert_sorted x ys

  unfoldable pub sort : List (DogeosHardfork × C) → List (DogeosHardfork × C)
  unfolding insert_sorted
  sort [] = []
  sort (x ∷ xs) = insert_sorted x (sort xs)

-- `binary_search_by` between `lo` and `hi`: the index of an entry of the fork.
unfoldable pub binary_search :
    {C : Type 0} → ℕ → List (DogeosHardfork × C) → DogeosHardfork → ℕ → ℕ → Option ℕ
binary_search zero forks fork lo hi = none
binary_search (suc fuel) forks fork lo hi =
    let mid = lo + (hi - lo) / 2 in
    let right = binary_search fuel forks fork (mid + 1) hi in
    let left = binary_search fuel forks fork lo mid in
    if ltb lo hi
    then elim (get_elem? forks mid) [
      | none ↦ none
      | some (g, c) ↦
          if rank g == rank fork then some mid else if ltb (rank g) (rank fork) then right else left
    ]
    else none

module _ (f : ForkConditions) where
  open f use {ForkCondition, never}

  pub record DogeosChainHardforks : Type 0 where
    pub forks : List (DogeosHardfork × ForkCondition)

  unfoldable pub new :
      (ForkCondition → ForkCondition → Bool)
      → List (DogeosHardfork × ForkCondition)
      → DogeosChainHardforks
  unfolding sort
  new cond_lt forks = record { forks = sort cond_lt forks }

  abbrev at_index : List (DogeosHardfork × ForkCondition) → Option ℕ → ForkCondition
  at_index forks none = never
  at_index forks (some index) = elim (get_elem? forks index) [ none ↦ never | some (g, c) ↦ c ]

  -- The fuel is one more than the length, which halving never uses up.
  unfoldable pub dogeos_fork_activation : DogeosChainHardforks → DogeosHardfork → ForkCondition
  unfolding binary_search
  dogeos_fork_activation h fork =
      at_index h.forks (binary_search (suc (length h.forks)) h.forks fork 0 (length h.forks))
