-- ===== src/Hardforks/Schedule/Lookup.antt =====
-- The answers of `DogeosChainHardforks` against the entries that it was made from.
use dogeos_reth.Prelude.{
  ℕ, zero, suc, ◌+◌, ◌-◌, ◌/◌, ◌≤◌, ◌<◌, ◌≡◌, ◌≢◌, ◌∙◌, refl, get_elem?-lt, Bool, Option, none,
  some, List, [], ◌∷◌, ◌==◌, if◌then◌else◌, arith, length, get_elem?, All, Option-cases, Bool-cases,
  inl, inr,
}
use dogeos_reth.Hardforks.{DogeosHardfork, ForkConditions}
use dogeos_reth.Hardforks.Schedule.{
  rank, insert_sorted, sort, binary_search, new, at_index, dogeos_fork_activation,
}

-- The specification: the entry of the fork in the list that the schedule was made from.
unfoldable pub entry_of : {C : Type 0} → DogeosHardfork → List (DogeosHardfork × C) → Option C
entry_of fork [] = none
entry_of fork ((g, c) ∷ rest) = if rank g == rank fork then some c else entry_of fork rest

-- No two entries are of one fork.
abbrev pub IsDistinct : {C : Type 0} → List (DogeosHardfork × C) → Type 0
IsDistinct [] = Unit
IsDistinct ((g, c) ∷ rest) = (entry_of g rest ≡ none) × IsDistinct rest

abbrev Above : {C : Type 0} → ℕ → List (DogeosHardfork × C) → Type 0
Above r = All (λ e. r < rank e.0)

-- Strictly ascending ranks.
abbrev Ascending : {C : Type 0} → List (DogeosHardfork × C) → Type 0
Ascending [] = Unit
Ascending ((g, c) ∷ rest) = Above (rank g) rest × Ascending rest

module _ {C : Type 0} where
  insert_Above :
      (lt : C → C → Bool) (r : ℕ) (x : DogeosHardfork × C) (l : List (DogeosHardfork × C))
      → r < rank x.0
      → Above r l
      → Above r (insert_sorted lt x l)
  unfolding insert_sorted
  insert_Above lt r x [] h a = (h, tt)
  insert_Above lt r x (y ∷ l) h a = ground (arith, insert_Above lt r x l h a.1)

  Above-trans : (q r : ℕ) (l : List (DogeosHardfork × C)) → q < r → Above r l → Above q l
  Above-trans q r [] h a = tt
  Above-trans q r (x ∷ l) h a = (omega arith, Above-trans q r l h a.1)

  insert_Ascending :
      (lt : C → C → Bool) (x : DogeosHardfork × C) (l : List (DogeosHardfork × C))
      → entry_of x.0 l ≡ none
      → Ascending l
      → Ascending (insert_sorted lt x l)
  unfolding insert_sorted entry_of
  insert_Ascending lt x [] h a = (tt, tt)
  insert_Ascending lt x (y ∷ l) h a = ground (
    arith,
    insert_Ascending lt x l,
    Above-trans (rank x.0) (rank y.0) l,
    insert_Above lt (rank y.0) x l,
  )

  entry_of-insert :
      (lt : C → C → Bool) (fork : DogeosHardfork) (x : DogeosHardfork × C)
      (l : List (DogeosHardfork × C))
      → entry_of x.0 l ≡ none
      → entry_of fork (insert_sorted lt x l) ≡ entry_of fork (x ∷ l)
  unfolding insert_sorted entry_of
  entry_of-insert lt fork x [] h = refl
  entry_of-insert lt fork x (y ∷ l) h = ground (arith, entry_of-insert lt fork x l)

  entry_of-sort :
      (lt : C → C → Bool) (fork : DogeosHardfork) (l : List (DogeosHardfork × C))
      → IsDistinct l
      → entry_of fork (sort lt l) ≡ entry_of fork l
  unfolding sort entry_of
  entry_of-sort lt fork [] h = refl
  entry_of-sort lt fork (x ∷ l) h = ground (
    arith,
    entry_of-sort lt fork l h.1,
    entry_of-insert lt fork x (sort lt l) (entry_of-sort lt x.0 l h.1 ∙ h.0),
  )

  Ascending-sort :
      (lt : C → C → Bool) (l : List (DogeosHardfork × C)) → IsDistinct l → Ascending (sort lt l)
  unfolding sort
  Ascending-sort lt [] h = tt
  Ascending-sort lt (x ∷ l) h =
      insert_Ascending lt x (sort lt l) (entry_of-sort lt x.0 l h.1 ∙ h.0) (Ascending-sort lt l h.1)

  Above-get :
      (r : ℕ) (l : List (DogeosHardfork × C)) (j : ℕ) {e : DogeosHardfork × C}
      → Above r l
      → get_elem? l j ≡ some e
      → r < rank e.0
  Above-get r [] j a h = cc
  Above-get r (x ∷ l) zero a h = ground arith
  Above-get r (x ∷ l) (suc j) a h = Above-get r l j a.1 h

  -- Ranks ascend along the indices.
  rank_mono :
      (l : List (DogeosHardfork × C)) (i j : ℕ) (d e : DogeosHardfork × C)
      → Ascending l
      → i < j
      → get_elem? l i ≡ some d
      → get_elem? l j ≡ some e
      → rank d.0 < rank e.0
  rank_mono [] i j d e a h p q = cc
  rank_mono (x ∷ l) i zero d e a h p q = absurd (omega arith)
  rank_mono (x ∷ l) zero (suc j) d e a h p q =
      let b = Above-get (rank x.0) l j a.0 q in ground (arith)
  rank_mono (x ∷ l) (suc i) (suc j) d e a h p q = rank_mono l i j d e a.1 (omega arith) p q

  search_finds :
      (fuel : ℕ) (l : List (DogeosHardfork × C)) (fork : DogeosHardfork) (lo hi k : ℕ)
      {e : DogeosHardfork × C}
      → Ascending l
      → get_elem? l k ≡ some e
      → rank e.0 ≡ rank fork
      → lo ≤ k
      → k < hi
      → hi ≤ length l
      → hi < fuel + lo
      → binary_search fuel l fork lo hi ≡ some k
  unfolding binary_search
  search_finds zero l fork lo hi k a g r lk kh hl h = absurd (omega arith)
  search_finds (suc fuel) l fork lo hi k {e} a g r lk kh hl h =
      let mid = lo + (hi - lo) / 2 in
      let inside : mid < length l = omega arith in
      let found = get_elem?-lt l mid inside in
      ground (
        arith,
        found.1,
        rank_mono l mid k found.0 e a,
        rank_mono l k mid e found.0 a,
        search_finds fuel l fork (mid + 1) hi k a g r,
        search_finds fuel l fork lo mid k a g r,
      )

  search_misses :
      (fuel : ℕ) (l : List (DogeosHardfork × C)) (fork : DogeosHardfork) (lo hi : ℕ)
      → ((i : ℕ) (e : DogeosHardfork × C) → get_elem? l i ≡ some e → rank e.0 ≢ rank fork)
      → binary_search fuel l fork lo hi ≡ none
  unfolding binary_search
  search_misses zero l fork lo hi missing = refl
  search_misses (suc fuel) l fork lo hi missing =
      let mid = lo + (hi - lo) / 2 in
      let right = search_misses fuel l fork (mid + 1) hi missing in
      let left = search_misses fuel l fork lo mid missing in
      elim (Option-cases (get_elem? l mid)) [
        | inl e ↦ ground arith
        | inr (e, p) ↦ let differs = missing mid e p in ground arith
      ]

  entry_index :
      (fork : DogeosHardfork) (l : List (DogeosHardfork × C)) {c : C}
      → entry_of fork l ≡ some c
      → (k : ℕ) × (g : DogeosHardfork) × (get_elem? l k ≡ some (g, c))
        × (rank g ≡ rank fork)
        × (k < length l)
  unfolding entry_of
  entry_index fork [] h = cc
  entry_index fork ((g, d) ∷ l) h = elim (Bool-cases (rank g == rank fork)) [
    | inl same ↦ (0, g, ground arith, ground arith, omega arith)
    | inr other ↦
        let (k, g', p, q, r) = entry_index fork l (rw other at h) in (suc k, g', p, q, omega arith)
  ]

  no_entry :
      (fork : DogeosHardfork) (l : List (DogeosHardfork × C))
      → entry_of fork l ≡ none
      → (i : ℕ) (e : DogeosHardfork × C) → get_elem? l i ≡ some e
      → rank e.0 ≢ rank fork
  unfolding entry_of
  no_entry fork [] h i e p q = cc
  no_entry fork (x ∷ l) h zero e p q = ground arith
  no_entry fork (x ∷ l) h (suc i) e p q = no_entry fork l (ground arith) i e p q

module _ (f : ForkConditions) where
  open f use {ForkCondition, never}

  abbrev or_never : Option ForkCondition → ForkCondition
  or_never none = never
  or_never (some c) = c

  -- A schedule made from entries of distinct forks, in any order, answers for each fork the
  -- condition of its entry, and `Never` for a fork that has none.
  pub dogeos_fork_activation-new :
      (cond_lt : ForkCondition → ForkCondition → Bool)
      (forks : List (DogeosHardfork × ForkCondition)) (fork : DogeosHardfork)
      → IsDistinct forks
      → dogeos_fork_activation f (new f cond_lt forks) fork ≡ or_never (entry_of fork forks)
  unfolding dogeos_fork_activation new
  dogeos_fork_activation-new cond_lt forks fork h =
      rw (← entry_of-sort cond_lt fork forks h)
        (looked_up (sort cond_lt forks) (Ascending-sort cond_lt forks h))
    where
      looked_up :
          (l : List (DogeosHardfork × ForkCondition))
          → Ascending l
          → at_index f l (binary_search (suc (length l)) l fork 0 (length l))
            ≡ or_never (entry_of fork l)
      looked_up l a = elim (Option-cases (entry_of fork l)) [
        | inl e ↦
            rw (e, search_misses (suc (length l)) l fork 0 (length l) (no_entry fork l e)) refl
        | inr (c, e) ↦
            let (k, g, p, q, r) = entry_index fork l e in
            rw
              (
                e,
                search_finds (suc (length l)) l fork 0 (length l) k a p q (omega arith)
                    (omega arith) (omega arith) (omega arith),
              )
              (ground arith)
      ]
