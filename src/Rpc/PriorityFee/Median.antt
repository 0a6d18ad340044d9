-- ===== src/Rpc/PriorityFee/Median.antt =====
-- The tip of a block at capacity against the median of its transactions' tips.
use mathlib.Core.Path.{subst}
use dogeos_reth.Prelude.{
  ℕ, zero, suc, ◌+◌, ◌-◌, ◌/◌, ◌%◌, ◌^◌, ◌≤◌, ◌<◌, ◌≡◌, refl, inl, inr, Bool-cases, Option, some,
  List, [], ◌∷◌, ◌==◌, leb, if◌then◌else◌, length, get_elem?, get_elem?-lt, All, max, wrap_add256,
  arith,
}
use dogeos_reth.Rpc.PriorityFee.{insert_tip, sort_tips, median_of, at_most, capacity_tip}

-- How often a tip is in a list.
unfoldable pub count : ℕ → List ℕ → ℕ
count tip [] = 0
count tip (t ∷ tips) = (if t == tip then 1 else 0) + count tip tips

abbrev pub IsOrdered : List ℕ → Type 0
IsOrdered [] = Unit
IsOrdered (t ∷ tips) = All (λ u. t ≤ u) tips × IsOrdered tips

-- `ordered` has the tips of `tips`, each as often, from the least to the greatest.
pub record IsSortOf (tips ordered : List ℕ) : Type 0 where
  pub in_order : IsOrdered ordered
  pub same_tips : (tip : ℕ) → count tip ordered ≡ count tip tips
  pub same_length : length ordered ≡ length tips

-- The tip in the middle, or the mean of the two there.
pub data IsMedian (ordered : List ℕ) (median : ℕ) : Type 0 where
  middle :
      (half : ℕ)
      → length ordered ≡ half + 1 + half
      → get_elem? ordered half ≡ some median
      → IsMedian ordered median
  mean :
      (half lower upper : ℕ)
      → length ordered ≡ (half + 1) + (half + 1)
      → get_elem? ordered half ≡ some lower
      → get_elem? ordered (half + 1) ≡ some upper
      → median ≡ (lower + upper) / 2
      → IsMedian ordered median

insert_All :
    (P : ℕ → Type 0) (tip : ℕ) (tips : List ℕ) → P tip → All P tips → All P (insert_tip tip tips)
unfolding insert_tip
insert_All P tip [] h a = (h, tt)
insert_All P tip (t ∷ tips) h a = elim (Bool-cases (leb tip t)) [
  | inl e ↦ rw e (h, a)
  | inr e ↦ rw e (a.0, insert_All P tip tips h a.1)
]

sort_All : (P : ℕ → Type 0) (tips : List ℕ) → All P tips → All P (sort_tips tips)
unfolding sort_tips
sort_All P [] a = tt
sort_All P (t ∷ tips) a = insert_All P t (sort_tips tips) a.0 (sort_All P tips a.1)

get_elem?-All :
    (P : ℕ → Type 0) (tips : List ℕ) (i tip : ℕ) → All P tips → get_elem? tips i ≡ some tip → P tip
get_elem?-All P [] i tip a e = cc
get_elem?-All P (t ∷ tips) zero tip a e = let same : t ≡ tip = cc in subst P same a.0
get_elem?-All P (t ∷ tips) (suc i) tip a e = get_elem?-All P tips i tip a.1 e

All-mono :
    (low high : ℕ) (tips : List ℕ) → low ≤ high → All (λ t. high ≤ t) tips → All (λ t. low ≤ t) tips
All-mono low high [] h a = tt
All-mono low high (t ∷ tips) h a = (omega (arith, a.0), All-mono low high tips h a.1)

insert-IsOrdered : (tip : ℕ) (tips : List ℕ) → IsOrdered tips → IsOrdered (insert_tip tip tips)
unfolding insert_tip
insert-IsOrdered tip [] o = (tt, tt)
insert-IsOrdered tip (t ∷ tips) o = elim (Bool-cases (leb tip t)) [
  | inl e ↦ let le : tip ≤ t = ground arith in rw e ((le, All-mono tip t tips le o.0), o)
  | inr e ↦
      let le : t ≤ tip = ground arith in
      rw e (insert_All (λ u. t ≤ u) tip tips le o.0, insert-IsOrdered tip tips o.1)
]

count-insert : (u tip : ℕ) (tips : List ℕ) → count u (insert_tip tip tips) ≡ count u (tip ∷ tips)
unfolding insert_tip count
count-insert u tip [] = refl
count-insert u tip (t ∷ tips) = ground (arith, count-insert u tip tips)

length-insert : (tip : ℕ) (tips : List ℕ) → length (insert_tip tip tips) ≡ suc (length tips)
unfolding insert_tip
length-insert tip [] = refl
length-insert tip (t ∷ tips) = ground (arith, length-insert tip tips)

sort_tips-IsSortOf : (tips : List ℕ) → IsSortOf tips (sort_tips tips)
unfolding sort_tips count
sort_tips-IsSortOf [] = record { in_order = tt; same_tips = λ tip. refl; same_length = refl }
sort_tips-IsSortOf (t ∷ tips) =
    let rest = sort_tips-IsSortOf tips in
    record {
      in_order = insert-IsOrdered t (sort_tips tips) rest.in_order;
      same_tips = λ tip.
          let same = rest.same_tips tip in
          let inserted = count-insert tip t (sort_tips tips) in ground arith;
      same_length =
          let same = rest.same_length in
          let inserted = length-insert t (sort_tips tips) in omega arith;
    }

-- The wrap-around of u128 is not met by tips below half of it.
median_of-IsMedian :
    (ordered : List ℕ)
    → 0 < length ordered
    → All (λ t. t < 2 ^ 127) ordered
    → (median : ℕ) × (median_of ordered ≡ some median)
      × IsMedian ordered median
      × (median < 2 ^ 127)
unfolding median_of
median_of-IsMedian ordered some_tip below =
    let half = length ordered / 2 in
    elim (Bool-cases (length ordered % 2 == 1)) [
      | inl e ↦
          let odd : length ordered ≡ half + 1 + half = ground arith in
          let (m, at) = get_elem?-lt ordered half (omega (arith, odd)) in
          let fits = get_elem?-All _ ordered half m below at in
          (m, rw (e, at) refl, middle half odd at, fits)
      | inr e ↦
          let even : length ordered ≡ (half - 1 + 1) + (half - 1 + 1) = ground arith in
          let next : half - 1 + 1 ≡ half = omega (arith, even, some_tip) in
          let (low, at_low) = get_elem?-lt ordered (half - 1) (omega (arith, even, some_tip)) in
          let (high, at_high) = get_elem?-lt ordered half (omega (arith, even, some_tip)) in
          let low_fits = get_elem?-All _ ordered (half - 1) low below at_low in
          let high_fits = get_elem?-All _ ordered half high below at_high in
          let sum : (low + high) % 2 ^ 128 ≡ low + high = omega (arith, low_fits, high_fits) in
          (
            (low + high) / 2,
            rw (e, at_low, at_high, sum) refl,
            mean (half - 1) low high even at_low (rw next at_high) refl,
            omega (arith, low_fits, high_fits),
          )
    ]

-- The tip of a block at capacity that has transactions with tips below 2 ^ 127 is computed from the
-- median of the tips, whatever their order: it is 10 percent above the median, or the configured
-- minimum if that is higher, and at most the maximum where one is configured. There is no panic.
pub capacity_tip_lem :
    (tip : ℕ) (tips : List ℕ) (minimum : ℕ) (maximum : Option ℕ)
    → All (λ t. t < 2 ^ 127) (tip ∷ tips)
    → (ordered : List ℕ) × (median : ℕ) × IsSortOf (tip ∷ tips) ordered
      × IsMedian ordered median
      × (capacity_tip (tip ∷ tips) minimum maximum
          ≡ some (at_most maximum (max (median + median / 10) minimum)))
unfolding capacity_tip
capacity_tip_lem tip tips minimum maximum below =
    let sorted = sort_tips-IsSortOf (tip ∷ tips) in
    let ordered = sort_tips (tip ∷ tips) in
    let some_tip : 0 < length ordered = omega (arith, sorted.same_length) in
    let (median, found, is_median, fits) =
      median_of-IsMedian ordered some_tip (sort_All _ (tip ∷ tips) below) in
    let sum : wrap_add256 median (median / 10) ≡ median + median / 10 = omega (arith, fits) in
    (ordered, median, sorted, is_median, rw (found, sum) refl)
