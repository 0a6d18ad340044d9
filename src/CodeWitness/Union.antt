-- ===== src/CodeWitness/Union.antt =====
-- Sums of code sizes over the maps of the meter.
use dogeos_reth.Prelude.{ℕ, ◌+◌, ◌≤◌, ◌≡◌, refl, true, false, [], ◌∷◌, arith, if◌then◌else◌, All}
use dogeos_reth.CodeWitness.{Codes, contains_key, insert, extend}

unfoldable pub total : Codes → ℕ
total [] = 0
total (e ∷ codes) = e.1 + total codes

-- The sizes of the codes that are not yet in another map.
unfoldable pub fresh : Codes → Codes → ℕ
unfolding contains_key
fresh old [] = 0
fresh old (e ∷ codes) = (if contains_key e.0 old then 0 else e.1) + fresh old codes

pub fresh-nil : (codes : Codes) → fresh [] codes ≡ total codes
unfolding fresh total contains_key
fresh-nil [] = refl
fresh-nil (e ∷ codes) = ground (arith, fresh-nil codes)

-- Every entry has the size of its code.
abbrev pub IsSized : (ℕ → ℕ) → Codes → Type 0
IsSized size = All (λ e. e.1 ≡ size e.0)

module _ (size : ℕ → ℕ) where
  pub insert-IsSized :
      (hash : ℕ) (codes : Codes) → IsSized size codes → IsSized size (insert hash (size hash) codes)
  unfolding insert
  insert-IsSized hash [] h = (refl, tt)
  insert-IsSized hash (e ∷ codes) h = ground (arith, insert-IsSized hash codes h.1)

  pub extend-IsSized :
      (codes more : Codes)
      → IsSized size codes
      → IsSized size more
      → IsSized size (extend codes more)
  unfolding extend
  extend-IsSized codes [] h k = h
  extend-IsSized codes (e ∷ more) h k =
      extend-IsSized (insert e.0 e.1 codes) more (rw (k.0) (insert-IsSized e.0 codes h)) k.1

  total-insert :
      (hash : ℕ) (codes : Codes)
      → IsSized size codes
      → total (insert hash (size hash) codes)
        ≡ (if contains_key hash codes then 0 else size hash) + total codes
  unfolding insert total contains_key
  total-insert hash [] h = refl
  total-insert hash (e ∷ codes) h = ground (arith, total-insert hash codes h.1)

pub contains_key-insert :
    (j hash bytes : ℕ) (codes : Codes)
    → contains_key j codes ≡ true
    → contains_key j (insert hash bytes codes) ≡ true
unfolding contains_key insert
contains_key-insert j hash bytes [] h = cc
contains_key-insert j hash bytes (e ∷ codes) h =
    ground (arith, contains_key-insert j hash bytes codes)

pub contains_key-insert_self :
    (hash bytes : ℕ) (codes : Codes) → contains_key hash (insert hash bytes codes) ≡ true
unfolding contains_key insert
contains_key-insert_self hash bytes [] = ground arith
contains_key-insert_self hash bytes (e ∷ codes) =
    ground (arith, contains_key-insert_self hash bytes codes)

fresh-insert :
    (hash bytes : ℕ) (old codes : Codes) → fresh (insert hash bytes old) codes ≤ fresh old codes
unfolding fresh
fresh-insert hash bytes old [] = omega arith
fresh-insert hash bytes old (e ∷ codes) =
    ground (arith, fresh-insert hash bytes old codes, contains_key-insert e.0 hash bytes old)

-- Extending adds at most the fresh codes.
pub total-extend :
    (size : ℕ → ℕ) (codes more : Codes)
    → IsSized size codes
    → IsSized size more
    → total (extend codes more) ≤ total codes + fresh codes more
unfolding extend fresh
total-extend size codes [] h k = omega arith
total-extend size codes (e ∷ more) h k =
    let sized : IsSized size (insert e.0 e.1 codes) = rw (k.0) (insert-IsSized size e.0 codes h) in
    let rest = total-extend size (insert e.0 e.1 codes) more sized k.1 in
    ground (arith, rest, total-insert size e.0 codes h, fresh-insert e.0 e.1 codes more)

pub fresh-insert_new :
    (hash bytes : ℕ) (old codes : Codes)
    → contains_key hash codes ≡ false
    → fresh old (insert hash bytes codes)
      ≡ fresh old codes + (if contains_key hash old then 0 else bytes)
unfolding fresh insert
fresh-insert_new hash bytes old [] h = ground arith
fresh-insert_new hash bytes old (e ∷ codes) h =
    ground (arith, fresh-insert_new hash bytes old codes)
