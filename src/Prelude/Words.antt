-- ===== src/Prelude/Words.antt =====
-- Rust's unsigned words as native numbers: u64 and U256 with their saturating and wrapping sums.
-- A saturating difference is the native `-`, which stops at 0.
use Prim.Native.Nat.{ℕ, ◌+◌, ◌-◌, ◌*◌, ◌%◌, ◌^◌, min}

abbrev pub u64_max : ℕ
u64_max = 2 ^ 64 - 1

abbrev pub u256_max : ℕ
u256_max = 2 ^ 256 - 1

-- u64::saturating_add
abbrev pub sat_add64 : ℕ → ℕ → ℕ
sat_add64 a b = min (a + b) u64_max

-- u64::saturating_mul
abbrev pub sat_mul64 : ℕ → ℕ → ℕ
sat_mul64 a b = min (a * b) u64_max

-- `+` on u64 in a release build
abbrev pub wrap_add64 : ℕ → ℕ → ℕ
wrap_add64 a b = (a + b) % 2 ^ 64

-- U256::saturating_add
abbrev pub sat_add256 : ℕ → ℕ → ℕ
sat_add256 a b = min (a + b) u256_max

-- `+` on U256, which wraps
abbrev pub wrap_add256 : ℕ → ℕ → ℕ
wrap_add256 a b = (a + b) % 2 ^ 256

-- U256::saturating_to::<u64>
abbrev pub sat_to64 : ℕ → ℕ
sat_to64 a = min a u64_max
