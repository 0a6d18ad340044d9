-- ===== src/CodeWitness/Invariant.antt =====
-- The meter's invariant: its sums against the codes in its maps and against the limit.
use dogeos_reth.Prelude.{ℕ, ◌≤◌, ◌≡◌, none, arith, min, u64_max, sat_add64}
use dogeos_reth.CodeWitness.{
  Meter, reserve, record_code, reset_transaction, new, accept_transaction,
}
use dogeos_reth.CodeWitness.Union.{
  total, fresh, IsSized, insert-IsSized, extend-IsSized, total-extend, fresh-insert_new,
}

-- `size` is the length of the code with a given hash.
pub record IsMetered (size : ℕ → ℕ) (limit : ℕ) (m : Meter) : Type 0 where
  pub accepted_sized : IsSized size m.accepted
  pub pending_sized : IsSized size m.pending
  pub accepted_covered : min (total m.accepted) u64_max ≤ m.accepted_bytes
  pub pending_covered : min (fresh m.accepted m.pending) u64_max ≤ m.pending_bytes
  pub limited : m.max_code_bytes ≡ limit
  pub within : m.accepted_bytes ≤ limit
  pub fits : m.exceeded ≡ none → sat_add64 m.accepted_bytes m.pending_bytes ≤ limit

module _ (size : ℕ → ℕ) (limit : ℕ) where
  pub new-IsMetered : (max_steps : ℕ) → IsMetered size limit (new limit max_steps)
  unfolding new total fresh
  new-IsMetered max_steps = ground arith

  pub reserve-IsMetered :
      {m : Meter} (bytes : ℕ) → IsMetered size limit m → IsMetered size limit (reserve m bytes)
  unfolding reserve
  reserve-IsMetered bytes v = ground arith

  pub record_code-IsMetered :
      {m : Meter} (hash : ℕ)
      → IsMetered size limit m
      → IsMetered size limit (record_code m hash (size hash))
  unfolding record_code
  record_code-IsMetered {m} hash v = ground (
    arith,
    insert-IsSized size hash m.pending v.pending_sized,
    fresh-insert_new hash (size hash) m.accepted m.pending,
  )

  pub reset-IsMetered :
      {m : Meter} → IsMetered size limit m → IsMetered size limit (reset_transaction m)
  unfolding reset_transaction fresh
  reset-IsMetered v = ground arith

  pub accept-IsMetered :
      {m : Meter} → IsMetered size limit m → IsMetered size limit (accept_transaction m).0
  unfolding accept_transaction fresh
  accept-IsMetered {m} v = ground (
    arith,
    extend-IsSized size m.accepted m.pending v.accepted_sized v.pending_sized,
    total-extend size m.accepted m.pending v.accepted_sized v.pending_sized,
  )
