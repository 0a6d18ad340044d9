-- ===== src/CodeWitness/Budget.antt =====
-- The code budget over the candidate transactions of a block, as `execute_with_code_budget` of
-- crates/dogeos-reth-payload/src/builder.rs runs the meter.
use dogeos_reth.Prelude.{
  ℕ, ◌≤◌, ◌<◌, ◌≡◌, Bool-cases, inl, inr, Bool, none, List, [], ◌∷◌, arith, All, u64_max,
  if◌then◌else◌,
}
use dogeos_reth.CodeWitness.{Meter, new, begin_transaction, accept_transaction, reject_transaction}
use dogeos_reth.CodeWitness.Inspector.{CodeWitnessInspector, Hook, run_hooks}
use dogeos_reth.CodeWitness.Keeps.{Keeps, IsSizedHook, run_hooks-keeps}
use dogeos_reth.CodeWitness.Union.{total}
use dogeos_reth.CodeWitness.Invariant.{
  IsMetered, new-IsMetered, reserve-IsMetered, record_code-IsMetered, reset-IsMetered,
  accept-IsMetered,
}

-- A candidate transaction: what the inspector sees of it, and whether its result is committed.
pub record Candidate : Type 0 where
  pub hooks : List Hook
  pub committed : Bool

abbrev pub inspector : Meter → CodeWitnessInspector
inspector m = record { meter = m; pending_access = none }

-- The life of a candidate in the payload builder: begin, execute, then accept or reject.
unfoldable pub meter_candidate : Candidate → Meter → Meter
meter_candidate c m =
    let executed = (run_hooks c.hooks (inspector (begin_transaction m))).meter in
    if c.committed then (accept_transaction executed).0 else reject_transaction executed

unfoldable pub meter_block : List Candidate → Meter → Meter
unfolding meter_candidate
meter_block [] m = m
meter_block (c ∷ cs) m = meter_block cs (meter_candidate c m)

abbrev pub HasSize : (ℕ → ℕ) → ℕ → ℕ → Type 0
HasSize size hash bytes = bytes ≡ size hash

-- The hooks of each candidate read codes of the size that belongs to their hash.
abbrev pub IsSizedBlock : (ℕ → ℕ) → List Candidate → Type 0
IsSizedBlock size = All (λ c. All (IsSizedHook (HasSize size)) c.hooks)

module _ (size : ℕ → ℕ) (limit : ℕ) where
  pub IsMetered-Keeps : Keeps (HasSize size) (IsMetered size limit)
  IsMetered-Keeps = record {
    by_reserve = λ m bytes p. reserve-IsMetered size limit bytes p;
    by_record = λ m hash bytes h p. rw h (record_code-IsMetered size limit hash p);
    by_init = λ m p. ground arith;
    by_limit = λ m p. ground arith;
    by_step = λ m below p. ground arith;
  }

  candidate-IsMetered :
      (c : Candidate) {m : Meter}
      → All (IsSizedHook (HasSize size)) c.hooks
      → IsMetered size limit m
      → IsMetered size limit (meter_candidate c m)
  unfolding meter_candidate begin_transaction reject_transaction
  candidate-IsMetered c {m} h v =
      let executed =
        run_hooks-keeps (HasSize size) (IsMetered size limit) IsMetered-Keeps c.hooks
          (inspector (begin_transaction m)) h (reset-IsMetered size limit v) in
      elim (Bool-cases c.committed) [
        | inl e ↦ rw e (accept-IsMetered size limit executed)
        | inr e ↦ rw e (reset-IsMetered size limit executed)
      ]

  block-IsMetered :
      (cs : List Candidate) {m : Meter}
      → IsSizedBlock size cs
      → IsMetered size limit m
      → IsMetered size limit (meter_block cs m)
  unfolding meter_block
  block-IsMetered [] h v = v
  block-IsMetered (c ∷ cs) h v = block-IsMetered cs h.1 (candidate-IsMetered c h.0 v)

  -- In a block of any candidates, accepted or rejected, the distinct codes of the accepted ones
  -- have together at most the limit of bytes, if the limit is below the largest u64 and the codes
  -- that the inspector sees have one size per hash.
  pub accepted_code_fits :
      (cs : List Candidate) (max_steps : ℕ)
      → limit < u64_max
      → IsSizedBlock size cs
      → total (meter_block cs (new limit max_steps)).accepted ≤ limit
  accepted_code_fits cs max_steps below h =
      let v = block-IsMetered cs h (new-IsMetered size limit max_steps) in
      omega (arith, v.accepted_covered, v.within)
