-- ===== src/CodeWitness/Rollback.antt =====
-- Rejected candidate transactions, exceeded limits and the step allowance of the meter.

use dogeos_reth.Prelude.{ℕ, ◌≤◌, ◌≡◌, ◌≢◌, refl, false, none, List, arith, All}
use dogeos_reth.CodeWitness.{
  Meter, reserve, record_code, reset_transaction, begin_transaction, accept_transaction,
  reject_transaction,
}
use dogeos_reth.CodeWitness.Inspector.{CodeWitnessInspector, Hook, run_hooks}
use dogeos_reth.CodeWitness.Keeps.{Keeps, IsSizedHook, run_hooks-keeps}

abbrev pub AnyCode : ℕ → ℕ → Type 0
AnyCode hash bytes = Unit

-- The same accounting of the block: the limits and what is accepted.
pub record SameBlock (a b : Meter) : Type 0 where
  pub max_code_bytes : a.max_code_bytes ≡ b.max_code_bytes
  pub max_steps : a.max_steps ≡ b.max_steps
  pub accepted : a.accepted ≡ b.accepted
  pub accepted_bytes : a.accepted_bytes ≡ b.accepted_bytes

SameBlock-Keeps : (b : Meter) → Keeps AnyCode (λ m. SameBlock m b)
unfolding reserve record_code
SameBlock-Keeps b = record {
  by_reserve = λ m bytes p. ground arith;
  by_record = λ m hash bytes h p. ground arith;
  by_init = λ m p. ground arith;
  by_limit = λ m p. ground arith;
  by_step = λ m below p. ground arith;
}

reset-SameBlock : (a b : Meter) → SameBlock a b → reset_transaction a ≡ reset_transaction b
unfolding reset_transaction
reset-SameBlock a b s = ground arith

-- Whatever the inspector recorded of a candidate transaction, rejecting it gives the meter that the
-- candidate began with.
pub reject_restores :
    (hooks : List Hook) (i : CodeWitnessInspector)
    → All (IsSizedHook AnyCode) hooks
    → reject_transaction (run_hooks hooks i).meter ≡ begin_transaction i.meter
unfolding reject_transaction begin_transaction
reject_restores hooks i h = reset-SameBlock (run_hooks hooks i).meter i.meter (
    run_hooks-keeps AnyCode (λ m. SameBlock m i.meter) (SameBlock-Keeps i.meter) hooks i h
      (record { max_code_bytes = refl; max_steps = refl; accepted = refl; accepted_bytes = refl }))

IsStopped-Keeps : Keeps AnyCode (λ m. m.exceeded ≢ none)
unfolding reserve record_code
IsStopped-Keeps = record {
  by_reserve = λ m bytes p. ground arith;
  by_record = λ m hash bytes h p. ground arith;
  by_init = λ m p. ground arith;
  by_limit = λ m p. ground arith;
  by_step = λ m below p. ground arith;
}

-- Once a limit is exceeded, no later hook of the transaction makes it acceptable: accepting fails
-- and leaves the meter as it is.
pub exceeded_never_accepted :
    (hooks : List Hook) (i : CodeWitnessInspector)
    → All (IsSizedHook AnyCode) hooks
    → i.meter.exceeded ≢ none
    → accept_transaction (run_hooks hooks i).meter ≡ ((run_hooks hooks i).meter, false)
unfolding accept_transaction
exceeded_never_accepted hooks i h e =
    let stopped = run_hooks-keeps AnyCode (λ m. m.exceeded ≢ none) IsStopped-Keeps hooks i h e in
    ground arith

StepLimit-Keeps : Keeps AnyCode (λ m. m.steps ≤ m.max_steps)
unfolding reserve record_code
StepLimit-Keeps = record {
  by_reserve = λ m bytes p. ground arith;
  by_record = λ m hash bytes h p. ground arith;
  by_init = λ m p. ground arith;
  by_limit = λ m p. ground arith;
  by_step = λ m below p. ground arith;
}

-- An execution that starts within its step allowance never counts more opcodes than that.
pub steps-le-max_steps :
    (hooks : List Hook) (i : CodeWitnessInspector)
    → All (IsSizedHook AnyCode) hooks
    → i.meter.steps ≤ i.meter.max_steps
    → (run_hooks hooks i).meter.steps ≤ (run_hooks hooks i).meter.max_steps
steps-le-max_steps = run_hooks-keeps AnyCode (λ m. m.steps ≤ m.max_steps) StepLimit-Keeps
