-- ===== src/CodeWitness.antt =====
-- crates/dogeos-reth-evm/src/code_witness.rs: the meter of contract code in a candidate block. The
-- hash maps are association lists from code hashes to sizes; the handle's lock makes each
-- operation one step, so an operation is a function of the meter.
pub mod Union
pub mod Inspector
pub mod Keeps
pub mod Invariant
pub mod Budget
pub mod Rollback
use dogeos_reth.Prelude.{
  ℕ, Bool, true, false, Option, none, some, List, [], ◌∷◌, ◌||◌, ltb, ◌==◌, if◌then◌else◌, is_some,
  sat_add64,
}

pub data CodeWitnessLimit : Type 0 where
  code_bytes execution_steps : CodeWitnessLimit

-- `HashMap<B256, u64>`
abbrev pub Codes : Type 0
Codes = List (ℕ × ℕ)

unfoldable pub contains_key : ℕ → Codes → Bool
contains_key hash [] = false
contains_key hash (e ∷ codes) = e.0 == hash || contains_key hash codes

unfoldable pub insert : ℕ → ℕ → Codes → Codes
insert hash bytes [] = (hash, bytes) ∷ []
insert hash bytes (e ∷ codes) =
    if e.0 == hash then (hash, bytes) ∷ codes else e ∷ insert hash bytes codes

unfoldable pub extend : Codes → Codes → Codes
unfolding insert
extend codes [] = codes
extend codes (e ∷ more) = extend (insert e.0 e.1 codes) more

pub record Meter : Type 0 where
  pub max_code_bytes : ℕ
  pub max_steps : ℕ
  pub accepted : Codes
  pub pending : Codes
  pub accepted_bytes : ℕ
  pub pending_bytes : ℕ
  pub transaction_bytes : ℕ
  pub steps : ℕ
  pub exceeded : Option CodeWitnessLimit
  pub initialized : Bool

-- Option::get_or_insert
abbrev pub get_or_insert : Option CodeWitnessLimit → CodeWitnessLimit → Option CodeWitnessLimit
get_or_insert none limit = some limit
get_or_insert (some old) limit = some old

-- The test at the end of `reserve` and `record`.
abbrev pub check_bytes : Meter → Meter
check_bytes m = record m {
  exceeded =
      if ltb m.max_code_bytes (sat_add64 m.accepted_bytes m.pending_bytes)
      then get_or_insert m.exceeded code_bytes
      else m.exceeded;
}

unfoldable pub reserve : Meter → ℕ → Meter
reserve m bytes = check_bytes (record m {
  pending_bytes = sat_add64 m.pending_bytes bytes;
  transaction_bytes = sat_add64 m.transaction_bytes bytes;
})

-- `Meter::record`
unfoldable pub record_code : Meter → ℕ → ℕ → Meter
unfolding contains_key insert
record_code m hash bytes =
    if bytes == 0 || contains_key hash m.pending
    then m
    else check_bytes (record m {
      pending = insert hash bytes m.pending;
      transaction_bytes = sat_add64 m.transaction_bytes bytes;
      pending_bytes =
          if contains_key hash m.accepted then m.pending_bytes else sat_add64 m.pending_bytes bytes;
    })

unfoldable pub reset_transaction : Meter → Meter
reset_transaction m = record m {
  pending = [];
  pending_bytes = 0;
  transaction_bytes = 0;
  steps = 0;
  exceeded = none;
  initialized = false;
}

-- `CodeWitnessHandle::new`
unfoldable pub new : ℕ → ℕ → Meter
new max_code_bytes max_steps = record {
  max_code_bytes = max_code_bytes;
  max_steps = max_steps;
  accepted = [];
  pending = [];
  accepted_bytes = 0;
  pending_bytes = 0;
  transaction_bytes = 0;
  steps = 0;
  exceeded = none;
  initialized = false;
}

unfoldable pub begin_transaction : Meter → Meter
unfolding reset_transaction
begin_transaction m = reset_transaction m

unfoldable pub accept_transaction : Meter → Meter × Bool
unfolding extend
accept_transaction m = if is_some m.exceeded then (m, false) else (
  record m {
    pending = [];
    accepted = extend m.accepted m.pending;
    accepted_bytes = sat_add64 m.accepted_bytes m.pending_bytes;
    pending_bytes = 0;
  },
  true,
)

unfoldable pub reject_transaction : Meter → Meter
unfolding reset_transaction
reject_transaction m = reset_transaction m

unfoldable pub candidate_code_bytes : Meter → ℕ
candidate_code_bytes m = sat_add64 m.accepted_bytes m.pending_bytes
