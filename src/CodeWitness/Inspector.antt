-- ===== src/CodeWitness/Inspector.antt =====
-- `CodeWitnessInspector` of crates/dogeos-reth-evm/src/code_witness.rs. The journal state that a
-- hook reads is a list of accounts with their loaded code; what a hook does to the interpreter is
-- the flag that tells whether it stopped it.
use dogeos_reth.Prelude.{
  ℕ, ◌%◌, ◌^◌, Bool, true, false, Option, none, some, List, [], ◌∷◌, ◌==◌, leb, if◌then◌else◌,
  is_some, get_elem?, sat_add64, sat_mul64,
}
use dogeos_reth.CodeWitness.{Meter, execution_steps, get_or_insert, reserve, record_code}

pub record LoadedCode : Type 0 where
  pub code_hash : ℕ
  pub original_len : ℕ
  pub eip7702_address : Option ℕ

pub record JournalAccount : Type 0 where
  pub address : ℕ
  pub code : Option LoadedCode

abbrev pub EvmState : Type 0
EvmState = List JournalAccount

-- What the hooks read of the EVM context.
pub record Context : Type 0 where
  pub authorization_list_len : ℕ
  pub evm_state : EvmState

pub record CodeWitnessInspector : Type 0 where
  pub meter : Meter
  pub pending_access : Option (ℕ × Bool)

unfoldable pub get : ℕ → EvmState → Option JournalAccount
get address [] = none
get address (account ∷ state) =
    if account.address == address then some account else get address state

abbrev pub record_loaded : Option LoadedCode → Meter → Meter
record_loaded none m = m
record_loaded (some code) m = record_code m code.code_hash code.original_len

unfoldable pub record_accounts : EvmState → Meter → Meter
record_accounts [] m = m
record_accounts (account ∷ state) m = record_accounts state (record_loaded account.code m)

unfoldable pub initial_codes : Context → Meter → Meter
unfolding record_accounts
initial_codes context m =
    if m.initialized
    then m
    else record_accounts context.evm_state
        (reserve (record m { initialized = true }) (sat_mul64 context.authorization_list_len 23))

-- The code that a delegation points to, if it is loaded.
abbrev pub record_target : EvmState → Option ℕ → Meter → Meter
record_target state none m = m
record_target state (some target) m = elim (get target state) [
  | none ↦ m
  | some account ↦ record_loaded account.code m
]

abbrev pub record_delegated : EvmState → Bool → Option LoadedCode → Meter → Meter
record_delegated state delegated none m = m
record_delegated state delegated (some code) m =
    let counted = record_code m code.code_hash code.original_len in
    if delegated then record_target state code.eip7702_address counted else counted

unfoldable pub account_code : Context → ℕ → Bool → Meter → Meter
unfolding get
account_code context address delegated m = elim (get address context.evm_state) [
  | none ↦ m
  | some account ↦ record_delegated context.evm_state delegated account.code m
]

pub data Opcode : Type 0 where
  extcodesize extcodecopy call callcode delegatecall staticcall other : Opcode

-- `Address::from_word` keeps the low twenty bytes.
abbrev pub from_word : ℕ → ℕ
from_word word = word % 2 ^ 160

abbrev pub peek_access : Option ℕ → Bool → Option (ℕ × Bool)
peek_access none delegated = none
peek_access (some word) delegated = some (from_word word, delegated)

unfoldable pub access_of : Opcode → List ℕ → Option (ℕ × Bool)
access_of extcodesize stack = peek_access (get_elem? stack 0) false
access_of extcodecopy stack = peek_access (get_elem? stack 0) false
access_of call stack = peek_access (get_elem? stack 1) true
access_of callcode stack = peek_access (get_elem? stack 1) true
access_of delegatecall stack = peek_access (get_elem? stack 1) true
access_of staticcall stack = peek_access (get_elem? stack 1) true
access_of other stack = none

abbrev pub limit_steps : Meter → Meter
limit_steps m = record m {
  exceeded =
      if leb m.max_steps m.steps then get_or_insert m.exceeded execution_steps else m.exceeded;
}

abbrev pub Hooked : Type 0
Hooked = CodeWitnessInspector × Bool

abbrev pub with_meter : CodeWitnessInspector → Meter → CodeWitnessInspector
with_meter i m = record i { meter = m }

-- `stop_if_exceeded`
abbrev pub stop_if_exceeded : CodeWitnessInspector → Hooked
stop_if_exceeded i = (i, is_some i.meter.exceeded)

-- The interpreter's code, of the hash and the length given, may be that of a delegation's target.
unfoldable pub initialize_interp : Context → Option ℕ → ℕ → ℕ → CodeWitnessInspector → Hooked
unfolding initial_codes account_code
initialize_interp context none hash bytes i =
    stop_if_exceeded (with_meter i (initial_codes context i.meter))
initialize_interp context (some address) hash bytes i = stop_if_exceeded (
    with_meter i
      (record_code (account_code context address true (initial_codes context i.meter)) hash bytes))

unfoldable pub step : Opcode → List ℕ → CodeWitnessInspector → Hooked
unfolding access_of
step opcode stack i =
    let m = limit_steps i.meter in
    if is_some m.exceeded then (with_meter i m, true) else (
      record {
        meter = record m { steps = sat_add64 m.steps 1 };
        pending_access = access_of opcode stack;
      },
      false,
    )

abbrev pub record_access : Context → Option (ℕ × Bool) → Meter → Meter
record_access context none m = m
record_access context (some (address, delegated)) m = account_code context address delegated m

unfoldable pub step_end : Context → CodeWitnessInspector → Hooked
unfolding account_code
step_end context i =
    stop_if_exceeded
      (record { meter = record_access context i.pending_access i.meter; pending_access = none })

-- `Inspector::call`, at the address of the called code
unfoldable pub call_hook : Context → ℕ → CodeWitnessInspector → Hooked
unfolding initial_codes account_code
call_hook context address i =
    (with_meter i (account_code context address true (initial_codes context i.meter)), false)

unfoldable pub call_end : Context → ℕ → CodeWitnessInspector → Hooked
unfolding account_code
call_end context address i = (with_meter i (account_code context address true i.meter), false)

unfoldable pub create_hook : Context → CodeWitnessInspector → Hooked
unfolding initial_codes
create_hook context i = (with_meter i (initial_codes context i.meter), false)

-- `is_ok` is whether the creation succeeded.
unfoldable pub create_end : Context → Bool → Option ℕ → CodeWitnessInspector → Hooked
unfolding account_code
create_end context is_ok none i = (i, false)
create_end context is_ok (some address) i =
    (if is_ok then with_meter i (account_code context address false i.meter) else i, false)

-- The calls that the EVM makes of the inspector.
pub data Hook : Type 0 where
  on_initialize_interp : Context → Option ℕ → ℕ → ℕ → Hook
  on_step : Opcode → List ℕ → Hook
  on_step_end : Context → Hook
  on_call on_call_end : Context → ℕ → Hook
  on_create : Context → Hook
  on_create_end : Context → Bool → Option ℕ → Hook

unfoldable pub run_hook : Hook → CodeWitnessInspector → Hooked
unfolding initialize_interp step step_end call_hook call_end create_hook create_end
run_hook (on_initialize_interp context address hash bytes) i =
    initialize_interp context address hash bytes i
run_hook (on_step opcode stack) i = step opcode stack i
run_hook (on_step_end context) i = step_end context i
run_hook (on_call context address) i = call_hook context address i
run_hook (on_call_end context address) i = call_end context address i
run_hook (on_create context) i = create_hook context i
run_hook (on_create_end context is_ok address) i = create_end context is_ok address i

-- A transaction's execution, as the inspector sees it.
unfoldable pub run_hooks : List Hook → CodeWitnessInspector → CodeWitnessInspector
unfolding run_hook
run_hooks [] i = i
run_hooks (hook ∷ hooks) i = run_hooks hooks (run_hook hook i).0
