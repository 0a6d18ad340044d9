-- ===== src/Examples/Transitions.antt =====
-- A database of functions, in which the Feynman upgrade is applied.
use dogeos_reth.Prelude.{
  ℕ, ◌≡◌, ◌≢◌, refl, true, false, Option, none, some, List, [], ◌∷◌, Result, ok, ◌==◌,
  if◌then◌else◌, arith,
}
use dogeos_reth.Execution.Transitions.{
  AccountInfo, EvmStorageSlot, Account, EvmState, Database, Predeploys,
}
use dogeos_reth.Execution.Transitions
use dogeos_reth.Execution.Transitions.Write.{IsDatabase, read}
use dogeos_reth.Execution.Transitions.Once.{
  HasCode, AppliedOnce, feynman, apply_transition, Marked, address_of, info_of, writes_of,
  transitions_once,
}

abbrev State : Type 0
State = (ℕ → ℕ → ℕ) × (ℕ → Option AccountInfo)

abbrev value : ℕ → List (ℕ × EvmStorageSlot) → ℕ → ℕ
value slot [] old = old
value slot (entry ∷ entries) old =
    if entry.0 == slot then entry.1.present_value else value slot entries old

abbrev commit : State → EvmState → State
commit db [] = db
commit db ((address, account) ∷ more) =
    commit
      (
        λ a slot. if a == address then value slot account.storage (db.0 a slot) else db.0 a slot,
        λ a. if a == address then some account.info else db.1 a,
      )
      more

abbrev database : Database ℕ
database = record {
  D = State;
  storage = λ db address slot. ok (db.0 address slot);
  basic = λ db address. ok (db.1 address);
  commit = commit;
}

value-read :
    (slot : ℕ) (entries : List (ℕ × EvmStorageSlot)) (old : ℕ)
    → ◌≡◌ {A = Result ℕ ℕ} (ok (value slot entries old)) (read slot entries (ok old))
value-read slot [] old = refl
value-read slot (entry ∷ entries) old = ground (arith, value-read slot entries old)

equal_self : (n : ℕ) → (n == n) ≡ true
equal_self n = ground arith

not_equal : (a b : ℕ) → a ≢ b → (a == b) ≡ false
not_equal a b h = ground arith

database-IsDatabase : IsDatabase database 0
database-IsDatabase = record {
  storage-commit = λ db address account slot touched code.
      rw (equal_self address) (value-read slot account.storage (db.0 address slot));
  basic-commit = λ db address account touched code. rw (equal_self address) (refl);
  storage-commit_other =
      λ db address other account slot different. rw (not_equal other address different) (refl);
  basic-commit_other =
      λ db address other account different. rw (not_equal other address different) (refl);
}

abbrev predeploys : Predeploys
predeploys = record {
  feynman_l1_gas_price_oracle_bytecode = 1 ∷ [];
  galileo_v2_l1_gas_price_oracle_bytecode = 2 ∷ [];
  tsuki_native_doge_token_bytecode = 3 ∷ [];
  tsuki_native_doge_token_bytecode_hash = 99;
  native_doge_token_address = 0x530000000000000000000000000000000000d09e;
  keccak256 = λ code. 99;
  keccak_empty = 0;
}

predeploys-HasCode : HasCode database predeploys
predeploys-HasCode = record {
  feynman_code = λ h. omega arith;
  galileo_v2_code = λ h. omega arith;
  tsuki_code = λ h. omega arith;
}

abbrev before : State
before = (λ address slot. 0, λ address. none)

-- What the Feynman upgrade commits.
abbrev update : EvmState
update =
    (
      0x5300000000000000000000000000000000000002,
      record {
        original_info = record { balance = 0; nonce = 0; code_hash = 0; code = none };
        info = record { balance = 0; nonce = 0; code_hash = 99; code = some (1 ∷ []) };
        touched = true;
        storage =
            (9, record { original_value = 0; present_value = 1_000_000_000 })
            ∷ (10, record { original_value = 0; present_value = 1_000_000_000 })
            ∷ (11, record { original_value = 0; present_value = 1 })
            ∷ [];
      },
    )
    ∷ []

feynman_applies :
    apply_transition database predeploys feynman before ≡ ok (update, commit before update)
unfolding Transitions.apply_feynman_hard_fork Transitions.commit_account_update
    Transitions.write_slots
feynman_applies = refl

transitions_once_example :
    AppliedOnce database predeploys
      (apply_transition database predeploys feynman)
      (Marked database predeploys feynman)
      (address_of database predeploys feynman)
      (info_of database predeploys feynman)
      (writes_of database predeploys feynman)
      before
      update
      (commit before update)
transitions_once_example =
    transitions_once database predeploys database-IsDatabase predeploys-HasCode feynman before
      update (commit before update) feynman_applies
