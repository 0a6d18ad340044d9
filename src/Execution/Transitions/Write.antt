-- ===== src/Execution/Transitions/Write.antt =====
-- What a committed update of an account changes.
use mathlib.Core.Path.{subst}
use dogeos_reth.Prelude.{
  ℕ, ◌≡◌, ◌≢◌, refl, sym, ap, ◌∙◌, true, some, List, [], ◌∷◌, Result, ok, ◌==◌, if◌then◌else◌, All,
  bind-ok, ok-injective, arith,
}
use dogeos_reth.Execution.Transitions.{
  AccountInfo, EvmStorageSlot, Account, EvmState, Database, insert_slot, write_slots,
  commit_account_update,
}

module _ {X : Type 0} where
  -- A slot's new value where an account's changes have one.
  abbrev pub read : ℕ → List (ℕ × EvmStorageSlot) → Result X ℕ → Result X ℕ
  read slot [] old = old
  read slot (entry ∷ entries) old =
      if entry.0 == slot then ok entry.1.present_value else read slot entries old

  -- A slot's value after the writes, the last of which counts.
  abbrev pub put : List (ℕ × ℕ) → ℕ → Result X ℕ → Result X ℕ
  put [] slot old = old
  put ((key, value) ∷ writes) slot old = put writes slot (if key == slot then ok value else old)

  read-insert_slot :
      (slot key : ℕ) (change : EvmStorageSlot) (entries : List (ℕ × EvmStorageSlot))
      (old : Result X ℕ)
      → read slot (insert_slot key change entries) old
        ≡ (if key == slot then ok change.present_value else read slot entries old)
  read-insert_slot slot key change [] old = refl
  read-insert_slot slot key change (entry ∷ entries) old =
      let rest = read-insert_slot slot key change entries old in ground (arith, rest)

  kept :
      (key slot value : ℕ) (old : Result X ℕ)
      → key ≢ slot
      → (if key == slot then ok value else old) ≡ old
  kept key slot value old h = ground arith

  pub put_other :
      (writes : List (ℕ × ℕ)) (slot : ℕ) (old : Result X ℕ)
      → All (λ w. w.0 ≢ slot) writes
      → put writes slot old ≡ old
  put_other [] slot old h = refl
  put_other ((key, value) ∷ writes) slot old h =
      ap (λ r. put writes slot r) (kept key slot value old h.0) ∙ put_other writes slot old h.1

module _ {X : Type 0} (database : Database X) where
  open database use {D, storage, basic, commit}

  -- A committed account that is touched and has code replaces its information and the slots that it
  -- changes; nothing else changes.
  pub record IsDatabase (keccak_empty : ℕ) : Type 0 where
    pub storage-commit :
        (db : D) (address : ℕ) (account : Account) (slot : ℕ)
        → account.touched ≡ true
        → account.info.code_hash ≢ keccak_empty
        → storage (commit db ((address, account) ∷ [])) address slot
          ≡ read slot account.storage (storage db address slot)
    pub basic-commit :
        (db : D) (address : ℕ) (account : Account)
        → account.touched ≡ true
        → account.info.code_hash ≢ keccak_empty
        → basic (commit db ((address, account) ∷ [])) address ≡ ok (some account.info)
    pub storage-commit_other :
        (db : D) (address other : ℕ) (account : Account) (slot : ℕ)
        → other ≢ address
        → storage (commit db ((address, account) ∷ [])) other slot ≡ storage db other slot
    pub basic-commit_other :
        (db : D) (address other : ℕ) (account : Account)
        → other ≢ address
        → basic (commit db ((address, account) ∷ [])) other ≡ basic db other

  write_slots-ok :
      (db : D) (address : ℕ) (writes : List (ℕ × ℕ)) (account account' : Account)
      → write_slots database db address writes account ≡ ok account'
      → (account'.touched ≡ account.touched)
        × (account'.info ≡ account.info)
        × ((slot : ℕ) (old : Result X ℕ)
            → read slot account'.storage old ≡ put writes slot (read slot account.storage old))
  unfolding write_slots
  write_slots-ok db address [] account account' h =
      subst
        (λ a.
          (a.touched ≡ account.touched)
          × (a.info ≡ account.info)
          × ((slot : ℕ) (old : Result X ℕ)
              → read slot a.storage old ≡ read slot account.storage old))
        (ok-injective account account' h) (refl, refl, λ slot old. refl)
  write_slots-ok db address ((key, value) ∷ writes) account account' h =
      let first = bind-ok (storage db address key) _ account' h in
      let rest = write_slots-ok db address writes _ account' first.2 in
      (
        rest.0,
        rest.1,
        λ slot old.
            rest.2 slot old
            ∙ ap (λ r. put writes slot r) (read-insert_slot slot key _ account.storage old),
      )

  -- An update of an account that succeeds: what is read afterwards.
  pub record Updated (db db' : D) (address : ℕ) (info : AccountInfo) (writes : List (ℕ × ℕ))
      : Type 0 where
    pub storage_there :
        (slot : ℕ) → storage db' address slot ≡ put writes slot (storage db address slot)
    pub info_there : basic db' address ≡ ok (some info)
    pub storage_other : (b slot : ℕ) → b ≢ address → storage db' b slot ≡ storage db b slot
    pub basic_other : (b : ℕ) → b ≢ address → basic db' b ≡ basic db b

  updated :
      (keccak_empty : ℕ) (laws : IsDatabase keccak_empty) (db : D) (address : ℕ)
      (info : AccountInfo) (writes : List (ℕ × ℕ)) (account : Account)
      → account.touched ≡ true
      → account.info ≡ info
      → ((slot : ℕ) (old : Result X ℕ) → read slot account.storage old ≡ put writes slot old)
      → info.code_hash ≢ keccak_empty
      → Updated db (commit db ((address, account) ∷ [])) address info writes
  updated keccak_empty laws db address info writes account touched same slots code =
      let code' = λ (e : account.info.code_hash ≡ keccak_empty).
        code (sym (ap (λ (i : AccountInfo). i.code_hash) same) ∙ e) in
      record {
        storage_there =
            λ slot. laws.storage-commit db address account slot touched code' ∙ slots slot _;
        info_there =
            laws.basic-commit db address account touched code' ∙ ap (λ i. ok (some i)) same;
        storage_other = λ b slot other. laws.storage-commit_other db address b account slot other;
        basic_other = λ b other. laws.basic-commit_other db address b account other;
      }

  pub update-ok :
      (keccak_empty : ℕ) (laws : IsDatabase keccak_empty) (db : D) (address : ℕ)
      (old_info info : AccountInfo) (writes : List (ℕ × ℕ)) (s : EvmState) (db' : D)
      → info.code_hash ≢ keccak_empty
      → commit_account_update database db address old_info info writes ≡ ok (s, db')
      → Updated db db' address info writes
  unfolding commit_account_update
  update-ok keccak_empty laws db address old_info info writes s db' code h =
      let written = bind-ok (write_slots database db address writes _) _ (s, db') h in
      let account = written.0 in
      let same = write_slots-ok db address writes _ account written.1 in
      let state = ok-injective _ (s, db') written.2 in
      subst (λ p. Updated db p.1 address info writes) state
        (updated keccak_empty laws db address info writes account same.0 same.1
          (λ slot old. same.2 slot old) code)
