-- ===== src/Execution/Transitions.antt =====
-- crates/dogeos-reth-evm/src/transitions/{mod, feynman, galileo_v2, tsuki}.rs with the slots of
-- gas_price_oracle.rs: the predeploys that the forks install. revm's database is a parameter, whose
-- reads change at most its cache; so are the bytecodes, keccak256 and the address of the token.
pub mod Write
pub mod Once
use dogeos_reth.Prelude.{
  ℕ, ◌*◌, ◌^◌, ◌≡◌, ◌≢◌, ◌||◌, Bool, true, false, not, Option, none, some, List, [], ◌∷◌, Result,
  ok, err, ◌>>=◌, ◌==◌, if◌then◌else◌,
}

pub record AccountInfo : Type 0 where
  pub balance : ℕ
  pub nonce : ℕ
  pub code_hash : ℕ
  pub code : Option (List ℕ)

pub record EvmStorageSlot : Type 0 where
  pub original_value : ℕ
  pub present_value : ℕ

pub record Account : Type 0 where
  pub original_info : AccountInfo
  pub info : AccountInfo
  pub touched : Bool
  pub storage : List (ℕ × EvmStorageSlot)

-- `EvmState`, of which the transitions fill one account at most.
abbrev pub EvmState : Type 0
EvmState = List (ℕ × Account)

-- `Database` and `DatabaseCommit`
pub record Database (X : Type 0) : Type 1 where
  pub D : Type 0
  pub storage : D → ℕ → ℕ → Result X ℕ
  pub basic : D → ℕ → Result X (Option AccountInfo)
  pub commit : D → EvmState → D

abbrev pub l1_gas_price_oracle_address : ℕ
l1_gas_price_oracle_address = 0x5300000000000000000000000000000000000002

abbrev pub gpo_penalty_threshold_slot : ℕ
gpo_penalty_threshold_slot = 9

abbrev pub gpo_penalty_factor_slot : ℕ
gpo_penalty_factor_slot = 10

abbrev pub gpo_is_feynman_slot : ℕ
gpo_is_feynman_slot = 11

abbrev pub gpo_is_galileo_slot : ℕ
gpo_is_galileo_slot = 12

abbrev pub initial_penalty_threshold : ℕ
initial_penalty_threshold = 1_000_000_000

abbrev pub initial_penalty_factor : ℕ
initial_penalty_factor = 1_000_000_000

-- IS_FEYNMAN and IS_GALILEO
abbrev pub is_set : ℕ
is_set = 1

abbrev pub feynman_l1_gas_price_oracle_storage : List (ℕ × ℕ)
feynman_l1_gas_price_oracle_storage =
    (gpo_penalty_threshold_slot, initial_penalty_threshold)
    ∷ (gpo_penalty_factor_slot, initial_penalty_factor)
    ∷ (gpo_is_feynman_slot, is_set)
    ∷ []

abbrev pub galileo_v2_l1_gas_price_oracle_storage : List (ℕ × ℕ)
galileo_v2_l1_gas_price_oracle_storage = (gpo_is_galileo_slot, is_set) ∷ []

-- The highest limb is 0x0080_0000_0000_0000.
abbrev pub tsuki_native_doge_token_total_supply : ℕ
tsuki_native_doge_token_total_supply = 0x0080_0000_0000_0000 * 2 ^ 192

abbrev pub tsuki_native_doge_token_storage : List (ℕ × ℕ)
tsuki_native_doge_token_storage = (0, tsuki_native_doge_token_total_supply) ∷ []

pub record Predeploys : Type 0 where
  pub feynman_l1_gas_price_oracle_bytecode : List ℕ
  pub galileo_v2_l1_gas_price_oracle_bytecode : List ℕ
  pub tsuki_native_doge_token_bytecode : List ℕ
  pub tsuki_native_doge_token_bytecode_hash : ℕ
  pub native_doge_token_address : ℕ
  pub keccak256 : List ℕ → ℕ
  pub keccak_empty : ℕ

-- `HashMap::insert` on an account's storage
abbrev pub insert_slot : ℕ → EvmStorageSlot → List (ℕ × EvmStorageSlot) → List (ℕ × EvmStorageSlot)
insert_slot slot change [] = (slot, change) ∷ []
insert_slot slot change (entry ∷ entries) =
    if entry.0 == slot then (slot, change) ∷ entries else entry ∷ insert_slot slot change entries

module _ {X : Type 0} (database : Database X) where
  open database use {D, storage, basic, commit}

  -- The loop of `commit_account_update`.
  unfoldable pub write_slots : D → ℕ → List (ℕ × ℕ) → Account → Result X Account
  write_slots db address [] account = ok account
  write_slots db address ((slot, present) ∷ slots) account = do
    original ← storage db address slot
    write_slots db address slots (record account {
      storage =
          insert_slot slot (record { original_value = original; present_value = present })
            account.storage;
    })

  -- The committed update and the database with it.
  unfoldable pub commit_account_update :
      D → ℕ → AccountInfo → AccountInfo → List (ℕ × ℕ) → Result X (EvmState × D)
  commit_account_update db address original_info new_info slots = do
    account ←
        write_slots db address slots
          (record { original_info = original_info; info = new_info; touched = true; storage = [] })
    ok ((address, account) ∷ [], commit db ((address, account) ∷ []))

  module _ (predeploys : Predeploys) where
    open predeploys use {
      feynman_l1_gas_price_oracle_bytecode, galileo_v2_l1_gas_price_oracle_bytecode,
      tsuki_native_doge_token_bytecode, tsuki_native_doge_token_bytecode_hash,
      native_doge_token_address, keccak256, keccak_empty,
    }

    -- `unwrap_or_default`
    abbrev pub or_default : Option AccountInfo → AccountInfo
    or_default none = record { balance = 0; nonce = 0; code_hash = keccak_empty; code = none }
    or_default (some info) = info

    -- The part of the two oracle upgrades behind their test.
    abbrev pub upgrade_oracle : D → List ℕ → List (ℕ × ℕ) → Result X (EvmState × D)
    upgrade_oracle db bytecode slots = do
      found ← basic db l1_gas_price_oracle_address
      let old_info = or_default found
      let new_info = record old_info { code_hash = keccak256 bytecode; code = some bytecode }
      commit_account_update db l1_gas_price_oracle_address old_info new_info slots

    unfoldable pub apply_feynman_hard_fork : D → Result X (EvmState × D)
    apply_feynman_hard_fork db = do
      applied ← storage db l1_gas_price_oracle_address gpo_is_feynman_slot
      if applied == is_set
          then ok ([], db)
          else upgrade_oracle db feynman_l1_gas_price_oracle_bytecode
              feynman_l1_gas_price_oracle_storage

    unfoldable pub apply_galileo_v2_hard_fork : D → Result X (EvmState × D)
    apply_galileo_v2_hard_fork db = do
      applied ← storage db l1_gas_price_oracle_address gpo_is_galileo_slot
      if applied == is_set
          then ok ([], db)
          else upgrade_oracle db galileo_v2_l1_gas_price_oracle_bytecode
              galileo_v2_l1_gas_price_oracle_storage

    abbrev pub install_token : D → AccountInfo → Result X (EvmState × D)
    install_token db old_info =
        commit_account_update db native_doge_token_address old_info
          (record old_info {
            nonce = 1;
            code_hash = tsuki_native_doge_token_bytecode_hash;
            code = some tsuki_native_doge_token_bytecode;
          })
          tsuki_native_doge_token_storage

    unfoldable pub apply_tsuki_hard_fork : D → Result X (EvmState × D)
    apply_tsuki_hard_fork db = do
      found ← basic db native_doge_token_address
      let old_info = or_default found
      if not (old_info.nonce == 0) || not (old_info.code_hash == keccak_empty)
          then ok ([], db)
          else install_token db old_info
