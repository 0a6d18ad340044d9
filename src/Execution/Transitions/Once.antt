-- ===== src/Execution/Transitions/Once.antt =====
-- The transitions and what they leave in the database.
use mathlib.Core.Path.{subst}
use dogeos_reth.Prelude.{
  ℕ, ◌≡◌, ◌≢◌, ◌⊎◌, false, none, sym, refl, ap, ◌∙◌, inl, inr, true, not, ◌||◌, Option, some, List,
  [], ◌∷◌, Result, ok, ◌>>=◌, ◌==◌, if◌then◌else◌, All, bind-ok, ok-injective, Bool-cases, arith,
}
use dogeos_reth.Execution.Transitions.{
  AccountInfo, EvmState, Database, Predeploys, upgrade_oracle, apply_feynman_hard_fork,
  apply_galileo_v2_hard_fork, apply_tsuki_hard_fork, or_default, l1_gas_price_oracle_address,
  gpo_is_feynman_slot, gpo_is_galileo_slot, is_set, feynman_l1_gas_price_oracle_storage,
  galileo_v2_l1_gas_price_oracle_storage, tsuki_native_doge_token_storage,
}
use dogeos_reth.Execution.Transitions.Write.{put, put_other, IsDatabase, Updated, update-ok}

module _ {X : Type 0} (database : Database X) where
  open database use {D, storage, basic, commit}

  module _ (predeploys : Predeploys) where
    open predeploys use {
      feynman_l1_gas_price_oracle_bytecode, galileo_v2_l1_gas_price_oracle_bytecode,
      tsuki_native_doge_token_bytecode, tsuki_native_doge_token_bytecode_hash,
      native_doge_token_address, keccak256, keccak_empty,
    }

    -- What a transition guarantees, for `Marked`, which tells a database that has the transition, and
    -- `info_of`, the account that it installs over an old one.
    pub record AppliedOnce (apply : D → Result X (EvmState × D)) (Marked : D → Type 0) (address : ℕ)
        (info_of : AccountInfo → AccountInfo) (writes : List (ℕ × ℕ)) (db : D) (s : EvmState)
        (db' : D) : Type 0 where
      -- wherever the mark is, to apply the transition changes nothing
      pub again : (later : D) → Marked later → apply later ≡ ok ([], later)
      pub marked : Marked db'
      -- nothing changes if the mark was there, otherwise the account is installed and the slots are
      -- written
      pub effect :
          (Marked db × (s ≡ []) × (db' ≡ db))
          ⊎ (¬ Marked db
              × ((found : Option AccountInfo) × (basic db address ≡ ok found)
                  × (basic db' address
                      ≡ ok (some (info_of (or_default database predeploys found)))))
              × All (λ w. storage db' address w.0 ≡ ok w.1) writes)
      pub storage_other : (b slot : ℕ) → b ≢ address → storage db' b slot ≡ storage db b slot
      pub basic_other : (b : ℕ) → b ≢ address → basic db' b ≡ basic db b
      pub slot_other :
          (slot : ℕ)
          → All (λ w. w.0 ≢ slot) writes
          → storage db' address slot ≡ storage db address slot

    module _ (apply : D → Result X (EvmState × D)) (Marked : D → Type 0) (address : ℕ)
        (info_of : AccountInfo → AccountInfo) (writes : List (ℕ × ℕ))
        (after : (later : D) → Marked later → apply later ≡ ok ([], later)) where
      applied_before :
          (db : D) (s : EvmState) (db' : D)
          → Marked db
          → ◌≡◌ {A = Result X (EvmState × D)} (ok ([], db)) (ok (s, db'))
          → AppliedOnce apply Marked address info_of writes db s db'
      applied_before db s db' there h =
          subst (λ p. AppliedOnce apply Marked address info_of writes db p.0 p.1)
            (ok-injective ([], db) (s, db') h)
            (record {
              again = after;
              marked = there;
              effect = inl (there, refl, refl);
              storage_other = λ b slot other. refl;
              basic_other = λ b other. refl;
              slot_other = λ slot others. refl;
            })

      applied_now :
          (db : D) (s : EvmState) (db' : D) (found : Option AccountInfo)
          → basic db address ≡ ok found
          → ¬ Marked db
          → Marked db'
          → Updated database db db' address (info_of (or_default database predeploys found)) writes
          → All (λ w. storage db' address w.0 ≡ ok w.1) writes
          → AppliedOnce apply Marked address info_of writes db s db'
      applied_now db s db' found e fresh there u written = record {
        again = after;
        marked = there;
        effect = inr (fresh, (found, e, u.info_there), written);
        storage_other = u.storage_other;
        basic_other = u.basic_other;
        slot_other = λ slot others.
            u.storage_there slot ∙ put_other writes slot (storage db address slot) others;
      }

    -- The oracle keeps its balance and nonce.
    abbrev pub oracle_info : List ℕ → AccountInfo → AccountInfo
    oracle_info bytecode old = record {
      balance = old.balance;
      nonce = old.nonce;
      code_hash = keccak256 bytecode;
      code = some bytecode;
    }

    -- The token keeps its balance.
    abbrev pub token_info : AccountInfo → AccountInfo
    token_info old = record {
      balance = old.balance;
      nonce = 1;
      code_hash = tsuki_native_doge_token_bytecode_hash;
      code = some tsuki_native_doge_token_bytecode;
    }

    -- The flag in the oracle's storage.
    abbrev pub HasFlag : ℕ → D → Type 0
    HasFlag slot db = storage db l1_gas_price_oracle_address slot ≡ ok is_set

    -- The token's account has been used or has code.
    abbrev pub HasToken : D → Type 0
    HasToken db =
        (info : AccountInfo) × (basic db native_doge_token_address ≡ ok (some info))
        × ((info.nonce ≢ 0) ⊎ (info.code_hash ≢ keccak_empty))

    upgrade-ok :
        (laws : IsDatabase database keccak_empty) (db : D) (bytecode : List ℕ)
        (writes : List (ℕ × ℕ)) (s : EvmState) (db' : D)
        → keccak256 bytecode ≢ keccak_empty
        → upgrade_oracle database predeploys db bytecode writes ≡ ok (s, db')
        → (found : Option AccountInfo) × (basic db l1_gas_price_oracle_address ≡ ok found)
          × Updated database db db' l1_gas_price_oracle_address
              (oracle_info bytecode (or_default database predeploys found))
              writes
    upgrade-ok laws db bytecode writes s db' code h =
        let (found, e, h1) = bind-ok (basic db l1_gas_price_oracle_address) _ (s, db') h in
        (found, e, update-ok database keccak_empty laws db _ _ _ writes s db' code h1)

    -- Each write is the last one to its slot.
    abbrev Lasting : List (ℕ × ℕ) → Type 0
    Lasting writes = All (λ w. (old : Result X ℕ) → put writes w.0 old ≡ ok w.1) writes

    all_written :
        (db db' : D) (address : ℕ) (info : AccountInfo) (writes some_writes : List (ℕ × ℕ))
        → Updated database db db' address info writes
        → All (λ w. (old : Result X ℕ) → put writes w.0 old ≡ ok w.1) some_writes
        → All (λ w. storage db' address w.0 ≡ ok w.1) some_writes
    all_written db db' address info writes [] u h = tt
    all_written db db' address info writes ((slot, value) ∷ more) u h =
        (u.storage_there slot ∙ h.0 _, all_written db db' address info writes more u h.1)

    -- The shape of the two oracle upgrades.
    abbrev apply_oracle : ℕ → List ℕ → List (ℕ × ℕ) → D → Result X (EvmState × D)
    apply_oracle slot bytecode writes db = do
      applied ← storage db l1_gas_price_oracle_address slot
      if applied == is_set
          then ok ([], db)
          else upgrade_oracle database predeploys db bytecode writes

    oracle_after :
        (slot : ℕ) (bytecode : List ℕ) (writes : List (ℕ × ℕ)) (db : D)
        → HasFlag slot db
        → apply_oracle slot bytecode writes db ≡ ok ([], db)
    oracle_after slot bytecode writes db h = rw h

    oracle_once :
        (laws : IsDatabase database keccak_empty) (slot : ℕ) (bytecode : List ℕ)
        (writes : List (ℕ × ℕ)) (db : D) (s : EvmState) (db' : D)
        → keccak256 bytecode ≢ keccak_empty
        → Lasting writes
        → ((old : Result X ℕ) → put writes slot old ≡ ok is_set)
        → apply_oracle slot bytecode writes db ≡ ok (s, db')
        → AppliedOnce
            (apply_oracle slot bytecode writes)
            (HasFlag slot)
            l1_gas_price_oracle_address
            (oracle_info bytecode)
            writes
            db
            s
            db'
    oracle_once laws slot bytecode writes db s db' code lasting flag h =
        let (applied, e, h1) = bind-ok (storage db l1_gas_price_oracle_address slot) _ (s, db') h in
        elim (Bool-cases (applied == is_set)) [
          | inl done ↦
              let same : applied ≡ is_set = ground arith in
              applied_before _ (HasFlag slot) l1_gas_price_oracle_address (oracle_info bytecode)
                writes (oracle_after slot bytecode writes) db s db' (e ∙ ap (λ n. ok n) same)
                (rw done at h1)
          | inr fresh ↦
              let (found, e', u) = upgrade-ok laws db bytecode writes s db' code (rw fresh at h1) in
              applied_now _ (HasFlag slot) l1_gas_price_oracle_address (oracle_info bytecode) writes
                (oracle_after slot bytecode writes) db s db' found e'
                (λ there. let same = ok-injective applied is_set (sym e ∙ there) in ground arith)
                (u.storage_there slot ∙ flag _) u (all_written db db' _ _ writes writes u lasting)
        ]

    tsuki_after :
        (db : D) → HasToken db → apply_tsuki_hard_fork database predeploys db ≡ ok ([], db)
    unfolding apply_tsuki_hard_fork
    tsuki_after db (info, e, used) =
        let there : (not (info.nonce == 0) || not (info.code_hash == keccak_empty)) ≡ true =
          ground arith in
        rw (e, there) refl

    tsuki_used :
        (db : D) (found : Option AccountInfo)
        → basic db native_doge_token_address ≡ ok found
        → (not ((or_default database predeploys found).nonce == 0)
            || not ((or_default database predeploys found).code_hash == keccak_empty))
          ≡ true
        → HasToken db
    tsuki_used db none e used = ground arith
    tsuki_used db (some info) e used = (
      info,
      e,
      elim (Bool-cases (info.nonce == 0)) [
        | inl zero_nonce ↦ inr (λ empty. ground arith)
        | inr other ↦ inl (λ zero_nonce. ground arith)
      ],
    )

    tsuki_unused :
        (db : D) (found : Option AccountInfo)
        → basic db native_doge_token_address ≡ ok found
        → (not ((or_default database predeploys found).nonce == 0)
            || not ((or_default database predeploys found).code_hash == keccak_empty))
          ≡ false
        → ¬ HasToken db
    tsuki_unused db none e fresh (info, e', used) = let both = sym e ∙ e' in cc
    tsuki_unused db (some old) e fresh (info, e', used) =
        let both = ok-injective _ _ (sym e ∙ e') in
        let same : old ≡ info = cc in
        let used' =
          subst (λ (i : AccountInfo). (i.nonce ≢ 0) ⊎ (i.code_hash ≢ keccak_empty)) (sym same)
            used in
        ground arith

    tsuki_once :
        (laws : IsDatabase database keccak_empty) (db : D) (s : EvmState) (db' : D)
        → tsuki_native_doge_token_bytecode_hash ≢ keccak_empty
        → apply_tsuki_hard_fork database predeploys db ≡ ok (s, db')
        → AppliedOnce
            (apply_tsuki_hard_fork database predeploys)
            HasToken
            native_doge_token_address
            token_info
            tsuki_native_doge_token_storage
            db
            s
            db'
    unfolding apply_tsuki_hard_fork
    tsuki_once laws db s db' code h =
        let (found, e, h1) = bind-ok (basic db native_doge_token_address) _ (s, db') h in
        let old = or_default database predeploys found in
        elim (Bool-cases (not (old.nonce == 0) || not (old.code_hash == keccak_empty))) [
          | inl there ↦
              applied_before _ HasToken native_doge_token_address token_info
                tsuki_native_doge_token_storage tsuki_after db s db' (tsuki_used db found e there)
                (rw there at h1)
          | inr fresh ↦
              let u =
                update-ok database keccak_empty laws db native_doge_token_address old _
                  tsuki_native_doge_token_storage s db' code (rw fresh at h1) in
              applied_now _ HasToken native_doge_token_address token_info
                tsuki_native_doge_token_storage tsuki_after db s db' found e
                (tsuki_unused db found e fresh) (_, u.info_there, inl (λ z. omega arith)) u
                (all_written db db' _ _ _ tsuki_native_doge_token_storage u (λ r. refl, tt))
        ]

    -- The bytecodes are not empty, as their hashes show.
    pub record HasCode : Type 0 where
      pub feynman_code : keccak256 feynman_l1_gas_price_oracle_bytecode ≢ keccak_empty
      pub galileo_v2_code : keccak256 galileo_v2_l1_gas_price_oracle_bytecode ≢ keccak_empty
      pub tsuki_code : tsuki_native_doge_token_bytecode_hash ≢ keccak_empty

    pub data Transition : Type 0 where
      feynman galileo_v2 tsuki : Transition

    abbrev pub apply_transition : Transition → D → Result X (EvmState × D)
    apply_transition feynman db = apply_feynman_hard_fork database predeploys db
    apply_transition galileo_v2 db = apply_galileo_v2_hard_fork database predeploys db
    apply_transition tsuki db = apply_tsuki_hard_fork database predeploys db

    -- A database that has the transition: the flag of an oracle upgrade, the token's account.
    abbrev pub Marked : Transition → D → Type 0
    Marked feynman = HasFlag gpo_is_feynman_slot
    Marked galileo_v2 = HasFlag gpo_is_galileo_slot
    Marked tsuki = HasToken

    abbrev pub address_of : Transition → ℕ
    address_of feynman = l1_gas_price_oracle_address
    address_of galileo_v2 = l1_gas_price_oracle_address
    address_of tsuki = native_doge_token_address

    abbrev pub info_of : Transition → AccountInfo → AccountInfo
    info_of feynman = oracle_info feynman_l1_gas_price_oracle_bytecode
    info_of galileo_v2 = oracle_info galileo_v2_l1_gas_price_oracle_bytecode
    info_of tsuki = token_info

    abbrev pub writes_of : Transition → List (ℕ × ℕ)
    writes_of feynman = feynman_l1_gas_price_oracle_storage
    writes_of galileo_v2 = galileo_v2_l1_gas_price_oracle_storage
    writes_of tsuki = tsuki_native_doge_token_storage

    -- Each of the three transitions, where it succeeds, leaves its mark: the flag of an oracle upgrade,
    -- or a token account with a nonce or code. At any database that has the mark, a later block's
    -- included, to apply it again changes nothing. Where the mark was there before, nothing was
    -- committed; otherwise the predeploy has the fork's code with its hash and keeps its balance, the
    -- oracle keeps its nonce and the token's is one, and the written slots have their values. No
    -- other account and no other slot of the predeploy has changed.
    pub transitions_once :
        IsDatabase database keccak_empty
        → HasCode
        → (t : Transition) (db : D) (s : EvmState) (db' : D) → apply_transition t db ≡ ok (s, db')
        → AppliedOnce
            (apply_transition t)
            (Marked t)
            (address_of t)
            (info_of t)
            (writes_of t)
            db
            s
            db'
    unfolding apply_feynman_hard_fork apply_galileo_v2_hard_fork
    transitions_once laws code feynman db s db' h =
        oracle_once laws gpo_is_feynman_slot feynman_l1_gas_price_oracle_bytecode
          feynman_l1_gas_price_oracle_storage db s db' code.feynman_code
          (λ old. refl, (λ old. refl, (λ old. refl, tt))) (λ old. refl) h
    transitions_once laws code galileo_v2 db s db' h =
        oracle_once laws gpo_is_galileo_slot galileo_v2_l1_gas_price_oracle_bytecode
          galileo_v2_l1_gas_price_oracle_storage db s db' code.galileo_v2_code (λ old. refl, tt)
          (λ old. refl) h
    transitions_once laws code tsuki db s db' h = tsuki_once laws db s db' code.tsuki_code h
