-- ===== src/CodeWitness/Keeps.antt =====
-- Predicates of the meter, update by update and over the inspector's hooks.
use mathlib.Core.Path.{subst}
use dogeos_reth.Prelude.{
  ◌==◌, ℕ, ◌<◌, ◌≡◌, refl, Bool, true, false, Option, none, some, List, [], ◌∷◌, if◌then◌else◌, leb,
  arith, All, sat_add64, sat_mul64, Bool-cases, Option-cases, inl, inr, is_some,
}
use dogeos_reth.CodeWitness.{Meter, execution_steps, get_or_insert, reserve, record_code}
use dogeos_reth.CodeWitness.Inspector.{
  Opcode, LoadedCode, JournalAccount, EvmState, Context, CodeWitnessInspector, Hook,
  on_initialize_interp, on_step, on_step_end, on_call, on_call_end, on_create, on_create_end, get,
  record_loaded, record_target, record_delegated, record_access, limit_steps, Hooked,
  record_accounts, initial_codes, account_code, step, run_hook, run_hooks,
}

-- `Sized hash bytes` is what is known of a code that is recorded.
pub record Keeps (Sized : ℕ → ℕ → Type 0) (P : Meter → Type 0) : Type 0 where
  pub by_reserve : (m : Meter) (bytes : ℕ) → P m → P (reserve m bytes)
  pub by_record :
      (m : Meter) (hash bytes : ℕ) → Sized hash bytes → P m → P (record_code m hash bytes)
  pub by_init : (m : Meter) → P m → P (record m { initialized = true })
  pub by_limit :
      (m : Meter) → P m → P (record m { exceeded = get_or_insert m.exceeded execution_steps })
  pub by_step :
      (m : Meter) → m.steps < m.max_steps → P m → P (record m { steps = sat_add64 m.steps 1 })

module _ (Sized : ℕ → ℕ → Type 0) where
  abbrev pub IsSizedCode : Option LoadedCode → Type 0
  IsSizedCode none = Unit
  IsSizedCode (some code) = Sized code.code_hash code.original_len

  abbrev pub IsSizedState : EvmState → Type 0
  IsSizedState = All (λ account. IsSizedCode account.code)

  -- All the code that a hook may read is sized.
  abbrev pub IsSizedHook : Hook → Type 0
  IsSizedHook (on_initialize_interp context address hash bytes) =
      IsSizedState context.evm_state × Sized hash bytes
  IsSizedHook (on_step opcode stack) = Unit
  IsSizedHook (on_step_end context) = IsSizedState context.evm_state
  IsSizedHook (on_call context address) = IsSizedState context.evm_state
  IsSizedHook (on_call_end context address) = IsSizedState context.evm_state
  IsSizedHook (on_create context) = IsSizedState context.evm_state
  IsSizedHook (on_create_end context is_ok address) = IsSizedState context.evm_state

  IsSizedCode-get :
      (address : ℕ) (state : EvmState) (account : JournalAccount)
      → IsSizedState state
      → get address state ≡ some account
      → IsSizedCode account.code
  unfolding get
  IsSizedCode-get address [] account h e = cc
  IsSizedCode-get address (a ∷ state) account h e = elim (Bool-cases (a.address == address)) [
    | inl same ↦ let found : a ≡ account = ground arith in subst (λ x. IsSizedCode x.code) found h.0
    | inr other ↦ IsSizedCode-get address state account h.1 (rw other at e)
  ]

  module _ (P : Meter → Type 0) (k : Keeps Sized P) where
    if_keeps :
        (b : Bool) {x y : Meter} → (b ≡ true → P x) → (b ≡ false → P y) → P (if b then x else y)
    if_keeps true px py = px refl
    if_keeps false px py = py refl

    hooked_keeps :
        (b : Bool) (x y : Hooked)
        → (b ≡ true → P x.0.meter)
        → (b ≡ false → P y.0.meter)
        → P (if b then x else y).0.meter
    hooked_keeps true x y px py = px refl
    hooked_keeps false x y px py = py refl

    loaded_keeps :
        (code : Option LoadedCode) (m : Meter) → IsSizedCode code → P m → P (record_loaded code m)
    loaded_keeps none m h p = p
    loaded_keeps (some code) m h p = k.by_record m code.code_hash code.original_len h p

    accounts_keeps :
        (state : EvmState) (m : Meter) → IsSizedState state → P m → P (record_accounts state m)
    unfolding record_accounts
    accounts_keeps [] m h p = p
    accounts_keeps (a ∷ state) m h p =
        accounts_keeps state (record_loaded a.code m) h.1 (loaded_keeps a.code m h.0 p)

    initial_keeps :
        (context : Context) (m : Meter)
        → IsSizedState context.evm_state
        → P m
        → P (initial_codes context m)
    unfolding initial_codes
    initial_keeps context m h p =
        if_keeps m.initialized (λ _. p)
          (λ _. accounts_keeps context.evm_state _ h (
            k.by_reserve (record m { initialized = true })
              (sat_mul64 context.authorization_list_len 23) (k.by_init m p)))

    target_keeps :
        (state : EvmState) (target : Option ℕ) (m : Meter)
        → IsSizedState state
        → P m
        → P (record_target state target m)
    target_keeps state none m h p = p
    target_keeps state (some target) m h p = elim (Option-cases (get target state)) [
      | inl e ↦ rw (e, record_target) p
      | inr (account, e) ↦
          rw (e, record_target)
            (loaded_keeps account.code m (IsSizedCode-get target state account h e) p)
    ]

    delegated_keeps :
        (state : EvmState) (delegated : Bool) (code : Option LoadedCode) (m : Meter)
        → IsSizedState state
        → IsSizedCode code
        → P m
        → P (record_delegated state delegated code m)
    delegated_keeps state delegated none m h c p = p
    delegated_keeps state true (some code) m h c p =
        target_keeps state code.eip7702_address (record_code m code.code_hash code.original_len) h
          (k.by_record m code.code_hash code.original_len c p)
    delegated_keeps state false (some code) m h c p =
        k.by_record m code.code_hash code.original_len c p

    account_keeps :
        (context : Context) (address : ℕ) (delegated : Bool) (m : Meter)
        → IsSizedState context.evm_state
        → P m
        → P (account_code context address delegated m)
    unfolding account_code
    account_keeps context address delegated m h p =
        elim (Option-cases (get address context.evm_state)) [
          | inl e ↦ rw (e, account_code) p
          | inr (account, e) ↦
              rw (e, account_code)
                (delegated_keeps context.evm_state delegated account.code m h
                  (IsSizedCode-get address context.evm_state account h e) p)
        ]

    access_keeps :
        (context : Context) (access : Option (ℕ × Bool)) (m : Meter)
        → IsSizedState context.evm_state
        → P m
        → P (record_access context access m)
    access_keeps context none m h p = p
    access_keeps context (some (address, delegated)) m h p =
        account_keeps context address delegated m h p

    limit_keeps : (m : Meter) → P m → P (limit_steps m)
    limit_keeps m p = elim (Bool-cases (leb m.max_steps m.steps)) [
      | inl e ↦ rw e (k.by_limit m p)
      | inr e ↦ rw e p
    ]

    step_keeps :
        (opcode : Opcode) (stack : List ℕ) (i : CodeWitnessInspector)
        → P i.meter
        → P (step opcode stack i).0.meter
    unfolding step
    step_keeps opcode stack i p =
        hooked_keeps (is_some (limit_steps i.meter).exceeded) _ _ (λ _. limit_keeps i.meter p)
          (λ e.
            let below : i.meter.steps < i.meter.max_steps = ground arith in
            k.by_step (limit_steps i.meter) below (limit_keeps i.meter p))

    -- Every hook keeps what the updates of the meter keep.
    pub run_hook-keeps :
        (hook : Hook) (i : CodeWitnessInspector)
        → IsSizedHook hook
        → P i.meter
        → P (run_hook hook i).0.meter
    unfolding run_hook
    run_hook-keeps (on_initialize_interp context none hash bytes) i h p =
        initial_keeps context i.meter h.0 p
    run_hook-keeps (on_initialize_interp context (some address) hash bytes) i h p =
        k.by_record _ hash bytes h.1
          (account_keeps context address true _ h.0 (initial_keeps context i.meter h.0 p))
    run_hook-keeps (on_step opcode stack) i h p = step_keeps opcode stack i p
    run_hook-keeps (on_step_end context) i h p = access_keeps context i.pending_access i.meter h p
    run_hook-keeps (on_call context address) i h p =
        account_keeps context address true _ h (initial_keeps context i.meter h p)
    run_hook-keeps (on_call_end context address) i h p =
        account_keeps context address true i.meter h p
    run_hook-keeps (on_create context) i h p = initial_keeps context i.meter h p
    run_hook-keeps (on_create_end context true none) i h p = p
    run_hook-keeps (on_create_end context false none) i h p = p
    run_hook-keeps (on_create_end context true (some address)) i h p =
        account_keeps context address false i.meter h p
    run_hook-keeps (on_create_end context false (some address)) i h p = p

    pub run_hooks-keeps :
        (hooks : List Hook) (i : CodeWitnessInspector)
        → All IsSizedHook hooks
        → P i.meter
        → P (run_hooks hooks i).meter
    unfolding run_hooks
    run_hooks-keeps [] i h p = p
    run_hooks-keeps (hook ∷ hooks) i h p =
        run_hooks-keeps hooks (run_hook hook i).0 h.1 (run_hook-keeps hook i h.0 p)
