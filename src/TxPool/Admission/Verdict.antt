-- ===== src/TxPool/Admission/Verdict.antt =====
-- What an admission by execution tells of the contract code and of the steps of a transaction.
use dogeos_reth.Prelude.{
  ℕ, Bool, ◌≤◌, ◌≤◌, ◌<◌, ◌≡◌, true, false, none, some, [], Result, ok, err, arith, All, u64_max,
  bind-ok, sym, ap, ◌∙◌, ok-injective, Result-cases, ◌≢◌, inl, inr,
}
use dogeos_reth.Hardforks.{ForkConditions}
use dogeos_reth.CodeWitness.{
  Meter, contains_key, new, begin_transaction, reserve, record_code, accept_transaction, code_bytes,
}
use dogeos_reth.CodeWitness.Inspector.{CodeWitnessInspector}
use dogeos_reth.CodeWitness.Keeps.{Keeps, IsSizedHook, run_hooks-keeps}
use dogeos_reth.CodeWitness.Union.{total, fresh-nil}
use dogeos_reth.CodeWitness.Invariant.{IsMetered, new-IsMetered, reset-IsMetered}
use dogeos_reth.CodeWitness.Budget.{inspector, HasSize, IsMetered-Keeps}
use dogeos_reth.Execution.EvmEnv.{EvmEnv, ScrollEvmConfig}
use dogeos_reth.TxPool.Admission.{
  CodeWitnessValidationConfig, code_bytes_over, AdmissionEnv, EvmError, prepare, simulate, verdict,
  validate_code_witness,
}

-- A meter of one transaction under a configuration.
record IsSingle (config : CodeWitnessValidationConfig) (m : Meter) : Type 0 where
  limit : m.max_code_bytes ≡ config.max_code_witness_bytes
  max_steps : m.max_steps ≡ config.max_steps
  accepted : m.accepted ≡ []
  accepted_bytes : m.accepted_bytes ≡ 0
  observed : m.transaction_bytes ≡ m.pending_bytes
  is_u64 : m.transaction_bytes ≤ u64_max
  overflow : m.exceeded ≡ some code_bytes → m.max_code_bytes < m.transaction_bytes
  steps : m.steps ≤ m.max_steps

IsSingle-Keeps :
    (size : ℕ → ℕ) (config : CodeWitnessValidationConfig) → Keeps (HasSize size) (IsSingle config)
unfolding reserve record_code contains_key
IsSingle-Keeps size config = record {
  by_reserve = λ m bytes p. ground arith;
  by_record = λ m hash bytes h p. ground arith;
  by_init = λ m p. ground arith;
  by_limit = λ m p. ground arith;
  by_step = λ m below p. ground arith;
}

new-IsSingle :
    (config : CodeWitnessValidationConfig)
    → IsSingle config (begin_transaction (new config.max_code_witness_bytes config.max_steps))
unfolding begin_transaction new
new-IsSingle config = ground arith

module _ {P M T R : Type 0} (f : ForkConditions) (evm_config : ScrollEvmConfig f)
    (env : AdmissionEnv P M T R) (size : ℕ → ℕ) (config : CodeWitnessValidationConfig) where
  -- Every code that an execution reads has the size that belongs to its hash.
  abbrev pub IsSizedExecution : Type 0
  IsSizedExecution =
      (cache : env.C) (evm_env : EvmEnv) (i : CodeWitnessInspector) (checked : Bool) (tx : T)
      → All (IsSizedHook (HasSize size)) (env.transact cache evm_env i checked tx).0

  -- The meter after a simulated execution keeps what the updates of the meter keep.
  simulated_keeps :
      (Q : Meter → Type 0) (k : Keeps (HasSize size) Q)
      → Q (begin_transaction (new config.max_code_witness_bytes config.max_steps))
      → IsSizedExecution
      → (tx : T) (run : Meter × Result (EvmError P M) R)
      → simulate f evm_config env config tx ≡ ok run
      → Q run.0
  unfolding simulate
  simulated_keeps Q k began sized tx run h =
      let ((cache, evm_env), h0, h1) = bind-ok (prepare f evm_config env tx) _ run h in
      let start =
        inspector (begin_transaction (new config.max_code_witness_bytes config.max_steps)) in
      let execution = env.transact cache evm_env start false tx in
      rw (sym (ok-injective _ _ h1)) (
        run_hooks-keeps (HasSize size) Q k execution.0 start (sized cache evm_env start false tx)
          began)

  verdict-ok :
      (run : Meter × Result (EvmError P M) R)
      → verdict f evm_config env config run ≡ ok tt
      → (run.0.exceeded ≡ none) × ((result : R) × (run.1 ≡ ok result))
  unfolding verdict
  verdict-ok (meter, result) h = ground arith

  verdict-code :
      (run : Meter × Result (EvmError P M) R) (observed limit : ℕ)
      → verdict f evm_config env config run ≡ err (code_bytes_over observed limit)
      → (run.0.exceeded ≡ some code_bytes)
        × (run.0.transaction_bytes ≡ observed)
        × (limit ≡ config.max_code_witness_bytes)
  unfolding verdict
  verdict-code (meter, result) observed limit h = ground arith

  prepare-ne-code :
      (tx : T) (observed limit : ℕ)
      → prepare f evm_config env tx ≢ err (code_bytes_over observed limit)
  unfolding prepare
  prepare-ne-code tx observed limit h = ground arith

  simulate-ne-code :
      (tx : T) (observed limit : ℕ)
      → simulate f evm_config env config tx ≢ err (code_bytes_over observed limit)
  unfolding simulate
  simulate-ne-code tx observed limit h = elim (Result-cases (prepare f evm_config env tx)) [
    | inl (prepared, e) ↦ let failed = rw e at h in cc
    | inr (reason, e) ↦
        let failed = rw e at h in
        let same : reason ≡ code_bytes_over observed limit = cc in
        prepare-ne-code tx observed limit (e ∙ ap err same)
  ]

  -- A transaction that is admitted was executed: its distinct codes have together at most the
  -- limit of bytes, it took at most the steps allowed, and its meter, as the execution left it,
  -- accepts it, if the limit is below the largest u64 and the codes that the execution reads have
  -- one size per hash.
  pub admitted_within_budget :
      IsSizedExecution
      → config.max_code_witness_bytes < u64_max
      → (tx : T) → validate_code_witness f evm_config env config tx ≡ ok tt
      → (meter : Meter) × (result : R) × (simulate f evm_config env config tx
          ≡ ok (meter, ok result))
        × (total meter.pending ≤ config.max_code_witness_bytes)
        × (meter.steps ≤ config.max_steps)
        × ((accept_transaction meter).1 ≡ true)
  unfolding validate_code_witness accept_transaction begin_transaction
  admitted_within_budget sized below tx h =
      let (run, h0, h1) = bind-ok (simulate f evm_config env config tx) _ tt h in
      let metered =
        simulated_keeps (IsMetered size config.max_code_witness_bytes)
          (IsMetered-Keeps size config.max_code_witness_bytes)
          (reset-IsMetered size config.max_code_witness_bytes
            (new-IsMetered size config.max_code_witness_bytes config.max_steps))
          sized tx run h0 in
      let single =
        simulated_keeps (IsSingle config) (IsSingle-Keeps size config) (new-IsSingle config) sized
          tx run h0 in
      let (free, (result, e)) = verdict-ok run h1 in
      let covered = fresh-nil run.0.pending in
      (
        run.0,
        result,
        h0 ∙ ap (λ r. ok (run.0, r)) e,
        ground (arith, single.accepted),
        ground arith,
        ground arith,
      )

  -- A transaction that is refused for its code was executed, and the bytes that it is reported to
  -- have used are those of its meter and exceed the configured limit, if the codes that the execution
  -- reads have one size per hash.
  pub refused_code_exceeds :
      IsSizedExecution
      → (tx : T) (observed limit : ℕ)
      → validate_code_witness f evm_config env config tx ≡ err (code_bytes_over observed limit)
      → (run : Meter × Result (EvmError P M) R) × (simulate f evm_config env config tx ≡ ok run)
        × (run.0.transaction_bytes ≡ observed)
        × (limit ≡ config.max_code_witness_bytes)
        × (limit < observed)
  unfolding validate_code_witness
  refused_code_exceeds sized tx observed limit h =
      elim (Result-cases (simulate f evm_config env config tx)) [
        | inl (run, e) ↦
            let single =
              simulated_keeps (IsSingle config) (IsSingle-Keeps size config) (new-IsSingle config)
                sized tx run e in
            let (over, same, is_limit) = verdict-code run observed limit (rw e at h) in
            (run, e, same, is_limit, omega (arith, single.overflow over, single.limit))
        | inr (reason, e) ↦
            let failed = rw e at h in
            let same : reason ≡ code_bytes_over observed limit = cc in
            elim (simulate-ne-code tx observed limit (e ∙ ap err same)) [ ]
      ]
