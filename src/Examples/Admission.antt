-- ===== src/Examples/Admission.antt =====
-- Admissions under a limit that is kept and one that is exceeded: the execution loads 70 bytes of
-- code and reserves 23 for a delegation.
use dogeos_reth.Prelude.{ℕ, ◌≡◌, ◌≤◌, ◌<◌, refl, true, some, ok, err, Result, arith}
use dogeos_reth.CodeWitness.{
  Meter, new, begin_transaction, record_code, reserve, accept_transaction,
}
use dogeos_reth.CodeWitness.Inspector.{run_hooks}
use dogeos_reth.CodeWitness.Union.{total}
use dogeos_reth.BaseFee.{next_block_base_fee}
use dogeos_reth.TxPool.Admission.{
  CodeWitnessValidationConfig, AdmissionEnv, EvmError, simulate, validate_code_witness,
  code_bytes_over,
}
use dogeos_reth.TxPool.Admission.Verdict.{
  IsSizedExecution, admitted_within_budget, refused_code_exceeds,
}
use dogeos_reth.Examples.{forks, storage, header_at}
use dogeos_reth.Examples.CodeWitness.{hooks}
use dogeos_reth.Examples.Environments.{evm_config}

abbrev provider_env : AdmissionEnv ℕ ℕ ℕ ℕ
provider_env = record {
  V = ℕ;
  C = ℕ;
  latest_header = ok (some (50, header_at 5 40 30_000));
  state_by_block_hash = λ hash. ok hash;
  cache_db = λ state. state;
  override_nonce = λ cache address nonce. ok cache;
  storage = λ cache. storage;
  sender = λ tx. tx;
  nonce = λ tx. tx;
  transact = λ cache evm_env i checked tx. (hooks, ok tx);
}

abbrev under : ℕ → CodeWitnessValidationConfig
under limit = record { max_code_witness_bytes = limit; max_steps = 10; max_inflight = 64 }

admitted : validate_code_witness forks evm_config provider_env (under 200) 8 ≡ ok tt
unfolding validate_code_witness next_block_base_fee run_hooks begin_transaction new record_code
    reserve
admitted = refl

refused :
    validate_code_witness forks evm_config provider_env (under 50) 8 ≡ err (code_bytes_over 93 50)
unfolding validate_code_witness next_block_base_fee run_hooks begin_transaction new record_code
    reserve
refused = refl

sized : (limit : ℕ) → IsSizedExecution forks evm_config provider_env (λ hash. hash) (under limit)
sized limit cache evm_env i checked tx = (((refl, tt), (((refl, tt), refl), (tt, tt))))

admitted_within_budget_example :
    (meter : Meter) × (result : ℕ) × (simulate forks evm_config provider_env (under 200) 8
      ≡ ok (meter, ok result))
    × (total meter.pending ≤ 200)
    × (meter.steps ≤ 10)
    × ((accept_transaction meter).1 ≡ true)
admitted_within_budget_example =
    admitted_within_budget forks evm_config provider_env (λ hash. hash) (under 200) (sized 200)
      (omega arith) 8 admitted

refused_code_exceeds_example :
    (run : Meter × Result (EvmError ℕ ℕ) ℕ) × (simulate forks evm_config provider_env (under 50) 8
      ≡ ok run)
    × (run.0.transaction_bytes ≡ 93)
    × (50 ≡ (under 50).max_code_witness_bytes)
    × (50 < 93)
refused_code_exceeds_example =
    refused_code_exceeds forks evm_config provider_env (λ hash. hash) (under 50) (sized 50) 8 93 50
      refused
