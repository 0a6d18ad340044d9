-- ===== src/Examples/TxPool.antt =====
-- The validation executor with two admission permits.
use dogeos_reth.Prelude.{ℕ, ◌≡◌, ◌≤◌, ◌<◌, ◌+◌, ◌⊎◌, ◌↔◌, refl, none, some, arith}
use dogeos_reth.Prelude.{min, true, false, ok, Result, Option, [], ◌∷◌, ◌==◌, if◌then◌else◌}
use dogeos_reth.Examples
use dogeos_reth.Examples.{forks, activation, chain_spec}
use dogeos_reth.Consensus.{BlockHeader}
use dogeos_reth.BaseFee.{max_l2_base_fee}
use dogeos_reth.TxPool.Maintenance
use dogeos_reth.TxPool.Maintenance.{BlockInfo, update_heads, pending_base_fee_capped}
use dogeos_reth.TxPool.L1Fee.{
  SealedHeader, Client, DogeosL1FeeSnapshot, latest_header_not_found, ready, unavailable,
  refresh_l1_fee_cache_from_latest,
}
use dogeos_reth.TxPool.L1Fee.Refresh.{IsRefreshed, refresh_is_current}
use dogeos_reth.TxPool.Validator.{
  ValidatorEnv, valid, validate_one, IsAffordable, validate_one_valid,
}
use dogeos_reth.TxPool.Executor.{
  DogeosValidationExecutor, worker_count, new, try_admit, Steps, done, step, admit, start,
  executor_capacity,
}

abbrev at : ℕ → ℕ → ℕ → ℕ → DogeosValidationExecutor
at inflight workers waiting running = record {
  inflight = inflight;
  workers = workers;
  waiting = waiting;
  running = running;
}

made : new 2 0 ≡ some (at 2 1 0 0)
unfolding new
made = refl

reached : Steps (at 2 1 0 0) (at 0 0 1 1)
unfolding try_admit
reached = step (at 2 1 0 0) (at 1 1 1 0) _ (admit (at 2 1 0 0) (at 1 1 1 0) refl) (
    step (at 1 1 1 0) (at 1 0 0 1) _ (start (at 1 1 1 0) (omega arith) (omega arith))
      (step (at 1 0 0 1) (at 0 0 1 1) _ (admit (at 1 0 0 1) (at 0 0 1 1) refl) (done (at 0 0 1 1))))

abbrev busy : DogeosValidationExecutor
busy = at 0 0 1 1

executor_capacity_example :
    (busy.running ≤ worker_count 2 0)
    × (busy.waiting + busy.running ≤ 2)
    × ((try_admit busy ≡ none) ↔ (busy.waiting + busy.running ≡ 2))
    × ((busy.waiting ≡ 0) ⊎ ((0 < busy.workers) ⊎ (0 < busy.running)))
executor_capacity_example = executor_capacity 2 0 (at 2 1 0 0) busy made reached

-- A provider whose head moves once: reads 0 and 1 differ, later ones agree.
abbrev header_at : ℕ → SealedHeader
header_at n = record { hash = min n 1 + 50; timestamp = 40; number = min n 1 }

abbrev client : Client ℕ ℕ ℕ
client = record {
  latest_header = λ n. ok (some (header_at n));
  state_by_block_hash = λ hash. ok hash;
  has_oracle_account = λ state. ok true;
  try_fetch = λ state timestamp number. ok state;
}

abbrev snapshot : DogeosL1FeeSnapshot ℕ
snapshot = record { head_hash = 51; timestamp = 40; number = 1; l1_block_info = 51 }

refresh_is_current_example :
    IsRefreshed client
      (unavailable latest_header_not_found)
      (refresh_l1_fee_cache_from_latest client (unavailable latest_header_not_found))
refresh_is_current_example = refresh_is_current client (unavailable latest_header_not_found)

abbrev env : ValidatorEnv ℕ ℕ ℕ
env = record {
  is_eip4844 = λ tx. false;
  is_l1_message = λ tx. false;
  cost = λ tx. tx;
  inner_validate_one = λ tx. valid 100 tx;
  l1_tx_data_fee = λ info timestamp number tx. ok 20;
  admission_check = some (λ tx. ok tt);
}

admitted : validate_one forks activation env (ready snapshot) 60 ≡ valid 100 60
unfolding validate_one
admitted = refl

validate_one_valid_example :
    (env.is_eip4844 60 ≡ false)
    × (env.is_l1_message 60 ≡ false)
    × IsAffordable forks activation env (ready snapshot) 100 60
    × (env.inner_validate_one 60 ≡ valid 100 60)
validate_one_valid_example =
    validate_one_valid forks activation env (ready snapshot) 60 60 100 admitted

-- A provider that knows the header of block 1 only.
abbrev known : ℕ → Result ℕ (Option BlockHeader)
known hash = if hash == 1 then ok (some (Examples.header_at 5 40 30_000)) else ok none

abbrev maintenance_client : Maintenance.Client ℕ
maintenance_client = record {
  header = known;
  state_by_block_hash = λ hash. ok (λ address slot. ok 5_000_000);
}

abbrev unseen : BlockInfo
unseen = record { last_seen_block_hash = 0; pending_basefee = 7 }

pending_base_fee_capped_example :
    (last : BlockInfo) × (update_heads forks chain_spec maintenance_client (1 ∷ 2 ∷ []) unseen
      ≡ some last)
    × (last.pending_basefee ≤ max_l2_base_fee)
pending_base_fee_capped_example =
    pending_base_fee_capped forks chain_spec maintenance_client 1 (2 ∷ []) unseen refl
