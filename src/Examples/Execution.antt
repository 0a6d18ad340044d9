-- ===== src/Examples/Execution.antt =====
-- The block executor on a block of two transactions.
use dogeos_reth.Prelude.{ℕ, ◌≡◌, ◌≤◌, refl, Bool, true, false, some, [], ◌∷◌, ok, length, arith}
use dogeos_reth.Types.Receipt.{last_cumulative_gas, ScrollReceipt}
use dogeos_reth.Execution.{
  ExecutableTx, EvmApi, ResultAndState, BlockExecutionResult, execute_block_with_compression_cache,
}
use dogeos_reth.Execution.Gas.{executed_block_gas}
use dogeos_reth.Examples.{forks, activation}

-- A transaction is its type and its gas limit.
abbrev pub api : ExecutableTx (ℕ × ℕ)
api = record {
  ty = λ tx. tx.0;
  gas_limit = λ tx. tx.1;
  is_eip4844 = λ tx. false;
  with_compression_info = λ tx info. tx;
}

abbrev result_of : ℕ → ResultAndState ℕ ℕ
result_of gas = record { gas_used = gas; is_success = true; logs = []; state = gas }

abbrev pub env : EvmApi ℕ ℕ (ℕ × ℕ) ℕ ℕ
env = record {
  block_gas_limit = 100;
  timestamp = 40;
  transact = λ db fee nonce tx. ok (result_of tx.1);
  l1_fee = λ db tx. some 1;
  commit = λ db state. state;
  read_base_fee_overhead = λ db. ok tt;
  apply_feynman_hard_fork = λ db. ok db;
  apply_galileo_v2_hard_fork = λ db. ok db;
  apply_tsuki_hard_fork = λ db. ok db;
  apply_blockhashes_contract_call = λ db. ok db;
}

pub gas_law :
    (db : ℕ) (fee nonce : Bool) (tx : ℕ × ℕ) (r : ResultAndState ℕ ℕ)
    → env.transact db fee nonce tx ≡ ok r
    → r.gas_used ≤ api.gas_limit tx
gas_law db fee nonce tx r h = ground arith

abbrev pub result : BlockExecutionResult ℕ
result = record {
  receipts =
      ScrollReceipt.l1_message (record { status = true; cumulative_gas_used = 30; logs = [] })
      ∷ ScrollReceipt.legacy (record {
        inner = record { status = true; cumulative_gas_used = 70; logs = [] };
        l1_fee = 1;
      })
      ∷ [];
  gas_used = 70;
  blob_gas_used = 0;
}

pub executed :
    execute_block_with_compression_cache forks api env activation
      ((126, 30) ∷ (0, 40) ∷ [])
      ((1, 1) ∷ (1, 1) ∷ [])
      0
    ≡ ok result
unfolding execute_block_with_compression_cache
executed = refl

executed_block_gas_example :
    (70 ≤ 100) × (last_cumulative_gas result.receipts ≡ 70) × (length result.receipts ≡ 2)
executed_block_gas_example =
    executed_block_gas forks api env activation (omega arith) gas_law ((126, 30) ∷ (0, 40) ∷ [])
      ((1, 1) ∷ (1, 1) ∷ []) 0 result executed
