-- ===== src/Execution.antt =====
-- crates/dogeos-reth-evm/src/block/mod.rs: the block executor. The EVM, its database and the
-- predeploys of the forks are parameters; the hook that streams state to a trie task is left out.
pub mod Gas
pub mod Transitions
pub mod EvmEnv
use dogeos_reth.Prelude.{
  ℕ, ◌+◌, ◌-◌, ◌%◌, ◌^◌, Bool, true, false, not, Option, none, some, List, [], ◌∷◌, ◌++◌, Result,
  ok, err, ◌>>=◌, ◌>>◌, reject_if, map_err, ltb, ◌==◌, if◌then◌else◌, wrap_add64,
}
use dogeos_reth.Hardforks.{ForkConditions, Activation, feynman, galileo_v2, tsuki}
use dogeos_reth.Types.TxType.{l1_message_tx_type_id}
use dogeos_reth.Types.Receipt.{Receipt, ScrollReceipt, build_receipt}

pub record ResultAndState (L S : Type 0) : Type 0 where
  pub gas_used : ℕ
  pub is_success : Bool
  pub logs : List L
  pub state : S

pub record ScrollTxResult (L S : Type 0) : Type 0 where
  pub result : ResultAndState L S
  pub l1_fee : ℕ
  pub tx_type : ℕ

-- What executing asks of a transaction.
pub record ExecutableTx (T : Type 0) : Type 0 where
  pub ty : T → ℕ
  pub gas_limit : T → ℕ
  pub is_eip4844 : T → Bool
  pub with_compression_info : T → ℕ × ℕ → T

-- The database with revm's configuration, and what runs on it. `transact` is given whether it
-- checks the base fee and the nonce.
pub record EvmApi (X D T L S : Type 0) : Type 0 where
  pub block_gas_limit : ℕ
  pub timestamp : ℕ
  pub transact : D → Bool → Bool → T → Result X (ResultAndState L S)
  pub l1_fee : D → T → Option ℕ
  pub commit : D → S → D
  pub read_base_fee_overhead : D → Result X (Unit {0})
  pub apply_feynman_hard_fork : D → Result X D
  pub apply_galileo_v2_hard_fork : D → Result X D
  pub apply_tsuki_hard_fork : D → Result X D
  pub apply_blockhashes_contract_call : D → Result X D

pub data BlockExecutionError (X : Type 0) : Type 0 where
  transaction_gas_limit_more_than_available_block_gas : ℕ → ℕ → BlockExecutionError X
  eip4844_not_supported : BlockExecutionError X
  evm : X → BlockExecutionError X
  fewer_compression_infos more_compression_infos : BlockExecutionError X
  -- not an error of the source: a panic of an `expect`
  panicked : BlockExecutionError X

pub record ScrollBlockExecutor (D L : Type 0) : Type 0 where
  pub db : D
  pub receipts : List (ScrollReceipt L)
  pub gas_used : ℕ

pub record BlockExecutionResult (L : Type 0) : Type 0 where
  pub receipts : List (ScrollReceipt L)
  pub gas_used : ℕ
  pub blob_gas_used : ℕ

module _ {X D T L S : Type 0} (f : ForkConditions) (api : ExecutableTx T) (env : EvmApi X D T L S)
    (activation : Activation f) where
  abbrev pub Executed : Type 0 → Type 0
  Executed A = Result (BlockExecutionError X) A

  abbrev pub new : D → ScrollBlockExecutor D L
  new db = record { db = db; receipts = []; gas_used = 0 }

  abbrev pub at_fork : Bool → (D → Result X D) → D → Result X D
  at_fork active apply db = if active then apply db else ok db

  abbrev pub pre_execution : D → Result X D
  pre_execution db = do
    env.read_base_fee_overhead db
    db1 ←
        at_fork (f.active_at_timestamp (activation feynman) env.timestamp)
          env.apply_feynman_hard_fork db
    db2 ←
        at_fork (f.active_at_timestamp (activation galileo_v2) env.timestamp)
          env.apply_galileo_v2_hard_fork db1
    db3 ←
        at_fork (f.active_at_timestamp (activation tsuki) env.timestamp) env.apply_tsuki_hard_fork
          db2
    env.apply_blockhashes_contract_call db3

  unfoldable pub apply_pre_execution_changes :
      ScrollBlockExecutor D L → Executed (ScrollBlockExecutor D L)
  apply_pre_execution_changes s = do
    db ← map_err evm (pre_execution s.db)
    ok (record s { db = db })

  -- `gas_limit - gas_used` on u64 in a release build
  abbrev pub available_gas : ScrollBlockExecutor D L → ℕ
  available_gas s = (env.block_gas_limit + 2 ^ 64 - s.gas_used) % 2 ^ 64

  abbrev pub l1_fee_of : Bool → Option ℕ → Executed ℕ
  l1_fee_of true fee = ok 0
  l1_fee_of false none = err panicked
  l1_fee_of false (some fee) = ok fee

  unfoldable pub execute_transaction_without_commit :
      ScrollBlockExecutor D L → T → Executed (ScrollTxResult L S)
  execute_transaction_without_commit s tx = do
    let is_l1_message = api.ty tx == l1_message_tx_type_id
    reject_if (ltb (available_gas s) (api.gas_limit tx))
        (transaction_gas_limit_more_than_available_block_gas (api.gas_limit tx) (available_gas s))
    reject_if (api.is_eip4844 tx) eip4844_not_supported
    result ← map_err evm (env.transact s.db (not is_l1_message) (not is_l1_message) tx)
    fee ← l1_fee_of is_l1_message (env.l1_fee s.db tx)
    ok (record { result = result; l1_fee = fee; tx_type = api.ty tx })

  abbrev pub push_receipt :
      ScrollBlockExecutor D L
      → ScrollTxResult L S
      → Option (ScrollReceipt L)
      → Executed (ℕ × ScrollBlockExecutor D L)
  push_receipt s output none = err panicked
  push_receipt s output (some receipt) = ok (
    output.result.gas_used,
    record {
      db = env.commit s.db output.result.state;
      receipts = s.receipts ++ receipt ∷ [];
      gas_used = wrap_add64 s.gas_used output.result.gas_used;
    },
  )

  unfoldable pub commit_transaction :
      ScrollBlockExecutor D L → ScrollTxResult L S → Executed (ℕ × ScrollBlockExecutor D L)
  unfolding build_receipt
  commit_transaction s output = push_receipt s output (
      build_receipt
        (record {
          status = output.result.is_success;
          cumulative_gas_used = wrap_add64 s.gas_used output.result.gas_used;
          logs = output.result.logs;
        })
        output.l1_fee output.tx_type)

  -- alloy's `execute_transaction`: execute, then commit.
  abbrev pub execute_transaction : ScrollBlockExecutor D L → T → Executed (ScrollBlockExecutor D L)
  execute_transaction s tx = do
    output ← execute_transaction_without_commit s tx
    committed ← commit_transaction s output
    ok committed.1

  unfoldable pub finish : ScrollBlockExecutor D L → BlockExecutionResult L
  finish s = record { receipts = s.receipts; gas_used = s.gas_used; blob_gas_used = 0 }

  -- The loop with the compression infos and the check that none is left.
  unfoldable pub execute_all :
      List T → List (ℕ × ℕ) → ScrollBlockExecutor D L → Executed (ScrollBlockExecutor D L)
  unfolding execute_transaction_without_commit commit_transaction
  execute_all [] [] s = ok s
  execute_all [] (info ∷ infos) s = err more_compression_infos
  execute_all (tx ∷ txs) [] s = err fewer_compression_infos
  execute_all (tx ∷ txs) (info ∷ infos) s =
      execute_transaction s (api.with_compression_info tx info) >>= λ s'. execute_all txs infos s'

  -- The executor has no post-execution changes of its own: alloy's default is `finish`.
  unfoldable pub execute_block_with_compression_cache :
      List T → List (ℕ × ℕ) → D → Executed (BlockExecutionResult L)
  unfolding apply_pre_execution_changes execute_all finish
  execute_block_with_compression_cache txs infos db = do
    s ← apply_pre_execution_changes (new db)
    s' ← execute_all txs infos s
    ok (finish s')
