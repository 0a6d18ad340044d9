-- ===== src/Consensus/Assemble.antt =====
-- The block assembler of crates/dogeos-reth-evm/src/build.rs and the checks that its blocks pass.
pub mod Accepted
use mathlib.Core.Path.{subst}
use dogeos_reth.Prelude.{
  ◌>>◌, ℕ, ◌≤◌, ◌≡◌, refl, sym, Bool, false, not, Option, none, some, List, [], ◌∷◌, ◌++◌, Result,
  ok, reject_if, ◌==◌, arith, sat_to64, bind-ok, ok-injective,
}
use dogeos_reth.Consensus.{SharedRules}
use dogeos_reth.Consensus.Header.{maximum_base_fee, validate_header, canonical_accepted}
use dogeos_reth.Types.Transaction.{ScrollTxEnvelope}
use dogeos_reth.Types.Receipt.{ScrollReceipt, logs}
use dogeos_reth.Execution.{BlockExecutionResult}
use dogeos_reth.Consensus.Body.{Block, Roots, calculate_receipt_root_no_memo}

-- What the assembler reads of the EVM's block environment.
pub record BlockEnv : Type 0 where
  pub prevrandao : Option ℕ
  pub difficulty : ℕ
  pub timestamp : ℕ
  pub number : ℕ
  pub basefee : ℕ
  pub gas_limit : ℕ

pub data AssembleError : Type 0 where
  invalid_prevrandao : Option ℕ → AssembleError
  invalid_difficulty : ℕ → AssembleError

abbrev pub is_zero_hash : Option ℕ → Bool
is_zero_hash none = false
is_zero_hash (some hash) = hash == 0

-- `receipts.iter().flat_map(TxReceipt::logs)`
abbrev pub all_logs : {L : Type 0} → List (ScrollReceipt L) → List L
all_logs [] = []
all_logs (receipt ∷ receipts) = logs receipt ++ all_logs receipts

module _ {X S L : Type 0} (rules : SharedRules X) (roots : Roots S L) where
  abbrev pub assembled :
      BlockEnv → ℕ → ℕ → List (ScrollTxEnvelope S) → BlockExecutionResult L → Block S
  assembled env parent_hash state_root transactions result = record {
    header = record {
      parent_hash = parent_hash;
      ommers_hash = rules.empty_ommer_root_hash;
      beneficiary = 0;
      state_root = state_root;
      transactions_root = roots.transaction_root transactions;
      receipts_root = calculate_receipt_root_no_memo roots result.receipts;
      logs_bloom = roots.logs_bloom (all_logs result.receipts);
      difficulty = env.difficulty;
      number = sat_to64 env.number;
      gas_limit = env.gas_limit;
      gas_used = result.gas_used;
      timestamp = sat_to64 env.timestamp;
      extra_data = [];
      mix_hash = some 0;
      nonce = some 0;
      base_fee_per_gas = some env.basefee;
      withdrawals_root = none;
      blob_gas_used = none;
      excess_blob_gas = none;
      parent_beacon_block_root = none;
      requests_hash = none;
    };
    transactions = transactions;
    ommers = [];
    withdrawals = none;
  }

  unfoldable pub assemble_block :
      BlockEnv
      → ℕ
      → ℕ
      → List (ScrollTxEnvelope S)
      → BlockExecutionResult L
      → Result AssembleError (Block S)
  assemble_block env parent_hash state_root transactions result = do
    reject_if (not (is_zero_hash env.prevrandao)) (invalid_prevrandao env.prevrandao)
    reject_if (not (env.difficulty == 1)) (invalid_difficulty env.difficulty)
    ok (assembled env parent_hash state_root transactions result)

  pub assemble-ok :
      (env : BlockEnv) (parent_hash state_root : ℕ) (transactions : List (ScrollTxEnvelope S))
      (result : BlockExecutionResult L) (block : Block S)
      → assemble_block env parent_hash state_root transactions result ≡ ok block
      → (env.difficulty ≡ 1) × (assembled env parent_hash state_root transactions result ≡ block)
  unfolding assemble_block
  assemble-ok env parent_hash state_root transactions result block h =
      let (u, zero_ok, h1) = bind-ok (reject_if (not (is_zero_hash env.prevrandao)) _) _ block h in
      let (v, one_ok, h2) = bind-ok (reject_if (not (env.difficulty == 1)) _) _ block h1 in
      (ground arith, ok-injective _ _ h2)

  -- An assembled block's header passes the header check, at a clock that is not before the block's
  -- timestamp, for a base fee up to the maximum and gas values that reth's own check accepts.
  pub assembled_header_accepted :
      (env : BlockEnv) (parent_hash state_root now : ℕ) (transactions : List (ScrollTxEnvelope S))
      (result : BlockExecutionResult L) (block : Block S)
      → assemble_block env parent_hash state_root transactions result ≡ ok block
      → env.basefee ≤ maximum_base_fee
      → env.timestamp ≤ now
      → rules.validate_header_gas block.header ≡ ok tt
      → validate_header rules now block.header ≡ ok tt
  assembled_header_accepted env parent_hash state_root now transactions result block h fee time
        gas =
      let (one, same) = assemble-ok env parent_hash state_root transactions result block h in
      let header = (assembled env parent_hash state_root transactions result).header in
      let gas' : rules.validate_header_gas header ≡ ok tt =
        subst (λ (b : Block S). rules.validate_header_gas b.header ≡ ok tt) (sym same) gas in
      subst (λ (b : Block S). validate_header rules now b.header ≡ ok tt) same
        (canonical_accepted rules now header (record {
          no_ommers = refl;
          zero_mix_hash = refl;
          zero_coinbase = refl;
          zero_nonce = refl;
          difficulty_one = one;
          no_extra_data = refl;
          base_fee = env.basefee;
          has_base_fee = refl;
          base_fee_bound = fee;
          no_withdrawals = refl;
          no_blob_gas = refl;
          no_excess_blob_gas = refl;
          no_beacon_root = refl;
          no_requests = refl;
          not_future = omega (arith, time);
          gas_accepted = gas';
        }))
