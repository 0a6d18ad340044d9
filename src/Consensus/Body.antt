-- ===== src/Consensus/Body.antt =====
-- The block checks before and after execution of crates/dogeos-reth-consensus/src/lib.rs. alloy's
-- roots and blooms are a parameter.
use dogeos_reth.Prelude.{
  ◌>>◌, ℕ, Bool, true, false, not, Option, none, some, is_some, List, [], ◌∷◌, Result, ok, err,
  reject_if, map, map_err, ◌==◌,
}
use dogeos_reth.Consensus.{
  DogeosConsensusError, withdrawals_present, ConsensusError, other, uncles_not_allowed,
  ommer_root_is_not_empty, body_transaction_root_diff, block_gas_used, body_receipt_root_diff,
  body_bloom_log_diff, BlockHeader, SharedRules,
}
use dogeos_reth.Consensus.L1Messages.{validate_l1_messages}
use dogeos_reth.Types.Transaction.{ScrollTxEnvelope}
use dogeos_reth.Types.Receipt.{Receipt, ScrollReceipt, bloom, last_cumulative_gas}
use dogeos_reth.Types.Rlp.{AlloyRlp}
use dogeos_reth.Types.ReceiptRlp.{ReceiptWithBloom, AlloyReceipts, eip2718_encode_with_bloom}
use dogeos_reth.Execution.{BlockExecutionResult}

pub record Block (S : Type 0) : Type 0 where
  pub header : BlockHeader
  pub transactions : List (ScrollTxEnvelope S)
  pub ommers : List BlockHeader
  pub withdrawals : Option (List ℕ)

-- alloy's roots and blooms with the encodings they are computed over: `calculate_transaction_root`
-- and `calculate_receipt_root`, the trie root of encoded items in order, the bloom of a receipt, of
-- two blooms and of logs. A bloom is a natural number.
pub record Roots (S L : Type 0) : Type 0 where
  pub transaction_root : List (ScrollTxEnvelope S) → ℕ
  pub calculate_receipt_root : List (ReceiptWithBloom (ScrollReceipt L) ℕ) → ℕ
  pub ordered_trie_root : List (List ℕ) → ℕ
  pub receipt_bloom : Receipt L → ℕ
  pub bloom_or : ℕ → ℕ → ℕ
  pub logs_bloom : List L → ℕ
  pub rlp : AlloyRlp
  pub receipts : AlloyReceipts L ℕ

module _ {S L : Type 0} (roots : Roots S L) where
  open roots use {ordered_trie_root, receipt_bloom, rlp, receipts}

  -- `TxReceipt::with_bloom_ref`, which keeps the receipt with its bloom
  abbrev pub with_bloom_ref : ScrollReceipt L → ReceiptWithBloom (ScrollReceipt L) ℕ
  with_bloom_ref receipt = record { receipt = receipt; logs_bloom = bloom receipt_bloom receipt }

  -- `ReceiptWithBloom::encode_2718`, which calls the receipt's encoding with its bloom
  abbrev pub encode_2718_of : ReceiptWithBloom (ScrollReceipt L) ℕ → List ℕ
  encode_2718_of r = eip2718_encode_with_bloom rlp receipts r.receipt r.logs_bloom

  unfoldable pub calculate_receipt_root_no_memo : List (ScrollReceipt L) → ℕ
  calculate_receipt_root_no_memo rs = ordered_trie_root (map encode_receipt rs)
    where
      encode_receipt : ScrollReceipt L → List ℕ
      encode_receipt r = encode_2718_of (with_bloom_ref r)

module _ {X S L : Type 0} (rules : SharedRules X) (roots : Roots S L) where
  -- `validate_l1_messages(...)?`; its panic is `none`.
  abbrev pub after_l1_messages :
      Option (Result DogeosConsensusError (Unit {0}))
      → Option (Result (ConsensusError X) (Unit {0}))
  after_l1_messages none = none
  after_l1_messages (some r) = some (map_err other r)

  abbrev pub before_l1_messages : Block S → Result (ConsensusError X) (Unit {0})
  before_l1_messages block = do
    reject_if (no_elements block.ommers) uncles_not_allowed
    reject_if (not (block.header.ommers_hash == rules.empty_ommer_root_hash))
        ommer_root_is_not_empty
    reject_if (not (block.header.transactions_root == roots.transaction_root block.transactions))
        body_transaction_root_diff
    reject_if (is_some block.withdrawals) (other withdrawals_present)
    where
      no_elements : List BlockHeader → Bool
      no_elements [] = false
      no_elements (h ∷ hs) = true

  abbrev pub then_l1_messages :
      Result (ConsensusError X) (Unit {0}) → Block S → Option (Result (ConsensusError X) (Unit {0}))
  then_l1_messages (err e) block = some (err e)
  then_l1_messages (ok u) block = after_l1_messages (validate_l1_messages block.transactions)

  unfoldable pub validate_block_pre_execution :
      Block S → Option (Result (ConsensusError X) (Unit {0}))
  unfolding validate_l1_messages
  validate_block_pre_execution block = then_l1_messages (before_l1_messages block) block

  abbrev pub fold_blooms : ℕ → List (ReceiptWithBloom (ScrollReceipt L) ℕ) → ℕ
  fold_blooms bloom [] = bloom
  fold_blooms bloom (receipt ∷ receipts) =
      fold_blooms (roots.bloom_or bloom receipt.logs_bloom) receipts

  -- The root and the bloom that are given, or computed from the receipts.
  abbrev pub root_bloom : Option (ℕ × ℕ) → List (ScrollReceipt L) → ℕ × ℕ
  root_bloom none receipts =
      let with_blooms = map (with_bloom_ref roots) receipts in
      (roots.calculate_receipt_root with_blooms, fold_blooms 0 with_blooms)
  root_bloom (some value) receipts = value

  unfoldable pub validate_block_post_execution :
      BlockHeader → BlockExecutionResult L → Option (ℕ × ℕ) → Result (ConsensusError X) (Unit {0})
  unfolding last_cumulative_gas
  validate_block_post_execution header result receipt_root_bloom = do
    let cumulative_gas_used = last_cumulative_gas result.receipts
    reject_if (not (header.gas_used == cumulative_gas_used))
        (block_gas_used cumulative_gas_used header.gas_used)
    let (receipts_root, logs_bloom) = root_bloom receipt_root_bloom result.receipts
    reject_if (not (receipts_root == header.receipts_root))
        (body_receipt_root_diff receipts_root header.receipts_root)
    reject_if (not (logs_bloom == header.logs_bloom))
        (body_bloom_log_diff logs_bloom header.logs_bloom)
