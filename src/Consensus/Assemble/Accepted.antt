-- ===== src/Consensus/Assemble/Accepted.antt =====
-- Blocks that are executed and then assembled by crates/dogeos-reth-evm/src/build.rs, before the block
-- checks of crates/dogeos-reth-consensus/src/lib.rs.
use mathlib.Core.Path.{subst}
use dogeos_reth.Prelude.{
  ℕ, ◌≤◌, ◌≡◌, refl, sym, ap, ◌∙◌, Bool, none, List, [], ◌∷◌, ◌++◌, map, ok, u64_max, arith,
}
use dogeos_reth.Hardforks.{ForkConditions, Activation}
use dogeos_reth.Consensus.{SharedRules}
use dogeos_reth.Consensus.L1Messages.{validate_l1_messages}
use dogeos_reth.Consensus.Body.{
  Block, Roots, with_bloom_ref, encode_2718_of, calculate_receipt_root_no_memo, fold_blooms,
  after_l1_messages, validate_block_pre_execution, validate_block_post_execution,
}
use dogeos_reth.Consensus.Assemble.{BlockEnv, all_logs, assemble_block, assemble-ok}
use dogeos_reth.Types.Transaction.{ScrollTxEnvelope}
use dogeos_reth.Types.Receipt.{Receipt, ScrollReceipt, logs, bloom}
use dogeos_reth.Types.ReceiptRlp.{ReceiptWithBloom}
use dogeos_reth.Execution.{
  ResultAndState, ExecutableTx, EvmApi, BlockExecutionResult, execute_block_with_compression_cache,
}
use dogeos_reth.Execution.Gas.{executed_block_gas}

-- What alloy documents of its roots and blooms: the receipt root is the trie root of the encoded
-- receipts, a receipt's bloom is that of its logs, and the bloom of logs is built log by log with a
-- bitwise or.
pub record IsAlloyRoots {S L : Type 0} (roots : Roots S L) : Type 0 where
  pub receipt_root_lem :
      (rs : List (ReceiptWithBloom (ScrollReceipt L) ℕ))
      → roots.calculate_receipt_root rs ≡ roots.ordered_trie_root (map (encode_2718_of roots) rs)
  pub receipt_bloom_lem : (r : Receipt L) → roots.receipt_bloom r ≡ roots.logs_bloom r.logs
  pub logs_bloom-nil : roots.logs_bloom [] ≡ 0
  pub logs_bloom-append :
      (xs ys : List L)
      → roots.logs_bloom (xs ++ ys) ≡ roots.bloom_or (roots.logs_bloom xs) (roots.logs_bloom ys)
  pub or_zero : (a : ℕ) → roots.bloom_or a 0 ≡ a
  pub zero_or : (a : ℕ) → roots.bloom_or 0 a ≡ a
  pub or_assoc :
      (a b c : ℕ) → roots.bloom_or (roots.bloom_or a b) c ≡ roots.bloom_or a (roots.bloom_or b c)

module _ {X S L : Type 0} (rules : SharedRules X) (roots : Roots S L)
    (laws : IsAlloyRoots roots) where
  encoded_receipts :
      (rs : List (ScrollReceipt L))
      → map (encode_2718_of roots) (map (with_bloom_ref roots) rs)
        ≡ map (λ r. encode_2718_of roots (with_bloom_ref roots r)) rs
  encoded_receipts [] = refl
  encoded_receipts (r ∷ rs) =
      ap (λ rest. encode_2718_of roots (with_bloom_ref roots r) ∷ rest) (encoded_receipts rs)

  -- The root of the receipts without memo is that of the receipts with their blooms.
  receipt_roots_agree :
      (rs : List (ScrollReceipt L))
      → calculate_receipt_root_no_memo roots rs
        ≡ roots.calculate_receipt_root (map (with_bloom_ref roots) rs)
  unfolding calculate_receipt_root_no_memo
  receipt_roots_agree rs =
      ap roots.ordered_trie_root (sym (encoded_receipts rs))
      ∙ sym (laws.receipt_root_lem (map (with_bloom_ref roots) rs))

  fold_blooms-all_logs :
      (start : ℕ) (rs : List (ScrollReceipt L))
      → fold_blooms rules roots start (map (with_bloom_ref roots) rs)
        ≡ roots.bloom_or start (roots.logs_bloom (all_logs rs))
  unfolding bloom logs
  fold_blooms-all_logs start [] = sym (rw laws.logs_bloom-nil (laws.or_zero start))
  fold_blooms-all_logs start (r ∷ rs) =
      fold_blooms-all_logs (roots.bloom_or start (bloom roots.receipt_bloom r)) rs
      ∙ (laws.or_assoc start (bloom roots.receipt_bloom r) (roots.logs_bloom (all_logs rs))
          ∙ ap (λ b. roots.bloom_or start b)
              (ap (λ b. roots.bloom_or b (roots.logs_bloom (all_logs rs)))
                  (laws.receipt_bloom_lem _)
                ∙ sym (laws.logs_bloom-append (logs r) (all_logs rs))))

  -- The bloom of all logs is the fold of the receipts' blooms.
  blooms_agree :
      (rs : List (ScrollReceipt L))
      → roots.logs_bloom (all_logs rs) ≡ fold_blooms rules roots 0 (map (with_bloom_ref roots) rs)
  blooms_agree rs = sym (fold_blooms-all_logs 0 rs ∙ laws.zero_or _)

  -- A block that is assembled from the result of an execution passes the check after execution
  -- against that result, and the check before execution says of it what the order of its L1 messages
  -- does. The EVM uses at most a transaction's gas limit, the block's gas limit is a u64, and alloy's
  -- roots and blooms are as documented.
  pub assembled_block_accepted :
      {Y D T St : Type 0} (f : ForkConditions) (api : ExecutableTx T) (evm : EvmApi Y D T L St)
      (activation : Activation f)
      → evm.block_gas_limit ≤ u64_max
      → ((db : D) (fee nonce : Bool) (tx : T) (r : ResultAndState L St)
          → evm.transact db fee nonce tx ≡ ok r
          → r.gas_used ≤ api.gas_limit tx)
      → (txs : List T) (infos : List (ℕ × ℕ)) (db : D) (result : BlockExecutionResult L)
      → execute_block_with_compression_cache f api evm activation txs infos db ≡ ok result
      → (env : BlockEnv) (parent_hash state_root : ℕ) (transactions : List (ScrollTxEnvelope S))
        (block : Block S)
      → assemble_block rules roots env parent_hash state_root transactions result ≡ ok block
      → (validate_block_post_execution rules roots block.header result none ≡ ok tt)
        × (validate_block_pre_execution rules roots block
            ≡ after_l1_messages rules roots (validate_l1_messages transactions))
  unfolding validate_block_post_execution validate_block_pre_execution
  assembled_block_accepted f api evm activation fits gas_law txs infos db result ran env parent_hash
        state_root transactions block h =
      let (within, gas, one_each) =
        executed_block_gas f api evm activation fits gas_law txs infos db result ran in
      let (one, same) =
        assemble-ok rules roots env parent_hash state_root transactions result block h in
      let root = receipt_roots_agree result.receipts in
      let bloom_same = blooms_agree result.receipts in
      subst
        (λ (b : Block S).
          (validate_block_post_execution rules roots b.header result none ≡ ok tt)
          × (validate_block_pre_execution rules roots b
              ≡ after_l1_messages rules roots (validate_l1_messages transactions)))
        same (ground arith, ground arith)
