-- ===== src/Examples/Consensus.antt =====
-- The consensus checks on concrete headers and blocks.
use dogeos_reth.Prelude.{
  ℕ, ◌+◌, ◌*◌, max, map, length, ◌≡◌, ◌↔◌, refl, true, some, List, [], ◌∷◌, ok, arith,
}
use dogeos_reth.Consensus.L1Messages.{
  validate_l1_messages, validate_l1_messages_sound, validate_l1_messages_complete, IsOrdered,
}
use dogeos_reth.Consensus.Header.{
  validate_header, validate_header_iff, IsCanonical, validate_header_against_parent,
  validate_header_against_parent_iff, IsChild,
}
use dogeos_reth.Consensus.Body.{Roots, Block}
use dogeos_reth.Consensus.Assemble.{BlockEnv, assembled, assemble_block, assembled_header_accepted}
use dogeos_reth.Types.Transaction.{TxL1Message, ScrollTxEnvelope, legacy, l1_message}
use dogeos_reth.Types.Receipt.{ScrollReceipt}
use dogeos_reth.Execution.{BlockExecutionResult}
use dogeos_reth.Types.ReceiptRlp.{eip2718_encode_with_bloom}
use dogeos_reth.Examples.Codecs.{rlp}
use dogeos_reth.Examples.Encodings.{receipts}
use dogeos_reth.Examples.{rules, header_at}

abbrev message : ℕ → TxL1Message
message index = record {
  queue_index = index;
  gas_limit = 100;
  to = 1;
  value = 0;
  sender = 2;
  input = [];
}

abbrev pub transactions : List (ScrollTxEnvelope ℕ)
transactions = l1_message (message 7) ∷ l1_message (message 8) ∷ legacy 1 ∷ []

messages_accepted : validate_l1_messages transactions ≡ some (ok tt)
unfolding validate_l1_messages
messages_accepted = refl

validate_l1_messages_sound_example : (start : ℕ) × IsOrdered start transactions
validate_l1_messages_sound_example = validate_l1_messages_sound transactions messages_accepted

validate_l1_messages_complete_example : validate_l1_messages transactions ≡ some (ok tt)
validate_l1_messages_complete_example = validate_l1_messages_complete 7 transactions (record {
  messages = message 7 ∷ message 8 ∷ [];
  rest = legacy 1 ∷ [];
  split = refl;
  only_l2 = (refl, tt);
  consecutive = refl;
})

validate_header_iff_example :
    (validate_header rules 100 (header_at 5 40 30_000) ≡ ok tt)
    ↔ IsCanonical rules 100 (header_at 5 40 30_000)
validate_header_iff_example = validate_header_iff rules 100 (header_at 5 40 30_000)

validate_header_against_parent_iff_example :
    (validate_header_against_parent rules (header_at 6 41 30_001) (header_at 5 40 30_000) ≡ ok tt)
    ↔ IsChild rules (header_at 6 41 30_001) (header_at 5 40 30_000)
validate_header_against_parent_iff_example =
    validate_header_against_parent_iff rules (header_at 6 41 30_001) (header_at 5 40 30_000)

-- A root that depends on the encodings and their order, and a bloom that is the greatest log.
abbrev pub trie_root : List (List ℕ) → ℕ
trie_root [] = 0
trie_root (item ∷ items) = length item + 2 * trie_root items

abbrev pub greatest : List ℕ → ℕ
greatest [] = 0
greatest (log ∷ logs) = max log (greatest logs)

abbrev pub roots : Roots ℕ ℕ
roots = record {
  transaction_root = λ txs. 11;
  calculate_receipt_root =
      λ rs. trie_root (map (λ r. eip2718_encode_with_bloom rlp receipts r.receipt r.logs_bloom) rs);
  ordered_trie_root = trie_root;
  receipt_bloom = λ receipt. greatest receipt.logs;
  bloom_or = max;
  logs_bloom = greatest;
  rlp = rlp;
  receipts = receipts;
}

abbrev pub result : BlockExecutionResult ℕ
result = record {
  receipts =
      ScrollReceipt.l1_message (record { status = true; cumulative_gas_used = 90; logs = [] }) ∷ [];
  gas_used = 90;
  blob_gas_used = 0;
}

abbrev pub env : BlockEnv
env = record {
  prevrandao = some 0;
  difficulty = 1;
  timestamp = 40;
  number = 5;
  basefee = 20_000_000;
  gas_limit = 30_000;
}

abbrev pub block : Block ℕ
block = assembled rules roots env 3 4 transactions result

block_assembled : assemble_block rules roots env 3 4 transactions result ≡ ok block
unfolding assemble_block
block_assembled = refl

assembled_header_accepted_example : validate_header rules 100 block.header ≡ ok tt
assembled_header_accepted_example =
    assembled_header_accepted rules roots env 3 4 100 transactions result block block_assembled
      (omega arith) (omega arith) refl
