-- ===== src/Examples/Assembled.antt =====
-- A block that is assembled from the execution of two transactions.
use dogeos_reth.Prelude.{ℕ, ◌≡◌, refl, max, none, List, [], ◌∷◌, ◌++◌, ok, arith}
use dogeos_reth.Consensus.L1Messages.{validate_l1_messages}
use dogeos_reth.Consensus.Body.{
  Block, after_l1_messages, validate_block_pre_execution, validate_block_post_execution,
}
use dogeos_reth.Consensus.Assemble.{assembled, assemble_block}
use dogeos_reth.Consensus.Assemble.Accepted.{IsAlloyRoots, assembled_block_accepted}
use dogeos_reth.Examples.{forks, activation, rules}
use dogeos_reth.Examples.Execution
use dogeos_reth.Examples.Consensus.{greatest, roots, transactions, env}

greatest-append : (xs ys : List ℕ) → greatest (xs ++ ys) ≡ max (greatest xs) (greatest ys)
greatest-append [] ys = omega arith
greatest-append (x ∷ xs) ys = let rest = greatest-append xs ys in omega arith

roots-IsAlloyRoots : IsAlloyRoots roots
roots-IsAlloyRoots = record {
  receipt_root_lem = λ rs. refl;
  receipt_bloom_lem = λ r. refl;
  logs_bloom-nil = refl;
  logs_bloom-append = greatest-append;
  or_zero = λ a. omega arith;
  zero_or = λ a. omega arith;
  or_assoc = λ a b c. omega arith;
}

abbrev block : Block ℕ
block = assembled rules roots env 3 4 transactions Execution.result

block_assembled : assemble_block rules roots env 3 4 transactions Execution.result ≡ ok block
unfolding assemble_block
block_assembled = refl

assembled_block_accepted_example :
    (validate_block_post_execution rules roots block.header Execution.result none ≡ ok tt)
    × (validate_block_pre_execution rules roots block
        ≡ after_l1_messages rules roots (validate_l1_messages transactions))
assembled_block_accepted_example =
    assembled_block_accepted rules roots roots-IsAlloyRoots forks Execution.api Execution.env
      activation (omega arith) Execution.gas_law ((126, 30) ∷ (0, 40) ∷ []) ((1, 1) ∷ (1, 1) ∷ []) 0
      Execution.result Execution.executed env 3 4 transactions block block_assembled
