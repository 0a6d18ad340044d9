-- ===== src/Engine/Import.antt =====
-- A payload of an assembled block through the engine API, and what a payload that is taken tells.
use dogeos_reth.Prelude.{ℕ, ◌≡◌, refl, sym, ap, ◌==◌, true, List, ok, arith}
use dogeos_reth.Consensus.{SharedRules}
use dogeos_reth.Consensus.Body.{Block, Roots}
use dogeos_reth.Consensus.Assemble.{BlockEnv, assemble_block, assemble-ok}
use dogeos_reth.Types.Transaction.{ScrollTxEnvelope}
use dogeos_reth.Execution.{BlockExecutionResult}
use dogeos_reth.Engine.{ExecutionData, PayloadApi, with_difficulty, convert_payload_to_block}

-- A payload of a block, as alloy makes it: it carries the hash of the block and gives back the
-- block without its difficulty.
pub record IsPayloadOf {P C X S : Type 0} (api : PayloadApi P C X S) (block : Block S)
    (message : ExecutionData P C) : Type 0 where
  pub hash : api.block_hash message.payload ≡ api.hash_slow block
  pub converted :
      api.try_into_block_with_sidecar message.payload message.sidecar ≡ ok (with_difficulty 0 block)

-- Every payload of a block that the assembler made is taken by the engine API as that block, sealed
-- with its own hash.
pub assembled_block_imported :
    {P C X R S L : Type 0} (api : PayloadApi P C X S) (rules : SharedRules R) (roots : Roots S L)
    (env : BlockEnv) (parent_hash state_root : ℕ) (transactions : List (ScrollTxEnvelope S))
    (result : BlockExecutionResult L) (block : Block S) (message : ExecutionData P C)
    → assemble_block rules roots env parent_hash state_root transactions result ≡ ok block
    → IsPayloadOf api block message
    → convert_payload_to_block api message
      ≡ ok (record { block = block; hash = api.hash_slow block })
unfolding convert_payload_to_block
assembled_block_imported api rules roots env parent_hash state_root transactions result block
      message h m =
    let (one, made) =
      assemble-ok rules roots env parent_hash state_root transactions result block h in
    let diff : block.header.difficulty ≡ 1 = rw (sym made) one in
    let fixed : with_difficulty 1 block ≡ block = ap (λ d. with_difficulty d block) (sym diff) in
    let same : (api.hash_slow block == api.hash_slow block) ≡ true = ground arith in
    rw (m.converted, m.hash, fixed, same) refl
