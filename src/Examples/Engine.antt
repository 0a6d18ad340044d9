-- ===== src/Examples/Engine.antt =====
-- The payload of an assembled block, as its block and its hash.
use dogeos_reth.Prelude.{ℕ, ◌+◌, ◌≡◌, refl, ok}
use dogeos_reth.Consensus.Assemble.{assemble_block}
use dogeos_reth.Consensus.Body.{Block}
use dogeos_reth.Engine.{ExecutionData, PayloadApi, with_difficulty, convert_payload_to_block}
use dogeos_reth.Engine.Import.{assembled_block_imported}
use dogeos_reth.Examples.{rules}
use dogeos_reth.Examples.Consensus.{roots, result, transactions, env, block}

abbrev api : PayloadApi (Block ℕ × ℕ) (Unit {0}) ℕ ℕ
api = record {
  block_hash = λ p. p.1;
  try_into_block_with_sidecar = λ p sidecar. ok (with_difficulty 0 p.0);
  hash_slow = λ b. b.header.number + b.header.difficulty;
}

abbrev message : ExecutionData (Block ℕ × ℕ) (Unit {0})
message = record { payload = (block, 6); sidecar = tt }

made : assemble_block rules roots env 3 4 transactions result ≡ ok block
unfolding assemble_block
made = refl

assembled_block_imported_example :
    convert_payload_to_block api message ≡ ok (record { block = block; hash = api.hash_slow block })
assembled_block_imported_example =
    assembled_block_imported api rules roots env 3 4 transactions result block message made
      (record { hash = refl; converted = refl })
