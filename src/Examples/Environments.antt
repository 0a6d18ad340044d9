-- ===== src/Examples/Environments.antt =====
-- A block after its parent on a concrete chain, whose fees go to a vault.
use dogeos_reth.Prelude.{ℕ, ◌≡◌, ◌↔◌, refl, some, ok, inl, arith}
use dogeos_reth.Consensus.{BlockHeader}
use dogeos_reth.Consensus.Assemble.{assemble_block, assembled}
use dogeos_reth.Consensus.Body.{Block}
use dogeos_reth.Examples.Consensus.{roots, result, transactions}
use dogeos_reth.BaseFee.{next_block_base_fee}
use dogeos_reth.Execution.EvmEnv.{
  EvmEnv, ScrollNextBlockEnvAttributes, ScrollEvmConfig, evm_env, next_evm_env, evm_env_for_payload,
  validate_block_pre_execution,
}
use dogeos_reth.Execution.EvmEnv.Agreement.{
  payload_of, execution_environments_agree, base_fee_check_iff,
}
use dogeos_reth.Examples.{forks, chain_spec, storage, header_at, rules}

abbrev pub evm_config : ScrollEvmConfig forks
evm_config = record { chain_spec = chain_spec; chain_id = 568; fee_vault_address = some 0x5300 }

abbrev parent : BlockHeader
parent = header_at 5 40 30_000

abbrev attributes : ScrollNextBlockEnvAttributes
attributes = record {
  timestamp = 41;
  suggested_fee_recipient = 7;
  gas_limit = 30_000;
  base_fee = 20_000_001;
}

abbrev env : EvmEnv
env = next_evm_env forks evm_config parent attributes

abbrev block : Block ℕ
block = assembled rules roots env.block_env 3 4 transactions result

block_assembled : assemble_block rules roots env.block_env 3 4 transactions result ≡ ok block
unfolding assemble_block next_evm_env
block_assembled = refl

execution_environments_agree_example :
    (evm_env forks evm_config block.header ≡ next_evm_env forks evm_config parent attributes)
    × (evm_env_for_payload forks evm_config (payload_of block.header attributes.base_fee)
        ≡ next_evm_env forks evm_config parent attributes)
execution_environments_agree_example =
    execution_environments_agree forks evm_config rules roots parent attributes 3 4 transactions
      result block block_assembled (inl (0x5300, refl)) (omega arith)

abbrev priced : EvmEnv
unfolding next_evm_env
priced = env

base_fee_check_iff_example :
    (validate_block_pre_execution forks evm_config storage priced 3 3 parent ≡ ok tt) ↔ (
      next_block_base_fee forks chain_spec storage parent priced.block_env.timestamp
      ≡ some (ok priced.block_env.basefee))
unfolding next_evm_env
base_fee_check_iff_example =
    base_fee_check_iff forks evm_config storage priced 3 parent (omega arith) (omega arith) refl
