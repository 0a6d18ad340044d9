-- ===== src/Execution/EvmEnv/Agreement.antt =====
-- The environments of crates/dogeos-reth-evm/src/config.rs against each other, and its base-fee check
-- against the rule.
use dogeos_reth.Prelude.{
  ℕ, ◌≤◌, ◌≡◌, ◌⊎◌, ◌↔◌, inl, inr, refl, true, none, some, List, Option, ok, arith, u64_max,
  sat_to64, wrap_add64, sym,
}
use dogeos_reth.Hardforks.{ForkConditions, feynman}
use dogeos_reth.Consensus.{BlockHeader, SharedRules}
use dogeos_reth.Consensus.Assemble.{assemble_block, assemble-ok}
use dogeos_reth.Consensus.Body.{Block, Roots}
use dogeos_reth.Types.Transaction.{ScrollTxEnvelope}
use dogeos_reth.Execution.{BlockExecutionResult}
use dogeos_reth.BaseFee.{Storage, next_block_base_fee}
use dogeos_reth.Execution.EvmEnv.{
  EvmEnv, ScrollNextBlockEnvAttributes, ExecutionPayload, ScrollEvmConfig, evm_env, next_evm_env,
  evm_env_for_payload, unwrap_or, validate_block_pre_execution,
}

-- The payload of a header, as alloy splits it.
abbrev pub payload_of : BlockHeader → ℕ → ExecutionPayload
payload_of header fee = record {
  timestamp = header.timestamp;
  block_number = header.number;
  fee_recipient = header.beneficiary;
  gas_limit = header.gas_limit;
  saturated_base_fee_per_gas = fee;
}

unwrap_or-agree :
    (vault : Option ℕ) (suggested : ℕ)
    → ((address : ℕ) × (vault ≡ some address)) ⊎ (suggested ≡ 0)
    → unwrap_or vault 0 ≡ unwrap_or vault suggested
unwrap_or-agree (some address) suggested h = refl
unwrap_or-agree none suggested (inl (address, e)) = cc
unwrap_or-agree none suggested (inr e) = sym e

module _ (f : ForkConditions) (config : ScrollEvmConfig f) where
  -- A block that is assembled after execution in the environment built from its parent is executed
  -- again in that environment, from its header and from its payload, if the chain has a fee vault
  -- or the suggested recipient is the zero address, and the timestamp is a u64.
  pub execution_environments_agree :
      {X S L : Type 0} (rules : SharedRules X) (roots : Roots S L) (parent : BlockHeader)
      (attributes : ScrollNextBlockEnvAttributes) (parent_hash state_root : ℕ)
      (transactions : List (ScrollTxEnvelope S)) (result : BlockExecutionResult L) (block : Block S)
      → assemble_block rules roots
          (next_evm_env f config parent attributes).block_env
          parent_hash
          state_root
          transactions
          result
        ≡ ok block
      → ((vault : ℕ) × (config.fee_vault_address ≡ some vault))
        ⊎ (attributes.suggested_fee_recipient ≡ 0)
      → attributes.timestamp ≤ u64_max
      → (evm_env f config block.header ≡ next_evm_env f config parent attributes)
        × (evm_env_for_payload f config (payload_of block.header attributes.base_fee)
            ≡ next_evm_env f config parent attributes)
  unfolding next_evm_env evm_env evm_env_for_payload
  execution_environments_agree rules roots parent attributes parent_hash state_root transactions
        result block h recipient small =
      let (one, made) =
        assemble-ok rules roots (next_evm_env f config parent attributes).block_env parent_hash
          state_root transactions result block h in
      let number : sat_to64 (wrap_add64 parent.number 1) ≡ wrap_add64 parent.number 1 =
        omega arith in
      let timestamp : sat_to64 attributes.timestamp ≡ attributes.timestamp = omega arith in
      let same =
        unwrap_or-agree config.fee_vault_address attributes.suggested_fee_recipient recipient in
      rw (sym made, number, timestamp, same) (refl, refl)

  -- From Feynman on, for a block whose timestamp and number are u64s and whose parent is the header
  -- given, the check before execution accepts exactly the base fee that the rule computes from
  -- the parent.
  pub base_fee_check_iff :
      {X : Type 0} (storage : Storage X) (env : EvmEnv) (hash : ℕ) (parent : BlockHeader)
      → env.block_env.timestamp ≤ u64_max
      → env.block_env.number ≤ u64_max
      → f.active_at_timestamp_or_number
          (config.chain_spec.activation feynman)
          env.block_env.timestamp
          env.block_env.number
        ≡ true
      → (validate_block_pre_execution f config storage env hash hash parent ≡ ok tt) ↔ (
          next_block_base_fee f config.chain_spec storage parent env.block_env.timestamp
          ≡ some (ok env.block_env.basefee))
  unfolding validate_block_pre_execution next_block_base_fee
  base_fee_check_iff storage env hash parent time number active = ground arith
