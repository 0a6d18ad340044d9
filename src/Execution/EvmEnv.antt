-- ===== src/Execution/EvmEnv.antt =====
-- crates/dogeos-reth-evm/src/config.rs: the environment that a block is executed in, from its header,
-- from its payload or from its parent, and the check of its base fee before execution.
-- `CfgEnv::new_scroll` depends only on the specification, so that stands for it.
pub mod Agreement
use dogeos_reth.Prelude.{
  ℕ, Bool, true, false, not, Option, none, some, Result, ok, err, ◌>>=◌, ◌>>◌, reject_if, map_err,
  ◌==◌, if◌then◌else◌, ltb, u64_max, wrap_add64,
}
use dogeos_reth.Hardforks.{ForkConditions, feynman}
use dogeos_reth.Hardforks.SpecId.{ScrollSpecId, spec_id_at_timestamp_and_number}
use dogeos_reth.Consensus.{BlockHeader}
use dogeos_reth.Consensus.Assemble.{BlockEnv}
use dogeos_reth.BaseFee.{
  ScrollBaseFeeParent, ChainSpec, Storage, from_header, next_block_base_fee_for_parent,
}

-- revm's environment: the block's part that the assembler reads, and the rest.
pub record EvmEnv : Type 0 where
  pub spec_id : ScrollSpecId
  pub chain_id : ℕ
  pub block_env : BlockEnv
  pub beneficiary : ℕ
  pub blob_excess_gas_and_price : Option ℕ
  pub slot_num : ℕ

pub record ScrollNextBlockEnvAttributes : Type 0 where
  pub timestamp : ℕ
  pub suggested_fee_recipient : ℕ
  pub gas_limit : ℕ
  pub base_fee : ℕ

-- What `evm_env_for_payload` reads of alloy's payload.
pub record ExecutionPayload : Type 0 where
  pub timestamp : ℕ
  pub block_number : ℕ
  pub fee_recipient : ℕ
  pub gas_limit : ℕ
  pub saturated_base_fee_per_gas : ℕ

-- What the configuration takes from the chain specification.
pub record ScrollEvmConfig (f : ForkConditions) : Type 0 where
  pub chain_spec : ChainSpec f
  pub chain_id : ℕ
  pub fee_vault_address : Option ℕ

pub data PreExecutionError (X : Type 0) : Type 0 where
  invalid_parent_header : PreExecutionError X
  overhead_unreadable : X → PreExecutionError X
  panicked : PreExecutionError X
  invalid_base_fee : ℕ → ℕ → PreExecutionError X

-- Option::unwrap_or
abbrev pub unwrap_or : Option ℕ → ℕ → ℕ
unwrap_or none default = default
unwrap_or (some n) default = n

-- Option::filter with a test that does not read the value, then ok_or
abbrev pub checked_parent :
    {X : Type 0}
    → Bool
    → Option ScrollBaseFeeParent
    → Result (PreExecutionError X) ScrollBaseFeeParent
checked_parent same none = err invalid_parent_header
checked_parent same (some parent) = if same then ok parent else err invalid_parent_header

-- `U256::to` panics on what is not a u64.
abbrev pub to64 : {X : Type 0} → ℕ → Result (PreExecutionError X) ℕ
to64 n = if ltb u64_max n then err panicked else ok n

-- `if !active { return Ok(()); }`
abbrev pub when_active :
    {X : Type 0}
    → Bool
    → Result (PreExecutionError X) (Unit {0})
    → Result (PreExecutionError X) (Unit {0})
when_active true check = check
when_active false check = ok tt

module _ (f : ForkConditions) (config : ScrollEvmConfig f) where
  abbrev pub env_at : ℕ → ℕ → ℕ → BlockEnv → EvmEnv
  env_at timestamp number recipient block_env = record {
    spec_id = spec_id_at_timestamp_and_number f timestamp number config.chain_spec.activation;
    chain_id = config.chain_id;
    block_env = block_env;
    beneficiary = unwrap_or config.fee_vault_address recipient;
    blob_excess_gas_and_price = none;
    slot_num = 0;
  }

  unfoldable pub evm_env_for_payload : ExecutionPayload → EvmEnv
  evm_env_for_payload payload =
      env_at payload.timestamp payload.block_number payload.fee_recipient (record {
        prevrandao = some 0;
        difficulty = 1;
        timestamp = payload.timestamp;
        number = payload.block_number;
        basefee = payload.saturated_base_fee_per_gas;
        gas_limit = payload.gas_limit;
      })

  unfoldable pub evm_env : BlockHeader → EvmEnv
  evm_env header = env_at header.timestamp header.number header.beneficiary (record {
    prevrandao = header.mix_hash;
    difficulty = header.difficulty;
    timestamp = header.timestamp;
    number = header.number;
    basefee = unwrap_or header.base_fee_per_gas 0;
    gas_limit = header.gas_limit;
  })

  unfoldable pub next_evm_env : BlockHeader → ScrollNextBlockEnvAttributes → EvmEnv
  next_evm_env parent attributes =
      let number = wrap_add64 parent.number 1 in
      env_at attributes.timestamp number attributes.suggested_fee_recipient (record {
        prevrandao = some 0;
        difficulty = 1;
        timestamp = attributes.timestamp;
        number = number;
        basefee = attributes.base_fee;
        gas_limit = attributes.gas_limit;
      })

  abbrev check_base_fee :
      {X : Type 0}
      → Storage X
      → ℕ
      → Bool
      → BlockHeader
      → ℕ
      → Result (PreExecutionError X) (Unit {0})
  check_base_fee storage got same parent timestamp = do
    parent_inputs ← checked_parent same (from_header parent)
    expected ←
        map_err overhead_unreadable
          (next_block_base_fee_for_parent f config.chain_spec storage parent_inputs timestamp)
    reject_if (not (got == expected)) (invalid_base_fee got expected)

  -- `hash` is the hash that the sealed parent carries.
  unfoldable pub validate_block_pre_execution :
      {X : Type 0}
      → Storage X
      → EvmEnv
      → ℕ
      → ℕ
      → BlockHeader
      → Result (PreExecutionError X) (Unit {0})
  validate_block_pre_execution storage env parent_hash hash parent = do
    timestamp ← to64 env.block_env.timestamp
    number ← to64 env.block_env.number
    when_active
        (f.active_at_timestamp_or_number (config.chain_spec.activation feynman) timestamp number)
        (check_base_fee storage env.block_env.basefee (hash == parent_hash) parent timestamp)
