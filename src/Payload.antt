-- ===== src/Payload.antt =====
-- crates/dogeos-reth-payload/src/{lib, config}.rs: the resources of a payload under construction and
-- the limits on them. The children have the gas limit, the forced transactions, the pool loop and
-- the whole build.
pub mod GasLimit
pub mod Forced
pub mod Execute
pub mod Pool
pub mod Build
pub mod Within
pub mod Limits
pub mod Fuel
use dogeos_reth.Prelude.{ℕ, ◌-◌, Bool, Option, ◌||◌, ltb, is_some_and, sat_add64, wrap_add64}

abbrev pub min_transaction_data_size : ℕ
min_transaction_data_size = 115

-- `DEFAULT_MAX_CODE_WITNESS_BYTES` of crates/dogeos-reth-evm/src/code_witness.rs
abbrev pub default_max_code_witness_bytes : ℕ
default_max_code_witness_bytes = 33_554_432

-- The time limit is left out: whether it has passed is an argument of the test.
pub record ScrollBuilderConfig : Type 0 where
  pub gas_limit : Option ℕ
  pub max_da_block_size : Option ℕ
  pub max_code_witness_bytes : ℕ

abbrev pub new_config : Option ℕ → Option ℕ → ScrollBuilderConfig
new_config gas_limit max_da_block_size = record {
  gas_limit = gas_limit;
  max_da_block_size = max_da_block_size;
  max_code_witness_bytes = default_max_code_witness_bytes;
}

abbrev pub with_max_code_witness_bytes : ScrollBuilderConfig → ℕ → ScrollBuilderConfig
with_max_code_witness_bytes config limit = record config { max_code_witness_bytes = limit }

-- `PayloadBuildingBreaker::should_break`; revm's `MIN_TRANSACTION_GAS` is an argument.
unfoldable pub should_break : ℕ → ScrollBuilderConfig → Bool → ℕ → ℕ → Bool
should_break min_transaction_gas config time_up cumulative_gas_used cumulative_da_size_used =
    time_up
    || is_some_and config.gas_limit (λ limit. ltb (limit - min_transaction_gas) cumulative_gas_used)
    || is_some_and config.max_da_block_size
        (λ limit. ltb (limit - min_transaction_data_size) cumulative_da_size_used)

pub record ExecutionInfo : Type 0 where
  pub cumulative_gas_used : ℕ
  pub cumulative_da_bytes_used : ℕ
  pub total_fees : ℕ

abbrev pub new_info : ExecutionInfo
new_info = record { cumulative_gas_used = 0; cumulative_da_bytes_used = 0; total_fees = 0 }

-- What the builder asks of a transaction. `recovers` tells whether its signer can be recovered.
pub record TxApi (T : Type 0) : Type 0 where
  pub gas_limit : T → ℕ
  pub encode_2718_len : T → ℕ
  pub is_eip4844 : T → Bool
  pub is_l1_message : T → Bool
  pub recovers : T → Bool
  pub effective_tip_per_gas : T → ℕ → Option ℕ

module _ {T : Type 0} (api : TxApi T) where
  unfoldable pub record_tx : ExecutionInfo → T → ℕ → ExecutionInfo
  record_tx info tx gas_used = record info {
    cumulative_gas_used = wrap_add64 info.cumulative_gas_used gas_used;
    cumulative_da_bytes_used = wrap_add64 info.cumulative_da_bytes_used (api.encode_2718_len tx);
  }

  unfoldable pub is_tx_over_limits : ExecutionInfo → T → ℕ → Option ℕ → Bool
  is_tx_over_limits info tx block_gas_limit block_data_limit =
      is_some_and block_data_limit
        (λ limit. ltb limit (sat_add64 info.cumulative_da_bytes_used (api.encode_2718_len tx)))
      || ltb block_gas_limit (sat_add64 info.cumulative_gas_used (api.gas_limit tx))
