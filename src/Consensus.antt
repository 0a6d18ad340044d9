-- ===== src/Consensus.antt =====
-- crates/dogeos-reth-consensus/src/lib.rs: the consensus checks of blocks and headers. This file has
-- the errors, the header as its accessors show it, and what the checks take from reth and alloy; the
-- children have one check each, with its theorems.
pub mod L1Messages
pub mod GasLimit
pub mod Header
pub mod Body
pub mod Assemble
use dogeos_reth.Prelude.{ℕ, Option, List, Result}

pub data DogeosConsensusError : Type 0 where
  invalid_l1_message_order base_fee_missing base_fee_over_limit : DogeosConsensusError
  extra_data_not_empty withdrawals_present blob_fields_present : DogeosConsensusError
  mix_hash_not_zero nonce_not_zero : Option ℕ → DogeosConsensusError
  coinbase_not_zero difficulty_not_one : ℕ → DogeosConsensusError

-- reth's errors that the checks build. `other` carries the printed DogeOS error, `shared` an error
-- of reth's own checks, which are parameters.
pub data ConsensusError (X : Type 0) : Type 0 where
  other : DogeosConsensusError → ConsensusError X
  shared : X → ConsensusError X
  uncles_not_allowed ommer_root_is_not_empty : ConsensusError X
  body_transaction_root_diff : ConsensusError X
  timestamp_is_in_past : ℕ → ℕ → ConsensusError X
  gas_limit_invalid_increase gas_limit_invalid_decrease : ℕ → ℕ → ConsensusError X
  gas_limit_invalid_minimum : ℕ → ConsensusError X
  block_gas_used body_receipt_root_diff body_bloom_log_diff : ℕ → ℕ → ConsensusError X

-- A header, by the values of its accessors.
pub record BlockHeader : Type 0 where
  pub parent_hash : ℕ
  pub ommers_hash : ℕ
  pub beneficiary : ℕ
  pub state_root : ℕ
  pub transactions_root : ℕ
  pub receipts_root : ℕ
  pub logs_bloom : ℕ
  pub difficulty : ℕ
  pub number : ℕ
  pub gas_limit : ℕ
  pub gas_used : ℕ
  pub timestamp : ℕ
  pub extra_data : List ℕ
  pub mix_hash : Option ℕ
  pub nonce : Option ℕ
  pub base_fee_per_gas : Option ℕ
  pub withdrawals_root : Option ℕ
  pub blob_gas_used : Option ℕ
  pub excess_blob_gas : Option ℕ
  pub parent_beacon_block_root : Option ℕ
  pub requests_hash : Option ℕ

-- The constants and the shared checks of reth and alloy that the DogeOS checks call.
pub record SharedRules (X : Type 0) : Type 0 where
  pub gas_limit_bound_divisor : ℕ
  pub minimum_gas_limit : ℕ
  pub empty_ommer_root_hash : ℕ
  pub validate_header_gas : BlockHeader → Result X (Unit {0})
  pub validate_against_parent_hash_number : BlockHeader → BlockHeader → Result X (Unit {0})
