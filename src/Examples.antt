-- ===== src/Examples.antt =====
-- Concrete inputs: the data that the children share.
pub mod Consensus
pub mod BaseFee
pub mod Hardforks
pub mod CodeWitness
pub mod Types
pub mod Execution
pub mod Payload
pub mod TxPool
pub mod Rpc
pub mod Codecs
pub mod Encodings
pub mod Wire
pub mod Transitions
pub mod Admission
pub mod Assembled
pub mod Environments
pub mod Engine
pub mod FeeRefresh
use dogeos_reth.Prelude.{
  ℕ, Bool, false, Option, none, some, List, [], ◌∷◌, Result, ok, err, refl, ltb, leb, ◌==◌,
  if◌then◌else◌, u64_max, ◌+◌,
}
use dogeos_reth.Consensus.{BlockHeader, SharedRules}
use dogeos_reth.Hardforks.{
  DogeosHardfork, ForkConditions, Activation, feynman, galileo, galileo_v2, tsuki, tsuki_v2,
}
use dogeos_reth.BaseFee.{ChainSpec, BaseFeeParams}

abbrev pub ommers : ℕ
ommers = 77

abbrev pub rules : SharedRules ℕ
rules = record {
  gas_limit_bound_divisor = 1024;
  minimum_gas_limit = 5000;
  empty_ommer_root_hash = ommers;
  validate_header_gas = λ header. if ltb header.gas_limit header.gas_used then err 1 else ok tt;
  validate_against_parent_hash_number =
      λ header parent. if header.number == parent.number + 1 then ok tt else err 2;
}

abbrev pub header_at : ℕ → ℕ → ℕ → BlockHeader
header_at number timestamp gas_limit = record {
  parent_hash = 3;
  ommers_hash = ommers;
  beneficiary = 0;
  state_root = 4;
  transactions_root = 5;
  receipts_root = 6;
  logs_bloom = 0;
  difficulty = 1;
  number = number;
  gas_limit = gas_limit;
  gas_used = 21_000;
  timestamp = timestamp;
  extra_data = [];
  mix_hash = some 0;
  nonce = some 0;
  base_fee_per_gas = some 20_000_000;
  withdrawals_root = none;
  blob_gas_used = none;
  excess_blob_gas = none;
  parent_beacon_block_root = none;
  requests_hash = none;
}

-- Fork conditions as optional times.
abbrev pub active : Option ℕ → ℕ → Bool
active none now = false
active (some t) now = leb t now

abbrev pub forks : ForkConditions
forks = record {
  ForkCondition = Option ℕ;
  timestamp = λ t. some t;
  never = none;
  active_at_timestamp = active;
  active_at_timestamp_or_number = λ c now number. active c now;
  timestamp_active = λ t now. refl;
  never_active = λ now. refl;
  timestamp_active_or_number = λ t now number. refl;
  never_active_or_number = λ now number. refl;
}

abbrev pub activation : Activation forks
activation feynman = some 0
activation galileo = some 10
activation galileo_v2 = some 10
activation tsuki = some 20
activation tsuki_v2 = some 30

abbrev pub chain_spec : ChainSpec forks
chain_spec = record {
  activation = activation;
  base_fee_params_at_timestamp =
      λ t. record { max_change_denominator = 8; elasticity_multiplier = 2 };
  calc_next_block_base_fee = λ used limit fee params. fee + 1;
  l2_system_config_address = 9;
}

abbrev pub storage : ℕ → ℕ → Result ℕ ℕ
storage address slot = if slot == 101 then ok 5_000_000 else ok 0
