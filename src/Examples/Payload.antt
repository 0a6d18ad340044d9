-- ===== src/Examples/Payload.antt =====
-- A payload of one forced transaction and the transactions of a small pool.
use dogeos_reth.Prelude.{
  ℕ, ◌<◌, ◌≡◌, refl, true, false, Option, none, some, List, [], ◌∷◌, ok, u64_max, arith,
}
use dogeos_reth.CodeWitness.Inspector.{Context, on_initialize_interp}
use dogeos_reth.Consensus.GasLimit.{validate_gas_limit_against_parent}
use dogeos_reth.Payload.{TxApi, ScrollBuilderConfig}
use dogeos_reth.Payload.GasLimit.{next_block_gas_limit, next_block_gas_limit_accepted}
use dogeos_reth.Payload.Execute.{Executor}
use dogeos_reth.Payload.Forced.{WithEncoded, decode_forced_transactions}
use dogeos_reth.Payload.Pool.{BestTransactions, Signals}
use dogeos_reth.Payload.Limits.{IsExecutor}
use dogeos_reth.Payload.Build.{BuildEnv, ScrollPayloadAttributes, build_payload}
use dogeos_reth.Payload.Within.{IsBuildEnv, IsWithinOutcome, build_payload_within}
use dogeos_reth.Examples.{rules}

next_block_gas_limit_accepted_example :
    (selected : ℕ) × (next_block_gas_limit rules none (some 40_000) 30_000 ≡ some selected)
    × (validate_gas_limit_against_parent rules selected 30_000 ≡ ok tt)
next_block_gas_limit_accepted_example =
    next_block_gas_limit_accepted rules (some 40_000) 30_000 (omega arith) (omega arith)
      (λ t h. ground arith)

-- A transaction is its gas limit, and is encoded as that one number.
abbrev decode : List ℕ → Option (ℕ × List ℕ)
decode [] = none
decode (gas ∷ rest) = some (gas, rest)

abbrev encoded : List (List ℕ)
encoded = (21 ∷ []) ∷ (30 ∷ []) ∷ []

abbrev decoded : List (WithEncoded ℕ)
decoded =
    record { encoded_bytes = 21 ∷ []; value = 21 }
    ∷ record { encoded_bytes = 30 ∷ []; value = 30 }
    ∷ []

is_decoded : decode_forced_transactions decode (some encoded) ≡ ok decoded
unfolding decode_forced_transactions
is_decoded = refl

abbrev api : TxApi ℕ
api = record {
  gas_limit = λ tx. tx;
  encode_2718_len = λ tx. 1;
  is_eip4844 = λ tx. false;
  is_l1_message = λ tx. false;
  recovers = λ tx. true;
  effective_tip_per_gas = λ tx base_fee. some 2;
}

abbrev context : Context
context = record { authorization_list_len = 0; evm_state = [] }

-- The builder is the gas limit of its block. A transaction runs a code of its own size.
abbrev executor : Executor ℕ ℕ ℕ
executor b tx m = record {
  hooks = on_initialize_interp context none tx tx ∷ [];
  outcome = ok (tx, b);
}

abbrev best : BestTransactions (List ℕ) ℕ
best = record { next = next_of; mark_invalid = λ pool tx. pool }
  where
    next_of : List ℕ → Option (ℕ × List ℕ)
    next_of [] = none
    next_of (tx ∷ txs) = some (tx, txs)

abbrev signals : Signals
signals = record { is_cancelled = λ round. false; time_up = λ round. false }

abbrev config : ScrollBuilderConfig
config = record { gas_limit = none; max_da_block_size = some 500; max_code_witness_bytes = 60 }

abbrev env : BuildEnv ℕ ℕ ℕ (List ℕ) ℕ
env = record {
  create_block_builder = λ limit. limit;
  block_gas_limit = λ b. b;
  apply_pre_execution_changes = λ b m. record { hooks = []; outcome = ok b };
  executor = executor;
  finish = λ b m. record { hooks = []; outcome = ok b };
  decode = decode;
  best = best;
  best_txs = λ base_fee. 25 ∷ 400 ∷ [];
  signals = signals;
  is_better_payload = λ fees. true;
  base_fee = 1;
  min_transaction_gas = 21;
}

abbrev attributes : ScrollPayloadAttributes
attributes = record { transactions = some encoded; no_tx_pool = false; gas_limit = some 100 }

executor_law : IsExecutor (λ hash. hash) api executor
executor_law = record {
  gas = λ b tx m gas_used b' h. ground arith;
  sized = λ b tx m. ((tt, refl), tt);
}

env_law : IsBuildEnv (λ hash. hash) api env
env_law = record {
  executor = executor_law;
  pre_sized = λ b m. tt;
  finish_sized = λ b m. tt;
  gas_limit = λ limit m b h. ground arith;
}

da_below : (limit : ℕ) → config.max_da_block_size ≡ some limit → limit < u64_max
da_below limit h = ground arith

selected : next_block_gas_limit rules attributes.gas_limit config.gas_limit 30_000 ≡ some 100
unfolding next_block_gas_limit
selected = refl

build_payload_within_example :
    IsWithinOutcome rules
      (λ hash. hash)
      api
      env
      config
      attributes
      env_law
      100
      (build_payload rules api env config attributes 3 30_000)
build_payload_within_example =
    build_payload_within rules (λ hash. hash) api env config attributes env_law da_below 3 100
      (omega arith) 30_000 selected
