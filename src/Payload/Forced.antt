-- ===== src/Payload/Forced.antt =====
-- The forced transactions: crates/dogeos-reth-payload/src/forced.rs and their loop in
-- `build_payload` of builder.rs. Decoding a transaction is a parameter.
use dogeos_reth.Prelude.{
  ℕ, ◌≡◌, Bool, false, not, Option, none, some, List, [], ◌∷◌, ◌++◌, map, Result, ok, err, ◌>>=◌,
  Result-cases, inl, inr, ltb, if◌then◌else◌, length, sat_add64, wrap_add64, arith,
}
use dogeos_reth.CodeWitness.{Meter}
use dogeos_reth.Payload.{ExecutionInfo, TxApi, ScrollBuilderConfig}
use dogeos_reth.Payload.Execute.{
  BlockExecutionError, invalid_tx, fatal, ScrollPayloadBuilderError, transaction_ec_recover_failed,
  blob_transaction_rejected, block_gas_limit_exceeded_by_forced_transactions,
  block_da_limit_exceeded_by_forced_transactions, evm, Executor, Executed, execute_with_code_budget,
  forced_code_budget_result,
}

-- A transaction with the bytes that it was decoded from.
pub record WithEncoded (T : Type 0) : Type 0 where
  pub encoded_bytes : List ℕ
  pub value : T

pub data DecodeError : Type 0 where
  malformed unexpected_length : DecodeError

-- Where the decoder stops, the input must end.
abbrev at_end : {T : Type 0} → List ℕ → Option (T × List ℕ) → Result DecodeError (WithEncoded T)
at_end encoded none = err malformed
at_end encoded (some (tx, [])) = ok (record { encoded_bytes = encoded; value = tx })
at_end encoded (some (tx, byte ∷ rest)) = err unexpected_length

unfoldable pub decode_all :
    {T : Type 0}
    → (List ℕ → Option (T × List ℕ))
    → List (List ℕ)
    → Result DecodeError (List (WithEncoded T))
decode_all decode [] = ok []
decode_all decode (encoded ∷ rest) = do
  tx ← at_end encoded (decode encoded)
  txs ← decode_all decode rest
  ok (tx ∷ txs)

-- The argument is the `transactions` field of the attributes.
unfoldable pub decode_forced_transactions :
    {T : Type 0}
    → (List ℕ → Option (T × List ℕ))
    → Option (List (List ℕ))
    → Result DecodeError (List (WithEncoded T))
unfolding decode_all
decode_forced_transactions decode none = ok []
decode_forced_transactions decode (some transactions) = decode_all decode transactions

unfoldable pub da_bytes_from : {T : Type 0} → ℕ → List (WithEncoded T) → ℕ
da_bytes_from total [] = total
da_bytes_from total (tx ∷ txs) = da_bytes_from (sat_add64 total (length tx.encoded_bytes)) txs

unfoldable pub forced_transactions_da_bytes : {T : Type 0} → List (WithEncoded T) → ℕ
unfolding da_bytes_from
forced_transactions_da_bytes txs = da_bytes_from 0 txs

abbrev pub limit_of : Option ℕ → ℕ
limit_of none = 0
limit_of (some limit) = limit

abbrev pub exceeds : Option ℕ → ℕ → Bool
exceeds none bytes = false
exceeds (some limit) bytes = ltb limit bytes

-- The variables of `build_payload` that the loops change.
pub record Building (B : Type 0) : Type 0 where
  pub builder : B
  pub meter : Meter
  pub info : ExecutionInfo

module _ {X B T : Type 0} (api : TxApi T) (executor : Executor X B T) (config : ScrollBuilderConfig)
    (block_gas_limit : ℕ) where
  -- `none` is an invalid transaction, which is skipped.
  abbrev pub forced_gas_used :
      Result (BlockExecutionError X) (Option ℕ) → Result (ScrollPayloadBuilderError X) (Option ℕ)
  forced_gas_used (ok gas_used) = do
    gas ← forced_code_budget_result gas_used config.max_code_witness_bytes
    ok (some gas)
  forced_gas_used (err (invalid_tx nonce_too_low)) = ok none
  forced_gas_used (err (fatal e)) = err (evm (fatal e))

  abbrev pub after_forced : Executed X B → ℕ → Building B → Option ℕ → Building B
  after_forced done encoded_len s none = record s { builder = done.builder; meter = done.meter }
  after_forced done encoded_len s (some gas_used) = record {
    builder = done.builder;
    meter = done.meter;
    info = record s.info {
      cumulative_gas_used = wrap_add64 s.info.cumulative_gas_used gas_used;
      cumulative_da_bytes_used = wrap_add64 s.info.cumulative_da_bytes_used encoded_len;
    };
  }

  abbrev pub push_gas : List ℕ → Option ℕ → List ℕ
  push_gas forced_gas none = forced_gas
  push_gas forced_gas (some gas_used) = forced_gas ++ gas_used ∷ []

  unfoldable pub execute_forced :
      List (WithEncoded T) → List ℕ → Building B → Result (ScrollPayloadBuilderError X) (Building B)
  unfolding execute_with_code_budget forced_code_budget_result
  execute_forced [] forced_gas s = ok s
  execute_forced (forced ∷ rest) forced_gas s =
      let tx = forced.value in
      let encoded_len = length forced.encoded_bytes in
      let done = execute_with_code_budget executor s.builder tx s.meter in
      let continued = (do
        gas ← forced_gas_used done.outcome
        execute_forced rest (push_gas forced_gas gas) (after_forced done encoded_len s gas)) in
      if api.is_eip4844 tx
      then err blob_transaction_rejected
      else if not (api.recovers tx)
      then err transaction_ec_recover_failed
      else if ltb block_gas_limit (sat_add64 s.info.cumulative_gas_used (api.gas_limit tx))
      then err (
          block_gas_limit_exceeded_by_forced_transactions (forced_gas ++ api.gas_limit tx ∷ [])
            block_gas_limit)
      else continued

  -- The DA check on all forced transactions, then their loop.
  unfoldable pub run_forced :
      List (WithEncoded T) → Building B → Result (ScrollPayloadBuilderError X) (Building B)
  unfolding execute_forced forced_transactions_da_bytes
  run_forced forced s =
      let bytes = forced_transactions_da_bytes forced in
      if exceeds config.max_da_block_size bytes
      then err
          (block_da_limit_exceeded_by_forced_transactions bytes (limit_of config.max_da_block_size))
      else execute_forced forced [] s

at_end-bytes :
    {T : Type 0} (encoded : List ℕ) (decoded : Option (T × List ℕ)) (tx : WithEncoded T)
    → at_end encoded decoded ≡ ok tx
    → tx.encoded_bytes ≡ encoded
at_end-bytes encoded none tx h = ground arith
at_end-bytes encoded (some (t, [])) tx h = ground arith
at_end-bytes encoded (some (t, b ∷ r)) tx h = ground arith

-- Decoding keeps every forced transaction's bytes, in order.
pub decode_forced_transactions-bytes :
    {T : Type 0} (decode : List ℕ → Option (T × List ℕ)) (transactions : List (List ℕ))
    (txs : List (WithEncoded T))
    → decode_forced_transactions decode (some transactions) ≡ ok txs
    → map (λ tx. tx.encoded_bytes) txs ≡ transactions
unfolding decode_forced_transactions
decode_forced_transactions-bytes decode [] txs h = ground arith
decode_forced_transactions-bytes decode (encoded ∷ rest) txs h =
    elim (Result-cases (at_end encoded (decode encoded))) [
      | inr (e, bad) ↦ let h' = rw bad at h in ground arith
      | inl (tx, good) ↦ elim (Result-cases (decode_all decode rest)) [
        | inr (e, bad) ↦ let h' = rw (good, bad) at h in ground arith
        | inl (more, all) ↦
            let h' = rw (good, all) at h in
            ground (
              arith,
              at_end-bytes encoded (decode encoded) tx good,
              decode_forced_transactions-bytes decode rest more all,
            )
      ]
    ]
