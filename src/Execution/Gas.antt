-- ===== src/Execution/Gas.antt =====
-- The gas accounting of the block executor.
use mathlib.Core.Path.{subst}
use dogeos_reth.Prelude.{
  ℕ, ◌+◌, ◌≤◌, ◌≡◌, refl, ap, ◌∙◌, Bool, some, Option-cases, inl, inr, List, [], ◌∷◌, ◌++◌, Result,
  ok, err, bind-ok, map_err-ok, ok-injective, map_err, reject_if, ltb, ◌==◌, length, length-append,
  wrap_add64, u64_max, arith, suc,
}
use dogeos_reth.Hardforks.{ForkConditions, Activation}
use dogeos_reth.Types.TxType.{TxTypeError, ScrollTxType, try_from_u8, l1_message_tx_type_id}
use dogeos_reth.Types.Receipt.{
  Receipt, ScrollReceipt, as_receipt, receipt_of, build_receipt, last_cumulative_gas,
}
use dogeos_reth.Execution.{
  ResultAndState, ScrollTxResult, ExecutableTx, EvmApi, evm, ScrollBlockExecutor,
  BlockExecutionResult, new, available_gas, l1_fee_of, execute_transaction_without_commit,
  commit_transaction, execute_transaction, finish, execute_all, apply_pre_execution_changes,
  pre_execution, execute_block_with_compression_cache,
}

last-append :
    {L : Type 0} (receipts : List (ScrollReceipt L)) (receipt : ScrollReceipt L)
    → last_cumulative_gas (receipts ++ receipt ∷ []) ≡ (as_receipt receipt).cumulative_gas_used
unfolding last_cumulative_gas
last-append [] receipt = refl
last-append (r ∷ []) receipt = refl
last-append (r ∷ r' ∷ receipts) receipt = last-append (r' ∷ receipts) receipt

receipt_of-inner :
    {L : Type 0} (inner : Receipt L) (fee : ℕ) (ty : Result TxTypeError ScrollTxType)
    (receipt : ScrollReceipt L)
    → receipt_of inner fee ty ≡ some receipt
    → (as_receipt receipt).cumulative_gas_used ≡ inner.cumulative_gas_used
unfolding as_receipt
receipt_of-inner inner fee (ok ScrollTxType.legacy) receipt h = ground arith
receipt_of-inner inner fee (ok ScrollTxType.eip2930) receipt h = ground arith
receipt_of-inner inner fee (ok ScrollTxType.eip1559) receipt h = ground arith
receipt_of-inner inner fee (ok ScrollTxType.eip7702) receipt h = ground arith
receipt_of-inner inner fee (ok ScrollTxType.l1_message) receipt h = ground arith
receipt_of-inner inner fee (err e) receipt h = ground arith

-- The gas used fits the block and is what the last receipt says, and there is a receipt for each of
-- `count` transactions.
pub record IsAccounted {D L : Type 0} (block_gas_limit count : ℕ) (s : ScrollBlockExecutor D L)
    : Type 0 where
  pub within : s.gas_used ≤ block_gas_limit
  pub last : last_cumulative_gas s.receipts ≡ s.gas_used
  pub one_each : length s.receipts ≡ count

recount :
    {D L : Type 0} {limit a b : ℕ} {s : ScrollBlockExecutor D L}
    → a ≡ b
    → IsAccounted limit a s
    → IsAccounted limit b s
recount {limit = limit} {s = s} same v = subst (λ n. IsAccounted limit n s) same v

module _ {X D T L S : Type 0} (f : ForkConditions) (api : ExecutableTx T) (env : EvmApi X D T L S)
    (activation : Activation f) (fits : env.block_gas_limit ≤ u64_max)
    (gas_law : (db : D) (fee nonce : Bool) (tx : T) (r : ResultAndState L S)
      → env.transact db fee nonce tx ≡ ok r
      → r.gas_used ≤ api.gas_limit tx) where
  abbrev built : ScrollBlockExecutor D L → T → ResultAndState L S → ℕ → ScrollTxResult L S
  built s tx r fee = record { result = r; l1_fee = fee; tx_type = api.ty tx }

  executed_gas :
      (s : ScrollBlockExecutor D L) (tx : T) (output : ScrollTxResult L S)
      → s.gas_used ≤ env.block_gas_limit
      → execute_transaction_without_commit f api env activation s tx ≡ ok output
      → s.gas_used + output.result.gas_used ≤ env.block_gas_limit
  unfolding execute_transaction_without_commit
  executed_gas s tx output v h =
      let (u, gas_ok, h1) =
        bind-ok (reject_if (ltb (available_gas f api env activation s) (api.gas_limit tx)) _) _
          output h in
      let (u', blob_ok, h2) = bind-ok (reject_if (api.is_eip4844 tx) _) _ output h1 in
      let (r, ran, h3) = bind-ok (map_err evm _) _ output h2 in
      let (fee, fee_ok, h4) =
        bind-ok
          (l1_fee_of f api env activation (api.ty tx == l1_message_tx_type_id) (env.l1_fee s.db tx))
          (λ fee. ok (built s tx r fee)) output h3 in
      let used = gas_law s.db _ _ tx r (map_err-ok evm _ r ran) in
      let same : r ≡ output.result =
        ap (λ (o : ScrollTxResult L S). o.result) (ok-injective (built s tx r fee) output h4) in
      let room : api.gas_limit tx ≤ available_gas f api env activation s = ground arith in
      let same_gas = ap (λ (o : ResultAndState L S). o.gas_used) same in omega arith

  committed-IsAccounted :
      (count : ℕ) (s : ScrollBlockExecutor D L) (output : ScrollTxResult L S)
      (done : ℕ × ScrollBlockExecutor D L)
      → IsAccounted env.block_gas_limit count s
      → s.gas_used + output.result.gas_used ≤ env.block_gas_limit
      → commit_transaction f api env activation s output ≡ ok done
      → IsAccounted env.block_gas_limit (suc count) done.1
  unfolding commit_transaction build_receipt
  committed-IsAccounted count s output done v room h =
      let total = wrap_add64 s.gas_used output.result.gas_used in
      let inner : Receipt L = record {
        status = output.result.is_success;
        cumulative_gas_used = total;
        logs = output.result.logs;
      } in
      elim (Option-cases (build_receipt inner output.l1_fee output.tx_type)) [
        | inl e ↦ let h' = rw e at h in cc
        | inr (receipt, e) ↦
            let same = ok-injective _ _ (rw e at h) in
            subst (λ d. IsAccounted env.block_gas_limit (suc count) d.1) same
              (record {
                within = omega (arith, v.within);
                last =
                    last-append s.receipts receipt
                    ∙ receipt_of-inner inner output.l1_fee (try_from_u8 output.tx_type) receipt e;
                one_each =
                    let grown = length-append s.receipts (receipt ∷ []) in
                    omega (arith, v.one_each);
              })
      ]

  all-IsAccounted :
      (txs : List T) (infos : List (ℕ × ℕ)) (count : ℕ) (s s' : ScrollBlockExecutor D L)
      → IsAccounted env.block_gas_limit count s
      → execute_all f api env activation txs infos s ≡ ok s'
      → IsAccounted env.block_gas_limit (count + length txs) s'
  unfolding execute_all
  all-IsAccounted [] [] count s s' v h =
      recount (omega arith) (subst (IsAccounted env.block_gas_limit count) (ok-injective s s' h) v)
  all-IsAccounted [] (info ∷ infos) count s s' v h = cc
  all-IsAccounted (tx ∷ txs) [] count s s' v h = cc
  all-IsAccounted (tx ∷ txs) (info ∷ infos) count s s' v h =
      let (s1, ran, h1) =
        bind-ok (execute_transaction f api env activation s (api.with_compression_info tx info)) _
          s' h in
      let (output, executed, h2) =
        bind-ok
          (execute_transaction_without_commit f api env activation s
            (api.with_compression_info tx info))
          _ s1 ran in
      let (done, committed, h3) =
        bind-ok (commit_transaction f api env activation s output) _ s1 h2 in
      let v1 =
        committed-IsAccounted count s output done v (executed_gas s _ output v.within executed)
          committed in
      let rest =
        all-IsAccounted txs infos (suc count) s1 s'
          (subst (IsAccounted env.block_gas_limit (suc count)) (ok-injective _ _ h3) v1) h1 in
      recount (omega arith) rest

  -- A block that executes has a receipt for each of its transactions, the gas used is within the
  -- gas limit of the block, and it is the cumulative gas of the last receipt, where the EVM uses at
  -- most a transaction's gas limit. The block's gas limit is a u64.
  pub executed_block_gas :
      (txs : List T) (infos : List (ℕ × ℕ)) (db : D) (result : BlockExecutionResult L)
      → execute_block_with_compression_cache f api env activation txs infos db ≡ ok result
      → (result.gas_used ≤ env.block_gas_limit)
        × (last_cumulative_gas result.receipts ≡ result.gas_used)
        × (length result.receipts ≡ length txs)
  unfolding execute_block_with_compression_cache apply_pre_execution_changes finish
      last_cumulative_gas
  executed_block_gas txs infos db result h =
      let (s, ready, h1) =
        bind-ok (apply_pre_execution_changes f api env activation (new f api env activation db)) _
          result h in
      let (db', changed, h2) =
        bind-ok (map_err evm (pre_execution f api env activation db)) _ s ready in
      let start : IsAccounted env.block_gas_limit 0 s =
        subst (IsAccounted env.block_gas_limit 0) (ok-injective _ _ h2)
          (record { within = omega arith; last = refl; one_each = refl }) in
      let (s', ran, h3) = bind-ok (execute_all f api env activation txs infos s) _ result h1 in
      let v = all-IsAccounted txs infos 0 s s' start ran in
      subst
        (λ (r : BlockExecutionResult L).
          (r.gas_used ≤ env.block_gas_limit)
          × (last_cumulative_gas r.receipts ≡ r.gas_used)
          × (length r.receipts ≡ length txs))
        (ok-injective _ _ h3) (v.within, v.last, omega (arith, v.one_each))
