-- ===== src/TxPool/Validator.antt =====
-- `validate_one` and `validate_basic` of crates/dogeos-reth-txpool/src/validator.rs. reth's own
-- validator, the compression and revm's fee of the L1 data are parameters.
use mathlib.Core.Path.{subst}
use dogeos_reth.Prelude.{
  ℕ, ◌+◌, ◌*◌, ◌-◌, ◌^◌, ◌≤◌, ◌<◌, ◌≡◌, Bool, false, Option, none, some, Result, ok, err, ltb, leb,
  if◌then◌else◌, Bool-cases, Result-cases, inl, inr, refl, sat_add256, arith,
}
use dogeos_reth.Hardforks.{ForkConditions, Activation, is_tsuki_active_at_timestamp}
use dogeos_reth.TxPool.L1Fee.{
  DogeosL1FeeError, DogeosL1FeeSnapshot, DogeosL1FeeCache, ready, unavailable, disabled,
}

abbrev pub max_rollup_fee_pre_tsuki : ℕ
max_rollup_fee_pre_tsuki = 2 ^ 64 - 1

-- The limbs are u64::MAX and u32::MAX.
abbrev pub max_rollup_fee_tsuki : ℕ
max_rollup_fee_tsuki = (2 ^ 32 - 1) * 2 ^ 64 + (2 ^ 64 - 1)

pub data Rejection : Type 0 where
  eip4844_disabled tx_type_not_supported gas_uint_overflow : Rejection
  insufficient_funds : ℕ → ℕ → Rejection
  -- a rejection of reth's validator
  inner_rejection : ℕ → Rejection

pub data ValidationError (R : Type 0) : Type 0 where
  cache_unavailable : DogeosL1FeeError R → ValidationError R
  l1_fee_failed inner_failed admission_failed : R → ValidationError R

-- reth's outcome; of a valid one the balance and the transaction matter here.
pub data Outcome (R T : Type 0) : Type 0 where
  valid : ℕ → T → Outcome R T
  invalid : T → Rejection → Outcome R T
  error : T → ValidationError R → Outcome R T

pub record ValidatorEnv (R T L : Type 0) : Type 0 where
  pub is_eip4844 : T → Bool
  pub is_l1_message : T → Bool
  pub cost : T → ℕ
  pub inner_validate_one : T → Outcome R T
  -- the fee of the encoded transaction with its compression, at a timestamp and a number
  pub l1_tx_data_fee : L → ℕ → ℕ → T → Result R ℕ
  pub admission_check : Option (T → Result R (Unit {0}))

module _ {R T L : Type 0} (f : ForkConditions) (activation : Activation f)
    (env : ValidatorEnv R T L) where
  abbrev pub maximum_fee : ℕ → ℕ
  maximum_fee timestamp =
      if is_tsuki_active_at_timestamp f activation timestamp
      then max_rollup_fee_tsuki
      else max_rollup_fee_pre_tsuki

  abbrev check_fee : DogeosL1FeeSnapshot L → ℕ → T → Result R ℕ → Outcome R T
  check_fee snapshot balance tx (err e) = error tx (l1_fee_failed e)
  check_fee snapshot balance tx (ok l1_data_fee) =
      if leb (maximum_fee snapshot.timestamp) l1_data_fee
      then invalid tx gas_uint_overflow
      else if ltb balance (sat_add256 (env.cost tx) l1_data_fee)
      then invalid tx (insufficient_funds balance (sat_add256 (env.cost tx) l1_data_fee))
      else valid balance tx

  -- With a snapshot, a valid outcome of reth's is checked for the L1 fee.
  abbrev with_snapshot : DogeosL1FeeSnapshot L → Outcome R T → Outcome R T
  with_snapshot snapshot (valid balance tx) =
      check_fee snapshot balance tx
        (env.l1_tx_data_fee snapshot.l1_block_info snapshot.timestamp snapshot.number tx)
  with_snapshot snapshot (invalid tx e) = invalid tx e
  with_snapshot snapshot (error tx e) = error tx e

  abbrev by_cache : DogeosL1FeeCache R L → T → Outcome R T
  by_cache (ready snapshot) tx = with_snapshot snapshot (env.inner_validate_one tx)
  by_cache (unavailable e) tx = error tx (cache_unavailable e)
  by_cache disabled tx = env.inner_validate_one tx

  unfoldable pub validate_basic : DogeosL1FeeCache R L → T → Outcome R T
  validate_basic cache tx =
      if env.is_eip4844 tx
      then invalid tx eip4844_disabled
      else if env.is_l1_message tx
      then invalid tx tx_type_not_supported
      else by_cache cache tx

  abbrev admit_result : ℕ → T → Result R (Unit {0}) → Outcome R T
  admit_result balance tx (ok u) = valid balance tx
  admit_result balance tx (err e) = error tx (admission_failed e)

  abbrev admit_by : Option (T → Result R (Unit {0})) → Outcome R T → Outcome R T
  admit_by (some check) (valid balance tx) = admit_result balance tx (check tx)
  admit_by (some check) (invalid tx e) = invalid tx e
  admit_by (some check) (error tx e) = error tx e
  admit_by none outcome = outcome

  unfoldable pub validate_one : DogeosL1FeeCache R L → T → Outcome R T
  unfolding validate_basic
  validate_one cache tx = admit_by env.admission_check (validate_basic cache tx)

  -- What admission under a cache promises of the transaction.
  abbrev pub IsAffordable : DogeosL1FeeCache R L → ℕ → T → Type 0
  IsAffordable (ready snapshot) balance tx =
      (fee : ℕ) × (env.l1_tx_data_fee snapshot.l1_block_info snapshot.timestamp snapshot.number tx
        ≡ ok fee)
      × (fee < maximum_fee snapshot.timestamp)
      × (sat_add256 (env.cost tx) fee ≤ balance)
  IsAffordable (unavailable e) balance tx = ⊥
  IsAffordable disabled balance tx = Unit

  admitted_before :
      (check : Option (T → Result R (Unit {0}))) (outcome : Outcome R T) (balance : ℕ) (tx : T)
      → admit_by check outcome ≡ valid balance tx
      → outcome ≡ valid balance tx
  admitted_before none outcome balance tx h = h
  admitted_before (some check) (invalid t e) balance tx h = h
  admitted_before (some check) (error t e) balance tx h = h
  admitted_before (some check) (valid b t) balance tx h = elim (Result-cases (check t)) [
    | inl (u, e) ↦ rw e at h
    | inr (x, e) ↦ let h' = rw e at h in cc
  ]

  fee_checked :
      (snapshot : DogeosL1FeeSnapshot L) (b balance : ℕ) (t tx : T) (fee : Result R ℕ)
      → env.l1_tx_data_fee snapshot.l1_block_info snapshot.timestamp snapshot.number t ≡ fee
      → check_fee snapshot b t fee ≡ valid balance tx
      → IsAffordable (ready snapshot) balance tx
        × (◌≡◌ {A = Outcome R T} (valid b t) (valid balance tx))
  fee_checked snapshot b balance t tx (err e) was h = cc
  fee_checked snapshot b balance t tx (ok fee) was h =
      elim (Bool-cases (leb (maximum_fee snapshot.timestamp) fee)) [
        | inl e ↦ let h' = rw e at h in cc
        | inr e ↦ elim (Bool-cases (ltb b (sat_add256 (env.cost t) fee))) [
          | inl e' ↦ let h' = rw (e, e') at h in cc
          | inr e' ↦
              let same : ◌≡◌ {A = Outcome R T} (valid b t) (valid balance tx) = rw (e, e') at h in
              let balances : b ≡ balance = cc in
              let transactions : t ≡ tx = cc in
              let affordable : IsAffordable (ready snapshot) b t =
                (fee, was, ground arith, ground arith) in
              (
                subst (λ x. IsAffordable (ready snapshot) balance x) transactions
                    (subst (λ x. IsAffordable (ready snapshot) x t) balances affordable),
                same,
              )
        ]
      ]

  snapshot_checked :
      (snapshot : DogeosL1FeeSnapshot L) (outcome : Outcome R T) (balance : ℕ) (tx : T)
      → with_snapshot snapshot outcome ≡ valid balance tx
      → IsAffordable (ready snapshot) balance tx × (outcome ≡ valid balance tx)
  snapshot_checked snapshot (valid b t) balance tx h = fee_checked snapshot b balance t tx _ refl h
  snapshot_checked snapshot (invalid t e) balance tx h = cc
  snapshot_checked snapshot (error t e) balance tx h = cc

  cache_checked :
      (cache : DogeosL1FeeCache R L) (tx valid_tx : T) (balance : ℕ)
      → by_cache cache tx ≡ valid balance valid_tx
      → IsAffordable cache balance valid_tx × (env.inner_validate_one tx ≡ valid balance valid_tx)
  cache_checked (ready snapshot) tx valid_tx balance h =
      snapshot_checked snapshot (env.inner_validate_one tx) balance valid_tx h
  cache_checked (unavailable e) tx valid_tx balance h = cc
  cache_checked disabled tx valid_tx balance h = (tt, h)

  -- A transaction that the validator admits is neither a blob transaction nor an L1 message, is
  -- valid for reth's validator, and is not admitted while the L1 fee state is unavailable. Against
  -- a snapshot, its L1 fee is below the fork's maximum and its balance covers the sum of cost and
  -- fee, which saturates.
  pub validate_one_valid :
      (cache : DogeosL1FeeCache R L) (tx valid_tx : T) (balance : ℕ)
      → validate_one cache tx ≡ valid balance valid_tx
      → (env.is_eip4844 tx ≡ false)
        × (env.is_l1_message tx ≡ false)
        × IsAffordable cache balance valid_tx
        × (env.inner_validate_one tx ≡ valid balance valid_tx)
  unfolding validate_one
  validate_one_valid cache tx valid_tx balance h =
      let basic =
        admitted_before env.admission_check (validate_basic cache tx) balance valid_tx h in
      elim (Bool-cases (env.is_eip4844 tx)) [
        | inl e ↦ let h' = rw e at basic in cc
        | inr e ↦ elim (Bool-cases (env.is_l1_message tx)) [
          | inl e' ↦ let h' = rw (e, e') at basic in cc
          | inr e' ↦
              let checked = cache_checked cache tx valid_tx balance (rw (e, e') at basic) in
              (e, e', checked.0, checked.1)
        ]
      ]
