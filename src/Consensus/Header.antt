-- ===== src/Consensus/Header.antt =====
-- `validate_header`, `validate_header_timestamp` and `validate_header_against_parent` of
-- crates/dogeos-reth-consensus/src/lib.rs. The clock is the argument `now`.
use dogeos_reth.Prelude.{
  ℕ, ◌≤◌, ◌≡◌, ◌↔◌, Bool, true, false, not, ◌||◌, Option, none, some, List, [], ◌∷◌, Result, ok,
  err, ltb, ◌==◌, if◌then◌else◌, arith, is_some, reject_if, map_err, ◌>>◌,
}
use dogeos_reth.Consensus.{
  base_fee_missing, base_fee_over_limit, extra_data_not_empty, blob_fields_present,
  mix_hash_not_zero, nonce_not_zero, coinbase_not_zero, difficulty_not_one, ConsensusError, other,
  shared, ommer_root_is_not_empty, timestamp_is_in_past, BlockHeader, SharedRules,
}
use dogeos_reth.Consensus.GasLimit.{
  validate_gas_limit_against_parent, IsReachable, validate_gas_limit_iff,
}

-- `MAX_L2_BASE_FEE` and its name here, `DOGEOS_MAXIMUM_BASE_FEE`: 420,000 gwei.
abbrev pub maximum_base_fee : ℕ
maximum_base_fee = 420_000_000_000_000

abbrev pub dogeos_block_difficulty : ℕ
dogeos_block_difficulty = 1

-- `header.mix_hash() != Some(B256::ZERO)`, and so for the nonce
abbrev pub is_some_zero : Option ℕ → Bool
is_some_zero none = false
is_some_zero (some v) = v == 0

abbrev pub is_empty : List ℕ → Bool
is_empty [] = true
is_empty (b ∷ bs) = false

module _ {X : Type 0} (rules : SharedRules X) where
  abbrev Check : Type 0
  Check = Result (ConsensusError X) (Unit {0})

  unfoldable pub validate_header_timestamp : ℕ → BlockHeader → Check
  validate_header_timestamp now header =
      if ltb now header.timestamp then err (timestamp_is_in_past now header.timestamp) else ok tt

  -- The `let Some(base_fee) = … else` and the bound on it.
  abbrev check_base_fee : Option ℕ → Check
  check_base_fee none = err (other base_fee_missing)
  check_base_fee (some fee) = reject_if (ltb maximum_base_fee fee) (other base_fee_over_limit)

  unfoldable pub validate_header : ℕ → BlockHeader → Check
  unfolding validate_header_timestamp
  validate_header now header = do
    reject_if (not (header.ommers_hash == rules.empty_ommer_root_hash)) ommer_root_is_not_empty
    reject_if (not (is_some_zero header.mix_hash)) (other (mix_hash_not_zero header.mix_hash))
    reject_if (not (header.beneficiary == 0)) (other (coinbase_not_zero header.beneficiary))
    reject_if (not (is_some_zero header.nonce)) (other (nonce_not_zero header.nonce))
    reject_if (not (header.difficulty == dogeos_block_difficulty))
        (other (difficulty_not_one header.difficulty))
    reject_if (not (is_empty header.extra_data)) (other extra_data_not_empty)
    check_base_fee header.base_fee_per_gas
    reject_if
        (is_some header.withdrawals_root
          || is_some header.blob_gas_used
          || is_some header.excess_blob_gas
          || is_some header.parent_beacon_block_root
          || is_some header.requests_hash)
        (other blob_fields_present)
    validate_header_timestamp now header
    map_err shared (rules.validate_header_gas header)

  -- What a DogeOS header must be, at the clock `now`.
  pub record IsCanonical (now : ℕ) (header : BlockHeader) : Type 0 where
    pub no_ommers : header.ommers_hash ≡ rules.empty_ommer_root_hash
    pub zero_mix_hash : header.mix_hash ≡ some 0
    pub zero_coinbase : header.beneficiary ≡ 0
    pub zero_nonce : header.nonce ≡ some 0
    pub difficulty_one : header.difficulty ≡ 1
    pub no_extra_data : header.extra_data ≡ []
    pub base_fee : ℕ
    pub has_base_fee : header.base_fee_per_gas ≡ some base_fee
    pub base_fee_bound : base_fee ≤ maximum_base_fee
    pub no_withdrawals : header.withdrawals_root ≡ none
    pub no_blob_gas : header.blob_gas_used ≡ none
    pub no_excess_blob_gas : header.excess_blob_gas ≡ none
    pub no_beacon_root : header.parent_beacon_block_root ≡ none
    pub no_requests : header.requests_hash ≡ none
    pub not_future : header.timestamp ≤ now
    pub gas_accepted : rules.validate_header_gas header ≡ ok tt

  pub canonical_accepted :
      (now : ℕ) (header : BlockHeader) → IsCanonical now header → validate_header now header ≡ ok tt
  unfolding validate_header
  canonical_accepted now header c = ground arith

  pub base_fee_of :
      (now : ℕ) (header : BlockHeader)
      → validate_header now header ≡ ok tt
      → (fee : ℕ) × (header.base_fee_per_gas ≡ some fee) × (fee ≤ maximum_base_fee)
  unfolding validate_header
  base_fee_of now header h = ground arith

  pub accepted-IsCanonical :
      (now : ℕ) (header : BlockHeader) → validate_header now header ≡ ok tt → IsCanonical now header
  unfolding validate_header
  accepted-IsCanonical now header h =
      let fee = base_fee_of now header h in
      record {
        no_ommers = ground arith;
        zero_mix_hash = ground arith;
        zero_coinbase = ground arith;
        zero_nonce = ground arith;
        difficulty_one = ground arith;
        no_extra_data = ground arith;
        base_fee = fee.0;
        has_base_fee = fee.1;
        base_fee_bound = fee.2;
        no_withdrawals = ground arith;
        no_blob_gas = ground arith;
        no_excess_blob_gas = ground arith;
        no_beacon_root = ground arith;
        no_requests = ground arith;
        not_future = ground arith;
        gas_accepted = ground arith;
      }

  -- The header check accepts exactly the canonical headers: no ommers, zero mix hash, coinbase and
  -- nonce, difficulty one, no extra data, a base fee of at most 420,000 gwei, no withdrawals, blob
  -- or request fields, a timestamp that is not in the future, and gas that reth's check accepts.
  pub validate_header_iff :
      (now : ℕ) (header : BlockHeader)
      → (validate_header now header ≡ ok tt) ↔ IsCanonical now header
  validate_header_iff now header = (accepted-IsCanonical now header, canonical_accepted now header)

  unfoldable pub validate_header_against_parent : BlockHeader → BlockHeader → Check
  validate_header_against_parent header parent = do
    map_err shared (rules.validate_against_parent_hash_number header parent)
    reject_if (ltb header.timestamp parent.timestamp)
        (timestamp_is_in_past parent.timestamp header.timestamp)
    validate_gas_limit_against_parent rules header.gas_limit parent.gas_limit

  -- What a child of a block must be.
  pub record IsChild (header parent : BlockHeader) : Type 0 where
    pub linked : rules.validate_against_parent_hash_number header parent ≡ ok tt
    pub not_older : parent.timestamp ≤ header.timestamp
    pub reachable : IsReachable rules parent.gas_limit header.gas_limit

  -- The check against the parent accepts exactly the headers that pass reth's check of hash and
  -- number, are not older than the parent (they may have the same timestamp), and have a gas limit
  -- that is reachable from the parent's.
  pub validate_header_against_parent_iff :
      (header parent : BlockHeader)
      → (validate_header_against_parent header parent ≡ ok tt) ↔ IsChild header parent
  unfolding validate_header_against_parent
  validate_header_against_parent_iff header parent =
      let gas = validate_gas_limit_iff rules parent.gas_limit header.gas_limit in
      (
        λ h. record {
          linked = ground arith;
          not_older = ground arith;
          reachable = gas.0 (ground arith);
        },
        λ c. let g = gas.1 c.reachable in ground arith,
      )
