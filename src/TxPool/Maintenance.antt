-- ===== src/TxPool/Maintenance.antt =====
-- crates/dogeos-reth-txpool/src/maintenance.rs: the base fee that the pool enforces. The client and
-- the inner pool are reth's; of the pool only its block info matters here, which an update replaces.
-- `none` is a panic.
use dogeos_reth.Prelude.{
  ℕ, ◌≤◌, ◌≡◌, ◌≢◌, ◌⊎◌, inl, inr, refl, Option, none, some, List, [], ◌∷◌, Result, ok, err, ◌==◌,
  if◌then◌else◌, sat_add64, arith,
}
use dogeos_reth.Hardforks.{ForkConditions}
use dogeos_reth.Consensus.{BlockHeader}
use dogeos_reth.BaseFee.{ChainSpec, Storage, max_l2_base_fee, predict_next_block_base_fee}
use dogeos_reth.BaseFee.Bounds.{next_block_base_fee_bounds}

pub record BlockInfo : Type 0 where
  pub last_seen_block_hash : ℕ
  pub pending_basefee : ℕ

pub data ProviderError (R : Type 0) : Type 0 where
  header_not_found : ℕ → ProviderError R
  provider : R → ProviderError R

pub record Client (R : Type 0) : Type 0 where
  pub header : ℕ → Result R (Option BlockHeader)
  pub state_by_block_hash : ℕ → Result R (Storage (ProviderError R))

module _ {R : Type 0} (f : ForkConditions) (spec : ChainSpec f) (client : Client R) where
  abbrev Fee : Type 0
  Fee = Option (Result (ProviderError R) ℕ)

  abbrev predicted : Result R (Storage (ProviderError R)) → BlockHeader → Fee
  predicted (err e) header = some (err (provider e))
  predicted (ok state) header = predict_next_block_base_fee f spec state header

  abbrev fee_of : ℕ → BlockHeader → Option ℕ → Fee
  fee_of hash header none = some (ok 0)
  fee_of hash header (some fee) = predicted (client.state_by_block_hash hash) header

  abbrev fee_after : ℕ → Result R (Option BlockHeader) → Fee
  fee_after hash (err e) = some (err (provider e))
  fee_after hash (ok none) = some (err (header_not_found hash))
  fee_after hash (ok (some header)) = fee_of hash header header.base_fee_per_gas

  unfoldable pub next_base_fee : ℕ → Fee
  unfolding predict_next_block_base_fee
  next_base_fee hash = fee_after hash (client.header hash)

  -- The fee when the next one cannot be read.
  abbrev kept : BlockInfo → ℕ
  kept previous =
      if previous.last_seen_block_hash == 0 then max_l2_base_fee else previous.pending_basefee

  abbrev fee_or_kept : BlockInfo → Fee → Option ℕ
  fee_or_kept previous none = none
  fee_or_kept previous (some (ok fee)) = some fee
  fee_or_kept previous (some (err e)) = some (kept previous)

  unfoldable pub pending_base_fee : BlockInfo → ℕ → Option ℕ
  unfolding next_base_fee
  pending_base_fee previous hash = fee_or_kept previous (next_base_fee hash)

  abbrev with_fee : ℕ → Option ℕ → Option BlockInfo
  with_fee hash none = none
  with_fee hash (some fee) = some (record { last_seen_block_hash = hash; pending_basefee = fee })

  -- `set_block_info` and `on_canonical_state_change`: both give the pool the head's hash and fee.
  unfoldable pub update_head : BlockInfo → ℕ → Option BlockInfo
  unfolding pending_base_fee
  update_head previous hash = with_fee hash (pending_base_fee previous hash)

  abbrev then_updates : (BlockInfo → Option BlockInfo) → Option BlockInfo → Option BlockInfo
  then_updates k none = none
  then_updates k (some info) = k info

  unfoldable pub update_heads : List ℕ → BlockInfo → Option BlockInfo
  unfolding update_head
  update_heads [] info = some info
  update_heads (hash ∷ hashes) info =
      then_updates (λ next. update_heads hashes next) (update_head info hash)

  -- A head has been seen and the fee is within the protocol's cap, or no head has been seen.
  abbrev pub IsCapped : BlockInfo → Type 0
  IsCapped info = (info.last_seen_block_hash ≡ 0) ⊎ (info.pending_basefee ≤ max_l2_base_fee)

  abbrev CappedFee : Fee → Type 0
  CappedFee none = ⊥
  CappedFee (some (ok fee)) = fee ≤ max_l2_base_fee
  CappedFee (some (err e)) = Unit

  capped_of :
      (fee : Fee) → fee ≢ none → ((n : ℕ) → fee ≡ some (ok n) → n ≤ max_l2_base_fee) → CappedFee fee
  capped_of none present bound = present refl
  capped_of (some (ok n)) present bound = bound n refl
  capped_of (some (err e)) present bound = tt

  predicted_capped :
      (state : Result R (Storage (ProviderError R))) (header : BlockHeader) (base_fee : ℕ)
      → header.base_fee_per_gas ≡ some base_fee
      → CappedFee (predicted state header)
  unfolding predict_next_block_base_fee
  predicted_capped (err e) header base_fee has = tt
  predicted_capped (ok state) header base_fee has =
      capped_of _ (λ h. ground arith)
        (λ n h.
          (next_block_base_fee_bounds f spec state header (sat_add64 header.timestamp 1) n h).1)

  fee_of-capped :
      (hash : ℕ) (header : BlockHeader) (fee : Option ℕ)
      → header.base_fee_per_gas ≡ fee
      → CappedFee (fee_of hash header fee)
  fee_of-capped hash header none has = omega arith
  fee_of-capped hash header (some fee) has =
      predicted_capped (client.state_by_block_hash hash) header fee has

  fee_after-capped :
      (hash : ℕ) (header : Result R (Option BlockHeader)) → CappedFee (fee_after hash header)
  fee_after-capped hash (err e) = tt
  fee_after-capped hash (ok none) = tt
  fee_after-capped hash (ok (some header)) = fee_of-capped hash header header.base_fee_per_gas refl

  kept_or_fee :
      (info : BlockInfo) (fee : Fee)
      → IsCapped info
      → CappedFee fee
      → (n : ℕ) × (fee_or_kept info fee ≡ some n) × (n ≤ max_l2_base_fee)
  kept_or_fee info none v c = absurd c
  kept_or_fee info (some (ok n)) v c = (n, refl, c)
  kept_or_fee info (some (err e)) v c = (kept info, refl, ground arith)

  update_head-capped :
      (info : BlockInfo) (hash : ℕ)
      → IsCapped info
      → (next : BlockInfo) × (update_head info hash ≡ some next)
        × (next.pending_basefee ≤ max_l2_base_fee)
  unfolding update_head
  update_head-capped info hash v =
      let (n, e, bound) =
        kept_or_fee info (next_base_fee hash) v (fee_after-capped hash (client.header hash)) in
      (record { last_seen_block_hash = hash; pending_basefee = n }, rw e refl, bound)

  updates-capped :
      (hashes : List ℕ) (info : BlockInfo)
      → info.pending_basefee ≤ max_l2_base_fee
      → (last : BlockInfo) × (update_heads hashes info ≡ some last)
        × (last.pending_basefee ≤ max_l2_base_fee)
  unfolding update_heads
  updates-capped [] info v = (info, refl, v)
  updates-capped (hash ∷ hashes) info v =
      let (next, e, bound) = update_head-capped info hash (inr v) in
      let (last, e', bound') = updates-capped hashes next bound in (last, rw e e', bound')

  -- From a pool that has seen no head, and whatever the provider can or cannot read, any positive
  -- number of head updates goes without a panic and leaves a pending base fee that is within the
  -- protocol's cap.
  pub pending_base_fee_capped :
      (hash : ℕ) (hashes : List ℕ) (info : BlockInfo)
      → info.last_seen_block_hash ≡ 0
      → (last : BlockInfo) × (update_heads (hash ∷ hashes) info ≡ some last)
        × (last.pending_basefee ≤ max_l2_base_fee)
  unfolding update_heads
  pending_base_fee_capped hash hashes info fresh =
      let (next, e, bound) = update_head-capped info hash (inl fresh) in
      let (last, e', bound') = updates-capped hashes next bound in (last, rw e e', bound')
