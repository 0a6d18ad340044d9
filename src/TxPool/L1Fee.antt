-- ===== src/TxPool/L1Fee.antt =====
-- The L1 fee cache of crates/dogeos-reth-txpool/src/validator.rs and its refresh. The provider is a
-- parameter: the chain may move between two reads, so the latest header is a function of the read's
-- number. The refresh lock makes a refresh one step of the cache. `R` stands for provider errors.

pub mod Refresh
use dogeos_reth.Prelude.{
  ◌>>◌, ℕ, zero, suc, ◌+◌, Bool, true, false, Option, none, some, Result, ok, err, ◌>>=◌, map_err,
  reject_if, not, ◌==◌, if◌then◌else◌,
}

pub record SealedHeader : Type 0 where
  pub hash : ℕ
  pub timestamp : ℕ
  pub number : ℕ

-- The error of a validation that meets an unavailable cache is in Validator.
pub data DogeosL1FeeError (R : Type 0) : Type 0 where
  latest_header_read : R → DogeosL1FeeError R
  latest_header_not_found : DogeosL1FeeError R
  exact_state_open oracle_account_read oracle_storage_read : ℕ → ℕ → R → DogeosL1FeeError R
  oracle_account_not_found : ℕ → ℕ → DogeosL1FeeError R
  refresh_head_moved : ℕ → SealedHeader → SealedHeader → DogeosL1FeeError R

pub record DogeosL1FeeSnapshot (L : Type 0) : Type 0 where
  pub head_hash : ℕ
  pub timestamp : ℕ
  pub number : ℕ
  pub l1_block_info : L

pub data DogeosL1FeeCache (R L : Type 0) : Type 0 where
  ready : DogeosL1FeeSnapshot L → DogeosL1FeeCache R L
  unavailable : DogeosL1FeeError R → DogeosL1FeeCache R L
  disabled : DogeosL1FeeCache R L

-- `V` is the state at a block. `try_fetch` reads the oracle's storage under the specification of a
-- timestamp and a number.
pub record Client (R L V : Type 0) : Type 0 where
  pub latest_header : ℕ → Result R (Option SealedHeader)
  pub state_by_block_hash : ℕ → Result R V
  pub has_oracle_account : V → Result R Bool
  pub try_fetch : V → ℕ → ℕ → Result R L

abbrev pub max_l1_fee_refresh_attempts : ℕ
max_l1_fee_refresh_attempts = 3

module _ {R L V : Type 0} (client : Client R L V) where
  abbrev some_header : Option SealedHeader → Result (DogeosL1FeeError R) SealedHeader
  some_header none = err latest_header_not_found
  some_header (some header) = ok header

  -- The `latest_header()` chain of a refresh, at the read `n`.
  unfoldable pub read_head : ℕ → Result (DogeosL1FeeError R) SealedHeader
  read_head n = map_err latest_header_read (client.latest_header n) >>= some_header

  abbrev snapshot_of : SealedHeader → L → DogeosL1FeeSnapshot L
  snapshot_of header info = record {
    head_hash = header.hash;
    timestamp = header.timestamp;
    number = header.number;
    l1_block_info = info;
  }

  unfoldable pub load_for_head : SealedHeader → Result (DogeosL1FeeError R) (DogeosL1FeeSnapshot L)
  load_for_head header = do
    provider ←
        map_err (exact_state_open header.hash header.number)
          (client.state_by_block_hash header.hash)
    found ←
        map_err (oracle_account_read header.hash header.number) (client.has_oracle_account provider)
    reject_if (not found) (oracle_account_not_found header.hash header.number)
    info ←
        map_err (oracle_storage_read header.hash header.number)
          (client.try_fetch provider header.timestamp header.number)
    ok (snapshot_of header info)

  -- The new cache, and whether validation can use a current snapshot.
  unfoldable pub publish_l1_fee_refresh :
      Result (DogeosL1FeeError R) (DogeosL1FeeSnapshot L) → DogeosL1FeeCache R L × Bool
  publish_l1_fee_refresh (ok snapshot) = (ready snapshot, true)
  publish_l1_fee_refresh (err error) = (unavailable error, false)

  abbrev is_ready_at : DogeosL1FeeCache R L → ℕ → Bool
  is_ready_at (ready snapshot) hash = snapshot.head_hash == hash
  is_ready_at (unavailable e) hash = false
  is_ready_at disabled hash = false

  -- The end of an attempt on `target`, with the header read after loading. `more` is the next
  -- attempt, and `last` tells whether there is none.
  abbrev verified :
      Bool
      → Option (DogeosL1FeeCache R L × Bool)
      → SealedHeader
      → Result (DogeosL1FeeError R) SealedHeader
      → Option (DogeosL1FeeCache R L × Bool)
  verified last more target (err e) = some (publish_l1_fee_refresh (err e))
  verified last more target (ok head) =
      if head.hash == target.hash
      then some (publish_l1_fee_refresh (load_for_head target))
      else if last
      then some (
          publish_l1_fee_refresh (err (refresh_head_moved max_l1_fee_refresh_attempts target head)))
      else more

  abbrev attempt :
      Bool
      → Option (DogeosL1FeeCache R L × Bool)
      → DogeosL1FeeCache R L
      → Result (DogeosL1FeeError R) SealedHeader
      → Result (DogeosL1FeeError R) SealedHeader
      → Option (DogeosL1FeeCache R L × Bool)
  attempt last more cache (err e) after = some (publish_l1_fee_refresh (err e))
  attempt last more cache (ok target) after =
      if is_ready_at cache target.hash then some (cache, true) else verified last more target after

  abbrev is_last : ℕ → Bool
  is_last zero = true
  is_last (suc left) = false

  -- The loop with the attempts that are left, from the read `n`; `none` is the `unreachable!`.
  unfoldable pub refresh_loop : ℕ → ℕ → DogeosL1FeeCache R L → Option (DogeosL1FeeCache R L × Bool)
  unfolding read_head load_for_head publish_l1_fee_refresh
  refresh_loop zero n cache = none
  refresh_loop (suc left) n cache =
      attempt (is_last left) (refresh_loop left (n + 2) cache) cache (read_head n)
        (read_head (n + 1))

  abbrev pub refresh_enabled : DogeosL1FeeCache R L → Option (DogeosL1FeeCache R L × Bool)
  refresh_enabled disabled = some (disabled, true)
  refresh_enabled (ready snapshot) = refresh_loop max_l1_fee_refresh_attempts 0 (ready snapshot)
  refresh_enabled (unavailable e) = refresh_loop max_l1_fee_refresh_attempts 0 (unavailable e)

  unfoldable pub refresh_l1_fee_cache_from_latest :
      DogeosL1FeeCache R L → Option (DogeosL1FeeCache R L × Bool)
  unfolding refresh_loop
  refresh_l1_fee_cache_from_latest cache = refresh_enabled cache
