-- ===== src/Types/TxType.antt =====
-- crates/dogeos-protocol-types/src/transaction/tx_type.rs: the transaction types, as bytes and in
-- the compact storage format. The identifiers of that format and alloy's type byte of EIP-7702 are
-- parameters. `none` is a panic.
use dogeos_reth.Prelude.{
  ℕ, ◌≡◌, ◌≢◌, ◌↔◌, Option, none, some, List, [], ◌∷◌, ◌++◌, Result, ok, err, ◌==◌, ltb,
  if◌then◌else◌, map_err, arith,
}

pub data ScrollTxType : Type 0 where
  legacy eip2930 eip1559 eip7702 l1_message : ScrollTxType

abbrev pub l1_message_tx_type_id : ℕ
l1_message_tx_type_id = 0x7e

-- `ScrollTxType as u8`
abbrev pub as_u8 : ScrollTxType → ℕ
as_u8 legacy = 0
as_u8 eip2930 = 1
as_u8 eip1559 = 2
as_u8 eip7702 = 4
as_u8 l1_message = l1_message_tx_type_id

-- `Eip2718Error::UnexpectedType`, or the text of the u64 conversion
pub data TxTypeError : Type 0 where
  unexpected_type : ℕ → TxTypeError
  invalid_tx_type : TxTypeError

unfoldable pub try_from_u8 : ℕ → Result TxTypeError ScrollTxType
try_from_u8 value =
    if value == as_u8 legacy
    then ok legacy
    else if value == as_u8 eip2930
    then ok eip2930
    else if value == as_u8 eip1559
    then ok eip1559
    else if value == as_u8 eip7702
    then ok eip7702
    else if value == as_u8 l1_message
    then ok l1_message
    else err (unexpected_type value)

unfoldable pub try_from_u64 : ℕ → Result TxTypeError ScrollTxType
unfolding try_from_u8
try_from_u64 value =
    if ltb 255 value
    then err invalid_tx_type
    else map_err (λ e. invalid_tx_type) (try_from_u8 value)

-- reth's and alloy's constants of the compact format.
pub record CompactIds : Type 0 where
  pub compact_identifier_legacy : ℕ
  pub compact_identifier_eip2930 : ℕ
  pub compact_identifier_eip1559 : ℕ
  pub compact_extended_identifier_flag : ℕ
  pub eip7702_tx_type_id : ℕ

module _ (ids : CompactIds) where
  open ids use {
    compact_identifier_legacy, compact_identifier_eip2930, compact_identifier_eip1559,
    compact_extended_identifier_flag, eip7702_tx_type_id,
  }

  -- The identifier, and the buffer with what is put behind it.
  unfoldable pub to_compact : ScrollTxType → List ℕ → ℕ × List ℕ
  to_compact legacy buf = (compact_identifier_legacy, buf)
  to_compact eip2930 buf = (compact_identifier_eip2930, buf)
  to_compact eip1559 buf = (compact_identifier_eip1559, buf)
  to_compact eip7702 buf = (compact_extended_identifier_flag, buf ++ eip7702_tx_type_id ∷ [])
  to_compact l1_message buf = (compact_extended_identifier_flag, buf ++ l1_message_tx_type_id ∷ [])

  abbrev extended : List ℕ → Option (ScrollTxType × List ℕ)
  extended [] = none
  extended (byte ∷ buf) =
      if byte == eip7702_tx_type_id
      then some (eip7702, buf)
      else if byte == l1_message_tx_type_id
      then some (l1_message, buf)
      else none

  unfoldable pub from_compact : List ℕ → ℕ → Option (ScrollTxType × List ℕ)
  from_compact buf identifier =
      if identifier == compact_identifier_legacy
      then some (legacy, buf)
      else if identifier == compact_identifier_eip2930
      then some (eip2930, buf)
      else if identifier == compact_identifier_eip1559
      then some (eip1559, buf)
      else if identifier == compact_extended_identifier_flag
      then extended buf
      else none

  -- The constants tell the types apart.
  pub record IsDistinguishing : Type 0 where
    pub eip2930_new : compact_identifier_eip2930 ≢ compact_identifier_legacy
    pub eip1559_new : compact_identifier_eip1559 ≢ compact_identifier_legacy
    pub eip1559_new' : compact_identifier_eip1559 ≢ compact_identifier_eip2930
    pub flag_new : compact_extended_identifier_flag ≢ compact_identifier_legacy
    pub flag_new' : compact_extended_identifier_flag ≢ compact_identifier_eip2930
    pub flag_new'' : compact_extended_identifier_flag ≢ compact_identifier_eip1559
    pub type_new : eip7702_tx_type_id ≢ l1_message_tx_type_id

  -- Where the constants tell the types apart, a type that is written to an empty buffer and followed
  -- by any bytes is read back, and the reader stops right before those bytes.
  pub from_compact-to_compact :
      IsDistinguishing
      → (ty : ScrollTxType) (rest : List ℕ)
      → from_compact ((to_compact ty []).1 ++ rest) (to_compact ty []).0 ≡ some (ty, rest)
  unfolding from_compact to_compact
  from_compact-to_compact d legacy rest = ground arith
  from_compact-to_compact d eip2930 rest = ground arith
  from_compact-to_compact d eip1559 rest = ground arith
  from_compact-to_compact d eip7702 rest = ground arith
  from_compact-to_compact d l1_message rest = ground arith

pub try_from_u8_iff :
    (value : ℕ) (ty : ScrollTxType) → (try_from_u8 value ≡ ok ty) ↔ (value ≡ as_u8 ty)
unfolding try_from_u8
try_from_u8_iff value legacy = (λ h. ground arith, λ h. ground arith)
try_from_u8_iff value eip2930 = (λ h. ground arith, λ h. ground arith)
try_from_u8_iff value eip1559 = (λ h. ground arith, λ h. ground arith)
try_from_u8_iff value eip7702 = (λ h. ground arith, λ h. ground arith)
try_from_u8_iff value l1_message = (λ h. ground arith, λ h. ground arith)

-- A u64 is read as a transaction type exactly when it is that type's byte: no other number is
-- accepted and no two types share one.
pub try_from_u64_iff :
    (value : ℕ) (ty : ScrollTxType) → (try_from_u64 value ≡ ok ty) ↔ (value ≡ as_u8 ty)
unfolding try_from_u64
try_from_u64_iff value legacy = (λ h. ground arith, λ h. ground arith)
try_from_u64_iff value eip2930 = (λ h. ground arith, λ h. ground arith)
try_from_u64_iff value eip1559 = (λ h. ground arith, λ h. ground arith)
try_from_u64_iff value eip7702 = (λ h. ground arith, λ h. ground arith)
try_from_u64_iff value l1_message = (λ h. ground arith, λ h. ground arith)
