-- ===== src/Types/Receipt.antt =====
-- crates/dogeos-reth-primitives/src/receipt.rs and the receipt builder of
-- crates/dogeos-reth-evm/src/receipt.rs. `L` stands for alloy's logs. The encodings are left out.
use dogeos_reth.Prelude.{ℕ, Bool, Option, none, some, List, [], ◌∷◌, Result, ok, err}
use dogeos_reth.Types.TxType.{ScrollTxType, TxTypeError, try_from_u8}

-- alloy's `Receipt`
pub record Receipt (L : Type 0) : Type 0 where
  pub status : Bool
  pub cumulative_gas_used : ℕ
  pub logs : List L

pub record ScrollTransactionReceipt (L : Type 0) : Type 0 where
  pub inner : Receipt L
  pub l1_fee : ℕ

pub data ScrollReceipt (L : Type 0) : Type 0 where
  legacy eip2930 eip1559 eip7702 : ScrollTransactionReceipt L → ScrollReceipt L
  l1_message : Receipt L → ScrollReceipt L

module _ {L : Type 0} where
  unfoldable pub tx_type : ScrollReceipt L → ScrollTxType
  tx_type (legacy _) = ScrollTxType.legacy
  tx_type (eip2930 _) = ScrollTxType.eip2930
  tx_type (eip1559 _) = ScrollTxType.eip1559
  tx_type (eip7702 _) = ScrollTxType.eip7702
  tx_type (l1_message _) = ScrollTxType.l1_message

  unfoldable pub as_receipt : ScrollReceipt L → Receipt L
  as_receipt (legacy receipt) = receipt.inner
  as_receipt (eip2930 receipt) = receipt.inner
  as_receipt (eip1559 receipt) = receipt.inner
  as_receipt (eip7702 receipt) = receipt.inner
  as_receipt (l1_message receipt) = receipt

  unfoldable pub logs : ScrollReceipt L → List L
  unfolding as_receipt
  logs receipt = (as_receipt receipt).logs

  -- `of` is the bloom of alloy's receipt.
  unfoldable pub bloom : {Bl : Type 0} → (Receipt L → Bl) → ScrollReceipt L → Bl
  unfolding as_receipt
  bloom of receipt = of (as_receipt receipt)

  -- The `match` of `build_receipt`; an unknown type is a panic, `none`.
  abbrev pub receipt_of : Receipt L → ℕ → Result TxTypeError ScrollTxType → Option (ScrollReceipt L)
  receipt_of inner fee (ok ScrollTxType.legacy) =
      some (legacy (record { inner = inner; l1_fee = fee }))
  receipt_of inner fee (ok ScrollTxType.eip2930) =
      some (eip2930 (record { inner = inner; l1_fee = fee }))
  receipt_of inner fee (ok ScrollTxType.eip1559) =
      some (eip1559 (record { inner = inner; l1_fee = fee }))
  receipt_of inner fee (ok ScrollTxType.eip7702) =
      some (eip7702 (record { inner = inner; l1_fee = fee }))
  receipt_of inner fee (ok ScrollTxType.l1_message) = some (l1_message inner)
  receipt_of inner fee (err e) = none

  unfoldable pub build_receipt : Receipt L → ℕ → ℕ → Option (ScrollReceipt L)
  unfolding try_from_u8
  build_receipt inner fee ty = receipt_of inner fee (try_from_u8 ty)

  -- The last receipt's cumulative gas, 0 without receipts.
  unfoldable pub last_cumulative_gas : List (ScrollReceipt L) → ℕ
  unfolding as_receipt
  last_cumulative_gas [] = 0
  last_cumulative_gas (receipt ∷ []) = (as_receipt receipt).cumulative_gas_used
  last_cumulative_gas (receipt ∷ next ∷ receipts) = last_cumulative_gas (next ∷ receipts)
