-- ===== src/Types.antt =====
-- crates/dogeos-protocol-types: transactions, their types and their receipts.
pub mod Transaction
pub mod TxType
pub mod Receipt
pub mod Rlp
pub mod L1Message
pub mod Envelope
pub mod Pooled
pub mod Views
pub mod ReceiptRlp
