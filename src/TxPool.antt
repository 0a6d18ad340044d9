-- ===== src/TxPool.antt =====
-- crates/dogeos-reth-txpool: the admission of transactions to the pool.
pub mod Executor
pub mod L1Fee
pub mod Validator
pub mod Maintenance
pub mod FeeRefresh
pub mod Admission
