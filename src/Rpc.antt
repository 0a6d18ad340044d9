-- ===== src/Rpc.antt =====
-- crates/dogeos-reth-rpc: the answers of the RPC server.
pub mod PriorityFee
