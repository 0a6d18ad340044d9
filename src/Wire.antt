-- ===== src/Wire.antt =====
-- crates/dogeos-scroll-wire and crates/dogeos-reth-node/src/wire_import.rs: the protocol `scroll/1`,
-- by which peers announce signed blocks.
pub mod Signature
pub mod Message
pub mod Connection
pub mod Manager
pub mod Import
pub mod Pipeline
