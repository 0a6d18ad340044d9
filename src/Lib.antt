-- ===== src/Lib.antt =====
-- DogeOS execution client: a shallow embedding of the core of dogeos-reth.
--
-- The client builds, executes and validates the blocks of an L2 chain on top of reth. The parts:
--   Types      the transactions, their type tags and the receipts
--              (crates/dogeos-protocol-types/src/transaction and src/receipt,
--              crates/dogeos-reth-primitives/src/receipt.rs, crates/dogeos-reth-evm/src/receipt.rs):
--              L1Message (l1_message.rs), Envelope (envelope.rs) with its typed view and Pooled with
--              the pool's (typed.rs, pooled.rs), Views the conversions between the three, ReceiptRlp
--              the receipt's encoding (receipt.rs). Rlp is alloy's interface these are written on.
--   Hardforks  the fork schedules: DogeosChainHardforks (crates/dogeos-hardforks/src/lib.rs), the
--              genesis document's DogeosHardforkInfo (crates/dogeos-chainspec/src/genesis.rs) and the
--              EVM specification (crates/dogeos-reth-evm/src/spec.rs).
--   BaseFee    next_block_base_fee and what it reads (crates/dogeos-reth-evm/src/base_fee.rs).
--   Consensus  the checks of crates/dogeos-reth-consensus/src/lib.rs: Header, GasLimit, L1Messages and
--              Body (before and after execution); Assemble is the block assembler of
--              crates/dogeos-reth-evm/src/build.rs, whose blocks these checks read.
--   Execution  the block executor (crates/dogeos-reth-evm/src/block/mod.rs); Transitions has the
--              writes to the state at a fork's first block, which the executor calls before it runs
--              transactions (crates/dogeos-reth-evm/src/transitions, gas_price_oracle.rs); EvmEnv has
--              the environments of a block and the check of its base fee (config.rs).
--   CodeWitness  the meter of contract code and its inspector (crates/dogeos-reth-evm/src/code_witness.rs).
--   Payload    the payload builder (crates/dogeos-reth-payload/src): its limits, the gas limit, the
--              forced transactions, the pool loop and build_payload. It runs each transaction under
--              the meter of CodeWitness and selects a gas limit that Consensus checks.
--   TxPool     the admission to the pool (crates/dogeos-reth-txpool/src): Executor (executor.rs) as
--              steps, Validator and L1Fee (validator.rs), Admission (code_witness.rs), which executes
--              a transaction under the meter, and Maintenance (maintenance.rs), which keeps the
--              pool's base fee by BaseFee; FeeRefresh is the task of
--              crates/dogeos-reth-node/src/pool.rs that refreshes the cache of L1Fee.
--   Rpc        PriorityFee has the tip of crates/dogeos-reth-rpc/src/priority_fee.rs.
--   Engine     what the engine API accepts (crates/dogeos-reth-engine/src/validator.rs).
--   Wire       the announcement of blocks with their signatures: Signature and Message (what is sent),
--              Connection and Manager (the sessions with peers) of
--              crates/dogeos-scroll-wire/src, Import (crates/dogeos-reth-node/src/wire_import.rs), the
--              importer that hands new blocks to the engine, and Pipeline, the three in a chain.
--   Prelude    shared tests, lists, words and results; Examples has concrete inputs.
--
-- Functions have the names of the source and are by clauses; a Rust error is an `err`, a panic is
-- `none` or the error `panicked`. A u64 or U256 is a natural number with saturation or wrap-around
-- written out, as in a release build. State is passed explicitly; the meter's lock makes each of its
-- operations one step.
--
-- What is not under the repository is a parameter: alloy's fork conditions, EIP-1559 step, roots and
-- blooms, reth's shared header checks and constants, its block builder and pool iterator, revm's
-- execution and database, tokio's scheduling, alloy's RLP and signed transactions, secp256k1, reth's
-- cache, the engine. What is known of them is a named law: IsExecutor and IsBuildEnv (a
-- transaction uses at most its gas limit, codes have the sizes of their hashes), IsDistinguishing
-- (constants differ), IsRlpCodec, IsAlloyRlp, IsAlloyTransactions and IsAlloyReceipts (what is
-- encoded is decoded), IsAlloyRoots (the receipt root is a trie root of the encoded receipts, blooms
-- are built with a bitwise or), IsPayloadOf (a payload gives back its block without the difficulty),
-- IsSizedExecution (codes have the sizes of their hashes), IsDatabase (what is committed is read).
--
-- Fuel: the pool loop takes fuel, one unit for each transaction that the iterator yields. reth's
-- iterator may yield transactions that arrive while the payload is built, so no fuel is enough for
-- all of them; Payload/Fuel.antt compares runs with different fuel. The importer's loop takes one
-- more than the events; the binary search of a schedule takes one more than its length. The refresh
-- of the L1 fee cache counts the three attempts of the source. All other loops are structural.
--
-- Not modelled: the rest of the RPC, storage and node wiring, the payload id, the JSON and compact
-- forms of the transactions; in the payload builder the state provider, the caches and the trie
-- task; in the block executor the hook that streams state; of the wire the sockets and timers.
pub mod Prelude
pub mod Types
pub mod Wire
pub mod Engine
pub mod Hardforks
pub mod BaseFee
pub mod Consensus
pub mod CodeWitness
pub mod Payload
pub mod Execution
pub mod TxPool
pub mod Examples
pub mod Rpc
