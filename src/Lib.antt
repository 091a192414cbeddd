-- ===== src/Lib.antt =====
-- nanoreth: a node for HyperEVM built on reth. This library models the parts of the node that have
-- logic of their own and proves what makes them correct. Code of other crates (alloy, reth, revm,
-- rangemap), files, the clock and the network are parameters, with what the code relies on as laws
-- of the records Alloy, Machine, Eth, Stock, LruMap, LruCache, RangeInclusiveMap, PrecompilesMap,
-- Provider, HeaderRules, PostRules, Rules, Engine, Codec, DbReader and Formats.
--
-- A block comes from a source (src/pseudo_peer), as hl-node writes it: an Ethereum block, its
-- receipts, and apart from them the system transactions of HyperCore with theirs. It is converted
-- to a block of the node, with the system transactions first and a signature that spells their
-- sender (src/node/types, src/node/primitives, src/node/spot_meta), executed (src/node/evm), held
-- against its header (src/node/consensus), stored, rebuilt from the database when it is served to
-- others, and shown to RPC clients with or without its system transactions (src/addons).
--
-- Primitives models src/node/primitives and the alloy types around it; Primitives/Sender the
-- encoding of senders in src/node/primitives/transaction.rs. An address, a U256 and a hash are the
-- numbers that they spell, bytes are lists of numbers. SpotMeta models src/node/spot_meta/mod.rs
-- and patch.rs. Types models src/node/types: Receipts and Compat the serialized forms, Patch
-- patch.rs, Convert system_tx_to_reth_transaction and to_reth_block, in a state monad whose state
-- is the cache of spot metadata and the answers of the API to come, FromDb
-- BlockAndReceipts::from_db; RoundTrip, Senders and SpotLoop hold the proofs. Compliance models
-- src/addons/hl_node_compliance: Inputs the loops that number receipts, Receipts the handlers of
-- rpc.rs, Logs adjust_log, Query the query parameter of layer.rs; Numbering and Served hold the
-- proofs. There Blocks holds the handlers of rpc.rs for blocks, transaction counts and system
-- transactions, Streams those for filters and subscriptions, BlockLaws and StreamLaws their proofs.
-- PseudoPeer models src/pseudo_peer/sources/hl_node: Lines and Scan scan.rs, LocalCache cache.rs,
-- HlNode and Ingest mod.rs, LastLine file_ops.rs, and Store src/pseudo_peer/block_store.rs and
-- utils.rs, Service src/pseudo_peer/service.rs and the start signal of mod.rs, Batches the requests
-- for many blocks and the paths of src/pseudo_peer/sources, Archive its local.rs and s3.rs;
-- LineText, LastLineText, SingleLine, Answers and the modules in Laws hold proofs. Ingest and
-- LastLine work on the bytes of files, and the panic of LastLine on bytes that are not UTF-8 is one
-- of its results. Network/Import models the import service of src/node/network/block_import/service.rs as
-- the states that it reaches when imports complete in any order, beside an engine whose answers may
-- change from moment to moment. Sync models src/addons/sync_server.rs and its client in
-- src/pseudo_peer/sources/rpc.rs. Migrate models src/node/migrate.rs: the tests of a header's
-- format, Mdbx the table and StaticFiles the files. Rpc models src/node/rpc: Extras the read
-- precompiles of calls in mod.rs and the replay of call.rs, Trace the tracing of mod.rs, Estimate
-- the search of estimate.rs, and Forward src/addons/call_forwarder.rs and tx_forwarder.rs. Evm
-- models src/node/evm: Executor executor.rs and receipt_builder.rs, Patch patch.rs, Precompiles the
-- read precompiles of executor.rs, Forwarder read_precompile_forwarder.rs, Assembler config.rs;
-- PatchLaws, Accounting, Installed, ForwarderLaws and AssemblerLaws hold the proofs. Consensus
-- models src/consensus.rs (Head), src/node/consensus/mod.rs (Header) and reth_copy.rs
-- (PostExecution); Executed holds the validator against the executor. Tests runs the definitions
-- and applies the theorems to concrete inputs.
--
-- Machine integers of 64 bits wrap around (add_u64, sub_u64, mul_u64) where the source adds,
-- subtracts or multiplies them and may leave 64 bits, as in a release build; positions in lists and
-- files, seconds of the clock and limits below another one cannot, and are plain numbers. Loops recurse on the list that they walk. The spot loop takes one answer of the API from a
-- list for each turn and ends with `waiting` when the list does; a stream of lines is read with
-- fuel, for which more than the number of bytes is enough. A list is cut in chunks with its length
-- as fuel, a file is read backwards with one turn more than it has bytes, the blocks of a static
-- file are taken in chunks of which there are no more than blocks, and the search of the gas
-- estimate has one turn more than its highest limit, since each turn narrows the range. The
-- critical sections of the forwarder's cache are steps that threads may take in any order.
--
-- Not modelled: locks and the scheduling of tasks, HTTP and file I/O, the command line and the
-- wiring of servers and of the network manager, the files that a migration moves, codecs, the chain
-- spec, and the EVM itself.
pub mod Prelude
pub mod Primitives
pub mod SpotMeta
pub mod Types
pub mod Compliance
pub mod PseudoPeer
pub mod Evm
pub mod Consensus
pub mod Network
pub mod Sync
pub mod Migrate
pub mod Rpc
pub mod Tests
