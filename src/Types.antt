-- ===== src/Types.antt =====
-- src/node/types: blocks as the sources deliver them, and their conversion to and from the blocks
-- of the node. `Receipts` is the receipts of mod.rs, `Compat` the transactions and blocks of
-- reth_compat.rs, `Patch` patch.rs, `Convert` the way to the node and `FromDb` the way back.
pub mod Receipts
pub mod Compat
pub mod Patch
pub mod Convert
pub mod FromDb
pub mod RoundTrip
pub mod Senders
pub mod SpotLoop
