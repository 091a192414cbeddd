-- ===== src/Tests.antt =====
-- Concrete inputs on which the theorems apply, and runs of the definitions.
mod Samples
mod Precompiles
mod Types
mod Compliance
mod PseudoPeer
mod Evm
mod Consensus
mod Network
mod Service
mod Ingest
mod Migrate
mod Rpc
mod Blocks
