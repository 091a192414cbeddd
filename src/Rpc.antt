-- ===== src/Rpc.antt =====
-- src/node/rpc and the forwarders of src/addons: how calls are answered. reth's own RPC and the
-- clients of the upstream node are arguments.
pub mod Extras
pub mod Trace
pub mod TraceLaws
pub mod Estimate
pub mod EstimateLaws
pub mod EstimateSuccess
pub mod Forward
