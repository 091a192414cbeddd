-- ===== src/Consensus.antt =====
-- src/consensus.rs and src/node/consensus: which head to follow, how a header follows its parent,
-- and what an executed block must agree with. The provider, reth's own checks, the receipts root
-- and the hash of the requests are parameters.
pub mod Head
pub mod Header
pub mod PostExecution
pub mod Executed
use nanoreth.Prelude.{ℕ, List, Result, ok, err}

-- The errors that the code builds; `reth` is one that reth's own checks return.
pub data ConsensusError : Type 0 where
  reth : ℕ → ConsensusError
  timestamp_is_in_past : ℕ → ℕ → ConsensusError
  block_gas_used : ℕ → ℕ → List (ℕ × ℕ) → ConsensusError
  body_receipt_root_diff : ℕ → ℕ → ConsensusError
  body_bloom_log_diff : ℕ → ℕ → ConsensusError
  requests_hash_missing : ConsensusError
  body_requests_hash_diff : ℕ → ℕ → ConsensusError

abbrev pub Validation : Type 0
Validation = Result {0, 0} ConsensusError Unit

-- The `?` operator between two checks.
abbrev pub and_then : Validation → Validation → Validation
and_then (err e) r = err e
and_then (ok _) r = r
