-- ===== src/Consensus/PostExecution.antt =====
-- src/node/consensus/reth_copy.rs: what an executed block must agree with.
use nanoreth.Prelude.{
  ℕ, ◌≡◌, Bool, true, false, not, Option, none, some, ok, err, arith, ◌==◌, if◌then◌else◌, List, [],
  ◌∷◌, keep,
}
use nanoreth.Primitives.{EthereumReceipt}
use nanoreth.Consensus.{ConsensusError, Validation, and_then}

-- The header, as the validator reads it: blooms are numbers.
pub record PostHeader : Type 0 where
  pub number : ℕ
  pub timestamp : ℕ
  pub gas_used : ℕ
  pub receipts_root : ℕ
  pub logs_bloom : ℕ
  pub requests_hash : Option ℕ

-- What alloy and reth compute, and the hardforks.
pub record PostRules : Type 1 where
  pub Requests : Type 0
  pub is_byzantium_active_at_block : ℕ → Bool
  pub is_prague_active_at_timestamp : ℕ → Bool
  pub calculate_receipt_root : List EthereumReceipt → ℕ
  pub bloom : EthereumReceipt → ℕ
  pub union : ℕ → ℕ → ℕ
  pub gas_spent_by_transactions : List EthereumReceipt → List (ℕ × ℕ)
  pub requests_hash : Requests → ℕ

-- `receipts.last()`.
abbrev pub last_gas : ℕ → List EthereumReceipt → ℕ
last_gas g [] = g
last_gas g (r ∷ rs) = last_gas r.cumulative_gas_used rs

abbrev pub shows_gas : EthereumReceipt → Bool
shows_gas r = not (r.cumulative_gas_used == 0)

unfoldable pub compare_receipts_root_and_logs_bloom : ℕ → ℕ → ℕ → ℕ → Validation
compare_receipts_root_and_logs_bloom root bloom expected_root expected_bloom =
    if root == expected_root
    then (if bloom == expected_bloom
        then ok tt
        else err (ConsensusError.body_bloom_log_diff bloom expected_bloom))
    else err (ConsensusError.body_receipt_root_diff root expected_root)

module _ (rules : PostRules) where
  abbrev pub fold_bloom : ℕ → List EthereumReceipt → ℕ
  fold_bloom b [] = b
  fold_bloom b (r ∷ rs) = fold_bloom (rules.union b (rules.bloom r)) rs

  unfoldable pub verify_receipts : ℕ → ℕ → List EthereumReceipt → Validation
  verify_receipts expected_root expected_bloom receipts =
      compare_receipts_root_and_logs_bloom (rules.calculate_receipt_root receipts)
        (fold_bloom 0 receipts) expected_root expected_bloom

  abbrev check_requests : PostHeader → rules.Requests → Option ℕ → Validation
  check_requests header requests none = err ConsensusError.requests_hash_missing
  check_requests header requests (some expected) =
      if rules.requests_hash requests == expected
      then ok tt
      else err (ConsensusError.body_requests_hash_diff (rules.requests_hash requests) expected)

  unfoldable pub validate_block_post_execution :
      PostHeader → List EthereumReceipt → rules.Requests → Validation
  validate_block_post_execution header receipts requests =
      if header.gas_used == last_gas 0 receipts
      then and_then
          (if rules.is_byzantium_active_at_block header.number
            then verify_receipts header.receipts_root header.logs_bloom (keep shows_gas receipts)
            else ok tt)
          (if rules.is_prague_active_at_timestamp header.timestamp
            then check_requests header requests header.requests_hash
            else ok tt)
      else err (
          ConsensusError.block_gas_used (last_gas 0 receipts) header.gas_used
            (rules.gas_spent_by_transactions receipts))

  -- From Byzantium on, an accepted block has the gas of the last receipt, and the root and the
  -- bloom of the receipts that show gas.
  pub accepted-roots :
      (header : PostHeader) (receipts : List EthereumReceipt) (requests : rules.Requests)
      → rules.is_byzantium_active_at_block header.number ≡ true
      → validate_block_post_execution header receipts requests ≡ ok tt
      → (header.gas_used ≡ last_gas 0 receipts)
        × (header.receipts_root ≡ rules.calculate_receipt_root (keep shows_gas receipts))
        × (header.logs_bloom ≡ fold_bloom 0 (keep shows_gas receipts))
  unfolding validate_block_post_execution verify_receipts compare_receipts_root_and_logs_bloom
  accepted-roots header receipts requests b h = ground (arith, h, b)

  -- A block before Prague with that gas, root and bloom is accepted.
  pub roots-accepted :
      (header : PostHeader) (receipts : List EthereumReceipt) (requests : rules.Requests)
      → rules.is_prague_active_at_timestamp header.timestamp ≡ false
      → header.gas_used ≡ last_gas 0 receipts
      → header.receipts_root ≡ rules.calculate_receipt_root (keep shows_gas receipts)
      → header.logs_bloom ≡ fold_bloom 0 (keep shows_gas receipts)
      → validate_block_post_execution header receipts requests ≡ ok tt
  unfolding validate_block_post_execution verify_receipts compare_receipts_root_and_logs_bloom
  roots-accepted header receipts requests p g r b = ground (arith, p, g, r, b)
