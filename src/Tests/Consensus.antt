-- ===== src/Tests/Consensus.antt =====
-- Runs of the consensus checks.
use nanoreth.Prelude.{
  ℕ, ◌↔◌, ◌≡◌, ◌≤◌, ◌+◌, refl, true, false, [], ◌∷◌, none, some, arith, length, drop, keep, ok,
}
use nanoreth.Primitives.{is_system_transaction, gas_price}
use nanoreth.Evm.Executor.{build_receipt, commit_transaction, new}
use nanoreth.Evm.Accounting.{IsOrdinary, IsSystem}
use nanoreth.Consensus.Head.{Provider}
use nanoreth.Consensus.Header.{Chain, Chain-IsOrdered, IsOrdered, HeaderRules}
use nanoreth.Consensus.PostExecution.{
  PostHeader, PostRules, compare_receipts_root_and_logs_bloom, fold_bloom, verify_receipts,
  last_gas, shows_gas, validate_block_post_execution,
}
use nanoreth.Consensus.Executed.{accepted-ordinary, Executed-receipts}
use nanoreth.Tests.Evm.{after, env, machine, ordinary, run_ordinary, run_system, system}

abbrev pub provider : Provider
provider = record {
  ProviderError = Unit {0};
  best_block_number = ok 5;
  block_hash = λ n. ok (some 70);
}

-- Headers are their timestamps.
abbrev header_rules : HeaderRules
header_rules = record {
  Header = ℕ;
  BlobParams = Unit {0};
  timestamp = λ h. h;
  blob_params_at_timestamp = λ t. none;
  validate_against_parent_hash_number = λ h p. ok tt;
  validate_against_parent_4844 = λ h p b. ok tt;
}

Chain-IsOrdered_example :
    Chain header_rules (3 ∷ 3 ∷ 8 ∷ []) ↔ IsOrdered header_rules (3 ∷ 3 ∷ 8 ∷ [])
Chain-IsOrdered_example =
    Chain-IsOrdered header_rules (3 ∷ 3 ∷ 8 ∷ []) (refl, refl, (refl, refl, tt))

abbrev rules : PostRules
rules = record {
  Requests = Unit {0};
  is_byzantium_active_at_block = λ n. true;
  is_prague_active_at_timestamp = λ t. false;
  calculate_receipt_root = λ rs. length rs;
  bloom = λ r. 1;
  union = λ x y. x + y;
  gas_spent_by_transactions = λ rs. [];
  requests_hash = λ r. 0;
}

abbrev header : PostHeader
header = record {
  number = 5;
  timestamp = 8;
  gas_used = 50;
  receipts_root = 1;
  logs_bloom = 1;
  requests_hash = none;
}

is_system : IsSystem machine system
unfolding is_system_transaction gas_price
is_system = refl

is_ordinary : IsOrdinary machine ordinary
unfolding is_system_transaction gas_price
is_ordinary = refl

Executed-receipts_example :
    let s2 = after ordinary (after system (new machine env 0)) in
    (length s2.receipts ≡ 2)
    × (keep shows_gas s2.receipts ≡ drop 1 s2.receipts)
    × (last_gas 0 s2.receipts ≡ s2.gas_used)
    × (s2.gas_used ≤ 1000)
Executed-receipts_example =
    Executed-receipts machine env 0 (system ∷ []) (ordinary ∷ []) (after system (new machine env 0))
      (after ordinary (after system (new machine env 0))) (omega arith) (is_system, tt)
      (is_ordinary, tt) run_system run_ordinary

accepted :
    validate_block_post_execution rules header
      (after ordinary (after system (new machine env 0))).receipts
      tt
    ≡ ok tt
unfolding validate_block_post_execution verify_receipts compare_receipts_root_and_logs_bloom
    commit_transaction build_receipt new is_system_transaction gas_price
accepted = refl

accepted-ordinary_example :
    let s2 = after ordinary (after system (new machine env 0)) in
    (50 ≡ s2.gas_used)
    × (1 ≡ length (drop 1 s2.receipts))
    × (1 ≡ fold_bloom rules 0 (drop 1 s2.receipts))
accepted-ordinary_example =
    accepted-ordinary machine env 0 rules header tt (system ∷ []) (ordinary ∷ [])
      (after system (new machine env 0)) (after ordinary (after system (new machine env 0)))
      (omega arith) (is_system, tt) (is_ordinary, tt) run_system run_ordinary refl accepted
