-- ===== src/Tests/Rpc.antt =====
-- Runs of the read precompiles of a call, of the estimate of gas, and of the block assembler.
use nanoreth.Prelude.{
  ℕ, ◌≤◌, ◌+◌, take, ◌≡◌, ◌⊎◌, inl, inr, refl, Bool, true, false, List, [], ◌∷◌, Option, none, some,
  ok, arith, Result, ltb, if◌then◌else◌, length,
}
use nanoreth.Primitives.{is_system_transaction, gas_price}
use nanoreth.Types.FromDb.{split_system}
use nanoreth.Rpc.Extras.{
  ChainInfo, extras_of, get_hl_extras, hl_call_precompiles, hl_call_precompiles-scope,
  hl_simulation_precompiles, without_calls,
}
use nanoreth.Rpc.Trace.{trace_block_until_with_inspector, trace_found, trace_listed, trace_many}
use nanoreth.Rpc.TraceLaws.{trace_block_until_with_inspector-take}
use nanoreth.Rpc.Estimate.{
  EstimateError, ExecutionResult, Transacted, estimate, executed, gas_too_low, halt, revert,
  success, gas_too_high, first_result, after_success, search_range, search_updated, binary_search,
  after_optimistic,
}
use nanoreth.Rpc.EstimateLaws.{estimate-ends}
use nanoreth.Rpc.EstimateSuccess.{Succeeds, estimate-Succeeds}
use nanoreth.Evm.Assembler.{BlockEnv, ExecutionCtx, Rules, assemble_block, context_for_block}
use nanoreth.Evm.AssemblerLaws.{assemble_block-split}
use nanoreth.Tests.Samples.{alloy, receipt_of}
use nanoreth.Tests.Types.{stored_block}
use nanoreth.Tests.Evm.{ordinary, system}

abbrev info : ChainInfo
info = record { best_number = 5; best_hash = 70 }

hl_call_precompiles-scope_example :
    (hl_call_precompiles {a = alloy} {E = Unit {0}} {F = ℕ}
        (λ n. ok (some stored_block))
        (ok info)
        (some 8)
        7
      ≡ ok (
        record {
          read_precompile_calls =
              if ltb 5 7 then none else (extras_of (some stored_block)).read_precompile_calls;
          highest_precompile_address = (extras_of (some stored_block)).highest_precompile_address;
        },
        if ltb 7 5 then none else some (8, 70),
      ))
    × (hl_simulation_precompiles {a = alloy} {E = Unit {0}} {F = ℕ}
          (λ n. ok (some stored_block))
          (ok info)
          (some 8)
          7
        ≡ ok
            (without_calls (extras_of (some stored_block)), if ltb 7 5 then none else some (8, 70)))
hl_call_precompiles-scope_example =
    hl_call_precompiles-scope {E = Unit {0}} {F = ℕ} (λ n. ok (some stored_block)) (ok info) 8 7
      info (some stored_block) refl refl

-- A call that uses 25000 gas, and needs 26000 to begin with, in a block of at most 50000 gas.
abbrev transact : ℕ → Transacted (Unit {0})
transact limit =
    if ltb 50000 limit
    then gas_too_high tt
    else (if ltb limit 26000 then gas_too_low tt else executed (success 25000 0))

abbrev update : ExecutionResult → ℕ → ℕ → ℕ → Result (Unit {0}) (ℕ × ℕ)
update (success used refunded) limit highest lowest = ok (limit, lowest)
update (revert used) limit highest lowest = ok (highest, limit)
update (halt used) limit highest lowest = ok (highest, limit)

abbrev near : ℕ → ℕ → Bool
near highest lowest = false

update-sides :
    (r : ExecutionResult) (limit highest lowest highest' lowest' : ℕ)
    → update r limit highest lowest ≡ ok (highest', lowest')
    → ((highest' ≡ limit)
        × (lowest' ≡ lowest)
        × ((used : ℕ) × (refunded : ℕ) × (r ≡ success used refunded)))
      ⊎ ((highest' ≡ highest) × (lowest' ≡ limit))
update-sides (success used refunded) limit h l h' l' e =
    inl (ground (arith, e), ground (arith, e), (used, refunded, refl))
update-sides (revert used) limit h l h' l' e = inr (ground (arith, e), ground (arith, e))
update-sides (halt used) limit h l h' l' e = inr (ground (arith, e), ground (arith, e))

estimate-ends_example :
    (r : Result (EstimateError (Unit {0})) ℕ) × (estimate transact update near false false false
        40000
      ≡ some r)
estimate-ends_example = estimate-ends transact update near update-sides false false false 40000

once_high :
    (g g' : ℕ) (e : Unit {0})
    → g ≤ g'
    → transact g ≡ gas_too_high e
    → (e' : Unit {0}) × (transact g' ≡ gas_too_high e')
once_high g g' e le q = (tt, ground (arith, le, q))

estimated : estimate transact update near false false false 40000 ≡ some (ok 26000)
unfolding estimate first_result after_success search_range search_updated binary_search
    after_optimistic
estimated = refl

estimate-Succeeds_example : Succeeds transact update near update-sides once_high 26000
estimate-Succeeds_example =
    estimate-Succeeds transact update near update-sides once_high false false false 40000 26000
      estimated

abbrev rules : Rules alloy
rules = record {
  Requests = Unit {0};
  header = λ h. (h.number, h.parent_hash);
  calculate_transaction_root = λ txs. length txs;
  calculate_receipt_root = λ rs. length rs;
  calculate_withdrawals_root = λ w. 0;
  no_withdrawals = tt;
  requests_hash = λ r. 0;
  is_shanghai_active_at_timestamp = λ t. true;
  is_prague_active_at_timestamp = λ t. false;
  is_cancun_active_at_timestamp = λ t. true;
  blob_gas_used = λ t. none;
  timestamp = λ h. h.0;
  maybe_next_block_excess_blob_gas = λ h t. some 0;
  first_excess_blob_gas = 0;
  empty_ommer_root_hash = 0;
  beacon_nonce = 0;
  extra_data = [];
  chain_id = 999;
  max_blobs_per_tx = λ t. none;
  calc_blob_fee = λ e t. 1;
  next_block_base_fee = λ h t. some 1;
}

abbrev env : BlockEnv
env = record {
  number = 5;
  beneficiary = 0;
  timestamp = 100;
  difficulty = 0;
  prevrandao = some 0;
  gas_limit = 1000;
  basefee = 1;
  blob_excess_gas_and_price = some (0, 1);
}

abbrev ctx : ExecutionCtx alloy ℕ
ctx = record {
  parent_hash = 998;
  parent_beacon_block_root = some 0;
  withdrawals = none;
  read_precompile_calls = some [];
  highest_precompile_address = some 2063;
  read_precompile_forwarder = some 8;
}

system_is : is_system_transaction system ≡ true
unfolding is_system_transaction gas_price
system_is = refl

ordinary_is : is_system_transaction ordinary ≡ false
unfolding is_system_transaction gas_price
ordinary_is = refl

assemble_block-split_example :
    let block =
      assemble_block rules env ctx
        (4, 997)
        (system ∷ ordinary ∷ [])
        (receipt_of 0 [] ∷ receipt_of 21000 [] ∷ [])
        tt
        21000
        1 in
    let again = context_for_block rules {F = ℕ} (λ h. some 0) block in
    (split_system block.header.extras.system_tx_count block.body.inner.transactions
      ≡ (system ∷ [], ordinary ∷ []))
    × (again.read_precompile_calls ≡ some [])
    × (again.highest_precompile_address ≡ some 2063)
    × (again.read_precompile_forwarder ≡ none)
assemble_block-split_example =
    assemble_block-split rules env ctx (4, 997) (receipt_of 0 [] ∷ receipt_of 21000 [] ∷ []) tt
      21000 1 (system ∷ []) (ordinary ∷ []) (λ h. some 0) (system_is, tt) (ordinary_is, tt)

abbrev traced : Option ℕ → Result (Unit {0}) (Option (List (ℕ × ℕ)))
traced highest_index =
    trace_block_until_with_inspector (λ tx. tx) (λ i c. ok (i.index, c)) {a = alloy}
      (λ n. ok (some stored_block)) (ok 0) (λ extras tx s. ok (s + tx, s + tx))
      (ok (record { number = 5; basefee = 1 }))
      (ok (some (record { block_hash = 1; transactions = 10 ∷ 20 ∷ 30 ∷ [] }))) highest_index

traced_whole : traced none ≡ ok (some ((0, 10) ∷ (1, 30) ∷ (2, 60) ∷ []))
unfolding trace_block_until_with_inspector trace_found trace_listed trace_many get_hl_extras
traced_whole = refl

trace_block_until_with_inspector-take_example :
    traced (some 1) ≡ ok (some (take (1 + 1) ((0, 10) ∷ (1, 30) ∷ (2, 60) ∷ [])))
trace_block_until_with_inspector-take_example =
    trace_block_until_with_inspector-take (λ tx. tx) (λ i c. ok (i.index, c)) {a = alloy}
      (λ n. ok (some stored_block)) (ok 0) (λ extras tx s. ok (s + tx, s + tx))
      (ok (record { number = 5; basefee = 1 }))
      (ok (some (record { block_hash = 1; transactions = 10 ∷ 20 ∷ 30 ∷ [] }))) 1
      ((0, 10) ∷ (1, 30) ∷ (2, 60) ∷ []) (omega arith) traced_whole
