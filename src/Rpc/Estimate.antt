-- ===== src/Rpc/Estimate.antt =====
-- `estimate_gas_with` of src/node/rpc/estimate.rs, after the call is prepared. What an execution
-- gives for a gas limit is an argument; so are reth's `map_out_of_gas_err` and
-- `update_estimated_gas_range`, and the comparison of its error ratio in floating point.
use nanoreth.Prelude.{
  add_u64, mul_u64, Result, ok, err, ℕ, zero, suc, ◌+◌, ◌-◌, ◌/◌, Bool, true, false, ◌||◌, Option,
  none, some, ltb, if◌then◌else◌, min,
}

-- revm's `ExecutionResult`, with the gas that it used.
pub data ExecutionResult : Type 0 where
  success : ℕ → ℕ → ExecutionResult
  revert halt : ℕ → ExecutionResult

abbrev pub gas_used : ExecutionResult → ℕ
gas_used (success used refunded) = used
gas_used (revert used) = used
gas_used (halt used) = used

-- What `transact` gives: a result, or an error, of which two kinds are told apart.
pub data Transacted (E : Type 0) : Type 0 where
  executed : ExecutionResult → Transacted E
  gas_too_high gas_too_low other_error : E → Transacted E

pub data EstimateError (E : Type 0) : Type 0 where
  evm_error : E → EstimateError E
  gas_required_exceeds_allowance : ℕ → EstimateError E
  halted : ℕ → EstimateError E
  reverted mapped_out_of_gas : EstimateError E

abbrev pub min_transaction_gas : ℕ
min_transaction_gas = 21000

abbrev pub call_stipend_gas : ℕ
call_stipend_gas = 2300

abbrev pub is_some {ℓ} : {A : Type ℓ} → Option A → Bool
is_some none = false
is_some (some x) = true

module _ {E : Type 0} (transact : ℕ → Transacted E)
    (update_estimated_gas_range : ExecutionResult → ℕ → ℕ → ℕ → Result E (ℕ × ℕ))
    (below_error_ratio : ℕ → ℕ → Bool) where
  abbrev pub Answer : Type 0
  Answer = Result (EstimateError E) ℕ

  -- One turn of the binary search: the new highest and lowest limit.
  abbrev pub narrow : Transacted E → ℕ → ℕ → ℕ → Result E (ℕ × ℕ)
  narrow (executed result) mid highest lowest = update_estimated_gas_range result mid highest lowest
  narrow (gas_too_high e) mid highest lowest = ok (mid, lowest)
  narrow (gas_too_low e) mid highest lowest = ok (highest, mid)
  narrow (other_error e) mid highest lowest = err e

  abbrev pub go_on : (ℕ → ℕ → ℕ → Option Answer) → Result E (ℕ × ℕ) → Option Answer
  go_on search (err e) = some (err (evm_error e))
  go_on search (ok (highest, lowest)) = search ((highest + lowest) / 2) highest lowest

  -- The loop; `none` when the fuel is used up.
  unfoldable pub binary_search : ℕ → ℕ → ℕ → ℕ → Option Answer
  binary_search zero mid highest lowest = none
  binary_search (suc fuel) mid highest lowest =
      let rest = go_on (binary_search fuel) (narrow (transact mid) mid highest lowest) in
      if ltb (lowest + 1) highest
      then (if below_error_ratio highest lowest then some (ok highest) else rest)
      else some (ok highest)

  -- From the range on: the fuel is what the search needs at most.
  unfoldable pub search_range : ℕ → ℕ × ℕ → Option Answer
  unfolding binary_search
  search_range used (highest, lowest) =
      binary_search (suc highest) (min (mul_u64 used 3) ((highest + lowest) / 2)) highest lowest

  unfoldable pub search_updated : ℕ → Result E (ℕ × ℕ) → Option Answer
  unfolding search_range
  search_updated used (ok range) = search_range used range
  search_updated used (err e) = some (err (evm_error e))

  unfoldable pub after_optimistic : ℕ → ℕ → ℕ → Transacted E → Option Answer
  unfolding search_updated
  after_optimistic optimistic highest lowest (executed result) =
      search_updated (gas_used result) (update_estimated_gas_range result optimistic highest lowest)
  after_optimistic optimistic highest lowest (gas_too_high e) = some (err (evm_error e))
  after_optimistic optimistic highest lowest (gas_too_low e) = some (err (evm_error e))
  after_optimistic optimistic highest lowest (other_error e) = some (err (evm_error e))

  -- After the first execution, at the limit `highest`.
  unfoldable pub after_success : ℕ → ℕ → ℕ → Option Answer
  unfolding search_range after_optimistic
  after_success highest used refunded =
      let optimistic = mul_u64 (add_u64 (add_u64 used refunded) call_stipend_gas) 64 / 63 in
      if ltb optimistic highest
      then after_optimistic optimistic highest (used - 1) (transact optimistic)
      else search_range used (highest, used - 1)

  module _ (request_has_gas request_has_price : Bool) where
    -- `map_out_of_gas_err` always answers with an error.
    unfoldable pub first_result : ℕ → Transacted E → Option Answer
    unfolding after_success
    first_result limit (executed (success used refunded)) = after_success limit used refunded
    first_result limit (executed (halt used)) = some (err (halted limit))
    first_result limit (executed (revert used)) =
        some (err (if request_has_gas || request_has_price then mapped_out_of_gas else reverted))
    first_result limit (gas_too_high e) =
        some (err (if request_has_gas || request_has_price then mapped_out_of_gas else evm_error e))
    first_result limit (gas_too_low e) = some (err (gas_required_exceeds_allowance limit))
    first_result limit (other_error e) = some (err (evm_error e))

    abbrev pub is_success : Transacted E → Bool
    is_success (executed (success used refunded)) = true
    is_success _ = false

    unfoldable pub estimate : Bool → ℕ → Option Answer
    unfolding first_result
    estimate is_basic_transfer limit =
        let full = first_result limit (transact limit) in
        if is_basic_transfer
        then (if is_success (transact min_transaction_gas)
            then some (ok min_transaction_gas)
            else full)
        else full
