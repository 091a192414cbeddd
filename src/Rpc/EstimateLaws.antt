-- ===== src/Rpc/EstimateLaws.antt =====
-- The gas estimate ends.
use nanoreth.Prelude.{
  add_u64, mul_u64, Result, ok, err, ℕ, zero, suc, ◌+◌, ◌-◌, ◌/◌, ◌≤◌, ◌<◌, ◌≡◌, ◌⊎◌, inl, inr,
  refl, Bool, Option, some, arith, ltb, min, Bool-cases,
}
use nanoreth.Rpc.Estimate.{
  EstimateError, ExecutionResult, Transacted, after_optimistic, after_success, binary_search,
  estimate, evm_error, executed, first_result, gas_too_high, gas_too_low, is_success,
  min_transaction_gas, narrow, other_error, search_range, search_updated, success, halt, revert,
  gas_used, call_stipend_gas,
}

pub Result-cases {ℓ κ} :
    {E : Type ℓ} {A : Type κ} (r : Result E A) → ((e : E) × (r ≡ err e)) ⊎ ((a : A) × (r ≡ ok a))
Result-cases (ok a) = inr (a, refl)
Result-cases (err e) = inl (e, refl)

module _ {E : Type 0} (transact : ℕ → Transacted E)
    (update_estimated_gas_range : ExecutionResult → ℕ → ℕ → ℕ → Result E (ℕ × ℕ))
    (below_error_ratio : ℕ → ℕ → Bool)
    (updates : (r : ExecutionResult) (limit highest lowest highest' lowest' : ℕ)
      → update_estimated_gas_range r limit highest lowest ≡ ok (highest', lowest')
      → ((highest' ≡ limit)
          × (lowest' ≡ lowest)
          × ((used : ℕ) × (refunded : ℕ) × (r ≡ success used refunded)))
        ⊎ ((highest' ≡ highest) × (lowest' ≡ limit))) where
  abbrev search : ℕ → ℕ → ℕ → ℕ → Option (Result (EstimateError E) ℕ)
  search = binary_search transact update_estimated_gas_range below_error_ratio

  abbrev Answers : Option (Result (EstimateError E) ℕ) → Type 0
  Answers o = (r : Result (EstimateError E) ℕ) × (o ≡ some r)

  narrow-range :
      (t : Transacted E) (mid highest lowest highest' lowest' : ℕ)
      → narrow transact update_estimated_gas_range below_error_ratio t mid highest lowest
        ≡ ok (highest', lowest')
      → ((highest' ≡ mid) × (lowest' ≡ lowest)) ⊎ ((highest' ≡ highest) × (lowest' ≡ mid))
  narrow-range (executed r) mid h l h' l' e = elim (updates r mid h l h' l' e) [
    | inl (a, b, _) ↦ inl (a, b)
    | inr (a, b) ↦ inr (a, b)
  ]
  narrow-range (gas_too_high x) mid h l h' l' e = inl (ground (arith, e), ground (arith, e))
  narrow-range (gas_too_low x) mid h l h' l' e = inr (ground (arith, e), ground (arith, e))
  narrow-range (other_error x) mid h l h' l' e = absurd (ground (arith, e))

  -- The search within a range: each turn halves it.
  binary_search-ends :
      (fuel mid highest lowest : ℕ)
      → 1 ≤ fuel
      → highest ≤ lowest + fuel
      → (lowest + 1 < highest → (lowest < mid) × (mid < highest))
      → Answers (search fuel mid highest lowest)
  unfolding binary_search
  binary_search-ends zero mid h l f m w = absurd (omega (arith, f))
  binary_search-ends (suc fuel) mid h l f m w = elim (Bool-cases (ltb (l + 1) h)) [
    | inr b ↦ rw b (ok h, refl)
    | inl b ↦ elim (Bool-cases (below_error_ratio h l)) [
      | inl c ↦ rw (b, c) (ok h, refl)
      | inr c ↦
          elim (Result-cases
            (narrow transact update_estimated_gas_range below_error_ratio (transact mid) mid h l)) [
              | inl (x, e) ↦ rw (b, c, e) (err (evm_error x), refl)
              | inr ((h', l'), e) ↦
                  let (low, high) = w (ground (arith, b)) in
                  let next = narrow-range (transact mid) mid h l h' l' e in
                  rw (b, c, e)
                    (binary_search-ends fuel ((h' + l') / 2) h' l' (omega (arith, low, high, m))
                      (elim next [
                        | inl (p, q) ↦ omega (arith, p, q, high, m)
                        | inr (p, q) ↦ omega (arith, p, q, low, m)
                      ])
                      (λ wide. (omega (arith, wide), omega (arith, wide))))
            ]
    ]
  ]

  search_range-ends :
      (used : ℕ) (range : ℕ × ℕ)
      → Answers (search_range transact update_estimated_gas_range below_error_ratio used range)
  unfolding search_range binary_search
  search_range-ends used (h, l) = elim (Bool-cases (ltb (l + 1) h)) [
    | inr b ↦ rw b (ok h, refl)
    | inl b ↦ elim (Bool-cases (below_error_ratio h l)) [
      | inl c ↦ rw (b, c) (ok h, refl)
      | inr c ↦
          let mid = min (mul_u64 used 3) ((h + l) / 2) in
          elim (Result-cases
            (narrow transact update_estimated_gas_range below_error_ratio (transact mid) mid h l)) [
              | inl (x, e) ↦ rw (b, c, e) (err (evm_error x), refl)
              | inr ((h', l'), e) ↦
                  let wide : l + 1 < h = ground (arith, b) in
                  let below : mid ≤ h = omega (arith, wide) in
                  let next = narrow-range (transact mid) mid h l h' l' e in
                  rw (b, c, e)
                    (binary_search-ends h ((h' + l') / 2) h' l' (omega (arith, wide))
                      (elim next [
                        | inl (p, q) ↦ omega (arith, p, q, below)
                        | inr (p, q) ↦ omega (arith, p, q)
                      ])
                      (λ wide'. (omega (arith, wide'), omega (arith, wide'))))
            ]
    ]
  ]

  after_optimistic-ends :
      (optimistic highest lowest : ℕ) (t : Transacted E)
      → Answers (
          after_optimistic transact update_estimated_gas_range below_error_ratio optimistic highest
            lowest t)
  unfolding after_optimistic search_updated
  after_optimistic-ends o h l (executed r) =
      elim (Result-cases (update_estimated_gas_range r o h l)) [
        | inl (x, e) ↦ rw e (err (evm_error x), refl)
        | inr (range, e) ↦ rw e (search_range-ends (gas_used r) range)
      ]
  after_optimistic-ends o h l (gas_too_high e) = (err (evm_error e), refl)
  after_optimistic-ends o h l (gas_too_low e) = (err (evm_error e), refl)
  after_optimistic-ends o h l (other_error e) = (err (evm_error e), refl)

  after_success-ends :
      (highest used refunded : ℕ)
      → Answers (
          after_success transact update_estimated_gas_range below_error_ratio highest used refunded)
  unfolding after_success
  after_success-ends h used refunded =
      let optimistic = mul_u64 (add_u64 (add_u64 used refunded) call_stipend_gas) 64 / 63 in
      elim (Bool-cases (ltb optimistic h)) [
        | inl b ↦ rw b (after_optimistic-ends optimistic h (used - 1) (transact optimistic))
        | inr b ↦ rw b (search_range-ends used (h, used - 1))
      ]

  module _ (request_has_gas request_has_price : Bool) where
    first_result-ends :
        (limit : ℕ) (t : Transacted E)
        → Answers (
            first_result transact update_estimated_gas_range below_error_ratio request_has_gas
              request_has_price limit t)
    unfolding first_result
    first_result-ends limit (executed (success used refunded)) =
        after_success-ends limit used refunded
    first_result-ends limit (executed (halt used)) = (_, refl)
    first_result-ends limit (executed (revert used)) = (_, refl)
    first_result-ends limit (gas_too_high e) = (_, refl)
    first_result-ends limit (gas_too_low e) = (_, refl)
    first_result-ends limit (other_error e) = (_, refl)

    -- The estimate of gas always ends, with a limit or an error: as many turns of its search as the
    -- highest limit counts are enough. An update of the range narrows it to one side of the limit.
    pub estimate-ends :
        (is_basic_transfer : Bool) (limit : ℕ)
        → (r : Result (EstimateError E) ℕ) × (estimate transact update_estimated_gas_range
              below_error_ratio request_has_gas request_has_price is_basic_transfer limit
            ≡ some r)
    unfolding estimate
    estimate-ends is_basic_transfer limit = elim (Bool-cases is_basic_transfer) [
      | inr b ↦ rw b (first_result-ends limit (transact limit))
      | inl b ↦
          elim (Bool-cases (
            is_success transact update_estimated_gas_range below_error_ratio request_has_gas
              request_has_price (transact min_transaction_gas))) [
                | inl c ↦ rw (b, c) (ok min_transaction_gas, refl)
                | inr c ↦ rw (b, c) (first_result-ends limit (transact limit))
              ]
    ]
