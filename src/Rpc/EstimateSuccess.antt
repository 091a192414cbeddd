-- ===== src/Rpc/EstimateSuccess.antt =====
-- The gas estimate is a limit that is enough.
use nanoreth.Prelude.{
  add_u64, mul_u64, ◌≤◌, ◌<◌, Result, ok, ℕ, zero, suc, ◌+◌, ◌-◌, ◌/◌, ◌≡◌, ◌⊎◌, inl, inr, refl,
  sym, ap, ◌∙◌, subst, Bool, true, some, arith, ltb, min, Bool-cases,
}
use nanoreth.Rpc.Estimate.{
  ExecutionResult, Transacted, after_optimistic, after_success, binary_search, estimate, executed,
  first_result, gas_too_high, gas_too_low, is_success, min_transaction_gas, narrow, other_error,
  search_range, search_updated, success, halt, revert, gas_used, call_stipend_gas,
}
use nanoreth.Rpc.EstimateLaws.{Result-cases}

module _ {E : Type 0} (transact : ℕ → Transacted E)
    (update_estimated_gas_range : ExecutionResult → ℕ → ℕ → ℕ → Result E (ℕ × ℕ))
    (below_error_ratio : ℕ → ℕ → Bool)
    (updates : (r : ExecutionResult) (limit highest lowest highest' lowest' : ℕ)
      → update_estimated_gas_range r limit highest lowest ≡ ok (highest', lowest')
      → ((highest' ≡ limit)
          × (lowest' ≡ lowest)
          × ((used : ℕ) × (refunded : ℕ) × (r ≡ success used refunded)))
        ⊎ ((highest' ≡ highest) × (lowest' ≡ limit))) where
  module _
      (once_high : (g g' : ℕ) (e : E)
        → g ≤ g'
        → transact g ≡ gas_too_high e
        → (e' : E) × (transact g' ≡ gas_too_high e')) where
    -- The call was executed with this gas limit, successfully.
    abbrev pub Succeeds : ℕ → Type 0
    Succeeds g = (used : ℕ) × (refunded : ℕ) × (transact g ≡ executed (success used refunded))

    narrow-Succeeds :
        (t : Transacted E) (mid highest lowest highest' lowest' : ℕ)
        → transact mid ≡ t
        → mid ≤ highest
        → narrow transact update_estimated_gas_range below_error_ratio t mid highest lowest
          ≡ ok (highest', lowest')
        → Succeeds highest
        → Succeeds highest'
    narrow-Succeeds (executed r) mid h l h' l' t le e s = elim (updates r mid h l h' l' e) [
      | inl (a, _, succeeded) ↦
          let (used, refunded, f) = succeeded in (used, refunded, ap transact a ∙ t ∙ ap executed f)
      | inr (a, _) ↦ subst Succeeds (sym a) s
    ]
    narrow-Succeeds (gas_too_high x) mid h l h' l' t le e s =
        let (x', too_high) = once_high mid h x le t in
        let (used, refunded, fine) = s in absurd (ground (arith, too_high, fine))
    narrow-Succeeds (gas_too_low x) mid h l h' l' t le e s = subst Succeeds (ground (arith, e)) s
    narrow-Succeeds (other_error x) mid h l h' l' t le e s = absurd (ground (arith, e))

    binary_search-Succeeds :
        (fuel mid highest lowest g : ℕ)
        → binary_search transact update_estimated_gas_range below_error_ratio fuel mid highest
            lowest
          ≡ some (ok g)
        → (lowest + 1 < highest → mid ≤ highest)
        → Succeeds highest
        → Succeeds g
    unfolding binary_search
    binary_search-Succeeds zero mid h l g e w s = absurd (ground (arith, e))
    binary_search-Succeeds (suc fuel) mid h l g e w s = elim (Bool-cases (ltb (l + 1) h)) [
      | inr b ↦ subst Succeeds (ground (arith, e, b)) s
      | inl b ↦ elim (Bool-cases (below_error_ratio h l)) [
        | inl c ↦ subst Succeeds (ground (arith, e, b, c)) s
        | inr c ↦
            elim (Result-cases (
              narrow transact update_estimated_gas_range below_error_ratio (transact mid) mid h
                l)) [
                  | inl (x, f) ↦ absurd (ground (arith, e, b, c, f))
                  | inr ((h', l'), f) ↦
                      binary_search-Succeeds fuel ((h' + l') / 2) h' l' g (rw (b, c, f) at e)
                        (λ wide. omega (arith, wide))
                        (narrow-Succeeds (transact mid) mid h l h' l' refl (w (ground (arith, b))) f
                          s)
                ]
      ]
    ]

    search_range-Succeeds :
        (used : ℕ) (range : ℕ × ℕ) (g : ℕ)
        → search_range transact update_estimated_gas_range below_error_ratio used range
          ≡ some (ok g)
        → Succeeds range.0
        → Succeeds g
    unfolding search_range
    search_range-Succeeds used (h, l) g e s =
        binary_search-Succeeds (suc h) (min (mul_u64 used 3) ((h + l) / 2)) h l g e
          (λ wide. omega (arith, wide)) s

    after_optimistic-Succeeds :
        (optimistic highest lowest g : ℕ) (t : Transacted E)
        → transact optimistic ≡ t
        → optimistic ≤ highest
        → after_optimistic transact update_estimated_gas_range below_error_ratio optimistic highest
            lowest t
          ≡ some (ok g)
        → Succeeds highest
        → Succeeds g
    unfolding after_optimistic search_updated
    after_optimistic-Succeeds o h l g (executed r) t le e s =
        elim (Result-cases (update_estimated_gas_range r o h l)) [
          | inl (x, f) ↦ absurd (ground (arith, e, f))
          | inr ((h', l'), f) ↦
              search_range-Succeeds (gas_used r) (h', l') g (rw f at e)
                (narrow-Succeeds (executed r) o h l h' l' t le f s)
        ]
    after_optimistic-Succeeds o h l g (gas_too_high x) t le e s = absurd (ground (arith, e))
    after_optimistic-Succeeds o h l g (gas_too_low x) t le e s = absurd (ground (arith, e))
    after_optimistic-Succeeds o h l g (other_error x) t le e s = absurd (ground (arith, e))

    after_success-Succeeds :
        (highest used refunded g : ℕ)
        → after_success transact update_estimated_gas_range below_error_ratio highest used refunded
          ≡ some (ok g)
        → Succeeds highest
        → Succeeds g
    unfolding after_success
    after_success-Succeeds h used refunded g e s =
        let optimistic = mul_u64 (add_u64 (add_u64 used refunded) call_stipend_gas) 64 / 63 in
        elim (Bool-cases (ltb optimistic h)) [
          | inl b ↦
              after_optimistic-Succeeds optimistic h (used - 1) g (transact optimistic) refl
                (ground (arith, b)) (rw b at e) s
          | inr b ↦ search_range-Succeeds used (h, used - 1) g (rw b at e) s
        ]

    module _ (request_has_gas request_has_price : Bool) where
      first_result-Succeeds :
          (limit g : ℕ) (t : Transacted E)
          → transact limit ≡ t
          → first_result transact update_estimated_gas_range below_error_ratio request_has_gas
              request_has_price limit t
            ≡ some (ok g)
          → Succeeds g
      unfolding first_result
      first_result-Succeeds limit g (executed (success used refunded)) t e =
          after_success-Succeeds limit used refunded g e (used, refunded, t)
      first_result-Succeeds limit g (executed (halt used)) t e = absurd (ground (arith, e))
      first_result-Succeeds limit g (executed (revert used)) t e = absurd (ground (arith, e))
      first_result-Succeeds limit g (gas_too_high x) t e = absurd (ground (arith, e))
      first_result-Succeeds limit g (gas_too_low x) t e = absurd (ground (arith, e))
      first_result-Succeeds limit g (other_error x) t e = absurd (ground (arith, e))

      succeeded :
          (g : ℕ) (t : Transacted E)
          → transact g ≡ t
          → is_success transact update_estimated_gas_range below_error_ratio request_has_gas
              request_has_price t
            ≡ true
          → Succeeds g
      succeeded g (executed (success used refunded)) t e = (used, refunded, t)
      succeeded g (executed (revert used)) t e = absurd (ground (arith, e))
      succeeded g (executed (halt used)) t e = absurd (ground (arith, e))
      succeeded g (gas_too_high x) t e = absurd (ground (arith, e))
      succeeded g (gas_too_low x) t e = absurd (ground (arith, e))
      succeeded g (other_error x) t e = absurd (ground (arith, e))

      -- The estimate is a gas limit with which the call was executed, and succeeded. A limit
      -- that is too high stays so when it is raised, and an update lowers the highest limit only
      -- on a success.
      pub estimate-Succeeds :
          (is_basic_transfer : Bool) (limit g : ℕ)
          → estimate transact update_estimated_gas_range below_error_ratio request_has_gas
              request_has_price is_basic_transfer limit
            ≡ some (ok g)
          → Succeeds g
      unfolding estimate
      estimate-Succeeds is_basic_transfer limit g e = elim (Bool-cases is_basic_transfer) [
        | inr b ↦ first_result-Succeeds limit g (transact limit) refl (rw b at e)
        | inl b ↦
            elim (Bool-cases (
              is_success transact update_estimated_gas_range below_error_ratio request_has_gas
                request_has_price (transact min_transaction_gas))) [
                  | inl c ↦
                      let basic : some (ok min_transaction_gas) ≡ some (ok g) = rw (b, c) at e in
                      subst Succeeds (ground (arith, basic))
                        (succeeded min_transaction_gas (transact min_transaction_gas) refl c)
                  | inr c ↦ first_result-Succeeds limit g (transact limit) refl (rw (b, c) at e)
                ]
      ]
