-- ===== src/Compliance/Numbering.antt =====
-- The loops of `Inputs` against one specification: number the receipts of a list from 0.
use nanoreth.Prelude.{
  ℕ, zero, suc, ◌+◌, ◌-◌, ◌≤◌, ◌≡◌, ◌≢◌, refl, ap, ◌∙◌, List, [], ◌∷◌, ◌++◌, some, arith, length,
  All, get_elem?, take,
}
use nanoreth.Compliance.{BlockInfo, Entry}
use nanoreth.Compliance.Inputs.{
  adjust_inputs, make_input, number_from, partition_inputs, system_inputs,
}

module _ {T : Type 0} where
  adjust_inputs-past :
      (info : BlockInfo) (count idx gas next : ℕ) (es : List (Entry T))
      → count ≤ idx
      → adjust_inputs info count idx gas next es ≡ number_from info (idx - count) gas next es
  unfolding adjust_inputs number_from
  adjust_inputs-past info count idx gas next [] h = refl
  adjust_inputs-past info count idx gas next ((t, r) ∷ es) h =
      let shift : idx + 1 - count ≡ idx - count + 1 = omega arith in
      ground (
        arith,
        adjust_inputs-past info count (idx + 1) r.cumulative_gas_used (next + length r.logs) es
            (omega arith),
        shift,
      )

  -- With the count of the system transactions, which stand first, what is left is numbered as if it
  -- were the whole block: indices, gas and log positions start afresh.
  pub adjust_inputs-append :
      (info : BlockInfo) (idx gas next : ℕ) (sys reg : List (Entry T))
      → adjust_inputs info (idx + length sys) idx gas next (sys ++ reg)
        ≡ number_from info 0 gas next reg
  unfolding adjust_inputs
  adjust_inputs-append info idx gas next [] reg =
      adjust_inputs-past info (idx + 0) idx gas next reg (omega arith)
      ∙ ap (λ n. number_from info n gas next reg) (omega arith)
  adjust_inputs-append info idx gas next ((t, r) ∷ sys) reg =
      let inner = adjust_inputs-append info (idx + 1) gas next sys reg in
      let count : idx + 1 + length sys ≡ idx + suc (length sys) = omega arith in
      ground (arith, rw count at inner)

  -- Both handlers serve the same ordinary receipts, for every count.
  pub partition_inputs-ordinary :
      (info : BlockInfo) (count idx gas next sys_gas sys_next : ℕ) (es : List (Entry T))
      → (partition_inputs info count idx gas next sys_gas sys_next es).0
        ≡ adjust_inputs info count idx gas next es
  unfolding partition_inputs adjust_inputs
  partition_inputs-ordinary info count idx gas next sys_gas sys_next [] = refl
  partition_inputs-ordinary info count idx gas next sys_gas sys_next ((t, r) ∷ es) = ground (
    arith,
    partition_inputs-ordinary info count (idx + 1) gas next r.cumulative_gas_used
        (sys_next + length r.logs) es,
    partition_inputs-ordinary info count (idx + 1) r.cumulative_gas_used (next + length r.logs)
        sys_gas sys_next es,
  )

  partition_inputs-past :
      (info : BlockInfo) (count idx gas next sys_gas sys_next : ℕ) (es : List (Entry T))
      → count ≤ idx
      → (partition_inputs info count idx gas next sys_gas sys_next es).1 ≡ []
  unfolding partition_inputs
  partition_inputs-past info count idx gas next sys_gas sys_next [] h = refl
  partition_inputs-past info count idx gas next sys_gas sys_next ((t, r) ∷ es) h = ground (
    arith,
    partition_inputs-past info count (idx + 1) r.cumulative_gas_used (next + length r.logs) sys_gas
        sys_next es (omega arith),
  )

  -- With that count, the system receipts are numbered among themselves.
  pub partition_inputs-system :
      (info : BlockInfo) (idx gas next sys_gas sys_next : ℕ) (sys reg : List (Entry T))
      → (partition_inputs info (idx + length sys) idx gas next sys_gas sys_next (sys ++ reg)).1
        ≡ number_from info idx sys_gas sys_next sys
  unfolding partition_inputs number_from
  partition_inputs-system info idx gas next sys_gas sys_next [] reg =
      partition_inputs-past info (idx + 0) idx gas next sys_gas sys_next reg (omega arith)
  partition_inputs-system info idx gas next sys_gas sys_next ((t, r) ∷ sys) reg =
      let inner =
        partition_inputs-system info (idx + 1) gas next r.cumulative_gas_used
          (sys_next + length r.logs) sys reg in
      let count : idx + 1 + length sys ≡ idx + suc (length sys) = omega arith in
      ground (arith, rw count at inner)

  abbrev pub IsFree : Entry T → Type 0
  IsFree (t, r) = r.cumulative_gas_used ≡ 0

  abbrev pub IsPaid : Entry T → Type 0
  IsPaid (t, r) = r.cumulative_gas_used ≢ 0

  -- Stopping at the first receipt that used gas finds the same system receipts as the count does,
  -- where the system receipts are those that used none.
  pub system_inputs-append :
      (info : BlockInfo) (idx gas next : ℕ) (sys reg : List (Entry T))
      → All IsFree sys
      → All IsPaid reg
      → system_inputs info idx gas next (sys ++ reg) ≡ number_from info idx gas next sys
  unfolding system_inputs number_from
  system_inputs-append info idx gas next [] [] free paid = refl
  system_inputs-append info idx gas next [] ((t, r) ∷ reg) free paid = ground arith
  system_inputs-append info idx gas next ((t, r) ∷ sys) reg free paid = ground (
    arith,
    system_inputs-append info (idx + 1) r.cumulative_gas_used (next + length r.logs) sys reg free.1
        paid,
  )

  -- The log entries of the first `n` receipts.
  abbrev pub log_count : List (Entry T) → ℕ
  log_count [] = 0
  log_count ((t, r) ∷ es) = length r.logs + log_count es

  -- The gas that the receipt before the `n`-th counts.
  abbrev pub gas_before : ℕ → ℕ → List (Entry T) → ℕ
  gas_before gas zero es = gas
  gas_before gas (suc n) [] = gas
  gas_before gas (suc n) ((t, r) ∷ es) = gas_before r.cumulative_gas_used n es

  -- The `n`-th input of a numbering: its own receipt, its place, and the log entries before it.
  pub get_elem?-number_from :
      (info : BlockInfo) (idx gas next n : ℕ) (es : List (Entry T)) (e : Entry T)
      → get_elem? es n ≡ some e
      → get_elem? (number_from info idx gas next es) n
        ≡ some (make_input info (idx + n) (gas_before gas n es) (next + log_count (take n es)) e)
  unfolding number_from
  get_elem?-number_from info idx gas next n [] e h = cc
  get_elem?-number_from info idx gas next zero ((t, r) ∷ es) e h = ground arith
  get_elem?-number_from info idx gas next (suc n) ((t, r) ∷ es) e h =
      let place : idx + 1 + n ≡ idx + suc n = omega arith in
      let logs : next + length r.logs + log_count (take n es)
          ≡ next + (length r.logs + log_count (take n es)) =
        omega arith in
      rw (← place, ← logs)
        (get_elem?-number_from info (idx + 1) r.cumulative_gas_used (next + length r.logs) n es e h)

  -- The same, for a numbering of the whole list from 0.
  pub get_elem?-number_all :
      (info : BlockInfo) (n : ℕ) (es : List (Entry T)) (e : Entry T)
      → get_elem? es n ≡ some e
      → get_elem? (number_from info 0 0 0 es) n
        ≡ some (make_input info n (gas_before 0 n es) (log_count (take n es)) e)
  get_elem?-number_all info n es e h =
      let place : 0 + n ≡ n = omega arith in
      let logs : 0 + log_count (take n es) ≡ log_count (take n es) = omega arith in
      rw (place, logs) at (get_elem?-number_from info 0 0 0 n es e h)
