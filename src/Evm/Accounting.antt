-- ===== src/Evm/Accounting.antt =====
-- The gas and the receipts of a block that is executed: what `execute_transaction_without_commit`
-- and `commit_transaction` keep between them.
use nanoreth.Prelude.{
  ℕ, suc, ◌+◌, ◌^◌, ◌≤◌, ◌<◌, ◌≡◌, refl, sym, ap, ◌∙◌, Bool, true, false, List, [], ◌∷◌, ◌++◌, ok,
  arith, ltb, if◌then◌else◌, length, sub_u64, All, keep, Bool-cases, inl, inr,
}
use mathlib.Core.List.{append-nil, append_assoc}
use nanoreth.Primitives.{Alloy, EthereumReceipt, TransactionSigned, is_system_transaction}
use nanoreth.Consensus.PostExecution.{last_gas, shows_gas}
use nanoreth.Evm.{Machine}
use nanoreth.Evm.Executor.{
  Executed, HlBlockExecutor, build_receipt, commit_transaction, execute_transaction_without_commit,
  new,
}

module _ {a : Alloy} (m : Machine a) where
  -- The gas of the block stays within its limit.
  abbrev pub WithinLimit : HlBlockExecutor m → Type 0
  WithinLimit s = (s.gas_used ≤ s.block.gas_limit) × (s.block.gas_limit < 2 ^ 64)

  commit-WithinLimit :
      (s : HlBlockExecutor m) (t : TransactionSigned a.kinds)
      (o : m.ExecutionResult × List (ℕ × m.Account))
      → WithinLimit s
      → execute_transaction_without_commit m s t ≡ ok o
      → WithinLimit (commit_transaction m s o t).0
  unfolding execute_transaction_without_commit commit_transaction
  commit-WithinLimit s t o w e = elim (Bool-cases (is_system_transaction t)) [
    | inl sys ↦ ground arith
    | inr ord ↦ elim (Bool-cases (ltb (sub_u64 s.block.gas_limit s.gas_used) (m.gas_limit t))) [
      | inl b ↦ absurd (ground arith)
      | inr b ↦ ground (arith, m.transact-gas_limit s.db t o.0 o.1)
    ]
  ]

  Executed-WithinLimit :
      (ts : List (TransactionSigned a.kinds)) (s s' : HlBlockExecutor m)
      → WithinLimit s
      → Executed m s ts s'
      → WithinLimit s'
  Executed-WithinLimit [] s s' w (Executed.done _) = w
  Executed-WithinLimit (t ∷ ts) s s' w (Executed.step _ _ _ _ o e r) =
      Executed-WithinLimit ts (commit_transaction m s o t).0 s' (commit-WithinLimit s t o w e) r

  abbrev pub IsSystem : TransactionSigned a.kinds → Type 0
  IsSystem t = is_system_transaction t ≡ true

  abbrev pub IsOrdinary : TransactionSigned a.kinds → Type 0
  IsOrdinary t = is_system_transaction t ≡ false

  pub keep-append :
      (xs ys : List EthereumReceipt)
      → keep shows_gas (xs ++ ys) ≡ keep shows_gas xs ++ keep shows_gas ys
  keep-append [] ys = refl
  keep-append (x ∷ xs) ys = ground (arith, keep-append xs ys)

  -- The receipts that a run appends, of which the validator keeps `kept`.
  abbrev pub Appended : HlBlockExecutor m → HlBlockExecutor m → ℕ → Bool → Type 0
  Appended s s' n ordinary =
      (new : List EthereumReceipt) × (s'.receipts ≡ s.receipts ++ new)
      × (length new ≡ n)
      × (keep shows_gas new ≡ (if ordinary then new else []))

  Appended-none : (s : HlBlockExecutor m) (ordinary : Bool) → Appended s s 0 ordinary
  Appended-none s true = ([], sym (append-nil s.receipts), refl, refl)
  Appended-none s false = ([], sym (append-nil s.receipts), refl, refl)

  Appended-step :
      (s s1 s' : HlBlockExecutor m) (r : EthereumReceipt) (n : ℕ) (ordinary : Bool)
      → s1.receipts ≡ s.receipts ++ r ∷ []
      → shows_gas r ≡ ordinary
      → Appended s1 s' n ordinary
      → Appended s s' (suc n) ordinary
  Appended-step s s1 s' r n ordinary h k (new, grown, count, kept) = (
    r ∷ new,
    grown ∙ ap (λ l. l ++ new) h ∙ append_assoc s.receipts (r ∷ []) new,
    ap suc count,
    ground (arith, kept, k),
  )

  commit-system :
      (s : HlBlockExecutor m) (t : TransactionSigned a.kinds)
      (o : m.ExecutionResult × List (ℕ × m.Account))
      → IsSystem t
      → (commit_transaction m s o t).0.gas_used ≡ s.gas_used
  unfolding commit_transaction
  commit-system s t o h = ground arith

  commit-ordinary :
      (s : HlBlockExecutor m) (t : TransactionSigned a.kinds)
      (o : m.ExecutionResult × List (ℕ × m.Account))
      → WithinLimit s
      → execute_transaction_without_commit m s t ≡ ok o
      → IsOrdinary t
      → (commit_transaction m s o t).0.gas_used ≡ s.gas_used + m.gas_used o.0 × (0 < m.gas_used o.0)
  unfolding commit_transaction execute_transaction_without_commit
  commit-ordinary s t o w e h =
      elim (Bool-cases (ltb (sub_u64 s.block.gas_limit s.gas_used) (m.gas_limit t))) [
        | inl b ↦ absurd (ground arith)
        | inr b ↦
            ground (arith, m.transact-gas_limit s.db t o.0 o.1, m.transact-intrinsic s.db t o.0 o.1)
      ]

  -- System transactions before any other leave the gas at 0 and so do their receipts.
  pub Executed-system :
      (ts : List (TransactionSigned a.kinds)) (s s' : HlBlockExecutor m)
      → All IsSystem ts
      → s.gas_used ≡ 0
      → Executed m s ts s'
      → (s'.gas_used ≡ 0) × (s'.block ≡ s.block) × Appended s s' (length ts) false
  unfolding commit_transaction build_receipt
  Executed-system [] s s' h z (Executed.done _) = (z, refl, Appended-none s false)
  Executed-system (t ∷ ts) s s' h z (Executed.step _ _ _ _ o e r) =
      let s1 = (commit_transaction m s o t).0 in
      let zero_gas = commit-system s t o h.0 ∙ z in
      let (gas, block, new) = Executed-system ts s1 s' h.1 zero_gas r in
      (
        gas,
        block,
        Appended-step s s1 s' (build_receipt m t o.0 s1.gas_used) (length ts) false refl
            (ground (arith, zero_gas)) new,
      )

  -- Ordinary transactions add their gas, and their receipts show some.
  pub Executed-ordinary :
      (ts : List (TransactionSigned a.kinds)) (s s' : HlBlockExecutor m)
      → All IsOrdinary ts
      → WithinLimit s
      → Executed m s ts s'
      → WithinLimit s' × (s'.block ≡ s.block) × Appended s s' (length ts) true
  unfolding commit_transaction build_receipt
  Executed-ordinary [] s s' h w (Executed.done _) = (w, refl, Appended-none s true)
  Executed-ordinary (t ∷ ts) s s' h w (Executed.step _ _ _ _ o e r) =
      let s1 = (commit_transaction m s o t).0 in
      let (spent, paid) = commit-ordinary s t o w e h.0 in
      let (limit, block, new) = Executed-ordinary ts s1 s' h.1 (commit-WithinLimit s t o w e) r in
      (
        limit,
        block,
        Appended-step s s1 s' (build_receipt m t o.0 s1.gas_used) (length ts) true refl
            (ground (arith, spent, paid)) new,
      )

  last_gas-append :
      (g : ℕ) (xs : List EthereumReceipt) (r : EthereumReceipt)
      → last_gas g (xs ++ r ∷ []) ≡ r.cumulative_gas_used
  last_gas-append g [] r = refl
  last_gas-append g (x ∷ xs) r = last_gas-append x.cumulative_gas_used xs r

  -- The last receipt shows the gas of the block.
  pub Executed-last :
      (ts : List (TransactionSigned a.kinds)) (s s' : HlBlockExecutor m)
      → last_gas 0 s.receipts ≡ s.gas_used
      → Executed m s ts s'
      → last_gas 0 s'.receipts ≡ s'.gas_used
  unfolding commit_transaction build_receipt
  Executed-last [] s s' h (Executed.done _) = h
  Executed-last (t ∷ ts) s s' h (Executed.step _ _ _ _ o e r) =
      let s1 = (commit_transaction m s o t).0 in
      Executed-last ts s1 s' (last_gas-append 0 s.receipts (build_receipt m t o.0 s1.gas_used)) r
