-- ===== src/Rpc/TraceLaws.antt =====
-- What the trace of a block up to a transaction has to do with that of the whole block.
use nanoreth.Prelude.{
  Result, ok, err, ℕ, zero, suc, ◌+◌, ◌<◌, ◌^◌, ◌%◌, ◌≡◌, inl, inr, refl, ap, List, [], ◌∷◌, Option,
  none, some, take, arith, take-length,
}
use nanoreth.Primitives.{Alloy, HlBlock}
use nanoreth.Compliance.Blocks.{TransactionInfo}
use nanoreth.Rpc.Extras.{HlExtras, get_hl_extras}
use nanoreth.Rpc.EstimateLaws.{Result-cases}
use nanoreth.Rpc.Trace.{
  TraceEnv, TracedBlock, trace_block_until_with_inspector, trace_found, trace_listed, trace_many,
  traced_info,
}

module _ {E R S T C : Type 0} (tx_hash : T → ℕ) (f : TransactionInfo → C → Result E R) where
  trace_many-take :
      (step : T → S → Result E (C × S)) (env : TraceEnv) (block_hash idx n : ℕ) (txs : List T)
      (s : S) (rs : List R)
      → trace_many tx_hash f step env block_hash idx txs s ≡ ok rs
      → trace_many tx_hash f step env block_hash idx (take n txs) s ≡ ok (take n rs)
  unfolding trace_many
  trace_many-take step env block_hash idx zero txs s rs e = refl
  trace_many-take step env block_hash idx (suc n) [] s rs e =
      let none_left : [] ≡ rs = ground (arith, e) in ap (λ xs. ok (take (suc n) xs)) none_left
  trace_many-take step env block_hash idx (suc n) (tx ∷ txs) s rs e =
      elim (Result-cases (step tx s)) [
        | inl (x, a) ↦ absurd (ground (arith, e, a))
        | inr ((c, s'), a) ↦ elim (Result-cases (f (traced_info tx_hash env block_hash idx tx) c)) [
          | inl (x, b) ↦ absurd (ground (arith, e, a, b))
          | inr (r, b) ↦
              elim (Result-cases (trace_many tx_hash f step env block_hash (idx + 1) txs s')) [
                | inl (x, g) ↦ absurd (ground (arith, e, a, b, g))
                | inr (rest, g) ↦
                    let all : r ∷ rest ≡ rs = ground (arith, (rw (a, b, g) at e)) in
                    rw (a, b, trace_many-take step env block_hash (idx + 1) n txs s' rest g)
                      (ap (λ xs. ok (take (suc n) xs)) all)
              ]
        ]
      ]

  module _ {a : Alloy} (block_by_number : ℕ → Result E (Option (HlBlock a)))
      (state_at_parent : Result E S) (step : HlExtras → T → S → Result E (C × S)) where
    trace_listed-take :
        (env : TraceEnv) (highest block_hash : ℕ) (txs : List T) (rs : List R)
        → highest + 1 < 2 ^ 64
        → trace_listed tx_hash f block_by_number state_at_parent step env none block_hash txs
          ≡ ok (some rs)
        → trace_listed tx_hash f block_by_number state_at_parent step env
            (some highest)
            block_hash
            txs
          ≡ ok (some (take (highest + 1) rs))
    unfolding trace_listed
    trace_listed-take env highest block_hash [] rs h e =
        let none_left : [] ≡ rs = ground (arith, e) in
        let next : highest + 1 ≡ suc highest = omega arith in
        rw next (ap (λ xs. ok (some (take (suc highest) xs))) none_left)
    trace_listed-take env highest block_hash (tx ∷ txs) rs h e =
        let next : (highest + 1) % 2 ^ 64 ≡ highest + 1 = omega (arith, h) in
        elim (Result-cases (get_hl_extras block_by_number env.number)) [
          | inl (x, b) ↦ absurd (ground (arith, e, b))
          | inr (extras, b) ↦ elim (Result-cases state_at_parent) [
            | inl (x, c) ↦ absurd (ground (arith, e, b, c))
            | inr (state, c) ↦
                elim (Result-cases
                  (trace_many tx_hash f (step extras) env block_hash 0 (tx ∷ txs) state)) [
                    | inl (x, g) ↦ absurd (ground (arith, rw (b, c, take-length txs, g) at e))
                    | inr (all, g) ↦
                        let same : all ≡ rs = ground (arith, rw (b, c, take-length txs, g) at e) in
                        rw
                          (
                            b,
                            c,
                            next,
                            trace_many-take (step extras) env block_hash 0 (highest + 1) (tx ∷ txs)
                                state all g,
                          )
                          (ap (λ xs. ok (some (take (highest + 1) xs))) same)
                  ]
          ]
        ]

    -- When a block can be traced as a whole, tracing it up to a transaction gives the traces of the
    -- whole block up to that one: what comes later has no part in them, and they see the same
    -- indices and states. The index has a successor within 64 bits.
    pub trace_block_until_with_inspector-take :
        (evm_env_at : Result E TraceEnv) (found : Result E (Option (TracedBlock T))) (highest : ℕ)
        (rs : List R)
        → highest + 1 < 2 ^ 64
        → trace_block_until_with_inspector tx_hash f block_by_number state_at_parent step evm_env_at
            found none
          ≡ ok (some rs)
        → trace_block_until_with_inspector tx_hash f block_by_number state_at_parent step evm_env_at
            found
            (some highest)
          ≡ ok (some (take (highest + 1) rs))
    unfolding trace_block_until_with_inspector trace_found
    trace_block_until_with_inspector-take (err x) found highest rs h e = absurd (ground (arith, e))
    trace_block_until_with_inspector-take (ok env) (err x) highest rs h e =
        absurd (ground (arith, e))
    trace_block_until_with_inspector-take (ok env) (ok none) highest rs h e =
        absurd (ground (arith, e))
    trace_block_until_with_inspector-take (ok env) (ok (some block)) highest rs h e =
        trace_listed-take env highest block.block_hash block.transactions rs h e
