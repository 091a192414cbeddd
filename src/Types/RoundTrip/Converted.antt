-- ===== src/Types/RoundTrip/Converted.antt =====
-- What the conversion makes of the list of system transactions, and that it can be repeated.
use mathlib.Core.Path.{subst₂}
use nanoreth.Prelude.{
  ℕ, suc, ◌≡◌, refl, ap, List, [], ◌∷◌, map, Option, none, some, arith, length, keep, All,
}
use nanoreth.Primitives.{Alloy, Kinds, TransactionSigned as TxSigned}
use nanoreth.Types.Receipts.{LegacyReceipt, to_receipt, receipt_round_trip}
use nanoreth.Types.Compat.{SystemTx}
use nanoreth.Types.Convert.{
  SpotState, done, has_receipt, unwrap, convert_system_txs, system_tx_to_reth_transaction,
  unwrap_receipts,
}
use nanoreth.Types.FromDb.{from_db_system_tx, from_db_system_txs}
use nanoreth.Types.RoundTrip.Signing.{
  IsSystemTx, IsSigned, then_run-eq-done, sign_again, system_tx_to_reth_transaction-IsSigned,
}

unwrap-some :
    {A : Type 0} (o : Option A) (u u₁ : SpotState) (x : A) → unwrap o u ≡ done (x, u₁) → o ≡ some x
unwrap-some none u u₁ x e = cc
unwrap-some (some y) u u₁ x e = ground arith

-- The receipts that the node keeps with the block: those of the system transactions that have one,
-- then the others.
abbrev pub kept_receipts : {k : Kinds} → List (SystemTx k) → List LegacyReceipt
kept_receipts [] = []
kept_receipts (t ∷ ts) = elim t.receipt [ none ↦ kept_receipts ts | some r ↦ r ∷ kept_receipts ts ]

-- What comes of a list of system transactions with receipts: transactions `xs` and receipts `rs`,
-- one of each for every system transaction.
pub record IsConverted (a : Alloy) (ts : List (SystemTx a.kinds)) (xs : List (TxSigned a.kinds))
    (rs : List LegacyReceipt) : Type 0 where
  pub receipts : rs ≡ kept_receipts ts
  pub count : length xs ≡ length ts
  pub receipts_count : length rs ≡ length ts
  pub again :
      (chain_id n : ℕ) (st : SpotState)
      → convert_system_txs (from_db_system_txs a xs (map to_receipt rs)) chain_id n st
        ≡ done (xs, st)
  pub again_kept :
      keep has_receipt (from_db_system_txs a xs (map to_receipt rs))
      ≡ from_db_system_txs a xs (map to_receipt rs)
  pub again_receipts :
      (st : SpotState)
      → unwrap_receipts (from_db_system_txs a xs (map to_receipt rs)) st ≡ done (rs, st)
  pub again_kept_receipts : kept_receipts (from_db_system_txs a xs (map to_receipt rs)) ≡ rs
  pub again_count : length (from_db_system_txs a xs (map to_receipt rs)) ≡ length ts

nil-IsConverted : (a : Alloy) → IsConverted a [] [] []
unfolding convert_system_txs unwrap_receipts from_db_system_txs
nil-IsConverted a = record {
  receipts = refl;
  count = refl;
  receipts_count = refl;
  again = λ chain_id n st. refl;
  again_kept = refl;
  again_receipts = λ st. refl;
  again_kept_receipts = refl;
  again_count = refl;
}

cons-IsConverted :
    (a : Alloy) (t : SystemTx a.kinds) (ts : List (SystemTx a.kinds)) (x : TxSigned a.kinds)
    (xs : List (TxSigned a.kinds)) (r : LegacyReceipt) (rs : List LegacyReceipt)
    → IsSystemTx t
    → IsSigned t x
    → t.receipt ≡ some r
    → IsConverted a ts xs rs
    → IsConverted a (t ∷ ts) (x ∷ xs) (r ∷ rs)
unfolding convert_system_txs unwrap_receipts from_db_system_txs from_db_system_tx
cons-IsConverted a t ts x xs r rs sys signed has c = record {
  receipts = ground (arith, c.receipts);
  count = ap suc c.count;
  receipts_count = ap suc c.receipts_count;
  again = λ chain_id n st.
      rw (sign_again a t x (to_receipt r) chain_id n st sys.0 signed, c.again chain_id n st);
  again_kept = ap (◌∷◌ (from_db_system_tx a x (to_receipt r))) c.again_kept;
  again_receipts = λ st. rw (c.again_receipts st, receipt_round_trip r);
  again_kept_receipts = λ i. receipt_round_trip r i ∷ c.again_kept_receipts i;
  again_count = ap suc c.again_count;
}

pub convert-IsConverted :
    (a : Alloy) (ts : List (SystemTx a.kinds)) (chain_id n : ℕ) (st mid st' : SpotState)
    (u : SpotState) (xs : List (TxSigned a.kinds)) (rs : List LegacyReceipt)
    → All IsSystemTx ts
    → convert_system_txs ts chain_id n st ≡ done (xs, mid)
    → unwrap_receipts ts u ≡ done (rs, st')
    → IsConverted a ts xs rs
unfolding convert_system_txs unwrap_receipts
convert-IsConverted a [] chain_id n st mid st' u xs rs ok e f =
    subst₂ (IsConverted a []) (ground arith) (ground arith) (nil-IsConverted a)
convert-IsConverted a (t ∷ ts) chain_id n st mid st' u xs rs ok e f =
    let (x, st₁, e₁, rest) = then_run-eq-done (system_tx_to_reth_transaction t chain_id n st) _ e in
    let (ys, st₂, e₂, out) = then_run-eq-done (convert_system_txs ts chain_id n st₁) _ rest in
    let (r, u₁, f₁, rest') = then_run-eq-done (unwrap t.receipt u) _ f in
    let (qs, u₂, f₂, out') = then_run-eq-done (unwrap_receipts ts u₁) _ rest' in
    subst₂ (IsConverted a (t ∷ ts)) (ground arith) (ground arith) (
      cons-IsConverted a t ts x ys r qs ok.0
        (system_tx_to_reth_transaction-IsSigned t chain_id n st st₁ x ok.0.1 e₁)
        (unwrap-some t.receipt u u₁ r f₁)
        (convert-IsConverted a ts chain_id n st₁ st₂ u₂ u₁ ys qs ok.1 e₂ f₂))
