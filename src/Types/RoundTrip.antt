-- ===== src/Types/RoundTrip.antt =====
-- A block survives the way into the node's database and back.
pub mod Signing
pub mod Converted
use mathlib.Core.Path.{subst₂}
use nanoreth.Prelude.{
  ℕ, zero, suc, ◌≡◌, ◌<◌, refl, sym, ap, ◌∙◌, subst, Bool, true, false, List, [], ◌∷◌, ◌++◌, map,
  Option, none, some, arith, if◌then◌else◌, length, keep, All, length-map, inl, inr, Option-cases,
  Bool-cases,
}
use nanoreth.Primitives.{
  Alloy, EthereumReceipt, HlBlock, Kinds, TransactionSigned as TxSigned, from_ethereum_header,
}
use nanoreth.Types.Receipts.{
  LegacyReceipt, to_receipt, to_legacy_receipt, receipt_round_trip, receipts_round_trip,
}
use nanoreth.Types.Compat.{
  BlockAndReceipts, SystemTx, Transaction, number, to_reth_transaction, transactions_round_trip,
}
use nanoreth.Types.Convert.{
  M, Outcome, SpotState, done, has_receipt, then_run, unwrap, ◌>>=◌, to_reth_block,
  convert_system_txs, system_tx_to_reth_transaction, unwrap_receipts,
}
use nanoreth.Types.FromDb.{
  from_db, from_db_system_tx, from_db_system_txs, split_system, split_system-append,
}
use Converted.{IsConverted, kept_receipts, convert-IsConverted}
use Signing.{
  IsSystemTx, IsSigned, then_run-eq-done, sign_again, system_tx_to_reth_transaction-IsSigned,
}

keep-All :
    {k : Kinds} (ts : List (SystemTx k)) → All IsSystemTx ts → All IsSystemTx (keep has_receipt ts)
keep-All [] ok = tt
keep-All (t ∷ ts) ok = elim (Bool-cases (has_receipt t)) [
  | inl some_receipt ↦ rw some_receipt (ok.0, keep-All ts ok.1)
  | inr no_receipt ↦ rw no_receipt (keep-All ts ok.1)
]

pub kept_receipts-keep :
    {k : Kinds} (ts : List (SystemTx k)) → kept_receipts (keep has_receipt ts) ≡ kept_receipts ts
kept_receipts-keep [] = refl
kept_receipts-keep (t ∷ ts) = ground (arith, kept_receipts-keep ts)

-- The block that `to_reth_block` puts together, from its parts.
abbrev pub assemble :
    (a : Alloy) → BlockAndReceipts a → List (TxSigned a.kinds) → List LegacyReceipt → ℕ → HlBlock a
assemble a b xs rs count = record {
  header =
      from_ethereum_header b.block.header.header (map to_receipt rs ++ map to_receipt b.receipts)
        count;
  body = record {
    inner = record {
      transactions = xs ++ map to_reth_transaction b.block.body.transactions;
      ommers = [];
      withdrawals = b.block.body.withdrawals;
    };
    sidecars = none;
    read_precompile_calls = some b.read_precompile_calls;
    highest_precompile_address = b.highest_precompile_address;
  };
}

-- The receipts that the node keeps of the block.
abbrev pub node_receipts : {a : Alloy} → BlockAndReceipts a → List EthereumReceipt
node_receipts b = map to_receipt (kept_receipts b.system_txs) ++ map to_receipt b.receipts

module _ (a : Alloy) (b : BlockAndReceipts a) (chain_id : ℕ) (st st' : SpotState) (hb : HlBlock a)
    (ok : All IsSystemTx b.system_txs) (e : to_reth_block b chain_id st ≡ done (hb, st')) where
  pub converted :
      (xs : List (TxSigned a.kinds)) × (rs : List LegacyReceipt) × IsConverted a
        (keep has_receipt b.system_txs)
        xs
        rs
      × (hb ≡ assemble a b xs rs (length (keep has_receipt b.system_txs)))
  unfolding to_reth_block
  converted =
      let ts = keep has_receipt b.system_txs in
      let (xs, st₁, e₁, rest) =
        then_run-eq-done (convert_system_txs ts chain_id (number b) st) _ e in
      let (rs, st₂, e₂, out) = then_run-eq-done (unwrap_receipts ts st₁) _ rest in
      (
        xs,
        rs,
        convert-IsConverted a ts chain_id (number b) st st₁ st₂ st₁ xs rs (keep-All b.system_txs ok)
            e₁ e₂,
        ground arith,
      )

from_db-assemble :
    (a : Alloy) (b : BlockAndReceipts a) (ts : List (SystemTx a.kinds))
    (xs : List (TxSigned a.kinds)) (rs : List LegacyReceipt)
    → IsConverted a ts xs rs
    → from_db (assemble a b xs rs (length ts)) (map to_receipt rs ++ map to_receipt b.receipts)
      ≡ record {
        block = record {
          header = record {
            hash = a.hash_slow b.block.header.header;
            header = b.block.header.header;
          };
          body = record {
            transactions = b.block.body.transactions;
            ommers = [];
            withdrawals = b.block.body.withdrawals;
          };
        };
        receipts = b.receipts;
        system_txs = from_db_system_txs a xs (map to_receipt rs);
        read_precompile_calls = b.read_precompile_calls;
        highest_precompile_address = b.highest_precompile_address;
      }
unfolding from_db from_ethereum_header
from_db-assemble a b ts xs rs c =
    let txs = map to_reth_transaction b.block.body.transactions in
    let receipts = map to_receipt b.receipts in
    let split_txs : split_system (length ts) (xs ++ txs) ≡ (xs, txs) =
      subst (λ n. split_system n (xs ++ txs) ≡ (xs, txs)) c.count (split_system-append xs txs) in
    let split_receipts : split_system (length ts) (map to_receipt rs ++ receipts)
        ≡ (map to_receipt rs, receipts) =
      subst (λ n. split_system n (map to_receipt rs ++ receipts) ≡ (map to_receipt rs, receipts))
        (length-map to_receipt rs ∙ c.receipts_count)
        (split_system-append (map to_receipt rs) receipts) in
    rw (
      split_txs,
      split_receipts,
      transactions_round_trip b.block.body.transactions,
      receipts_round_trip b.receipts,
    )

convert_assembled :
    (a : Alloy) (b : BlockAndReceipts a) (ts : List (SystemTx a.kinds))
    (xs : List (TxSigned a.kinds)) (rs : List LegacyReceipt) (chain_id : ℕ) (st : SpotState)
    → IsConverted a ts xs rs
    → to_reth_block
        (from_db (assemble a b xs rs (length ts)) (map to_receipt rs ++ map to_receipt b.receipts))
        chain_id
        st
      ≡ done (assemble a b xs rs (length ts), st)
unfolding to_reth_block number
convert_assembled a b ts xs rs chain_id st c = rw (
  from_db-assemble a b ts xs rs c,
  c.again_kept,
  c.again chain_id (a.number b.block.header.header) st,
  c.again_receipts st,
  c.again_count,
)

module _ (a : Alloy) (b : BlockAndReceipts a) (chain_id : ℕ) (st st' : SpotState) (hb : HlBlock a)
    (ok : All IsSystemTx b.system_txs) (e : to_reth_block b chain_id st ≡ done (hb, st')) where
  -- A block that was converted once, stored with its receipts, read back and converted again is the
  -- same block, for every chain and every state of the spot metadata, which stays as it was. The
  -- system transactions are free of gas and their given senders are addresses of 20 bytes.
  pub to_reth_block-from_db :
      (chain_id' : ℕ) (later : SpotState)
      → to_reth_block (from_db hb (node_receipts b)) chain_id' later ≡ done (hb, later)
  to_reth_block-from_db chain_id' later =
      let (xs, rs, c, shape) = converted a b chain_id st st' hb ok e in
      rw (shape, ← (c.receipts ∙ kept_receipts-keep b.system_txs))
        (convert_assembled a b (keep has_receipt b.system_txs) xs rs chain_id' later c)

  -- When a delivered block converts, and its system transactions are free of gas with senders, where
  -- given, of 20 bytes, then `from_db` rebuilds from the stored block the delivered header, ordinary
  -- transactions, withdrawals, receipts, receipts of the system transactions, and recorded
  -- precompile calls, with one system transaction for each that has a receipt.
  pub from_db-to_reth_block :
      let back = from_db hb (node_receipts b) in
      (back.block.header.header ≡ b.block.header.header)
      × (back.block.body.transactions ≡ b.block.body.transactions)
      × (back.block.body.withdrawals ≡ b.block.body.withdrawals)
      × (back.receipts ≡ b.receipts)
      × (kept_receipts back.system_txs ≡ kept_receipts b.system_txs)
      × (length back.system_txs ≡ length (keep has_receipt b.system_txs))
      × (back.read_precompile_calls ≡ b.read_precompile_calls)
      × (back.highest_precompile_address ≡ b.highest_precompile_address)
  from_db-to_reth_block =
      let (xs, rs, c, shape) = converted a b chain_id st st' hb ok e in
      rw
        (
          shape,
          ← (c.receipts ∙ kept_receipts-keep b.system_txs),
          from_db-assemble a b (keep has_receipt b.system_txs) xs rs c,
        )
        (refl, refl, refl, refl, c.again_kept_receipts, c.again_count, refl, refl)
