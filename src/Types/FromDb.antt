-- ===== src/Types/FromDb.antt =====
-- `BlockAndReceipts::from_db` of src/node/types/mod.rs: the way back from a block of the node.
use nanoreth.Prelude.{
  ℕ, ◌+◌, ◌≡◌, refl, true, ◌&&◌, List, [], ◌∷◌, ◌++◌, map, Option, none, some, arith, ltb, leb,
  if◌then◌else◌, length, length-append,
}
use nanoreth.Primitives.{
  Alloy, EthereumReceipt, HlBlock, ReadPrecompileCalls, TransactionSigned as TxSigned,
}
use nanoreth.Primitives.Sender.{recover_signer}
use nanoreth.Types.Receipts.{to_legacy_receipt}
use nanoreth.Types.Compat.{BlockAndReceipts, SystemTx, extract_transaction, from_node_tx}

module _ {ℓ} {A : Type ℓ} where
  -- `enumerate` from `i`, and `partition` by an index below `n`.
  unfoldable pub partition_below : ℕ → ℕ → List A → List A × List A
  partition_below n i [] = ([], [])
  partition_below n i (x ∷ xs) =
      let (below, rest) = partition_below n (i + 1) xs in
      if ltb i n then (x ∷ below, rest) else (below, x ∷ rest)

  unfoldable pub split_system : ℕ → List A → List A × List A
  unfolding partition_below
  split_system n xs = if ltb 0 n && leb n (length xs) then partition_below n 0 xs else ([], xs)

  partition_below_past :
      (n i : ℕ) (ys : List A) → leb n i ≡ true → partition_below n i ys ≡ ([], ys)
  unfolding partition_below
  partition_below_past n i [] h = refl
  partition_below_past n i (y ∷ ys) h =
      ground (arith, partition_below_past n (i + 1) ys (ground arith))

  partition_below-append :
      (n i : ℕ) (xs ys : List A) → n ≡ i + length xs → partition_below n i (xs ++ ys) ≡ (xs, ys)
  unfolding partition_below
  partition_below-append n i [] ys e = partition_below_past n i ys (ground arith)
  partition_below-append n i (x ∷ xs) ys e =
      ground (arith, partition_below-append n (i + 1) xs ys (omega arith))

  -- Splitting by the length of the first part gives the two parts back, also when it is empty.
  pub split_system-append : (xs ys : List A) → split_system (length xs) (xs ++ ys) ≡ (xs, ys)
  unfolding split_system
  split_system-append [] ys = refl
  split_system-append (x ∷ xs) ys = ground (
    arith,
    partition_below-append (length (x ∷ xs)) 0 (x ∷ xs) ys (omega arith),
    length-append (x ∷ xs) ys,
  )

unfoldable pub from_db_system_tx :
    (a : Alloy) → TxSigned a.kinds → EthereumReceipt → SystemTx a.kinds
unfolding recover_signer extract_transaction
from_db_system_tx a tx receipt = record {
  tx = extract_transaction tx;
  receipt = some (to_legacy_receipt receipt);
  from = recover_signer a tx;
}

-- `zip` and `map`: the longer list is cut.
unfoldable pub from_db_system_txs :
    (a : Alloy) → List (TxSigned a.kinds) → List EthereumReceipt → List (SystemTx a.kinds)
unfolding from_db_system_tx
from_db_system_txs a (tx ∷ txs) (r ∷ rs) = from_db_system_tx a tx r ∷ from_db_system_txs a txs rs
from_db_system_txs a _ _ = []

abbrev pub or_default : Option ReadPrecompileCalls → ReadPrecompileCalls
or_default none = []
or_default (some calls) = calls

unfoldable pub from_db : {a : Alloy} → HlBlock a → List EthereumReceipt → BlockAndReceipts a
from_db {a} block receipts =
    let count = block.header.extras.system_tx_count in
    let (system_tx_list, regular_tx_list) = split_system count block.body.inner.transactions in
    let (system_receipts, regular_receipts) = split_system count receipts in
    record {
      block = record {
        header = record { hash = a.hash_slow block.header.inner; header = block.header.inner };
        body = record {
          transactions = map from_node_tx regular_tx_list;
          ommers = [];
          withdrawals = block.body.inner.withdrawals;
        };
      };
      receipts = map to_legacy_receipt regular_receipts;
      system_txs = from_db_system_txs a system_tx_list system_receipts;
      read_precompile_calls = or_default block.body.read_precompile_calls;
      highest_precompile_address = block.body.highest_precompile_address;
    }
