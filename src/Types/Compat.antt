-- ===== src/Types/Compat.antt =====
-- src/node/types/reth_compat.rs: the transactions and blocks as they are serialized, and
-- `BlockAndReceipts` and `SystemTx` of src/node/types/mod.rs.
use nanoreth.Prelude.{ℕ, ◌≡◌, refl, List, [], ◌∷◌, map, Option}
use nanoreth.Primitives.{
  Alloy, BlockBody, Kinds, ReadPrecompileCalls, Signature, TransactionSigned as TxSigned, TxLegacy,
}
use nanoreth.Types.Receipts.{LegacyReceipt}

pub data Transaction (k : Kinds) : Type 0 where
  legacy : TxLegacy → Transaction k
  eip2930 : k.TxEip2930 → Transaction k
  eip1559 : k.TxEip1559 → Transaction k
  eip4844 : k.TxEip4844 → Transaction k
  eip7702 : k.TxEip7702 → Transaction k

pub record TransactionSigned (k : Kinds) : Type 0 where
  pub signature : Signature
  pub transaction : Transaction k

unfoldable pub from_node_tx : {k : Kinds} → TxSigned k → TransactionSigned k
from_node_tx (TxSigned.legacy t) = record {
  signature = t.signature;
  transaction = Transaction.legacy t.tx;
}
from_node_tx (TxSigned.eip2930 t) = record {
  signature = t.signature;
  transaction = Transaction.eip2930 t.tx;
}
from_node_tx (TxSigned.eip1559 t) = record {
  signature = t.signature;
  transaction = Transaction.eip1559 t.tx;
}
from_node_tx (TxSigned.eip4844 t) = record {
  signature = t.signature;
  transaction = Transaction.eip4844 t.tx;
}
from_node_tx (TxSigned.eip7702 t) = record {
  signature = t.signature;
  transaction = Transaction.eip7702 t.tx;
}

unfoldable pub extract_transaction : {k : Kinds} → TxSigned k → Transaction k
extract_transaction (TxSigned.legacy t) = Transaction.legacy t.tx
extract_transaction (TxSigned.eip2930 t) = Transaction.eip2930 t.tx
extract_transaction (TxSigned.eip1559 t) = Transaction.eip1559 t.tx
extract_transaction (TxSigned.eip4844 t) = Transaction.eip4844 t.tx
extract_transaction (TxSigned.eip7702 t) = Transaction.eip7702 t.tx

unfoldable pub sign_with : {k : Kinds} → Transaction k → Signature → TxSigned k
sign_with (Transaction.legacy t) g = TxSigned.legacy (record { tx = t; signature = g })
sign_with (Transaction.eip2930 t) g = TxSigned.eip2930 (record { tx = t; signature = g })
sign_with (Transaction.eip1559 t) g = TxSigned.eip1559 (record { tx = t; signature = g })
sign_with (Transaction.eip4844 t) g = TxSigned.eip4844 (record { tx = t; signature = g })
sign_with (Transaction.eip7702 t) g = TxSigned.eip7702 (record { tx = t; signature = g })

unfoldable pub to_reth_transaction : {k : Kinds} → TransactionSigned k → TxSigned k
unfolding sign_with
to_reth_transaction t = sign_with t.transaction t.signature

from_node_tx-sign_with :
    {k : Kinds} (t : Transaction k) (g : Signature)
    → from_node_tx (sign_with t g) ≡ record { signature = g; transaction = t }
unfolding from_node_tx sign_with
from_node_tx-sign_with (Transaction.legacy t) g = refl
from_node_tx-sign_with _ g = refl

pub from_node_tx-to_reth_transaction :
    {k : Kinds} (t : TransactionSigned k) → from_node_tx (to_reth_transaction t) ≡ t
unfolding to_reth_transaction
from_node_tx-to_reth_transaction t = from_node_tx-sign_with t.transaction t.signature

-- Nothing of a transaction of the node is lost in its serialized form.
pub to_reth_transaction-from_node_tx :
    {k : Kinds} (t : TxSigned k) → to_reth_transaction (from_node_tx t) ≡ t
unfolding from_node_tx to_reth_transaction
to_reth_transaction-from_node_tx (TxSigned.legacy t) = refl
to_reth_transaction-from_node_tx _ = refl

pub transactions_round_trip :
    {k : Kinds} (ts : List (TransactionSigned k))
    → map from_node_tx (map to_reth_transaction ts) ≡ ts
transactions_round_trip [] = refl
transactions_round_trip (t ∷ ts) =
    λ i. from_node_tx-to_reth_transaction t i ∷ transactions_round_trip ts i

pub record SealedHeader (a : Alloy) : Type 0 where
  pub hash : ℕ
  pub header : a.Header

pub record SealedBlock (a : Alloy) : Type 0 where
  pub header : SealedHeader a
  pub body : BlockBody a (TransactionSigned a.kinds) a.Header

pub record SystemTx (k : Kinds) : Type 0 where
  pub tx : Transaction k
  pub receipt : Option LegacyReceipt
  pub from : Option ℕ

unfoldable pub gas_limit_of : {k : Kinds} → Transaction k → ℕ
gas_limit_of (Transaction.legacy t) = t.gas_limit
gas_limit_of {k} (Transaction.eip2930 t) = k.gas_limit_2930 t
gas_limit_of {k} (Transaction.eip1559 t) = k.gas_limit_1559 t
gas_limit_of {k} (Transaction.eip4844 t) = k.gas_limit_4844 t
gas_limit_of {k} (Transaction.eip7702 t) = k.gas_limit_7702 t

-- `block` is the one variant `Reth115` of `EvmBlock`.
pub record BlockAndReceipts (a : Alloy) : Type 0 where
  pub block : SealedBlock a
  pub receipts : List LegacyReceipt
  pub system_txs : List (SystemTx a.kinds)
  pub read_precompile_calls : ReadPrecompileCalls
  pub highest_precompile_address : Option ℕ

unfoldable pub hash : {a : Alloy} → BlockAndReceipts a → ℕ
hash b = b.block.header.hash

unfoldable pub number : {a : Alloy} → BlockAndReceipts a → ℕ
number {a} b = a.number b.block.header.header

unfoldable pub parent_hash : {a : Alloy} → BlockAndReceipts a → ℕ
parent_hash {a} b = a.parent_hash b.block.header.header
