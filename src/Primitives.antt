-- ===== src/Primitives.antt =====
-- src/node/primitives and the alloy types around them: transactions, receipts, headers, blocks.
-- An address, a U256 and a hash are the numbers that they spell; bytes are lists of numbers.
-- What alloy defines and the code only passes along is a field of `Kinds` or of `Alloy`.
pub mod Sender
use nanoreth.Prelude.{
  ℕ, zero, ◌≡◌, Bool, true, false, List, [], ◌∷◌, ◌++◌, map, Option, none, some, ◌==◌,
  if◌then◌else◌,
}

-- alloy's `TxKind`.
pub data TxKind : Type 0 where
  create : TxKind
  call : ℕ → TxKind

-- alloy's `TxLegacy`, with the fields that the code reads and builds.
pub record TxLegacy : Type 0 where
  pub chain_id : Option ℕ
  pub nonce : ℕ
  pub gas_price : ℕ
  pub gas_limit : ℕ
  pub to : TxKind
  pub value : ℕ
  pub input : List ℕ

-- The transaction types that the code carries without looking inside, and what it asks of them.
pub record Kinds : Type 1 where
  pub TxEip2930 : Type 0
  pub TxEip1559 : Type 0
  pub TxEip4844 : Type 0
  pub TxEip7702 : Type 0
  pub gas_price_2930 : TxEip2930 → ℕ
  pub gas_limit_2930 : TxEip2930 → ℕ
  pub gas_limit_1559 : TxEip1559 → ℕ
  pub gas_limit_4844 : TxEip4844 → ℕ
  pub gas_limit_7702 : TxEip7702 → ℕ

-- alloy's `Signature::new(r, s, y_parity)`.
pub record Signature : Type 0 where
  pub r : ℕ
  pub s : ℕ
  pub y_parity : Bool

-- alloy's `Signed`, without the hash that it computes from these two on demand.
pub record Signed (T : Type 0) : Type 0 where
  pub tx : T
  pub signature : Signature

-- The `TransactionSigned` of src/node/primitives/transaction.rs, with its one variant `Default`
-- opened: alloy's `EthereumTxEnvelope`.
pub data TransactionSigned (k : Kinds) : Type 0 where
  legacy : Signed TxLegacy → TransactionSigned k
  eip2930 : Signed k.TxEip2930 → TransactionSigned k
  eip1559 : Signed k.TxEip1559 → TransactionSigned k
  eip4844 : Signed k.TxEip4844 → TransactionSigned k
  eip7702 : Signed k.TxEip7702 → TransactionSigned k

-- alloy's `gas_price`: the dynamic-fee types have none.
unfoldable pub gas_price : {k : Kinds} → TransactionSigned k → Option ℕ
gas_price (legacy t) = some t.tx.gas_price
gas_price {k} (eip2930 t) = some (k.gas_price_2930 t.tx)
gas_price (eip1559 t) = none
gas_price (eip4844 t) = none
gas_price (eip7702 t) = none

abbrev pub is_zero : Option ℕ → Bool
is_zero none = false
is_zero (some p) = p == 0

unfoldable pub is_system_transaction : {k : Kinds} → TransactionSigned k → Bool
unfolding gas_price
is_system_transaction t = is_zero (gas_price t)

-- alloy's `Log`, and the topics of its data.
pub record Log : Type 0 where
  pub address : ℕ
  pub topics : List ℕ
  pub payload : List ℕ

pub data TxType : Type 0 where
  legacy eip2930 eip1559 eip4844 eip7702 : TxType

pub record EthereumReceipt : Type 0 where
  pub tx_type : TxType
  pub success : Bool
  pub cumulative_gas_used : ℕ
  pub logs : List Log

-- src/node/types/mod.rs: `ReadPrecompileCalls` and what it holds.
pub record ReadPrecompileInput : Type 0 where
  pub input : List ℕ
  pub gas_limit : ℕ

pub data ReadPrecompileResult : Type 0 where
  ok : ℕ → List ℕ → ReadPrecompileResult
  out_of_gas error unexpected_error : ReadPrecompileResult

abbrev pub ReadPrecompileCalls : Type 0
ReadPrecompileCalls = List (ℕ × List (ReadPrecompileInput × ReadPrecompileResult))

-- What the code uses of alloy's header, bloom filter, withdrawals, sidecars and key recovery.
pub record Alloy : Type 1 where
  pub kinds : Kinds
  pub Header : Type 0
  pub Bloom : Type 0
  pub Withdrawals : Type 0
  pub Sidecar : Type 0
  pub number : Header → ℕ
  pub parent_hash : Header → ℕ
  pub hash_slow : Header → ℕ
  pub logs_bloom : List Log → Bloom
  pub recover_signer : TransactionSigned kinds → Option ℕ

pub record HlHeaderExtras (a : Alloy) : Type 0 where
  pub logs_bloom_with_system_txs : a.Bloom
  pub system_tx_count : ℕ

pub record HlHeader (a : Alloy) : Type 0 where
  pub inner : a.Header
  pub extras : HlHeaderExtras a

abbrev pub all_logs : List EthereumReceipt → List Log
all_logs [] = []
all_logs (r ∷ rs) = r.logs ++ all_logs rs

unfoldable pub from_ethereum_header : {a : Alloy} → a.Header → List EthereumReceipt → ℕ → HlHeader a
from_ethereum_header {a} header receipts system_tx_count = record {
  inner = header;
  extras = record {
    logs_bloom_with_system_txs = a.logs_bloom (all_logs receipts);
    system_tx_count = system_tx_count;
  };
}

-- alloy's `BlockBody`, over the transactions and ommers of the node.
pub record BlockBody (a : Alloy) (T H : Type 0) : Type 0 where
  pub transactions : List T
  pub ommers : List H
  pub withdrawals : Option a.Withdrawals

pub record HlBlockBody (a : Alloy) : Type 0 where
  pub inner : BlockBody a (TransactionSigned a.kinds) (HlHeader a)
  pub sidecars : Option (List a.Sidecar)
  pub read_precompile_calls : Option ReadPrecompileCalls
  pub highest_precompile_address : Option ℕ

pub record HlBlock (a : Alloy) : Type 0 where
  pub header : HlHeader a
  pub body : HlBlockBody a
