-- ===== src/Compliance.antt =====
-- src/addons/hl_node_compliance: answers that hide the system transactions, as hl-node gives them.
-- What reth and alloy provide is a field of `Eth`: transactions, the blocks and receipts of the
-- database, and the conversion of a list of receipt inputs. Tracing and the wiring of the RPC
-- server (`install`, the trait declarations) are not modelled; a stream
-- of a subscription is the list of what it yields.
pub mod Inputs
pub mod Numbering
pub mod Receipts
pub mod Served
pub mod Logs
pub mod Query
pub mod Blocks
pub mod BlockLaws
pub mod Streams
pub mod StreamLaws
use nanoreth.Prelude.{ℕ, List, Option, Result}
use nanoreth.Primitives.{Alloy, EthereumReceipt, HlHeader}

-- What every input of one block shares.
pub record BlockInfo : Type 0 where
  pub block_hash : ℕ
  pub block_number : ℕ
  pub base_fee : Option ℕ
  pub excess_blob_gas : Option ℕ
  pub timestamp : ℕ

pub record TransactionMeta : Type 0 where
  pub tx_hash : ℕ
  pub index : ℕ
  pub info : BlockInfo

-- A transaction with its signer, and its hash.
pub record RecoveredTx (T : Type 0) : Type 0 where
  pub tx : T
  pub tx_hash : ℕ

pub record ConvertReceiptInput (T : Type 0) : Type 0 where
  pub receipt : EthereumReceipt
  pub tx : RecoveredTx T
  pub gas_used : ℕ
  pub next_log_index : ℕ
  pub meta : TransactionMeta

pub record LoadedBlock (T : Type 0) : Type 0 where
  pub info : BlockInfo
  pub transactions : List (RecoveredTx T)

-- `get_transaction_meta` of a hash: the block and the place in it.
pub record Located : Type 0 where
  pub block_hash : ℕ
  pub index : ℕ

pub record Eth : Type 1 where
  pub alloy : Alloy
  pub Tx : Type 0
  pub RpcReceipt : Type 0
  pub Error : Type 0
  pub header_by_id : ℕ → Result Error (Option (HlHeader alloy))
  pub load_block_and_receipts : ℕ → Result Error (Option (LoadedBlock Tx × List EthereumReceipt))
  pub load_transaction : ℕ → Result Error (Option Located)
  pub convert_receipts : List (ConvertReceiptInput Tx) → Result Error (List RpcReceipt)

abbrev pub Entry : Type 0 → Type 0
Entry T = RecoveredTx T × EthereumReceipt
