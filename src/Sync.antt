-- ===== src/Sync.antt =====
-- src/addons/sync_server.rs and src/pseudo_peer/sources/rpc.rs: a node that serves blocks from its
-- database, and the block source of another node that asks it. The serialization and compression of
-- rmp_serde and lz4_flex are the interface `Codec`; metrics and the HTTP client are not modelled.
pub mod RoundTrip
use nanoreth.Prelude.{
  Result, ok, err, ℕ, ◌≡◌, List, [], ◌∷◌, Option, none, some, length, ltb, if◌then◌else◌, take,
}
use nanoreth.Primitives.{Alloy, EthereumReceipt, HlBlock}
use nanoreth.Types.Compat.{BlockAndReceipts}
use nanoreth.Types.FromDb.{from_db}
use nanoreth.PseudoPeer.Batches.{◌>>=◌, collect, rpc_collect_blocks}

pub record Codec (A : Type 0) : Type 1 where
  pub Bytes : Type 0
  pub write_named : List A → Option Bytes
  pub from_read : Bytes → Option (List A)
  pub from_read-write_named :
      (xs : List A) (bytes : Bytes) → write_named xs ≡ some bytes → from_read bytes ≡ some xs

-- What fails, on either side.
pub data SyncError : Type 0 where
  not_initialized read_failed serialize_failed decode_failed no_block : SyncError

-- `ok_or_else`.
abbrev pub ok_or {ℓ} : {A : Type ℓ} → SyncError → Option A → Result SyncError A
ok_or e none = err e
ok_or e (some x) = ok x

-- What is asked of the database; an error and a missing value are both a failed read.
pub record DbReader (a : Alloy) : Type 0 where
  pub block_by_number : ℕ → Option (HlBlock a)
  pub receipts_by_block : ℕ → Option (List EthereumReceipt)
  pub last_block_number : Option ℕ

module _ (a : Alloy) where
  unfoldable pub read_block_and_receipts : DbReader a → ℕ → Result SyncError (BlockAndReceipts a)
  read_block_and_receipts provider number = do
    block ← ok_or read_failed (provider.block_by_number number)
    receipts ← ok_or read_failed (provider.receipts_by_block number)
    ok (from_db block receipts)

  module _ (codec : Codec (BlockAndReceipts a)) (db_reader : Option (DbReader a)) where
    -- `heights[..MAX_BATCH]` of a longer list.
    abbrev pub capped : List ℕ → List ℕ
    capped heights = if ltb 500 (length heights) then take 500 heights else heights

    unfoldable pub sync_get_block : ℕ → Result SyncError codec.Bytes
    unfolding read_block_and_receipts
    sync_get_block height = do
      reader ← ok_or not_initialized db_reader
      block ← read_block_and_receipts reader height
      ok_or serialize_failed (codec.write_named (block ∷ []))

    unfoldable pub sync_get_blocks : List ℕ → Result SyncError codec.Bytes
    unfolding read_block_and_receipts collect
    sync_get_blocks heights = do
      reader ← ok_or not_initialized db_reader
      blocks ← collect (read_block_and_receipts reader) (capped heights)
      ok_or serialize_failed (codec.write_named blocks)

    unfoldable pub sync_latest_block_number : Result SyncError (Option ℕ)
    sync_latest_block_number = do
      reader ← ok_or not_initialized db_reader
      number ← ok_or read_failed reader.last_block_number
      ok (some number)

    -- The client. `blocks[0]` panics on an empty answer.
    abbrev pub first_block : List (BlockAndReceipts a) → Result SyncError (BlockAndReceipts a)
    first_block [] = err no_block
    first_block (block ∷ blocks) = ok block

    unfoldable pub collect_block : ℕ → Result SyncError (BlockAndReceipts a)
    unfolding sync_get_block
    collect_block height = do
      bytes ← sync_get_block height
      blocks ← ok_or decode_failed (codec.from_read bytes)
      first_block blocks

    unfoldable pub request_batch : List ℕ → Result SyncError (List (BlockAndReceipts a))
    unfolding sync_get_blocks
    request_batch batch = do
      bytes ← sync_get_blocks batch
      ok_or decode_failed (codec.from_read bytes)

    unfoldable pub collect_blocks : List ℕ → Result SyncError (List (BlockAndReceipts a))
    unfolding rpc_collect_blocks request_batch
    collect_blocks = rpc_collect_blocks request_batch

    abbrev pub latest_or_none : Result SyncError (Option ℕ) → Option ℕ
    latest_or_none (ok number) = number
    latest_or_none (err e) = none

    unfoldable pub find_latest_block_number : Option ℕ
    unfolding sync_latest_block_number
    find_latest_block_number = latest_or_none sync_latest_block_number
