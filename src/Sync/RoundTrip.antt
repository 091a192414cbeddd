-- ===== src/Sync/RoundTrip.antt =====
-- A node that syncs from another node gets the other's blocks.
use nanoreth.Prelude.{
  Result, ok, err, ℕ, ◌≤◌, ◌≡◌, refl, List, [], ◌∷◌, some, arith, length, ltb, false, All,
}
use nanoreth.Primitives.{Alloy, HlBlock}
use nanoreth.Types.Compat.{BlockAndReceipts}
use nanoreth.Types.Convert.{SpotState, done, to_reth_block}
use nanoreth.Types.FromDb.{from_db}
use nanoreth.Types.RoundTrip.{node_receipts, to_reth_block-from_db}
use nanoreth.Types.RoundTrip.Signing.{IsSystemTx}
use nanoreth.PseudoPeer.Batches.{◌>>=◌, batch_size, collect}
use nanoreth.PseudoPeer.BatchLaws.{rpc_collect_blocks-collect}
use nanoreth.Sync.{
  Codec, DbReader, SyncError, collect_block, collect_blocks, ok_or, read_block_and_receipts,
  request_batch, serialize_failed, decode_failed, sync_get_block, sync_get_blocks,
}

module _ (a : Alloy) (codec : Codec (BlockAndReceipts a)) (reader : DbReader a)
    (serializes : (xs : List (BlockAndReceipts a))
      → (bytes : codec.Bytes) × (codec.write_named xs ≡ some bytes)) where
  decoded :
      (xs : List (BlockAndReceipts a))
      → (ok_or serialize_failed (codec.write_named xs) >>= λ bytes.
          ok_or decode_failed (codec.from_read bytes))
        ≡ ok xs
  decoded xs =
      let (bytes, written) = serializes xs in
      rw (written, codec.from_read-write_named xs bytes written) refl

  batch_bind :
      (r : Result SyncError (List (BlockAndReceipts a)))
      → ((r >>= λ blocks. ok_or serialize_failed (codec.write_named blocks)) >>= λ bytes.
          ok_or decode_failed (codec.from_read bytes))
        ≡ r
  batch_bind (err e) = refl
  batch_bind (ok blocks) = decoded blocks

  request_batch-collect :
      (heights : List ℕ)
      → length heights ≤ batch_size
      → request_batch a codec (some reader) heights
        ≡ collect (read_block_and_receipts a reader) heights
  unfolding request_batch sync_get_blocks
  request_batch-collect heights h =
      let short : ltb 500 (length heights) ≡ false = ground (arith, h) in
      rw short (batch_bind (collect (read_block_and_receipts a reader) heights))

  -- A node that asks another node's sync server for any number of heights gets the blocks that the
  -- other reads from its database, in the order of the heights, or the first error of these reads:
  -- the cap of the server never cuts an answer short. The codec reads back what it writes and
  -- writes every list of blocks.
  pub collect_blocks-read :
      (heights : List ℕ)
      → collect_blocks a codec (some reader) heights
        ≡ collect (read_block_and_receipts a reader) heights
  unfolding collect_blocks
  collect_blocks-read heights =
      rpc_collect_blocks-collect (request_batch a codec (some reader))
        (read_block_and_receipts a reader) request_batch-collect heights

  -- A block that one node converted and stored with its receipts, served to another node and
  -- converted there, is the same block, for every state of the spot metadata of the other node. The
  -- system transactions are free of gas and their given senders are addresses of 20 bytes.
  pub collect_block-to_reth_block :
      (b : BlockAndReceipts a) (chain_id : ℕ) (st st' : SpotState) (hb : HlBlock a) (height : ℕ)
      → All IsSystemTx b.system_txs
      → to_reth_block b chain_id st ≡ done (hb, st')
      → reader.block_by_number height ≡ some hb
      → reader.receipts_by_block height ≡ some (node_receipts b)
      → (served : BlockAndReceipts a) × (collect_block a codec (some reader) height ≡ ok served)
        × ((chain_id' : ℕ) (other : SpotState)
            → to_reth_block served chain_id' other ≡ done (hb, other))
  unfolding collect_block sync_get_block read_block_and_receipts
  collect_block-to_reth_block b chain_id st st' hb height system e found found' =
      let (bytes, written) = serializes (from_db hb (node_receipts b) ∷ []) in
      (
        from_db hb (node_receipts b),
        rw (found, found', written, codec.from_read-write_named _ bytes written) refl,
        λ chain_id' other. to_reth_block-from_db a b chain_id st st' hb system e chain_id' other,
      )
