-- ===== src/Tests/Service.antt =====
-- Runs of the service of the pseudo peer and of its poller, on the store of the sample blocks.
use nanoreth.Prelude.{
  ℕ, ◌≡◌, refl, List, [], ◌∷◌, Option, none, some, arith, map, length, count_up, lookup, insert,
}
use nanoreth.Primitives.{HlHeader, from_ethereum_header}
use nanoreth.Primitives.Sender.{address_to_s}
use nanoreth.Types.Compat.{BlockAndReceipts, number}
use nanoreth.Types.Convert.{
  M, done, convert_system_tx, convert_system_txs, sign_system_tx, synthetic_s,
  system_tx_to_reth_transaction, to_reth_block, unwrap_receipts,
}
use nanoreth.PseudoPeer.Caches.{LruMap}
use nanoreth.PseudoPeer.Store.{
  BlockStore, add_fetched, gather, get_by_numbers, remove_entry, take_heights,
}
use nanoreth.PseudoPeer.Answers.{IsSound}
use nanoreth.PseudoPeer.Service.{
  GetBlockHeaders, HashOrNumber, Response, clamp, convert_blocks, get_block_headers, headers,
  process_eth_request, requested_heights, rising, task_loop,
}
use nanoreth.PseudoPeer.ServiceLaws.{process_eth_request-headers}
use nanoreth.PseudoPeer.PollerLaws.{task_loop-count_up}
use nanoreth.Tests.Samples.{alloy, block_at, cold, lru_of}
use nanoreth.Tests.Types.{stored_block}
use nanoreth.Tests.PseudoPeer.{empty_store, keys, no_gaps, upstream}

abbrev blocks : LruMap (BlockAndReceipts alloy)
blocks = lru_of (BlockAndReceipts alloy)

no_gaps-number : (h : ℕ) (b : BlockAndReceipts alloy) → no_gaps h ≡ some b → number b ≡ h
no_gaps-number h b e = absurd (ground (arith, e))

empty_store-IsSound : IsSound keys alloy blocks empty_store.blocks
empty_store-IsSound h b e = absurd (ground (arith, e))

-- The source sends several blocks in the wrong order.
abbrev source_blocks : List ℕ → Option (List (BlockAndReceipts alloy))
source_blocks hs = some (block_at 6 ∷ block_at 5 ∷ [])

abbrev request : GetBlockHeaders
request = record { start_block = HashOrNumber.number 5; limit = 2; skip = 0; direction = rising }

abbrev asked : M (Response alloy) × BlockStore keys alloy blocks
asked =
    process_eth_request keys alloy blocks no_gaps upstream none source_blocks 999
      (get_block_headers request) empty_store

abbrev two_headers : List (HlHeader alloy)
two_headers = stored_block.header ∷ record (stored_block.header) { inner = (6, 999) } ∷ []

answered : asked.0 (cold []) ≡ done (headers two_headers, cold [])
unfolding process_eth_request requested_heights convert_blocks get_by_numbers gather add_fetched
    take_heights to_reth_block convert_system_txs system_tx_to_reth_transaction convert_system_tx
    sign_system_tx synthetic_s unwrap_receipts address_to_s number from_ethereum_header lookup
    insert remove_entry
answered = refl

process_eth_request-headers_example :
    (map (λ h. alloy.number h.inner) two_headers ≡ 5 ∷ 6 ∷ [])
    × IsSound keys alloy blocks asked.1.blocks
process_eth_request-headers_example =
    process_eth_request-headers keys alloy blocks no_gaps no_gaps-number upstream none source_blocks
      999 request empty_store 5 empty_store-IsSound (omega arith) refl (cold []) (cold [])
      two_headers answered

-- The source has no block at the second turn.
abbrev turns : List (ℕ → Option (BlockAndReceipts alloy))
turns = upstream ∷ no_gaps ∷ upstream ∷ []

task_loop-count_up_example :
    map (λ e. e.0) (task_loop keys alloy blocks no_gaps (some 5) turns 5 empty_store).0
    ≡ map
        (clamp (some 5))
        (count_up 5 (length (task_loop keys alloy blocks no_gaps (some 5) turns 5 empty_store).0))
task_loop-count_up_example =
    task_loop-count_up keys alloy blocks no_gaps (some 5) turns 5 empty_store (omega arith)
