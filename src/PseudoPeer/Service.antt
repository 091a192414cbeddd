-- ===== src/PseudoPeer/Service.antt =====
-- src/pseudo_peer/service.rs: the poller that sends new blocks, and the answers to requests for
-- headers and bodies; src/pseudo_peer/mod.rs: the events of the network. Channels are lists of what
-- went through them. The conversion of the blocks of an answer runs in the order of the list, where
-- the source runs it on several threads.
use nanoreth.Prelude.{
  ℕ, zero, suc, ◌+◌, ◌-◌, Bool, false, List, [], ◌∷◌, ◌++◌, Option, none, some, ltb, if◌then◌else◌,
  add_u64, sub_u64, count_up,
}
use nanoreth.Primitives.{Alloy, HlBlock, HlBlockBody, HlHeader}
use nanoreth.Types.Compat.{BlockAndReceipts}
use nanoreth.Types.Convert.{M, ◌>>=◌, pure, to_reth_block}
use nanoreth.PseudoPeer.Caches.{LruMap}
use nanoreth.PseudoPeer.Store.{
  BlockStore, LruCache, get_by_number, get_by_numbers, hash_to_number, index_block_inner,
}

-- `start..end`.
abbrev pub range : ℕ → ℕ → List ℕ
range start end = count_up start (end - start)

-- `rev` of a range.
unfoldable pub count_down : ℕ → ℕ → List ℕ
count_down start zero = []
count_down start (suc n) = (start + n) ∷ count_down start n

abbrev pub reversed_range : ℕ → ℕ → List ℕ
reversed_range start end = count_down start (end - start)

pub data HashOrNumber : Type 0 where
  hash number : ℕ → HashOrNumber

pub data HeadersDirection : Type 0 where
  rising falling : HeadersDirection

pub record GetBlockHeaders : Type 0 where
  pub start_block : HashOrNumber
  pub limit : ℕ
  pub skip : ℕ
  pub direction : HeadersDirection

pub data IncomingEthRequest : Type 0 where
  get_block_headers : GetBlockHeaders → IncomingEthRequest
  get_block_bodies : List ℕ → IncomingEthRequest
  get_node_data other : IncomingEthRequest

unfoldable pub requested_heights : HeadersDirection → ℕ → ℕ → List ℕ
unfolding count_down
requested_heights rising start limit = range start (add_u64 start limit)
requested_heights falling start limit =
    reversed_range (sub_u64 (add_u64 start 1) limit) (add_u64 start 1)

-- What goes back: an answer, nothing for other requests, and an error that drops the request.
pub data Response (a : Alloy) : Type 0 where
  headers : List (HlHeader a) → Response a
  bodies : List (HlBlockBody a) → Response a
  failed unanswered : Response a

-- A new block as it is announced: `NewBlock` with its total difficulty, and the hash.
pub record NewBlockMessage (a : Alloy) : Type 0 where
  pub block : HlBlock a
  pub td : ℕ
  pub hash : ℕ

unfoldable pub convert_blocks : {a : Alloy} → ℕ → List (BlockAndReceipts a) → M (List (HlBlock a))
convert_blocks chain_id [] = pure []
convert_blocks chain_id (b ∷ bs) = do
  block ← to_reth_block b chain_id
  blocks ← convert_blocks chain_id bs
  pure (block ∷ blocks)

abbrev pub headers_of : {a : Alloy} → List (HlBlock a) → List (HlHeader a)
headers_of [] = []
headers_of (b ∷ bs) = b.header ∷ headers_of bs

abbrev pub bodies_of : {a : Alloy} → List (HlBlock a) → List (HlBlockBody a)
bodies_of [] = []
bodies_of (b ∷ bs) = b.body ∷ bodies_of bs

abbrev pub answer_headers : {a : Alloy} → ℕ → Option (List (BlockAndReceipts a)) → M (Response a)
answer_headers chain_id none = pure failed
answer_headers chain_id (some blocks) = do
  converted ← convert_blocks chain_id blocks
  pure (headers (headers_of converted))

abbrev pub answer_bodies : {a : Alloy} → ℕ → Option (List (BlockAndReceipts a)) → M (Response a)
answer_bodies chain_id none = pure failed
answer_bodies chain_id (some blocks) = do
  converted ← convert_blocks chain_id blocks
  pure (bodies (bodies_of converted))

-- The loop of `start_pseudo_peer` over network events: each tells whether it is an active session.
-- The answer is how often the start signal is sent.
unfoldable pub start_signals : Bool → List Bool → ℕ
start_signals first [] = 0
start_signals first (active ∷ events) =
    let sent = start_signals false events in
    let idle = start_signals first events in
    if active then (if first then sent + 1 else idle) else idle

module _ (keys : LruCache) (a : Alloy) (lru : LruMap (BlockAndReceipts a))
    (gap_blocks : ℕ → Option (BlockAndReceipts a)) (source : ℕ → Option (BlockAndReceipts a))
    (db_block_number : Option (ℕ → Option ℕ)) where
  abbrev pub Store : Type 0
  Store = BlockStore keys a lru

  module _ (collect_blocks : List ℕ → Option (List (BlockAndReceipts a))) (chain_id : ℕ) where
    abbrev pub find_number : Store → ℕ → Option ℕ
    find_number s h = hash_to_number keys a lru gap_blocks source db_block_number h s

    abbrev pub resolve : Store → HashOrNumber → Option ℕ
    resolve s (hash h) = find_number s h
    resolve s (number n) = some n

    -- A hash that is not known gets an empty answer.
    abbrev pub serve_headers : HeadersDirection → ℕ → Store → Option ℕ → M (Response a) × Store
    serve_headers direction limit s none = (pure (headers []), s)
    serve_headers direction limit s (some n) =
        let (blocks, s') =
          get_by_numbers keys a lru gap_blocks source db_block_number collect_blocks
            (requested_heights direction n limit) s in
        (answer_headers chain_id blocks, s')

    -- A hash that is not known is passed over.
    unfoldable pub known_numbers : Store → List ℕ → List ℕ
    known_numbers s [] = []
    known_numbers s (h ∷ hs) = elim (find_number s h) [
      | none ↦ known_numbers s hs
      | some n ↦ n ∷ known_numbers s hs
    ]

    unfoldable pub process_eth_request : IncomingEthRequest → Store → M (Response a) × Store
    unfolding requested_heights convert_blocks known_numbers
    process_eth_request (get_block_headers r) s =
        serve_headers r.direction r.limit s (resolve s r.start_block)
    process_eth_request (get_block_bodies hashes) s =
        let (blocks, s') =
          get_by_numbers keys a lru gap_blocks source db_block_number collect_blocks
            (known_numbers s hashes) s in
        (answer_bodies chain_id blocks, s')
    process_eth_request get_node_data s = (pure unanswered, s)
    process_eth_request other s = (pure unanswered, s)

  -- `BlockPoller::poll` of a received block.
  unfoldable pub poll_received :
      (difficulty : a.Header → ℕ)
      → ℕ
      → ℕ × BlockAndReceipts a
      → Store
      → M (NewBlockMessage a) × Store
  poll_received difficulty chain_id (height, block) s = (
    (do
      reth_block ← to_reth_block block chain_id
      pure (record {
        block = reth_block;
        td = difficulty reth_block.header.inner;
        hash = a.hash_slow reth_block.header.inner;
      })),
    record s { hash_index = index_block_inner keys a lru block s.hash_index },
  )

abbrev pub clamp : Option ℕ → ℕ → ℕ
clamp none next = next
clamp (some cutoff) next = if ltb cutoff next then cutoff else next

-- The loop of `BlockPoller::task`. The source answers differently as time goes by: there is one
-- source for each turn of the loop.
module _ (keys : LruCache) (a : Alloy) (lru : LruMap (BlockAndReceipts a))
    (gap_blocks : ℕ → Option (BlockAndReceipts a)) (debug_cutoff_height : Option ℕ) where
  -- The heights and blocks sent in a turn, and the next height.
  abbrev pub send_found : ℕ → Option (BlockAndReceipts a) → List (ℕ × BlockAndReceipts a) × ℕ
  send_found next none = ([], next)
  send_found next (some block) = ((next, block) ∷ [], add_u64 next 1)

  unfoldable pub task_loop :
      List (ℕ → Option (BlockAndReceipts a))
      → ℕ
      → BlockStore keys a lru
      → List (ℕ × BlockAndReceipts a) × ℕ
  task_loop [] next s = ([], next)
  task_loop (source ∷ sources) next s =
      let height = clamp debug_cutoff_height next in
      let (found, s') = get_by_number keys a lru gap_blocks source none height s in
      let (sent, next') = send_found height found in
      let (later, last) = task_loop sources next' s' in (sent ++ later, last)

  -- The task from its start signal on; it ends at once when no latest block is found.
  unfoldable pub task :
      Option ℕ
      → List (ℕ → Option (BlockAndReceipts a))
      → BlockStore keys a lru
      → Option (List (ℕ × BlockAndReceipts a) × ℕ)
  unfolding task_loop
  task none sources s = none
  task (some latest) sources s = some (task_loop sources latest s)
