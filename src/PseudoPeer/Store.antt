-- ===== src/PseudoPeer/Store.antt =====
-- src/pseudo_peer/block_store.rs and utils.rs: the store in front of a block source, with its cache
-- of blocks, its index of hashes, and the database behind that. `None` in an answer is an error.
use nanoreth.Prelude.{
  ℕ, ◌-◌, ◌≡◌, ◌≢◌, Bool, true, List, [], ◌∷◌, Option, none, some, ltb, ◌==◌, if◌then◌else◌, insert,
  lookup, or_else,
}
use nanoreth.Primitives.{Alloy}
use nanoreth.Types.Compat.{BlockAndReceipts, hash, number, parent_hash}
use nanoreth.PseudoPeer.Caches.{LruMap}

-- reth's `LruCache`: the keys in use; a new key may push an older one out, of those that were not
-- used for the longest time.
pub record LruCache : Type 1 where
  pub Keys : Type 0
  pub empty : Keys
  pub insert_and_get_evicted : ℕ → Keys → (Bool × Option ℕ) × Keys
  pub evicted-ne :
      (k e : ℕ) (m : Keys) (new : Bool) → (insert_and_get_evicted k m).0 ≡ (new, some e) → k ≢ e
  pub evicted-ne_last :
      (j k e : ℕ) (m : Keys) (new : Bool)
      → (insert_and_get_evicted k (insert_and_get_evicted j m).1).0 ≡ (new, some e)
      → j ≢ e

unfoldable pub remove_entry {ℓ} : {V : Type ℓ} → ℕ → List (ℕ × V) → List (ℕ × V)
remove_entry key [] = []
remove_entry key ((other, value) ∷ entries) =
    let rest = remove_entry key entries in if other == key then rest else (other, value) ∷ rest

abbrev pub cons_found {ℓ} : {V : Type ℓ} → Option V → Option (List V) → Option (List V)
cons_found none bs = none
cons_found (some b) none = none
cons_found (some b) (some bs) = some (b ∷ bs)

-- The end of `get_by_numbers`: each height takes its block out of the local map.
unfoldable pub take_heights {ℓ} : {V : Type ℓ} → List ℕ → List (ℕ × V) → Option (List V)
take_heights [] cached = some []
take_heights (h ∷ hs) cached =
    cons_found (lookup h cached) (take_heights hs (remove_entry h cached))

abbrev pub at_hand {ℓ κ} : {A : Type ℓ} {R : Type κ} → Option A → (A → R) → R → R
at_hand none f rest = rest
at_hand (some b) f rest = f b

module _ (keys : LruCache) where
  pub record LruBiMap : Type 0 where
    pub left_to_right : List (ℕ × ℕ)
    pub right_to_left : List (ℕ × ℕ)
    pub lru_keys : keys.Keys

  abbrev evict_found : ℕ → LruBiMap → Option ℕ → LruBiMap
  evict_found key m none = m
  evict_found key m (some value) = record m {
    left_to_right = remove_entry key m.left_to_right;
    right_to_left = remove_entry value m.right_to_left;
  }

  unfoldable pub evict_key : ℕ → LruBiMap → LruBiMap
  evict_key key m = evict_found key m (lookup key m.left_to_right)

  abbrev pub evict_pushed : Bool × Option ℕ → LruBiMap → LruBiMap
  evict_pushed (true, some evicted) m = evict_key evicted m
  evict_pushed _ m = m

  unfoldable pub insert_pair : ℕ → ℕ → LruBiMap → LruBiMap
  unfolding evict_key
  insert_pair key value m =
      let (pushed, lru) = keys.insert_and_get_evicted key m.lru_keys in
      let m' = evict_pushed pushed (record m { lru_keys = lru }) in
      record m' {
        left_to_right = insert key value m'.left_to_right;
        right_to_left = insert value key m'.right_to_left;
      }

  unfoldable pub get_by_left : ℕ → LruBiMap → Option ℕ
  get_by_left key m = lookup key m.left_to_right

  module _ (a : Alloy) (lru : LruMap (BlockAndReceipts a)) where
    pub record BlockStore : Type 0 where
      pub blocks : lru.Map
      pub hash_index : LruBiMap

    unfoldable pub index_block_inner : BlockAndReceipts a → LruBiMap → LruBiMap
    index_block_inner b m =
        let own = insert_pair (hash b) (number b) m in
        if ltb 0 (number b) then insert_pair (parent_hash b) (number b - 1) own else own

    module _ (gap_blocks : ℕ → Option (BlockAndReceipts a))
        (source : ℕ → Option (BlockAndReceipts a)) (db_block_number : Option (ℕ → Option ℕ)) where
      -- A block that was not cached is cached and indexed.
      abbrev admit :
          ℕ → Option (BlockAndReceipts a) → BlockStore → Option (BlockAndReceipts a) × BlockStore
      admit n none s = (none, s)
      admit n (some b) s = (
        some b,
        record { blocks = lru.insert n b s.blocks; hash_index = index_block_inner b s.hash_index },
      )

      abbrev or_admit :
          ℕ → Option (BlockAndReceipts a) → BlockStore → Option (BlockAndReceipts a) × BlockStore
      or_admit n (some b) s = (some b, s)
      or_admit n none s = admit n (or_else (gap_blocks n) (source n)) s

      -- The gap blocks come before the source.
      unfoldable pub get_by_number : ℕ → BlockStore → Option (BlockAndReceipts a) × BlockStore
      get_by_number n s =
          let (found, blocks) = lru.get n s.blocks in
          or_admit n found (record s { blocks = blocks })

      abbrev ask_db : Option (ℕ → Option ℕ) → ℕ → Option ℕ
      ask_db none h = none
      ask_db (some db) h = db h

      unfoldable pub hash_to_number : ℕ → BlockStore → Option ℕ
      hash_to_number h s = or_else (get_by_left h s.hash_index) (ask_db db_block_number h)

      -- The first loop of `get_by_numbers`: the blocks at hand, and the heights to fetch.
      unfoldable pub gather :
          List ℕ
          → List (ℕ × BlockAndReceipts a)
          → lru.Map
          → (List (ℕ × BlockAndReceipts a) × List ℕ) × lru.Map
      gather [] cached blocks = ((cached, []), blocks)
      gather (h ∷ hs) cached blocks =
          let (found, blocks') = lru.get h blocks in
          at_hand found (λ b. gather hs (insert h b cached) blocks')
            (at_hand (gap_blocks h) (λ b. gather hs (insert h b cached) (lru.insert h b blocks'))
              (let ((cached', uncached), blocks'') = gather hs cached blocks' in
                ((cached', h ∷ uncached), blocks'')))

      unfoldable pub add_fetched :
          List (BlockAndReceipts a)
          → List (ℕ × BlockAndReceipts a)
          → lru.Map
          → List (ℕ × BlockAndReceipts a) × lru.Map
      add_fetched [] cached blocks = (cached, blocks)
      add_fetched (b ∷ bs) cached blocks =
          add_fetched bs (insert (number b) b cached) (lru.insert (number b) b blocks)

      unfoldable pub index_all : List (ℕ × BlockAndReceipts a) → LruBiMap → LruBiMap
      index_all [] m = m
      index_all ((_, b) ∷ cached) m = index_all cached (index_block_inner b m)

      abbrev collect_missing :
          (List ℕ → Option (List (BlockAndReceipts a)))
          → List ℕ
          → Option (List (BlockAndReceipts a))
      collect_missing collect_blocks [] = some []
      collect_missing collect_blocks (h ∷ hs) = collect_blocks (h ∷ hs)

      -- `get_by_numbers` after the fetch: the fetched blocks join those at hand, all are indexed.
      abbrev pub answer_heights :
          List ℕ
          → List (ℕ × BlockAndReceipts a)
          → BlockStore
          → Option (List (BlockAndReceipts a))
          → Option (List (BlockAndReceipts a)) × BlockStore
      answer_heights heights cached s none = (none, s)
      answer_heights heights cached s (some fetched) =
          let (cached', blocks) = add_fetched fetched cached s.blocks in
          (
            take_heights heights cached',
            record { blocks = blocks; hash_index = index_all cached' s.hash_index },
          )

      unfoldable pub get_by_numbers :
          (List ℕ → Option (List (BlockAndReceipts a)))
          → List ℕ
          → BlockStore
          → Option (List (BlockAndReceipts a)) × BlockStore
      get_by_numbers collect_blocks heights s =
          let ((cached, uncached), blocks) = gather heights [] s.blocks in
          answer_heights heights cached (record s { blocks = blocks })
            (collect_missing collect_blocks uncached)
