-- ===== src/PseudoPeer/LocalCache.antt =====
-- src/pseudo_peer/sources/hl_node/cache.rs: `LocalBlocksCache`.
use native.Mathlib.Decide.{ℕ_discrete}
use nanoreth.Prelude.{
  sym, ap, subst, ℕ, ◌≡◌, refl, ◌∙◌, inl, inr, List, [], ◌∷◌, Option, some, arith, if◌then◌else◌,
  All,
}
use nanoreth.Primitives.{Alloy}
use nanoreth.Types.Compat.{BlockAndReceipts, number}
use nanoreth.PseudoPeer.Caches.{LruMap, RangeInclusiveMap}
use nanoreth.PseudoPeer.Scan.{Range, ScanOptions, ScanResult, scan_hour_file}
use nanoreth.PseudoPeer.ScanLaws.{Fits, Proper, covers, parsed, scan_hour_file-ranges}

module _ (a : Alloy) (lru : LruMap (BlockAndReceipts a)) (rm : RangeInclusiveMap ℕ) where
  -- `LocalBlocksCache`: the blocks, and the path of the file for each range of heights.
  pub record LocalBlocksCache : Type 0 where
    pub cache : lru.Map
    pub ranges : rm.Map

  unfoldable pub new_cache : LocalBlocksCache
  new_cache = record { cache = lru.empty; ranges = rm.empty }

  unfoldable pub insert_blocks : List (BlockAndReceipts a) → lru.Map → lru.Map
  insert_blocks [] m = m
  insert_blocks (b ∷ bs) m = insert_blocks bs (lru.insert (number b) b m)

  unfoldable pub insert_ranges : ℕ → List Range → rm.Map → rm.Map
  insert_ranges path [] m = m
  insert_ranges path (r ∷ rs) m = insert_ranges path rs (rm.insert r path m)

  unfoldable pub load_scan_result : ScanResult a → LocalBlocksCache → LocalBlocksCache
  unfolding insert_blocks insert_ranges
  load_scan_result result c = record {
    cache = insert_blocks result.new_blocks c.cache;
    ranges = insert_ranges result.path result.new_block_ranges c.ranges;
  }

  unfoldable pub get_block : ℕ → LocalBlocksCache → Option (BlockAndReceipts a) × LocalBlocksCache
  get_block height c =
      let (found, cache) = lru.get height c.cache in (found, record c { cache = cache })

  unfoldable pub get_path_for_height : ℕ → LocalBlocksCache → Option ℕ
  get_path_for_height height c = rm.get height c.ranges

  insert_ranges-get :
      (path : ℕ) (rs : List Range) (m : rm.Map) (h : ℕ)
      → All Proper rs
      → rm.get h (insert_ranges path rs m) ≡ (if covers h rs then some path else rm.get h m)
  unfolding insert_ranges
  insert_ranges-get path [] m h p = refl
  insert_ranges-get path (r ∷ rs) m h p =
      ground
        (arith, insert_ranges-get path rs (rm.insert r path m) h p.1, rm.get-insert r path m h p.0)

  -- After a scan of a file is loaded, exactly the heights that the file has lead to it; all others
  -- lead where they led. The heights, and the ones after them, fit 64 bits.
  pub get_path-load_scan :
      (path : ℕ) (options : ScanOptions) (lines : List (Option (BlockAndReceipts a)))
      (c : LocalBlocksCache) (h : ℕ)
      → Fits lines
      → get_path_for_height h (load_scan_result (scan_hour_file path options lines) c)
        ≡ (if parsed h lines then some path else get_path_for_height h c)
  unfolding get_path_for_height load_scan_result
  get_path-load_scan path options lines c h f =
      let (cov, proper) = scan_hour_file-ranges path options lines h f in
      insert_ranges-get (scan_hour_file path options lines).path
        (scan_hour_file path options lines).new_block_ranges c.ranges h proper
      ∙ (unfold scan_hour_file in rw cov)

  -- Every block in the cache lies under its own height.
  abbrev pub IsSound : LocalBlocksCache → Type 0
  IsSound c = (h : ℕ) (b : BlockAndReceipts a) → (lru.get h c.cache).0 ≡ some b → number b ≡ h

  insert_sound :
      (b : BlockAndReceipts a) (m : lru.Map)
      → ((h : ℕ) (x : BlockAndReceipts a) → (lru.get h m).0 ≡ some x → number x ≡ h)
      → (h : ℕ) (x : BlockAndReceipts a) → (lru.get h (lru.insert (number b) b m)).0 ≡ some x
      → number x ≡ h
  insert_sound b m sound h x e = elim (ℕ_discrete (number b) h) [
    | yes same ↦
        let here : some b ≡ some x =
          sym (lru.get-insert_self (number b) b m)
          ∙ subst (λ k. (lru.get k (lru.insert (number b) b m)).0 ≡ some x) (sym same) e in
        let same_block : b ≡ x = ground arith in ap number (sym same_block) ∙ same
    | no other ↦ elim (lru.get-insert_ne (number b) h b m other) [
      | inl dropped ↦ absurd (ground arith)
      | inr kept ↦ sound h x (sym kept ∙ e)
    ]
  ]

  insert_blocks_sound :
      (bs : List (BlockAndReceipts a)) (m : lru.Map)
      → ((h : ℕ) (x : BlockAndReceipts a) → (lru.get h m).0 ≡ some x → number x ≡ h)
      → (h : ℕ) (x : BlockAndReceipts a) → (lru.get h (insert_blocks bs m)).0 ≡ some x
      → number x ≡ h
  unfolding insert_blocks
  insert_blocks_sound [] m sound = sound
  insert_blocks_sound (b ∷ bs) m sound =
      insert_blocks_sound bs (lru.insert (number b) b m) (insert_sound b m sound)

  pub new_cache-IsSound : IsSound new_cache
  unfolding new_cache
  new_cache-IsSound h b e = absurd (ground (arith, lru.get-empty h))

  pub load_scan_result-IsSound :
      (result : ScanResult a) (c : LocalBlocksCache)
      → IsSound c
      → IsSound (load_scan_result result c)
  unfolding load_scan_result
  load_scan_result-IsSound result c sound = insert_blocks_sound result.new_blocks c.cache sound

  pub get_block-IsSound :
      (height : ℕ) (c : LocalBlocksCache) → IsSound c → IsSound (get_block height c).1
  unfolding get_block
  get_block-IsSound height c sound h b e = sound h b (sym (lru.get-get height h c.cache) ∙ e)

  pub get_block-number :
      (height : ℕ) (c : LocalBlocksCache) (b : BlockAndReceipts a)
      → IsSound c
      → (get_block height c).0 ≡ some b
      → number b ≡ height
  unfolding get_block
  get_block-number height c b sound e = sound height b e
