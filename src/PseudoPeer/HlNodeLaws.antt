-- ===== src/PseudoPeer/HlNodeLaws.antt =====
-- What a request to the hl-node source guarantees.
use nanoreth.Prelude.{
  ℕ, ◌+◌, ◌<◌, ◌≡◌, refl, ◌∙◌, inl, inr, true, List, Option, none, some, arith, Option-cases,
  Bool-cases,
}
use nanoreth.Primitives.{Alloy}
use nanoreth.Types.Compat.{BlockAndReceipts, number}
use nanoreth.PseudoPeer.Caches.{LruMap, RangeInclusiveMap}
use nanoreth.PseudoPeer.Scan.{scan_hour_file}
use nanoreth.PseudoPeer.LocalCache.{
  IsSound, LocalBlocksCache, get_block, get_block-IsSound, get_block-number, get_path_for_height,
  load_scan_result, load_scan_result-IsSound,
}
use nanoreth.PseudoPeer.HlNode.{
  HlNodeBlockSource, collect_block, load_file, load_path, local, must_wait, read_all, too_soon,
  try_collect_local_block,
}

module _ (a : Alloy) (lru : LruMap (BlockAndReceipts a)) (rm : RangeInclusiveMap ℕ) where
  -- What is found has the height that was asked for, and the cache stays sound.
  abbrev Finds : ℕ → Option (BlockAndReceipts a) × LocalBlocksCache a lru rm → Type 0
  Finds height r =
      ((b : BlockAndReceipts a) → r.0 ≡ some b → number b ≡ height) × IsSound a lru rm r.1

  module _ (files : ℕ → Option (List (Option (BlockAndReceipts a)))) (height : ℕ) where
    load_file-Finds :
        (lines : Option (List (Option (BlockAndReceipts a)))) (path : ℕ)
        (c : LocalBlocksCache a lru rm)
        → IsSound a lru rm c
        → Finds height (load_file a lru rm lines path height c)
    unfolding load_file
    load_file-Finds none path c sound = (λ b e. cc, sound)
    load_file-Finds (some lines) path c sound =
        let loaded = load_scan_result a lru rm (scan_hour_file path read_all lines) c in
        let sound' =
          load_scan_result-IsSound a lru rm (scan_hour_file path read_all lines) c sound in
        (
          λ b e. get_block-number a lru rm height loaded b sound' e,
          get_block-IsSound a lru rm height loaded sound',
        )

    load_path-Finds :
        (path : Option ℕ) (c : LocalBlocksCache a lru rm)
        → IsSound a lru rm c
        → Finds height (load_path a lru rm files path height c)
    unfolding load_path
    load_path-Finds none c sound = (λ b e. cc, sound)
    load_path-Finds (some path) c sound = load_file-Finds (files path) path c sound

    pub try_collect-Finds :
        (c : LocalBlocksCache a lru rm)
        → IsSound a lru rm c
        → Finds height (try_collect_local_block a lru rm files height c)
    unfolding try_collect_local_block
    try_collect-Finds c sound = elim (Option-cases (get_block a lru rm height c).0) [
      | inl miss ↦
          rw (miss, try_collect_local_block)
            (load_path-Finds (get_path_for_height a lru rm height (get_block a lru rm height c).1)
              (get_block a lru rm height c).1 (get_block-IsSound a lru rm height c sound))
      | inr (b, hit) ↦
          rw (hit, try_collect_local_block)
            (
              λ x e. get_block-number a lru rm height c x sound (hit ∙ e),
              get_block-IsSound a lru rm height c sound,
            )
    ]

    -- A block that is served from the files has the height that was asked for, and the cache stays
    -- sound whatever the outcome. The cache is sound before.
    pub collect_block-local :
        (source : ℕ → Option (BlockAndReceipts a)) (threshold now : ℕ)
        (st : HlNodeBlockSource a lru rm)
        → IsSound a lru rm st.local_blocks_cache
        → ((b : BlockAndReceipts a)
            → (collect_block a lru rm files source threshold now height st).0 ≡ local b
            → number b ≡ height)
          × IsSound a lru rm
              (collect_block a lru rm files source threshold now height st).1.local_blocks_cache
    unfolding collect_block
    collect_block-local source threshold now st sound =
        let (right, sound') = try_collect-Finds st.local_blocks_cache sound in
        elim (Option-cases
          (try_collect_local_block a lru rm files height st.local_blocks_cache).0) [
            | inr (x, hit) ↦ rw (hit, collect_block) (λ b e. right b (hit ∙ ground arith), sound')
            | inl miss ↦ elim (Bool-cases (must_wait threshold height now st.last_local_fetch)) [
              | inl wait ↦ rw (miss, collect_block, wait) (λ b e. cc, sound')
              | inr go ↦ elim (Option-cases (source height)) [
                | inl failed ↦ rw (miss, collect_block, go, failed) (λ b e. cc, sound')
                | inr (x, got) ↦ rw (miss, collect_block, go, got) (λ b e. cc, sound')
              ]
            ]
          ]

    -- After a fetch at a new height, a request for a higher one that the files do not answer is
    -- refused until the threshold has passed since that fetch, without a call of the fallback: the
    -- outcome is the same for every fallback source.
    pub collect_block-waits :
        (source : ℕ → Option (BlockAndReceipts a)) (threshold now last t : ℕ)
        (st : HlNodeBlockSource a lru rm)
        → st.last_local_fetch ≡ some (last, t)
        → last < height
        → now < t + threshold
        → (try_collect_local_block a lru rm files height st.local_blocks_cache).0 ≡ none
        → ((collect_block a lru rm files source threshold now height st).0 ≡ too_soon)
          × ((collect_block a lru rm files source threshold now height st).1.last_local_fetch
              ≡ some (last, t))
    unfolding collect_block
    collect_block-waits source threshold now last t st e newer soon miss =
        let wait : must_wait threshold height now st.last_local_fetch ≡ true =
          unfold must_wait in rw e (ground arith) in
        rw (miss, collect_block, wait) (refl, e)
