-- ===== src/PseudoPeer/HlNode.antt =====
-- src/pseudo_peer/sources/hl_node/mod.rs: `HlNodeBlockSource`, the hourly files of hl-node with a
-- fallback source behind them. Times are milliseconds; the loop that
-- fills the cache is in `Ingest`.
use nanoreth.Prelude.{
  ℕ, ◌+◌, ◌&&◌, Bool, true, false, List, [], ◌∷◌, Option, none, some, ltb, if◌then◌else◌,
}
use nanoreth.Primitives.{Alloy}
use nanoreth.Types.Compat.{BlockAndReceipts}
use nanoreth.PseudoPeer.Caches.{LruMap, RangeInclusiveMap}
use nanoreth.PseudoPeer.Scan.{ScanOptions, ScanResult, scan_hour_file}
use nanoreth.PseudoPeer.LocalCache.{
  LocalBlocksCache, get_block, get_path_for_height, load_scan_result,
}

-- How a request for a block ends.
pub data Collected (a : Alloy) : Type 0 where
  local : BlockAndReceipts a → Collected a
  fallback : BlockAndReceipts a → Collected a
  too_soon fallback_failed : Collected a

abbrev pub LastFetch : Type 0
LastFetch = Option (ℕ × ℕ)

unfoldable pub update_last_fetch : ℕ → ℕ → LastFetch → LastFetch
update_last_fetch height now none = some (height, now)
update_last_fetch height now (some (h, t)) =
    if ltb h height then some (height, now) else some (h, t)

-- The wait before a height above the last one goes to the fallback.
unfoldable pub must_wait : ℕ → ℕ → ℕ → LastFetch → Bool
must_wait threshold height now none = false
must_wait threshold height now (some (last_height, last_poll_time)) =
    ltb last_height height && ltb now (last_poll_time + threshold)

abbrev pub read_all : ScanOptions
read_all = record { start_height = 0; only_load_ranges = false }

module _ (a : Alloy) (lru : LruMap (BlockAndReceipts a)) (rm : RangeInclusiveMap ℕ) where
  abbrev pub Cache : Type 0
  Cache = LocalBlocksCache a lru rm

  pub record HlNodeBlockSource : Type 0 where
    pub local_blocks_cache : LocalBlocksCache a lru rm
    pub last_local_fetch : LastFetch

  -- `files`: what the lines of a file parse to, if it can be opened.
  unfoldable pub load_file :
      Option (List (Option (BlockAndReceipts a)))
      → ℕ
      → ℕ
      → LocalBlocksCache a lru rm
      → Option (BlockAndReceipts a) × LocalBlocksCache a lru rm
  load_file none path height c = (none, c)
  load_file (some lines) path height c =
      get_block a lru rm height (load_scan_result a lru rm (scan_hour_file path read_all lines) c)

  unfoldable pub load_path :
      (ℕ → Option (List (Option (BlockAndReceipts a))))
      → Option ℕ
      → ℕ
      → LocalBlocksCache a lru rm
      → Option (BlockAndReceipts a) × LocalBlocksCache a lru rm
  unfolding load_file
  load_path files none height c = (none, c)
  load_path files (some path) height c = load_file (files path) path height c

  unfoldable pub try_collect_local_block :
      (ℕ → Option (List (Option (BlockAndReceipts a))))
      → ℕ
      → LocalBlocksCache a lru rm
      → Option (BlockAndReceipts a) × LocalBlocksCache a lru rm
  unfolding load_path
  try_collect_local_block files height c =
      let (found, c') = get_block a lru rm height c in
      elim found [
        | some block ↦ (some block, c')
        | none ↦ load_path files (get_path_for_height a lru rm height c') height c'
      ]

  -- `source` is what the fallback gives for a height; `none` is an error.
  unfoldable pub collect_block :
      (ℕ → Option (List (Option (BlockAndReceipts a))))
      → (ℕ → Option (BlockAndReceipts a))
      → ℕ
      → ℕ
      → ℕ
      → HlNodeBlockSource
      → Collected a × HlNodeBlockSource
  collect_block files source threshold now height st =
      let (found, c) = try_collect_local_block files height st.local_blocks_cache in
      let updated : HlNodeBlockSource = record {
        local_blocks_cache = c;
        last_local_fetch = update_last_fetch height now st.last_local_fetch;
      } in
      let kept : HlNodeBlockSource = record st { local_blocks_cache = c } in
      elim found [
        | some block ↦ (local block, updated)
        | none ↦
            if must_wait threshold height now st.last_local_fetch
            then (too_soon, kept)
            else elim (source height) [
              | some block ↦ (fallback block, updated)
              | none ↦ (fallback_failed, kept)
            ]
      ]

  -- `try_backfill_local_blocks`: each file with the height of its last block, if that parses.
  pub record HourlyFile : Type 0 where
    pub path : ℕ
    pub last_block : Option ℕ
    pub lines : List (Option (BlockAndReceipts a))

  abbrev pub skips : ℕ → Option ℕ → Bool
  skips cutoff none = false
  skips cutoff (some height) = ltb height cutoff

  -- `new_blocks.clear()`.
  abbrev pub ranges_only : ScanResult a → ScanResult a
  ranges_only r = record r { new_blocks = [] }

  unfoldable pub backfill_file :
      ℕ → HourlyFile → LocalBlocksCache a lru rm → LocalBlocksCache a lru rm
  backfill_file cutoff f c =
      if skips cutoff f.last_block
      then c
      else load_scan_result a lru rm
          (ranges_only (
            scan_hour_file f.path (record { start_height = cutoff; only_load_ranges = true })
              f.lines))
          c

  unfoldable pub try_backfill_local_blocks :
      ℕ → List HourlyFile → LocalBlocksCache a lru rm → LocalBlocksCache a lru rm
  unfolding backfill_file
  try_backfill_local_blocks cutoff [] c = c
  try_backfill_local_blocks cutoff (f ∷ fs) c =
      try_backfill_local_blocks cutoff fs (backfill_file cutoff f c)
