-- ===== src/PseudoPeer/BackfillLaws.antt =====
-- What the backfill of hl-node's files finds.
use nanoreth.Prelude.{
  ℕ, ◌≤◌, ◌≡◌, refl, ap, ◌∙◌, true, List, [], ◌∷◌, Option, some, arith, if◌then◌else◌, All,
  Bool-cases, Option-cases, inl, inr,
}
use nanoreth.Primitives.{Alloy}
use nanoreth.Types.Compat.{BlockAndReceipts}
use nanoreth.PseudoPeer.Caches.{LruMap, RangeInclusiveMap}
use nanoreth.PseudoPeer.ScanLaws.{Fits, parsed}
use nanoreth.PseudoPeer.LocalCache.{
  LocalBlocksCache, get_path-load_scan, get_path_for_height, load_scan_result,
}
use nanoreth.PseudoPeer.HlNode.{HourlyFile, backfill_file, skips, try_backfill_local_blocks}

module _ (a : Alloy) (lru : LruMap (BlockAndReceipts a)) (rm : RangeInclusiveMap ℕ) where
  -- The reference without the short cut: each file is looked into, the last one that has the height
  -- counts.
  abbrev pub last_with : ℕ → List (HourlyFile a lru rm) → Option ℕ → Option ℕ
  last_with h [] before = before
  last_with h (f ∷ fs) before = last_with h fs (if parsed h f.lines then some f.path else before)

  -- No block of the file is above its last one.
  abbrev pub EndsHighest : ℕ → HourlyFile a lru rm → Type 0
  EndsHighest h f = (last : ℕ) → f.last_block ≡ some last → parsed h f.lines ≡ true → h ≤ last

  backfill_file-path :
      (cutoff h : ℕ) (f : HourlyFile a lru rm) (c : LocalBlocksCache a lru rm)
      → cutoff ≤ h
      → EndsHighest h f
      → Fits f.lines
      → get_path_for_height a lru rm h (backfill_file a lru rm cutoff f c)
        ≡ (if parsed h f.lines then some f.path else get_path_for_height a lru rm h c)
  unfolding backfill_file get_path_for_height load_scan_result
  backfill_file-path cutoff h f c le ends fits =
      elim (Bool-cases (skips a lru rm cutoff f.last_block)) [
        | inr read ↦ rw read (
            get_path-load_scan a lru rm f.path
              (record { start_height = cutoff; only_load_ranges = true }) f.lines c h fits)
        | inl skipped ↦ elim (Bool-cases (parsed h f.lines)) [
          | inr out ↦ rw (skipped, out) refl
          | inl has ↦ elim (Option-cases f.last_block) [
            | inl unknown ↦ absurd (ground (arith, skipped, unknown))
            | inr (last, known) ↦
                let bound : h ≤ last = ends last known has in
                absurd (ground (arith, skipped, known, bound, le))
          ]
        ]
      ]

  -- After the backfill every height from the cutoff on leads to the last file, in the order of the
  -- files, that has a block of it, and where it led before if no file has one: skipping the files
  -- that end below the cutoff loses nothing. The last block of each file is the highest in it, and
  -- the heights, and the ones after them, fit 64 bits.
  pub try_backfill_local_blocks-path :
      (cutoff h : ℕ) (fs : List (HourlyFile a lru rm)) (c : LocalBlocksCache a lru rm)
      → cutoff ≤ h
      → All (EndsHighest h) fs
      → All (λ f. Fits f.lines) fs
      → get_path_for_height a lru rm h (try_backfill_local_blocks a lru rm cutoff fs c)
        ≡ last_with h fs (get_path_for_height a lru rm h c)
  unfolding try_backfill_local_blocks
  try_backfill_local_blocks-path cutoff h [] c le ends fits = refl
  try_backfill_local_blocks-path cutoff h (f ∷ fs) c le ends fits =
      try_backfill_local_blocks-path cutoff h fs (backfill_file a lru rm cutoff f c) le ends.1
        fits.1
      ∙ ap (last_with h fs) (backfill_file-path cutoff h f c le ends.0 fits.0)
