-- ===== src/Tests/PseudoPeer.antt =====
-- Runs of the block sources: a file of three lines, one of which is not complete.
use nanoreth.Prelude.{
  ◌≢◌, ℕ, ◌≡◌, ◌+◌, refl, Bool, true, false, List, [], ◌∷◌, Option, none, some, arith, All,
  if◌then◌else◌, ◌==◌,
}
use nanoreth.Types.Compat.{BlockAndReceipts, hash, number, parent_hash}
use nanoreth.PseudoPeer.Scan.{ScanOptions, scan_hour_file}
use nanoreth.PseudoPeer.ScanLaws.{
  Fits, Proper, any_parsed, covers, highest, parsed, scan_hour_file-next, scan_hour_file-ranges,
}
use nanoreth.PseudoPeer.LocalCache.{IsSound, LocalBlocksCache}
use nanoreth.PseudoPeer.HlNode.{HlNodeBlockSource, collect_block, local}
use nanoreth.PseudoPeer.HlNodeLaws.{collect_block-local}
use nanoreth.PseudoPeer.Store.{BlockStore, LruCache, get_by_number, get_by_numbers, hash_to_number}
use nanoreth.PseudoPeer.StoreLaws.{get_by_numbers-repeated, hash_to_number-get_by_number}
use nanoreth.Tests.Samples.{alloy, block_at, lru_of, ranges_of}

abbrev pub lines : List (Option (BlockAndReceipts alloy))
lines = some (block_at 5) ∷ none ∷ some (block_at 6) ∷ []

abbrev from_six : ScanOptions
from_six = record { start_height = 6; only_load_ranges = false }

lines-Fits : Fits lines
unfolding number
lines-Fits = (omega arith, (omega arith, tt))

scan_hour_file-ranges_example :
    (covers 6 (scan_hour_file 1 from_six lines).new_block_ranges ≡ parsed 6 lines)
    × All Proper (scan_hour_file 1 from_six lines).new_block_ranges
scan_hour_file-ranges_example = scan_hour_file-ranges 1 from_six lines 6 lines-Fits

scan_hour_file-next_example :
    (scan_hour_file 1 from_six lines).next_expected_height
    ≡ highest 6 lines + (if any_parsed lines then 1 else 0)
scan_hour_file-next_example = scan_hour_file-next 1 from_six lines (omega arith) lines-Fits

abbrev pub Cache : Type 0
Cache = LocalBlocksCache alloy (lru_of (BlockAndReceipts alloy)) (ranges_of ℕ)

abbrev pub empty_cache : Cache
empty_cache = record { cache = []; ranges = [] }

empty_cache-IsSound : IsSound alloy (lru_of (BlockAndReceipts alloy)) (ranges_of ℕ) empty_cache
empty_cache-IsSound h b e = absurd (ground (arith, e))

abbrev Source : Type 0
Source = HlNodeBlockSource alloy (lru_of (BlockAndReceipts alloy)) (ranges_of ℕ)

abbrev pub upstream : ℕ → Option (BlockAndReceipts alloy)
upstream n = some (block_at n)

-- Height 6 lies in the file 1.
abbrev indexed : Source
indexed = record {
  local_blocks_cache = record { cache = []; ranges = ((6, 6), 1) ∷ [] };
  last_local_fetch = none;
}

abbrev one_file : ℕ → Option (List (Option (BlockAndReceipts alloy)))
one_file path = if path == 1 then some lines else none

collect_block-local_example :
    ((b : BlockAndReceipts alloy)
      → (collect_block alloy
          (lru_of (BlockAndReceipts alloy))
          (ranges_of ℕ)
          one_file
          upstream
          10
          3
          6
          indexed).0
        ≡ local b
      → number b ≡ 6)
    × IsSound alloy
        (lru_of (BlockAndReceipts alloy))
        (ranges_of ℕ)
        (collect_block alloy
          (lru_of (BlockAndReceipts alloy))
          (ranges_of ℕ)
          one_file
          upstream
          10
          3
          6
          indexed).1.local_blocks_cache
collect_block-local_example =
    collect_block-local alloy (lru_of (BlockAndReceipts alloy)) (ranges_of ℕ) one_file 6 upstream 10
      3 indexed empty_cache-IsSound

pub never_evicted :
    (k e : ℕ) (new : Bool) → ◌≡◌ {A = Bool × Option ℕ} (true, none) (new, some e) → k ≢ e
never_evicted k e new q = absurd (ground (arith, q))

-- A cache of keys that never pushes one out.
abbrev pub keys : LruCache
keys = record {
  Keys = Unit {0};
  empty = tt;
  insert_and_get_evicted = λ k m. ((true, none), m);
  evicted-ne = λ k e m new q. never_evicted k e new q;
  evicted-ne_last = λ j k e m new q. never_evicted j e new q;
}

abbrev pub empty_store : BlockStore keys alloy (lru_of (BlockAndReceipts alloy))
empty_store = record {
  blocks = [];
  hash_index = record { left_to_right = []; right_to_left = []; lru_keys = tt };
}

abbrev pub no_gaps : ℕ → Option (BlockAndReceipts alloy)
no_gaps _ = none

fetched_once :
    (get_by_number keys alloy
      (lru_of (BlockAndReceipts alloy))
      no_gaps
      upstream
      none
      5
      empty_store).0
    ≡ some (block_at 5)
unfolding get_by_number
fetched_once = refl

other_parent : parent_hash (block_at 5) ≢ hash (block_at 5)
unfolding parent_hash hash
other_parent q = absurd (ground (arith, q))

hash_to_number-get_by_number_example :
    hash_to_number keys alloy
      (lru_of (BlockAndReceipts alloy))
      no_gaps
      upstream
      none
      (hash (block_at 5))
      (get_by_number keys alloy
        (lru_of (BlockAndReceipts alloy))
        no_gaps
        upstream
        none
        5
        empty_store).1
    ≡ some (number (block_at 5))
hash_to_number-get_by_number_example =
    hash_to_number-get_by_number keys alloy (lru_of (BlockAndReceipts alloy)) no_gaps upstream none
      5 empty_store (block_at 5) refl fetched_once other_parent

get_by_numbers-repeated_example :
    (get_by_numbers keys alloy
      (lru_of (BlockAndReceipts alloy))
      no_gaps
      upstream
      none
      (λ hs. some (block_at 5 ∷ []))
      (5 ∷ 5 ∷ [])
      empty_store).0
    ≡ none
get_by_numbers-repeated_example =
    get_by_numbers-repeated keys alloy (lru_of (BlockAndReceipts alloy)) no_gaps upstream none
      (λ hs. some (block_at 5 ∷ [])) 5 [] [] [] empty_store
