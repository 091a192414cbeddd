-- ===== src/PseudoPeer/Ingest.antt =====
-- `start_local_ingest_loop`, `find_latest_block_number` and `file_has_blocks` of
-- src/pseudo_peer/sources/hl_node/mod.rs. A file at a moment is the list of its bytes, a stream the
-- number of bytes in front of its cursor, an hour the seconds of its start. Whether bytes are UTF-8
-- and what a line parses to are arguments.
use nanoreth.Prelude.{
  map, suc, ℕ, ◌+◌, ◌-◌, Bool, true, false, not, ◌&&◌, List, [], ◌∷◌, Option, none, some, ltb,
  length, drop,
}
use nanoreth.Primitives.{Alloy}
use nanoreth.Types.Compat.{BlockAndReceipts}
use nanoreth.PseudoPeer.Caches.{LruMap, RangeInclusiveMap}
use nanoreth.PseudoPeer.Scan.{Range, ScanOptions, ScanResult, scan_hour_file}
use nanoreth.PseudoPeer.Lines.{take_lines}
use nanoreth.PseudoPeer.LocalCache.{LocalBlocksCache, load_scan_result}

abbrev pub one_hour : ℕ
one_hour = 3600

abbrev pub no_ranges : List Range → Bool
no_ranges [] = true
no_ranges (r ∷ rs) = false

abbrev pub or_fallback : Option ℕ → Option ℕ → Option ℕ
or_fallback none fallback = fallback
or_fallback (some height) fallback = some height

module _ (a : Alloy) (utf8 : List ℕ → Bool)
    (line_to_evm_block : List ℕ → Option (BlockAndReceipts a)) where
  -- A scan of what is behind the cursor of a stream, and what it leaves there.
  unfoldable pub scan_bytes : ℕ → ScanOptions → List ℕ → ScanResult a × List ℕ
  unfolding scan_hour_file take_lines
  scan_bytes path options bytes =
      let (lines, rest) = take_lines utf8 (suc (length bytes)) bytes in
      (scan_hour_file path options (map line_to_evm_block lines), rest)

  unfoldable pub file_has_blocks : ℕ → Option (List ℕ) → Bool
  unfolding scan_bytes
  file_has_blocks path none = false
  file_has_blocks path (some bytes) = not (
      no_ranges
        (scan_bytes path (record { start_height = 0; only_load_ranges = true })
          bytes).0.new_block_ranges)

  -- The last block of the latest file; without a file or a block, the fallback's answer.
  unfoldable pub find_latest_block_number : (ℕ → Option ℕ) → Option ℕ → Option ℕ → Option ℕ
  find_latest_block_number read_last_block none fallback = fallback
  find_latest_block_number read_last_block (some file) fallback =
      or_fallback (read_last_block file) fallback

  module _ (lru : LruMap (BlockAndReceipts a)) (rm : RangeInclusiveMap ℕ) where
    -- The variables of the loop, with the cache that it fills.
    pub record Ingest : Type 0 where
      pub next_height : ℕ
      pub dt : ℕ
      pub line_stream : Option ℕ
      pub cache : LocalBlocksCache a lru rm

    abbrev pub opened : Option (List ℕ) → Option ℕ → Option ℕ
    opened file (some read) = some read
    opened none none = none
    opened (some bytes) none = some 0

    -- `CurrentFile::open`.
    unfoldable pub open_file : Option (List ℕ) → Ingest → Ingest
    open_file file st = record st { line_stream = opened file st.line_stream }

    abbrev pub contents : Option (List ℕ) → List ℕ
    contents none = []
    contents (some bytes) = bytes

    module _ (path_of : ℕ → ℕ) where
      -- The result is loaded, and the cursor stands where the stream left it.
      abbrev pub load_scan : ℕ → List ℕ → ScanResult a × List ℕ → Ingest → Ingest
      load_scan read behind (result, rest) st = record st {
        next_height = result.next_expected_height;
        line_stream = some (read + (length behind - length rest));
        cache = load_scan_result a lru rm result st.cache;
      }

      unfoldable pub scan_stream : List ℕ → Option ℕ → Ingest → Ingest
      unfolding scan_bytes
      scan_stream bytes none st = st
      scan_stream bytes (some read) st =
          load_scan read (drop read bytes)
            (scan_bytes (path_of st.dt)
              (record { start_height = st.next_height; only_load_ranges = false })
              (drop read bytes))
            st

      -- A scan of what was written to the current file since the last one.
      unfoldable pub scan_current : Option (List ℕ) → Ingest → Ingest
      unfolding scan_stream
      scan_current file st = scan_stream (contents file) st.line_stream st

      unfoldable pub move_on : Bool → (ℕ → Option (List ℕ)) → Ingest → Ingest
      unfolding scan_current
      move_on false later st = st
      move_on true later st = record (scan_current (later (path_of st.dt)) st) {
        dt = st.dt + one_hour;
        line_stream = none;
      }

      unfoldable pub next_ready : (ℕ → Option (List ℕ)) → ℕ → Ingest → Bool
      unfolding file_has_blocks
      next_ready later now st =
          ltb (st.dt + one_hour) now
          && file_has_blocks (path_of (st.dt + one_hour)) (later (path_of (st.dt + one_hour)))

      -- One turn of the loop: `files` as it reads first, `later` as it looks for the next file.
      unfoldable pub ingest_turn :
          (ℕ → Option (List ℕ)) → (ℕ → Option (List ℕ)) → ℕ → Ingest → Ingest
      unfolding move_on open_file next_ready
      ingest_turn files later now st =
          let scanned =
            scan_current (files (path_of st.dt)) (open_file (files (path_of st.dt)) st) in
          move_on (next_ready later now scanned) later scanned
