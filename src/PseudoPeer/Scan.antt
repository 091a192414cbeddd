-- ===== src/PseudoPeer/Scan.antt =====
-- src/pseudo_peer/sources/hl_node/scan.rs: `Scanner::scan_hour_file`.
use nanoreth.Prelude.{
  ℕ, Bool, List, [], ◌∷◌, ◌++◌, Option, none, some, ◌==◌, leb, if◌then◌else◌, max, add_u64,
}
use nanoreth.Primitives.{Alloy}
use nanoreth.Types.Compat.{BlockAndReceipts, number}

pub record ScanOptions : Type 0 where
  pub start_height : ℕ
  pub only_load_ranges : Bool

abbrev pub Range : Type 0
Range = ℕ × ℕ

pub record ScanResult (a : Alloy) : Type 0 where
  pub path : ℕ
  pub next_expected_height : ℕ
  pub new_blocks : List (BlockAndReceipts a)
  pub new_block_ranges : List Range

-- The variables of the loop.
pub record ScanState (a : Alloy) : Type 0 where
  pub new_blocks : List (BlockAndReceipts a)
  pub last_height : ℕ
  pub block_ranges : List Range
  pub current_range : Option Range

abbrev pub close_range : Option Range → List Range → List Range
close_range none ranges = ranges
close_range (some range) ranges = ranges ++ range ∷ []

-- The new current range, and the finished ones.
unfoldable pub extend_range : ℕ → Option Range → List Range → Option Range × List Range
extend_range height none ranges = (some (height, height), ranges)
extend_range height (some (start, last)) ranges =
    if add_u64 last 1 == height
    then (some (start, height), ranges)
    else (some (height, height), close_range (some (start, last)) ranges)

-- `is_some() as u64`.
abbrev pub one_if : Option Range → ℕ
one_if none = 0
one_if (some range) = 1

module _ {a : Alloy} where
  unfoldable pub accept_block : ScanOptions → BlockAndReceipts a → ℕ → ScanState a → ScanState a
  accept_block options block height st =
      if leb options.start_height height
      then record st {
        last_height = max st.last_height height;
        new_blocks =
            if options.only_load_ranges then st.new_blocks else st.new_blocks ++ block ∷ [];
      }
      else st

  -- One turn of the loop, at a line that parses.
  unfoldable pub scan_block : ScanOptions → BlockAndReceipts a → ScanState a → ScanState a
  unfolding accept_block extend_range
  scan_block options block st =
      let st' = accept_block options block (number block) st in
      let (current, ranges) = extend_range (number block) st'.current_range st'.block_ranges in
      record st' { current_range = current; block_ranges = ranges }

  -- The loop, over what the lines parse to.
  unfoldable pub scan_lines :
      ScanOptions → List (Option (BlockAndReceipts a)) → ScanState a → ScanState a
  scan_lines options [] st = st
  scan_lines options (none ∷ lines) st = scan_lines options lines st
  scan_lines options (some block ∷ lines) st =
      scan_lines options lines (scan_block options block st)

  abbrev pub start_scan : ScanOptions → ScanState a
  start_scan options = record {
    new_blocks = [];
    last_height = options.start_height;
    block_ranges = [];
    current_range = none;
  }

  unfoldable pub finish_scan : ℕ → ScanState a → ScanResult a
  finish_scan path st = record {
    path = path;
    next_expected_height = add_u64 st.last_height (one_if st.current_range);
    new_blocks = st.new_blocks;
    new_block_ranges = close_range st.current_range st.block_ranges;
  }

  unfoldable pub scan_hour_file :
      ℕ → ScanOptions → List (Option (BlockAndReceipts a)) → ScanResult a
  unfolding scan_block scan_lines finish_scan
  scan_hour_file path options lines =
      finish_scan path (scan_lines options lines (start_scan options))
