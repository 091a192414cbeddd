-- ===== src/PseudoPeer/ScanLaws.antt =====
-- What a scan finds: ranges that hold exactly the heights of the file, the blocks from the wanted
-- height on, and the height to expect next.
use nanoreth.Prelude.{
  ℕ, ◌+◌, ◌≤◌, ◌<◌, ◌%◌, ◌^◌, ◌≡◌, refl, ap, ◌∙◌, Bool, true, false, ◌&&◌, ◌||◌, List, [], ◌∷◌,
  ◌++◌, Option, none, some, arith, ◌==◌, leb, if◌then◌else◌, All, All-append, max, Bool-cases, inl,
  inr,
}
use mathlib.Core.List.{append-nil, append_assoc}
use nanoreth.Primitives.{Alloy}
use nanoreth.Types.Compat.{BlockAndReceipts, number}
use nanoreth.PseudoPeer.Scan.{
  Range, ScanOptions, ScanState, close_range, extend_range, one_if, scan_block, scan_hour_file,
  scan_lines, start_scan,
}

abbrev pub in_range : ℕ → Range → Bool
in_range h (lo, hi) = leb lo h && leb h hi

abbrev pub covers : ℕ → List Range → Bool
covers h [] = false
covers h (r ∷ rs) = in_range h r || covers h rs

abbrev covers? : ℕ → Option Range → Bool
covers? h none = false
covers? h (some r) = in_range h r

covers-append : (h : ℕ) (rs qs : List Range) → covers h (rs ++ qs) ≡ (covers h rs || covers h qs)
covers-append h [] qs = refl
covers-append h (r ∷ rs) qs = ground (arith, covers-append h rs qs)

-- No range is empty: the start is at most the end.
abbrev pub Proper : Range → Type 0
Proper (lo, hi) = lo ≤ hi

abbrev Proper? : Option Range → Type 0
Proper? none = Unit {0}
Proper? (some r) = Proper r

-- The height after the range fits 64 bits.
abbrev Ends? : Option Range → Type 0
Ends? none = Unit {0}
Ends? (some (lo, hi)) = hi + 1 < 2 ^ 64

extend_range-covers :
    (h height : ℕ) (current : Option Range) (ranges : List Range)
    → Ends? current
    → Proper? current
    → (covers? h (extend_range height current ranges).0
        || covers h (extend_range height current ranges).1)
      ≡ (h == height || (covers? h current || covers h ranges))
unfolding extend_range
extend_range-covers h height none ranges w p = ground arith
extend_range-covers h height (some (start, last)) ranges w p =
    let next : (last + 1) % 2 ^ 64 ≡ last + 1 = omega (arith, w) in
    ground (arith, next, covers-append h ranges ((start, last) ∷ []))

extend_range-Proper :
    (height : ℕ) (current : Option Range) (ranges : List Range)
    → Ends? current
    → Proper? current
    → All Proper ranges
    → Proper? (extend_range height current ranges).0
      × All Proper (extend_range height current ranges).1
unfolding extend_range
extend_range-Proper height none ranges w p ps = ground arith
extend_range-Proper height (some (start, last)) ranges w p ps =
    let next : (last + 1) % 2 ^ 64 ≡ last + 1 = omega (arith, w) in
    ground (arith, next, All-append Proper ranges ((start, last) ∷ []) ps (p, tt))

extend_range-Ends :
    (height : ℕ) (current : Option Range) (ranges : List Range)
    → height + 1 < 2 ^ 64
    → Ends? (extend_range height current ranges).0
unfolding extend_range
extend_range-Ends height none ranges w = w
extend_range-Ends height (some (start, last)) ranges w = ground (arith, w)

close_range-covers :
    (h : ℕ) (current : Option Range) (ranges : List Range)
    → covers h (close_range current ranges) ≡ (covers? h current || covers h ranges)
close_range-covers h none ranges = refl
close_range-covers h (some r) ranges = ground (arith, covers-append h ranges (r ∷ []))

close_range-Proper :
    (current : Option Range) (ranges : List Range)
    → Proper? current
    → All Proper ranges
    → All Proper (close_range current ranges)
close_range-Proper none ranges p ps = ps
close_range-Proper (some r) ranges p ps = All-append Proper ranges (r ∷ []) ps (p, tt)

module _ {a : Alloy} where
  -- Some line parses to a block of this height.
  abbrev pub parsed : ℕ → List (Option (BlockAndReceipts a)) → Bool
  parsed h [] = false
  parsed h (none ∷ lines) = parsed h lines
  parsed h (some block ∷ lines) = h == number block || parsed h lines

  -- The heights of the file, and the ones after them, fit 64 bits.
  abbrev pub Fits : List (Option (BlockAndReceipts a)) → Type 0
  Fits [] = Unit {0}
  Fits (none ∷ lines) = Fits lines
  Fits (some block ∷ lines) = (number block + 1 < 2 ^ 64) × Fits lines

  -- The blocks from the wanted height on, in the order of the file.
  abbrev pub wanted : ScanOptions → List (Option (BlockAndReceipts a)) → List (BlockAndReceipts a)
  wanted options [] = []
  wanted options (none ∷ lines) = wanted options lines
  wanted options (some block ∷ lines) =
      if leb options.start_height (number block)
      then block ∷ wanted options lines
      else wanted options lines

  -- The highest height of the file, and at least `h`.
  abbrev pub highest : ℕ → List (Option (BlockAndReceipts a)) → ℕ
  highest h [] = h
  highest h (none ∷ lines) = highest h lines
  highest h (some block ∷ lines) = highest (max h (number block)) lines

  abbrev pub any_parsed : List (Option (BlockAndReceipts a)) → Bool
  any_parsed [] = false
  any_parsed (none ∷ lines) = any_parsed lines
  any_parsed (some block ∷ lines) = true

  scan_block-ranges :
      (options : ScanOptions) (block : BlockAndReceipts a) (st : ScanState a) (h : ℕ)
      → number block + 1 < 2 ^ 64
      → Ends? st.current_range
      → Proper? st.current_range
      → All Proper st.block_ranges
      → let st' = scan_block options block st in
        ((covers? h st'.current_range || covers h st'.block_ranges)
          ≡ (h == number block || (covers? h st.current_range || covers h st.block_ranges)))
        × Ends? st'.current_range
        × Proper? st'.current_range
        × All Proper st'.block_ranges
  unfolding scan_block
  scan_block-ranges options block st h f w p ps =
      let cov = extend_range-covers h (number block) st.current_range st.block_ranges w p in
      let (q, qs) = extend_range-Proper (number block) st.current_range st.block_ranges w p ps in
      let w' = extend_range-Ends (number block) st.current_range st.block_ranges f in
      elim (Bool-cases (leb options.start_height (number block))) [
        | inl in_time ↦ rw in_time (cov, w', q, qs)
        | inr early ↦ rw early (cov, w', q, qs)
      ]

  scan_lines-ranges :
      (options : ScanOptions) (lines : List (Option (BlockAndReceipts a))) (st : ScanState a)
      (h : ℕ)
      → Fits lines
      → Ends? st.current_range
      → Proper? st.current_range
      → All Proper st.block_ranges
      → let st' = scan_lines options lines st in
        ((covers? h st'.current_range || covers h st'.block_ranges)
          ≡ (parsed h lines || (covers? h st.current_range || covers h st.block_ranges)))
        × Ends? st'.current_range
        × Proper? st'.current_range
        × All Proper st'.block_ranges
  unfolding scan_lines
  scan_lines-ranges options [] st h f w p ps = (ground arith, w, p, ps)
  scan_lines-ranges options (none ∷ lines) st h f w p ps =
      scan_lines-ranges options lines st h f w p ps
  scan_lines-ranges options (some block ∷ lines) st h f w p ps =
      let (covers_step, w', p', ps') = scan_block-ranges options block st h f.0 w p ps in
      let (covers_rest, w'', p'', ps'') =
        scan_lines-ranges options lines (scan_block options block st) h f.1 w' p' ps' in
      (ground arith, w'', p'', ps'')

  scan_lines-blocks :
      (options : ScanOptions) (lines : List (Option (BlockAndReceipts a))) (st : ScanState a)
      → (scan_lines options lines st).new_blocks ≡ (
          if options.only_load_ranges then st.new_blocks else st.new_blocks ++ wanted options lines)
  unfolding scan_lines scan_block
  scan_lines-blocks options [] st = ground (arith, append-nil st.new_blocks)
  scan_lines-blocks options (none ∷ lines) st = scan_lines-blocks options lines st
  scan_lines-blocks options (some block ∷ lines) st = ground (
    arith,
    scan_lines-blocks options lines (scan_block options block st),
    append_assoc st.new_blocks (block ∷ []) (wanted options lines),
  )

  scan_lines-height :
      (options : ScanOptions) (lines : List (Option (BlockAndReceipts a))) (st : ScanState a)
      → options.start_height ≤ st.last_height
      → (scan_lines options lines st).last_height ≡ highest st.last_height lines
  unfolding scan_lines scan_block
  scan_lines-height options [] st h = refl
  scan_lines-height options (none ∷ lines) st h = scan_lines-height options lines st h
  scan_lines-height options (some block ∷ lines) st h =
      let step : (scan_block options block st).last_height ≡ max st.last_height (number block) =
        ground arith in
      scan_lines-height options lines (scan_block options block st) (omega arith)
      ∙ ap (λ n. highest n lines) step

  scan_lines-current :
      (options : ScanOptions) (lines : List (Option (BlockAndReceipts a))) (st : ScanState a)
      → one_if (scan_lines options lines st).current_range
        ≡ (if any_parsed lines then 1 else one_if st.current_range)
  unfolding scan_lines scan_block
  scan_lines-current options [] st = refl
  scan_lines-current options (none ∷ lines) st = scan_lines-current options lines st
  scan_lines-current options (some block ∷ lines) st =
      ground (arith, scan_lines-current options lines (scan_block options block st))

  -- The ranges of a scan hold a height exactly if a line of the file parses to a block of it, also
  -- where heights repeat or go back, and no range is empty. The heights in the file, and the ones
  -- after them, fit 64 bits.
  pub scan_hour_file-ranges :
      (path : ℕ) (options : ScanOptions) (lines : List (Option (BlockAndReceipts a))) (h : ℕ)
      → Fits lines
      → (covers h (scan_hour_file path options lines).new_block_ranges ≡ parsed h lines)
        × All Proper (scan_hour_file path options lines).new_block_ranges
  unfolding scan_hour_file
  scan_hour_file-ranges path options lines h f =
      let st = scan_lines options lines (start_scan options) in
      let (cov, w, p, ps) = scan_lines-ranges options lines (start_scan options) h f tt tt tt in
      (
        close_range-covers h st.current_range st.block_ranges ∙ ground arith,
        close_range-Proper st.current_range st.block_ranges p ps,
      )

  -- The blocks of a scan are those from the wanted height on, in the order of the file, unless only
  -- the ranges are asked for.
  pub scan_hour_file-blocks :
      (path : ℕ) (options : ScanOptions) (lines : List (Option (BlockAndReceipts a)))
      → (scan_hour_file path options lines).new_blocks
        ≡ (if options.only_load_ranges then [] else wanted options lines)
  unfolding scan_hour_file
  scan_hour_file-blocks path options lines = scan_lines-blocks options lines (start_scan options)

  highest-Fits :
      (h : ℕ) (lines : List (Option (BlockAndReceipts a)))
      → h + 1 < 2 ^ 64
      → Fits lines
      → highest h lines + 1 < 2 ^ 64
  highest-Fits h [] w f = w
  highest-Fits h (none ∷ lines) w f = highest-Fits h lines w f
  highest-Fits h (some block ∷ lines) w f =
      highest-Fits (max h (number block)) lines (omega (arith, w, f.0)) f.1

  -- The next height is one past the highest height of the file and of the wanted one, if any line
  -- parses, also where all blocks lie below the wanted height; else it is the wanted one. The
  -- heights, and the ones after them, fit 64 bits.
  pub scan_hour_file-next :
      (path : ℕ) (options : ScanOptions) (lines : List (Option (BlockAndReceipts a)))
      → options.start_height + 1 < 2 ^ 64
      → Fits lines
      → (scan_hour_file path options lines).next_expected_height
        ≡ highest options.start_height lines + (if any_parsed lines then 1 else 0)
  unfolding scan_hour_file
  scan_hour_file-next path options lines w f =
      let top : highest options.start_height lines + 1 < 2 ^ 64 =
        highest-Fits options.start_height lines w f in
      let height = scan_lines-height options lines (start_scan options) (omega arith) in
      let step = scan_lines-current options lines (start_scan options) in
      rw (height, step) (ground (arith, top))
