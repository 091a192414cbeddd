-- ===== src/PseudoPeer/IngestLaws.antt =====
-- What the ingest loop of hl-node's files finds.
use nanoreth.Prelude.{
  sym, subst, map, suc, drop, ◌-◌, ◌<◌, ℕ, ◌+◌, ◌≡◌, refl, ap, ◌∙◌, Bool, true, false, ◌||◌, ◌⊎◌,
  List, [], ◌∷◌, ◌++◌, Option, none, some, arith, length, All, Bool-cases, inl, inr,
}
use nanoreth.Primitives.{Alloy}
use nanoreth.Types.Compat.{BlockAndReceipts}
use nanoreth.PseudoPeer.Caches.{LruMap, RangeInclusiveMap}
use nanoreth.PseudoPeer.Scan.{ScanOptions, scan_hour_file}
use nanoreth.PseudoPeer.ScanLaws.{Fits, parsed}
use nanoreth.PseudoPeer.LocalCache.{get_path-load_scan, get_path_for_height}
use nanoreth.PseudoPeer.LineText.{
  IsLine, IsPartial, drop-text, length-text, lines_le_text, size, size-append, take_lines-text,
  text, text-append,
}
use mathlib.Core.List.{map-append}
use nanoreth.PseudoPeer.Ingest.{
  Ingest, scan_bytes, load_scan, ingest_turn, move_on, next_ready, one_hour, open_file,
  scan_current, scan_stream,
}

parsed-append :
    {a : Alloy} (h : ℕ) (xs ys : List (Option (BlockAndReceipts a)))
    → parsed h (xs ++ ys) ≡ (parsed h xs || parsed h ys)
parsed-append h [] ys = refl
parsed-append h (none ∷ xs) ys = parsed-append h xs ys
parsed-append h (some b ∷ xs) ys = ground (arith, parsed-append h xs ys)

module _ (a : Alloy) (utf8 : List ℕ → Bool)
    (line_to_evm_block : List ℕ → Option (BlockAndReceipts a)) (lru : LruMap (BlockAndReceipts a))
    (rm : RangeInclusiveMap ℕ) (path_of : ℕ → ℕ) where
  abbrev pub State : Type 0
  State = Ingest a utf8 line_to_evm_block lru rm

  abbrev parsed_in : ℕ → List (List ℕ) → Bool
  parsed_in h lines = parsed h (map line_to_evm_block lines)

  -- The stream stands behind these lines of the current file, and the heights in them lead to it.
  pub record HasRead (lines : List (List ℕ)) (st : State) : Type 0 where
    pub position : st.line_stream ≡ some (size lines)
    pub leads :
        (h : ℕ)
        → parsed h (map line_to_evm_block lines) ≡ true
        → get_path_for_height a lru rm h st.cache ≡ some (path_of st.dt)

  scan_bytes-text :
      (path : ℕ) (options : ScanOptions) (lines : List (List ℕ)) (partial : List ℕ)
      → All (IsLine utf8) lines
      → IsPartial utf8 partial
      → scan_bytes a utf8 line_to_evm_block path options (text lines partial)
        ≡ (scan_hour_file path options (map line_to_evm_block lines), partial)
  unfolding scan_bytes
  scan_bytes-text path options lines partial k p =
      let fuel : length lines < suc (length (text lines partial)) =
        omega (arith, lines_le_text lines partial) in
      rw (take_lines-text utf8 (suc (length (text lines partial))) lines partial fuel k p) refl

  parsed-split :
      (h : ℕ) (read new : List (List ℕ))
      → parsed_in h (read ++ new) ≡ (parsed_in h read || parsed_in h new)
  parsed-split h read new =
      ap (parsed h) (map-append line_to_evm_block read new)
      ∙ parsed-append h (map line_to_evm_block read) (map line_to_evm_block new)

  abbrev options_at : State → ScanOptions
  options_at st = record { start_height = st.next_height; only_load_ranges = false }

  scan_stream-load_scan :
      (bytes : List ℕ) (read : ℕ) (st : State)
      → scan_stream a utf8 line_to_evm_block lru rm path_of bytes (some read) st
        ≡ load_scan a utf8 line_to_evm_block lru rm path_of read
            (drop read bytes)
            (scan_bytes a utf8 line_to_evm_block (path_of st.dt) (options_at st) (drop read bytes))
            st
  unfolding scan_stream
  scan_stream-load_scan bytes read st = refl

  scan_current-scan_stream :
      (bytes : List ℕ) (st : State)
      → scan_current a utf8 line_to_evm_block lru rm path_of (some bytes) st
        ≡ scan_stream a utf8 line_to_evm_block lru rm path_of bytes st.line_stream st
  unfolding scan_current
  scan_current-scan_stream bytes st = refl

  -- From behind the lines that it has read, the stream reads the new complete ones.
  scan_current-load_scan :
      (read new : List (List ℕ)) (partial : List ℕ) (st : State)
      → All (IsLine utf8) new
      → IsPartial utf8 partial
      → st.line_stream ≡ some (size read)
      → scan_current a utf8 line_to_evm_block lru rm path_of (some (text (read ++ new) partial)) st
        ≡ load_scan a utf8 line_to_evm_block lru rm path_of
            (size read)
            (text new partial)
            (scan_hour_file (path_of st.dt) (options_at st) (map line_to_evm_block new), partial)
            st
  scan_current-load_scan read new partial st k p position =
      let bytes = text (read ++ new) partial in
      let behind : drop (size read) bytes ≡ text new partial =
        ap (drop (size read)) (text-append read new partial) ∙ drop-text read (text new partial) in
      scan_current-scan_stream bytes st
      ∙ ap (λ o. scan_stream a utf8 line_to_evm_block lru rm path_of bytes o st) position
      ∙ scan_stream-load_scan bytes (size read) st
      ∙ ap
          (λ b.
            load_scan a utf8 line_to_evm_block lru rm path_of (size read) b
              (scan_bytes a utf8 line_to_evm_block (path_of st.dt) (options_at st) b) st)
          behind
      ∙ ap
          (λ r.
            load_scan a utf8 line_to_evm_block lru rm path_of (size read) (text new partial) r st)
          (scan_bytes-text (path_of st.dt) (options_at st) new partial k p)

  scan_current-HasRead :
      (read new : List (List ℕ)) (partial : List ℕ) (st : State)
      → All (IsLine utf8) new
      → Fits (map line_to_evm_block new)
      → IsPartial utf8 partial
      → HasRead read st
      → HasRead (read ++ new) (
          scan_current a utf8 line_to_evm_block lru rm path_of
            (some (text (read ++ new) partial))
            st)
  scan_current-HasRead read new partial st k fits p r =
      let moved : size read + (length (text new partial) - length partial) ≡ size (read ++ new) =
        omega (arith, length-text new partial, size-append read new) in
      subst (HasRead (read ++ new))
        (sym (scan_current-load_scan read new partial st k p r.position))
        (record {
          position = ap some moved;
          leads = λ h e.
              get_path-load_scan a lru rm (path_of st.dt) (options_at st)
                (map line_to_evm_block new) st.cache h fits
              ∙ elim (Bool-cases (parsed_in h new)) [
                | inl here ↦ rw here refl
                | inr away ↦ rw away (r.leads h (ground (arith, e, away, parsed-split h read new)))
              ];
        })

  -- The current file is read up to these lines, or was not found yet.
  abbrev pub Follows : List (List ℕ) → State → Type 0
  Follows read st = HasRead read st ⊎ ((read ≡ []) × (st.line_stream ≡ none))

  open_file-HasRead :
      (read : List (List ℕ)) (bytes : List ℕ) (st : State)
      → Follows read st
      → HasRead read (open_file a utf8 line_to_evm_block lru rm (some bytes) st)
  unfolding open_file
  open_file-HasRead read bytes st (inl r) = record {
    position = rw (r.position) refl;
    leads = r.leads;
  }
  open_file-HasRead read bytes st (inr (empty, closed)) =
      rw empty (record { position = rw closed refl; leads = λ h e. absurd (ground (arith, e)) })

  open_file-dt :
      (file : Option (List ℕ)) (st : State)
      → (open_file a utf8 line_to_evm_block lru rm file st).dt ≡ st.dt
  unfolding open_file
  open_file-dt file st = refl

  scan_stream-dt :
      (bytes : List ℕ) (read : Option ℕ) (st : State)
      → (scan_stream a utf8 line_to_evm_block lru rm path_of bytes read st).dt ≡ st.dt
  unfolding scan_stream
  scan_stream-dt bytes none st = refl
  scan_stream-dt bytes (some read) st = refl

  scan_current-dt :
      (bytes : List ℕ) (st : State)
      → (scan_current a utf8 line_to_evm_block lru rm path_of (some bytes) st).dt ≡ st.dt
  scan_current-dt bytes st =
      ap (λ s. s.dt) (scan_current-scan_stream bytes st) ∙ scan_stream-dt bytes st.line_stream st

  move_on-moved :
      (later : ℕ → Option (List ℕ)) (bytes : List ℕ) (st : State)
      → later (path_of st.dt) ≡ some bytes
      → move_on a utf8 line_to_evm_block lru rm path_of true later st
        ≡ record (scan_current a utf8 line_to_evm_block lru rm path_of (some bytes) st) {
          dt = st.dt + one_hour;
          line_stream = none;
        }
  unfolding move_on
  move_on-moved later bytes st e =
      ap
        (λ file. record (scan_current a utf8 line_to_evm_block lru rm path_of file st) {
          dt = st.dt + one_hour;
          line_stream = none;
        })
        e

  -- What is true of the file and the state after a turn.
  abbrev pub Turned : List (List ℕ) → List (List ℕ) → ℕ → State → Type 0
  Turned lines all dt st =
      ((st.dt ≡ dt) × HasRead lines st)
      ⊎ ((st.dt ≡ dt + one_hour)
          × (st.line_stream ≡ none)
          × ((h : ℕ)
              → parsed h (map line_to_evm_block all) ≡ true
              → get_path_for_height a lru rm h st.cache ≡ some (path_of dt)))

  move_on-Turned :
      (goes : Bool) (later : ℕ → Option (List ℕ)) (lines late : List (List ℕ)) (partial : List ℕ)
      (st : State) (dt : ℕ)
      → st.dt ≡ dt
      → All (IsLine utf8) late
      → Fits (map line_to_evm_block late)
      → IsPartial utf8 partial
      → HasRead lines st
      → later (path_of dt) ≡ some (text (lines ++ late) partial)
      → Turned lines
          (lines ++ late)
          dt
          (move_on a utf8 line_to_evm_block lru rm path_of goes later st)
  unfolding move_on
  move_on-Turned false later lines late partial st dt here k fits p r f = inl (here, r)
  move_on-Turned true later lines late partial st dt here k fits p r f =
      let bytes = text (lines ++ late) partial in
      let last = scan_current-HasRead lines late partial st k fits p r in
      let seen : later (path_of st.dt) ≡ some bytes = ap (λ d. later (path_of d)) here ∙ f in
      subst (Turned lines (lines ++ late) dt) (sym (move_on-moved later bytes st seen)) (
        inr (
          ap (λ d. d + one_hour) here,
          refl,
          λ h e. last.leads h e ∙ ap (λ d. some (path_of d)) (scan_current-dt bytes st ∙ here),
        ))

  ingest_turn-move_on :
      (files later : ℕ → Option (List ℕ)) (now : ℕ) (bytes : List ℕ) (st : State)
      → files (path_of st.dt) ≡ some bytes
      → (goes : Bool) × (ingest_turn a utf8 line_to_evm_block lru rm path_of files later now st
          ≡ move_on a utf8 line_to_evm_block lru rm path_of goes later (
              scan_current a utf8 line_to_evm_block lru rm path_of
                (some bytes)
                (open_file a utf8 line_to_evm_block lru rm (some bytes) st)))
  unfolding ingest_turn
  ingest_turn-move_on files later now bytes st e = (
    next_ready a utf8 line_to_evm_block lru rm path_of later now (
        scan_current a utf8 line_to_evm_block lru rm path_of (some bytes)
          (open_file a utf8 line_to_evm_block lru rm (some bytes) st)),
    ap
        (λ file.
          let scanned =
            scan_current a utf8 line_to_evm_block lru rm path_of file
              (open_file a utf8 line_to_evm_block lru rm file st) in
          move_on a utf8 line_to_evm_block lru rm path_of
            (next_ready a utf8 line_to_evm_block lru rm path_of later now scanned) later scanned)
        e,
  )

  -- A turn of the ingest loop, on a file to which bytes are added at the end: it stays with the
  -- file, has read all its complete lines and every height in them leads to it; or it goes on to the
  -- next hour, and every height in the complete lines then leads to the file, those written after
  -- the first look at it included. The lines are UTF-8, and so are at both looks the bytes after the
  -- last complete line, as far as it is written; the heights, and the ones after them, fit 64 bits.
  pub ingest_turn-HasRead :
      (files later : ℕ → Option (List ℕ)) (now : ℕ) (read new late : List (List ℕ))
      (partial rest : List ℕ) (st : State)
      → All (IsLine utf8) new
      → All (IsLine utf8) late
      → Fits (map line_to_evm_block new)
      → Fits (map line_to_evm_block late)
      → IsPartial utf8 partial
      → IsPartial utf8 rest
      → Follows read st
      → files (path_of st.dt) ≡ some (text (read ++ new) partial)
      → later (path_of st.dt) ≡ some (text ((read ++ new) ++ late) rest)
      → Turned
          (read ++ new)
          ((read ++ new) ++ late)
          st.dt
          (ingest_turn a utf8 line_to_evm_block lru rm path_of files later now st)
  ingest_turn-HasRead files later now read new late partial rest st k k' fits fits' p p' follows e
        f =
      let bytes = text (read ++ new) partial in
      let opened = open_file a utf8 line_to_evm_block lru rm (some bytes) st in
      let open_dt : opened.dt ≡ st.dt = open_file-dt (some bytes) st in
      let (goes, turn) = ingest_turn-move_on files later now bytes st e in
      subst (Turned (read ++ new) ((read ++ new) ++ late) st.dt) (sym turn) (
        move_on-Turned goes later (read ++ new) late rest
          (scan_current a utf8 line_to_evm_block lru rm path_of (some bytes) opened) st.dt
          (scan_current-dt bytes opened ∙ open_dt) k' fits' p'
          (scan_current-HasRead read new partial opened k fits p
            (open_file-HasRead read bytes st follows))
          f)
