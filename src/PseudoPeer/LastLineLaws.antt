-- ===== src/PseudoPeer/LastLineLaws.antt =====
-- What `read_last_complete_line` finds at the end of a file.
use nanoreth.Prelude.{
  Bool, if◌then◌else◌, ℕ, zero, suc, ◌+◌, ◌-◌, ◌≤◌, ◌<◌, ◌≡◌, refl, sym, ap, ◌∙◌, true, List, [],
  ◌∷◌, ◌++◌, Option, none, some, arith, ltb, length, take, drop, min, length-append, take-length,
  Bool-cases, inl, inr,
}
use mathlib.Core.List.{append-nil}
use nanoreth.PseudoPeer.Lines.{Unbroken, ends_with-Unbroken, newline}
use nanoreth.PseudoPeer.LastLineText.{
  Unbroken-drop, drop-append_ge, drop-append_le, drop-length, ends_with-append_right,
  ends_with-cons, split_last-Unbroken, split_last-append, strip-append, take-drop,
}
use nanoreth.PseudoPeer.SingleLine.{read_last_complete_line-single}
use nanoreth.PseudoPeer.LastLine.{
  Searched, returned, panicked, after_split, chunk_size, read_chunks, read_last_complete_line,
  split_last, strip_newline,
}

module _ {R : Type 0} (utf8 : List ℕ → Bool) (line_to_evm_block : List ℕ → Option R)
    (before : List ℕ) (c : ℕ) (line' : List ℕ) (h : Unbroken (c ∷ line')) (r : R)
    (valid : utf8 (c ∷ line') ≡ true) (parses : line_to_evm_block (c ∷ line') ≡ some r) where
  abbrev text : List ℕ
  text = before ++ newline ∷ c ∷ line'

  abbrev file : List ℕ
  file = text ++ newline ∷ []

  length-text : length text ≡ length before + suc (suc (length line'))
  length-text = length-append before (newline ∷ c ∷ line')

  -- A chunk that reaches back to the newline before the line.
  reaches :
      (start : ℕ) (go : List ℕ → Searched R)
      → start ≤ length before
      → after_split utf8 line_to_evm_block go (drop start text) (split_last (drop start text))
        ≡ returned (some r)
  reaches start go le =
      let tail : drop start text ≡ drop start before ++ newline ∷ c ∷ line' =
        drop-append_le start before (newline ∷ c ∷ line') le in
      rw (tail, split_last-append (drop start before) (c ∷ line') h, valid, parses) refl

  after_newline :
      (start : ℕ)
      → length before < start
      → drop start text ≡ drop (start - length before - 1) (c ∷ line')
  after_newline start lt =
      let step : start - length before ≡ suc (start - length before - 1) = omega (arith, lt) in
      drop-append_ge start before (newline ∷ c ∷ line') (omega (arith, lt))
      ∙ ap (λ n. drop n (newline ∷ c ∷ line')) step

  -- A chunk that does not: the line is kept as far as it is read.
  falls_short :
      (start : ℕ) (go : List ℕ → Searched R)
      → length before < start
      → after_split utf8 line_to_evm_block go (drop start text) (split_last (drop start text))
        ≡ go (drop start text)
  falls_short start go lt =
      let tail = after_newline start lt in
      let unbroken = Unbroken-drop (start - length before - 1) (c ∷ line') h in
      rw (tail, split_last-Unbroken (drop (start - length before - 1) (c ∷ line')) unbroken) refl

  strip-drop : (start : ℕ) → strip_newline (drop start text) ≡ drop start text
  unfolding strip_newline
  strip-drop start = elim (Bool-cases (ltb (length before) start)) [
    | inl b ↦
        let unbroken = Unbroken-drop (start - length before - 1) (c ∷ line') h in
        rw
          (
            after_newline start (ground (arith, b)),
            ends_with-Unbroken (drop (start - length before - 1) (c ∷ line')) unbroken,
          )
          refl
    | inr b ↦
        rw
          (
            drop-append_le start before (newline ∷ c ∷ line') (ground (arith, b)),
            ends_with-append_right newline (drop start before) newline (c ∷ line'),
            ends_with-cons newline c line',
            ends_with-Unbroken (c ∷ line') h,
          )
          refl
  ]

  abbrev start_of : ℕ → ℕ
  start_of pos = pos - min pos chunk_size

  found_from :
      (fuel pos : ℕ)
      → pos ≤ fuel
      → length before < pos
      → pos ≤ length text
      → read_chunks utf8 line_to_evm_block fuel file pos (drop pos text) ≡ returned (some r)
  unfolding read_chunks
  found_from zero pos f lt le = absurd (omega (arith, f, lt))
  found_from (suc fuel) zero f lt le = absurd (omega (arith, lt))
  found_from (suc fuel) (suc pos) f lt le =
      let start = start_of (suc pos) in
      let size = min (suc pos) chunk_size in
      let whole : start + size ≡ suc pos = omega arith in
      let slice : take size (drop start file) ++ drop (suc pos) text ≡ drop start text =
        ap (λ n. take size (drop start file) ++ drop n text) (sym whole)
        ∙ take-drop size start text (newline ∷ []) (omega (arith, le)) in
      rw (slice, strip-drop start)
        (elim (Bool-cases (ltb (length before) start)) [
          | inr b ↦
              reaches start (read_chunks utf8 line_to_evm_block fuel file start) (ground (arith, b))
          | inl b ↦
              falls_short start (read_chunks utf8 line_to_evm_block fuel file start)
                (ground (arith, b))
              ∙ found_from fuel start (omega (arith, f)) (ground (arith, b)) (omega (arith, le))
        ])

  length-file : length file ≡ suc (length text)
  length-file = length-append text (newline ∷ []) ∙ omega arith

  found_first :
      (fuel n : ℕ)
      → n ≡ length text
      → n ≤ fuel
      → read_chunks utf8 line_to_evm_block (suc fuel) file (suc n) [] ≡ returned (some r)
  unfolding read_chunks
  found_first fuel n e f =
      let start = start_of (suc n) in
      let size = min (suc n) chunk_size in
      let whole : start + size ≡ suc n = omega arith in
      let end : drop (suc n) file ≡ [] =
        ap (λ m. drop m file) (ap suc e ∙ sym length-file) ∙ drop-length file in
      let slice : take size (drop start file) ++ [] ≡ drop start text ++ newline ∷ [] =
        sym (λ i. take size (drop start (append-nil file i)) ++ end i)
        ∙ ap (λ m. take size (drop start (file ++ [])) ++ drop m file) (sym whole)
        ∙ take-drop size start file [] (omega (arith, e, length-file))
        ∙ drop-append_le start text (newline ∷ []) (omega (arith, e)) in
      rw (slice, strip-append (drop start text))
        (elim (Bool-cases (ltb (length before) start)) [
          | inr b ↦
              reaches start (read_chunks utf8 line_to_evm_block fuel file start) (ground (arith, b))
          | inl b ↦
              falls_short start (read_chunks utf8 line_to_evm_block fuel file start)
                (ground (arith, b))
              ∙ found_from fuel start (omega (arith, f, e)) (ground (arith, b)) (omega (arith, e))
        ])

  read_last_complete_line-preceded :
      read_last_complete_line utf8 line_to_evm_block (text ++ newline ∷ []) ≡ returned (some r)
  unfolding read_last_complete_line
  read_last_complete_line-preceded =
      rw length-file (found_first (suc (length text)) (length text) refl (omega arith))

-- The line alone, or behind earlier bytes that end with a newline.
abbrev pub preceded : Option (List ℕ) → List ℕ → List ℕ
preceded none line = line
preceded (some before) line = before ++ newline ∷ line

-- Of a file whose last line is complete, not empty, UTF-8 and parses, the block of that line is
-- returned, whether or not other bytes, of any kind, are before the line, and however long the line
-- and the file are, in chunks of 50000 bytes from the end.
pub read_last_complete_line-last :
    {R : Type 0} (utf8 : List ℕ → Bool) (line_to_evm_block : List ℕ → Option R)
    (front : Option (List ℕ)) (c : ℕ) (line : List ℕ) (r : R)
    → Unbroken (c ∷ line)
    → utf8 (c ∷ line) ≡ true
    → line_to_evm_block (c ∷ line) ≡ some r
    → read_last_complete_line utf8 line_to_evm_block (preceded front (c ∷ line) ++ newline ∷ [])
      ≡ returned (some r)
read_last_complete_line-last utf8 line_to_evm_block none c line r h valid parses =
    read_last_complete_line-single utf8 line_to_evm_block (c ∷ line) h r valid parses
read_last_complete_line-last utf8 line_to_evm_block (some before) c line r h valid parses =
    read_last_complete_line-preceded utf8 line_to_evm_block before c line h r valid parses

-- Of a file of at most 50000 bytes whose last line is incomplete and does not parse, as while hl-node
-- is writing it, all that stands before that line is parsed as one line: where it has several lines,
-- the last complete one is not found by itself. The search panics when the incomplete line is not
-- UTF-8, as after half of a character, and when what stands before it is not.
pub read_last_complete_line-partial :
    {R : Type 0} (utf8 : List ℕ → Bool) (line_to_evm_block : List ℕ → Option R) (before : List ℕ)
    (c : ℕ) (partial : List ℕ)
    → Unbroken (c ∷ partial)
    → length before + length partial + 2 ≤ chunk_size
    → line_to_evm_block (c ∷ partial) ≡ none
    → read_last_complete_line utf8 line_to_evm_block (before ++ newline ∷ c ∷ partial) ≡ (
        if utf8 (c ∷ partial)
        then (if utf8 before then returned (line_to_evm_block before) else panicked)
        else panicked)
unfolding read_last_complete_line read_chunks strip_newline
read_last_complete_line-partial utf8 line_to_evm_block before c partial h small unparsed =
    let file = before ++ newline ∷ c ∷ partial in
    let size : length file ≡ suc (suc (length before + length partial)) =
      length-append before (newline ∷ c ∷ partial) ∙ omega arith in
    let fits : min (suc (suc (length before + length partial))) 50000
        ≡ suc (suc (length before + length partial)) =
      omega (arith, small) in
    let start : suc (suc (length before + length partial))
          - suc (suc (length before + length partial))
        ≡ 0 =
      omega arith in
    let all : take (suc (suc (length before + length partial))) file ≡ file =
      ap (λ n. take n file) (sym size) ∙ take-length file in
    rw
      (
        size,
        fits,
        start,
        all,
        append-nil file,
        ends_with-append_right newline before newline (c ∷ partial),
        ends_with-cons newline c partial,
        ends_with-Unbroken (c ∷ partial) h,
        split_last-append before (c ∷ partial) h,
      )
      (elim (Bool-cases (utf8 (c ∷ partial))) [
        | inl valid ↦ rw (valid, unparsed) refl
        | inr half ↦ rw half refl
      ])
