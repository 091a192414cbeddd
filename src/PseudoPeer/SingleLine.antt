-- ===== src/PseudoPeer/SingleLine.antt =====
-- What `read_last_complete_line` of src/pseudo_peer/sources/hl_node/file_ops.rs finds in a file of one
-- line.
use nanoreth.Prelude.{
  ℕ, zero, suc, ◌+◌, ◌-◌, ◌≤◌, ◌<◌, ◌≡◌, refl, sym, ap, ◌∙◌, Bool, true, List, [], ◌∷◌, ◌++◌,
  Option, some, arith, length, take, drop, min, length-append,
}
use mathlib.Core.List.{append-nil}
use nanoreth.PseudoPeer.Lines.{Unbroken, ends_with-Unbroken, newline}
use nanoreth.PseudoPeer.LastLine.{
  chunk_size, read_chunks, read_last_complete_line, returned, strip_newline,
}
use nanoreth.PseudoPeer.LastLineText.{
  Unbroken-drop, drop-append_le, drop-length, split_last-Unbroken, strip-append, take-drop,
}

module _ {R : Type 0} (utf8 : List ℕ → Bool) (line_to_evm_block : List ℕ → Option R) (line : List ℕ)
    (h : Unbroken line) (r : R) (valid : utf8 line ≡ true)
    (parses : line_to_evm_block line ≡ some r) where
  abbrev file : List ℕ
  file = line ++ newline ∷ []

  strip-drop_line : (start : ℕ) → strip_newline (drop start line) ≡ drop start line
  unfolding strip_newline
  strip-drop_line start =
      rw (ends_with-Unbroken (drop start line) (Unbroken-drop start line h)) refl

  abbrev start_of : ℕ → ℕ
  start_of pos = pos - min pos chunk_size

  -- No chunk has a newline, so the whole line is gathered.
  gathered_from :
      (fuel pos : ℕ)
      → pos < fuel
      → pos ≤ length line
      → read_chunks utf8 line_to_evm_block fuel file pos (drop pos line) ≡ returned (some r)
  unfolding read_chunks
  gathered_from zero pos f le = absurd (omega (arith, f))
  gathered_from (suc fuel) zero f le = rw (valid, parses) refl
  gathered_from (suc fuel) (suc pos) f le =
      let start = start_of (suc pos) in
      let size = min (suc pos) chunk_size in
      let whole : start + size ≡ suc pos = omega arith in
      let slice : take size (drop start file) ++ drop (suc pos) line ≡ drop start line =
        ap (λ n. take size (drop start file) ++ drop n line) (sym whole)
        ∙ take-drop size start line (newline ∷ []) (omega (arith, le)) in
      rw
        (
          slice,
          strip-drop_line start,
          split_last-Unbroken (drop start line) (Unbroken-drop start line h),
        )
        (gathered_from fuel start (omega (arith, f)) (omega (arith, le)))

  length-file : length file ≡ suc (length line)
  length-file = length-append line (newline ∷ []) ∙ omega arith

  gathered_first :
      (fuel n : ℕ)
      → n ≡ length line
      → n < fuel
      → read_chunks utf8 line_to_evm_block (suc fuel) file (suc n) [] ≡ returned (some r)
  unfolding read_chunks
  gathered_first fuel n e f =
      let start = start_of (suc n) in
      let size = min (suc n) chunk_size in
      let whole : start + size ≡ suc n = omega arith in
      let end : drop (suc n) file ≡ [] =
        ap (λ m. drop m file) (ap suc e ∙ sym length-file) ∙ drop-length file in
      let slice : take size (drop start file) ++ [] ≡ drop start line ++ newline ∷ [] =
        sym (λ i. take size (drop start (append-nil file i)) ++ end i)
        ∙ ap (λ m. take size (drop start (file ++ [])) ++ drop m file) (sym whole)
        ∙ take-drop size start file [] (omega (arith, e, length-file))
        ∙ drop-append_le start line (newline ∷ []) (omega (arith, e)) in
      rw
        (
          slice,
          strip-append (drop start line),
          split_last-Unbroken (drop start line) (Unbroken-drop start line h),
        )
        (gathered_from fuel start (omega (arith, f)) (omega (arith, e)))

  pub read_last_complete_line-single :
      read_last_complete_line utf8 line_to_evm_block (line ++ newline ∷ []) ≡ returned (some r)
  unfolding read_last_complete_line
  read_last_complete_line-single =
      rw length-file (gathered_first (suc (length line)) (length line) refl (omega arith))
