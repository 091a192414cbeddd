-- ===== src/PseudoPeer/LineText.antt =====
-- A file of complete lines with an incomplete one after them, as its stream of lines reads it.
use nanoreth.Prelude.{
  ℕ, zero, suc, ◌+◌, ◌<◌, ◌≤◌, ◌≡◌, refl, ap, ◌∙◌, Bool, true, List, [], ◌∷◌, ◌++◌, arith, none,
  length, length-append, drop, All,
}
use nanoreth.PseudoPeer.Lines.{
  Unbroken, newline, next_line, next_line_complete, next_line-partial, take_lines,
}

-- The bytes of the lines, each with its newline, and what follows them.
abbrev pub text : List (List ℕ) → List ℕ → List ℕ
text [] rest = rest
text (line ∷ lines) rest = line ++ newline ∷ text lines rest

abbrev pub size : List (List ℕ) → ℕ
size [] = 0
size (line ∷ lines) = length line + suc (size lines)

pub text-append :
    (xs ys : List (List ℕ)) (rest : List ℕ) → text (xs ++ ys) rest ≡ text xs (text ys rest)
text-append [] ys rest = refl
text-append (line ∷ xs) ys rest = ap (λ t. line ++ newline ∷ t) (text-append xs ys rest)

pub size-append : (xs ys : List (List ℕ)) → size (xs ++ ys) ≡ size xs + size ys
size-append [] ys = omega arith
size-append (line ∷ xs) ys = omega (arith, size-append xs ys)

pub length-text :
    (lines : List (List ℕ)) (rest : List ℕ) → length (text lines rest) ≡ size lines + length rest
length-text [] rest = omega arith
length-text (line ∷ lines) rest =
    omega (arith, length-append line (newline ∷ text lines rest), length-text lines rest)

drop_past :
    (line : List ℕ) (n : ℕ) (rest : List ℕ) → drop (length line + n) (line ++ rest) ≡ drop n rest
drop_past [] n rest = ap (λ m. drop m rest) (omega arith)
drop_past (c ∷ line) n rest =
    let next : length (c ∷ line) + n ≡ suc (length line + n) = omega arith in
    rw next (drop_past line n rest)

pub drop-text : (lines : List (List ℕ)) (rest : List ℕ) → drop (size lines) (text lines rest) ≡ rest
drop-text [] rest = refl
drop-text (line ∷ lines) rest =
    drop_past line (suc (size lines)) (newline ∷ text lines rest) ∙ drop-text lines rest

pub lines_le_text :
    (lines : List (List ℕ)) (rest : List ℕ) → length lines ≤ length (text lines rest)
lines_le_text [] rest = omega arith
lines_le_text (line ∷ lines) rest =
    omega (arith, length-append line (newline ∷ text lines rest), lines_le_text lines rest)

module _ (utf8 : List ℕ → Bool) where
  -- A line without a newline inside, which is UTF-8.
  abbrev pub IsLine : List ℕ → Type 0
  IsLine line = Unbroken line × (utf8 (line ++ newline ∷ []) ≡ true)

  -- The start of a line, which is UTF-8 so far.
  abbrev pub IsPartial : List ℕ → Type 0
  IsPartial line = Unbroken line × (utf8 line ≡ true)

  -- The stream gives the complete lines, and leaves the incomplete one.
  pub take_lines-text :
      (fuel : ℕ) (lines : List (List ℕ)) (partial : List ℕ)
      → length lines < fuel
      → All IsLine lines
      → IsPartial partial
      → take_lines utf8 fuel (text lines partial) ≡ (lines, partial)
  unfolding take_lines
  take_lines-text zero lines partial h k p = absurd (omega (arith, h))
  take_lines-text (suc fuel) [] partial h k p =
      let e : next_line utf8 partial ≡ (none, partial) =
        next_line-partial utf8 partial p.0 ∙ rw (p.1) refl in
      rw (ap (λ r. r.0) e, ap (λ r. r.1) e, take_lines) refl
  take_lines-text (suc fuel) (line ∷ lines) partial h k p =
      let e = next_line_complete utf8 line k.0.0 (text lines partial) k.0.1 in
      let rest = take_lines-text fuel lines partial (omega (arith, h)) k.1 p in
      rw (ap (λ r. r.0) e, ap (λ r. r.1) e, take_lines, rest) refl
