-- ===== src/PseudoPeer/Lines.antt =====
-- `LineStream` of src/pseudo_peer/sources/hl_node/scan.rs. A stream is the list of the bytes behind
-- its cursor; errors of the operating system are not modelled. Whether bytes are UTF-8 is a test of
-- the standard library, here an argument.
use nanoreth.Prelude.{
  ℕ, zero, suc, ◌+◌, ◌<◌, ◌≡◌, ◌≢◌, refl, ap, ◌∙◌, Bool, true, false, List, [], ◌∷◌, ◌++◌, Option,
  none, some, arith, ◌==◌, if◌then◌else◌, length, All, Option-cases, inl, inr,
}

abbrev pub newline : ℕ
newline = 10

abbrev pub carriage_return : ℕ
carriage_return = 13

-- `read_until(b'\n')`: the line with its newline, or all there is.
unfoldable pub read_until : List ℕ → List ℕ × List ℕ
read_until [] = ([], [])
read_until (c ∷ cs) =
    let (line, rest) = read_until cs in if c == newline then (c ∷ [], cs) else (c ∷ line, rest)

unfoldable pub ends_with : ℕ → List ℕ → Bool
ends_with c [] = false
ends_with c (x ∷ []) = x == c
ends_with c (x ∷ y ∷ xs) = ends_with c (y ∷ xs)

-- `String::pop`.
unfoldable pub pop : List ℕ → List ℕ
pop [] = []
pop (x ∷ []) = []
pop (x ∷ y ∷ xs) = x ∷ pop (y ∷ xs)

module _ (utf8 : List ℕ → Bool) where
  -- The line, if there is one, and what is left of the stream.
  unfoldable pub next_line : List ℕ → Option (List ℕ) × List ℕ
  unfolding read_until ends_with pop
  next_line bytes =
      let (line, rest) = read_until bytes in
      if utf8 line
      then (if ends_with newline line
          then (some (pop (if ends_with carriage_return line then pop line else line)), rest)
          else (none, bytes))
      else (some [], rest)

abbrev pub Unbroken : List ℕ → Type 0
Unbroken = All (λ c. c ≢ newline)

read_until-line :
    (line rest : List ℕ)
    → Unbroken line
    → read_until (line ++ newline ∷ rest) ≡ (line ++ newline ∷ [], rest)
unfolding read_until
read_until-line [] rest h = refl
read_until-line (c ∷ line) rest h = ground (arith, read_until-line line rest h.1)

read_until-partial : (line : List ℕ) → Unbroken line → read_until line ≡ (line, [])
unfolding read_until
read_until-partial [] h = refl
read_until-partial (c ∷ line) h = ground (arith, read_until-partial line h.1)

pub ends_with-append : (c d : ℕ) (line : List ℕ) → ends_with c (line ++ d ∷ []) ≡ (d == c)
unfolding ends_with
ends_with-append c d [] = refl
ends_with-append c d (x ∷ []) = refl
ends_with-append c d (x ∷ y ∷ line) = ends_with-append c d (y ∷ line)

pub ends_with-Unbroken : (line : List ℕ) → Unbroken line → ends_with newline line ≡ false
unfolding ends_with
ends_with-Unbroken [] h = refl
ends_with-Unbroken (x ∷ []) h = ground arith
ends_with-Unbroken (x ∷ y ∷ line) h = ends_with-Unbroken (y ∷ line) h.1

pub pop-append : (c : ℕ) (line : List ℕ) → pop (line ++ c ∷ []) ≡ line
unfolding pop
pop-append c [] = refl
pop-append c (x ∷ []) = refl
pop-append c (x ∷ y ∷ line) = ap (◌∷◌ x) (pop-append c (y ∷ line))

module _ (utf8 : List ℕ → Bool) (line : List ℕ) (h : Unbroken line) where
  -- A complete line comes without its newline, and with its carriage return if it has one.
  pub next_line_complete :
      (rest : List ℕ)
      → utf8 (line ++ newline ∷ []) ≡ true
      → next_line utf8 (line ++ newline ∷ rest) ≡ (some line, rest)
  unfolding next_line
  next_line_complete rest valid = rw (
    read_until-line line rest h,
    valid,
    ends_with-append newline newline line,
    ends_with-append carriage_return newline line,
    pop-append newline line,
  )

  -- A line that is not complete is left in the stream, so that it is read whole later; but what is
  -- no UTF-8 yet, as after half of a character, is taken and lost.
  pub next_line-partial : next_line utf8 line ≡ (if utf8 line then (none, line) else (some [], []))
  unfolding next_line
  next_line-partial = rw (read_until-partial line h, ends_with-Unbroken line h) (ground arith)

abbrev push_line : List ℕ → List (List ℕ) × List ℕ → List (List ℕ) × List ℕ
push_line line (lines, left) = (line ∷ lines, left)

module _ (utf8 : List ℕ → Bool) where
  -- `while let Some(line) = line_stream.next()`, with fuel: the lines, and what is left.
  unfoldable pub take_lines : ℕ → List ℕ → List (List ℕ) × List ℕ
  take_lines zero bytes = ([], bytes)
  take_lines (suc fuel) bytes =
      let (next, rest) = next_line utf8 bytes in
      elim next [ none ↦ ([], rest) | some line ↦ push_line line (take_lines fuel rest) ]

  read_until-length :
      (bytes : List ℕ) → length (read_until bytes).0 + length (read_until bytes).1 ≡ length bytes
  unfolding read_until
  read_until-length [] = refl
  read_until-length (c ∷ cs) = ground (arith, read_until-length cs)

  read_until-pos : (c : ℕ) (cs : List ℕ) → 0 < length (read_until (c ∷ cs)).0
  unfolding read_until
  read_until-pos c cs = ground arith

  next_line-shorter :
      (bytes line : List ℕ)
      → utf8 [] ≡ true
      → (next_line utf8 bytes).0 ≡ some line
      → length (next_line utf8 bytes).1 < length bytes
  unfolding next_line
  next_line-shorter [] line empty e = absurd (unfold read_until ends_with in ground arith)
  next_line-shorter (c ∷ cs) line empty e =
      ground (arith, read_until-length (c ∷ cs), read_until-pos c cs)

  next_line-none :
      (bytes : List ℕ) → (next_line utf8 bytes).0 ≡ none → (next_line utf8 bytes).1 ≡ bytes
  unfolding next_line
  next_line-none bytes e = ground arith

  -- More fuel than bytes is enough: the loop has stopped because the stream gives no line.
  pub take_lines_ends :
      (fuel : ℕ) (bytes : List ℕ)
      → utf8 [] ≡ true
      → length bytes < fuel
      → (next_line utf8 (take_lines fuel bytes).1).0 ≡ none
  unfolding take_lines
  take_lines_ends zero bytes empty h = absurd (omega arith)
  take_lines_ends (suc fuel) bytes empty h = elim (Option-cases (next_line utf8 bytes).0) [
    | inl stop ↦
        rw (stop, take_lines) (ap (λ b. (next_line utf8 b).0) (next_line-none bytes stop) ∙ stop)
    | inr (line, go) ↦
        let shorter = next_line-shorter bytes line empty go in
        rw (go, take_lines) (take_lines_ends fuel (next_line utf8 bytes).1 empty (omega arith))
  ]
