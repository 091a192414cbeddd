-- ===== src/PseudoPeer/LastLine.antt =====
-- `read_last_complete_line` of src/pseudo_peer/sources/hl_node/file_ops.rs. A file is the list of its
-- bytes; whether bytes are UTF-8 and what a line parses to are arguments.
use nanoreth.Prelude.{
  ℕ, zero, suc, ◌-◌, Bool, List, [], ◌∷◌, ◌++◌, Option, none, some, ◌==◌, if◌then◌else◌, length,
  take, drop, min,
}
use nanoreth.PseudoPeer.Lines.{ends_with, newline, pop}

abbrev pub chunk_size : ℕ
chunk_size = 50000

-- `rposition` of a newline: what is before the last one, and what is after it.
abbrev split_here : ℕ → List ℕ → Option (List ℕ × List ℕ) → Option (List ℕ × List ℕ)
split_here c cs (some (before, after)) = some (c ∷ before, after)
split_here c cs none = if c == newline then some ([], cs) else none

unfoldable pub split_last : List ℕ → Option (List ℕ × List ℕ)
split_last [] = none
split_last (c ∷ cs) = split_here c cs (split_last cs)

unfoldable pub strip_newline : List ℕ → List ℕ
unfolding ends_with pop
strip_newline line = if ends_with newline line then pop line else line

-- What becomes of the search: it returns, panics on bytes that are not UTF-8, or runs out of fuel.
pub data Searched (R : Type 0) : Type 0 where
  returned : Option R → Searched R
  panicked unfinished : Searched R

module _ {R : Type 0} (utf8 : List ℕ → Bool) (line_to_evm_block : List ℕ → Option R) where
  -- `line_to_evm_block(str::from_utf8(line).unwrap()).ok()`.
  abbrev pub parse_utf8 : List ℕ → Searched R
  parse_utf8 line = if utf8 line then returned (line_to_evm_block line) else panicked

  -- The candidate's block, or on with what is before it.
  abbrev pub or_before : Searched R → (List ℕ → Searched R) → List ℕ → Searched R
  or_before (returned (some r)) go before = returned (some r)
  or_before (returned none) go before = go before
  or_before panicked go before = panicked
  or_before unfinished go before = unfinished

  abbrev pub after_split : (List ℕ → Searched R) → List ℕ → Option (List ℕ × List ℕ) → Searched R
  after_split go last_line none = go last_line
  after_split go last_line (some (before, candidate)) = or_before (parse_utf8 candidate) go before

  -- The loop from the position `pos` down; each turn reads the chunk before it.
  unfoldable pub read_chunks : ℕ → List ℕ → ℕ → List ℕ → Searched R
  unfolding split_last
  read_chunks zero file pos last_line = unfinished
  read_chunks (suc fuel) file zero last_line = parse_utf8 last_line
  read_chunks (suc fuel) file (suc before_pos) last_line =
      let pos = suc before_pos in
      let read_size = min pos chunk_size in
      let start = pos - read_size in
      let line = strip_newline (take read_size (drop start file) ++ last_line) in
      after_split (read_chunks fuel file start) line (split_last line)

  -- Fuel for one turn more than there are bytes.
  unfoldable pub read_last_complete_line : List ℕ → Searched R
  unfolding read_chunks
  read_last_complete_line file = read_chunks (suc (length file)) file (length file) []
