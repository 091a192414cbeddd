-- ===== src/Tests/Ingest.antt =====
-- Runs of the backfill and of the ingest loop, and of the search for the last line of a file.
use nanoreth.Prelude.{
  all, ltb, Bool, ℕ, ◌≡◌, inr, refl, List, [], ◌∷◌, ◌++◌, Option, none, some, arith, length, ◌==◌,
  if◌then◌else◌,
}
use nanoreth.Types.Compat.{BlockAndReceipts, number}
use nanoreth.PseudoPeer.Caches.{LruMap, RangeInclusiveMap}
use nanoreth.PseudoPeer.Lines.{newline}
use nanoreth.PseudoPeer.Ingest.{Ingest, ingest_turn}
use nanoreth.PseudoPeer.LineText.{text}
use nanoreth.PseudoPeer.IngestLaws.{Turned, ingest_turn-HasRead}
use nanoreth.PseudoPeer.LastLine.{panicked, read_last_complete_line, returned}
use nanoreth.PseudoPeer.LastLineLaws.{read_last_complete_line-last, read_last_complete_line-partial}
use nanoreth.Tests.Samples.{alloy, block_at, lru_of, ranges_of}
use nanoreth.Tests.PseudoPeer.{empty_cache}

abbrev blocks : LruMap (BlockAndReceipts alloy)
blocks = lru_of (BlockAndReceipts alloy)

abbrev paths : RangeInclusiveMap ℕ
paths = ranges_of ℕ

abbrev path_of : ℕ → ℕ
path_of dt = dt

-- Bytes of ASCII, and lines of one byte that spells the height of a block.
abbrev ascii : List ℕ → Bool
ascii bytes = all (λ b. ltb b 128) bytes

abbrev parse : List ℕ → Option (BlockAndReceipts alloy)
parse (n ∷ []) = some (block_at n)
parse _ = none

abbrev begun : Ingest alloy ascii parse blocks paths
begun = record { next_height = 5; dt = 3600; line_stream = none; cache = empty_cache }

abbrev written : List (List ℕ)
written = (5 ∷ []) ∷ (65 ∷ 66 ∷ []) ∷ (6 ∷ []) ∷ []

-- The first line of the file that is written after the first look at it was begun before it.
abbrev early_files : ℕ → Option (List ℕ)
early_files path = if path == 3600 then some (text written (7 ∷ [])) else none

abbrev late_files : ℕ → Option (List ℕ)
late_files path =
    if path == 3600
    then some (text (written ++ (7 ∷ []) ∷ []) [])
    else some (text ((8 ∷ []) ∷ []) [])

ingest_turn-HasRead_example :
    Turned alloy ascii parse blocks paths path_of written
      (written ++ (7 ∷ []) ∷ [])
      3600
      (ingest_turn alloy ascii parse blocks paths path_of early_files late_files 8000 begun)
unfolding number
ingest_turn-HasRead_example =
    ingest_turn-HasRead alloy ascii parse blocks paths path_of early_files late_files 8000 []
      written ((7 ∷ []) ∷ []) (7 ∷ []) [] begun
      (
        ((ground arith, tt), refl),
        (((ground arith, (ground arith, tt)), refl), (((ground arith, tt), refl), tt)),
      )
      (((ground arith, tt), refl), tt) (omega arith, (omega arith, tt)) (omega arith, tt)
      ((ground arith, tt), refl) (tt, refl) (inr (refl, refl)) refl refl

read_last_complete_line-last_example :
    read_last_complete_line ascii
      (λ line. some line)
      ((123 ∷ 125 ∷ newline ∷ 97 ∷ 98 ∷ []) ++ newline ∷ [])
    ≡ returned (some (97 ∷ 98 ∷ []))
read_last_complete_line-last_example =
    read_last_complete_line-last ascii (λ line. some line) (some (123 ∷ 125 ∷ [])) 97 (98 ∷ [])
      (97 ∷ 98 ∷ []) (ground arith, (ground arith, tt)) refl refl

-- Lines of three bytes parse.
abbrev of_three : List ℕ → Option (List ℕ)
of_three line = if length line == 3 then some line else none

read_last_complete_line-partial_example :
    read_last_complete_line ascii of_three (1 ∷ 2 ∷ 3 ∷ newline ∷ 4 ∷ 5 ∷ 6 ∷ newline ∷ 7 ∷ []) ≡ (
      if ascii (7 ∷ [])
      then (if ascii (1 ∷ 2 ∷ 3 ∷ newline ∷ 4 ∷ 5 ∷ 6 ∷ [])
          then returned (of_three (1 ∷ 2 ∷ 3 ∷ newline ∷ 4 ∷ 5 ∷ 6 ∷ []))
          else panicked)
      else panicked)
read_last_complete_line-partial_example =
    read_last_complete_line-partial ascii of_three (1 ∷ 2 ∷ 3 ∷ newline ∷ 4 ∷ 5 ∷ 6 ∷ []) 7 []
      (ground arith, tt) (omega arith) refl
