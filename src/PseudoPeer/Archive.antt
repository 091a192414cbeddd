-- ===== src/PseudoPeer/Archive.antt =====
-- src/pseudo_peer/sources/local.rs and s3.rs: block sources over a tree of files, two levels of
-- directories with the files below them. What is listed and read, the numbers in the names and the
-- decompressed file are arguments.
use nanoreth.Prelude.{Result, ok, err, ℕ, Bool, true, false, List, [], ◌∷◌, Option, none, some}
use nanoreth.PseudoPeer.Batches.{name_with_largest_number, rmp_path}

infixl 5 ◌>>=◌
abbrev ◌>>=◌ {ℓ κ} : {A : Type ℓ} {B : Type κ} → Option A → (A → Option B) → Option B
none >>= f = none
some x >>= f = f x

module _ {P : Type 0} (files : P → Bool → Option (List P)) (number_of : Bool → P → Option ℕ) where
  -- `none` where the listing fails, or nothing listed has a number.
  unfoldable pub pick_path_with_highest_number : P → Bool → Option (ℕ × P)
  unfolding name_with_largest_number
  pick_path_with_highest_number dir is_dir = do
    listed ← files dir is_dir
    name_with_largest_number (number_of is_dir) listed

  unfoldable pub find_latest_block_number : P → Option ℕ
  unfolding pick_path_with_highest_number
  find_latest_block_number root = do
    first_level ← pick_path_with_highest_number root true
    second_level ← pick_path_with_highest_number first_level.1 true
    third_level ← pick_path_with_highest_number second_level.1 false
    some third_level.0

pub data ArchiveError : Type 0 where
  not_read not_decoded panicked : ArchiveError

module _ {Bytes B : Type 0} (read : ℕ × (ℕ × ℕ) → Option Bytes)
    (from_read : Bytes → Option (List B)) where
  -- `blocks[0]` panics on an empty list.
  abbrev first_of : Option (List B) → Result ArchiveError B
  first_of none = err not_decoded
  first_of (some []) = err panicked
  first_of (some (block ∷ blocks)) = ok block

  abbrev decoded : Option Bytes → Result ArchiveError B
  decoded none = err not_read
  decoded (some bytes) = first_of (from_read bytes)

  unfoldable pub collect_block : ℕ → Result ArchiveError B
  unfolding rmp_path
  collect_block height = decoded (read (rmp_path height))
