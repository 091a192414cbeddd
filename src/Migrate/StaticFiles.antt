-- ===== src/Migrate/StaticFiles.antt =====
-- `migrate_single_static_file` of src/node/migrate.rs.
use nanoreth.Prelude.{
  ℕ, zero, suc, ◌+◌, ◌-◌, ◌^◌, List, [], ◌∷◌, ◌++◌, Option, none, some, ltb, ◌==◌, if◌then◌else◌,
  min, add_u64, sub_u64, length,
}
use nanoreth.Primitives.{Alloy, EthereumReceipt, HlHeader}
use nanoreth.Migrate.{Formats, to_hl_header}

-- Rust's `Bound` and `to_range`.
pub data Bound : Type 0 where
  included excluded : ℕ → Bound
  unbounded : Bound

abbrev pub start_of : Bound → ℕ
start_of (included v) = v
start_of (excluded v) = add_u64 v 1
start_of unbounded = 0

abbrev pub end_of : Bound → ℕ
end_of (included v) = add_u64 v 1
end_of (excluded v) = v
end_of unbounded = 2 ^ 64 - 1

unfoldable pub to_range : Bound → Bound → ℕ × ℕ
to_range start end = (start_of start, end_of end)

abbrev pub chunk_size : ℕ
chunk_size = 50000

-- `(start..=end).step_by(CHUNK_SIZE)`, each with the end of its chunk. The fuel bounds the number of
-- the chunks.
unfoldable pub chunk_bounds : ℕ → ℕ → ℕ → List (ℕ × ℕ)
chunk_bounds zero chunk end = []
chunk_bounds (suc fuel) chunk end =
    let rest = chunk_bounds fuel (chunk + chunk_size) end in
    if ltb end chunk then [] else (chunk, min (sub_u64 (add_u64 chunk chunk_size) 1) end) ∷ rest

-- A header's columns in the file, and what is appended for it.
pub record Columns : Type 0 where
  pub header : List ℕ
  pub difficulty : List ℕ
  pub hash : List ℕ

pub record Appended (a : Alloy) : Type 0 where
  pub header : HlHeader a
  pub difficulty : ℕ
  pub hash : ℕ

abbrev pub cons_some {ℓ} : {A : Type ℓ} → Option A → Option (List A) → Option (List A)
cons_some (some x) (some xs) = some (x ∷ xs)
cons_some _ _ = none

abbrev pub append_some {ℓ} : {A : Type ℓ} → Option (List A) → Option (List A) → Option (List A)
append_some (some xs) (some ys) = some (xs ++ ys)
append_some _ _ = none

module _ {a : Alloy} (formats : Formats a) (difficulty_of hash_of : List ℕ → Option ℕ)
    (fetch_range : ℕ × ℕ → List Columns)
    (receipts_by_block_range : ℕ → ℕ → List (List EthereumReceipt)) where
  -- `none` is the panic of an `unwrap`.
  abbrev pub assemble_columns :
      List EthereumReceipt → Option a.Header → Option ℕ → Option ℕ → Option (Appended a)
  assemble_columns receipts (some header) (some difficulty) (some hash) =
      some (record { header = to_hl_header receipts header; difficulty = difficulty; hash = hash })
  assemble_columns receipts _ _ _ = none

  unfoldable pub new_header : Columns → List EthereumReceipt → Option (Appended a)
  unfolding to_hl_header
  new_header columns receipts =
      assemble_columns receipts (formats.decompress columns.header)
        (difficulty_of columns.difficulty) (hash_of columns.hash)

  unfoldable pub old_headers_range : ℕ → ℕ → List Columns
  unfolding to_range
  old_headers_range start end = fetch_range (to_range (included start) (included end))

  unfoldable pub new_headers :
      List Columns → List (List EthereumReceipt) → Option (List (Appended a))
  unfolding new_header
  new_headers (c ∷ cs) (r ∷ rs) = cons_some (new_header c r) (new_headers cs rs)
  new_headers _ _ = some []

  -- One turn of the loop: what it appends, or `none` when it panics.
  unfoldable pub migrate_chunk : ℕ × ℕ → Option (List (Appended a))
  unfolding new_headers old_headers_range
  migrate_chunk (start, end) =
      let headers = old_headers_range start end in
      let receipts = receipts_by_block_range start end in
      if length headers == length receipts then new_headers headers receipts else none

  unfoldable pub migrate_chunks : List (ℕ × ℕ) → Option (List (Appended a))
  unfolding migrate_chunk
  migrate_chunks [] = some []
  migrate_chunks (chunk ∷ chunks) = append_some (migrate_chunk chunk) (migrate_chunks chunks)

  -- The chunks of a range are no more than its blocks.
  unfoldable pub migrate_single_static_file : ℕ × ℕ → Option (List (Appended a))
  unfolding migrate_chunks chunk_bounds
  migrate_single_static_file (start, end) =
      migrate_chunks (chunk_bounds (end + 1 - start) start end)
