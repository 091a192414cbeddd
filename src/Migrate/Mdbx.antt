-- ===== src/Migrate/Mdbx.antt =====
-- `MigratorMdbx` of src/node/migrate.rs. The temporary file is the list of the records in it.
use nanoreth.Prelude.{
  Result, ok, err, ℕ, Bool, true, false, ◌||◌, List, [], ◌∷◌, Option, none, some, if◌then◌else◌,
  insert,
}
use nanoreth.Primitives.{Alloy, EthereumReceipt, HlHeader}
use nanoreth.Migrate.{Formats, to_hl_header, using_old_header}

-- How a migration fails: the panic of an assertion or of an `expect`, or the refusal.
pub data MigrateError : Type 0 where
  panicked migration_disabled : MigrateError

infixl 5 ◌>>=◌
abbrev pub ◌>>=◌ {ℓ κ ι} :
    {E : Type ℓ} {A : Type κ} {B : Type ι} → Result E A → (A → Result E B) → Result E B
ok a >>= f = f a
err e >>= f = err e

abbrev pub or_panic {ℓ} : {A : Type ℓ} → Option A → Result MigrateError A
or_panic none = err panicked
or_panic (some x) = ok x

abbrev pub Rows : Type 0
Rows = List (ℕ × List ℕ)

abbrev pub first : Rows → Option (List ℕ)
first [] = none
first (row ∷ rows) = some row.1

abbrev pub last : Rows → Option (List ℕ)
last [] = none
last (row ∷ []) = some row.1
last (row ∷ next ∷ rows) = last (next ∷ rows)

module _ {a : Alloy} (formats : Formats a)
    (receipts_by_block : ℕ → Option (List EthereumReceipt)) where
  unfoldable pub row_is_old : Option (List ℕ) → Result MigrateError Bool
  unfolding using_old_header
  row_is_old none = ok false
  row_is_old (some header) = or_panic (using_old_header formats header)

  -- One row of `export_old_headers`; one that does not decompress is passed over.
  abbrev pub export_decompressed :
      ℕ → Option a.Header → List (ℕ × HlHeader a) → Result MigrateError (List (ℕ × HlHeader a))
  export_decompressed number none rest = ok rest
  export_decompressed number (some header) rest = do
    receipts ← or_panic (receipts_by_block number)
    ok ((number, to_hl_header receipts header) ∷ rest)

  abbrev pub export_row :
      ℕ → List ℕ → Bool → List (ℕ × HlHeader a) → Result MigrateError (List (ℕ × HlHeader a))
  export_row number header false rest = ok rest
  export_row number header true rest = export_decompressed number (formats.decompress header) rest

  unfoldable pub export_old_headers : Rows → Result MigrateError (List (ℕ × HlHeader a))
  unfolding using_old_header to_hl_header
  export_old_headers [] = ok []
  export_old_headers ((number, header) ∷ rows) = do
    old ← or_panic (using_old_header formats header)
    rest ← export_old_headers rows
    export_row number header old rest

  -- `upsert` of each record.
  unfoldable pub import_new_headers : List (ℕ × HlHeader a) → Rows → Rows
  import_new_headers [] rows = rows
  import_new_headers ((number, header) ∷ headers) rows =
      import_new_headers headers (insert number (formats.to_vec header) rows)

  unfoldable pub migrate_mdbx_inner : Rows → Result MigrateError Rows
  unfolding export_old_headers import_new_headers
  migrate_mdbx_inner rows = do
    headers ← export_old_headers rows
    ok (import_new_headers headers rows)

  -- Whether it migrated, and the rows then. `enabled` is `EXPERIMENTAL_MIGRATE_DB`.
  unfoldable pub migrate_mdbx : Bool → Rows → Result MigrateError (Bool × Rows)
  unfolding row_is_old migrate_mdbx_inner
  migrate_mdbx enabled rows = do
    first_is_old ← row_is_old (first rows)
    last_is_old ← row_is_old (last rows)
    if first_is_old || last_is_old
        then (if enabled
            then (migrate_mdbx_inner rows >>= λ migrated. ok (true, migrated))
            else err migration_disabled)
        else ok (false, rows)
