-- ===== src/Tests/Migrate.antt =====
-- Runs of the migration: a table with one header in the old format and one in the new.
use nanoreth.Prelude.{
  ℕ, ◌≡◌, ◌+◌, ◌-◌, refl, Bool, true, false, List, [], ◌∷◌, ◌++◌, Option, none, some, ok, err, map,
  arith, count_up, Distinct, lookup,
}
use nanoreth.Primitives.{EthereumReceipt, HlHeader, from_ethereum_header}
use nanoreth.Types.RoundTrip.{node_receipts}
use nanoreth.Migrate.{
  Formats, genesis_prefix, is_new_header, is_old_header, to_hl_header, using_old_header,
}
use nanoreth.Migrate.HeaderLaws.{to_hl_header-to_reth_block}
use nanoreth.Migrate.Mdbx.{Rows, migrate_mdbx, migration_disabled, row_is_old}
use nanoreth.Migrate.MdbxLaws.{convert_rows, migrate_mdbx-convert_rows}
use nanoreth.Migrate.StaticFiles.{Columns, migrate_single_static_file, new_header}
use nanoreth.Migrate.StaticFileLaws.{collect_some, migrate_single_static_file-collect}
use nanoreth.Tests.Samples.{a_log, alloy, block_at, cold, receipt_of}
use nanoreth.Tests.Types.{senders, stored, stored_block}

to_hl_header-to_reth_block_example :
    to_hl_header (node_receipts (block_at 5)) (5, 999) ≡ stored_block.header
to_hl_header-to_reth_block_example =
    to_hl_header-to_reth_block alloy (block_at 5) 999 (cold []) (cold []) stored_block senders
      stored (refl, tt) (ground arith, tt)

-- A new header is five numbers, an old one starts as that of a genesis.
abbrev to_vec : HlHeader alloy → List ℕ
to_vec h =
    7 ∷ h.inner.0 ∷ h.inner.1 ∷ h.extras.logs_bloom_with_system_txs ∷ h.extras.system_tx_count ∷ []

abbrev from_slice : List ℕ → Option (HlHeader alloy)
from_slice (tag ∷ number ∷ parent ∷ bloom ∷ count ∷ []) = some (record {
  inner = (number, parent);
  extras = record { logs_bloom_with_system_txs = bloom; system_tx_count = count };
})
from_slice _ = none

to_vec-new : (h : HlHeader alloy) → is_old_header (to_vec h) ≡ false
unfolding is_old_header
to_vec-new h = refl

abbrev formats : Formats alloy
formats = record {
  decompress = λ bytes. some (4, 998);
  from_slice = from_slice;
  to_vec = to_vec;
  from_slice-to_vec = λ h. refl;
  is_old_header-to_vec = to_vec-new;
}

abbrev receipts : List EthereumReceipt
receipts = receipt_of 0 (a_log ∷ []) ∷ receipt_of 21000 (a_log ∷ []) ∷ []

abbrev old_row : List ℕ
old_row = genesis_prefix ++ count_up 0 64

abbrev rows : Rows
rows = (4, old_row) ∷ (5, 7 ∷ 5 ∷ 999 ∷ 0 ∷ 0 ∷ []) ∷ []

abbrev new_rows : Rows
new_rows = (4, 7 ∷ 4 ∷ 998 ∷ 2 ∷ 1 ∷ []) ∷ (5, 7 ∷ 5 ∷ 999 ∷ 0 ∷ 0 ∷ []) ∷ []

distinct : Distinct rows
unfolding lookup
distinct = (refl, (refl, tt))

converted : convert_rows formats (λ n. some receipts) rows ≡ some new_rows
unfolding convert_rows using_old_header is_old_header is_new_header to_hl_header
    from_ethereum_header
converted = refl

first_is_old : row_is_old formats (λ n. some receipts) (some old_row) ≡ ok true
unfolding row_is_old using_old_header is_old_header is_new_header
first_is_old = refl

last_is_new : row_is_old formats (λ n. some receipts) (some (7 ∷ 5 ∷ 999 ∷ 0 ∷ 0 ∷ [])) ≡ ok false
unfolding row_is_old using_old_header is_old_header is_new_header
last_is_new = refl

migrate_mdbx-convert_rows_example :
    (migrate_mdbx formats (λ n. some receipts) true rows ≡ ok (true, new_rows))
    × (migrate_mdbx formats (λ n. some receipts) false rows ≡ err migration_disabled)
    × ((enabled : Bool)
        → migrate_mdbx formats (λ n. some receipts) enabled new_rows ≡ ok (false, new_rows))
migrate_mdbx-convert_rows_example =
    migrate_mdbx-convert_rows formats (λ n. some receipts) rows new_rows distinct converted
      first_is_old false last_is_new

abbrev columns : Columns
columns = record { header = old_row; difficulty = []; hash = [] }

abbrev one : List ℕ → Option ℕ
one bytes = some 1

abbrev fetch_range : ℕ × ℕ → List Columns
fetch_range r = map (λ n. columns) (count_up r.0 (r.1 - r.0))

abbrev receipts_by_block_range : ℕ → ℕ → List (List EthereumReceipt)
receipts_by_block_range start end = map (λ n. receipts) (count_up start (end + 1 - start))

migrate_single_static_file-collect_example :
    migrate_single_static_file formats one one fetch_range receipts_by_block_range (0, 50001)
    ≡ collect_some
        (λ n. new_header formats one one fetch_range receipts_by_block_range columns receipts)
        (count_up 0 (50001 + 1 - 0))
migrate_single_static_file-collect_example =
    migrate_single_static_file-collect formats one one fetch_range receipts_by_block_range
      (λ n. columns) (λ n. receipts) (λ start end. refl) (λ start end. refl) 0 50001 (omega arith)
      (omega arith)
