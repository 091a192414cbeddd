-- ===== src/Migrate/MdbxLaws.antt =====
-- What the migration of the header table makes of its rows.
use nanoreth.Prelude.{
  ok, err, ℕ, ◌≡◌, ◌≢◌, refl, sym, ap, ◌∙◌, Bool, true, false, List, [], ◌∷◌, Option, none, some,
  arith, All, Distinct, insert, lookup, Option-cases, inl, inr, ◌==◌, subst,
}
use mathlib.Core.Option.{some-injective}
use nanoreth.Primitives.{Alloy, EthereumReceipt, HlHeader}
use nanoreth.Migrate.{Formats, is_new_header, to_hl_header, using_old_header}
use nanoreth.Migrate.Mdbx.{
  Rows, export_old_headers, first, import_new_headers, last, migrate_mdbx, migrate_mdbx_inner,
  migration_disabled, row_is_old,
}

module _ {a : Alloy} (formats : Formats a)
    (receipts_by_block : ℕ → Option (List EthereumReceipt)) where
  -- The specification: each row by itself. An old header needs its receipts.
  abbrev converted_header : Option a.Header → Option (List EthereumReceipt) → Option (List ℕ)
  converted_header (some header) (some receipts) =
      some (formats.to_vec (to_hl_header receipts header))
  converted_header _ _ = none

  abbrev converted_row : ℕ → List ℕ → Option Bool → Option (List ℕ)
  converted_row n header (some true) =
      converted_header (formats.decompress header) (receipts_by_block n)
  converted_row n header (some false) = some header
  converted_row n header none = none

  abbrev cons_row : ℕ → Option (List ℕ) → Option Rows → Option Rows
  cons_row n (some header) (some rows) = some ((n, header) ∷ rows)
  cons_row n _ _ = none

  unfoldable pub convert_rows : Rows → Option Rows
  unfolding using_old_header to_hl_header
  convert_rows [] = some []
  convert_rows ((n, header) ∷ rows) =
      cons_row n (converted_row n header (using_old_header formats header)) (convert_rows rows)

  -- Importing headers of other heights leaves a row where it is.
  import_new_headers-cons :
      (n : ℕ) (header : List ℕ) (hs : List (ℕ × HlHeader a)) (rows : Rows)
      → All (λ h. h.0 ≢ n) hs
      → import_new_headers formats receipts_by_block hs ((n, header) ∷ rows)
        ≡ (n, header) ∷ import_new_headers formats receipts_by_block hs rows
  unfolding import_new_headers insert
  import_new_headers-cons n header [] rows h = refl
  import_new_headers-cons n header ((m, x) ∷ hs) rows h =
      let other : n == m ≡ false = ground (arith, h.0) in
      rw other (import_new_headers-cons n header hs (insert m (formats.to_vec x) rows) h.1)

  -- What is exported, and what the import makes of it, for rows that convert.
  unfoldable Migrates : Rows → Rows → Type 0
  Migrates rows rows' =
      (hs : List (ℕ × HlHeader a)) × (export_old_headers formats receipts_by_block rows ≡ ok hs)
      × (import_new_headers formats receipts_by_block hs rows ≡ rows')
      × ((n : ℕ) → lookup n rows ≡ none → All (λ h. h.0 ≢ n) hs)

  row-Migrates :
      (n : ℕ) (header : List ℕ) (rows rows' : Rows) (old : Option Bool)
      (decompressed : Option a.Header) (receipts : Option (List EthereumReceipt)) (header' : List ℕ)
      → using_old_header formats header ≡ old
      → formats.decompress header ≡ decompressed
      → receipts_by_block n ≡ receipts
      → converted_row n header old ≡ some header'
      → lookup n rows ≡ none
      → Migrates rows rows'
      → Migrates ((n, header) ∷ rows) ((n, header') ∷ rows')
  unfolding Migrates export_old_headers import_new_headers insert lookup
  row-Migrates n header rows rows' none d r header' e f g h fresh (hs, p, q, s) =
      absurd (ground (arith, h))
  row-Migrates n header rows rows' (some false) d r header' e f g h fresh (hs, p, q, s) = (
    hs,
    rw (e, p) refl,
    import_new_headers-cons n header hs rows (s n fresh) ∙ (λ i. (n, some-injective _ _ h i) ∷ q i),
    λ m k. s m (ground (arith, k)),
  )
  row-Migrates n header rows rows' (some true) (some d) (some r) header' e f g h fresh
        (hs, p, q, s) =
      (
        (n, to_hl_header r d) ∷ hs,
        rw (e, p, f, g) refl,
        (let same : n == n ≡ true = ground arith in
            let new : formats.to_vec (to_hl_header r d) ≡ header' =
              some-injective _ _ (sym (λ i. converted_header (f i) (g i)) ∙ h) in
            rw (same, new)
              (import_new_headers-cons n header' hs rows (s n fresh) ∙ ap (◌∷◌ (n, header')) q)),
        λ m k. (ground (arith, k), s m (ground (arith, k))),
      )
  row-Migrates n header rows rows' (some true) none r header' e f g h fresh m =
      absurd (ground (arith, h, f, g))
  row-Migrates n header rows rows' (some true) (some d) none header' e f g h fresh m =
      absurd (ground (arith, h, f, g))

  convert_rows-Migrates :
      (rows rows' : Rows) → Distinct rows → convert_rows rows ≡ some rows' → Migrates rows rows'
  unfolding convert_rows Migrates export_old_headers import_new_headers
  convert_rows-Migrates [] rows' d e = ([], refl, some-injective _ _ e, λ n k. tt)
  convert_rows-Migrates ((n, header) ∷ rows) rows' d e =
      elim (Option-cases (converted_row n header (using_old_header formats header))) [
        | inl f ↦ absurd (ground (arith, e, f))
        | inr (header', f) ↦ elim (Option-cases (convert_rows rows)) [
          | inl g ↦ absurd (ground (arith, e, f, g))
          | inr (later, g) ↦
              let whole : (n, header') ∷ later ≡ rows' =
                some-injective _ _ (sym (λ i. cons_row n (f i) (g i)) ∙ e) in
              subst (Migrates ((n, header) ∷ rows)) whole (
                row-Migrates n header rows later (using_old_header formats header)
                  (formats.decompress header) (receipts_by_block n) header' refl refl refl f d.0
                  (convert_rows-Migrates rows later d.1 g))
        ]
      ]

  -- No row is old any more.
  abbrev NotOld : ℕ × List ℕ → Type 0
  NotOld row = using_old_header formats row.1 ≡ some false

  to_vec-NotOld : (n : ℕ) (h : HlHeader a) → NotOld (n, formats.to_vec h)
  unfolding using_old_header is_new_header
  to_vec-NotOld n h = rw (formats.is_old_header-to_vec h, formats.from_slice-to_vec h) refl

  converted_row-NotOld :
      (n : ℕ) (header header' : List ℕ) (old : Option Bool) (d : Option a.Header)
      (r : Option (List EthereumReceipt))
      → using_old_header formats header ≡ old
      → formats.decompress header ≡ d
      → receipts_by_block n ≡ r
      → converted_row n header old ≡ some header'
      → NotOld (n, header')
  converted_row-NotOld n header header' none d r e f g h = absurd (ground (arith, h))
  converted_row-NotOld n header header' (some false) d r e f g h =
      subst (λ x. NotOld (n, x)) (some-injective _ _ h) e
  converted_row-NotOld n header header' (some true) none r e f g h =
      absurd (ground (arith, h, f, g))
  converted_row-NotOld n header header' (some true) (some d) none e f g h =
      absurd (ground (arith, h, f, g))
  converted_row-NotOld n header header' (some true) (some d) (some r) e f g h =
      subst (λ x. NotOld (n, x)) (some-injective _ _ (sym (λ i. converted_header (f i) (g i)) ∙ h))
        (to_vec-NotOld n (to_hl_header r d))

  convert_rows-NotOld : (rows rows' : Rows) → convert_rows rows ≡ some rows' → All NotOld rows'
  unfolding convert_rows
  convert_rows-NotOld [] rows' e = subst (All NotOld) (some-injective _ _ e) tt
  convert_rows-NotOld ((n, header) ∷ rows) rows' e =
      elim (Option-cases (converted_row n header (using_old_header formats header))) [
        | inl f ↦ absurd (ground (arith, e, f))
        | inr (header', f) ↦ elim (Option-cases (convert_rows rows)) [
          | inl g ↦ absurd (ground (arith, e, f, g))
          | inr (later, g) ↦
              let whole : (n, header') ∷ later ≡ rows' =
                some-injective _ _ (sym (λ i. cons_row n (f i) (g i)) ∙ e) in
              subst (All NotOld) whole (
                converted_row-NotOld n header header' (using_old_header formats header)
                    (formats.decompress header) (receipts_by_block n) refl refl refl f,
                convert_rows-NotOld rows later g,
              )
        ]
      ]

  first-NotOld :
      (rows : Rows) → All NotOld rows → row_is_old formats receipts_by_block (first rows) ≡ ok false
  unfolding row_is_old
  first-NotOld [] h = refl
  first-NotOld (row ∷ rows) h = rw (h.0) refl

  last-NotOld :
      (rows : Rows) → All NotOld rows → row_is_old formats receipts_by_block (last rows) ≡ ok false
  unfolding row_is_old
  last-NotOld [] h = refl
  last-NotOld (row ∷ []) h = rw (h.0) refl
  last-NotOld (row ∷ next ∷ rows) h = last-NotOld (next ∷ rows) h.1

  -- When the first header of the table is old and migration is allowed, the detour through the
  -- temporary file has the effect of converting each row by itself: old headers get the bloom
  -- filter and the count that their receipts give, new ones stay, and the result needs no
  -- migration. The rows have different heights, and every old header decompresses and has receipts.
  pub migrate_mdbx-convert_rows :
      (rows rows' : Rows)
      → Distinct rows
      → convert_rows rows ≡ some rows'
      → row_is_old formats receipts_by_block (first rows) ≡ ok true
      → (last_is_old : Bool) → row_is_old formats receipts_by_block (last rows) ≡ ok last_is_old
      → (migrate_mdbx formats receipts_by_block true rows ≡ ok (true, rows'))
        × (migrate_mdbx formats receipts_by_block false rows ≡ err migration_disabled)
        × ((enabled : Bool)
            → migrate_mdbx formats receipts_by_block enabled rows' ≡ ok (false, rows'))
  unfolding migrate_mdbx migrate_mdbx_inner Migrates
  migrate_mdbx-convert_rows rows rows' d e f last_is_old g =
      let (hs, p, q, _) = convert_rows-Migrates rows rows' d e in
      let new = convert_rows-NotOld rows rows' e in
      (
        rw (f, g, p, q) refl,
        rw (f, g) refl,
        λ enabled. rw (first-NotOld rows' new, last-NotOld rows' new) refl,
      )
