-- ===== src/Migrate/StaticFileLaws.antt =====
-- The chunks of a static file's migration cover it.
use nanoreth.Prelude.{
  ℕ, zero, suc, ◌+◌, ◌-◌, ◌^◌, ◌%◌, ◌≤◌, ◌<◌, ◌≡◌, refl, sym, ap, ◌∙◌, List, [], ◌∷◌, ◌++◌, map,
  Option, none, some, arith, length, length-map, count_up, ltb, true, ◌==◌, min, Bool-cases, inl,
  inr,
}
use mathlib.Core.List.{append-nil}
use nanoreth.Primitives.{Alloy, EthereumReceipt}
use nanoreth.Migrate.{Formats}
use nanoreth.Migrate.StaticFiles.{
  Appended, Columns, append_some, chunk_bounds, cons_some, migrate_chunk, migrate_chunks,
  migrate_single_static_file, new_header, new_headers, old_headers_range, to_range,
}

count_up-append :
    (start n m : ℕ) → count_up start (n + m) ≡ count_up start n ++ count_up (start + n) m
count_up-append start zero m =
    let none_more : 0 + m ≡ m = omega arith in
    let here : start + 0 ≡ start = omega arith in rw (none_more, here) refl
count_up-append start (suc n) m =
    let more : suc n + m ≡ suc (n + m) = omega arith in
    let next : start + suc n ≡ start + 1 + n = omega arith in
    rw (more, next) (ap (◌∷◌ start) (count_up-append (start + 1) n m))

length-count_up : (start n : ℕ) → length (count_up start n) ≡ n
length-count_up start zero = refl
length-count_up start (suc n) = ap suc (length-count_up (start + 1) n)

-- The first chunk of a range, and what is left of it.
split_range :
    (chunk end : ℕ)
    → chunk ≤ end
    → count_up chunk (end + 1 - chunk)
      ≡ count_up chunk (min (chunk + 49999) end + 1 - chunk)
        ++ count_up (chunk + 50000) (end + 1 - (chunk + 50000))
split_range chunk end h = elim (Bool-cases (ltb end (chunk + 50000))) [
  | inl b ↦
      let few : end < chunk + 50000 = ground (arith, b) in
      let all : min (chunk + 49999) end ≡ end = omega (arith, few) in
      let nothing : end + 1 - (chunk + 50000) ≡ 0 = omega (arith, few) in
      rw (all, nothing) (sym (append-nil (count_up chunk (end + 1 - chunk))))
  | inr b ↦
      let many : chunk + 50000 ≤ end = ground (arith, b) in
      let one : min (chunk + 49999) end + 1 - chunk ≡ 50000 = omega (arith, many) in
      let total : end + 1 - chunk ≡ 50000 + (end + 1 - (chunk + 50000)) = omega (arith, many) in
      rw (one, total) (count_up-append chunk 50000 (end + 1 - (chunk + 50000)))
]

-- All values of a list of heights, unless one fails.
unfoldable pub collect_some {ℓ} : {A : Type ℓ} → (ℕ → Option A) → List ℕ → Option (List A)
collect_some f [] = some []
collect_some f (n ∷ ns) = cons_some (f n) (collect_some f ns)

cons-append_some {ℓ} :
    {A : Type ℓ} (x : Option A) (xs ys : Option (List A))
    → cons_some x (append_some xs ys) ≡ append_some (cons_some x xs) ys
cons-append_some none xs ys = refl
cons-append_some (some x) none ys = refl
cons-append_some (some x) (some xs) none = refl
cons-append_some (some x) (some xs) (some ys) = refl

append_some_nil {ℓ} : {A : Type ℓ} (ys : Option (List A)) → ys ≡ append_some (some []) ys
append_some_nil none = refl
append_some_nil (some ys) = refl

collect_some-append {ℓ} :
    {A : Type ℓ} (f : ℕ → Option A) (ns ms : List ℕ)
    → collect_some f (ns ++ ms) ≡ append_some (collect_some f ns) (collect_some f ms)
unfolding collect_some
collect_some-append f [] ms = append_some_nil (collect_some f ms)
collect_some-append f (n ∷ ns) ms =
    ap (cons_some (f n)) (collect_some-append f ns ms)
    ∙ cons-append_some (f n) (collect_some f ns) (collect_some f ms)

module _ {a : Alloy} (formats : Formats a) (difficulty_of hash_of : List ℕ → Option ℕ)
    (fetch_range : ℕ × ℕ → List Columns)
    (receipts_by_block_range : ℕ → ℕ → List (List EthereumReceipt)) (header_at : ℕ → Columns)
    (receipts_at : ℕ → List EthereumReceipt)
    (fetches : (start end : ℕ)
      → fetch_range (start, end) ≡ map header_at (count_up start (end - start)))
    (has_receipts : (start end : ℕ)
      → receipts_by_block_range start end
        ≡ map receipts_at (count_up start (end + 1 - start))) where
  abbrev converted_at : ℕ → Option (Appended a)
  converted_at n =
      new_header formats difficulty_of hash_of fetch_range receipts_by_block_range (header_at n)
        (receipts_at n)

  new_headers-map :
      (ns : List ℕ)
      → new_headers formats difficulty_of hash_of fetch_range receipts_by_block_range
          (map header_at ns)
          (map receipts_at ns)
        ≡ collect_some converted_at ns
  unfolding new_headers collect_some
  new_headers-map [] = refl
  new_headers-map (n ∷ ns) = ap (cons_some (converted_at n)) (new_headers-map ns)

  migrate_chunk_lem :
      (start end : ℕ)
      → end + 1 < 2 ^ 64
      → migrate_chunk formats difficulty_of hash_of fetch_range receipts_by_block_range (start, end)
        ≡ collect_some converted_at (count_up start (end + 1 - start))
  unfolding migrate_chunk old_headers_range to_range
  migrate_chunk_lem start end h =
      let wrap : (end + 1) % 2 ^ 64 ≡ end + 1 = omega (arith, h) in
      let ns = count_up start (end + 1 - start) in
      let as_many : length (map header_at ns) == length (map receipts_at ns) ≡ true =
        rw (length-map header_at ns, length-map receipts_at ns) (ground arith) in
      rw (wrap, fetches start (end + 1), has_receipts start end, as_many) (new_headers-map ns)

  migrate_chunks_lem :
      (fuel chunk end : ℕ)
      → end + 1 ≤ chunk + fuel
      → end + 50000 < 2 ^ 64
      → migrate_chunks formats difficulty_of hash_of fetch_range receipts_by_block_range
          (chunk_bounds fuel chunk end)
        ≡ collect_some converted_at (count_up chunk (end + 1 - chunk))
  unfolding migrate_chunks chunk_bounds collect_some
  migrate_chunks_lem zero chunk end h g =
      let nothing : end + 1 - chunk ≡ 0 = omega (arith, h) in rw nothing refl
  migrate_chunks_lem (suc fuel) chunk end h g = elim (Bool-cases (ltb end chunk)) [
    | inl b ↦ let nothing : end + 1 - chunk ≡ 0 = ground (arith, b) in rw (b, nothing) refl
    | inr b ↦
        let within : chunk ≤ end = ground (arith, b) in
        let last : (((chunk + 50000) % 2 ^ 64) + 2 ^ 64 - 1) % 2 ^ 64 ≡ chunk + 49999 =
          omega (arith, g, within) in
        let end_of_chunk = min (chunk + 49999) end in
        let rest = migrate_chunks_lem fuel (chunk + 50000) end (omega (arith, h)) g in
        let covered : collect_some converted_at (count_up chunk (end + 1 - chunk))
            ≡ append_some (collect_some converted_at (count_up chunk (end_of_chunk + 1 - chunk)))
                (collect_some converted_at (count_up (chunk + 50000) (end + 1 - (chunk + 50000)))) =
          ap (collect_some converted_at) (split_range chunk end within)
          ∙ collect_some-append converted_at (count_up chunk (end_of_chunk + 1 - chunk)) _ in
        rw (b, last, migrate_chunk_lem chunk end_of_chunk (omega (arith, g, within)), rest)
          (sym covered)
  ]

  -- A static file is migrated header by header: over its whole range, however many chunks that
  -- takes, each height's header and receipts give what is appended for it, in the order of the
  -- heights and none twice, or the migration panics where one of them does. The provider has a
  -- header and receipts for every height, and the heights fit 64 bits with a chunk to spare.
  pub migrate_single_static_file-collect :
      (start end : ℕ)
      → start ≤ end
      → end + 50000 < 2 ^ 64
      → migrate_single_static_file formats difficulty_of hash_of fetch_range receipts_by_block_range
          (start, end)
        ≡ collect_some converted_at (count_up start (end + 1 - start))
  unfolding migrate_single_static_file
  migrate_single_static_file-collect start end h g =
      migrate_chunks_lem (end + 1 - start) start end (omega (arith, h)) g
