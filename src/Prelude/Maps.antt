-- ===== src/Prelude/Maps.antt =====
-- A map with numbers for keys, as an association list: `BTreeMap` and `HashMap` of the source.
use mathlib.Core.Path.{◌≡◌, refl}
use mathlib.Core.List.{List, [], ◌∷◌}
use mathlib.Core.Option.{Option, none, some}
use native.Mathlib.Omega.{arith}
use Prim.Native.Nat.{ℕ}
use nanoreth.Prelude.Tests.{◌==◌, if◌then◌else◌}

-- `Option::or`.
abbrev pub or_else {ℓ} : {A : Type ℓ} → Option A → Option A → Option A
or_else none d = d
or_else (some a) d = some a

module _ {ℓ} {V : Type ℓ} where
  unfoldable pub insert : ℕ → V → List (ℕ × V) → List (ℕ × V)
  insert key value [] = (key, value) ∷ []
  insert key value ((other, old) ∷ entries) =
      let rest = insert key value entries in
      if other == key then (other, value) ∷ entries else (other, old) ∷ rest

  unfoldable pub lookup : ℕ → List (ℕ × V) → Option V
  lookup key [] = none
  lookup key ((other, value) ∷ entries) =
      let rest = lookup key entries in if other == key then some value else rest

  -- The last entry with the key.
  unfoldable pub find_last : ℕ → List (ℕ × V) → Option V
  find_last key [] = none
  find_last key ((other, value) ∷ entries) =
      or_else (find_last key entries) (if other == key then some value else none)

  pub lookup-insert :
      (key at : ℕ) (value : V) (entries : List (ℕ × V))
      → lookup at (insert key value entries) ≡ (if key == at then some value else lookup at entries)
  unfolding lookup insert
  lookup-insert key at value [] = refl
  lookup-insert key at value ((other, old) ∷ entries) =
      ground (arith, lookup-insert key at value entries)

  -- Each key stands once.
  abbrev pub Distinct : List (ℕ × V) → Type ℓ
  Distinct [] = Unit
  Distinct ((k, v) ∷ m) = (lookup k m ≡ none) × Distinct m

  pub insert-Distinct : (k : ℕ) (v : V) (m : List (ℕ × V)) → Distinct m → Distinct (insert k v m)
  unfolding insert lookup
  insert-Distinct k v [] d = (refl, tt)
  insert-Distinct k v ((j, w) ∷ m) d =
      ground (arith, insert-Distinct k v m d.1, lookup-insert k j v m)

  pub find_last-eq-lookup : (k : ℕ) (m : List (ℕ × V)) → Distinct m → find_last k m ≡ lookup k m
  unfolding find_last lookup
  find_last-eq-lookup k [] d = refl
  find_last-eq-lookup k ((j, v) ∷ m) d = ground (arith, find_last-eq-lookup k m d.1)
