-- ===== src/Tests/Precompiles.antt =====
-- A map of precompiles as a list: the newest entry of an address counts.
use nanoreth.Prelude.{
  ℕ, ◌≡◌, refl, false, List, [], ◌∷◌, Option, none, arith, ◌==◌, if◌then◌else◌, map,
}
use nanoreth.Evm.Precompiles.{Precompile, PrecompilesMap, contains}

abbrev pub Entries : Type 0
Entries = List (ℕ × Option Precompile)

abbrev pub newest : ℕ → List (ℕ × Option Precompile) → Option Precompile
newest k [] = none
newest k ((j, p) ∷ m) = if j == k then p else newest k m

pub newest-keys : (k : ℕ) (m : Entries) → contains k (map (λ e. e.0) m) ≡ false → newest k m ≡ none
newest-keys k [] h = refl
newest-keys k ((j, p) ∷ m) h = ground (arith, newest-keys k m, h)

abbrev pub entries : PrecompilesMap
entries = record {
  Map = Entries;
  get = newest;
  addresses = map (λ e. e.0);
  apply_precompile = λ k f m. (k, f (newest k m)) ∷ m;
  get-apply_precompile = λ k j f m. refl;
  get-addresses = newest-keys;
}
