-- ===== src/PseudoPeer/Caches.antt =====
-- What the code relies on of the maps of other crates: reth's `LruMap` and rangemap's
-- `RangeInclusiveMap`.
use nanoreth.Prelude.{ℕ, ◌≤◌, ◌≡◌, ◌≢◌, ◌⊎◌, ◌&&◌, Option, none, some, leb, if◌then◌else◌}

-- A bounded map: an insertion may drop other entries and keeps its own; `get` marks an entry as
-- used, which changes no answer.
pub record LruMap (V : Type 0) : Type 1 where
  pub Map : Type 0
  pub empty : Map
  pub get : ℕ → Map → Option V × Map
  pub insert : ℕ → V → Map → Map
  pub get-empty : (k : ℕ) → (get k empty).0 ≡ none
  pub get-insert_self : (k : ℕ) (v : V) (m : Map) → (get k (insert k v m)).0 ≡ some v
  pub get-insert_ne :
      (k j : ℕ) (v : V) (m : Map)
      → k ≢ j
      → ((get j (insert k v m)).0 ≡ none) ⊎ ((get j (insert k v m)).0 ≡ (get j m).0)
  pub get-get : (k j : ℕ) (m : Map) → (get j (get k m).1).0 ≡ (get j m).0

-- A map from heights to values that is filled range by range; the later insertion wins.
pub record RangeInclusiveMap (V : Type 0) : Type 1 where
  pub Map : Type 0
  pub empty : Map
  pub get : ℕ → Map → Option V
  pub insert : ℕ × ℕ → V → Map → Map
  pub get-empty : (h : ℕ) → get h empty ≡ none
  pub get-insert :
      (r : ℕ × ℕ) (v : V) (m : Map) (h : ℕ)
      → r.0 ≤ r.1
      → get h (insert r v m) ≡ (if leb r.0 h && leb h r.1 then some v else get h m)
