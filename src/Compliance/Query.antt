-- ===== src/Compliance/Query.antt =====
-- src/addons/hl_node_compliance/layer.rs: the `?hl=` parameter of a request. A query is the list of
-- its bytes.
use nanoreth.Prelude.{
  ℕ, ◌≡◌, ◌≢◌, refl, ap, ◌∙◌, Bool, true, false, ◌||◌, List, [], ◌∷◌, ◌++◌, Option, none, some,
  arith, ◌==◌, if◌then◌else◌, All,
}

abbrev pub ampersand : ℕ
ampersand = b'&'

abbrev pub equals_sign : ℕ
equals_sign = b'='

-- `str::split` at one byte.
abbrev push_head : ℕ → List (List ℕ) → List (List ℕ)
push_head c [] = (c ∷ []) ∷ []
push_head c (part ∷ parts) = (c ∷ part) ∷ parts

unfoldable pub split : ℕ → List ℕ → List (List ℕ)
split sep [] = [] ∷ []
split sep (c ∷ cs) = let rest = split sep cs in if c == sep then [] ∷ rest else push_head c rest

-- `splitn(2, '=')`: the key, and the value if there is an equals sign.
unfoldable pub split_pair : List ℕ → List ℕ × Option (List ℕ)
split_pair [] = ([], none)
split_pair (c ∷ cs) =
    let (key, value) = split_pair cs in if c == equals_sign then ([], some cs) else (c ∷ key, value)

abbrev pub bytes_eq : List ℕ → List ℕ → Bool
bytes_eq [] [] = true
bytes_eq (a ∷ as') (b ∷ bs) = if a == b then bytes_eq as' bs else false
bytes_eq _ _ = false

abbrev pub hl_key : List ℕ
hl_key = b'h' ∷ b'l' ∷ []

abbrev pub true_value : List ℕ
true_value = b't' ∷ b'r' ∷ b'u' ∷ b'e' ∷ []

abbrev pub one_value : List ℕ
one_value = b'1' ∷ []

-- What one pair of the query decides.
unfoldable pub decide_pair : List ℕ × Option (List ℕ) → Option Bool
decide_pair (key, none) = none
decide_pair (key, some value) =
    if bytes_eq key hl_key
    then some (bytes_eq value true_value || bytes_eq value one_value)
    else none

-- The loop over the pairs.
unfoldable pub scan_pairs : List (List ℕ) → Bool → Bool
unfolding split_pair decide_pair
scan_pairs [] default = default
scan_pairs (pair ∷ pairs) default =
    let rest = scan_pairs pairs default in
    elim (decide_pair (split_pair pair)) [ none ↦ rest | some compliant ↦ compliant ]

unfoldable pub parse_hl_query : Option (List ℕ) → Bool → Bool
unfolding split scan_pairs
parse_hl_query none default = default
parse_hl_query (some query) default = scan_pairs (split ampersand query) default

-- `extensions.get::<HlComplianceMode>().map_or(default, |m| m.0)`.
unfoldable pub is_hl_compliant : Option Bool → Bool → Bool
is_hl_compliant none default = default
is_hl_compliant (some mode) default = mode

-- The independent reading: the pairs as they are written between the ampersands, and the first that
-- begins with `hl=`.
abbrev pub Avoids : ℕ → List ℕ → Type 0
Avoids sep = All (λ c. c ≢ sep)

unfoldable pub join : ℕ → List ℕ → List (List ℕ) → List ℕ
join sep part [] = part
join sep part (next ∷ parts) = part ++ sep ∷ join sep next parts

unfoldable pub strip_hl : List ℕ → Option (List ℕ)
strip_hl (a ∷ b ∷ c ∷ value) =
    if a == b'h'
    then (if b == b'l' then (if c == equals_sign then some value else none) else none)
    else none
strip_hl _ = none

unfoldable pub first_hl : List (List ℕ) → Bool → Bool
unfolding strip_hl
first_hl [] default = default
first_hl (pair ∷ pairs) default =
    let rest = first_hl pairs default in
    elim (strip_hl pair) [
      | none ↦ rest
      | some value ↦ bytes_eq value true_value || bytes_eq value one_value
    ]

split-Avoids : (sep : ℕ) (part : List ℕ) → Avoids sep part → split sep part ≡ part ∷ []
unfolding split
split-Avoids sep [] h = refl
split-Avoids sep (c ∷ part) h = ground (arith, split-Avoids sep part h.1)

split-append :
    (sep : ℕ) (part rest : List ℕ)
    → Avoids sep part
    → split sep (part ++ sep ∷ rest) ≡ part ∷ split sep rest
unfolding split
split-append sep [] rest h = ground arith
split-append sep (c ∷ part) rest h = ground (arith, split-append sep part rest h.1)

split-join :
    (sep : ℕ) (part : List ℕ) (parts : List (List ℕ))
    → Avoids sep part
    → All (Avoids sep) parts
    → split sep (join sep part parts) ≡ part ∷ parts
unfolding join
split-join sep part [] h hs = split-Avoids sep part h
split-join sep part (next ∷ parts) h hs =
    split-append sep part (join sep next parts) h
    ∙ ap (◌∷◌ part) (split-join sep next parts hs.0 hs.1)

abbrev decision : Option (List ℕ) → Option Bool
decision none = none
decision (some value) = some (bytes_eq value true_value || bytes_eq value one_value)

decide-strip : (pair : List ℕ) → decide_pair (split_pair pair) ≡ decision (strip_hl pair)
unfolding decide_pair split_pair strip_hl
decide-strip (a ∷ b ∷ c ∷ value) = ground arith
decide-strip (a ∷ b ∷ []) = ground arith
decide-strip (a ∷ []) = ground arith
decide-strip _ = ground arith

scan-first :
    (pairs : List (List ℕ)) (default : Bool) → scan_pairs pairs default ≡ first_hl pairs default
unfolding scan_pairs first_hl
scan-first [] default = refl
scan-first (pair ∷ pairs) default = ground (arith, decide-strip pair, scan-first pairs default)

-- The first pair that begins with `hl=` decides: compliant exactly for the values `true` and `1`.
-- Without such a pair the default holds. The pairs have no ampersand inside.
pub parse_hl_query-first :
    (part : List ℕ) (parts : List (List ℕ)) (default : Bool)
    → Avoids ampersand part
    → All (Avoids ampersand) parts
    → parse_hl_query (some (join ampersand part parts)) default ≡ first_hl (part ∷ parts) default
unfolding parse_hl_query
parse_hl_query-first part parts default h hs =
    rw (split-join ampersand part parts h hs) (scan-first (part ∷ parts) default)
