-- ===== src/Migrate.antt =====
-- src/node/migrate.rs: from the headers of an Ethereum database to those of this node. A database is
-- the list of its rows; reth's and rmp_serde's formats, the receipts and the setting that allows the
-- migration are arguments. Files that are linked and moved are not modelled.
pub mod Mdbx
pub mod MdbxLaws
pub mod HeaderLaws
pub mod StaticFiles
pub mod StaticFileLaws
use nanoreth.Prelude.{
  ℕ, ◌+◌, ◌≡◌, Bool, true, false, not, ◌&&◌, ◌||◌, List, [], ◌∷◌, Option, none, some, if◌then◌else◌,
  ◌==◌, ltb, length, take, drop, keep,
}
use nanoreth.Primitives.{Alloy, EthereumReceipt, HlHeader, from_ethereum_header}

abbrev pub sha3_uncle_offset : ℕ
sha3_uncle_offset = 36

abbrev pub sha3_uncle_hash : List ℕ
sha3_uncle_hash =
    29 ∷ 204 ∷ 77 ∷ 232 ∷ 222 ∷ 199 ∷ 93 ∷ 122 ∷ 171 ∷ 133 ∷ 181 ∷ 103 ∷ 182 ∷ 204 ∷ 212 ∷ 26 ∷ 211
    ∷ 18 ∷ 69 ∷ 27 ∷ 148 ∷ 138 ∷ 116 ∷ 19 ∷ 240 ∷ 161 ∷ 66 ∷ 253 ∷ 64 ∷ 212 ∷ 147 ∷ 71 ∷ []

abbrev pub genesis_prefix : List ℕ
genesis_prefix = 1 ∷ 32 ∷ 0 ∷ 248 ∷ []

abbrev pub starts_with : List ℕ → List ℕ → Bool
starts_with [] bytes = true
starts_with (p ∷ prefix) [] = false
starts_with (p ∷ prefix) (b ∷ bytes) = if p == b then starts_with prefix bytes else false

-- The slice of 32 bytes at the offset is there, and is the hash; or the header is one of a genesis.
unfoldable pub is_old_header : List ℕ → Bool
is_old_header header =
    if ltb (length header) (sha3_uncle_offset + 32)
    then false
    else starts_with sha3_uncle_hash (drop sha3_uncle_offset header)
      || starts_with genesis_prefix header

-- The formats of headers and what the code relies on: a header that is written in the new format
-- reads back, and is not taken for one in the old format.
pub record Formats (a : Alloy) : Type 0 where
  pub decompress : List ℕ → Option a.Header
  pub from_slice : List ℕ → Option (HlHeader a)
  pub to_vec : HlHeader a → List ℕ
  pub from_slice-to_vec : (h : HlHeader a) → from_slice (to_vec h) ≡ some h
  pub is_old_header-to_vec : (h : HlHeader a) → is_old_header (to_vec h) ≡ false

abbrev pub is_some {ℓ} : {A : Type ℓ} → Option A → Bool
is_some none = false
is_some (some x) = true

-- `none` is a panic, of a header that is in both formats or in none.
abbrev pub exactly_old : Bool → Bool → Option Bool
exactly_old true false = some true
exactly_old false true = some false
exactly_old _ _ = none

abbrev pub counts_no_gas : EthereumReceipt → Bool
counts_no_gas r = r.cumulative_gas_used == 0

module _ {a : Alloy} where
  unfoldable pub is_new_header : Formats a → List ℕ → Bool
  is_new_header formats header = is_some (formats.from_slice header)

  unfoldable pub using_old_header : Formats a → List ℕ → Option Bool
  unfolding is_old_header is_new_header
  using_old_header formats header =
      exactly_old (is_old_header header) (is_new_header formats header)

  unfoldable pub to_hl_header : List EthereumReceipt → a.Header → HlHeader a
  unfolding from_ethereum_header
  to_hl_header receipts eth_header =
      from_ethereum_header eth_header receipts (length (keep counts_no_gas receipts))
