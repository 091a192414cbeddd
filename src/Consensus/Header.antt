-- ===== src/Consensus/Header.antt =====
-- src/node/consensus/mod.rs: a header against its parent. The checks of reth are parameters.
use nanoreth.Prelude.{
  ℕ, ◌≡◌, ◌≤◌, Option, none, some, ok, err, arith, ltb, if◌then◌else◌, List, [], ◌∷◌, ◌↔◌, refl,
  false,
}
use nanoreth.Consensus.{ConsensusError, Validation, and_then}

-- What the code reads of a header, and the checks that reth provides.
pub record HeaderRules : Type 1 where
  pub Header : Type 0
  pub BlobParams : Type 0
  pub timestamp : Header → ℕ
  pub blob_params_at_timestamp : ℕ → Option BlobParams
  pub validate_against_parent_hash_number : Header → Header → Validation
  pub validate_against_parent_4844 : Header → Header → BlobParams → Validation

module _ (rules : HeaderRules) where
  unfoldable pub validate_against_parent_timestamp : rules.Header → rules.Header → Validation
  validate_against_parent_timestamp header parent =
      if ltb (rules.timestamp header) (rules.timestamp parent)
      then err
          (ConsensusError.timestamp_is_in_past (rules.timestamp parent) (rules.timestamp header))
      else ok tt

  abbrev check_blobs : rules.Header → rules.Header → Option rules.BlobParams → Validation
  check_blobs header parent none = ok tt
  check_blobs header parent (some params) = rules.validate_against_parent_4844 header parent params

  unfoldable pub validate_header_against_parent : rules.Header → rules.Header → Validation
  validate_header_against_parent header parent =
      and_then (rules.validate_against_parent_hash_number header parent) (
        and_then (validate_against_parent_timestamp header parent)
          (check_blobs header parent (rules.blob_params_at_timestamp (rules.timestamp header))))

  abbrev pub Chain : List rules.Header → Type 0
  Chain [] = Unit
  Chain (h ∷ []) = Unit
  Chain (h ∷ g ∷ hs) = (validate_header_against_parent g h ≡ ok tt) × Chain (g ∷ hs)

  -- The other checks, by which reth links a header to its parent, pass along the list.
  abbrev pub IsLinked : List rules.Header → Type 0
  IsLinked [] = Unit
  IsLinked (h ∷ []) = Unit
  IsLinked (h ∷ g ∷ hs) =
      (rules.validate_against_parent_hash_number g h ≡ ok tt)
      × (check_blobs g h (rules.blob_params_at_timestamp (rules.timestamp g)) ≡ ok tt)
      × IsLinked (g ∷ hs)

  -- No header is older than the one before it.
  abbrev pub IsOrdered : List rules.Header → Type 0
  IsOrdered [] = Unit
  IsOrdered (h ∷ []) = Unit
  IsOrdered (h ∷ g ∷ hs) = (rules.timestamp h ≤ rules.timestamp g) × IsOrdered (g ∷ hs)

  accepted-timestamp :
      (header parent : rules.Header)
      → validate_header_against_parent header parent ≡ ok tt
      → rules.timestamp parent ≤ rules.timestamp header
  unfolding validate_header_against_parent validate_against_parent_timestamp
  accepted-timestamp header parent h = ground (arith, h)

  timestamp-accepted :
      (header parent : rules.Header)
      → rules.validate_against_parent_hash_number header parent ≡ ok tt
      → check_blobs header parent (rules.blob_params_at_timestamp (rules.timestamp header)) ≡ ok tt
      → rules.timestamp parent ≤ rules.timestamp header
      → validate_header_against_parent header parent ≡ ok tt
  unfolding validate_header_against_parent validate_against_parent_timestamp
  timestamp-accepted header parent linked blobs h =
      let not_past : ltb (rules.timestamp header) (rules.timestamp parent) ≡ false =
        ground (arith, h) in
      rw (linked, not_past, blobs) refl

  -- Of headers that the checks of reth link, each is accepted after the one before it exactly if
  -- time never goes back along them; it may stand still, as between a small block and a big one.
  pub Chain-IsOrdered : (hs : List rules.Header) → IsLinked hs → Chain hs ↔ IsOrdered hs
  Chain-IsOrdered [] l = (λ c. tt, λ o. tt)
  Chain-IsOrdered (h ∷ []) l = (λ c. tt, λ o. tt)
  Chain-IsOrdered (h ∷ g ∷ hs) (linked, blobs, l) =
      let (forth, back) = Chain-IsOrdered (g ∷ hs) l in
      (
        λ c. (accepted-timestamp g h c.0, forth c.1),
        λ o. (timestamp-accepted g h linked blobs o.0, back o.1),
      )
