-- ===== src/Evm/PatchLaws.antt =====
-- What the mainnet patches do to the changes of a transaction.
use nanoreth.Prelude.{
  ℕ, ◌≡◌, ◌≤◌, ◌<◌, ◌⊎◌, refl, Bool, false, ◌||◌, ◌&&◌, List, [], ◌∷◌, arith, ◌==◌, if◌then◌else◌,
  lookup, none, All,
}
use nanoreth.Evm.Patch.{
  PatchAfterTx, applies, first_of, last_of, apply_patches, mainnet_patches_after_tx,
  patch_mainnet_after_tx, remove,
}

lookup-remove {ℓ} :
    {V : Type ℓ} (k j : ℕ) (m : List (ℕ × V))
    → lookup j (remove k m) ≡ (if k == j then none else lookup j m)
unfolding lookup remove
lookup-remove k j [] = ground arith
lookup-remove k j ((i, v) ∷ m) = ground (arith, lookup-remove k j m)

-- Some entry of the table names this block, this place, this kind and this address.
abbrev pub dropped : ℕ → ℕ → Bool → ℕ → List PatchAfterTx → Bool
dropped n i sys k [] = false
dropped n i sys k (p ∷ ps) = (applies n i sys p && (p.address == k)) || dropped n i sys k ps

lookup-apply_patches {ℓ} :
    {V : Type ℓ} (n i k : ℕ) (sys : Bool) (ps : List PatchAfterTx) (m : List (ℕ × V))
    → lookup k (apply_patches n i sys ps m) ≡ (if dropped n i sys k ps then none else lookup k m)
unfolding apply_patches
lookup-apply_patches n i k sys [] m = refl
lookup-apply_patches n i k sys (p ∷ ps) m = ground (
  arith,
  lookup-apply_patches n i k sys ps m,
  lookup-apply_patches n i k sys ps (remove p.address m),
  lookup-remove p.address k m,
)

abbrev Inside : PatchAfterTx → Type 0
Inside p = (1467569 ≤ p.block_num) × (p.block_num ≤ 1531366)

apply_patches-outside {ℓ} :
    {V : Type ℓ} (n i : ℕ) (sys : Bool) (ps : List PatchAfterTx) (m : List (ℕ × V))
    → All Inside ps
    → (n < 1467569) ⊎ (1531366 < n)
    → apply_patches n i sys ps m ≡ m
unfolding apply_patches
apply_patches-outside n i sys [] m h o = refl
apply_patches-outside n i sys (p ∷ ps) m h o =
    ground (arith, apply_patches-outside n i sys ps m h.1 o)

inside : All Inside mainnet_patches_after_tx
unfolding mainnet_patches_after_tx
inside = search arith

first_of-table : first_of mainnet_patches_after_tx ≡ 1467569
unfolding mainnet_patches_after_tx
first_of-table = refl

last_of-table : last_of 0 mainnet_patches_after_tx ≡ 1531366
unfolding mainnet_patches_after_tx
last_of-table = refl

-- The early return loses no entry.
patch_mainnet_after_tx-apply_patches :
    {V : Type 0} (n i : ℕ) (sys : Bool) (changes : List (ℕ × V))
    → patch_mainnet_after_tx n i sys changes
      ≡ apply_patches n i sys mainnet_patches_after_tx changes
unfolding patch_mainnet_after_tx
patch_mainnet_after_tx-apply_patches n i sys changes =
    rw (first_of-table, last_of-table)
      (ground (arith, apply_patches-outside n i sys mainnet_patches_after_tx changes inside))

-- A change of an account survives `patch_mainnet_after_tx` unless an entry of the table names the
-- block, the place in it, the kind of the transaction and the account: the early return for the
-- blocks off the table's range loses no entry.
pub lookup-patch_mainnet_after_tx :
    {V : Type 0} (n i k : ℕ) (sys : Bool) (changes : List (ℕ × V))
    → lookup k (patch_mainnet_after_tx n i sys changes)
      ≡ (if dropped n i sys k mainnet_patches_after_tx then none else lookup k changes)
lookup-patch_mainnet_after_tx n i k sys changes =
    rw (patch_mainnet_after_tx-apply_patches n i sys changes)
      (lookup-apply_patches n i k sys mainnet_patches_after_tx changes)
