-- ===== src/Consensus/Head.antt =====
-- src/consensus.rs: `canonical_head`. Hashes are numbers, which order them as their bytes do.
use nanoreth.Prelude.{
  ℕ, ◌≡◌, ◌≤◌, ◌<◌, ◌⊎◌, inl, inr, refl, Option, none, some, Result, ok, err, arith, ltb, ◌==◌,
  if◌then◌else◌, min, leb, ◌&&◌, Bool-cases,
}

-- What is asked of `BlockNumReader`.
pub record Provider : Type 1 where
  pub ProviderError : Type 0
  pub best_block_number : Result ProviderError ℕ
  pub block_hash : ℕ → Result ProviderError (Option ℕ)

abbrev choose : ℕ → ℕ → ℕ → ℕ → ℕ × ℕ
choose hash number current_head current_hash =
    if ltb current_head number
    then (hash, current_hash)
    else (if number == current_head
        then (min hash current_hash, current_hash)
        else (current_hash, current_hash))

-- The block `(number, hash)` is at least as good as `(number', hash')`: it is higher, or as high
-- with a hash that is no larger.
abbrev pub Preferred : ℕ × ℕ → ℕ × ℕ → Type 0
Preferred (n, h) (n', h') = (n' < n) ⊎ ((n ≡ n') × (h ≤ h'))

module _ (p : Provider) where
  pub data HlConsensusErr : Type 0 where
    provider : p.ProviderError → HlConsensusErr
    head_hash_not_found : HlConsensusErr

  abbrev with_hash : ℕ → ℕ → ℕ → Result p.ProviderError (Option ℕ) → Result HlConsensusErr (ℕ × ℕ)
  with_hash hash number head (err e) = err (provider e)
  with_hash hash number head (ok none) = err head_hash_not_found
  with_hash hash number head (ok (some current)) = ok (choose hash number head current)

  abbrev with_head : ℕ → ℕ → Result p.ProviderError ℕ → Result HlConsensusErr (ℕ × ℕ)
  with_head hash number (err e) = err (provider e)
  with_head hash number (ok head) = with_hash hash number head (p.block_hash head)

  unfoldable pub canonical_head : ℕ → ℕ → Result HlConsensusErr (ℕ × ℕ)
  canonical_head hash number = with_head hash number p.best_block_number

  -- With a known head, `canonical_head` answers with the better of the given block and the head,
  -- the higher one and of two as high the one with the lower hash: what it answers is one of the
  -- two and preferred to both. The second component is the hash of the head.
  pub canonical_head-Preferred :
      (hash number head current : ℕ)
      → p.best_block_number ≡ ok head
      → p.block_hash head ≡ ok (some current)
      → (chosen : ℕ × ℕ) × (canonical_head hash number ≡ ok (chosen.1, current))
        × ((chosen ≡ (number, hash)) ⊎ (chosen ≡ (head, current)))
        × Preferred chosen (number, hash)
        × Preferred chosen (head, current)
  unfolding canonical_head
  canonical_head-Preferred hash number head current e f = elim (Bool-cases (ltb head number)) [
    | inl b ↦ (
      (number, hash),
      ground (arith, e, f, b),
      inl refl,
      inr (refl, omega arith),
      inl (ground (arith, b)),
    )
    | inr b ↦ elim (Bool-cases ((number == head) && leb hash current)) [
      | inl c ↦ (
        (number, hash),
        ground (arith, e, f, b, c),
        inl refl,
        inr (refl, omega arith),
        inr (ground (arith, b, c), ground (arith, c)),
      )
      | inr c ↦ (
        (head, current),
        ground (arith, e, f, b, c),
        inr refl,
        ground (arith, b, c),
        inr (refl, omega arith),
      )
    ]
  ]
