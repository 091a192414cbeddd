-- ===== src/PseudoPeer/PollerLaws.antt =====
-- What the poller of src/pseudo_peer/service.rs sends, and when it is started.
use nanoreth.Prelude.{
  count_up, ℕ, zero, suc, ◌+◌, ◌≤◌, ◌<◌, ◌^◌, ◌%◌, ◌≡◌, refl, ap, ◌∙◌, Bool, true, false, List, [],
  ◌∷◌, map, Option, none, some, arith, if◌then◌else◌, ltb, length, Option-cases, Bool-cases, inl,
  inr,
}
use nanoreth.Primitives.{Alloy}
use nanoreth.Types.Compat.{BlockAndReceipts}
use nanoreth.PseudoPeer.Caches.{LruMap}
use nanoreth.PseudoPeer.Store.{BlockStore, LruCache, get_by_number}
use nanoreth.PseudoPeer.Service.{clamp, start_signals, task_loop}

abbrev pub any_active : List Bool → Bool
any_active [] = false
any_active (active ∷ events) = if active then true else any_active events

started : (events : List Bool) → start_signals false events ≡ 0
unfolding start_signals
started [] = refl
started (true ∷ events) = started events
started (false ∷ events) = started events

-- The start signal is sent once when a peer's session becomes active, however many sessions there
-- are, and not before.
pub start_signals-once :
    (events : List Bool) → start_signals true events ≡ (if any_active events then 1 else 0)
unfolding start_signals
start_signals-once [] = refl
start_signals-once (true ∷ events) = rw (started events) refl
start_signals-once (false ∷ events) = start_signals-once events

clamp-count_up_beyond :
    (c n m k : ℕ)
    → c ≤ n
    → c ≤ m
    → map (clamp (some c)) (count_up n k) ≡ map (clamp (some c)) (count_up m k)
clamp-count_up_beyond c n m zero h g = refl
clamp-count_up_beyond c n m (suc k) h g =
    let rest = clamp-count_up_beyond c (n + 1) (m + 1) k (omega (arith, h)) (omega (arith, g)) in
    ground (arith, h, g, rest)

-- Counting on from the clamped height or from the height itself gives the same heights.
clamp-count_up :
    (cutoff : Option ℕ) (n d k : ℕ)
    → map (clamp cutoff) (count_up (clamp cutoff n + d) k) ≡ map (clamp cutoff) (count_up (n + d) k)
clamp-count_up none n d k = refl
clamp-count_up (some c) n d k = elim (Bool-cases (ltb c n)) [
  | inl b ↦ rw b (clamp-count_up_beyond c (c + d) (n + d) k (omega arith) (ground (arith, b)))
  | inr b ↦ rw b refl
]

clamp-count_up_here :
    (cutoff : Option ℕ) (n k : ℕ)
    → map (clamp cutoff) (count_up (clamp cutoff n) k) ≡ map (clamp cutoff) (count_up n k)
clamp-count_up_here cutoff n k =
    ap (λ m. map (clamp cutoff) (count_up m k)) (omega arith)
    ∙ clamp-count_up cutoff n 0 k
    ∙ ap (λ m. map (clamp cutoff) (count_up m k)) (omega arith)

clamp_le : (cutoff : Option ℕ) (n : ℕ) → clamp cutoff n ≤ n
clamp_le none n = omega arith
clamp_le (some c) n = ground arith

module _ (keys : LruCache) (a : Alloy) (lru : LruMap (BlockAndReceipts a))
    (gap_blocks : ℕ → Option (BlockAndReceipts a)) (cutoff : Option ℕ) where
  -- The heights that the poller sends count up from its first height without a gap and without a
  -- repetition, however often and at whichever turns the store has no block; past a cutoff height
  -- the cutoff itself is sent, again and again. The heights fit 64 bits.
  pub task_loop-count_up :
      (sources : List (ℕ → Option (BlockAndReceipts a))) (start : ℕ) (s : BlockStore keys a lru)
      → start + length sources < 2 ^ 64
      → map (λ e. e.0) (task_loop keys a lru gap_blocks cutoff sources start s).0
        ≡ map
            (clamp cutoff)
            (count_up start (length (task_loop keys a lru gap_blocks cutoff sources start s).0))
  unfolding task_loop
  task_loop-count_up [] start s h = refl
  task_loop-count_up (source ∷ sources) start s h =
      let height = clamp cutoff start in
      let answer = get_by_number keys a lru gap_blocks source none height s in
      let low = clamp_le cutoff start in
      elim (Option-cases answer.0) [
        | inl e ↦ rw e (
            task_loop-count_up sources height answer.1 (omega (arith, h, low))
            ∙ clamp-count_up_here cutoff start _)
        | inr (b, e) ↦
            let next : (height + 1) % 2 ^ 64 ≡ height + 1 = omega (arith, h, low) in
            rw (e, next)
              (ap (◌∷◌ height) (
                task_loop-count_up sources (height + 1) answer.1 (omega (arith, h, low))
                ∙ clamp-count_up cutoff start 1 _))
      ]
