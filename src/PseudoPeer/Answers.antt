-- ===== src/PseudoPeer/Answers.antt =====
-- What the block store answers has the heights that were asked for.
use nanoreth.Prelude.{
  ℕ, ◌≡◌, inl, inr, refl, sym, ap, ◌∙◌, List, [], ◌∷◌, map, Option, none, some, arith, ◌==◌, insert,
  lookup, lookup-insert, Bool-cases, Option-cases,
}
use nanoreth.Primitives.{Alloy}
use nanoreth.Types.Compat.{BlockAndReceipts, number}
use nanoreth.PseudoPeer.Caches.{LruMap}
use nanoreth.PseudoPeer.Store.{
  BlockStore, LruCache, add_fetched, answer_heights, gather, get_by_numbers, remove_entry,
  take_heights,
}
use nanoreth.PseudoPeer.StoreLaws.{lookup-remove_entry}

module _ (a : Alloy) where
  -- The blocks at hand, each under its own height.
  abbrev pub Keyed : List (ℕ × BlockAndReceipts a) → Type 0
  Keyed m = (h : ℕ) (b : BlockAndReceipts a) → lookup h m ≡ some b → number b ≡ h

  insert-Keyed :
      (h : ℕ) (b : BlockAndReceipts a) (m : List (ℕ × BlockAndReceipts a))
      → number b ≡ h
      → Keyed m
      → Keyed (insert h b m)
  insert-Keyed h b m e k j c f = ground (arith, lookup-insert h j b m, e, f, k j c)

  remove_entry-Keyed :
      (h : ℕ) (m : List (ℕ × BlockAndReceipts a)) → Keyed m → Keyed (remove_entry h m)
  remove_entry-Keyed h m k j c f = ground (arith, lookup-remove_entry h j m, f, k j c)

  empty-Keyed : Keyed []
  unfolding lookup
  empty-Keyed h b e = absurd (ground (arith, e))

  take_heights-number :
      (hs : List ℕ) (m : List (ℕ × BlockAndReceipts a)) (bs : List (BlockAndReceipts a))
      → Keyed m
      → take_heights hs m ≡ some bs
      → map number bs ≡ hs
  unfolding take_heights
  take_heights-number [] m bs k e = ground (arith, e)
  take_heights-number (h ∷ hs) m bs k e = elim (Option-cases (lookup h m)) [
    | inl f ↦ absurd (ground (arith, e, f))
    | inr (b, f) ↦ elim (Option-cases (take_heights hs (remove_entry h m))) [
      | inl g ↦ absurd (ground (arith, e, f, g))
      | inr (cs, g) ↦
          let rest = take_heights-number hs (remove_entry h m) cs (remove_entry-Keyed h m k) g in
          ground (arith, e, f, g, rest, k h b f)
    ]
  ]

module _ (keys : LruCache) (a : Alloy) (lru : LruMap (BlockAndReceipts a)) where
  -- Every cached block is kept under its own height.
  abbrev pub IsSound : lru.Map → Type 0
  IsSound m = (h : ℕ) (b : BlockAndReceipts a) → (lru.get h m).0 ≡ some b → number b ≡ h

  insert-IsSound :
      (h : ℕ) (b : BlockAndReceipts a) (m : lru.Map)
      → number b ≡ h
      → IsSound m
      → IsSound (lru.insert h b m)
  insert-IsSound h b m e k j c f = elim (Bool-cases (h == j)) [
    | inl g ↦
        let here : h ≡ j = ground (arith, g) in
        ground (
          arith,
          sym (lru.get-insert_self h b m) ∙ ap (λ n. (lru.get n (lru.insert h b m)).0) here ∙ f,
          e,
          here,
        )
    | inr g ↦ elim (lru.get-insert_ne h j b m (ground (arith, g))) [
      | inl n ↦ absurd (ground (arith, n, f))
      | inr s ↦ k j c (sym s ∙ f)
    ]
  ]

  get-IsSound : (h : ℕ) (m : lru.Map) → IsSound m → IsSound (lru.get h m).1
  get-IsSound h m k j c f = k j c (sym (lru.get-get h j m) ∙ f)

  module _ (gap_blocks : ℕ → Option (BlockAndReceipts a))
      (gap-number : (h : ℕ) (b : BlockAndReceipts a) → gap_blocks h ≡ some b → number b ≡ h)
      (source : ℕ → Option (BlockAndReceipts a)) (db : Option (ℕ → Option ℕ)) where
    add_fetched-IsSound :
        (bs : List (BlockAndReceipts a)) (cached : List (ℕ × BlockAndReceipts a)) (m : lru.Map)
        → Keyed a cached
        → IsSound m
        → Keyed a (add_fetched keys a lru gap_blocks source db bs cached m).0
          × IsSound (add_fetched keys a lru gap_blocks source db bs cached m).1
    unfolding add_fetched
    add_fetched-IsSound [] cached m k s = (k, s)
    add_fetched-IsSound (b ∷ bs) cached m k s =
        add_fetched-IsSound bs (insert (number b) b cached) (lru.insert (number b) b m)
          (insert-Keyed a (number b) b cached refl k) (insert-IsSound (number b) b m refl s)

    gather-IsSound :
        (hs : List ℕ) (cached : List (ℕ × BlockAndReceipts a)) (m : lru.Map)
        → Keyed a cached
        → IsSound m
        → Keyed a (gather keys a lru gap_blocks source db hs cached m).0.0
          × IsSound (gather keys a lru gap_blocks source db hs cached m).1
    unfolding gather
    gather-IsSound [] cached m k s = (k, s)
    gather-IsSound (h ∷ hs) cached m k s =
        let s' = get-IsSound h m s in
        elim (Option-cases (lru.get h m).0) [
          | inr (b, f) ↦ rw f (
              gather-IsSound hs (insert h b cached) (lru.get h m).1
                (insert-Keyed a h b cached (s h b f) k) s')
          | inl f ↦ elim (Option-cases (gap_blocks h)) [
            | inr (b, g) ↦
                let e = gap-number h b g in
                rw (f, g)
                  (gather-IsSound hs (insert h b cached) (lru.insert h b (lru.get h m).1)
                    (insert-Keyed a h b cached e k) (insert-IsSound h b (lru.get h m).1 e s'))
            | inl g ↦ rw (f, g) (gather-IsSound hs cached (lru.get h m).1 k s')
          ]
        ]

    answer_heights-IsSound :
        (hs : List ℕ) (cached : List (ℕ × BlockAndReceipts a)) (s : BlockStore keys a lru)
        (fetched : Option (List (BlockAndReceipts a)))
        → Keyed a cached
        → IsSound s.blocks
        → ((bs : List (BlockAndReceipts a))
            → (answer_heights keys a lru gap_blocks source db hs cached s fetched).0 ≡ some bs
            → map number bs ≡ hs)
          × IsSound (answer_heights keys a lru gap_blocks source db hs cached s fetched).1.blocks
    answer_heights-IsSound hs cached s none k t = (λ bs e. absurd (ground (arith, e)), t)
    answer_heights-IsSound hs cached s (some fetched) k t =
        let (k', t') = add_fetched-IsSound fetched cached s.blocks k t in
        (
          λ bs e.
              take_heights-number a hs
                (add_fetched keys a lru gap_blocks source db fetched cached s.blocks).0 bs k' e,
          t',
        )

    -- The blocks that an answer for several heights holds have those heights, in that order, whatever
    -- the source sends, and the cache stays sound. Every cached block lies under its own height
    -- before, and so do the hardcoded blocks.
    pub get_by_numbers-number :
        (collect_blocks : List ℕ → Option (List (BlockAndReceipts a))) (hs : List ℕ)
        (s : BlockStore keys a lru)
        → IsSound s.blocks
        → ((bs : List (BlockAndReceipts a))
            → (get_by_numbers keys a lru gap_blocks source db collect_blocks hs s).0 ≡ some bs
            → map number bs ≡ hs)
          × IsSound (get_by_numbers keys a lru gap_blocks source db collect_blocks hs s).1.blocks
    unfolding get_by_numbers
    get_by_numbers-number collect_blocks hs s t =
        let (k, t') = gather-IsSound hs [] s.blocks (empty-Keyed a) t in
        answer_heights-IsSound hs _ _ _ k t'
