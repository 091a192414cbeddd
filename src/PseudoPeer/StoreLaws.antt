-- ===== src/PseudoPeer/StoreLaws.antt =====
-- What the block store answers after it has answered once.
use nanoreth.Prelude.{
  ℕ, ◌-◌, ◌≡◌, ◌≢◌, refl, sym, ap, ◌∙◌, Bool, true, false, List, [], ◌∷◌, ◌++◌, Option, none, some,
  arith, ltb, ◌==◌, if◌then◌else◌, insert, lookup, lookup-insert, or_else, Bool-cases, Option-cases,
  inl, inr,
}
use nanoreth.Primitives.{Alloy}
use nanoreth.Types.Compat.{BlockAndReceipts, hash, number, parent_hash}
use nanoreth.PseudoPeer.Caches.{LruMap}
use nanoreth.PseudoPeer.Store.{
  BlockStore, LruBiMap, answer_heights, LruCache, cons_found, evict_key, evict_pushed, get_by_left,
  get_by_number, hash_to_number, get_by_numbers, index_block_inner, insert_pair, remove_entry,
  take_heights,
}

pub lookup-remove_entry {ℓ} :
    {V : Type ℓ} (key at : ℕ) (m : List (ℕ × V))
    → lookup at (remove_entry key m) ≡ (if key == at then none else lookup at m)
unfolding lookup remove_entry
lookup-remove_entry key at [] = ground arith
lookup-remove_entry key at ((other, v) ∷ m) = ground (arith, lookup-remove_entry key at m)

lookup-insert_self {ℓ} :
    {V : Type ℓ} (key : ℕ) (value : V) (m : List (ℕ × V))
    → lookup key (insert key value m) ≡ some value
lookup-insert_self key value m = ground (arith, lookup-insert key key value m)

cons_found-none {ℓ} : {V : Type ℓ} (o : Option V) → cons_found o none ≡ none
cons_found-none none = refl
cons_found-none (some b) = refl

take_heights-missing {ℓ} :
    {V : Type ℓ} (h : ℕ) (before rest : List ℕ) (cached : List (ℕ × V))
    → lookup h cached ≡ none
    → take_heights (before ++ h ∷ rest) cached ≡ none
unfolding take_heights
take_heights-missing h [] rest cached e = rw e refl
take_heights-missing h (x ∷ before) rest cached e =
    rw
      (take_heights-missing h before rest (remove_entry x cached)
        (ground (arith, lookup-remove_entry x h cached)))
      (cons_found-none (lookup x cached))

take_heights-repeated {ℓ} :
    {V : Type ℓ} (h : ℕ) (before between rest : List ℕ) (cached : List (ℕ × V))
    → take_heights (before ++ h ∷ (between ++ h ∷ rest)) cached ≡ none
unfolding take_heights
take_heights-repeated h [] between rest cached =
    rw
      (take_heights-missing h between rest (remove_entry h cached)
        (ground (arith, lookup-remove_entry h h cached)))
      (cons_found-none (lookup h cached))
take_heights-repeated h (x ∷ before) between rest cached =
    rw (take_heights-repeated h before between rest (remove_entry x cached))
      (cons_found-none (lookup x cached))

module _ (keys : LruCache) where
  evict_pushed-lru_keys :
      (p : Bool × Option ℕ) (m : LruBiMap keys) → (evict_pushed keys p m).lru_keys ≡ m.lru_keys
  unfolding evict_key
  evict_pushed-lru_keys (true, some e) m = elim (Option-cases (lookup e m.left_to_right)) [
    | inl l ↦ rw l refl
    | inr (_, l) ↦ rw l refl
  ]
  evict_pushed-lru_keys (true, none) m = refl
  evict_pushed-lru_keys (false, _) m = refl

  -- An entry stays unless its own key is pushed out.
  evict_pushed-keeps :
      (j : ℕ) (p : Bool × Option ℕ) (m : LruBiMap keys)
      → ((e : ℕ) → p ≡ (true, some e) → j ≢ e)
      → get_by_left keys j (evict_pushed keys p m) ≡ get_by_left keys j m
  unfolding get_by_left evict_key
  evict_pushed-keeps j (true, some e) m h = elim (Option-cases (lookup e m.left_to_right)) [
    | inl l ↦ rw l refl
    | inr (_, l) ↦ rw l (ground (arith, h e refl, lookup-remove_entry e j m.left_to_right))
  ]
  evict_pushed-keeps j (true, none) m h = refl
  evict_pushed-keeps j (false, _) m h = refl

  get_by_left-insert_self :
      (key value : ℕ) (m : LruBiMap keys)
      → get_by_left keys key (insert_pair keys key value m) ≡ some value
  unfolding get_by_left insert_pair
  get_by_left-insert_self key value m = lookup-insert_self key value _

  insert_pair-lru_keys :
      (j v : ℕ) (m : LruBiMap keys)
      → (insert_pair keys j v m).lru_keys ≡ (keys.insert_and_get_evicted j m.lru_keys).1
  unfolding insert_pair
  insert_pair-lru_keys j v m =
      evict_pushed-lru_keys (keys.insert_and_get_evicted j m.lru_keys).0
        (record m { lru_keys = (keys.insert_and_get_evicted j m.lru_keys).1 })

  -- An entry that was inserted last is still there after the next one.
  get_by_left-insert_next :
      (j k w : ℕ) (m : LruBiMap keys)
      → j ≢ k
      → ((e : ℕ) → (keys.insert_and_get_evicted k m.lru_keys).0 ≡ (true, some e) → j ≢ e)
      → get_by_left keys j (insert_pair keys k w m) ≡ get_by_left keys j m
  unfolding get_by_left insert_pair
  get_by_left-insert_next j k w m h kept =
      let p = keys.insert_and_get_evicted k m.lru_keys in
      let m' = evict_pushed keys p.0 (record m { lru_keys = p.1 }) in
      lookup-insert k j w m'.left_to_right
      ∙ ground (arith, h)
      ∙ evict_pushed-keeps j p.0 (record m { lru_keys = p.1 }) kept

  index_block_inner-own :
      (a : Alloy) (b : BlockAndReceipts a) (lru : LruMap (BlockAndReceipts a)) (m : LruBiMap keys)
      → parent_hash b ≢ hash b
      → get_by_left keys (hash b) (index_block_inner keys a lru b m) ≡ some (number b)
  unfolding index_block_inner
  index_block_inner-own a b lru m h =
      let own = insert_pair keys (hash b) (number b) m in
      let is_own = get_by_left-insert_self (hash b) (number b) m in
      let same = insert_pair-lru_keys (hash b) (number b) m in
      let kept : (e : ℕ)
          → (keys.insert_and_get_evicted (parent_hash b) own.lru_keys).0 ≡ (true, some e)
          → hash b ≢ e =
        λ e q.
          keys.evicted-ne_last (hash b) (parent_hash b) e m.lru_keys true
            (ap (λ l. (keys.insert_and_get_evicted (parent_hash b) l).0) (sym same) ∙ q) in
      elim (Bool-cases (ltb 0 (number b))) [
        | inl p ↦ rw p (
            get_by_left-insert_next (hash b) (parent_hash b) (number b - 1) own (λ q. h (sym q))
              kept
            ∙ is_own)
        | inr p ↦ rw p is_own
      ]

  module _ (a : Alloy) (lru : LruMap (BlockAndReceipts a)) where
    module _ (gap_blocks : ℕ → Option (BlockAndReceipts a)) where
      -- A block that was answered for a height is answered again from the cache: the same one,
      -- whatever the source and the database give later.
      pub get_by_number-again :
          (source later : ℕ → Option (BlockAndReceipts a)) (db db' : Option (ℕ → Option ℕ)) (n : ℕ)
          (s : BlockStore keys a lru) (b : BlockAndReceipts a)
          → (get_by_number keys a lru gap_blocks source db n s).0 ≡ some b
          → (get_by_number keys a lru gap_blocks later db' n
              (get_by_number keys a lru gap_blocks source db n s).1).0
            ≡ some b
      unfolding get_by_number
      get_by_number-again source later db db' n s b e = elim (Option-cases (lru.get n s.blocks).0) [
        | inl f ↦ elim (Option-cases (or_else (gap_blocks n) (source n))) [
          | inl g ↦ absurd (ground (arith, f, g, e))
          | inr (c, g) ↦ ground (arith, f, g, e, lru.get-insert_self n c (lru.get n s.blocks).1)
        ]
        | inr (c, f) ↦ ground (arith, f, e, lru.get-get n n s.blocks)
      ]

      -- A block that was not in the cache, once it has been answered, is found by its hash: the
      -- index gives its number. Its hash is not its parent's.
      pub hash_to_number-get_by_number :
          (source : ℕ → Option (BlockAndReceipts a)) (db : Option (ℕ → Option ℕ)) (n : ℕ)
          (s : BlockStore keys a lru) (b : BlockAndReceipts a)
          → (lru.get n s.blocks).0 ≡ none
          → (get_by_number keys a lru gap_blocks source db n s).0 ≡ some b
          → parent_hash b ≢ hash b
          → hash_to_number keys a lru gap_blocks source db
              (hash b)
              (get_by_number keys a lru gap_blocks source db n s).1
            ≡ some (number b)
      unfolding get_by_number hash_to_number
      hash_to_number-get_by_number source db n s b f e h =
          elim (Option-cases (or_else (gap_blocks n) (source n))) [
            | inl g ↦ absurd (ground (arith, f, g, e))
            | inr (c, g) ↦ ground (arith, f, g, e, index_block_inner-own a b lru s.hash_index h)
          ]

      answer_heights-repeated :
          (source : ℕ → Option (BlockAndReceipts a)) (db : Option (ℕ → Option ℕ)) (h : ℕ)
          (before between rest : List ℕ) (cached : List (ℕ × BlockAndReceipts a))
          (s : BlockStore keys a lru) (fetched : Option (List (BlockAndReceipts a)))
          → (answer_heights keys a lru gap_blocks source db
              (before ++ h ∷ (between ++ h ∷ rest))
              cached
              s
              fetched).0
            ≡ none
      answer_heights-repeated source db h before between rest cached s none = refl
      answer_heights-repeated source db h before between rest cached s (some bs) =
          take_heights-repeated h before between rest _

      -- A request for several heights of which one stands twice fails, whichever blocks are cached
      -- and whatever the source answers.
      pub get_by_numbers-repeated :
          (source : ℕ → Option (BlockAndReceipts a)) (db : Option (ℕ → Option ℕ))
          (collect_blocks : List ℕ → Option (List (BlockAndReceipts a))) (h : ℕ)
          (before between rest : List ℕ) (s : BlockStore keys a lru)
          → (get_by_numbers keys a lru gap_blocks source db collect_blocks
              (before ++ h ∷ (between ++ h ∷ rest))
              s).0
            ≡ none
      unfolding get_by_numbers
      get_by_numbers-repeated source db collect_blocks h before between rest s =
          answer_heights-repeated source db h before between rest _ _ _
