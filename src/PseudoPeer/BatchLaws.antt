-- ===== src/PseudoPeer/BatchLaws.antt =====
-- Fetching in batches gives what fetching one by one gives.
use nanoreth.Prelude.{
  Result, ok, err, ℕ, zero, suc, ◌-◌, ◌+◌, ◌≤◌, ◌<◌, ◌≡◌, refl, sym, ap, ◌∙◌, ◌*◌, ◌^◌, ◌/◌, ◌%◌,
  ltb, List, [], ◌∷◌, ◌++◌, map, Option, none, some, arith, length, take, drop, All, Option-cases,
  Bool-cases, inl, inr,
}
use nanoreth.PseudoPeer.Batches.{
  ◌>>=◌, batch_size, chunks, chunks_fuel, collect, extend_all, name_with_largest_number,
  rpc_collect_blocks, s3_collect_blocks, rmp_path,
}

take-drop {ℓ} : {A : Type ℓ} (n : ℕ) (xs : List A) → take n xs ++ drop n xs ≡ xs
take-drop zero xs = refl
take-drop (suc n) [] = refl
take-drop (suc n) (x ∷ xs) = ap (◌∷◌ x) (take-drop n xs)

length-take_le {ℓ} : {A : Type ℓ} (n : ℕ) (xs : List A) → length (take n xs) ≤ n
length-take_le zero xs = omega arith
length-take_le (suc n) [] = omega arith
length-take_le (suc n) (x ∷ xs) = omega (arith, length-take_le n xs)

length-drop_le {ℓ} : {A : Type ℓ} (n : ℕ) (xs : List A) → length (drop n xs) ≤ length xs
length-drop_le zero xs = omega arith
length-drop_le (suc n) [] = omega arith
length-drop_le (suc n) (x ∷ xs) = omega (arith, length-drop_le n xs)

bind_ok {ℓ κ} : {E : Type ℓ} {B : Type κ} (r : Result E B) → r ≡ (r >>= λ b. ok b)
bind_ok (ok b) = refl
bind_ok (err e) = refl

bind_cons {ℓ κ} :
    {E : Type ℓ} {B : Type κ} (r : Result E B) (p q : Result E (List B))
    → (r >>= λ b. (p >>= λ bs. q >>= λ cs. ok (bs ++ cs)) >>= λ ds. ok (b ∷ ds))
      ≡ ((r >>= λ b. p >>= λ bs. ok (b ∷ bs)) >>= λ bs. q >>= λ cs. ok (bs ++ cs))
bind_cons (err e) p q = refl
bind_cons (ok b) (err e) q = refl
bind_cons (ok b) (ok bs) (err e) = refl
bind_cons (ok b) (ok bs) (ok cs) = refl

collect-append {ℓ κ ι} :
    {E : Type ℓ} {A : Type κ} {B : Type ι} (f : A → Result E B) (xs ys : List A)
    → collect f (xs ++ ys) ≡ (collect f xs >>= λ bs. collect f ys >>= λ cs. ok (bs ++ cs))
unfolding collect
collect-append f [] ys = bind_ok (collect f ys)
collect-append f (x ∷ xs) ys =
    rw (collect-append f xs ys) (bind_cons (f x) (collect f xs) (collect f ys))

-- Every chunk is within the size.
pub chunks_fuel-length {ℓ} :
    {A : Type ℓ} (fuel size : ℕ) (xs : List A)
    → All (λ c. length c ≤ size) (chunks_fuel fuel size xs)
unfolding chunks_fuel
chunks_fuel-length fuel size [] = tt
chunks_fuel-length zero size (x ∷ xs) = tt
chunks_fuel-length (suc fuel) size (x ∷ xs) =
    (length-take_le size (x ∷ xs), chunks_fuel-length fuel size (drop size (x ∷ xs)))

module _ {ℓ κ ι} {E : Type ℓ} {A : Type κ} {B : Type ι} (request : List A → Result E (List B))
    (f : A → Result E B) (size : ℕ)
    (answers : (xs : List A) → length xs ≤ suc size → request xs ≡ collect f xs) where
  extend_all-chunks_fuel :
      (fuel : ℕ) (xs : List A)
      → length xs ≤ fuel
      → extend_all (map request (chunks_fuel fuel (suc size) xs)) ≡ collect f xs
  unfolding extend_all chunks_fuel collect
  extend_all-chunks_fuel fuel [] h = refl
  extend_all-chunks_fuel zero (x ∷ xs) h = absurd (omega (arith, h))
  extend_all-chunks_fuel (suc fuel) (x ∷ xs) h =
      let rest =
        extend_all-chunks_fuel fuel (drop size xs) (omega (arith, h, length-drop_le size xs)) in
      let here = answers (x ∷ take size xs) (omega (arith, length-take_le size xs)) in
      let whole = collect-append f (x ∷ take size xs) (drop size xs) in
      rw (here, rest) (sym whole ∙ ap (collect f) (ap (◌∷◌ x) (take-drop size xs)))

-- Blocks fetched from another node in batches are the blocks fetched one by one, in the same order
-- and with the same first error, when a request for at most 500 heights is answered so.
pub rpc_collect_blocks-collect {ℓ κ} :
    {E : Type ℓ} {B : Type κ} (request : List ℕ → Result E (List B)) (f : ℕ → Result E B)
    → ((hs : List ℕ) → length hs ≤ batch_size → request hs ≡ collect f hs)
    → (heights : List ℕ) → rpc_collect_blocks request heights ≡ collect f heights
unfolding rpc_collect_blocks chunks
rpc_collect_blocks-collect request f h heights =
    extend_all-chunks_fuel request f 499 h (length heights) heights (omega arith)

-- Blocks fetched from S3 in batches are the blocks fetched one by one, in the same order and with
-- the same first error.
pub s3_collect_blocks-collect {ℓ κ} :
    {E : Type ℓ} {B : Type κ} (collect_block : ℕ → Result E B) (heights : List ℕ)
    → s3_collect_blocks collect_block heights ≡ collect collect_block heights
unfolding s3_collect_blocks chunks
s3_collect_blocks-collect collect_block heights =
    extend_all-chunks_fuel (collect collect_block) collect_block 999 (λ xs h. refl) (length heights)
      heights (omega arith)

-- Two heights that fit 64 bits and lie in the same thousand, counted from 1, share their
-- directories, the lower of which is named by the start of the thousand.
pub rmp_path-directory :
    (m n k : ℕ)
    → m < 1000
    → n < 1000
    → 1000 * k + 1000 < 2 ^ 64
    → ((rmp_path (1000 * k + m + 1)).0 ≡ (rmp_path (1000 * k + n + 1)).0)
      × ((rmp_path (1000 * k + m + 1)).1.0 ≡ 1000 * k)
unfolding rmp_path
rmp_path-directory m n k h g small =
    let wrap : (m' : ℕ) → m' < 1000 → (1000 * k + m' + 1 + 2 ^ 64 - 1) % 2 ^ 64 ≡ 1000 * k + m' =
      λ m' h'. omega (arith, h', small) in
    let million : (m' : ℕ) → m' < 1000 → (1000 * k + m') / 1000000 ≡ k / 1000 =
      λ m' h'. omega (arith, h') in
    let thousand : (1000 * k + m) / 1000 ≡ k = omega (arith, h) in
    rw (wrap m h, wrap n g, million m h, million n g, thousand) (refl, omega arith)

none_found {ℓ} :
    {S : Type ℓ} (number : S → Option ℕ) (files : List S)
    → name_with_largest_number number files ≡ none
    → All (λ f. (n m : ℕ) → number f ≡ some m → m ≤ n) files
unfolding name_with_largest_number
none_found number [] e = tt
none_found number (f ∷ files) e = elim (Option-cases (number f)) [
  | inl h ↦ (λ n m g. absurd (ground (arith, g, h)), none_found number files (ground (arith, e, h)))
  | inr (m, h) ↦ absurd (ground (arith, e, h))
]

All-map_le {ℓ} :
    {S : Type ℓ} (number : S → Option ℕ) (files : List S) (a b : ℕ)
    → a ≤ b
    → All (λ f. (m : ℕ) → number f ≡ some m → m ≤ a) files
    → All (λ f. (m : ℕ) → number f ≡ some m → m ≤ b) files
All-map_le number [] a b h k = tt
All-map_le number (f ∷ files) a b h k =
    (λ m e. omega (arith, h, k.0 m e), All-map_le number files a b h k.1)

none_found_le {ℓ} :
    {S : Type ℓ} (number : S → Option ℕ) (files : List S) (b : ℕ)
    → All (λ f. (n m : ℕ) → number f ≡ some m → m ≤ n) files
    → All (λ f. (m : ℕ) → number f ≡ some m → m ≤ b) files
none_found_le number [] b k = tt
none_found_le number (f ∷ files) b k = (k.0 b, none_found_le number files b k.1)

-- The name that is picked has a number that none of the names exceeds.
pub name_with_largest_number-max {ℓ} :
    {S : Type ℓ} (number : S → Option ℕ) (files : List S) (n : ℕ) (file : S)
    → name_with_largest_number number files ≡ some (n, file)
    → (number file ≡ some n) × All (λ f. (m : ℕ) → number f ≡ some m → m ≤ n) files
unfolding name_with_largest_number
name_with_largest_number-max number [] n file e = absurd (ground (arith, e))
name_with_largest_number-max number (f ∷ files) n file e = elim (Option-cases (number f)) [
  | inl h ↦
      let (found, rest) = name_with_largest_number-max number files n file (ground (arith, e, h)) in
      (found, (λ m g. absurd (ground (arith, g, h)), rest))
  | inr (v, h) ↦ elim (Option-cases (name_with_largest_number number files)) [
    | inl none_left ↦
        let same : v ≡ n = ground (arith, e, h, none_left) in
        let here : f ≡ file = ground (arith, e, h, none_left) in
        (
          ap number (sym here) ∙ h ∙ ap some same,
          (
            (λ m g. ground (arith, g, h, same)),
            none_found_le number files n (none_found number files none_left),
          ),
        )
    | inr ((w, other), left) ↦
        let (found, rest) = name_with_largest_number-max number files w other left in
        elim (Bool-cases (ltb w v)) [
          | inl b ↦
              let same : v ≡ n = ground (arith, e, h, left, b) in
              let here : f ≡ file = ground (arith, e, h, left, b) in
              (
                ap number (sym here) ∙ h ∙ ap some same,
                (
                  (λ m g. ground (arith, g, h, same)),
                  All-map_le number files w n (ground (arith, b, same)) rest,
                ),
              )
          | inr b ↦
              let same : w ≡ n = ground (arith, e, h, left, b) in
              let here : other ≡ file = ground (arith, e, h, left, b) in
              (
                ap number (sym here) ∙ found ∙ ap some same,
                (
                  (λ m g. ground (arith, g, h, b, same)),
                  All-map_le number files w n (ground (arith, b, same)) rest,
                ),
              )
        ]
  ]
]
