-- ===== src/PseudoPeer/LastLineText.antt =====
-- The last newline of a text, and slices of it, as the search for the last line of
-- src/pseudo_peer/sources/hl_node/file_ops.rs takes them.
use nanoreth.Prelude.{
  ℕ, zero, suc, ◌+◌, ◌-◌, ◌≤◌, ◌≡◌, ◌∙◌, refl, ap, true, List, [], ◌∷◌, ◌++◌, none, some, arith,
  length, take, drop,
}
use nanoreth.PseudoPeer.Lines.{Unbroken, ends_with, ends_with-append, newline, pop, pop-append}
use nanoreth.PseudoPeer.LastLine.{split_last, strip_newline}

pub split_last-Unbroken : (line : List ℕ) → Unbroken line → split_last line ≡ none
unfolding split_last
split_last-Unbroken [] h = refl
split_last-Unbroken (c ∷ line) h = ground (arith, h.0, split_last-Unbroken line h.1)

pub split_last-append :
    (before line : List ℕ)
    → Unbroken line
    → split_last (before ++ newline ∷ line) ≡ some (before, line)
unfolding split_last
split_last-append [] line h = rw (split_last-Unbroken line h) (ground arith)
split_last-append (c ∷ before) line h = rw (split_last-append before line h) refl

pub drop-length {ℓ} : {A : Type ℓ} (xs : List A) → drop (length xs) xs ≡ []
drop-length [] = refl
drop-length (x ∷ xs) = drop-length xs

pub drop-append_le {ℓ} :
    {A : Type ℓ} (n : ℕ) (xs ys : List A) → n ≤ length xs → drop n (xs ++ ys) ≡ drop n xs ++ ys
drop-append_le zero xs ys h = refl
drop-append_le (suc n) [] ys h = absurd (omega (arith, h))
drop-append_le (suc n) (x ∷ xs) ys h = drop-append_le n xs ys (omega (arith, h))

pub drop-append_ge {ℓ} :
    {A : Type ℓ} (n : ℕ) (xs ys : List A)
    → length xs ≤ n
    → drop n (xs ++ ys) ≡ drop (n - length xs) ys
drop-append_ge n [] ys h = ap (λ m. drop m ys) (omega arith)
drop-append_ge zero (x ∷ xs) ys h = absurd (omega (arith, h))
drop-append_ge (suc n) (x ∷ xs) ys h =
    drop-append_ge n xs ys (omega (arith, h)) ∙ ap (λ m. drop m ys) (omega arith)

-- A slice of a list, and what follows it.
pub take-drop {ℓ} :
    {A : Type ℓ} (size n : ℕ) (xs rest : List A)
    → n + size ≤ length xs
    → take size (drop n (xs ++ rest)) ++ drop (n + size) xs ≡ drop n xs
take-drop zero n xs rest h = ap (λ m. drop m xs) (omega arith)
take-drop (suc size) zero [] rest h = absurd (omega (arith, h))
take-drop (suc size) zero (x ∷ xs) rest h =
    let next : 0 + suc size ≡ suc size = omega arith in
    let rest' : 0 + size ≡ size = omega arith in
    rw next (ap (◌∷◌ x) (rw rest' at (take-drop size zero xs rest (omega (arith, h)))))
take-drop size (suc n) [] rest h = absurd (omega (arith, h))
take-drop size (suc n) (x ∷ xs) rest h =
    let next : suc n + size ≡ suc (n + size) = omega arith in
    rw next (take-drop size n xs rest (omega (arith, h)))

pub Unbroken-drop : (n : ℕ) (line : List ℕ) → Unbroken line → Unbroken (drop n line)
Unbroken-drop zero line h = h
Unbroken-drop (suc n) [] h = h
Unbroken-drop (suc n) (c ∷ line) h = Unbroken-drop n line h.1

pub ends_with-append_right :
    (c : ℕ) (xs : List ℕ) (y : ℕ) (ys : List ℕ) → ends_with c (xs ++ y ∷ ys) ≡ ends_with c (y ∷ ys)
unfolding ends_with
ends_with-append_right c [] y ys = refl
ends_with-append_right c (x ∷ []) y ys = refl
ends_with-append_right c (x ∷ z ∷ xs) y ys = ends_with-append_right c (z ∷ xs) y ys

pub ends_with-cons : (y x : ℕ) (xs : List ℕ) → ends_with y (y ∷ x ∷ xs) ≡ ends_with y (x ∷ xs)
unfolding ends_with
ends_with-cons y x xs = refl

pub strip-append : (line : List ℕ) → strip_newline (line ++ newline ∷ []) ≡ line
unfolding ends_with pop strip_newline
strip-append line =
    let ends : ends_with newline (line ++ newline ∷ []) ≡ true =
      ends_with-append newline newline line ∙ ground arith in
    rw (ends, pop-append newline line) refl
