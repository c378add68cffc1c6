-- ===== src/Source/Rules/Lists.antt =====
-- crates/scour-source-fs/src/rules.rs: sequences of names, forwards and backwards.
use scour.Prelude.{
  ℕ, zero, suc, ◌+◌, ◌-◌, ◌≤◌, ◌≡◌, refl, true, ◌&&◌, List, [], ◌∷◌, ◌++◌, append_assoc, length,
  length-append, take, drop, take-append-drop, map, reverse, arith, sym, ◌∙◌, ap, Bool_ext, Str,
  str_eq, str_eq→eq, str_eq_refl,
}
use mathlib.Core.List.{reverse-append, reverse-reverse, reverse-cons}
use scour.Source.Rules.{Seq, seq_eq, all_zip}

pub seq_eq→eq : (s t : Seq) → seq_eq s t ≡ true → s ≡ t
unfolding seq_eq
seq_eq→eq [] [] h = refl
seq_eq→eq [] (b ∷ t) h = absurd (cc)
seq_eq→eq (a ∷ s) [] h = absurd (cc)
seq_eq→eq (a ∷ s) (b ∷ t) h = ground (arith, str_eq→eq a b, seq_eq→eq s t)

pub seq_eq_refl : (s : Seq) → seq_eq s s ≡ true
unfolding seq_eq
seq_eq_refl [] = refl
seq_eq_refl (a ∷ s) = ground (arith, str_eq_refl a, seq_eq_refl s)

pub eq→seq_eq : (s t : Seq) → s ≡ t → seq_eq s t ≡ true
eq→seq_eq s t h = ap (λ x. seq_eq s x) (sym h) ∙ seq_eq_refl s

pub seq_eq-reverse : (s t : Seq) → seq_eq (reverse s) (reverse t) ≡ seq_eq s t
seq_eq-reverse s t =
    Bool_ext (seq_eq (reverse s) (reverse t)) (seq_eq s t)
      (λ h. eq→seq_eq s t (
        sym (reverse-reverse s)
        ∙ ap reverse (seq_eq→eq (reverse s) (reverse t) h)
        ∙ reverse-reverse t))
      (λ h. eq→seq_eq (reverse s) (reverse t) (ap reverse (seq_eq→eq s t h)))

module _ {ℓ} {A : Type ℓ} where
  pub length-reverse : (l : List A) → length (reverse l) ≡ length l
  length-reverse [] = refl
  length-reverse (a ∷ l) =
      ap length (reverse-cons a l)
      ∙ omega (arith, length-append (reverse l) (a ∷ []), length-reverse l)

  pub length-take : (n : ℕ) (l : List A) → n ≤ length l → length (take n l) ≡ n
  length-take zero l h = refl
  length-take (suc n) [] h = absurd (omega arith)
  length-take (suc n) (a ∷ l) h = omega (arith, length-take n l (omega arith))

  pub length-drop : (n : ℕ) (l : List A) → length (drop n l) ≡ length l - n
  length-drop zero l = omega arith
  length-drop (suc n) [] = omega arith
  length-drop (suc n) (a ∷ l) = omega (arith, length-drop n l)

  pub take-append : (xs ys : List A) → take (length xs) (xs ++ ys) ≡ xs
  take-append [] ys = refl
  take-append (x ∷ xs) ys = ap (λ l. x ∷ l) (take-append xs ys)

  pub drop-append : (xs ys : List A) → drop (length xs) (xs ++ ys) ≡ ys
  drop-append [] ys = refl
  drop-append (x ∷ xs) ys = drop-append xs ys

  pub take-drop-take :
      (l from n : ℕ) (xs : List A)
      → from + l ≤ n
      → take l (drop from (take n xs)) ≡ take l (drop from xs)
  take-drop-take zero from n xs h = refl
  take-drop-take (suc l) zero zero xs h = absurd (omega arith)
  take-drop-take (suc l) zero (suc n) [] h = refl
  take-drop-take (suc l) zero (suc n) (x ∷ xs) h =
      ap (λ t. x ∷ t) (take-drop-take l zero n xs (omega arith))
  take-drop-take (suc l) (suc from) zero xs h = absurd (omega arith)
  take-drop-take (suc l) (suc from) (suc n) [] h = refl
  take-drop-take (suc l) (suc from) (suc n) (x ∷ xs) h =
      take-drop-take (suc l) from n xs (omega arith)

  -- What stands before the last `from` of a list, `l` of them, is read backwards from the front.
  pub take-drop-reverse :
      (l from : ℕ) (xs : List A)
      → from + l ≤ length xs
      → take l (drop from (reverse xs)) ≡ reverse (take l (drop (length xs - from - l) xs))
  take-drop-reverse l from xs h =
      let k : ℕ = length xs - from - l in
      let front = take k xs in
      let mid = take l (drop k xs) in
      let back = drop l (drop k xs) in
      let whole : xs ≡ front ++ (mid ++ back) =
        sym (take-append-drop k xs) ∙ ap (λ t. front ++ t) (sym (take-append-drop l (drop k xs))) in
      let turned : reverse xs ≡ reverse back ++ (reverse mid ++ reverse front) =
        ap reverse whole
        ∙ reverse-append front (mid ++ back)
        ∙ ap (λ t. t ++ reverse front) (reverse-append mid back)
        ∙ append_assoc (reverse back) (reverse mid) (reverse front) in
      let size : from ≡ length (reverse back) =
        omega (arith, length-reverse back, length-drop l (drop k xs), length-drop k xs) in
      let size' : l ≡ length (reverse mid) =
        omega (
          arith,
          length-reverse mid,
          length-take l (drop k xs) (omega (arith, length-drop k xs)),
        ) in
      ap (λ t. take l (drop from t)) turned
      ∙ ap (λ n. take l (drop n (reverse back ++ (reverse mid ++ reverse front)))) size
      ∙ ap (take l) (drop-append (reverse back) (reverse mid ++ reverse front))
      ∙ ap (λ n. take n (reverse mid ++ reverse front)) size'
      ∙ take-append (reverse mid) (reverse front)

module _ {ℓ κ} {A : Type ℓ} {B : Type κ} (f : A → B) where
  pub map-take : (n : ℕ) (l : List A) → map f (take n l) ≡ take n (map f l)
  map-take zero l = refl
  map-take (suc n) [] = refl
  map-take (suc n) (a ∷ l) = ap (λ t. f a ∷ t) (map-take n l)

  pub map-drop : (n : ℕ) (l : List A) → map f (drop n l) ≡ drop n (map f l)
  map-drop zero l = refl
  map-drop (suc n) [] = refl
  map-drop (suc n) (a ∷ l) = map-drop n l

-- A test on pairs that compares images is a comparison with the front of the images.
pub all_zip-seq_eq :
    (f : Str → Str) (ss ts : Seq)
    → length ss ≤ length ts
    → all_zip (λ s c. str_eq (f c) s) ss ts ≡ seq_eq (take (length ss) (map f ts)) ss
unfolding all_zip seq_eq
all_zip-seq_eq f [] ts h = refl
all_zip-seq_eq f (s ∷ ss) [] h = absurd (omega arith)
all_zip-seq_eq f (s ∷ ss) (t ∷ ts) h =
    ap (λ b. str_eq (f t) s && b) (all_zip-seq_eq f ss ts (omega arith))
