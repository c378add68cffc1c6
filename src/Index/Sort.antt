-- ===== src/Index/Sort.antt =====
-- crates/scour-index-native: `sort_unstable_by_key`, as an insertion sort.
use scour.Prelude.{
  ℕ, ◌≤◌, ◌≡◌, refl, Bool, ◌||◌, some, List, [], ◌∷◌, leb, ◌==◌, if◌then◌else◌, arith, inl, inr,
  Bool-cases, get_elem?, All, All-get_elem?, any, has, zero, suc, length, ◌∙◌, sym,
}

-- `sort_unstable_by_key`: insertion, in order of a number.
unfoldable pub insert_by {ℓ} : {A : Type ℓ} → (A → ℕ) → A → List A → List A
insert_by f a [] = a ∷ []
insert_by f a (b ∷ bs) =
    let rest = insert_by f a bs in if leb (f a) (f b) then a ∷ b ∷ bs else b ∷ rest

unfoldable pub sort_by {ℓ} : {A : Type ℓ} → (A → ℕ) → List A → List A
unfolding insert_by
sort_by f [] = []
sort_by f (a ∷ l) = insert_by f a (sort_by f l)

module _ {ℓ κ} {A : Type ℓ} (P : A → Type κ) (f : A → ℕ) where
  insert_by-All : (a : A) (l : List A) → P a → All P l → All P (insert_by f a l)
  unfolding insert_by
  insert_by-All a [] p h = (p, h)
  insert_by-All a (b ∷ l) p (q, h) = elim (Bool-cases (leb (f a) (f b))) [
    | inl e ↦ rw e (p, (q, h))
    | inr e ↦ rw e (q, insert_by-All a l p h)
  ]

  pub sort_by-All : (l : List A) → All P l → All P (sort_by f l)
  unfolding sort_by
  sort_by-All [] h = h
  sort_by-All (a ∷ l) (p, h) = insert_by-All a (sort_by f l) p (sort_by-All l h)

module _ {ℓ} {A : Type ℓ} (p : A → Bool) (f : A → ℕ) where
  any-insert_by : (a : A) (l : List A) → any p (insert_by f a l) ≡ (p a || any p l)
  unfolding insert_by
  any-insert_by a [] = refl
  any-insert_by a (b ∷ l) = ground (arith, any-insert_by a l)

  pub any-sort_by : (l : List A) → any p (sort_by f l) ≡ any p l
  unfolding sort_by
  any-sort_by [] = refl
  any-sort_by (a ∷ l) = ground (arith, any-insert_by a (sort_by f l), any-sort_by l)

-- In order of the number.
abbrev pub RisesBy {ℓ} : {A : Type ℓ} → (A → ℕ) → List A → Type 0
RisesBy f [] = Unit
RisesBy f (x ∷ xs) = All (λ y. f x ≤ f y) xs × RisesBy f xs

module _ {ℓ} {A : Type ℓ} (f : A → ℕ) where
  All-le : (a b : A) (l : List A) → f a ≤ f b → All (λ y. f b ≤ f y) l → All (λ y. f a ≤ f y) l
  All-le a b [] h k = k
  All-le a b (c ∷ l) h (p, k) = (omega arith, All-le a b l h k)

  insert_by-RisesBy : (a : A) (l : List A) → RisesBy f l → RisesBy f (insert_by f a l)
  unfolding insert_by
  insert_by-RisesBy a [] h = (tt, tt)
  insert_by-RisesBy a (b ∷ l) (p, h) = elim (Bool-cases (leb (f a) (f b))) [
    | inl e ↦ let le : f a ≤ f b = ground arith in rw e ((le, All-le a b l le p), (p, h))
    | inr e ↦
        let le : f b ≤ f a = ground arith in
        rw e (insert_by-All (λ y. f b ≤ f y) f a l le p, insert_by-RisesBy a l h)
  ]

  pub sort_by-RisesBy : (l : List A) → RisesBy f (sort_by f l)
  unfolding sort_by
  sort_by-RisesBy [] = tt
  sort_by-RisesBy (a ∷ l) = insert_by-RisesBy a (sort_by f l) (sort_by-RisesBy l)

  pub RisesBy-le :
      (l : List A) (i j : ℕ) (a b : A)
      → RisesBy f l
      → i ≤ j
      → get_elem? l i ≡ some a
      → get_elem? l j ≡ some b
      → f a ≤ f b
  RisesBy-le [] i j a b h p e g = absurd (cc)
  RisesBy-le (x ∷ l) zero zero a b h p e g = ground arith
  RisesBy-le (x ∷ l) zero (suc j) a b (le, h) p e g =
      ground (arith, All-get_elem? (λ y. f x ≤ f y) l j b le g)
  RisesBy-le (x ∷ l) (suc i) zero a b h p e g = absurd (omega arith)
  RisesBy-le (x ∷ l) (suc i) (suc j) a b (le, h) p e g = RisesBy-le l i j a b h (omega arith) e g

  pub length-insert_by : (a : A) (l : List A) → length (insert_by f a l) ≡ suc (length l)
  unfolding insert_by
  length-insert_by a [] = refl
  length-insert_by a (b ∷ l) = ground (arith, length-insert_by a l)

  pub length-sort_by : (l : List A) → length (sort_by f l) ≡ length l
  unfolding sort_by
  length-sort_by [] = refl
  length-sort_by (a ∷ l) = omega (arith, length-insert_by a (sort_by f l), length-sort_by l)

pub has-any : (x : ℕ) (l : List ℕ) → has x l ≡ any (λ y. y == x) l
has-any x [] = refl
has-any x (y ∷ l) = ground (arith, has-any x l)

pub has-sort_by : (x : ℕ) (l : List ℕ) → has x (sort_by (λ k. k) l) ≡ has x l
has-sort_by x l =
    has-any x (sort_by (λ k. k) l) ∙ any-sort_by (λ y. y == x) (λ k. k) l ∙ sym (has-any x l)
