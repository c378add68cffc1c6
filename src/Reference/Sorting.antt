-- ===== src/Reference/Sorting.antt =====
-- crates/scour-mock/src/reference.rs: the order and the length of what `sort_with` gives.
use Prim.Native.Nat.{Ordering}
use scour.Prelude.{
  ℕ, zero, suc, ◌≡◌, refl, true, false, List, [], ◌∷◌, take, length, arith, Bool-cases, inl, inr,
  subst,
}
use scour.Reference.Order.{swap, not_after, insert_with, sort_with}

-- Each stands before the next, or level with it.
abbrev pub InOrder {ℓ} : {A : Type ℓ} → (A → A → Ordering) → List A → Type 0
InOrder cmp [] = Unit
InOrder cmp (a ∷ []) = Unit
InOrder cmp (a ∷ b ∷ l) = (not_after (cmp a b) ≡ true) × InOrder cmp (b ∷ l)

module _ {ℓ} {A : Type ℓ} (cmp : A → A → Ordering)
    (swaps : (a b : A) → cmp b a ≡ swap (cmp a b)) where
  other_way : (a b : A) → not_after (cmp a b) ≡ false → not_after (cmp b a) ≡ true
  other_way a b h = ground (arith, swaps a b)

  insert_after :
      (a b : A) (l : List A)
      → not_after (cmp a b) ≡ false
      → insert_with cmp a (b ∷ l) ≡ b ∷ insert_with cmp a l
  unfolding insert_with
  insert_after a b l h = rw (insert_with, h) refl

  insert_with-InOrder : (a : A) (l : List A) → InOrder cmp l → InOrder cmp (insert_with cmp a l)
  unfolding insert_with
  insert_with-InOrder a [] h = tt
  insert_with-InOrder a (b ∷ []) h = elim (Bool-cases (not_after (cmp a b))) [
    | inl e ↦ rw e (e, tt)
    | inr e ↦ rw e (other_way a b e, tt)
  ]
  insert_with-InOrder a (b ∷ c ∷ l) (p, h) = elim (Bool-cases (not_after (cmp a b))) [
    | inl e ↦ rw e (e, (p, h))
    | inr e ↦
        let rest = insert_with-InOrder a (c ∷ l) h in
        elim (Bool-cases (not_after (cmp a c))) [
          | inl g ↦ rw (e, g) (other_way a b e, (g, h))
          | inr g ↦ rw (e, g) (p, subst (InOrder cmp) (insert_after a c l g) rest)
        ]
  ]

  pub sort_with-InOrder : (l : List A) → InOrder cmp (sort_with cmp l)
  unfolding sort_with
  sort_with-InOrder [] = tt
  sort_with-InOrder (a ∷ l) = insert_with-InOrder a (sort_with cmp l) (sort_with-InOrder l)

module _ {ℓ} {A : Type ℓ} (cmp : A → A → Ordering) where
  pub take-InOrder : (n : ℕ) (l : List A) → InOrder cmp l → InOrder cmp (take n l)
  take-InOrder zero l h = tt
  take-InOrder (suc n) [] h = tt
  take-InOrder (suc zero) (a ∷ l) h = tt
  take-InOrder (suc (suc n)) (a ∷ []) h = tt
  take-InOrder (suc (suc n)) (a ∷ b ∷ l) (p, h) = (p, take-InOrder (suc n) (b ∷ l) h)

  length-insert_with : (a : A) (l : List A) → length (insert_with cmp a l) ≡ suc (length l)
  unfolding insert_with
  length-insert_with a [] = refl
  length-insert_with a (b ∷ l) = ground (arith, length-insert_with a l)

  pub length-sort_with : (l : List A) → length (sort_with cmp l) ≡ length l
  unfolding sort_with
  length-sort_with [] = refl
  length-sort_with (a ∷ l) =
      omega (arith, length-insert_with a (sort_with cmp l), length-sort_with l)
