-- ===== src/Core/Fold/Laws.antt =====
-- crates/scour-core/src/text.rs: the offsets that the folding keeps.
use scour.Prelude.{
  ℕ, zero, suc, ◌+◌, ◌≤◌, ◌≡◌, refl, ◌∙◌, false, List, [], ◌∷◌, ◌++◌, Str, length, length-append,
  arith, All, All-append, ◌==◌, ◌||◌, Bool-cases, inl, inr,
}
use scour.Core.Fold.{
  Std, fold_lower, len_utf8, byte_len, repeat_n, fold, fold_indexed_from, fold_indexed, dot_above,
  dotless_i,
}

byte_len-append : (s t : Str) → byte_len (s ++ t) ≡ byte_len s + byte_len t
unfolding byte_len
byte_len-append [] t = omega arith
byte_len-append (c ∷ s) t = omega (arith, byte_len-append s t)

length-repeat_n : (n x : ℕ) → length (repeat_n n x) ≡ n
length-repeat_n zero x = refl
length-repeat_n (suc n) x = omega (arith, length-repeat_n n x)

-- No dot above and no dotless i is left in what is folded.
abbrev pub Plain : ℕ → Type 0
Plain c = (c == dot_above || c == dotless_i) ≡ false

fold_lower-Plain : (s : Str) → All Plain (fold_lower s)
unfolding fold_lower
fold_lower-Plain [] = tt
fold_lower-Plain (c ∷ s) = elim (Bool-cases (c == dot_above)) [
  | inl e ↦ rw (e) (fold_lower-Plain s)
  | inr e ↦ elim (Bool-cases (c == dotless_i)) [
    | inl k ↦ rw (e, k) (refl, fold_lower-Plain s)
    | inr k ↦ rw (e, k) ((rw (e, k)), fold_lower-Plain s)
  ]
]

abbrev pub Within : ℕ → ℕ → ℕ → Type 0
Within lo hi o = (lo ≤ o) × (o ≤ hi)

abbrev pub Rising : List ℕ → Type 0
Rising [] = Unit
Rising (o ∷ os) = All (λ p. o ≤ p) os × Rising os

widen :
    (lo lo' hi hi' : ℕ) (os : List ℕ)
    → lo' ≤ lo
    → hi ≤ hi'
    → All (Within lo hi) os
    → All (Within lo' hi') os
widen lo lo' hi hi' [] l h w = tt
widen lo lo' hi hi' (o ∷ os) l h ((a, b), w) =
    ((omega arith, omega arith), widen lo lo' hi hi' os l h w)

module _ (std : Std) where
  open std use {to_lowercase}

  fold_indexed_from-fold : (i : ℕ) (s : Str) → (fold_indexed_from std i s).0 ≡ fold std s
  unfolding fold_indexed_from fold
  fold_indexed_from-fold i [] = refl
  fold_indexed_from-fold i (c ∷ s) = rw (fold_indexed_from-fold (i + len_utf8 c) s)

  -- The text that `fold_indexed` gives is that of `fold`.
  pub fold_indexed-fold : (s : Str) → (fold_indexed std s).0 ≡ fold std s
  unfolding fold_indexed
  fold_indexed-fold s = fold_indexed_from-fold 0 s

  offsets-length :
      (i : ℕ) (s : Str)
      → length (fold_indexed_from std i s).1 ≡ byte_len (fold_indexed_from std i s).0 + 1
  unfolding fold_indexed_from
  offsets-length i [] = refl
  offsets-length i (c ∷ s) = omega (
    arith,
    length-append (repeat_n (byte_len (fold_lower (to_lowercase c))) i)
        (fold_indexed_from std (i + len_utf8 c) s).1,
    length-repeat_n (byte_len (fold_lower (to_lowercase c))) i,
    byte_len-append (fold_lower (to_lowercase c)) (fold_indexed_from std (i + len_utf8 c) s).0,
    offsets-length (i + len_utf8 c) s,
  )

  -- One offset for each byte of the folded text, and one for its end.
  pub length-fold_indexed : (s : Str) → length (fold_indexed std s).1 ≡ byte_len (fold std s) + 1
  unfolding fold_indexed
  length-fold_indexed s = offsets-length 0 s ∙ rw (fold_indexed_from-fold 0 s)

  -- What is folded has no dot above and no dotless i.
  pub fold-Plain : (s : Str) → All Plain (fold std s)
  unfolding fold
  fold-Plain [] = tt
  fold-Plain (c ∷ s) =
      All-append Plain (fold_lower (to_lowercase c)) (fold std s)
        (fold_lower-Plain (to_lowercase c)) (fold-Plain s)
