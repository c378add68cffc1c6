-- ===== src/Core/Prefix/Below.antt =====
-- crates/scour-core/src/types/prefix.rs: `under` and a plain recursion on the two paths.
use scour.Prelude.{
  ℕ, ◌≡◌, refl, Bool, true, false, ◌&&◌, ◌||◌, none, some, [], ◌∷◌, ◌==◌, Str, str_eq, strip_prefix,
  trim_end, length, is_empty, arith, Bool-cases, cons_unless_end, ◌∙◌, inl, inr, ◌<◌, Option-cases,
}
use scour.Core.Prefix.{slash, trim_slash, followed_by_slash, under, before_last}

-- `path` is `q`, or `q` and a slash begin it.
unfoldable pub below : Str → Str → Bool
below [] [] = true
below [] (c ∷ path) = c == slash
below (a ∷ q) [] = false
below (a ∷ q) (b ∷ path) = a == b && below q path

pub below-eq :
    (q path : Str) → (str_eq path q || followed_by_slash (strip_prefix q path)) ≡ below q path
unfolding below str_eq strip_prefix
below-eq [] [] = refl
below-eq [] (c ∷ path) = refl
below-eq (a ∷ q) [] = refl
below-eq (a ∷ q) (b ∷ path) = ground (arith, below-eq q path)

pub under-eq-below :
    (path prefix : Str)
    → under path prefix ≡ (is_empty (trim_slash prefix) || below (trim_slash prefix) path)
unfolding under
under-eq-below path prefix = ground (arith, below-eq (trim_slash prefix) path)

pub below_trans : (k p path : Str) → below k p ≡ true → below p path ≡ true → below k path ≡ true
unfolding below
below_trans [] [] path h g = g
below_trans [] (c ∷ p) [] h g = ground arith
below_trans [] (c ∷ p) (d ∷ path) h g = ground arith
below_trans (a ∷ k) [] path h g = ground arith
below_trans (a ∷ k) (c ∷ p) [] h g = ground arith
below_trans (a ∷ k) (c ∷ p) (d ∷ path) h g = ground (arith, below_trans k p path)

-- No slash at the end.
abbrev pub IsTrimmed : Str → Type 0
IsTrimmed [] = Unit
IsTrimmed (a ∷ []) = (a == slash) ≡ false
IsTrimmed (a ∷ b ∷ s) = IsTrimmed (b ∷ s)

IsTrimmed-tail : (a : ℕ) (s : Str) → IsTrimmed (a ∷ s) → IsTrimmed s
IsTrimmed-tail a [] h = tt
IsTrimmed-tail a (b ∷ s) h = h

abbrev is_slash : ℕ → Bool
is_slash c = c == slash

cons_unless_end-IsTrimmed :
    (a : ℕ) (r : Str) → IsTrimmed r → IsTrimmed (cons_unless_end is_slash a r)
cons_unless_end-IsTrimmed a [] h = elim (Bool-cases (a == slash)) [
  | inl e ↦ rw e tt
  | inr e ↦ rw e e
]
cons_unless_end-IsTrimmed a (b ∷ r) h = h

pub trim_slash-IsTrimmed : (s : Str) → IsTrimmed (trim_slash s)
unfolding trim_end
trim_slash-IsTrimmed [] = tt
trim_slash-IsTrimmed (a ∷ s) = cons_unless_end-IsTrimmed a (trim_slash s) (trim_slash-IsTrimmed s)

cons_unless_end_trimmed :
    (a : ℕ) (s : Str) → IsTrimmed (a ∷ s) → cons_unless_end is_slash a s ≡ a ∷ s
cons_unless_end_trimmed a [] h = rw h
cons_unless_end_trimmed a (b ∷ s) h = refl

-- Trimming a trimmed path changes nothing.
pub trim_slash_trimmed : (s : Str) → IsTrimmed s → trim_slash s ≡ s
unfolding trim_end
trim_slash_trimmed [] h = refl
trim_slash_trimmed (a ∷ s) h =
    rw (trim_slash_trimmed s (IsTrimmed-tail a s h)) (cons_unless_end_trimmed a s h)

below-cons_unless_end :
    (q : Str) (b : ℕ) (r : Str)
    → IsTrimmed q
    → below q (cons_unless_end is_slash b r) ≡ below q (b ∷ r)
unfolding below
below-cons_unless_end [] b [] h = ground arith
below-cons_unless_end q b (c ∷ r) h = refl
below-cons_unless_end (a ∷ []) b [] h = ground arith
below-cons_unless_end (a ∷ c ∷ q) b [] h = ground arith

below_cons_congr :
    (q : Str) (b : ℕ) (s t : Str)
    → ((q' : Str) → IsTrimmed q' → below q' s ≡ below q' t)
    → IsTrimmed q
    → below q (b ∷ s) ≡ below q (b ∷ t)
unfolding below
below_cons_congr [] b s t f h = refl
below_cons_congr (a ∷ q) b s t f h = rw (f q (IsTrimmed-tail a q h))

-- The slashes at the end of a path do not change what it is below.
pub below-trim_slash : (path q : Str) → IsTrimmed q → below q (trim_slash path) ≡ below q path
unfolding trim_end
below-trim_slash [] q h = refl
below-trim_slash (b ∷ path) q h =
    below-cons_unless_end q b (trim_slash path) h
    ∙ below_cons_congr q b (trim_slash path) path (below-trim_slash path) h

-- A path is below `q` if it is `q`, or if its parent is below `q` by more than being empty.
pub below_parent :
    (q p : Str)
    → followed_by_slash (strip_prefix q p) ≡ (elim (before_last slash p) [
      | none ↦ false
      | some front ↦ str_eq front q || followed_by_slash (strip_prefix q front)
    ])
unfolding before_last str_eq strip_prefix
below_parent [] [] = refl
below_parent (a ∷ q) [] = refl
below_parent [] (b ∷ p) = ground (arith, below_parent [] p)
below_parent (a ∷ q) (b ∷ p) = ground (arith, below_parent q p)

pub before_last-shorter :
    (p front : Str) → before_last slash p ≡ some front → length front < length p
unfolding before_last
before_last-shorter [] front h = ground arith
before_last-shorter (a ∷ p) front h = elim (Option-cases (before_last slash p)) [
  | inl e ↦ ground arith
  | inr (f, e) ↦ ground (arith, before_last-shorter p f e)
]
