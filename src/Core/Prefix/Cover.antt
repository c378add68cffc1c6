-- ===== src/Core/Prefix/Cover.antt =====
-- crates/scour-core/src/types/prefix.rs: `covers`, through the ancestors of the path, and the operations.
use scour.Prelude.{
  ℕ, zero, suc, ◌≤◌, ◌≡◌, refl, sym, true, false, not, ◌&&◌, ◌||◌, none, some, List, [], ◌∷◌, ◌++◌,
  Str, str_eq, str_eq→eq, str_eq_refl, strip_prefix, member, length, is_empty, arith, any, All,
  keep, any-append, Bool-cases, Option-cases, Bool_ext, ◌∙◌, inl, inr, ap,
}
use scour.Core.Prefix.{
  PrefixSet, slash, trim_slash, under, before_last, ancestors_from, ancestors, new, extend, covers,
  forget, followed_by_slash,
}
use scour.Core.Prefix.Below.{
  below, below-eq, under-eq-below, IsTrimmed, trim_slash_trimmed, below-trim_slash, below_parent,
  before_last-shorter,
}
use scour.Core.Prefix.Laws.{IsValid, any-reduce, reduce-IsValid, under-trim_slash}

str_eq_comm : (s t : Str) → str_eq s t ≡ str_eq t s
str_eq_comm s t =
    Bool_ext (str_eq s t) (str_eq t s) (λ h. rw (str_eq→eq s t h) (str_eq_refl t))
      (λ h. rw (str_eq→eq t s h) (str_eq_refl s))

-- The ancestors of `p` are the empty path and the paths that `p` is below.
member-ancestors_from :
    (f : ℕ) (p q : Str) → length p ≤ f → member q (ancestors_from f p) ≡ (is_empty q || below q p)
unfolding ancestors_from below str_eq
member-ancestors_from zero [] [] h = refl
member-ancestors_from zero [] (a ∷ q) h = refl
member-ancestors_from zero (b ∷ p) q h = absurd (omega arith)
member-ancestors_from (suc f) [] [] h = refl
member-ancestors_from (suc f) [] (a ∷ q) h = refl
member-ancestors_from (suc f) (b ∷ p) q h = elim (Option-cases (before_last slash (b ∷ p))) [
  | inl e ↦ rw e (
      ground (
        arith,
        at_root q,
        member-ancestors_from f [] q (omega arith),
        below-eq q (b ∷ p),
        none_below e,
      ))
  | inr (front, e) ↦ rw e (
      ground (
        arith,
        member-ancestors_from f front q (omega (arith, before_last-shorter (b ∷ p) front e)),
        below-eq q (b ∷ p),
        below-eq q front,
        some_below front e,
      ))
]
  where
    at_root : (r : Str) → below r [] ≡ is_empty r
    at_root [] = refl
    at_root (a ∷ r) = refl

    none_below :
        before_last slash (b ∷ p) ≡ none → followed_by_slash (strip_prefix q (b ∷ p)) ≡ false
    none_below e = rw e at (below_parent q (b ∷ p))

    some_below :
        (front : Str)
        → before_last slash (b ∷ p) ≡ some front
        → followed_by_slash (strip_prefix q (b ∷ p))
          ≡ (str_eq front q || followed_by_slash (strip_prefix q front))
    some_below front e = rw e at (below_parent q (b ∷ p))

member-ancestors : (path q : Str) → IsTrimmed q → member q (ancestors path) ≡ under path q
unfolding ancestors
member-ancestors path q h = ground (
  arith,
  member-ancestors_from (length (trim_slash path)) (trim_slash path) q (omega arith),
  under-eq-below path q,
  below-trim_slash path q h,
  trim_slash_trimmed q h,
)

any-member_cons :
    (q : Str) (l qs : List Str)
    → any (λ a. member a (q ∷ l)) qs ≡ (member q qs || any (λ a. member a l) qs)
any-member_cons q l [] = refl
any-member_cons q l (a ∷ qs) = ground (arith, any-member_cons q l qs, str_eq_comm q a)

any-member_nil : (qs : List Str) → any (λ a. member a []) qs ≡ false
any-member_nil [] = refl
any-member_nil (a ∷ qs) = any-member_nil qs

any-ancestors :
    (path : Str) (l : List Str)
    → All IsTrimmed l
    → any (λ a. member a l) (ancestors path) ≡ any (λ p. under path p) l
any-ancestors path [] h = any-member_nil (ancestors path)
any-ancestors path (q ∷ l) (t, h) =
    any-member_cons q l (ancestors path) ∙ rw (member-ancestors path q t, any-ancestors path l h)

-- Both ways of asking are a scan of the members.
pub covers-eq-any :
    (s : PrefixSet) (path : Str) → IsValid s → covers s path ≡ any (λ p. under path p) s.paths
unfolding covers
covers-eq-any s path v = go s.paths refl
  where
    hashed : any (λ a. member a s.lookup) (ancestors path) ≡ any (λ p. under path p) s.paths
    hashed = rw v.same (any-ancestors path s.paths v.trimmed)

    go : (l : List Str) → s.paths ≡ l → covers s path ≡ any (λ p. under path p) s.paths
    go [] e = rw e refl
    go (q ∷ l) e = ground (arith, hashed)

-- A set made from any paths covers exactly what is under one of those paths.
pub covers-new :
    (paths : List Str) (path : Str) → covers (new paths) path ≡ any (λ p. under path p) paths
unfolding new
covers-new paths path =
    covers-eq-any (new paths) path (reduce-IsValid (record { paths = paths; lookup = [] }))
    ∙ any-reduce path (record { paths = paths; lookup = [] })

-- Extending a valid set adds exactly what is under one of the new paths.
pub covers-extend :
    (s : PrefixSet) (more : List Str) (path : Str)
    → IsValid s
    → covers (extend s more) path ≡ (covers s path || any (λ p. under path p) more)
unfolding extend
covers-extend s more path v =
    covers-eq-any (extend s more) path (reduce-IsValid (record s { paths = s.paths ++ more }))
    ∙ any-reduce path (record s { paths = s.paths ++ more })
    ∙ any-append (λ p. under path p) s.paths more
    ∙ ap (λ b. b || any (λ p. under path p) more) (sym (covers-eq-any s path v))

keep-IsTrimmed :
    (q : Str) (l : List Str) → All IsTrimmed l → All IsTrimmed (keep (λ p. not (str_eq p q)) l)
keep-IsTrimmed q [] h = tt
keep-IsTrimmed q (p ∷ l) (t, h) = ground (arith, keep-IsTrimmed q l h)

any-keep_other :
    (path q : Str) (l : List Str)
    → (any (λ p. under path p) (keep (λ p. not (str_eq p q)) l) || (member q l && under path q))
      ≡ any (λ p. under path p) l
any-keep_other path q [] = refl
any-keep_other path q (p ∷ l) = elim (Bool-cases (str_eq p q)) [
  | inl e ↦ rw e (ground (arith, any-keep_other path q l, ap (λ r. under path r) (str_eq→eq p q e)))
  | inr e ↦ rw e (ground (arith, any-keep_other path q l))
]

-- Forgetting a path in a valid set answers whether the path was a member. The set stays valid, and
-- what it covered before is what it covers now, with what is under the forgotten member.
pub forget_lem :
    (s : PrefixSet) (path x : Str)
    → IsValid s
    → ((forget s path).1 ≡ member (trim_slash path) s.paths)
      × IsValid (forget s path).0
      × (covers s x ≡ (covers (forget s path).0 x || ((forget s path).1 && under x path)))
unfolding forget
forget_lem s path x v = elim (Bool-cases (member (trim_slash path) s.lookup)) [
  | inl e ↦ rw e (ground (arith, v.same), valid, covered x (ground (arith, v.same)))
  | inr e ↦ rw e (ground (arith, v.same), v, ground arith)
]
  where
    q : Str
    q = trim_slash path

    rest : PrefixSet
    rest = record {
      paths = keep (λ p. not (str_eq p q)) s.paths;
      lookup = keep (λ p. not (str_eq p q)) s.lookup;
    }

    valid : IsValid rest
    valid = record {
      same = ap (keep (λ p. not (str_eq p q))) v.same;
      trimmed = keep-IsTrimmed q s.paths v.trimmed;
    }

    covered : (x : Str) → member q s.paths ≡ true → covers s x ≡ (covers rest x || under x path)
    covered x m = ground (
      arith,
      covers-eq-any s x v,
      covers-eq-any rest x valid,
      any-keep_other x q s.paths,
      under-trim_slash x path,
    )
