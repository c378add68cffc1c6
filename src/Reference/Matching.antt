-- ===== src/Reference/Matching.antt =====
-- crates/scour-mock/src/reference.rs: `matches`, and the terms that narrow a search.
use scour.Prelude.{
  contains, ℕ, ◌≡◌, refl, Bool, true, false, ◌&&◌, Option, none, some, List, [], ◌∷◌, ◌++◌, Str,
  any, all, All, filter_map, arith, inl, inr, Option-cases, ap, ◌∙◌, sym, subst,
}
use scour.Core.Fold.{Std, fold}
use scour.Core.Ast.{Ast, Group, Alt, Match, narrowing_terms, narrowing, name_term, long_term}
use scour.Core.Entry.{entry_name}
use scour.Reference.{Entry, matches, matches_one, alt_matches}

module _ {ℓ κ} {A : Type ℓ} {B : Type κ} (f : A → Option B) (x : A) (l : List A) where
  filter_map-none : f x ≡ none → filter_map f (x ∷ l) ≡ filter_map f l
  filter_map-none h = rw (filter_map, h) refl

  filter_map-some : (y : B) → f x ≡ some y → filter_map f (x ∷ l) ≡ y ∷ filter_map f l
  filter_map-some y h = rw (filter_map, h) refl

name_term-is : (m : Match) (t : Str) → name_term m ≡ some t → m ≡ Match.name_contains t
name_term-is (Match.name_contains u) t h = let e : u ≡ t = cc in ap Match.name_contains e
name_term-is (Match.name_glob p) t h = absurd (cc)
name_term-is (Match.path_contains p) t h = absurd (cc)
name_term-is (Match.under p) t h = absurd (cc)
name_term-is (Match.parent_is p) t h = absurd (cc)
name_term-is (Match.ext l) t h = absurd (cc)
name_term-is (Match.is_dir b) t h = absurd (cc)
name_term-is (Match.size c v) t h = absurd (cc)
name_term-is (Match.kind ks) t h = absurd (cc)
name_term-is (Match.time f c v) t h = absurd (cc)
name_term-is (Match.content_contains p) t h = absurd (cc)
name_term-is (Match.depth c v) t h = absurd (cc)
name_term-is (Match.regex p) t h = absurd (cc)
name_term-is (Match.name_len c v) t h = absurd (cc)
name_term-is (Match.name_contains_cased p) t h = absurd (cc)
name_term-is (Match.num f c v) t h = absurd (cc)
name_term-is (Match.bits f mask want any_of) t h = absurd (cc)

module _ (std : Std) (compile : Str → Option (Str → Bool)) (e : Entry) where
  -- Two queries side by side ask for both.
  pub matches-append :
      (xs ys : List Group)
      → matches std compile e (record { groups = xs ++ ys }) ≡ (
          matches std compile e (record { groups = xs })
          && matches std compile e (record { groups = ys }))
  unfolding matches
  matches-append [] ys = refl
  matches-append (g ∷ xs) ys = ground (arith, matches-append xs ys)

  abbrev pub Found : Str → Type 0
  Found t = contains (fold std (entry_name e.path)) t ≡ true

  one-Found :
      (min_chars : ℕ) (m : Match) (t : Str)
      → long_term min_chars (name_term m) ≡ some t
      → matches_one std compile e m ≡ true
      → Found t
  unfolding matches_one
  one-Found min_chars m t h k = elim (Option-cases (name_term m)) [
    | inl none_there ↦ absurd (ground arith)
    | inr (u, e') ↦
        let same : u ≡ t = ground arith in
        let is : m ≡ Match.name_contains t = name_term-is m t (rw (← same) e') in
        ap (matches_one std compile e) (sym is) ∙ k
  ]

  group-Found :
      (min_chars : ℕ) (alts : List Alt) (t : Str)
      → narrowing min_chars alts ≡ some t
      → any (alt_matches std compile e) alts ≡ true
      → Found t
  group-Found min_chars [] t h k = absurd (cc)
  group-Found min_chars ((true, m) ∷ alts) t h k = absurd (cc)
  group-Found min_chars ((false, m) ∷ []) t h k = one-Found min_chars m t h (ground arith)
  group-Found min_chars ((false, m) ∷ alt ∷ alts) t h k = absurd (cc)

  narrowing-Found :
      (min_chars : ℕ) (groups : List Group)
      → all (λ g. any (alt_matches std compile e) g.alts) groups ≡ true
      → All Found (filter_map (λ g. narrowing min_chars g.alts) groups)
  narrowing-Found min_chars [] h = tt
  narrowing-Found min_chars (g ∷ groups) h =
      let rest = narrowing-Found min_chars groups (ground arith) in
      let term : Group → Option Str = λ g'. narrowing min_chars g'.alts in
      elim (Option-cases (narrowing min_chars g.alts)) [
        | inl none_there ↦ subst (All Found) (sym (filter_map-none term g groups none_there)) rest
        | inr (t, found) ↦
            subst (All Found) (sym (filter_map-some term g groups t found))
              (group-Found min_chars g.alts t found (ground arith), rest)
      ]

  -- An entry that matches a query has every narrowing term of the query somewhere in its folded name.
  pub narrowing_terms-Found :
      (min_chars : ℕ) (q : Ast)
      → matches std compile e q ≡ true
      → All Found (narrowing_terms min_chars q)
  unfolding matches narrowing_terms
  narrowing_terms-Found min_chars q h = narrowing-Found min_chars q.groups h
