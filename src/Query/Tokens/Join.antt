-- ===== src/Query/Tokens/Join.antt =====
-- crates/scour-query/src/parse.rs: the pieces of `split_bangs`, and the rounds of `join_parens`.
use scour.Prelude.{
  ℕ, zero, suc, ◌≤◌, not, ◌&&◌, ◌≡◌, refl, ◌∙◌, ap, Option, none, some, List, [], ◌∷◌, ◌++◌,
  append-nil, append_assoc, ◌==◌, if◌then◌else◌, Str, is_empty, ends_char, length, arith,
  Bool-cases, inl, inr, flat_map-append, starts_char,
}
use scour.Core.Fold.{Std}
use scour.Query.Tokens.{
  bang, bang_pieces, starts_term, is_literal, split_bangs, find_run, join_parens_from, join_parens,
  regroup,
}
use scour.Query.Tokens.Quotes.{concat}

cut-concat :
    (cur : Str) (c : ℕ) (s : Str) (ps : List Str)
    → concat ps ≡ c ∷ s
    → concat (if is_empty cur then ps else cur ∷ ps) ≡ cur ++ (c ∷ s)
cut-concat [] c s ps h = h
cut-concat (d ∷ cur) c s ps h = rw (h)

concat-bang_pieces : (prev : Option ℕ) (cur s : Str) → concat (bang_pieces prev cur s) ≡ cur ++ s
unfolding bang_pieces
concat-bang_pieces prev cur [] = refl
concat-bang_pieces prev cur (c ∷ s) =
    elim (Bool-cases (c == bang && (starts_term prev && not (is_empty s)))) [
      | inl e ↦ rw (
        e,
        cut-concat cur c s (bang_pieces (some c) (c ∷ []) s)
            (concat-bang_pieces (some c) (c ∷ []) s),
      )
      | inr e ↦ rw (e, concat-bang_pieces (some c) (cur ++ (c ∷ [])) s, append_assoc cur)
    ]

abbrev Runs : Type 0
Runs = Option (List Str × List Str)

abbrev BoundedBy : ℕ → Runs → Type 0
BoundedBy n none = Unit
BoundedBy n (some (run, rest)) = length rest ≤ n

bounded-further :
    (t : Str) (n : ℕ) (o : Runs)
    → BoundedBy n o
    → BoundedBy (suc n) (elim o [ none ↦ none | some (run, rest) ↦ some (t ∷ run, rest) ])
bounded-further t n none h = tt
bounded-further t n (some (run, rest)) h = omega arith

find_run-Bounded :
    (closer : ℕ) (t : Str) (ts : List Str) → BoundedBy (length ts) (find_run closer (t ∷ ts))
unfolding find_run
find_run-Bounded closer t [] = elim (Bool-cases (ends_char closer t)) [
  | inl e ↦ rw (e) (omega arith)
  | inr e ↦ rw (e) tt
]
find_run-Bounded closer t (u ∷ us) = elim (Bool-cases (ends_char closer t)) [
  | inl e ↦ rw (e) (omega arith)
  | inr e ↦
      rw (e)
        (bounded-further t (length us) (find_run closer (u ∷ us)) (find_run-Bounded closer u us))
]

module _ (std : Std) where
  -- The cut at bangs moves no character: the tokens, one after the other, are what they were.
  pub concat-split_bangs : (ts : List Str) → concat (split_bangs std ts) ≡ concat ts
  unfolding split_bangs
  concat-split_bangs [] = refl
  concat-split_bangs (t ∷ ts) =
      flat_map-append (λ u. u) (if is_literal std t then t ∷ [] else bang_pieces none [] t)
        (split_bangs std ts)
      ∙ rw (concat-split_bangs ts, one t)
    where
      one : (t : Str) → concat (if is_literal std t then t ∷ [] else bang_pieces none [] t) ≡ t
      one t = elim (Bool-cases (is_literal std t)) [
        | inl e ↦ rw (e, append-nil t)
        | inr e ↦ rw (e, concat-bang_pieces none [] t)
      ]

  regroup-agree :
      (next other : List Str → List Str) (t : Str) (ts : List Str) (o : Runs)
      → BoundedBy (length ts) o
      → ((us : List Str) → length us ≤ length ts → next us ≡ other us)
      → regroup std next t ts o ≡ regroup std other t ts o
  regroup-agree next other t ts none b h = ap (λ us. t ∷ us) (h ts (omega arith))
  regroup-agree next other t ts (some (run, rest)) b h = rw (h ts (omega arith), h rest b)

  rounds-agree :
      (f g : ℕ) (ts : List Str)
      → length ts ≤ f
      → length ts ≤ g
      → join_parens_from std f ts ≡ join_parens_from std g ts
  unfolding join_parens_from
  rounds-agree zero zero ts h k = refl
  rounds-agree zero (suc g) [] h k = refl
  rounds-agree (suc f) zero [] h k = refl
  rounds-agree zero (suc g) (t ∷ ts) h k = absurd (omega arith)
  rounds-agree (suc f) zero (t ∷ ts) h k = absurd (omega arith)
  rounds-agree (suc f) (suc g) [] h k = refl
  rounds-agree (suc f) (suc g) (t ∷ ts) h k = rw (
    rounds-agree f g ts (omega arith) (omega arith),
    regroup-agree (λ us. join_parens_from std f us) (λ us. join_parens_from std g us) t ts
        (find_run (if starts_char b'<' t then b'>' else b')') (t ∷ ts)) (find_run-Bounded _ t ts)
        (λ us l. rounds-agree f g us (omega arith) (omega arith)),
  )

  -- Any number of rounds from that of the tokens on gives what `join_parens` gives.
  pub join_parens_from-enough :
      (f : ℕ) (ts : List Str) → length ts ≤ f → join_parens_from std f ts ≡ join_parens std ts
  unfolding join_parens
  join_parens_from-enough f ts h = rounds-agree f (length ts) ts h (omega arith)
