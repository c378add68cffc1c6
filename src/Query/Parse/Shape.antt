-- ===== src/Query/Parse/Shape.antt =====
-- crates/scour-query/src/parse.rs, `parse_in`: the form of the tree.
use scour.Prelude.{
  false, ◌≡◌, refl, Option, none, some, List, [], ◌∷◌, Str, is_empty, ℤ, All, filter_map,
}
use scour.Core.Fold.{Std}
use scour.Core.Ast.{Alt, Group}
use scour.Query.Parse.{parse_in, all_tokens, group_of, unless_no_alts}

abbrev pub HasAlts : Group → Type 0
HasAlts g = is_empty g.alts ≡ false

module _ (std : Std) where
  groups-HaveAlts :
      (f : Str → List Alt) (ts : List Str)
      → All HasAlts (filter_map (λ t. unless_no_alts std (f t)) ts)
  groups-HaveAlts f [] = tt
  groups-HaveAlts f (t ∷ ts) = go (f t) (groups-HaveAlts f ts)
    where
      go :
          (alts : List Alt)
          → All HasAlts (filter_map (λ t. unless_no_alts std (f t)) ts)
          → All HasAlts (elim (unless_no_alts std alts) [
            | none ↦ filter_map (λ t. unless_no_alts std (f t)) ts
            | some g ↦ g ∷ filter_map (λ t. unless_no_alts std (f t)) ts
          ])
      go [] h = h
      go (a ∷ alts) h = (refl, h)

  -- Every group of a parsed query has an alternative, whatever the text is.
  pub parse_in-HasAlts :
      (input : Str) (now : ℤ) (home : Option Str) → All HasAlts (parse_in std input now home).groups
  unfolding parse_in
  parse_in-HasAlts input now home = groups-HaveAlts (group_of std now home) (all_tokens std input)
