-- ===== src/Query/Parse/Expand.antt =====
-- crates/scour-query/src/parse.rs, `expand`: the rewriting of shorthand, and the `!` before it.
use scour.Prelude.{
  Bool, true, false, ◌≡◌, refl, List, [], ◌∷◌, Str, is_empty, map, arith, starts_char,
}
use scour.Core.Fold.{Std}
use scour.Query.Tokens.{bang, quote, split_field}
use scour.Query.Parse.{expand, of_parts, unless_none}

unless_none-bang :
    (t : Str) (ps : List Str)
    → unless_none (bang ∷ t) true ps ≡ map (λ p. bang ∷ p) (unless_none t false ps)
unless_none-bang t [] = refl
unless_none-bang t (p ∷ ps) = go (p ∷ ps)
  where
    go : (qs : List Str) → map (λ q. bang ∷ q) qs ≡ map (λ q. bang ∷ q) (map (λ q. q) qs)
    go [] = refl
    go (q ∷ qs) = rw (go qs)

unless_none-nonempty : (t : Str) (n : Bool) (ps : List Str) → is_empty (unless_none t n ps) ≡ false
unless_none-nonempty t n [] = refl
unless_none-nonempty t n (p ∷ ps) = refl

module _ (std : Std) where
  -- The rewriting of a token gives one token at least: no term is lost.
  pub expand-nonempty : (t : Str) → is_empty (expand std t) ≡ false
  unfolding expand
  expand-nonempty [] = refl
  expand-nonempty (c ∷ s) = ground (
    arith,
    unless_none-nonempty (c ∷ s) true (of_parts (split_field std s)),
    unless_none-nonempty (c ∷ s) false (of_parts (split_field std (c ∷ s))),
  )

  -- The tokens of `!t` are those of `t`, each with its own `!`, where `t` is not empty and begins
  -- with neither a `!` nor a quote.
  pub expand-bang :
      (t : Str)
      → is_empty t ≡ false
      → starts_char bang t ≡ false
      → starts_char quote t ≡ false
      → expand std (bang ∷ t) ≡ map (λ p. bang ∷ p) (expand std t)
  unfolding expand
  expand-bang [] h b q = absurd (ground arith)
  expand-bang (c ∷ s) h b q =
      rw (q, b, unless_none-bang (c ∷ s) (of_parts (split_field std (c ∷ s))))
