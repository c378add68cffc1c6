-- ===== src/Query/Terms/Unusable.antt =====
-- crates/scour-query/src/parse.rs, `parse_alt`: the terms that give a condition.
use scour.Prelude.{
  Bool, not, ◌&&◌, ◌||◌, ◌≡◌, refl, Option, none, some, [], ◌∷◌, Str, is_empty, is_some, ℤ, arith,
}
use scour.Core.Fold.{Std, fold}
use scour.Query.Tokens.{split_field, without_bang}
use scour.Query.Terms.{parse_rest, parse_alt, unquote, fielded}

module _ (std : Std) where
  -- The text of a term that is not written as a field.
  abbrev pub plain_text : Str → Str
  plain_text rest = fold std (unquote rest)

  abbrev pub asks : Str → Bool
  asks rest =
      not (is_empty rest) && (is_some (split_field std rest) || not (is_empty (plain_text rest)))

  parse_rest-asks :
      (rest : Str) (now : ℤ) (home : Option Str)
      → is_some (parse_rest std rest now home) ≡ asks rest
  unfolding parse_rest
  parse_rest-asks [] now home = refl
  parse_rest-asks (c ∷ s) now home = go (split_field std (c ∷ s))
    where
      go :
          (o : Option (Str × Str))
          → is_some (fielded std o (c ∷ s) now home)
            ≡ (is_some o || not (is_empty (plain_text (c ∷ s))))
      go none = ground arith
      go (some (field, value)) = refl

  -- A term gives a condition exactly when, after its `!`, it is written as a field or has a text
  -- that is not empty when it is folded; whether the field is known or can use its value does not matter.
  pub parse_alt-asks :
      (s : Str) (now : ℤ) (home : Option Str)
      → is_some (parse_alt std s now home) ≡ asks (without_bang s)
  unfolding parse_alt
  parse_alt-asks [] now home = refl
  parse_alt-asks (c ∷ s) now home =
      ground (arith, parse_rest-asks s now home, parse_rest-asks (c ∷ s) now home)
