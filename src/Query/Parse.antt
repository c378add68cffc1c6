-- ===== src/Query/Parse.antt =====
-- crates/scour-query/src/parse.rs: text to the tree of the query.
pub mod Expand
pub mod Shape
pub mod Tests
use scour.Prelude.{
  ℕ, Bool, true, false, not, ◌&&◌, Option, none, some, List, [], ◌∷◌, ◌++◌, map, ◌==◌,
  if◌then◌else◌, Str, codes, str_eq, starts_char, split_once, is_empty, keep, filter_map, flat_map,
  ℤ,
}
use scour.Core.Ast.{Alt, Group, Ast}
use scour.Core.Fold.{Std}
use scour.Query.Fields.{Takes, Field, lookup}
use scour.Query.Tokens.{
  quote, bang, bar, split_field, split_outside_quotes, tokenize, join_lists, split_semicolons,
  split_bangs, join_operators, join_parens, nonempty,
}
use scour.Query.Terms.{parse_alt}

-- The type macros, and the `kind:` value that each stands for.
abbrev pub kind_macros : List (Str × Str)
kind_macros =
    (codes "audio", codes "audio")
    ∷ (codes "video", codes "video")
    ∷ (codes "pic", codes "image")
    ∷ (codes "doc", codes "doc")
    ∷ (codes "exe", codes "exec")
    ∷ (codes "zip", codes "archive")
    ∷ []

unfoldable pub macro_kind : Str → List (Str × Str) → Option Str
macro_kind canonical [] = none
macro_kind canonical ((name, k) ∷ rows) =
    let rest = macro_kind canonical rows in if str_eq canonical name then some k else rest

abbrev takes_range : Takes → Bool
takes_range Takes.size = true
takes_range Takes.time = true
takes_range _ = false

-- `field:>=lo` and `field:<=hi`
abbrev from_low : Str → Str → Str
from_low field lo = field ++ (codes ":>=" ++ lo)

abbrev to_high : Str → Str → Str
to_high field hi = field ++ (codes ":<=" ++ hi)

abbrev range_of : Str → Str → Str → List Str
range_of field lo hi =
    if is_empty lo
    then if is_empty hi then [] else to_high field hi ∷ []
    else if is_empty hi
    then from_low field lo ∷ []
    else from_low field lo ∷ to_high field hi ∷ []

abbrev ranged : Bool → Str → Option (Str × Str) → List Str
ranged true field (some (lo, hi)) = range_of field lo hi
ranged _ field _ = []

-- What a token with this field and value is rewritten to; `[]` where it stays as it is.
abbrev by_name : Str → Field → Str → Option Str → List Str
by_name field f value (some k) = (codes "kind:" ++ k) ∷ []
by_name field f value none =
    if str_eq f.name (codes "empty")
    then codes "file:" ∷ codes "size:=0" ∷ []
    else if str_eq f.name (codes "startwith") && not (is_empty value)
    then (value ++ codes "*") ∷ []
    else if str_eq f.name (codes "endwith") && not (is_empty value)
    then (codes "*" ++ value) ∷ []
    else ranged (takes_range f.takes) field (split_once (codes "..") value)

abbrev rewritten : Str → Option Field → Str → List Str
rewritten field none value = []
rewritten field (some f) value = by_name field f value (macro_kind f.name kind_macros)

abbrev pub of_parts : Option (Str × Str) → List Str
of_parts none = []
of_parts (some (field, value)) = rewritten field (lookup field) value

abbrev negate : Bool → Str → Str
negate n p = if n then bang ∷ p else p

abbrev pub unless_none : Str → Bool → List Str → List Str
unless_none token n [] = token ∷ []
unless_none token n (p ∷ ps) = map (negate n) (p ∷ ps)

module _ (std : Std) where
  unfoldable pub expand : Str → List Str
  unfolding split_field lookup macro_kind str_eq split_once
  expand [] = [] ∷ []
  expand (c ∷ s) =
      if c == quote
      then (c ∷ s) ∷ []
      else if c == bang
      then unless_none (c ∷ s) true (of_parts (split_field std s))
      else unless_none (c ∷ s) false (of_parts (split_field std (c ∷ s)))

  unfoldable pub all_tokens : Str → List Str
  unfolding tokenize join_lists split_semicolons split_bangs join_operators join_parens expand
  all_tokens input = flat_map expand (
      join_parens std (
        join_operators
          (split_bangs std (split_semicolons std (join_lists std (tokenize std input))))))

  abbrev pub group_of : ℤ → Option Str → Str → List Alt
  group_of now home token =
      filter_map (λ a. parse_alt std a now home) (keep nonempty (split_outside_quotes token bar))

  abbrev pub unless_no_alts : List Alt → Option Group
  unless_no_alts [] = none
  unless_no_alts (a ∷ alts) = some (record { alts = a ∷ alts })

  unfoldable pub parse_in : Str → ℤ → Option Str → Ast
  unfolding all_tokens split_outside_quotes parse_alt
  parse_in input now home = record {
    groups = filter_map (λ t. unless_no_alts (group_of now home t)) (all_tokens input);
  }

  unfoldable pub parse_at : Str → ℤ → Ast
  unfolding parse_in
  parse_at input now = parse_in input now none
