-- ===== src/Core/Ast.antt =====
-- crates/scour-core/src/types/ast.rs: what a query means, once the syntax is gone.
use scour.Prelude.{
  ℕ, Bool, true, false, Option, none, some, List, [], ◌∷◌, Str, ℤ, ltb_ℤ, leb_ℤ, eq_ℤ, any,
  is_empty, length, filter_map, flat_map, map, leb, if◌then◌else◌, codes,
}
use scour.Core.Kind.{Kind}

pub data Cmp : Type 0 where
  lt le gt ge eq : Cmp

unfoldable pub holds : Cmp → ℤ → ℤ → Bool
holds Cmp.lt lhs rhs = ltb_ℤ lhs rhs
holds Cmp.le lhs rhs = leb_ℤ lhs rhs
holds Cmp.gt lhs rhs = ltb_ℤ rhs lhs
holds Cmp.ge lhs rhs = leb_ℤ rhs lhs
holds Cmp.eq lhs rhs = eq_ℤ lhs rhs

unfoldable pub symbol : Cmp → Str
symbol Cmp.lt = codes "<"
symbol Cmp.le = codes "<="
symbol Cmp.gt = codes ">"
symbol Cmp.ge = codes ">="
symbol Cmp.eq = codes "="

pub data TimeField : Type 0 where
  modified created accessed : TimeField

pub data NumField : Type 0 where
  mode uid gid items disk : NumField

-- One condition.
pub data Match : Type 0 where
  name_contains name_glob path_contains under parent_is : Str → Match
  ext : List Str → Match
  is_dir : Bool → Match
  size : Cmp → ℤ → Match
  kind : List Kind → Match
  time : TimeField → Cmp → ℤ → Match
  content_contains : Str → Match
  depth : Cmp → ℤ → Match
  regex : Str → Match
  name_len : Cmp → ℤ → Match
  name_contains_cased : Str → Match
  num : NumField → Cmp → ℤ → Match
  bits : NumField → (mask want : ℤ) → (any_of : Bool) → Match

-- Alternatives, each with its negation.
abbrev pub Alt : Type 0
Alt = Bool × Match

pub record Group : Type 0 where
  pub alts : List Alt

pub record Ast : Type 0 where
  pub groups : List Group

-- `Ast::is_empty`
unfoldable pub asks_nothing : Ast → Bool
asks_nothing q = is_empty q.groups

unfoldable pub matches : Ast → List Match
matches q = flat_map (λ g. map (λ a. a.1) g.alts) q.groups

abbrev is_content : Match → Bool
is_content (Match.content_contains t) = true
is_content _ = false

unfoldable pub needs_content : Ast → Bool
unfolding matches
needs_content q = any is_content (matches q)

abbrev pub name_term : Match → Option Str
name_term (Match.name_contains t) = some t
name_term _ = none

abbrev pub long_term : ℕ → Option Str → Option Str
long_term min_chars none = none
long_term min_chars (some t) = if leb min_chars (length t) then some t else none

-- The term of a group that has one positive name term and nothing else.
abbrev pub narrowing : ℕ → List Alt → Option Str
narrowing min_chars [] = none
narrowing min_chars ((true, m) ∷ alts) = none
narrowing min_chars ((false, m) ∷ []) = long_term min_chars (name_term m)
narrowing min_chars ((false, m) ∷ alt ∷ alts) = none

unfoldable pub narrowing_terms : ℕ → Ast → List Str
narrowing_terms min_chars q = filter_map (λ g. narrowing min_chars g.alts) q.groups
