-- ===== src/Reference.antt =====
-- crates/scour-mock/src/reference.rs: what a query means, entry by entry, and the answer found by
-- looking at everything.
pub mod Order
pub mod Matching
mod Sorting
pub mod Answer
mod Tests
use Prim.Native.Nat.{compare, Ordering}
use scour.Prelude.{
  is_yes, contains, ℕ, ◌+◌, Bool, true, false, not, ◌&&◌, ◌||◌, Option, none, some, List, [], ◌∷◌,
  ltb, ◌==◌, if◌then◌else◌, Str, codes, str_eq, member, strip_prefix, starts_with, starts_char,
  is_empty, length, any, all, keep, take, map, ℤ, pos, pos_part, neg_part, as_u64, as_i64, wrap_i64,
  eq_ℤ, ltb_ℤ, leb_ℤ, ◌+ℤ◌, bit_and,
}
use scour.Core.Kind.{Kind, as_u8}
use scour.Core.Fold.{Std, fold}
use scour.Core.Ast.{Ast, Group, Alt, Match, Cmp, NumField, TimeField, holds}
use scour.Core.Prefix.{slash, trim_slash}
use scour.Core.Entry.{entry_name, entry_parent, entry_ext, ext_of, kind_of}
use scour.Query.Glob.{glob_matches}

pub record Meta : Type 0 where
  pub size : ℤ
  pub mtime : ℤ
  pub ctime : ℤ
  pub atime : ℤ
  pub mode : ℤ
  pub uid : ℤ
  pub gid : ℤ
  pub items : ℤ
  pub disk : ℤ

pub record Entry : Type 0 where
  pub path : Str
  pub is_dir : Bool
  pub meta : Meta

unfoldable pub num_of : Meta → NumField → ℤ
num_of m NumField.mode = m.mode
num_of m NumField.uid = m.uid
num_of m NumField.gid = m.gid
num_of m NumField.items = m.items
num_of m NumField.disk = m.disk

unfoldable pub time_of : Meta → TimeField → ℤ
time_of m TimeField.modified = m.mtime
time_of m TimeField.created = m.ctime
time_of m TimeField.accessed = m.atime

-- What is left of the path begins with a slash, or the prefix was empty and something is left.
abbrev pub strictly_below : Str → Option Str → Bool
strictly_below d none = false
strictly_below d (some rest) = not (is_empty rest) && (is_empty d || starts_char slash rest)

abbrev pub holds_kind : List Kind → Kind → Bool
holds_kind ks k = any (λ j. as_u8 j == as_u8 k) ks

abbrev pub slashes : Str → Str
slashes = keep (λ c. c == slash)

-- `&` of two `i64`.
abbrev pub and_i64 : ℤ → ℤ → ℤ
and_i64 a b = as_i64 (bit_and (as_u64 a) (as_u64 b))

-- Equality on a time asks for the day that begins there.
abbrev pub holds_time : Cmp → ℤ → ℤ → Bool
holds_time Cmp.eq got v = leb_ℤ v got && ltb_ℤ got (wrap_i64 (v +ℤ pos 86_400))
holds_time Cmp.lt got v = holds Cmp.lt got v
holds_time Cmp.le got v = holds Cmp.le got v
holds_time Cmp.gt got v = holds Cmp.gt got v
holds_time Cmp.ge got v = holds Cmp.ge got v

abbrev pub run_regex : Option (Str → Bool) → Str → Bool
run_regex none text = false
run_regex (some is_match) text = is_match text

-- `compile` is `Regex::new` of the regular expressions, with `is_match` of what it gives.
module _ (std : Std) (compile : Str → Option (Str → Bool)) where
  unfoldable pub matches_one : Entry → Match → Bool
  unfolding contains fold glob_matches entry_name entry_parent entry_ext kind_of holds num_of
      time_of
  matches_one e (Match.name_contains t) = contains (fold std (entry_name e.path)) t
  matches_one e (Match.name_glob p) = is_yes (glob_matches p (fold std (entry_name e.path)))
  matches_one e (Match.path_contains t) = contains (fold std e.path) t
  matches_one e (Match.under d) =
      let d' = trim_slash d in strictly_below d' (strip_prefix d' e.path)
  matches_one e (Match.parent_is d) =
      str_eq (entry_parent e.path) (trim_slash d)
      || (str_eq d (codes "/") && str_eq (entry_parent e.path) (codes "/"))
  matches_one e (Match.ext list) = member (entry_ext std e.is_dir e.path) list
  matches_one e (Match.is_dir want) = if want then e.is_dir else not e.is_dir
  matches_one e (Match.size cmp v) = holds cmp e.meta.size v
  matches_one e (Match.num f cmp v) = holds cmp (num_of e.meta f) v
  matches_one e (Match.name_len cmp v) = holds cmp (pos (length (entry_name e.path))) v
  matches_one e (Match.name_contains_cased t) = contains (entry_name e.path) t
  matches_one e (Match.depth cmp v) = holds cmp (pos (length (slashes e.path))) v
  matches_one e (Match.regex p) = run_regex (compile p) (fold std (entry_name e.path))
  matches_one e (Match.bits field mask want any_of) =
      let got = and_i64 (num_of e.meta field) mask in
      if any_of then not (eq_ℤ got (pos 0)) else eq_ℤ got want
  matches_one e (Match.kind ks) =
      holds_kind ks (kind_of std e.is_dir (entry_name e.path) e.meta.mode)
  matches_one e (Match.time f cmp v) = holds_time cmp (time_of e.meta f) v
  matches_one e (Match.content_contains t) = false

  -- `matches_one(e, m) != *neg`
  abbrev pub alt_matches : Entry → Alt → Bool
  alt_matches e (neg, m) = if neg then not (matches_one e m) else matches_one e m

  unfoldable pub matches : Entry → Ast → Bool
  unfolding matches_one
  matches e ast = all (λ g. any (alt_matches e) g.alts) ast.groups
