-- ===== src/Core/Prefix.antt =====
-- crates/scour-core/src/types/prefix.rs: a set of paths, asked "is anything under you?". The hash
-- set `lookup` is the list of its members.
pub mod Below
pub mod Laws
pub mod Cover
pub mod History
use scour.Prelude.{
  ℕ, zero, suc, ◌++◌, Bool, true, false, not, ◌&&◌, ◌||◌, Option, none, some, List, [], ◌∷◌, ◌==◌,
  ltb, leb, if◌then◌else◌, Str, str_eq, strip_prefix, starts_char, trim_end, member, length,
  is_empty, any, keep, last?, map,
}

pub record PrefixSet : Type 0 where
  pub paths : List Str
  pub lookup : List Str

abbrev pub slash : ℕ
slash = b'/'

-- `trim_end_matches('/')`
abbrev pub trim_slash : Str → Str
trim_slash = trim_end (λ c. c == slash)

abbrev pub followed_by_slash : Option Str → Bool
followed_by_slash none = false
followed_by_slash (some rest) = starts_char slash rest

unfoldable pub under : Str → Str → Bool
unfolding str_eq strip_prefix trim_end
under path prefix =
    let p = trim_slash prefix in
    if is_empty p then true else str_eq path p || followed_by_slash (strip_prefix p path)

-- `sort_unstable` on strings: by bytes, which for UTF-8 is by code points.
unfoldable pub str_le : Str → Str → Bool
str_le [] t = true
str_le (a ∷ s) [] = false
str_le (a ∷ s) (b ∷ t) = ltb a b || (a == b && str_le s t)

unfoldable pub sort_insert : Str → List Str → List Str
sort_insert s [] = s ∷ []
sort_insert s (t ∷ ts) = let rest = sort_insert s ts in if str_le s t then s ∷ t ∷ ts else t ∷ rest

unfoldable pub sort : List Str → List Str
unfolding sort_insert str_le
sort [] = []
sort (s ∷ ss) = sort_insert s (sort ss)

-- `dedup`: of equal neighbours the first stays.
dedup_after : Str → List Str → List Str
dedup_after s [] = []
dedup_after s (t ∷ ts) =
    let rest = dedup_after t ts in if str_eq s t then dedup_after s ts else t ∷ rest

unfoldable pub dedup : List Str → List Str
unfolding dedup_after
dedup [] = []
dedup (s ∷ ss) = s ∷ dedup_after s ss

-- `kept.last().is_none_or(|k| !under(&p, k))`
abbrev is_new : Option Str → Str → Bool
is_new none p = true
is_new (some k) p = not (under p k)

unfoldable pub keep_outer : List Str → List Str → List Str
keep_outer kept [] = kept
keep_outer kept (p ∷ ps) = keep_outer (if is_new (last? kept) p then kept ++ (p ∷ []) else kept) ps

abbrev pub of_paths : List Str → PrefixSet
of_paths paths = record { paths = paths; lookup = paths }

unfoldable pub reduce : PrefixSet → PrefixSet
unfolding sort dedup keep_outer under
reduce s = of_paths (keep_outer [] (dedup (sort (map trim_slash s.paths))))

unfoldable pub new : List Str → PrefixSet
unfolding reduce
new paths = reduce (record { paths = paths; lookup = [] })

unfoldable pub extend : PrefixSet → List Str → PrefixSet
unfolding reduce
extend s more = reduce (record s { paths = s.paths ++ more })

-- `&p[..p.rfind('/').unwrap_or(0)]`
unfoldable pub before_last : ℕ → Str → Option Str
before_last c [] = none
before_last c (a ∷ s) = elim (before_last c s) [
  | some front ↦ some (a ∷ front)
  | none ↦ if a == c then some [] else none
]

abbrev pub or_empty : Option Str → Str
or_empty none = []
or_empty (some s) = s

-- The path, its parent, and so on down to the empty string. Each parent is shorter, so the length
-- of the path is fuel enough.
unfoldable pub ancestors_from : ℕ → Str → List Str
unfolding before_last
ancestors_from zero p = p ∷ []
ancestors_from (suc f) [] = [] ∷ []
ancestors_from (suc f) (a ∷ p) = (a ∷ p) ∷ ancestors_from f (or_empty (before_last slash (a ∷ p)))

unfoldable pub ancestors : Str → List Str
unfolding ancestors_from trim_end
ancestors path = let p = trim_slash path in ancestors_from (length p) p

unfoldable pub covers : PrefixSet → Str → Bool
unfolding under ancestors
covers s path =
    if length s.paths == 0
    then false
    else if leb (length s.paths) 4
    then any (λ p. under path p) s.paths
    else any (λ a. member a s.lookup) (ancestors path)

unfoldable pub forget : PrefixSet → Str → PrefixSet × Bool
forget s path =
    let p = trim_slash path in
    if member p s.lookup
    then (
      record {
        paths = keep (λ q. not (str_eq q p)) s.paths;
        lookup = keep (λ q. not (str_eq q p)) s.lookup;
      },
      true,
    )
    else (s, false)

unfoldable pub clear : PrefixSet → PrefixSet
clear s = of_paths []
