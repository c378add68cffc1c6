-- ===== src/Index/Plan.antt =====
-- crates/scour-index-native/src/search.rs and extension_order.rs: the tests on names that a query
-- compiles to, and what every name that passes one contains. Names are texts; the other tests are
-- carried along by the condition that they stand for.
pub mod Filter
mod Tests
use scour.Prelude.{
  is_yes, ℕ, Bool, true, false, not, ◌&&◌, ◌||◌, Option, none, some, List, [], ◌∷◌, ltb, leb, ◌==◌,
  if◌then◌else◌, Str, codes, strip_prefix, contains, is_empty, any, str_eq, split,
}
use scour.Core.Ast.{Match}
use scour.Core.Entry.{rsplit_char}
use scour.Core.Fold.{byte_len}
use scour.Query.Glob.{glob_matches}

pub data Test : Type 0 where
  name_has : Str → Test
  ext : List Str → (dirs : Bool) → Test
  name_glob : Str → Test
  other : Match → Test

abbrev pub is_wild : ℕ → Bool
is_wild c = c == b'*' || c == b'?'

abbrev pub plain_ext : Str → Bool
plain_ext e = not (is_empty e) && not (any (λ c. is_wild c || c == b'.') e)

abbrev pub glob_test : Str → Option Str → Test
glob_test p none = Test.name_glob p
glob_test p (some e) = if plain_ext e then Test.ext (e ∷ []) true else Test.name_glob p

-- `compile_match`, for the conditions on names.
unfoldable pub compile_match : Match → Test
unfolding strip_prefix
compile_match (Match.name_contains t) = Test.name_has t
compile_match (Match.name_glob p) = glob_test p (strip_prefix (codes "*.") p)
compile_match (Match.ext list) = Test.ext list false
compile_match m = Test.other m

abbrev pub both_ends : Option (Str × Str) → Str
both_ends none = []
both_ends (some (stem, e)) = if is_empty stem || is_empty e then [] else e

unfoldable pub extension : Str → Str
unfolding rsplit_char
extension name = both_ends (rsplit_char b'.' name)

abbrev pub short_end : Option (Str × Str) → Bool
short_end none = false
short_end (some (stem, e)) = not (is_empty stem) && (leb 1 (byte_len e) && leb (byte_len e) 12)

unfoldable pub extension_is_eligible : Str → Bool
unfolding rsplit_char byte_len
extension_is_eligible name = short_end (rsplit_char b'.' name)

unfoldable pub folded_extension : Str → Str → Str
unfolding extension extension_is_eligible
folded_extension spelled folded = if extension_is_eligible spelled then extension folded else []

-- `evaluate`, on a row by its two names; `rest` answers the other tests.
unfoldable pub evaluate : (Match → Bool) → Str → Str → Bool → Test → Bool
unfolding contains folded_extension glob_matches str_eq
evaluate rest spelled name is_dir (Test.name_has n) = contains name n
evaluate rest spelled name is_dir (Test.name_glob p) = is_yes (glob_matches p name)
evaluate rest spelled name is_dir (Test.ext list dirs) =
    let e = folded_extension spelled name in
    not (is_empty e) && (any (λ f. str_eq f e) list && (dirs || not is_dir))
evaluate rest spelled name is_dir (Test.other m) = rest m

abbrev pub to_head : ℕ → List Str → List Str
to_head a [] = (a ∷ []) ∷ []
to_head a (p ∷ ps) = (a ∷ p) ∷ ps

-- `split(['*', '?'])`
unfoldable pub runs : Str → List Str
runs [] = [] ∷ []
runs (a ∷ s) = let rest = runs s in if is_wild a then [] ∷ rest else to_head a rest

-- `max_by_key(|run| run.len())`: of several longest, the last.
unfoldable pub longest_run : Str → List Str → Str
longest_run best [] = best
longest_run best (r ∷ rs) = longest_run (if leb (byte_len best) (byte_len r) then r else best) rs

unfoldable pub filterable : Test → Option Str
unfolding runs longest_run byte_len
filterable (Test.name_has n) = some n
filterable (Test.ext [] dirs) = none
filterable (Test.ext (only ∷ []) dirs) = some (b'.' ∷ only)
filterable (Test.ext (e ∷ f ∷ list) dirs) = none
filterable (Test.name_glob p) =
    let run = longest_run [] (runs p) in if leb 3 (byte_len run) then some run else none
filterable (Test.other m) = none
