-- ===== src/Core/Prefix/History.antt =====
-- crates/scour-core/src/types/prefix.rs: the sets that the operations reach.
use scour.Prelude.{◌≡◌, refl, List, [], ◌∷◌, ◌++◌, Str, foldl, any}
use scour.Core.Prefix.{PrefixSet, new, extend, forget, clear, covers, under}
use scour.Core.Prefix.Laws.{IsValid, reduce-IsValid}
use scour.Core.Prefix.Cover.{covers-eq-any, forget_lem}

-- The operations that change a set.
pub data Change : Type 0 where
  extend_by : List Str → Change
  forget_path : Str → Change
  clear_all : Change

unfoldable pub change : PrefixSet → Change → PrefixSet
change s (Change.extend_by more) = extend s more
change s (Change.forget_path path) = (forget s path).0
change s Change.clear_all = clear s

abbrev pub run : PrefixSet → List Change → PrefixSet
run = foldl change

change-IsValid : (s : PrefixSet) (c : Change) → IsValid s → IsValid (change s c)
unfolding change extend clear
change-IsValid s (Change.extend_by more) v = reduce-IsValid (record s { paths = s.paths ++ more })
change-IsValid s (Change.forget_path path) v = (forget_lem s path [] v).1
change-IsValid s Change.clear_all v = record { same = refl; trimmed = tt }

run-IsValid : (s : PrefixSet) (cs : List Change) → IsValid s → IsValid (run s cs)
run-IsValid s [] v = v
run-IsValid s (c ∷ cs) v = run-IsValid (change s c) cs (change-IsValid s c v)

-- After any run of changes to a set made from any paths, the fast answer of `covers` is a scan of
-- the members.
pub covers-run :
    (paths : List Str) (cs : List Change) (path : Str)
    → covers (run (new paths) cs) path ≡ any (λ p. under path p) (run (new paths) cs).paths
unfolding new
covers-run paths cs path =
    covers-eq-any (run (new paths) cs) path
      (run-IsValid (new paths) cs (reduce-IsValid (record { paths = paths; lookup = [] })))
