-- ===== src/Names/Tests.antt =====
-- Runs of the checks of a name, and the theorems at concrete inputs. A path is a folder and a name,
-- and a file system is the list of the files that there are.
use scour.Prelude.{
  true, false, not, ◌≡◌, refl, none, some, List, [], ◌∷◌, Str, codes, str_eq, member, keep,
}
use scour.Names.{FileSystem, Outcome, Refusal, Renamed, beside, check, rename}
use scour.Names.Laws.{is_component, rename-moves}

abbrev one_folder : FileSystem
one_folder = record {
  FilePath = Str;
  State = List Str;
  file_name = λ p. some p;
  parent = λ p. none;
  join = λ dir name. name;
  from = λ name. name;
  symlink_exists = λ st p. member p st;
  move_to = λ st from to. (to ∷ keep (λ p. not (str_eq p from)) st, Renamed.moved);
}

abbrev files : List Str
files = codes "a.txt" ∷ codes "b.txt" ∷ []

a_taken_name :
    rename one_folder files (codes "a.txt") (codes "b.txt") ≡ (files, Outcome.refused Refusal.taken)
unfolding rename
a_taken_name = refl

dots_are_refused_first :
    check one_folder files (codes "a.txt") (codes "..") ≡ Outcome.refused Refusal.dots
unfolding check
dots_are_refused_first = refl

abbrev renamed : List Str
renamed = codes "c.txt" ∷ codes "b.txt" ∷ []

rename-moves_example :
    (is_component (codes "c.txt") ≡ true)
    × (codes "c.txt" ≡ beside one_folder (codes "a.txt") (codes "c.txt"))
    × (member (codes "c.txt") files ≡ false)
    × (one_folder.move_to files (codes "a.txt") (codes "c.txt") ≡ (renamed, Renamed.moved))
rename-moves_example =
    rename-moves one_folder files renamed (codes "a.txt") (codes "c.txt") (codes "c.txt")
      (unfold rename in refl)
