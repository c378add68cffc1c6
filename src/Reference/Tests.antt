-- ===== src/Reference/Tests.antt =====
-- Runs of the reference, and the theorems at concrete inputs.
use scour.Prelude.{
  ℕ, ◌≤◌, ◌≡◌, refl, Bool, true, false, ◌&&◌, Option, none, some, List, [], ◌∷◌, Str, codes, ℤ, pos,
  any, keep, length, min, All, str_eq, arith, negsuc,
}
use scour.Core.Ast.{Ast, Match}
use scour.Query.Samples.{ascii}
use scour.Reference.{Entry, Meta, matches}
use scour.Reference.Order.{SortKey, Hit, brute_force}
use scour.Reference.Answer.{Sorted, brute_force-answers}

abbrev meta_of : ℕ → ℕ → Meta
meta_of size mtime = record {
  size = pos size;
  mtime = pos mtime;
  ctime = pos 0;
  atime = pos 0;
  mode = pos 0;
  uid = pos 0;
  gid = pos 0;
  items = pos 0;
  disk = pos 0;
}

abbrev pub file : Str → ℕ → ℕ → Entry
file path size mtime = record { path = path; is_dir = false; meta = meta_of size mtime }

abbrev entries : List Entry
entries =
    file (codes "/a/Report.txt") 10 5
    ∷ file (codes "/a/notes.txt") 20 6
    ∷ file (codes "/b/old-report.md") 10 7
    ∷ []

abbrev pub asks : Match → Ast
asks m = record { groups = record { alts = (false, m) ∷ [] } ∷ [] }

abbrev report : Ast
report = asks (Match.name_contains (codes "report"))

abbrev pub no_regex : Str → Option (Str → Bool)
no_regex p = none

abbrev paths_of : List Hit → List Str
paths_of [] = []
paths_of (h ∷ hits) = h.path ∷ paths_of hits

newest_of_a_tie_first :
    paths_of (brute_force ascii no_regex entries report SortKey.by_size false 9)
    ≡ codes "/b/old-report.md" ∷ codes "/a/Report.txt" ∷ []
unfolding brute_force
newest_of_a_tie_first = refl

under_is_strict :
    matches ascii no_regex (file (codes "/a/x") 1 1) (asks (Match.under (codes "/a/"))) ≡ true
unfolding matches scour.Prelude.trim_end
under_is_strict = refl

brute_force-answers_example :
    Sorted ascii SortKey.by_name true
      (brute_force ascii no_regex entries report SortKey.by_name true 1)
    × (length (brute_force ascii no_regex entries report SortKey.by_name true 1)
        ≡ min 1 (length (keep (λ e. matches ascii no_regex e report) entries)))
brute_force-answers_example =
    brute_force-answers ascii no_regex entries report SortKey.by_name true 1
