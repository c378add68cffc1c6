-- ===== src/Source/Revisit/Tests.antt =====
-- Runs of the paths that are looked at again, and their bounds at one of them.
use scour.Prelude.{
  ℕ, ◌*◌, ◌≤◌, ◌≡◌, refl, true, false, some, [], ◌∷◌, length, All, codes, pos, str_eq, arith,
}
use scour.Source.Revisit.{
  Paths, Found, Stat, Event, empty, later, cap, happen, due, note, widen, examine,
}
use scour.Source.Revisit.Bounds.{Reach-bounds, IsSoon}

abbrev second : ℕ
second = 1000000000

abbrev grown : Found
grown = record { is_dir = false; size = 9; mtime = pos 4 }

abbrev noted_once : Paths
noted_once =
    happen (7 * second) (Event.noted (codes "/a/db") 1 true (some record grown { size = 8 })) []

abbrev after_a_round : Paths
after_a_round = happen (12 * second) Event.widened noted_once

due_after_five_seconds : due (12 * second) noted_once ≡ codes "/a/db" ∷ []
unfolding due happen note
due_after_five_seconds = refl

not_due_before_thirty_more : due (41 * second) after_a_round ≡ []
unfolding due happen note widen
not_due_before_thirty_more = refl

a_write_is_looked_at : (examine (codes "/a/db") (Stat.found grown) after_a_round).1 ≡ true
unfolding examine happen note widen str_eq
a_write_is_looked_at = refl

Reach-bounds_example : (length after_a_round ≤ cap) × All (IsSoon (12 * second)) after_a_round
Reach-bounds_example = Reach-bounds (12 * second) after_a_round (
    later Event.widened
      (later (Event.noted (codes "/a/db") 1 true (some record grown { size = 8 })) (empty {now = 0})
        (omega arith))
      (omega arith))
