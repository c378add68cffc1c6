-- ===== src/Index/DirectoryBytes/Tests.antt =====
-- Runs of the cached length of a directory, and its theorems at them.
use scour.Prelude.{List, ℕ, inl, inr, ◌≡◌, refl, true, none, some, [], ◌∷◌, arith}
use scour.Index.DirectoryBytes.{
  Directory, State, Event, happen_all, AnnouncedAll, new, get, begin_change, end_change, dir_size,
}
use scour.Index.DirectoryBytes.Exact.{get-dir_size, get-get}

abbrev empty_index : Directory
empty_index = record { entries = some []; stamp = 5; readable = true }

-- One of the three files vanished before its length was read.
abbrev one_segment : Directory
one_segment = record { entries = some (some 30 ∷ none ∷ some 4 ∷ []); stamp = 5; readable = true }

-- A reader asks while a segment is written, within the second in which the directory was made, so
-- that its stamp stays.
abbrev events : List Event
events =
    Event.begins ∷ Event.asked empty_index empty_index ∷ Event.changed one_segment ∷ Event.ends ∷ []

abbrev after_events : State × Directory
after_events = happen_all events (new empty_index empty_index, empty_index)

abbrev answer : State × Directory → ℕ
answer (s, d) = (get s d d d).1

same_stamp_other_length : answer after_events ≡ 34
unfolding get happen_all dir_size
same_stamp_other_length = refl

-- Another program makes a file between the walk and its stamp: the length before is kept under the
-- stamp after it, and a reader at rest is told that.
stale_after_a_race : answer (new empty_index one_segment, one_segment) ≡ 0
unfolding get dir_size
stale_after_a_race = refl

events_announced : AnnouncedAll events (new empty_index empty_index, empty_index)
unfolding AnnouncedAll begin_change get end_change
events_announced = (
  tt,
  (
    (inr (omega arith, inl (omega arith)), (omega arith, inl (omega arith))),
    (inr (omega arith, inl (omega arith)), (omega arith, tt)),
  ),
)

get-dir_size_example : answer after_events ≡ dir_size after_events.1
get-dir_size_example =
    get-dir_size empty_index empty_index events (omega arith, inr refl) events_announced

abbrev written : State
written = after_events.0

get-get_example :
    get (get written one_segment one_segment one_segment).0 one_segment empty_index empty_index
    ≡ get written one_segment one_segment one_segment
get-get_example =
    get-get written one_segment empty_index empty_index (unfold happen_all in refl) refl
