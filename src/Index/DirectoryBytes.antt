-- ===== src/Index/DirectoryBytes.antt =====
-- crates/scour-index-native/src/directory_bytes.rs: DirectoryBytes, the cached length of the files of
-- an index, and the events that it goes through.
pub mod Exact
mod Tests
use scour.Prelude.{
  ℕ, zero, suc, ◌+◌, ◌-◌, ◌==◌, ◌&&◌, ◌<◌, ◌≤◌, ◌≡◌, ◌⊎◌, ◌%◌, ◌^◌, Bool, true, false, not,
  if◌then◌else◌, Option, none, some, List, [], ◌∷◌,
}

-- What the operating system says of the directory: its entries with the length of each, none where the
-- directory or an entry is not read, and the time of its last change, if it is readable.
pub record Directory : Type 0 where
  pub entries : Option (List (Option ℕ))
  pub stamp : ℕ
  pub readable : Bool

abbrev pub sum_read : List (Option ℕ) → ℕ
sum_read [] = 0
sum_read (none ∷ es) = sum_read es
sum_read (some n ∷ es) = n + sum_read es

abbrev pub or_nothing : Option (List (Option ℕ)) → ℕ
or_nothing none = 0
or_nothing (some es) = sum_read es

unfoldable pub dir_size : Directory → ℕ
dir_size d = or_nothing d.entries % 2 ^ 64

abbrev pub directory_modified : Directory → Option ℕ
directory_modified d = if d.readable then some d.stamp else none

pub record State : Type 0 where
  pub bytes : ℕ
  pub modified : Option ℕ
  pub active_writers : ℕ
  pub dirty : Bool

-- The lengths are read at one moment, the stamp at a later one.
abbrev pub measure : Directory → Directory → ℕ × Option ℕ
measure walked then_at = (dir_size walked, directory_modified then_at)

abbrev pub new : Directory → Directory → State
new walked then_at = record {
  bytes = (measure walked then_at).0;
  modified = (measure walked then_at).1;
  active_writers = 0;
  dirty = false;
}

-- `modified.is_some() && modified == state.modified`
abbrev pub same_stamp : Option ℕ → Option ℕ → Bool
same_stamp none kept = false
same_stamp (some m) none = false
same_stamp (some m) (some kept) = m == kept

-- `get`, with the directory as it is when the stamp is compared, walked and stamped again.
unfoldable pub get : State → Directory → Directory → Directory → State × ℕ
get s asked walked then_at =
    let (bytes, modified) = measure walked then_at in
    if not (s.active_writers == 0)
    then (s, dir_size walked)
    else if not s.dirty && same_stamp (directory_modified asked) s.modified
    then (s, s.bytes)
    else (record s { bytes = bytes; modified = modified; dirty = false }, bytes)

-- `changing`, up to the call of its argument.
unfoldable pub begin_change : State → State
begin_change s = record s { active_writers = s.active_writers + 1; dirty = true }

-- The drop of a `Writer`, when the change is over.
unfoldable pub end_change : State → State
end_change s = record s { active_writers = s.active_writers - 1 }

-- What happens next: the index begins or ends a change, anyone changes the directory, or a reader
-- asks, of whom the walk and the stamp after it find the directory as given.
pub data Event : Type 0 where
  begins ends : Event
  changed : Directory → Event
  asked : (walked then_at : Directory) → Event

unfoldable pub happen : Event → State × Directory → State × Directory
unfolding begin_change end_change get
happen Event.begins (s, d) = (begin_change s, d)
happen Event.ends (s, d) = (end_change s, d)
happen (Event.changed next) (s, d) = (s, next)
happen (Event.asked walked then_at) (s, d) = ((get s d walked then_at).0, then_at)

unfoldable pub happen_all : List Event → State × Directory → State × Directory
unfolding happen
happen_all [] w = w
happen_all (e ∷ events) w = happen_all events (happen e w)

-- Between two moments the stamp has moved on, or it has not gone back and either the lengths are the
-- same or the index is writing.
abbrev pub Moved : State → Directory → Directory → Type 0
Moved s d next =
    (d.stamp < next.stamp)
    ⊎ ((d.stamp ≤ next.stamp) × ((0 < s.active_writers) ⊎ (dir_size d ≡ dir_size next)))

-- Nothing but the index has changed the lengths.
abbrev pub Still : State → Directory → Directory → Type 0
Still s d next = (d.stamp ≤ next.stamp) × ((0 < s.active_writers) ⊎ (dir_size d ≡ dir_size next))

-- What an event has to keep for the cached length to be right: another program that changes a length
-- moves the stamp on, and not between a walk and its stamp.
abbrev pub Announced : Event → State × Directory → Type 0
Announced Event.begins (s, d) = Unit
Announced Event.ends (s, d) = 0 < s.active_writers
Announced (Event.changed next) (s, d) = Moved s d next
Announced (Event.asked walked then_at) (s, d) = Moved s d walked × Still s walked then_at

unfoldable pub AnnouncedAll : List Event → State × Directory → Type 0
unfolding happen
AnnouncedAll [] w = Unit
AnnouncedAll (e ∷ events) w = Announced e w × AnnouncedAll events (happen e w)
