-- ===== src/Index/DirectoryBytes/Exact.antt =====
-- crates/scour-index-native/src/directory_bytes.rs: what a quiet reader is told.
use scour.Prelude.{List, [], ◌∷◌, ℕ, ◌<◌, ◌≤◌, ◌≡◌, refl, true, false, some, arith}
use scour.Index.DirectoryBytes.{
  Directory, State, Event, happen, happen_all, Moved, Still, Announced, AnnouncedAll, new, get,
  begin_change, end_change, dir_size, directory_modified,
}

-- The kept stamp is not after the directory's, a writer leaves its mark, and what is kept without a
-- mark and with the stamp of the directory is its size.
abbrev pub IsCoherent : State → Directory → Type 0
IsCoherent s d =
    ((m : ℕ) → s.modified ≡ some m → m ≤ d.stamp)
    × ((0 < s.active_writers → s.dirty ≡ true)
        × (s.dirty ≡ false → s.modified ≡ some d.stamp → s.bytes ≡ dir_size d))

stamp-le : (d : Directory) (m : ℕ) → directory_modified d ≡ some m → m ≤ d.stamp
stamp-le d m h = ground arith

module _ (s : State) (d walked then_at : Directory) (moved : Moved s d walked)
    (still : Still s walked then_at) where
  get-stamp :
      ((m : ℕ) → s.modified ≡ some m → m ≤ d.stamp)
      → (m : ℕ) → (get s d walked then_at).0.modified ≡ some m
      → m ≤ then_at.stamp
  unfolding get
  get-stamp le m h = ground (arith, le m, stamp-le then_at m)

  get-mark :
      (0 < s.active_writers → s.dirty ≡ true)
      → 0 < (get s d walked then_at).0.active_writers
      → (get s d walked then_at).0.dirty ≡ true
  unfolding get
  get-mark mark h = ground (arith, mark)

  get-same :
      IsCoherent s d
      → (get s d walked then_at).0.dirty ≡ false
      → (get s d walked then_at).0.modified ≡ some then_at.stamp
      → (get s d walked then_at).0.bytes ≡ dir_size then_at
  unfolding get
  get-same (le, (mark, same)) clean h = ground (arith, le then_at.stamp, mark, same)

happen-IsCoherent :
    (e : Event) (s : State) (d : Directory)
    → Announced e (s, d)
    → IsCoherent s d
    → IsCoherent (happen e (s, d)).0 (happen e (s, d)).1
unfolding happen begin_change end_change
happen-IsCoherent Event.begins s d a (le, (mark, same)) = (le, (λ h. refl, λ h. absurd (cc)))
happen-IsCoherent Event.ends s d a (le, (mark, same)) = (le, (λ h. mark a, same))
happen-IsCoherent (Event.changed next) s d a (le, (mark, same)) =
    (λ m h. ground (arith, le m h), (mark, λ clean h. ground (arith, mark, le next.stamp h, same)))
happen-IsCoherent (Event.asked walked then_at) s d (moved, still) c =
    let (le, (mark, same)) = c in
    (
      get-stamp s d walked then_at moved still le,
      (get-mark s d walked then_at moved still mark, get-same s d walked then_at moved still c),
    )

happen_all-IsCoherent :
    (events : List Event) (w : State × Directory)
    → AnnouncedAll events w
    → IsCoherent w.0 w.1
    → IsCoherent (happen_all events w).0 (happen_all events w).1
unfolding happen_all AnnouncedAll
happen_all-IsCoherent [] w a c = c
happen_all-IsCoherent (e ∷ events) w (a, rest) c =
    happen_all-IsCoherent events (happen e w) rest (happen-IsCoherent e w.0 w.1 a c)

-- Whatever happens to a cache and its directory, a reader who then finds the directory at rest is
-- told the summed lengths of its files, as a `u64`, kept or measured again: provided that the stamp
-- never goes back, that other programs move it on when they change a length, and not between a walk
-- and the stamp that is taken after it, and that a change ends after it began.
pub get-dir_size :
    (walked then_at : Directory) (events : List Event)
    → Still (new walked then_at) walked then_at
    → AnnouncedAll events (new walked then_at, then_at)
    → let (s, d) = happen_all events (new walked then_at, then_at) in (get s d d d).1 ≡ dir_size d
unfolding get
get-dir_size walked then_at events still announced =
    let (s, d) = happen_all events (new walked then_at, then_at) in
    let (le, (mark, same)) =
      happen_all-IsCoherent events (new walked then_at, then_at) announced
        (stamp-le then_at, (λ h. absurd (omega arith), λ clean h. ground (arith, still))) in
    ground (arith, same)

-- Of a directory that can be stamped and a cache without a writer, a second reader is told the same
-- without a walk: whatever a walk would find, the answer and the state stay.
pub get-get :
    (s : State) (d walked then_at : Directory)
    → s.active_writers ≡ 0
    → d.readable ≡ true
    → get (get s d d d).0 d walked then_at ≡ get s d d d
unfolding get
get-get s d walked then_at quiet stamped = ground arith
