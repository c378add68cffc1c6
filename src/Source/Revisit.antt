-- ===== src/Source/Revisit.antt =====
-- crates/scour-source-fs/src/revisit.rs: the paths that are looked at again, on a clock that widens.
-- The thread's loop is widen, then examine for each path that was due.
pub mod Bounds
mod Tests
use scour.Prelude.{
  ℕ, zero, suc, ◌+◌, ◌*◌, ◌^◌, ◌==◌, ◌&&◌, ◌≤◌, ltb, leb, min, Bool, true, false, not, ◌||◌,
  if◌then◌else◌, Option, none, some, List, [], ◌∷◌, map, keep, any, length, Str, str_eq, ℤ, eq_ℤ,
}

-- Instants and durations are nanoseconds. `TIERS`, which is only asked for the tiers it has.
abbrev pub wait_of : ℕ → ℕ
wait_of zero = 5 * 1000000000
wait_of (suc zero) = 30 * 1000000000
wait_of (suc (suc zero)) = 120 * 1000000000
wait_of (suc (suc (suc tier))) = 600 * 1000000000

abbrev pub last_tier : ℕ
last_tier = 3

abbrev pub cap : ℕ
cap = 4096

-- The metadata of a path that was looked at, without following a link.
pub record Found : Type 0 where
  pub is_dir : Bool
  pub size : ℕ
  pub mtime : ℤ

-- The sink is the one of the source, and is not modelled.
pub record Seen : Type 0 where
  pub id : ℕ
  pub real_modes : Bool
  pub next : ℕ
  pub tier : ℕ
  pub size : ℕ
  pub mtime : ℤ
  pub stamp : ℕ

abbrev pub Paths : Type 0
Paths = List (Str × Seen)

abbrev pub is_at : Str → Str × Seen → Bool
is_at path e = str_eq e.0 path

unfoldable pub remove : Str → Paths → Paths
remove path s = keep (λ e. not (is_at path e)) s

abbrev pub change_at : Str → (Seen → Seen) → Str × Seen → Str × Seen
change_at path f e = if is_at path e then (e.0, f e.1) else e

-- `min_by_key`: of several oldest, the first that the map gives.
unfoldable pub oldest : Str × Seen → Paths → Str
oldest best [] = best.0
oldest best (e ∷ s) = oldest (if ltb e.1.stamp best.1.stamp then e else best) s

unfoldable pub evict : Paths → Paths
unfolding oldest remove
evict [] = []
evict (e ∷ s) = remove (oldest e s) (e ∷ s)

-- A path that is known goes back to the first tier.
abbrev pub refresh : ℕ → Found → Seen → Seen
refresh now md seen = record seen {
  tier = 0;
  next = now + wait_of 0;
  size = md.size;
  mtime = md.mtime;
  stamp = now;
}

unfoldable pub note : ℕ → Str → ℕ → Bool → Option Found → Paths → Paths
unfolding evict
note now path id real_modes none s = s
note now path id real_modes (some md) s =
    if md.is_dir
    then s
    else if any (is_at path) s
    then map (change_at path (refresh now md)) s
    else (
      path,
      record {
        id = id;
        real_modes = real_modes;
        next = now + wait_of 0;
        tier = 0;
        size = md.size;
        mtime = md.mtime;
        stamp = now;
      },
    )
      ∷ (if leb cap (length s) then evict s else s)

abbrev pub is_due : ℕ → Str × Seen → Bool
is_due now e = leb e.1.next now

unfoldable pub due : ℕ → Paths → List Str
due now s = map (λ e. e.0) (keep (is_due now) s)

-- The tier of each path that is due, advanced under the lock.
abbrev pub advance : ℕ → Seen → Seen
advance now seen =
    let tier = min (seen.tier + 1) last_tier in
    record seen { tier = tier; next = now + wait_of tier }

abbrev pub advance_due : ℕ → Str × Seen → Str × Seen
advance_due now e = if is_due now e then (e.0, advance now e.1) else e

unfoldable pub widen : ℕ → Paths → Paths
widen now s = map (advance_due now) s

-- What `symlink_metadata` answers.
pub data Stat : Type 0 where
  found : Found → Stat
  not_found : Stat
  failed : Stat

abbrev pub keeps_shape : Found → Str → Str × Seen → Bool
keeps_shape md path e = is_at path e && (md.size == e.1.size && eq_ℤ md.mtime e.1.mtime)

-- One path of the loop: the paths after it, and whether the source is told to look.
unfoldable pub examine : Str → Stat → Paths → Paths × Bool
unfolding remove
examine path (found md) s =
    if not (any (is_at path) s) || any (keeps_shape md path) s
    then (s, false)
    else (map (change_at path (λ e. record e { size = md.size; mtime = md.mtime })) s, true)
examine path not_found s = if any (is_at path) s then (remove path s, true) else (s, false)
examine path failed s = (s, false)

-- What is done with the paths at an instant, and the paths that it can lead to while time passes.
pub data Event : Type 0 where
  noted : Str → ℕ → Bool → Option Found → Event
  forgotten : Str → Event
  widened : Event
  examined : Str → Stat → Event

unfoldable pub happen : ℕ → Event → Paths → Paths
unfolding note remove widen examine
happen now (Event.noted path id real_modes md) s = note now path id real_modes md s
happen now (Event.forgotten path) s = remove path s
happen now Event.widened s = widen now s
happen now (Event.examined path stat) s = (examine path stat s).0

pub data Reach : ℕ → Paths → Type 0 where
  empty : {now : ℕ} → Reach now []
  later :
      {then_at now : ℕ} {s : Paths} (e : Event)
      → Reach then_at s
      → then_at ≤ now
      → Reach now (happen now e s)
