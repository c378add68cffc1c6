-- ===== src/Engine/Pulses.antt =====
-- crates/scour-engine/src/reconcile.rs: `Pulses`, which turns readings of the sources into work. Its
-- vectors, one entry for each source, are a list of records. Times and durations are numbers of
-- nanoseconds, and `none` stands for the panic of an index out of bounds.
pub mod Runs
pub mod Patience
pub mod Waits
pub mod Calls
pub mod Promises
mod Tests
use scour.Prelude.{
  ℕ, zero, suc, ◌+◌, ◌-◌, ◌*◌, ◌^◌, max, min, Bool, true, false, not, ◌&&◌, ◌||◌, Option, none,
  some, List, [], ◌∷◌, ltb, leb, ◌==◌, if◌then◌else◌, has, get_elem?,
}

pub data Nudge : Type 0 where
  reconcile_now blind check : Nudge

-- What `Pulses` holds of one source.
pub record Pulse : Type 0 where
  pub last : Option ℕ
  pub pending : Bool
  pub walked : ℕ
  pub pulse_floor : ℕ
  pub scan_rest : ℕ
  pub patience : ℕ
  pub moved_since_event : ℕ
  pub fallback : ℕ
  pub safety : ℕ
  pub whole_at : ℕ

pub record Pulses : Type 0 where
  pub sources : List Pulse
  pub checked : ℕ
  pub poll : ℕ
  pub reconcile : ℕ
  pub watched_reconcile : ℕ

abbrev pub seconds : ℕ → ℕ
seconds n = n * 10 ^ 9

-- `EVERY`, `FLOOR` and `PATIENCE`.
abbrev pub every : ℕ
every = seconds 2

abbrev pub least_floor : ℕ
least_floor = seconds 15

abbrev pub patience_limit : ℕ
patience_limit = 150

abbrev pub max_duration : ℕ
max_duration = seconds (2 ^ 64 - 1) + 999_999_999

-- The clock is read where the entries of each vector are made; one reading stands for them.
abbrev pub fresh : ℕ → ℕ → ℕ → Pulse
fresh now poll reconcile = record {
  last = none;
  pending = false;
  walked = now - least_floor;
  pulse_floor = least_floor;
  scan_rest = 0;
  patience = 0;
  moved_since_event = 0;
  fallback = now + poll;
  safety = now + reconcile;
  whole_at = now;
}

abbrev copies {ℓ} : {A : Type ℓ} → ℕ → A → List A
copies zero a = []
copies (suc n) a = a ∷ copies n a

unfoldable pub new : ℕ → ℕ → ℕ → ℕ → ℕ → Pulses
new now n poll reconcile watched_reconcile = record {
  sources = copies n (fresh now poll reconcile);
  checked = now;
  poll = poll;
  reconcile = reconcile;
  watched_reconcile = watched_reconcile;
}

abbrev pub next_due : Pulses → ℕ
next_due p = p.checked + every

-- `elapsed()` at a time.
abbrev pub elapsed : ℕ → ℕ → ℕ
elapsed now since = now - since

abbrev pub is_due : Pulses → ℕ → Bool
is_due p now = leb every (elapsed now p.checked)

-- One entry of each vector, changed.
unfoldable pub change : (Pulse → Pulse) → ℕ → List Pulse → Option (List Pulse)
change f i [] = none
change f zero (s ∷ sources) = some (f s ∷ sources)
change f (suc i) (s ∷ sources) = elim (change f i sources) [
  | none ↦ none
  | some rest ↦ some (s ∷ rest)
]

abbrev pub with_sources : Pulses → Option (List Pulse) → Option Pulses
with_sources p none = none
with_sources p (some sources) = some (record p { sources = sources })

unfoldable pub be_patient : Pulses → ℕ → ℕ → Option Pulses
unfolding change
be_patient p source least = with_sources p (
    change (λ s. record s { patience = least; pulse_floor = max s.pulse_floor least }) source
      p.sources)

-- `defer`, on the entries of one source.
unfoldable pub defer : ℕ → ℕ → ℕ → Pulse → Pulse
defer now poll reconcile s = record s {
  walked = now;
  whole_at = now;
  pending = false;
  pulse_floor = max (max least_floor s.scan_rest) s.patience;
  fallback = now + max poll s.scan_rest;
  safety = now + max reconcile s.scan_rest;
}

unfoldable pub scanned : Pulses → ℕ → ℕ → ℕ → Option Pulses
unfolding change defer
scanned p now source cost = with_sources p (
    change
      (λ s. defer now p.poll p.reconcile (record s { scan_rest = min (cost * 20) max_duration }))
      source p.sources)

unfoldable pub retry_at : Pulses → ℕ → ℕ → ℕ → Option ℕ
retry_at p now source delay = elim (get_elem? p.sources source) [
  | none ↦ none
  | some s ↦ some (now + max delay s.scan_rest)
]

-- A source that there is not is passed over.
unfoldable pub saw_event : Pulses → ℕ → Pulses
unfolding change
saw_event p source = elim (change (λ s. record s { moved_since_event = 0 }) source p.sources) [
  | none ↦ p
  | some sources ↦ record p { sources = sources }
]

-- The clock, as it is read in the round of one source: at its start, and then twice at most.
pub record Times : Type 0 where
  pub start : ℕ
  pub then_at : ℕ
  pub last_at : ℕ

abbrev pub differs : Option ℕ → ℕ → Bool
differs none now = false
differs (some was) now = not (was == now)

-- The last part of the round, on a pulse that was read.
unfoldable pub decide_pulse : Times → Bool → ℕ → Pulse → Pulse × Option Nudge
decide_pulse t watched now s =
    let moved = differs s.last now in
    let seen : Pulse = record s { last = some now; pending = if moved then true else s.pending } in
    let count = if moved then min (s.moved_since_event + 1) (2 ^ 32 - 1) else s.moved_since_event in
    let rested = leb s.pulse_floor (elapsed t.then_at s.walked) in
    if watched
    then (if leb patience_limit count && rested
        then (
          record seen { moved_since_event = 0; pending = false; walked = t.last_at },
          some Nudge.blind,
        )
        else (record seen { moved_since_event = count }, none))
    else if seen.pending && rested
    then (record seen { pending = false; walked = t.last_at }, some Nudge.reconcile_now)
    else (seen, none)

-- The source is put off, and the reading kept.
abbrev pub put_off : Pulses → Times → Option ℕ → Pulse → Pulse
put_off p t reading s = record (defer t.then_at p.poll p.reconcile s) {
  last = reading;
  moved_since_event = 0;
}

abbrev pub is_none : Option ℕ → Bool
is_none none = true
is_none (some n) = false

-- One round of the loop of `decide`.
unfoldable pub decide_one : Pulses → Times → Bool → Bool → Option ℕ → Pulse → Pulse × Option Nudge
unfolding decide_pulse defer
decide_one p t watched quiet reading s =
    let due = s.whole_at + p.watched_reconcile in
    let check_due = leb due t.start && (leb (due + p.watched_reconcile) t.start || quiet) in
    let safety_due = not watched && leb s.safety t.start in
    let polling_due = not watched && leb s.fallback t.start in
    if watched && check_due
    then (put_off p t reading s, some Nudge.check)
    else if safety_due || (is_none reading && polling_due)
    then (put_off p t reading s, some Nudge.reconcile_now)
    else elim reading [ none ↦ (s, none) | some now ↦ decide_pulse t watched now s ]

abbrev pub noted : ℕ → Option Nudge → List (ℕ × Nudge) → List (ℕ × Nudge)
noted i none out = out
noted i (some n) out = (i, n) ∷ out

-- The loop, from source `i` on. `clock` says when each round reads the time, and `quiet` what the
-- machine answers then.
unfoldable pub decide_loop :
    Pulses
    → (ℕ → Times)
    → List ℕ
    → (ℕ → Bool)
    → ℕ
    → List (Option ℕ)
    → List Pulse
    → Option (List Pulse × List (ℕ × Nudge))
unfolding decide_one
decide_loop p clock watched quiet i [] sources = some (sources, [])
decide_loop p clock watched quiet i (reading ∷ readings) [] = none
decide_loop p clock watched quiet i (reading ∷ readings) (s ∷ sources) =
    let (s', nudge) = decide_one p (clock i) (has i watched) (quiet i) reading s in
    elim (decide_loop p clock watched quiet (i + 1) readings sources) [
      | none ↦ none
      | some (sources', out) ↦ some (s' ∷ sources', noted i nudge out)
    ]

unfoldable pub decide :
    Pulses
    → ℕ
    → (ℕ → Times)
    → List ℕ
    → (ℕ → Bool)
    → List (Option ℕ)
    → Option (Pulses × List (ℕ × Nudge))
unfolding decide_loop
decide p now clock watched quiet readings =
    elim (decide_loop p clock watched quiet 0 readings p.sources) [
      | none ↦ none
      | some (sources, out) ↦ some (record p { sources = sources; checked = now }, out)
    ]
