-- ===== src/Engine/Pulses/Waits.antt =====
-- crates/scour-engine/src/reconcile.rs: what `decide` owes a source that has moved, and one that is
-- watched.
use scour.Prelude.{
  ℕ, ◌+◌, ◌≤◌, ◌≡◌, refl, true, false, Option, none, some, List, [], ◌∷◌, ◌==◌, any, is_empty,
  last?, arith, inl, inr, Option-cases, is_some, ◌⊎◌,
}
use scour.Engine.Pulses.{Pulses, Pulse, Nudge, decide_one, decide_pulse}
use scour.Engine.Pulses.Runs.{Round, round, nudges, consed, Watched, Unwatched, is_check}

module _ (p : Pulses) (c : Round) (s : Pulse) where
  -- A round without a nudge leaves what an unwatched source waits for.
  still_waits :
      c.watched ≡ false
      → s.pending ≡ true
      → (round p c s).1 ≡ none
      → ((round p c s).0.pending ≡ true)
        × ((round p c s).0.walked ≡ s.walked)
        × ((round p c s).0.pulse_floor ≡ s.pulse_floor)
  unfolding decide_one decide_pulse
  still_waits h pend e = ground arith

  -- Once the floor is behind, a pulse that is read ends the wait.
  wait_ends :
      (n : ℕ)
      → c.watched ≡ false
      → s.pending ≡ true
      → c.reading ≡ some n
      → s.walked + s.pulse_floor ≤ c.times.then_at
      → is_some (round p c s).1 ≡ true
  unfolding decide_one decide_pulse
  wait_ends n h pend e late = ground arith

  -- A pulse that moved is acted on, or waited for.
  moved_waits :
      (was n : ℕ)
      → c.watched ≡ false
      → s.last ≡ some was
      → c.reading ≡ some n
      → (was == n) ≡ false
      → (is_some (round p c s).1 ≡ true)
        ⊎ (((round p c s).0.pending ≡ true)
            × ((round p c s).0.walked ≡ s.walked)
            × ((round p c s).0.pulse_floor ≡ s.pulse_floor))
  unfolding decide_one decide_pulse
  moved_waits was n h was_there e moved = elim (Option-cases (round p c s).1) [
    | inr (nudge, found) ↦ inl (ground arith)
    | inl none_there ↦ inr (ground arith)
  ]

  -- A watched source that is two intervals late is checked.
  check_comes :
      c.watched ≡ true
      → s.whole_at + p.watched_reconcile + p.watched_reconcile ≤ c.times.start
      → (round p c s).1 ≡ some Nudge.check
  unfolding decide_one
  check_comes h late = ground arith

  -- A round of a watched source without a check leaves when it was last walked whole.
  unchecked :
      c.watched ≡ true
      → ((round p c s).1 ≡ some Nudge.check) ⊎ ((round p c s).0.whole_at ≡ s.whole_at)
  unfolding decide_one decide_pulse
  unchecked h = elim (Option-cases (round p c s).1) [
    | inl none_there ↦ inr (ground arith)
    | inr (Nudge.check, found) ↦ inl found
    | inr (Nudge.blind, found) ↦ inr (ground arith)
    | inr (Nudge.reconcile_now, found) ↦ inr (ground arith)
  ]

nudged : (o : Option Nudge) (l : List Nudge) → is_some o ≡ true → is_empty (consed o l) ≡ false
nudged none l h = absurd (cc)
nudged (some n) l h = refl

unless_nudged :
    (o : Option Nudge) (l : List Nudge)
    → (o ≡ none → is_empty l ≡ false)
    → is_empty (consed o l) ≡ false
unless_nudged none l h = h refl
unless_nudged (some n) l h = refl

pending-walked :
    (p : Pulses) (calls : List Round) (c : Round) (s : Pulse) (n : ℕ)
    → Unwatched calls
    → s.pending ≡ true
    → last? calls ≡ some c
    → c.reading ≡ some n
    → s.walked + s.pulse_floor ≤ c.times.then_at
    → is_empty (nudges p calls s) ≡ false
unfolding nudges
pending-walked p [] c s n free pend at e late = absurd (cc)
pending-walked p (d ∷ []) c s n (h, free) pend at e late =
    let same : d ≡ c = cc in
    nudged (round p d s).1 [] (wait_ends p d s n h pend (rw same e) (rw same late))
pending-walked p (d ∷ d' ∷ calls) c s n (h, free) pend at e late =
    unless_nudged (round p d s).1 (nudges p (d' ∷ calls) (round p d s).0) (λ quiet.
      let (pend', walked, floor) = still_waits p d s h pend quiet in
      pending-walked p (d' ∷ calls) c (round p d s).0 n free pend' at e (rw (walked, floor) late))

-- A pulse of an unwatched source that moved is not forgotten: the source is nudged by the time of a
-- round that reads its pulse when the floor is behind, counted from the walk before the movement.
pub moved-walked :
    (p : Pulses) (c d : Round) (calls : List Round) (s : Pulse) (was now n : ℕ)
    → Unwatched (c ∷ calls)
    → s.last ≡ some was
    → c.reading ≡ some now
    → (was == now) ≡ false
    → last? calls ≡ some d
    → d.reading ≡ some n
    → s.walked + s.pulse_floor ≤ d.times.then_at
    → is_empty (nudges p (c ∷ calls) s) ≡ false
unfolding nudges
moved-walked p c d calls s was now n (h, free) at e moved end read late =
    unless_nudged (round p c s).1 (nudges p calls (round p c s).0) (λ quiet.
      elim (moved_waits p c s was now h at e moved) [
        | inl found ↦ absurd (ground arith)
        | inr (pend, walked, floor) ↦
            pending-walked p calls d (round p c s).0 n free pend end read (rw (walked, floor) late)
      ])

any-check :
    (o : Option Nudge) (l : List Nudge) → o ≡ some Nudge.check → any is_check (consed o l) ≡ true
any-check none l h = absurd (cc)
any-check (some n) l h = let e : n ≡ Nudge.check = cc in rw e refl

any_later :
    (o : Option Nudge) (l : List Nudge) → any is_check l ≡ true → any is_check (consed o l) ≡ true
any_later none l h = h
any_later (some n) l h = ground arith

-- A source that is watched is checked within two intervals of its last whole walk: whatever its pulse
-- and the machine say, rounds up to one that starts then nudge it for a check.
pub Watched-checked :
    (p : Pulses) (calls : List Round) (c : Round) (s : Pulse)
    → Watched calls
    → last? calls ≡ some c
    → s.whole_at + p.watched_reconcile + p.watched_reconcile ≤ c.times.start
    → any is_check (nudges p calls s) ≡ true
unfolding nudges
Watched-checked p [] c s seen at late = absurd (cc)
Watched-checked p (d ∷ []) c s (h, seen) at late =
    let same : d ≡ c = cc in any-check (round p d s).1 [] (check_comes p d s h (rw same late))
Watched-checked p (d ∷ d' ∷ calls) c s (h, seen) at late = elim (unchecked p d s h) [
  | inl found ↦ any-check (round p d s).1 (nudges p (d' ∷ calls) (round p d s).0) found
  | inr kept ↦
      any_later (round p d s).1 (nudges p (d' ∷ calls) (round p d s).0)
        (Watched-checked p (d' ∷ calls) c (round p d s).0 seen at (rw kept late))
]
