-- ===== src/Engine/Pulses/Patience.antt =====
-- crates/scour-engine/src/reconcile.rs: when `decide` calls a watcher blind.
use scour.Prelude.{
  ◌+◌, ◌≤◌, ◌≡◌, refl, max, true, Option, none, some, List, [], ◌∷◌, any, length, arith, inl, inr,
  ◌⊎◌,
}
use scour.Engine.Pulses.{Pulses, Pulse, Nudge, decide_one, decide_pulse, patience_limit}
use scour.Engine.Pulses.Runs.{Round, round, nudges, consed, is_blind}

module _ (p : Pulses) (c : Round) (s : Pulse) where
  -- A round counts one movement at most.
  counts_one : (round p c s).0.moved_since_event ≤ s.moved_since_event + 1
  unfolding decide_one decide_pulse
  counts_one = ground arith

  -- A watcher is called blind at the limit, and after the floor.
  blind_late :
      (round p c s).1 ≡ some Nudge.blind
      → (patience_limit ≤ s.moved_since_event + 1)
        × (s.walked + s.pulse_floor ≤ max s.walked c.times.then_at)
  unfolding decide_one decide_pulse
  blind_late e = ground arith

blind_now_or_later :
    (o : Option Nudge) (l : List Nudge)
    → any is_blind (consed o l) ≡ true
    → (o ≡ some Nudge.blind) ⊎ (any is_blind l ≡ true)
blind_now_or_later none l h = inr h
blind_now_or_later (some Nudge.blind) l h = inl refl
blind_now_or_later (some Nudge.check) l h = inr h
blind_now_or_later (some Nudge.reconcile_now) l h = inr h

-- Among the nudges of some rounds of a source, there is a `Blind` only if the rounds and the
-- movements that were counted before them are together 150 at least.
pub blind-patience :
    (p : Pulses) (calls : List Round) (s : Pulse)
    → any is_blind (nudges p calls s) ≡ true
    → patience_limit ≤ s.moved_since_event + length calls
unfolding nudges
blind-patience p [] s h = absurd (cc)
blind-patience p (c ∷ calls) s h =
    elim (blind_now_or_later (round p c s).1 (nudges p calls (round p c s).0) h) [
      | inl now ↦ omega (arith, blind_late p c s now)
      | inr later ↦ omega (arith, counts_one p c s, blind-patience p calls (round p c s).0 later)
    ]
