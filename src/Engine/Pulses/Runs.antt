-- ===== src/Engine/Pulses/Runs.antt =====
-- crates/scour-engine/src/reconcile.rs: one source through the rounds of many calls of `decide`.
use scour.Prelude.{ℕ, Bool, true, false, Option, none, some, List, [], ◌∷◌, All, ◌≡◌}
use scour.Engine.Pulses.{Pulses, Pulse, Times, Nudge, decide_one}

-- What one call of `decide` hands the source.
pub record Round : Type 0 where
  pub times : Times
  pub watched : Bool
  pub quiet : Bool
  pub reading : Option ℕ

abbrev pub round : Pulses → Round → Pulse → Pulse × Option Nudge
round p c s = decide_one p c.times c.watched c.quiet c.reading s

abbrev pub consed : Option Nudge → List Nudge → List Nudge
consed none out = out
consed (some n) out = n ∷ out

-- The nudges of the source, in order.
unfoldable pub nudges : Pulses → List Round → Pulse → List Nudge
unfolding decide_one
nudges p [] s = []
nudges p (c ∷ calls) s = let rest = nudges p calls (round p c s).0 in consed (round p c s).1 rest

abbrev pub Watched : List Round → Type 0
Watched = All (λ c. c.watched ≡ true)

abbrev pub Unwatched : List Round → Type 0
Unwatched = All (λ c. c.watched ≡ false)

abbrev pub is_check : Nudge → Bool
is_check Nudge.check = true
is_check Nudge.blind = false
is_check Nudge.reconcile_now = false

abbrev pub is_blind : Nudge → Bool
is_blind Nudge.blind = true
is_blind Nudge.check = false
is_blind Nudge.reconcile_now = false
