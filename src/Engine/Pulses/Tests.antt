-- ===== src/Engine/Pulses/Tests.antt =====
-- Runs of the pulses, and the theorems at concrete inputs.
use scour.Prelude.{
  not, ◌||◌, leb, ℕ, ◌≡◌, refl, Bool, true, false, none, some, List, [], ◌∷◌, any, is_empty, length,
  arith,
}
use scour.Engine.Pulses.{Pulses, Pulse, Times, Nudge, seconds, new, decide, fresh, saw_event}
use scour.Engine.Pulses.Runs.{Round, nudges, is_check, is_blind}
use scour.Engine.Pulses.Calls.{Call, decide_all, of_source}
use scour.Engine.Pulses.Promises.{decide_moved, decide_checks, decide_blind}

abbrev at : ℕ → Times
at n = record { start = seconds n; then_at = seconds n; last_at = seconds n }

abbrev begun : Pulses
begun = new (seconds 100) 1 (seconds 60) (seconds 1800) (seconds 86400)

abbrev call : ℕ → Bool → ℕ → Round
call n watched reading = record {
  times = at n;
  watched = watched;
  quiet = false;
  reading = some reading;
}

-- Walked at 100 seconds, and its pulse was 1 then.
abbrev walked_at_100 : Pulse
walked_at_100 = record (fresh (seconds 100) (seconds 60) (seconds 1800)) {
  last = some 1;
  walked = seconds 100;
}

-- The movement at 102 seconds is held back, and acted on at 116.
held_back : nudges begun (call 102 false 2 ∷ call 104 false 2 ∷ []) walked_at_100 ≡ []
unfolding nudges new
held_back = refl

acted_on :
    nudges begun (call 102 false 2 ∷ call 104 false 2 ∷ call 116 false 2 ∷ []) walked_at_100
    ≡ Nudge.reconcile_now ∷ []
unfolding nudges new
acted_on = refl

too_many_readings : decide begun (seconds 102) at [] (λ i. true) (some 1 ∷ some 2 ∷ []) ≡ none
unfolding decide new
too_many_readings = refl

-- Two sources, of which the first is watched.
abbrev two : Pulses
two = record begun { sources = walked_at_100 ∷ walked_at_100 ∷ [] }

abbrev ask : ℕ → ℕ → ℕ → Call
ask n first second = record {
  now = seconds n;
  clock = λ i. at n;
  watched = 0 ∷ [];
  quiet = λ i. false;
  readings = some first ∷ some second ∷ [];
}

abbrev asked : List Call
asked = ask 102 1 2 ∷ ask 104 1 2 ∷ ask 116 1 2 ∷ []

only_the_second_is_nudged : decide_all two asked ≡ some ((1, Nudge.reconcile_now) ∷ [])
unfolding decide_all new
only_the_second_is_nudged = refl

decide_moved_example :
    (out : List (ℕ × Nudge)) × (decide_all two asked ≡ some out)
    × (is_empty (of_source 1 out) ≡ false)
decide_moved_example =
    decide_moved two 1 walked_at_100 (ask 102 1 2) (ask 116 1 2) (ask 104 1 2 ∷ ask 116 1 2 ∷ []) 1
      2 2 (refl, (refl, (refl, tt))) (refl, (refl, (refl, tt))) refl refl refl refl refl refl
      (omega arith)

decide_checks_example :
    (out : List (ℕ × Nudge)) × (decide_all two (ask 50000 1 2 ∷ ask 172900 1 2 ∷ []) ≡ some out)
    × (any is_check (of_source 0 out) ≡ true)
decide_checks_example =
    decide_checks two 0 walked_at_100 (ask 50000 1 2 ∷ ask 172900 1 2 ∷ []) (ask 172900 1 2)
      (refl, (refl, tt)) (refl, (refl, tt)) refl refl (unfold new in omega arith)

decide_blind_example :
    (out : List (ℕ × Nudge)) × (decide_all (saw_event two 0) asked ≡ some out)
    × ((not (any is_blind (of_source 0 out)) || leb 150 (length asked)) ≡ true)
decide_blind_example = decide_blind two 0 walked_at_100 asked (refl, (refl, (refl, tt))) refl
