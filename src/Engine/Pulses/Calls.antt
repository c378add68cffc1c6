-- ===== src/Engine/Pulses/Calls.antt =====
-- crates/scour-engine/src/reconcile.rs: many calls of `decide`, and one source through them.
use scour.Prelude.{
  ℕ, zero, suc, ◌+◌, ◌≤◌, ◌≡◌, refl, Bool, false, Option, none, some, List, [], ◌∷◌, ◌++◌, All, has,
  length, get_elem?, map, if◌then◌else◌, arith, ap, ◌∙◌, sym, subst, get_elem?-some, get_elem?-lt,
  ◌==◌,
}
use scour.Engine.Pulses.{Pulses, Pulse, Times, Nudge, decide_one, decide_loop, decide, noted}
use scour.Engine.Pulses.Runs.{Round, round, nudges, consed}

-- What one call of `decide` finds: the time, the clock and the quiet of each source's round, the
-- sources that are watched, and the readings.
pub record Call : Type 0 where
  pub now : ℕ
  pub clock : ℕ → Times
  pub watched : List ℕ
  pub quiet : ℕ → Bool
  pub readings : List (Option ℕ)

abbrev pub answer : Pulses → Call → Option (Pulses × List (ℕ × Nudge))
answer p c = decide p c.now c.clock c.watched c.quiet c.readings

abbrev pub joined : List (ℕ × Nudge) → Option (List (ℕ × Nudge)) → Option (List (ℕ × Nudge))
joined out none = none
joined out (some rest) = some (out ++ rest)

-- The nudges of all the calls, in order.
unfoldable pub decide_all : Pulses → List Call → Option (List (ℕ × Nudge))
unfolding decide
decide_all p [] = some []
decide_all p (c ∷ calls) = elim (answer p c) [
  | none ↦ none
  | some (p', out) ↦ joined out (decide_all p' calls)
]

-- The nudges of one source among them.
unfoldable pub of_source : ℕ → List (ℕ × Nudge) → List Nudge
of_source i [] = []
of_source i ((j, n) ∷ out) = let rest = of_source i out in if i == j then n ∷ rest else rest

abbrev or_unread : Option (Option ℕ) → Option ℕ
or_unread none = none
or_unread (some reading) = reading

-- The round of one source in a call.
abbrev pub round_of : ℕ → Call → Round
round_of i c = record {
  times = c.clock i;
  watched = has i c.watched;
  quiet = c.quiet i;
  reading = or_unread (get_elem? c.readings i);
}

-- Each call has a reading, or the lack of one, for each source.
abbrev pub Fit : ℕ → List Call → Type 0
Fit n = All (λ c. length c.readings ≡ n)

of_source-append :
    (i : ℕ) (xs ys : List (ℕ × Nudge)) → of_source i (xs ++ ys) ≡ of_source i xs ++ of_source i ys
unfolding of_source
of_source-append i [] ys = refl
of_source-append i ((j, n) ∷ xs) ys = ground (arith, of_source-append i xs ys)

of_source_above :
    (i k : ℕ) (out : List (ℕ × Nudge)) → suc i ≤ k → All (λ e. k ≤ e.0) out → of_source i out ≡ []
unfolding of_source
of_source_above i k [] h a = refl
of_source_above i k ((j, n) ∷ out) h (b, a) = ground (arith, of_source_above i k out h a)

of_source-noted :
    (i : ℕ) (o : Option Nudge) (out : List (ℕ × Nudge))
    → of_source i out ≡ []
    → of_source i (noted i o out) ≡ consed o []
unfolding of_source
of_source-noted i none out h = h
of_source-noted i (some n) out h = ground (arith, h)

of_source-noted_other :
    (i j : ℕ) (o : Option Nudge) (out : List (ℕ × Nudge))
    → (i == j) ≡ false
    → of_source i (noted j o out) ≡ of_source i out
unfolding of_source
of_source-noted_other i j none out h = refl
of_source-noted_other i j (some n) out h = rw h refl

above-All : (k : ℕ) (out : List (ℕ × Nudge)) → All (λ e. suc k ≤ e.0) out → All (λ e. k ≤ e.0) out
above-All k [] h = tt
above-All k (e ∷ out) (b, h) = (omega arith, above-All k out h)

noted-All :
    (k : ℕ) (o : Option Nudge) (out : List (ℕ × Nudge))
    → All (λ e. suc k ≤ e.0) out
    → All (λ e. k ≤ e.0) (noted k o out)
noted-All k none out h = above-All k out h
noted-All k (some n) out h = (omega arith, above-All k out h)

-- A round of source `j` was made, and it gave these.
abbrev Rounded : Pulses → Call → ℕ → Option ℕ → Pulse → Option Pulse → List Nudge → Type 0
Rounded p c j reading s s' out =
    (s' ≡ some (decide_one p (c.clock j) (has j c.watched) (c.quiet j) reading s).0)
    × (out ≡ consed (decide_one p (c.clock j) (has j c.watched) (c.quiet j) reading s).1 [])

-- What the loop from source `k` on leaves: a round of each source, and its nudge alone.
record Looped (p : Pulses) (c : Call) (k : ℕ) (readings : List (Option ℕ)) (sources : List Pulse)
    : Type 0 where
  sources' : List Pulse
  out : List (ℕ × Nudge)
  returns : decide_loop p c.clock c.watched c.quiet k readings sources ≡ some (sources', out)
  as_many : length sources' ≡ length sources
  above : All (λ e. k ≤ e.0) out
  each :
      (i j : ℕ) (s : Pulse) (reading : Option ℕ)
      → k + i ≡ j
      → get_elem? sources i ≡ some s
      → get_elem? readings i ≡ some reading
      → Rounded p c j reading s (get_elem? sources' i) (of_source j out)

Looped-each :
    (p : Pulses) (c : Call) (k : ℕ) (reading : Option ℕ) (s : Pulse) (readings : List (Option ℕ))
    (sources : List Pulse) (rest : Looped p c (suc k) readings sources) (i j : ℕ) (x : Pulse)
    (read : Option ℕ)
    → k + i ≡ j
    → get_elem? (s ∷ sources) i ≡ some x
    → get_elem? (reading ∷ readings) i ≡ some read
    → let here = decide_one p (c.clock k) (has k c.watched) (c.quiet k) reading s in
      Rounded p c j read x
        (get_elem? (here.0 ∷ rest.sources') i)
        (of_source j (noted k here.1 rest.out))
Looped-each p c k reading s readings sources rest zero j x read same a b =
    let here = decide_one p (c.clock k) (has k c.watched) (c.quiet k) reading s in
    let at : k ≡ j = omega (arith, same) in
    let is : s ≡ x = cc in
    let is_read : reading ≡ read = cc in
    subst (λ n. Rounded p c n read x (some here.0) (of_source n (noted k here.1 rest.out))) at
      (rw (← is, ← is_read)
        ((
          refl,
          of_source-noted k here.1 rest.out
              (of_source_above k (suc k) rest.out (omega arith) rest.above),
        )))
Looped-each p c k reading s readings sources rest (suc i) j x read same a b =
    let here = decide_one p (c.clock k) (has k c.watched) (c.quiet k) reading s in
    let (left, nudge) = rest.each i j x read (omega (arith, same)) a b in
    (left, of_source-noted_other j k here.1 rest.out (ground (arith, same)) ∙ nudge)

decide_loop-Looped :
    (p : Pulses) (c : Call) (k : ℕ) (readings : List (Option ℕ)) (sources : List Pulse)
    → length readings ≡ length sources
    → Looped p c k readings sources
unfolding decide_loop
decide_loop-Looped p c k [] [] h = record {
  sources' = [];
  out = [];
  returns = refl;
  as_many = refl;
  above = tt;
  each = λ i j s reading same a b. absurd (cc);
}
decide_loop-Looped p c k [] (s ∷ sources) h = absurd (omega arith)
decide_loop-Looped p c k (reading ∷ readings) [] h = absurd (omega arith)
decide_loop-Looped p c k (reading ∷ readings) (s ∷ sources) h =
    let rest = decide_loop-Looped p c (suc k) readings sources (omega arith) in
    let here = decide_one p (c.clock k) (has k c.watched) (c.quiet k) reading s in
    record {
      sources' = here.0 ∷ rest.sources';
      out = noted k here.1 rest.out;
      returns = let up : k + 1 ≡ suc k = omega arith in rw (decide_loop, up, rest.returns) refl;
      as_many = omega (arith, rest.as_many);
      above = noted-All k here.1 rest.out rest.above;
      each = Looped-each p c k reading s readings sources rest;
    }

-- A call returns, and leaves each source as one round of it does.
decide-round :
    (p : Pulses) (c : Call) (i : ℕ) (s : Pulse)
    → length c.readings ≡ length p.sources
    → get_elem? p.sources i ≡ some s
    → (sources : List Pulse) × (out : List (ℕ × Nudge)) × (answer p c
        ≡ some (record p { sources = sources; checked = c.now }, out))
      × (length sources ≡ length p.sources)
      × (get_elem? sources i ≡ some (round p (round_of i c) s).0)
      × (of_source i out ≡ consed (round p (round_of i c) s).1 [])
unfolding decide
decide-round p c i s fit at =
    let loop = decide_loop-Looped p c 0 c.readings p.sources fit in
    let (reading, read) =
      get_elem?-some c.readings i (omega (arith, fit, get_elem?-lt p.sources i s at)) in
    let (left, nudge) = loop.each i i s reading (omega arith) at read in
    (
      loop.sources',
      loop.out,
      rw (decide, loop.returns) refl,
      loop.as_many,
      rw read left,
      rw read nudge,
    )

-- The round reads nothing of the other sources.
nudges-with_sources :
    (p : Pulses) (sources : List Pulse) (now : ℕ) (calls : List Round) (s : Pulse)
    → nudges (record p { sources = sources; checked = now }) calls s ≡ nudges p calls s
unfolding nudges
nudges-with_sources p sources now [] s = refl
nudges-with_sources p sources now (c ∷ calls) s =
    ap (consed (round p c s).1) (nudges-with_sources p sources now calls (round p c s).0)

append-consed : (o : Option Nudge) (l : List Nudge) → consed o [] ++ l ≡ consed o l
append-consed none l = refl
append-consed (some n) l = refl

-- All the calls return, and the nudges of a source are those of its rounds.
pub decide_all-nudges :
    (p : Pulses) (calls : List Call) (i : ℕ) (s : Pulse)
    → Fit (length p.sources) calls
    → get_elem? p.sources i ≡ some s
    → (out : List (ℕ × Nudge)) × (decide_all p calls ≡ some out)
      × (of_source i out ≡ nudges p (map (round_of i) calls) s)
unfolding decide_all nudges of_source
decide_all-nudges p [] i s fit at = ([], refl, refl)
decide_all-nudges p (c ∷ calls) i s (fit, fits) at =
    let (sources, out, returns, as_many, left, nudge) = decide-round p c i s fit at in
    let p' : Pulses = record p { sources = sources; checked = c.now } in
    let s' = (round p (round_of i c) s).0 in
    let (rest, rest_returns, nudges_of) =
      decide_all-nudges p' calls i s' (subst (λ n. Fit n calls) (sym as_many) fits) left in
    (
      out ++ rest,
      rw (decide_all, returns, rest_returns) refl,
      of_source-append i out rest
          ∙ ap (λ l. l ++ of_source i rest) nudge
          ∙ append-consed (round p (round_of i c) s).1 (of_source i rest)
          ∙ ap (consed (round p (round_of i c) s).1)
              (nudges_of ∙ nudges-with_sources p sources c.now (map (round_of i) calls) s'),
    )
