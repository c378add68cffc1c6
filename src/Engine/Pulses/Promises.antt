-- ===== src/Engine/Pulses/Promises.antt =====
-- crates/scour-engine/src/reconcile.rs: what the calls of `decide` owe one source of many.
use scour.Prelude.{
  ℕ, zero, suc, ◌+◌, ◌≤◌, ◌≡◌, refl, Bool, true, false, some, List, [], ◌∷◌, All, has, length,
  get_elem?, map, ◌==◌, arith, ap, ◌∙◌, sym, subst, any, is_empty, last?, length-map, not, ◌||◌,
  leb, Bool-cases, inl, inr,
}
use scour.Engine.Pulses.{Pulses, Pulse, Nudge, change, saw_event}
use scour.Engine.Pulses.Runs.{Round, is_check, is_blind}
use scour.Engine.Pulses.Waits.{moved-walked, Watched-checked}
use scour.Engine.Pulses.Patience.{blind-patience}
use scour.Engine.Pulses.Calls.{Call, decide_all, of_source, round_of, Fit, decide_all-nudges}

-- A source that none of the calls, or each of them, has on its watched list.
abbrev pub Throughout : Bool → ℕ → List Call → Type 0
Throughout b i = All (λ c. has i c.watched ≡ b)

rounds-All :
    (b : Bool) (i : ℕ) (calls : List Call)
    → Throughout b i calls
    → All (λ (r : Round). r.watched ≡ b) (map (round_of i) calls)
rounds-All b i [] h = tt
rounds-All b i (c ∷ calls) (e, h) = (e, rounds-All b i calls h)

last?-map {ℓ κ} :
    {A : Type ℓ} {B : Type κ} (f : A → B) (l : List A) (a : A)
    → last? l ≡ some a
    → last? (map f l) ≡ some (f a)
last?-map f [] a h = absurd (cc)
last?-map f (x ∷ []) a h = let e : x ≡ a = cc in rw e refl
last?-map f (x ∷ y ∷ l) a h = last?-map f (y ∷ l) a h

-- A pulse of an unwatched source that moved is not forgotten: whatever calls of `decide` follow,
-- each with a reading or the lack of one for every source, they return, and the source is nudged by
-- the time of one that reads its pulse when the floor is behind, counted from the walk before the
-- movement.
pub decide_moved :
    (p : Pulses) (i : ℕ) (s : Pulse) (c d : Call) (calls : List Call) (was now n : ℕ)
    → Fit (length p.sources) (c ∷ calls)
    → Throughout false i (c ∷ calls)
    → get_elem? p.sources i ≡ some s
    → s.last ≡ some was
    → get_elem? c.readings i ≡ some (some now)
    → (was == now) ≡ false
    → last? calls ≡ some d
    → get_elem? d.readings i ≡ some (some n)
    → s.walked + s.pulse_floor ≤ (d.clock i).then_at
    → (out : List (ℕ × Nudge)) × (decide_all p (c ∷ calls) ≡ some out)
      × (is_empty (of_source i out) ≡ false)
decide_moved p i s c d calls was now n fit free at last read moved end end_read late =
    let (out, returns, same) = decide_all-nudges p (c ∷ calls) i s fit at in
    (
      out,
      returns,
      ap is_empty same
          ∙ moved-walked p (round_of i c) (round_of i d) (map (round_of i) calls) s was now n
              (rounds-All false i (c ∷ calls) free) last (rw read refl) moved
              (last?-map (round_of i) calls d end) (rw end_read refl) late,
    )

-- A source that every call has on its watched list is checked within two intervals of its last
-- whole walk: whatever the pulses and the machine say, calls of `decide` up to one whose round of
-- it starts then return, and nudge it for a check; for calls with a reading or the lack of one for
-- every source.
pub decide_checks :
    (p : Pulses) (i : ℕ) (s : Pulse) (calls : List Call) (c : Call)
    → Fit (length p.sources) calls
    → Throughout true i calls
    → get_elem? p.sources i ≡ some s
    → last? calls ≡ some c
    → s.whole_at + p.watched_reconcile + p.watched_reconcile ≤ (c.clock i).start
    → (out : List (ℕ × Nudge)) × (decide_all p calls ≡ some out)
      × (any is_check (of_source i out) ≡ true)
decide_checks p i s calls c fit seen at end late =
    let (out, returns, same) = decide_all-nudges p calls i s fit at in
    (
      out,
      returns,
      ap (any is_check) same
          ∙ Watched-checked p (map (round_of i) calls) (round_of i c) s
              (rounds-All true i calls seen) (last?-map (round_of i) calls c end) late,
    )

change-at :
    (f : Pulse → Pulse) (i : ℕ) (l : List Pulse) (s : Pulse)
    → get_elem? l i ≡ some s
    → (l' : List Pulse) × (change f i l ≡ some l')
      × (get_elem? l' i ≡ some (f s))
      × (length l' ≡ length l)
unfolding change
change-at f i [] s h = absurd (cc)
change-at f zero (x ∷ l) s h = let e : x ≡ s = cc in (f x ∷ l, refl, rw e refl, refl)
change-at f (suc i) (x ∷ l) s h =
    let (l', e, at, as_many) = change-at f i l s h in
    (x ∷ l', rw e refl, at, omega (arith, as_many))

-- A watcher is called blind only after enough calls: the calls of `decide` after an event of a
-- source, each with a reading or the lack of one for every source, return, and where one of them
-- nudges the source as blind, there are 150 at least.
pub decide_blind :
    (p : Pulses) (i : ℕ) (s : Pulse) (calls : List Call)
    → Fit (length p.sources) calls
    → get_elem? p.sources i ≡ some s
    → (out : List (ℕ × Nudge)) × (decide_all (saw_event p i) calls ≡ some out)
      × ((not (any is_blind (of_source i out)) || leb 150 (length calls)) ≡ true)
unfolding saw_event
decide_blind p i s calls fit at =
    let (sources, e, at', as_many) =
      change-at (λ x. record x { moved_since_event = 0 }) i p.sources s at in
    let p' : Pulses = record p { sources = sources } in
    let s' : Pulse = record s { moved_since_event = 0 } in
    let (out, returns, same) =
      decide_all-nudges p' calls i s' (subst (λ n. Fit n calls) (sym as_many) fit) at' in
    (
      out,
      rw (saw_event, e) returns,
      elim (Bool-cases (any is_blind (of_source i out))) [
        | inr never ↦ rw never refl
        | inl blind ↦
            let many =
              blind-patience p' (map (round_of i) calls) s'
                (ap (any is_blind) (sym same) ∙ blind) in
            let as_long = length-map (round_of i) calls in rw blind (ground (arith, many, as_long))
      ],
    )
