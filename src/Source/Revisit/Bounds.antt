-- ===== src/Source/Revisit/Bounds.antt =====
-- crates/scour-source-fs/src/revisit.rs: how many paths are kept, and for how long none of them is
-- looked at.
use scour.Prelude.{
  ℕ, zero, suc, ◌+◌, ◌*◌, ◌<◌, ◌≤◌, ◌≡◌, refl, Bool, true, false, not, ◌||◌, Option, none, some,
  List, [], ◌∷◌, map, keep, any, length, length-map, All, Str, str_eq, min, arith, ltb, leb, subst,
  sym, Bool-cases, if◌then◌else◌, inl, inr,
}
use scour.Source.Revisit.{
  Seen, Paths, Found, Stat, Event, Reach, empty, later, cap, wait_of, last_tier, is_at, remove,
  oldest, evict, note, refresh, change_at, keeps_shape, advance_due, widen, examine, happen,
}

wait-least : (tier : ℕ) → 5 * 1000000000 ≤ wait_of tier
wait-least zero = omega arith
wait-least (suc zero) = omega arith
wait-least (suc (suc zero)) = omega arith
wait-least (suc (suc (suc tier))) = omega arith

wait-most : (tier : ℕ) → wait_of tier ≤ 600 * 1000000000
wait-most zero = omega arith
wait-most (suc zero) = omega arith
wait-most (suc (suc zero)) = omega arith
wait-most (suc (suc (suc tier))) = omega arith

module _ {ℓ} {A : Type ℓ} (p : A → Bool) where
  length-keep : (s : List A) → length (keep p s) ≤ length s
  length-keep [] = omega arith
  length-keep (e ∷ s) = ground (arith, length-keep s)

  keep-All {κ} : (P : A → Type κ) (s : List A) → All P s → All P (keep p s)
  keep-All P [] h = tt
  keep-All P (e ∷ s) (pe, h) = elim (Bool-cases (p e)) [
    | inl kept ↦ rw kept ((pe, keep-All P s h))
    | inr dropped ↦ rw dropped (keep-All P s h)
  ]

module _ {ℓ} {A : Type ℓ} (p : A → Bool) where
  length-keep_some : (s : List A) → any p s ≡ true → length (keep (λ e. not (p e)) s) < length s
  length-keep_some [] h = absurd (cc)
  length-keep_some (e ∷ s) h = ground (arith, length-keep (λ a. not (p a)) s, length-keep_some s)

str_eq_refl : (s : Str) → str_eq s s ≡ true
unfolding str_eq
str_eq_refl [] = refl
str_eq_refl (c ∷ s) = ground (arith, str_eq_refl s)

oldest-younger :
    (e a : Str × Seen) (s : Paths) → ltb a.1.stamp e.1.stamp ≡ true → oldest e (a ∷ s) ≡ oldest a s
unfolding oldest
oldest-younger e a s h = rw h refl

oldest-older :
    (e a : Str × Seen) (s : Paths) → ltb a.1.stamp e.1.stamp ≡ false → oldest e (a ∷ s) ≡ oldest e s
unfolding oldest
oldest-older e a s h = rw h refl

-- One that stands at either place stands in the list.
any-tail :
    (p : Str × Seen → Bool) (e a : Str × Seen) (s : Paths)
    → any p (a ∷ s) ≡ true
    → any p (e ∷ a ∷ s) ≡ true
any-tail p e a s h = ground (arith)

any-skip :
    (p : Str × Seen → Bool) (e a : Str × Seen) (s : Paths)
    → any p (e ∷ s) ≡ true
    → any p (e ∷ a ∷ s) ≡ true
any-skip p e a s h = ground (arith)

-- The path that is chosen stands among those it is chosen from.
any-oldest : (e : Str × Seen) (s : Paths) → any (is_at (oldest e s)) (e ∷ s) ≡ true
any-oldest e [] = unfold oldest in ground (arith, str_eq_refl e.0)
any-oldest e (a ∷ s) = elim (Bool-cases (ltb a.1.stamp e.1.stamp)) [
  | inl younger ↦
      subst (λ k. any (is_at k) (e ∷ a ∷ s) ≡ true) (sym (oldest-younger e a s younger))
        (any-tail (is_at (oldest a s)) e a s (any-oldest a s))
  | inr older ↦
      subst (λ k. any (is_at k) (e ∷ a ∷ s) ≡ true) (sym (oldest-older e a s older))
        (any-skip (is_at (oldest e s)) e a s (any-oldest e s))
]

length-evict : (s : Paths) → 0 < length s → length (evict s) < length s
unfolding evict remove
length-evict [] h = absurd (omega arith)
length-evict (e ∷ s) h = length-keep_some (is_at (oldest e s)) (e ∷ s) (any-oldest e s)

length-note :
    (now : ℕ) (path : Str) (id : ℕ) (real_modes : Bool) (md : Option Found) (s : Paths)
    → length s ≤ cap
    → length (note now path id real_modes md s) ≤ cap
unfolding note
length-note now path id real_modes none s h = h
length-note now path id real_modes (some md) s h =
    let same = length-map (change_at path (refresh now md)) s in
    ground (arith, length-evict s, same)

-- The next look of a path is at most ten minutes off.
abbrev pub IsSoon : ℕ → Str × Seen → Type 0
IsSoon now e = e.1.next ≤ now + 600 * 1000000000

map-All {ℓ κ} :
    {A : Type ℓ} (P Q : A → Type κ) (f : A → A)
    → ((a : A) → P a → Q (f a))
    → (s : List A) → All P s
    → All Q (map f s)
map-All P Q f each [] h = tt
map-All P Q f each (a ∷ s) (p, h) = (each a p, map-All P Q f each s h)

IsSoon-change_at :
    (now : ℕ) (path : Str) (f : Seen → Seen)
    → ((e : Seen) → e.next ≤ now + 600 * 1000000000 → (f e).next ≤ now + 600 * 1000000000)
    → (e : Str × Seen) → IsSoon now e
    → IsSoon now (change_at path f e)
IsSoon-change_at now path f each e h = ground (arith, each e.1)

evict-All :
    (P : Str × Seen → Type 0) (s : Paths)
    → All P s
    → All P (if leb cap (length s) then evict s else s)
unfolding evict remove
evict-All P s h = elim (Bool-cases (leb cap (length s))) [
  | inl full ↦ rw full (evicted s h)
  | inr room ↦ rw room h
]
  where
    evicted : (s : Paths) → All P s → All P (evict s)
    evicted [] h = h
    evicted (e ∷ s) h = keep-All (λ a. not (is_at (oldest e s) a)) P (e ∷ s) h

note-IsSoon :
    (now : ℕ) (path : Str) (id : ℕ) (real_modes : Bool) (md : Option Found) (s : Paths)
    → All (IsSoon now) s
    → All (IsSoon now) (note now path id real_modes md s)
unfolding note
note-IsSoon now path id real_modes none s h = h
note-IsSoon now path id real_modes (some md) s h = elim (Bool-cases md.is_dir) [
  | inl dir ↦ rw dir h
  | inr file ↦ rw file (elim (Bool-cases (any (is_at path) s)) [
    | inl known ↦ rw known (
        map-All (IsSoon now) (IsSoon now) (change_at path (refresh now md))
          (IsSoon-change_at now path (refresh now md) (λ e soon. omega arith)) s h)
    | inr first ↦ rw first ((omega arith, evict-All (IsSoon now) s h))
  ])
]

widen-IsSoon : (now : ℕ) (s : Paths) → All (IsSoon now) s → All (IsSoon now) (widen now s)
unfolding widen
widen-IsSoon now s h =
    map-All (IsSoon now) (IsSoon now) (advance_due now)
      (λ e soon. ground (arith, wait-most (min (e.1.tier + 1) last_tier))) s h

-- After a round of the loop no path is due at the instant of the round.
widen-later : (now : ℕ) (s : Paths) → All (λ e. now < e.1.next) (widen now s)
unfolding widen
widen-later now [] = tt
widen-later now (e ∷ s) =
    (ground (arith, wait-least (min (e.1.tier + 1) last_tier)), widen-later now s)

examine-cap :
    (path : Str) (stat : Stat) (s : Paths) → length s ≤ cap → length (examine path stat s).0 ≤ cap
unfolding examine remove
examine-cap path (Stat.found md) s h =
    let same = length-map (change_at path (λ e. record e { size = md.size; mtime = md.mtime })) s in
    ground (arith, same)
examine-cap path Stat.not_found s h = ground (arith, length-keep (λ e. not (is_at path e)) s)
examine-cap path Stat.failed s h = h

examine-IsSoon :
    (now : ℕ) (path : Str) (stat : Stat) (s : Paths)
    → All (IsSoon now) s
    → All (IsSoon now) (examine path stat s).0
unfolding examine remove
examine-IsSoon now path (Stat.found md) s h =
    elim (Bool-cases (not (any (is_at path) s) || any (keeps_shape md path) s)) [
      | inl still ↦ rw still h
      | inr moved ↦ rw moved (
          map-All (IsSoon now) (IsSoon now)
            (change_at path (λ e. record e { size = md.size; mtime = md.mtime }))
            (IsSoon-change_at now path (λ e. record e { size = md.size; mtime = md.mtime })
              (λ e soon. soon))
            s h)
    ]
examine-IsSoon now path Stat.not_found s h = elim (Bool-cases (any (is_at path) s)) [
  | inl known ↦ rw known (keep-All (λ e. not (is_at path e)) (IsSoon now) s h)
  | inr unknown ↦ rw unknown h
]
examine-IsSoon now path Stat.failed s h = h

IsSoon-later :
    (then_at now : ℕ) (s : Paths) → then_at ≤ now → All (IsSoon then_at) s → All (IsSoon now) s
IsSoon-later then_at now [] le h = tt
IsSoon-later then_at now (e ∷ s) le (soon, h) = (omega arith, IsSoon-later then_at now s le h)

happen-cap : (now : ℕ) (e : Event) (s : Paths) → length s ≤ cap → length (happen now e s) ≤ cap
unfolding happen remove widen
happen-cap now (Event.noted path id real_modes md) s h = length-note now path id real_modes md s h
happen-cap now (Event.forgotten path) s h = omega (arith, length-keep (λ e. not (is_at path e)) s)
happen-cap now Event.widened s h = omega (arith, length-map (advance_due now) s)
happen-cap now (Event.examined path stat) s h = examine-cap path stat s h

happen-IsSoon :
    (now : ℕ) (e : Event) (s : Paths) → All (IsSoon now) s → All (IsSoon now) (happen now e s)
unfolding happen remove
happen-IsSoon now (Event.noted path id real_modes md) s h =
    note-IsSoon now path id real_modes md s h
happen-IsSoon now (Event.forgotten path) s h = keep-All (λ e. not (is_at path e)) (IsSoon now) s h
happen-IsSoon now Event.widened s h = widen-IsSoon now s h
happen-IsSoon now (Event.examined path stat) s h = examine-IsSoon now path stat s h

-- Whatever is noted, forgotten, widened and examined while time passes, at most 4096 paths are kept,
-- and the next look of each is at most ten minutes after the last event.
pub Reach-bounds : (now : ℕ) (s : Paths) → Reach now s → (length s ≤ cap) × All (IsSoon now) s
Reach-bounds now s empty = (omega arith, tt)
Reach-bounds now s (later e r le) =
    let (few, soon) = Reach-bounds _ _ r in
    (happen-cap now e _ few, happen-IsSoon now e _ (IsSoon-later _ now _ le soon))
