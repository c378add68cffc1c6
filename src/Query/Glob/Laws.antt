-- ===== src/Query/Glob/Laws.antt =====
-- crates/scour-query/src/glob.rs: the loop of `glob_matches` and the relation `Matches`.
use scour.Prelude.{
  ℕ, zero, suc, ◌+◌, ◌*◌, ◌≤◌, ◌<◌, ◌≡◌, ◌≢◌, ◌↔◌, inl, inr, refl, Bool, true, false, Option, none,
  some, [], ◌∷◌, ◌==◌, ==_iff, Str, length, is_empty, Bool-cases, arith,
}
use scour.Query.Glob.{
  Back, State, Round, answer, again, retry, skip_stars, round, loop, glob_matches,
}
use scour.Query.Glob.Matches.{
  Matches, done, skip, eat, any_one, same, Ends, now, later, Ends→Matches, Matches→Ends, Takes,
}

skip_stars→Matches : (p : Str) → is_empty (skip_stars p) ≡ true → Matches p []
unfolding skip_stars
skip_stars→Matches [] h = done
skip_stars→Matches (a ∷ p) h = elim (Bool-cases (a == b'*')) [
  | inl e ↦ skip ((==_iff a _).0 e) (skip_stars→Matches p (ground arith))
  | inr e ↦ absurd (ground arith)
]

Matches→skip_stars : {p : Str} → Matches p [] → is_empty (skip_stars p) ≡ true
unfolding skip_stars
Matches→skip_stars done = refl
Matches→skip_stars (skip e d) = ground (arith, Matches→skip_stars d)

-- A step by `?` or by an equal character.
step→Matches : {a c : ℕ} {p t : Str} → Takes a c → Matches p t → Matches (a ∷ p) (c ∷ t)
step→Matches (n, inl q) d = any_one q d
step→Matches {a} {c} (n, inr e) d = elim (Bool-cases (a == b'?')) [
  | inl q ↦ any_one ((==_iff a _).0 q) d
  | inr q ↦ same n (ground arith) e d
]

Matches→step : {a c : ℕ} {p t : Str} → a ≢ b'*' → Matches (a ∷ p) (c ∷ t) → Takes a c × Matches p t
Matches→step n (skip e _) = absurd (n e)
Matches→step n (eat e _) = absurd (n e)
Matches→step n (any_one q d) = ((n, inl q), d)
Matches→step n (same _ _ e d) = ((n, inr e), d)

no_text : {a : ℕ} {p : Str} → a ≢ b'*' → ¬ Matches (a ∷ p) []
no_text n (skip e _) = n e

-- Dropping a pattern character that takes one character leaves the rest further down the text.
Ends-tail : {a : ℕ} {p : Str} {c : ℕ} (t : Str) → a ≢ b'*' → Ends (a ∷ p) (c ∷ t) → Ends p t
Ends-tail t n (now d) = now (Matches→step n d).1
Ends-tail [] n (later (now d)) = absurd (no_text n d)
Ends-tail (c ∷ t) n (later d) = later (Ends-tail t n d)

Ends-must_move : {c : ℕ} {p t : Str} → ¬ Matches p (c ∷ t) → Ends p (c ∷ t) → Ends p t
Ends-must_move n (now d) = absurd (n d)
Ends-must_move n (later d) = d

Ends-star : {a : ℕ} {p t : Str} → a ≡ b'*' → Ends (a ∷ p) t → Ends p t
Ends-star e (now d) = Matches→Ends e d
Ends-star e (later d) = later (Ends-star e d)

Ends-nil : {p : Str} → Ends p [] → Matches p []
Ends-nil (now d) = d

abbrev pub Decides : Type 0 → Option Bool → Type 0
Decides G (some true) = G
Decides G (some false) = ¬ G
Decides G none = ⊥

-- `G` is the question asked at the start, and `k` is above the length of every pattern in play.
module _ (G : Type 0) (k : ℕ) where
  -- What the saved star means; `m` bounds the text that may be retried.
  abbrev Saved : ℕ → Str → Str → Back → Type 0
  Saved m p t none = G → Matches p t
  Saved m p t (some (bp, bt)) =
      (G ↔ Ends bp bt)
      × (Matches bp bt → Matches p t)
      × (length t ≤ length bt)
      × (length bt ≤ m)
      × (length bp < k)

  record Inv (f m : ℕ) (p t : Str) (back : Back) : Type 0 where
    sound : Matches p t → G
    ahead : G → Ends p t
    saved : Saved m p t back
    text_le : length t ≤ m
    pat_lt : length p < k
    fuel : m * k + length p < f

  abbrev Good : ℕ → Round → Type 0
  Good f (answer true) = G
  Good f (answer false) = ¬ G
  Good f (again s) = (m : ℕ) × Inv f m s.pat s.text s.back

  -- The star is where the search starts again.
  at_star :
      {f m : ℕ} {p t : Str}
      → G ↔ Ends p t
      → length t ≤ m
      → length p < k
      → m * k + length p < f
      → Inv f m p t (some (p, t))
  at_star e ht hp hf = record {
    sound = λ d. e.1 (now d);
    ahead = e.0;
    saved = (e, λ d. d, omega arith, ht, hp);
    text_le = ht;
    pat_lt = hp;
    fuel = hf;
  }

  Saved-step :
      (a c : ℕ) (p t : Str) (m : ℕ) (back : Back)
      → a ≢ b'*'
      → Saved m (a ∷ p) (c ∷ t) back
      → Saved m p t back
  Saved-step a c p t m none n h = λ g. (Matches→step n (h g)).1
  Saved-step a c p t m (some (bp, bt)) n (e, down, le, hb, hp) =
      (e, λ d. (Matches→step n (down d)).1, omega arith, hb, hp)

  Inv-step :
      {f m a c : ℕ} {p t : Str} {back : Back}
      → Takes a c
      → Inv (suc f) m (a ∷ p) (c ∷ t) back
      → Inv f m p t back
  Inv-step {m} {a} {c} {p} {t} {back} takes i = record {
    sound = λ d. i.sound (step→Matches takes d);
    ahead = λ g. Ends-tail t takes.0 (i.ahead g);
    saved = Saved-step a c p t m back takes.0 i.saved;
    text_le = omega arith;
    pat_lt = omega arith;
    fuel = omega arith;
  }

  retry-Good :
      {f c : ℕ} {p t : Str} (m : ℕ) (back : Back)
      → Inv (suc f) m p (c ∷ t) back
      → ¬ Matches p (c ∷ t)
      → Good f (retry back)
  unfolding retry
  retry-Good m none i stuck = λ g. stuck (i.saved g)
  retry-Good m (some (bp, [])) i stuck = absurd (omega arith)
  retry-Good zero (some (bp, b ∷ bt)) i stuck = absurd (omega arith)
  retry-Good (suc m) (some (bp, b ∷ bt)) i stuck =
      let (e, down, _, _, _) = i.saved in
      let moved : G ↔ Ends bp bt =
        (λ g. Ends-must_move (λ d. stuck (down d)) (e.0 g), λ d. e.1 (later d)) in
      (m, at_star moved (omega arith) (omega arith) (omega arith))

  round-Good :
      {f m : ℕ} (p t : Str) (back : Back) → Inv (suc f) m p t back → Good f (round p t back)
  unfolding round
  round-Good p [] back i = elim (Bool-cases (is_empty (skip_stars p))) [
    | inl e ↦ rw e (i.sound (skip_stars→Matches p e))
    | inr e ↦ rw e (λ g. ground (arith, Matches→skip_stars (Ends-nil (i.ahead g))))
  ]
  round-Good {m} [] (c ∷ t) back i = retry-Good m back i (λ d. elim d [ ])
  round-Good {f} {m} (a ∷ p) (c ∷ t) back i = elim (Bool-cases (a == b'*')) [
    | inl s ↦
        let star : a ≡ b'*' = (==_iff a _).0 s in
        rw s (
          m,
          at_star (λ g. Ends-star star (i.ahead g), λ d. i.sound (Ends→Matches star d)) i.text_le
              (omega arith) (omega arith),
        )
    | inr s ↦
        let plain : a ≢ b'*' = ground arith in
        rw s (elim (Bool-cases (a == b'?')) [
          | inl q ↦ rw q (m, Inv-step (plain, inl ((==_iff a _).0 q)) i)
          | inr q ↦ rw q (elim (Bool-cases (a == c)) [
            | inl e ↦ rw e (m, Inv-step (plain, inr ((==_iff a c).0 e)) i)
            | inr e ↦ rw e (
                retry-Good m back i
                  (λ d. mismatch (ground arith) (ground arith) (Matches→step plain d).0))
          ])
        ])
  ]
    where
      mismatch : a ≢ b'?' → a ≢ c → Takes a c → ⊥
      mismatch nq ne h = elim h.1 [ inl q ↦ nq q | inr e ↦ ne e ]

  loop-Decides : (f m : ℕ) (s : State) → Inv f m s.pat s.text s.back → Decides G (loop f s)
  unfolding loop
  loop-Decides zero m s i = absurd (omega arith)
  loop-Decides (suc f) m s i =
      go (round s.pat s.text s.back) (round-Good s.pat s.text s.back i) (loop-Decides f)
    where
      go :
          (r : Round)
          → Good f r
          → ((m' : ℕ) (s' : State) → Inv f m' s'.pat s'.text s'.back → Decides G (loop f s'))
          → Decides G (elim r [ answer b ↦ some b | again s' ↦ loop f s' ])
      go (answer true) g rec = g
      go (answer false) g rec = g
      go (again s') (m', i') rec = rec m' s' i'

pub glob_matches-Decides :
    (pattern text : Str) → Decides (Matches pattern text) (glob_matches pattern text)
unfolding glob_matches
glob_matches-Decides pattern text =
    loop-Decides (Matches pattern text) (length pattern + 1) _ (length text)
      (record { pat = pattern; text = text; back = none })
      (record {
        sound = λ d. d;
        ahead = now;
        saved = λ d. d;
        text_le = omega arith;
        pat_lt = omega arith;
        fuel = omega arith;
      })

-- `glob_matches` returns an answer on every input, and the answer is true exactly when the text
-- matches the pattern.
pub glob_matches_iff :
    (pattern text : Str)
    → (glob_matches pattern text ≢ none)
      × ((glob_matches pattern text ≡ some true) ↔ Matches pattern text)
glob_matches_iff pattern text = go (glob_matches pattern text) (glob_matches-Decides pattern text)
  where
    go :
        (r : Option Bool)
        → Decides (Matches pattern text) r
        → (r ≢ none) × ((r ≡ some true) ↔ Matches pattern text)
    go (some true) h = ((λ e. cc), ((λ e. h), (λ d. refl)))
    go (some false) h = ((λ e. cc), ((λ e. absurd (ground arith)), (λ d. absurd (h d))))
    go none h = absurd h
