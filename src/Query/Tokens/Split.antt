-- ===== src/Query/Tokens/Split.antt =====
-- crates/scour-query/src/parse.rs, `split_outside_quotes`: the pieces of a text.
use scour.Prelude.{
  suc, length, if◌then◌else◌, ℕ, Bool, true, false, not, ◌&&◌, ◌≡◌, refl, List, [], ◌∷◌, ◌==◌,
  ==_iff, Str, join, cons_head, is_empty, All, arith, Bool-cases, inl, inr, subst,
}
use scour.Query.Tokens.{quote, split_quoted, split_outside_quotes}

join-cons_head : (sep : Str) (c : ℕ) (ps : List Str) → join sep (cons_head c ps) ≡ c ∷ join sep ps
unfolding join
join-cons_head sep c [] = refl
join-cons_head sep c (p ∷ []) = refl
join-cons_head sep c (p ∷ q ∷ ps) = refl

join-cut :
    (m : ℕ) (ps : List Str) → is_empty ps ≡ false → join (m ∷ []) ([] ∷ ps) ≡ m ∷ join (m ∷ []) ps
unfolding join
join-cut m [] h = absurd (ground arith)
join-cut m (p ∷ ps) h = refl

cons_head-nonempty : (c : ℕ) (ps : List Str) → is_empty (cons_head c ps) ≡ false
cons_head-nonempty c [] = refl
cons_head-nonempty c (p ∷ ps) = refl

pub split_quoted-nonempty : (m : ℕ) (q : Bool) (s : Str) → is_empty (split_quoted m q s) ≡ false
unfolding split_quoted
split_quoted-nonempty m q [] = refl
split_quoted-nonempty m q (c ∷ s) = ground (
  arith,
  cons_head-nonempty c (split_quoted m (not q) s),
  cons_head-nonempty c (split_quoted m q s),
)

join-split_quoted : (m : ℕ) (q : Bool) (s : Str) → join (m ∷ []) (split_quoted m q s) ≡ s
unfolding split_quoted join
join-split_quoted m q [] = refl
join-split_quoted m q (c ∷ s) = elim (Bool-cases (c == quote)) [
  | inl e ↦
      rw (e, join-cons_head (m ∷ []) c (split_quoted m (not q) s), join-split_quoted m (not q) s)
  | inr e ↦ elim (Bool-cases (c == m && not q)) [
    | inl k ↦ rw (
      e,
      k,
      join-cut m (split_quoted m q s) (split_quoted-nonempty m q s),
      join-split_quoted m q s,
      (==_iff c m).0 (ground arith),
    )
    | inr k ↦ rw (e, k, join-cons_head (m ∷ []) c (split_quoted m q s), join-split_quoted m q s)
  ]
]

-- The pieces of a text put together with the mark between them are the text.
pub join-split_outside_quotes :
    (s : Str) (mark : ℕ) → join (mark ∷ []) (split_outside_quotes s mark) ≡ s
unfolding split_outside_quotes
join-split_outside_quotes s mark = join-split_quoted mark false s

-- A piece has no mark outside quotes when it is read from inside them or outside.
unfoldable pub Uncut : ℕ → Bool → Str → Type 0
unfolding split_quoted
Uncut m q p = split_quoted m q p ≡ p ∷ []

-- The first piece is read as the text is, the others from outside the quotes.
unfoldable pub UncutPieces : ℕ → Bool → List Str → Type 0
unfolding Uncut
UncutPieces m q [] = Unit
UncutPieces m q (p ∷ ps) = Uncut m q p × All (Uncut m false) ps

Uncut-nil : (m : ℕ) (q : Bool) → Uncut m q []
unfolding Uncut split_quoted
Uncut-nil m q = refl

pieces-flip :
    (m c : ℕ) (q : Bool) (ps : List Str)
    → (c == quote) ≡ true
    → UncutPieces m (not q) ps
    → UncutPieces m q (cons_head c ps)
unfolding UncutPieces Uncut split_quoted
pieces-flip m c q [] e h = ((rw (e)), tt)
pieces-flip m c q (p ∷ ps) e (h, hs) = ((rw (e, h)), hs)

pieces-on :
    (m c : ℕ) (q : Bool) (ps : List Str)
    → (c == quote) ≡ false
    → (c == m && not q) ≡ false
    → UncutPieces m q ps
    → UncutPieces m q (cons_head c ps)
unfolding UncutPieces Uncut split_quoted
pieces-on m c q [] e k h = ((rw (e, k)), tt)
pieces-on m c q (p ∷ ps) e k (h, hs) = ((rw (e, k, h)), hs)

pieces-cut :
    (m : ℕ) (q : Bool) (ps : List Str) → q ≡ false → UncutPieces m q ps → UncutPieces m q ([] ∷ ps)
unfolding UncutPieces Uncut
pieces-cut m q [] z h = (Uncut-nil m q, tt)
pieces-cut m q (p ∷ ps) z (h, hs) = (Uncut-nil m q, (subst (λ b. Uncut m b p) z h, hs))

split_quoted-Uncut : (m : ℕ) (q : Bool) (s : Str) → UncutPieces m q (split_quoted m q s)
unfolding split_quoted UncutPieces
split_quoted-Uncut m q [] = (Uncut-nil m q, tt)
split_quoted-Uncut m q (c ∷ s) = elim (Bool-cases (c == quote)) [
  | inl e ↦ rw (e) (pieces-flip m c q _ e (split_quoted-Uncut m (not q) s))
  | inr e ↦ elim (Bool-cases (c == m && not q)) [
    | inl k ↦ rw (e, k) (pieces-cut m q _ (ground arith) (split_quoted-Uncut m q s))
    | inr k ↦ rw (e, k) (pieces-on m c q _ e k (split_quoted-Uncut m q s))
  ]
]

pieces→All : (m : ℕ) (ps : List Str) → UncutPieces m false ps → All (Uncut m false) ps
unfolding UncutPieces
pieces→All m [] h = tt
pieces→All m (p ∷ ps) h = h

-- No piece has the mark outside quotes: the cut of a piece is the piece alone.
pub split_outside_quotes-Uncut :
    (s : Str) (mark : ℕ)
    → All (λ p. split_outside_quotes p mark ≡ p ∷ []) (split_outside_quotes s mark)
unfolding split_outside_quotes Uncut
split_outside_quotes-Uncut s mark =
    pieces→All mark (split_quoted mark false s) (split_quoted-Uncut mark false s)

-- How many marks stand outside quotes, where the text starts inside them or outside.
abbrev pub marks_outside : ℕ → Bool → Str → ℕ
marks_outside m open_quote [] = 0
marks_outside m open_quote (c ∷ s) =
    let inside = if c == quote then not open_quote else open_quote in
    let rest = marks_outside m inside s in
    if c == m && (not (c == quote) && not open_quote) then suc rest else rest

-- Whether the text ends inside quotes.
abbrev pub ends_inside : Bool → Str → Bool
ends_inside open_quote [] = open_quote
ends_inside open_quote (c ∷ s) = ends_inside (if c == quote then not open_quote else open_quote) s

-- Each piece but the last ends outside quotes, the first from where the text starts.
abbrev pub ClosedPieces : Bool → List Str → Type 0
ClosedPieces open_quote [] = Unit
ClosedPieces open_quote (p ∷ []) = Unit
ClosedPieces open_quote (p ∷ r ∷ ps) =
    (ends_inside open_quote p ≡ false) × ClosedPieces false (r ∷ ps)

length-cons_head :
    (c : ℕ) (ps : List Str) → is_empty ps ≡ false → length (cons_head c ps) ≡ length ps
length-cons_head c [] h = absurd (ground arith)
length-cons_head c (p ∷ ps) h = refl

length-split_quoted :
    (m : ℕ) (q : Bool) (s : Str) → length (split_quoted m q s) ≡ suc (marks_outside m q s)
unfolding split_quoted
length-split_quoted m q [] = refl
length-split_quoted m q (c ∷ s) = ground (
  arith,
  length-cons_head c (split_quoted m (not q) s) (split_quoted-nonempty m (not q) s),
  length-cons_head c (split_quoted m q s) (split_quoted-nonempty m q s),
  length-split_quoted m (not q) s,
  length-split_quoted m q s,
)

cons_head-ClosedPieces :
    (c : ℕ) (q r : Bool) (ps : List Str)
    → (if c == quote then not q else q) ≡ r
    → ClosedPieces r ps
    → ClosedPieces q (cons_head c ps)
cons_head-ClosedPieces c q r [] e h = tt
cons_head-ClosedPieces c q r (p ∷ []) e h = tt
cons_head-ClosedPieces c q r (p ∷ p' ∷ ps) e (h, hs) = (rw e h, hs)

cut-ClosedPieces :
    (q : Bool) (ps : List Str) → q ≡ false → ClosedPieces q ps → ClosedPieces q ([] ∷ ps)
cut-ClosedPieces q [] e h = tt
cut-ClosedPieces q (p ∷ ps) e h = (e, subst (λ b. ClosedPieces b (p ∷ ps)) e h)

split_quoted-ClosedPieces : (m : ℕ) (q : Bool) (s : Str) → ClosedPieces q (split_quoted m q s)
unfolding split_quoted
split_quoted-ClosedPieces m q [] = tt
split_quoted-ClosedPieces m q (c ∷ s) = elim (Bool-cases (c == quote)) [
  | inl e ↦ rw e (
      cons_head-ClosedPieces c q (not q) (split_quoted m (not q) s) (rw e refl)
        (split_quoted-ClosedPieces m (not q) s))
  | inr e ↦ elim (Bool-cases (c == m && not q)) [
    | inl k ↦
        rw (e, k)
          (cut-ClosedPieces q (split_quoted m q s) (ground arith) (split_quoted-ClosedPieces m q s))
    | inr k ↦
        rw (e, k)
          (cons_head-ClosedPieces c q q (split_quoted m q s) (rw e refl)
            (split_quoted-ClosedPieces m q s))
  ]
]

-- A text is cut at its marks outside quotes and nowhere else: the pieces with the mark between them
-- are the text, there is one piece more than there are such marks, and every piece but the last has
-- closed its quotes.
pub split_outside_quotes-cuts :
    (s : Str) (mark : ℕ)
    → (join (mark ∷ []) (split_outside_quotes s mark) ≡ s)
      × (length (split_outside_quotes s mark) ≡ suc (marks_outside mark false s))
      × ClosedPieces false (split_outside_quotes s mark)
unfolding split_outside_quotes
split_outside_quotes-cuts s mark = (
  join-split_quoted mark false s,
  length-split_quoted mark false s,
  split_quoted-ClosedPieces mark false s,
)
