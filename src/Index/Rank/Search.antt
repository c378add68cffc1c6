-- ===== src/Index/Rank/Search.antt =====
-- crates/scour-index-native/src/rank.rs: `first_at_or_below` and the boundary of a column.
use scour.Prelude.{
  ℕ, zero, suc, ◌+◌, ◌-◌, ◌/◌, ◌≤◌, ◌<◌, ◌≡◌, true, false, ltb, if◌then◌else◌, ℤ, pos_part,
  neg_part, ltb_ℤ, Bool-cases, inl, inr, arith, min,
}
use scour.Index.Rank.{search_loop, first_at_or_below}

infix 50 ◌≤ℤ◌ ◌<ℤ◌
abbrev pub ◌≤ℤ◌ : ℤ → ℤ → Type 0
a ≤ℤ b = pos_part a + neg_part b ≤ pos_part b + neg_part a

abbrev pub ◌<ℤ◌ : ℤ → ℤ → Type 0
a <ℤ b = pos_part a + neg_part b < pos_part b + neg_part a

-- The column never rises with the row number.
abbrev pub NeverRises : ℕ → (ℕ → ℤ) → Type 0
NeverRises rows at = (i j : ℕ) → i ≤ j → j < rows → at j ≤ℤ at i

-- `r` parts the rows: those before it are above the bound, those from it on are not.
abbrev pub Parts : ℕ → ℤ → (ℕ → ℤ) → ℕ → Type 0
Parts rows bound at r =
    (r ≤ rows) × ((i : ℕ) → i < r → bound <ℤ at i) × ((i : ℕ) → r ≤ i → i < rows → at i ≤ℤ bound)

-- The rows before row `n` whose value is above the bound.
unfoldable pub above : ℤ → (ℕ → ℤ) → ℕ → ℕ
above bound at zero = 0
above bound at (suc n) = (if ltb_ℤ bound (at n) then 1 else 0) + above bound at n

module _ (rows : ℕ) (bound : ℤ) (at : ℕ → ℤ) (falls : NeverRises rows at) where
  search_loop-Parts :
      (f lo hi : ℕ)
      → hi ≤ lo + f
      → lo ≤ hi
      → hi ≤ rows
      → ((i : ℕ) → i < lo → bound <ℤ at i)
      → ((i : ℕ) → hi ≤ i → i < rows → at i ≤ℤ bound)
      → Parts rows bound at (search_loop f bound at lo hi)
  unfolding search_loop
  search_loop-Parts zero lo hi hf hl hr below above =
      (omega arith, below, λ i p q. above i (omega arith) q)
  search_loop-Parts (suc f) lo hi hf hl hr below above = elim (Bool-cases (ltb lo hi)) [
    | inr e ↦ rw e (ground arith, below, λ i p q. above i (ground arith) q)
    | inl e ↦
        let mid : ℕ = lo + (hi - lo) / 2 in
        let lt : lo < hi = ground arith in
        rw e (elim (Bool-cases (ltb_ℤ bound (at mid))) [
          | inl up ↦ rw up (
              search_loop-Parts f (mid + 1) hi (omega arith) (omega arith) hr
                (λ i p. omega (arith, falls i mid (omega arith) (omega arith), over mid up)) above)
          | inr down ↦ rw down (
              search_loop-Parts f lo mid (omega arith) (omega arith) (omega arith) below
                (λ i p q. omega (arith, falls mid i p q, under mid down)))
        ])
  ]
    where
      over : (m : ℕ) → ltb_ℤ bound (at m) ≡ true → bound <ℤ at m
      over m e = ground arith

      under : (m : ℕ) → ltb_ℤ bound (at m) ≡ false → at m ≤ℤ bound
      under m e = ground arith

  first_at_or_below-Parts : Parts rows bound at (first_at_or_below rows bound at)
  unfolding first_at_or_below
  first_at_or_below-Parts =
      search_loop-Parts rows 0 rows (omega arith) (omega arith) (omega arith) (λ i p. elim p [ ])
        (λ i p q. absurd (omega arith))

  above-Parts : (r n : ℕ) → Parts rows bound at r → n ≤ rows → above bound at n ≡ min r n
  unfolding above
  above-Parts r zero p h = omega arith
  above-Parts r (suc n) (le, before, from) h = elim (Bool-cases (ltb n r)) [
    | inl e ↦
        ground (arith, above-Parts r n (le, before, from) (omega arith), before n (ground arith))
    | inr e ↦ ground (
      arith,
      above-Parts r n (le, before, from) (omega arith),
      from n (ground arith) (omega arith),
    )
  ]

  -- In a column that never rises, the row found is the number of the rows above the bound.
  pub first_at_or_below-above : first_at_or_below rows bound at ≡ above bound at rows
  first_at_or_below-above =
      let p = first_at_or_below-Parts in
      omega (arith, above-Parts (first_at_or_below rows bound at) rows p (omega arith), p.0)
