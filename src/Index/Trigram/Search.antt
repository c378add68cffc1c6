-- ===== src/Index/Trigram/Search.antt =====
-- crates/scour-index-native/src/trigram.rs: the sorted keys, and the binary search of `lookup`.
use scour.Prelude.{
  ℕ, zero, suc, ◌+◌, ◌-◌, ◌/◌, ◌≤◌, ◌<◌, ◌≡◌, ◌≢◌, refl, true, some, List, [], ◌∷◌, ltb, ◌==◌,
  arith, ◌⊎◌, inl, inr, Bool-cases, get_elem?, All, has, ltb→lt,
}
use scour.Index.Trigram.Reader.{
  TrigramIndex, Lookup, lookup, lookup_loop, lookup_at, key_at, off_at, dedup, dedup_after,
}

pub dedup_after-All {κ} : (P : ℕ → Type κ) (k : ℕ) (l : List ℕ) → All P l → All P (dedup_after k l)
unfolding dedup_after
dedup_after-All P k [] h = h
dedup_after-All P k (j ∷ l) (p, h) = elim (Bool-cases (k == j)) [
  | inl e ↦ rw e (dedup_after-All P k l h)
  | inr e ↦ rw e (p, dedup_after-All P j l h)
]

pub dedup-All {κ} : (P : ℕ → Type κ) (l : List ℕ) → All P l → All P (dedup l)
unfolding dedup
dedup-All P [] h = h
dedup-All P (k ∷ l) (p, h) = (p, dedup_after-All P k l h)

pub has-get_elem? : (x : ℕ) (l : List ℕ) → has x l ≡ true → (i : ℕ) × (get_elem? l i ≡ some x)
has-get_elem? x [] h = absurd (cc)
has-get_elem? x (y ∷ l) h = elim (Bool-cases (y == x)) [
  | inl e ↦ let same : y ≡ x = ground arith in (0, rw same refl)
  | inr e ↦ let (i, q) = has-get_elem? x l (ground arith) in (suc i, q)
]

-- What the search answers: the entry of the key, or that there is none.
abbrev pub Answers : TrigramIndex → ℕ → Lookup → Type 0
Answers idx key out =
    ((out ≡ Lookup.absent) × ((i : ℕ) → i < idx.len → key_at idx i ≢ key))
    ⊎ ((mid : ℕ) × (mid < idx.len)
        × (key_at idx mid ≡ key)
        × (out ≡ lookup_at idx.post (off_at idx mid)))

module _ (idx : TrigramIndex) (key : ℕ)
    (rises : (i j : ℕ) → i ≤ j → j < idx.len → key_at idx i ≤ key_at idx j) where
  none_left :
      (lo hi : ℕ)
      → hi ≤ lo
      → ((i : ℕ) → i < lo → i < idx.len → key_at idx i < key)
      → ((i : ℕ) → hi ≤ i → i < idx.len → key < key_at idx i)
      → (i : ℕ) → i < idx.len
      → key_at idx i ≢ key
  none_left lo hi h below above i p e = elim (Bool-cases (ltb i lo)) [
    | inl c ↦ omega (arith, below i (ltb→lt i lo c) p, e)
    | inr c ↦ let from : lo ≤ i = ground arith in omega (arith, above i (omega arith) p, e)
  ]

  lookup_loop-Answers :
      (f lo hi : ℕ)
      → hi ≤ lo + f
      → hi ≤ idx.len
      → ((i : ℕ) → i < lo → i < idx.len → key_at idx i < key)
      → ((i : ℕ) → hi ≤ i → i < idx.len → key < key_at idx i)
      → Answers idx key (lookup_loop f idx key lo hi)
  unfolding lookup_loop
  lookup_loop-Answers zero lo hi hf hr below above =
      inl (refl, none_left lo hi (omega arith) below above)
  lookup_loop-Answers (suc f) lo hi hf hr below above = elim (Bool-cases (ltb lo hi)) [
    | inr e ↦
        let done : hi ≤ lo = ground arith in rw e (inl (refl, none_left lo hi done below above))
    | inl e ↦
        let mid : ℕ = lo + (hi - lo) / 2 in
        let lt : lo < hi = ground arith in
        elim (Bool-cases (ltb (key_at idx mid) key)) [
          | inl less ↦
              rw (e, less)
                (lookup_loop-Answers f (mid + 1) hi (omega arith) hr
                  (λ i p q. omega (
                    arith,
                    rises i mid (omega arith) (omega arith),
                    ltb→lt (key_at idx mid) key less,
                  ))
                  above)
          | inr more ↦ elim (Bool-cases (ltb key (key_at idx mid))) [
            | inl greater ↦
                rw (e, more, greater)
                  (lookup_loop-Answers f lo mid (omega arith) (omega arith) below
                    (λ i p q. omega (arith, rises mid i p q, ltb→lt key (key_at idx mid) greater)))
            | inr equal ↦ rw (e, more, equal) (inr (mid, omega arith, ground arith, refl))
          ]
        ]
  ]

  pub lookup-Answers : Answers idx key (lookup idx key)
  unfolding lookup
  lookup-Answers =
      lookup_loop-Answers idx.len 0 idx.len (omega arith) (omega arith)
        (λ i p q. absurd (omega arith)) (λ i p q. absurd (omega arith))
