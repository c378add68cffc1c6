-- ===== src/Index/Trigram/Narrow.antt =====
-- crates/scour-index-native/src/trigram.rs: how `candidates` puts the lists of a needle together.
use scour.Index.Sort.{sort_by, sort_by-All}
use scour.Prelude.{
  ℕ, ◌+◌, ◌≤◌, ◌≡◌, refl, true, some, List, [], ◌∷◌, ltb, arith, ◌⊎◌, inl, inr, Bool-cases, All,
  is_empty, subst, has,
}
use scour.Index.Varint.{Bytes}
use scour.Index.Trigram.{for_each}
use scour.Index.Trigram.Reader.{
  TrigramIndex, Lookup, lookup, decode, intersect, collect, narrow, narrowed, candidates, dedup,
}
use scour.Index.Trigram.Postings.{Ascends, Ascends-le, Ascends-lower, has-intersect}
use scour.Index.Trigram.Search.{dedup-All}

-- A list of the postings that is ascending, with block `b` in it.
abbrev pub Contains : ℕ → ℕ × Bytes → Type 0
Contains b (count, bytes) =
    (hi : ℕ) × Ascends 0 hi (decode count bytes) × (has b (decode count bytes) ≡ true)

-- An answer of the dictionary that does not lose block `b`.
abbrev pub Admits : ℕ → Lookup → Type 0
Admits b out =
    (out ≡ Lookup.everywhere)
    ⊎ ((count : ℕ) × (bytes : Bytes) × (out ≡ Lookup.blocks count bytes)
        × Contains b (count, bytes))

Ascends-bound : (lo hi : ℕ) (xs : List ℕ) → Ascends lo hi xs → lo ≤ hi
Ascends-bound lo hi xs h = omega (arith, Ascends-le lo hi xs h)

intersect-Ascends :
    (lo hi : ℕ) (xs ys : List ℕ) → Ascends lo hi xs → Ascends lo hi (intersect xs ys)
unfolding intersect
intersect-Ascends lo hi [] ys h = h
intersect-Ascends lo hi (a ∷ xs) [] (p, h) = omega (arith, Ascends-bound (a + 1) hi xs h)
intersect-Ascends lo hi (a ∷ xs) (b ∷ ys) (p, h) = elim (Bool-cases (ltb a b)) [
  | inl e ↦ rw e (
      Ascends-lower (a + 1) lo hi (intersect xs (b ∷ ys))
        (intersect-Ascends (a + 1) hi xs (b ∷ ys) h) (omega arith))
  | inr e ↦ elim (Bool-cases (ltb b a)) [
    | inl g ↦ rw (e, g) (intersect-Ascends lo hi (a ∷ xs) ys (p, h))
    | inr g ↦ rw (e, g) (p, intersect-Ascends (a + 1) hi xs ys h)
  ]
]

-- An ascending list with block `b` in it.
abbrev pub Keeps : ℕ → List ℕ → Type 0
Keeps b out = (hi : ℕ) × Ascends 0 hi out × (has b out ≡ true)

pub intersect-Keeps : (b : ℕ) (xs ys : List ℕ) → Keeps b xs → Keeps b ys → Keeps b (intersect xs ys)
intersect-Keeps b xs ys (hi, h, m) (hi', h', m') =
    let both = has-intersect 0 hi 0 hi' b xs ys h h' in
    (hi, intersect-Ascends 0 hi xs ys h, ground (arith, both))

narrow-Keeps :
    (b : ℕ) (out : List ℕ) (lists : List (ℕ × Bytes))
    → Keeps b out
    → All (Contains b) lists
    → Keeps b (narrow out lists)
unfolding narrow
narrow-Keeps b out [] k all = k
narrow-Keeps b out ((count, bytes) ∷ lists) k (c, all) =
    let next = intersect-Keeps b out (decode count bytes) k c in
    elim (Bool-cases (is_empty out)) [
      | inl bare ↦ rw bare k
      | inr some_left ↦
          rw some_left (narrow-Keeps b (intersect out (decode count bytes)) lists next all)
    ]

narrowed-Keeps :
    (b blocks : ℕ) (lists : List (ℕ × Bytes)) (out : List ℕ)
    → All (Contains b) lists
    → narrowed blocks lists ≡ some out
    → Keeps b out
unfolding narrowed
narrowed-Keeps b blocks [] out all e = absurd (cc)
narrowed-Keeps b blocks ((count, bytes) ∷ lists) out (c, all) e =
    let same : narrow (decode count bytes) lists ≡ out = ground arith in
    subst (Keeps b) same (narrow-Keeps b (decode count bytes) lists c all)

collect-Contains :
    (b : ℕ) (idx : TrigramIndex) (keys : List ℕ)
    → All (λ k. Admits b (lookup idx k)) keys
    → (lists : List (ℕ × Bytes)) × (collect idx keys ≡ some lists) × All (Contains b) lists
unfolding collect
collect-Contains b idx [] h = ([], refl, tt)
collect-Contains b idx (k ∷ keys) (p, h) =
    let (lists, same, all) = collect-Contains b idx keys h in
    elim p [
      | inl e ↦ (lists, ground (arith, e, same), all)
      | inr (count, bytes, e, c) ↦ ((count, bytes) ∷ lists, ground (arith, e, same), (c, all))
    ]

-- Blocks that no trigram of the needle rules out are among the candidates.
pub candidates-Keeps :
    (b : ℕ) (idx : TrigramIndex) (folded : Bytes) (out : List ℕ)
    → All (λ k. Admits b (lookup idx k)) (for_each folded)
    → candidates idx folded ≡ some out
    → Keeps b out
unfolding candidates
candidates-Keeps b idx folded out h e =
    let admitted : ℕ → Type 0 = λ k. Admits b (lookup idx k) in
    let keys =
      dedup-All admitted (sort_by (λ k. k) (for_each folded))
        (sort_by-All admitted (λ k. k) (for_each folded) h) in
    let (lists, same, all) =
      collect-Contains b idx (dedup (sort_by (λ k. k) (for_each folded))) keys in
    let sorted = sort_by-All (Contains b) (λ l. l.0) lists all in
    narrowed-Keeps b idx.block_count (sort_by (λ l. l.0) lists) out sorted (ground (arith))
