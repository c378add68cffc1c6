-- ===== src/Index/Trigram/Reader.antt =====
-- crates/scour-index-native/src/trigram.rs: `TrigramIndex`, read in place. `drop` of a slice stands
-- for what follows an offset.
use scour.Index.Words.{u32, u32_at}
use scour.Index.Sort.{sort_by}
use scour.Prelude.{
  ℕ, zero, suc, ◌+◌, ◌-◌, ◌*◌, ◌/◌, Option, none, some, List, [], ◌∷◌, ltb, ◌==◌, if◌then◌else◌,
  length, take, drop, is_empty, ◌||◌,
}
use scour.Index.Varint.{Bytes, get}
use scour.Index.Trigram.{unindexed, for_each}

pub data Lookup : Type 0 where
  absent everywhere : Lookup
  blocks : ℕ → Bytes → Lookup

pub record TrigramIndex : Type 0 where
  pub entries : Bytes
  pub post : Bytes
  pub len : ℕ
  pub block_count : ℕ

-- `dict.get(8..8 + len * 8)?`
unfoldable pub open_index : Bytes → Bytes → Option TrigramIndex
unfolding u32_at
open_index dict post =
    let len = u32_at dict 0 in
    if ltb (length dict) 8
    then none
    else if ltb (length dict) (8 + len * 8)
    then none
    else some (record {
      entries = take (len * 8) (drop 8 dict);
      post = post;
      len = len;
      block_count = u32_at dict 4;
    })

unfoldable pub key_at : TrigramIndex → ℕ → ℕ
unfolding u32_at
key_at idx i = u32_at idx.entries (i * 8)

unfoldable pub off_at : TrigramIndex → ℕ → ℕ
unfolding u32_at
off_at idx i = u32_at idx.entries (i * 8 + 4)

-- What the binary search answers at the entry it found.
unfoldable pub lookup_at : Bytes → ℕ → Lookup
lookup_at post off =
    if off == unindexed
    then everywhere
    else if ltb (length post) off
    then everywhere
    else elim (get (drop off post)) [
      | none ↦ everywhere
      | some (count, used) ↦ blocks (u32 count) (drop used (drop off post))
    ]

-- The loop of `lookup`; each round halves what is left, so its width serves as fuel.
unfoldable pub lookup_loop : ℕ → TrigramIndex → ℕ → ℕ → ℕ → Lookup
unfolding key_at off_at lookup_at
lookup_loop zero idx key lo hi = absent
lookup_loop (suc f) idx key lo hi =
    let mid = lo + (hi - lo) / 2 in
    let right = lookup_loop f idx key (mid + 1) hi in
    let left = lookup_loop f idx key lo mid in
    if ltb lo hi
    then (if ltb (key_at idx mid) key
        then right
        else if ltb key (key_at idx mid)
        then left
        else lookup_at idx.post (off_at idx mid))
    else absent

unfoldable pub lookup : TrigramIndex → ℕ → Lookup
unfolding lookup_loop
lookup idx key = lookup_loop idx.len idx key 0 idx.len

-- The loop of `decode` from the block read last.
unfoldable pub decode_from : ℕ → ℕ → Bytes → List ℕ
decode_from zero block bytes = []
decode_from (suc count) block bytes = elim (get bytes) [
  | none ↦ []
  | some (delta, used) ↦
      let block' = u32 (block + u32 delta) in block' ∷ decode_from count block' (drop used bytes)
]

unfoldable pub decode : ℕ → Bytes → List ℕ
unfolding decode_from
decode count bytes = decode_from count 0 bytes

unfoldable pub intersect : List ℕ → List ℕ → List ℕ
intersect [] bs = []
intersect (a ∷ xs) [] = []
intersect (a ∷ xs) (b ∷ bs) =
    let less = intersect xs (b ∷ bs) in
    let greater = intersect (a ∷ xs) bs in
    let equal = intersect xs bs in if ltb a b then less else if ltb b a then greater else a ∷ equal

-- `dedup`: of equal neighbours the first stays.
unfoldable pub dedup_after : ℕ → List ℕ → List ℕ
dedup_after k [] = []
dedup_after k (j ∷ js) =
    let rest = dedup_after j js in if k == j then dedup_after k js else j ∷ rest

unfoldable pub dedup : List ℕ → List ℕ
unfolding dedup_after
dedup [] = []
dedup (k ∷ ks) = k ∷ dedup_after k ks

-- The loop over the keys of the needle: `none` where a key is absent.
unfoldable pub collect : TrigramIndex → List ℕ → Option (List (ℕ × Bytes))
unfolding lookup
collect idx [] = some []
collect idx (k ∷ ks) =
    let rest = collect idx ks in
    elim (lookup idx k) [
      | absent ↦ none
      | everywhere ↦ rest
      | blocks count bytes ↦ elim rest [ none ↦ none | some lists ↦ some ((count, bytes) ∷ lists) ]
    ]

-- The loop over the lists after the first.
unfoldable pub narrow : List ℕ → List (ℕ × Bytes) → List ℕ
unfolding decode intersect
narrow out [] = out
narrow out ((count, bytes) ∷ lists) =
    let rest = narrow (intersect out (decode count bytes)) lists in
    if is_empty out then out else rest

-- The blocks left by the lists, cheapest first, unless they are most of the index.
unfoldable pub narrowed : ℕ → List (ℕ × Bytes) → Option (List ℕ)
unfolding decode narrow
narrowed block_count [] = none
narrowed block_count ((count, bytes) ∷ lists) =
    let out = narrow (decode count bytes) lists in
    if ltb block_count (u32 (u32 (length out) * 2)) then none else some out

unfoldable pub candidates : TrigramIndex → Bytes → Option (List ℕ)
unfolding collect narrowed for_each sort_by dedup
candidates idx folded =
    if idx.len == 0 || ltb (length folded) 3
    then none
    else elim (collect idx (dedup (sort_by (λ k. k) (for_each folded)))) [
      | none ↦ some []
      | some lists ↦ narrowed idx.block_count (sort_by (λ l. l.0) lists)
    ]
