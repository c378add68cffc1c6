-- ===== src/Index/Ids/Rows.antt =====
-- crates/scour-index-native/src/ids.rs: the rows that a table gives for a hash.
use scour.Prelude.{
  take-length, ℕ, zero, suc, ◌+◌, ◌-◌, ◌*◌, ◌/◌, ◌^◌, ◌≤◌, ◌<◌, ◌≡◌, refl, false, ◌&&◌, ◌||◌, some,
  List, ◌++◌, ltb, ◌==◌, length, drop, take, arith, inl, inr, Bool-cases, get_elem?, get_elem?-lt,
  get_elem?-some, All, any, any-append, has, ◌∙◌, sym, ap, ltb→lt, take-append-drop,
}
use scour.Index.Varint.{Bytes}
use scour.Index.Words.{u32, le_bytes, u32_at, IsU32, from_le-le_bytes}
use scour.Index.Sort.{
  sort_by, sort_by-All, any-sort_by, RisesBy, sort_by-RisesBy, RisesBy-le, length-sort_by,
}
use scour.Index.Ids.{
  IdWriter, IdMap, pair_rank, pair_bytes, finish, open_map, hash_at, row_at, bound_loop, rows_while,
  rows_for,
}
use scour.Index.Ids.Front.{
  Small, words_at, length-pair_bytes, is_pair, front_rows, drop_get, drop_done, drop-RisesBy,
  All-drop, none_below, front_rows-any, hash_rises,
}

hash_lem :
    (m : IdMap) (pairs : List (ℕ × ℕ))
    → m.pairs ≡ pair_bytes pairs
    → (i : ℕ) (p : ℕ × ℕ) → All Small pairs
    → get_elem? pairs i ≡ some p
    → hash_at m i ≡ p.0
unfolding hash_at
hash_lem m pairs e i p all at =
    let start : i * 8 ≡ i * 8 + 0 = omega arith in rw (e, start) ((words_at pairs i p all at).0)

row_lem :
    (m : IdMap) (pairs : List (ℕ × ℕ))
    → m.pairs ≡ pair_bytes pairs
    → (i : ℕ) (p : ℕ × ℕ) → All Small pairs
    → get_elem? pairs i ≡ some p
    → row_at m i ≡ p.1
unfolding row_at
row_lem m pairs e i p all at = rw e ((words_at pairs i p all at).1)

word_front : (n : ℕ) (rest : Bytes) → IsU32 n → u32_at (le_bytes n ++ rest) 0 ≡ n
unfolding u32_at
word_front n rest h = from_le-le_bytes n rest h

open_map-finish :
    (w : IdWriter)
    → length w < 2 ^ 32
    → open_map (finish w)
      ≡ some
          (record { pairs = pair_bytes (sort_by pair_rank w); len = length (sort_by pair_rank w) })
unfolding open_map finish
open_map-finish w fits =
    let pairs = sort_by pair_rank w in
    let size : length pairs ≡ length w = length-sort_by pair_rank w in
    let bytes : Bytes = le_bytes (length pairs) ++ pair_bytes pairs in
    let kept : u32 (length pairs) ≡ length pairs = omega arith in
    let len : u32_at bytes 0 ≡ length pairs =
      word_front (length pairs) (pair_bytes pairs) (omega arith) in
    let body : length (pair_bytes pairs) ≡ length pairs * 8 = length-pair_bytes pairs in
    let total : length bytes ≡ 4 + length pairs * 8 = omega arith in
    let long : ltb (length bytes) 4 ≡ false = ground arith in
    let full : ltb (length bytes) (4 + length pairs * 8) ≡ false = ground arith in
    let rest : take (length pairs * 8) (pair_bytes pairs) ≡ pair_bytes pairs =
      take-length (length pairs * 8) (pair_bytes pairs) (omega arith) in
    rw (kept, len, full, long, rest) refl

module _ (m : IdMap) (want : ℕ) (pairs : List (ℕ × ℕ)) (size : m.len ≡ length pairs)
    (hashes : (i : ℕ) (p : ℕ × ℕ) → get_elem? pairs i ≡ some p → hash_at m i ≡ p.0)
    (rows : (i : ℕ) (p : ℕ × ℕ) → get_elem? pairs i ≡ some p → row_at m i ≡ p.1)
    (rises : (i j : ℕ) → i ≤ j → j < m.len → hash_at m i ≤ hash_at m j) where
  -- The hashes before `r` are below the one wanted, and those from `r` on are not.
  abbrev Bounds : ℕ → Type 0
  Bounds r =
      (r ≤ m.len)
      × ((i : ℕ) → i < r → hash_at m i < want)
      × ((i : ℕ) → r ≤ i → i < m.len → want ≤ hash_at m i)

  bound_loop-Bounds :
      (f lo hi : ℕ)
      → hi ≤ lo + f
      → lo ≤ hi
      → hi ≤ m.len
      → ((i : ℕ) → i < lo → hash_at m i < want)
      → ((i : ℕ) → hi ≤ i → i < m.len → want ≤ hash_at m i)
      → Bounds (bound_loop f m want lo hi)
  unfolding bound_loop
  bound_loop-Bounds zero lo hi hf hl hr below above =
      (omega arith, below, λ i p q. above i (omega arith) q)
  bound_loop-Bounds (suc f) lo hi hf hl hr below above = elim (Bool-cases (ltb lo hi)) [
    | inr e ↦ rw e (omega arith, below, λ i p q. above i (ground arith) q)
    | inl e ↦
        let mid : ℕ = lo + (hi - lo) / 2 in
        let lt : lo < hi = ground arith in
        rw e (elim (Bool-cases (ltb (hash_at m mid) want)) [
          | inl less ↦ rw less (
              bound_loop-Bounds f (mid + 1) hi (omega arith) (omega arith) hr
                (λ i p. omega (
                  arith,
                  rises i mid (omega arith) (omega arith),
                  ltb→lt (hash_at m mid) want less,
                ))
                above)
          | inr more ↦
              let ge : want ≤ hash_at m mid = ground arith in
              rw more (
                bound_loop-Bounds f lo mid (omega arith) (omega arith) (omega arith) below
                  (λ i p q. omega (arith, rises mid i p q)))
        ])
  ]

  rows_while-front_rows :
      (n i : ℕ) → n + i ≡ length pairs → rows_while n m want i ≡ front_rows want (drop i pairs)
  unfolding rows_while front_rows
  rows_while-front_rows zero i h = rw (drop_done pairs i (omega arith)) refl
  rows_while-front_rows (suc n) i h =
      let (p, at, rest) = drop_get pairs i (omega arith) in
      let next : i + 1 ≡ suc i = omega arith in
      rw (rest, hashes i p at, rows i p at, rows_while-front_rows n (i + 1) (omega arith), next)
        refl

  pub rows_for-any :
      (row : ℕ)
      → RisesBy (λ p. p.0) pairs
      → has row (rows_for m want) ≡ any (is_pair want row) pairs
  unfolding rows_for
  rows_for-any row up =
      let lo : ℕ = bound_loop m.len m want 0 m.len in
      let (le, below, above) =
        bound_loop-Bounds m.len 0 m.len (omega arith) (omega arith) (omega arith)
          (λ i p. absurd (omega arith)) (λ i p q. absurd (omega arith)) in
      let least =
        All-drop (λ q. want ≤ q.0) pairs lo
          (λ i p q e.
            omega
              (arith, hashes i p e, above i q (omega (arith, size, get_elem?-lt pairs i p e)))) in
      let none_before =
        none_below want row lo pairs (λ i p q e. omega (arith, hashes i p e, below i q)) in
      let found = rows_while-front_rows (m.len - lo) lo (omega (arith, size)) in
      let parts = any-append (is_pair want row) (take lo pairs) (drop lo pairs) in
      rw
        (found, front_rows-any want row (drop lo pairs) (drop-RisesBy (λ p. p.0) lo pairs up) least)
        (sym (ap (λ b. b || any (is_pair want row) (drop lo pairs)) none_before)
          ∙ sym parts
          ∙ ap (any (is_pair want row)) (take-append-drop lo pairs))

-- A table opens if it has fewer than 2 ^ 32 pairs of 32-bit words, and the rows that it gives for a
-- hash are the rows that were pushed with that hash, and no others.
pub rows_for-finish :
    (w : IdWriter) (want row : ℕ)
    → All Small w
    → length w < 2 ^ 32
    → (m : IdMap) × (open_map (finish w) ≡ some m)
      × (has row (rows_for m want) ≡ any (λ p. p.0 == want && p.1 == row) w)
rows_for-finish w want row small fits =
    let pairs = sort_by pair_rank w in
    let all = sort_by-All Small pair_rank w small in
    let size : length pairs ≡ length w = length-sort_by pair_rank w in
    let up = hash_rises pairs all (sort_by-RisesBy pair_rank w) in
    let m : IdMap = record { pairs = pair_bytes pairs; len = length pairs } in
    let hashes : (i : ℕ) (p : ℕ × ℕ) → get_elem? pairs i ≡ some p → hash_at m i ≡ p.0 =
      λ i p e. hash_lem m pairs refl i p all e in
    let rises : (i j : ℕ) → i ≤ j → j < length pairs → hash_at m i ≤ hash_at m j = λ i j le lt.
      let (a, p) = get_elem?-some pairs i (omega arith) in
      let (b, q) = get_elem?-some pairs j lt in
      omega (arith, hashes i a p, hashes j b q, RisesBy-le (λ t. t.0) pairs i j a b up le p q) in
    (
      m,
      open_map-finish w fits,
      rows_for-any m want pairs refl hashes (λ i p e. row_lem m pairs refl i p all e) rises row up
          ∙ any-sort_by (is_pair want row) pair_rank w,
    )
