-- ===== src/Index/Trigram/Sound.antt =====
-- crates/scour-index-native/src/trigram.rs: the writer's files, opened and asked for a needle.
use scour.Index.Words.{u32, u32_at, IsU32}
use scour.Index.Sort.{sort_by, sort_by-RisesBy, RisesBy-le, has-sort_by}
use scour.Prelude.{
  ℕ, zero, suc, ◌+◌, ◌*◌, ◌/◌, ◌^◌, ◌≤◌, ◌<◌, ◌≡◌, true, some, List, [], ◌∷◌, ◌++◌, length, arith,
  inl, inr, get_elem?, get_elem?-lt, get_elem?-some, All, has, ap, subst, sym, ◌∙◌,
}
use scour.Index.Varint.{Bytes}
use scour.Index.Varint.RoundTrip.{IsByte}
use scour.Index.Trigram.{
  TrigramWriter, new, push_all, seal_rest, finish, layout, entries_of, for_each, list_of,
  block_rows,
}
use scour.Index.Trigram.Reader.{TrigramIndex, open_index, candidates, key_at, off_at, lookup}
use scour.Index.Trigram.Postings.{Ascends-le}
use scour.Index.Trigram.Writer.{keys_of}
use scour.Index.Trigram.Rows.{push_all-new}
use scour.Index.Trigram.Finished.{Finished, seal_rest-Finished, for_each_small, lookup_at-Admits}
use scour.Index.Trigram.Entries.{
  Stored, Pairs, layout-Stored, entry-Pairs, length-entries_of, open_index-dict,
}
use scour.Index.Trigram.Search.{has-get_elem?, lookup-Answers}
use scour.Index.Trigram.Narrow.{Admits, Keeps, candidates-Keeps}

for_each-cons : (k c : ℕ) (s : Bytes) → has k (for_each s) ≡ true → has k (for_each (c ∷ s)) ≡ true
unfolding for_each
for_each-cons k c [] h = absurd (cc)
for_each-cons k c (a ∷ []) h = absurd (cc)
for_each-cons k c (a ∷ b ∷ s) h = ground arith

for_each-append :
    (k : ℕ) (s rest : Bytes) → has k (for_each s) ≡ true → has k (for_each (s ++ rest)) ≡ true
unfolding for_each
for_each-append k [] rest h = absurd (cc)
for_each-append k (a ∷ []) rest h = absurd (cc)
for_each-append k (a ∷ b ∷ []) rest h = absurd (cc)
for_each-append k (a ∷ b ∷ c ∷ s) rest h = ground (arith, for_each-append k (b ∷ c ∷ s) rest)

-- A name that contains the needle has every trigram of it.
pub for_each-within :
    (k : ℕ) (front needle rest : Bytes)
    → has k (for_each needle) ≡ true
    → has k (for_each (front ++ (needle ++ rest))) ≡ true
for_each-within k [] needle rest h = for_each-append k needle rest h
for_each-within k (c ∷ front) needle rest h =
    for_each-cons k c (front ++ (needle ++ rest)) (for_each-within k front needle rest h)

All-has {κ} : (P : ℕ → Type κ) (l : List ℕ) → ((k : ℕ) → has k l ≡ true → P k) → All P l
All-has P [] h = tt
All-has P (k ∷ l) h = (h k (ground arith), All-has P l (λ j m. h j (ground arith)))

All-at {ℓ κ} :
    {A : Type ℓ} (P : A → Type κ) (l : List A) (i : ℕ) (a : A)
    → All P l
    → get_elem? l i ≡ some a
    → P a
All-at P [] i a h e = absurd (cc)
All-at P (x ∷ l) zero a (p, h) e = let same : x ≡ a = cc in subst P same p
All-at P (x ∷ l) (suc i) a (p, h) e = All-at P l i a h e

some-inj {ℓ} : {A : Type ℓ} {a b : A} → some a ≡ some b → a ≡ b
some-inj e = cc

module _ (cutoff_of : ℕ → ℕ) (names : List Bytes) (rows_fit : length names < 2 ^ 32)
    (are_bytes : All (All IsByte) names) where
  abbrev pub sealed : TrigramWriter
  sealed = seal_rest (push_all new names)

  abbrev pub keys : List ℕ
  keys = sort_by (λ k. k) (keys_of sealed.lists)

  abbrev pub laid : List ℕ × Bytes
  laid = layout (cutoff_of sealed.block) sealed.lists [] keys

  abbrev pub index : TrigramIndex
  index = record {
    entries = entries_of keys laid.0;
    post = laid.1;
    len = length keys;
    block_count = sealed.block;
  }

  finished : Finished names sealed
  finished = seal_rest-Finished names (push_all new names) (push_all-new names rows_fit) rows_fit

  count_small : (k : ℕ) → (list_of k sealed.lists).count < 2 ^ 32
  count_small k =
      let h = finished.keeps.holds k in
      omega (
        arith,
        h.is_count,
        Ascends-le 0 sealed.block (finished.keeps.blocks_of k) h.is_ascending,
        finished.small,
      )

  stored : Pairs (Stored sealed.lists laid.1) keys laid.0
  stored =
      let (tail, same, pairs) =
        layout-Stored (cutoff_of sealed.block) sealed.lists [] keys
          (λ k. omega (arith, count_small k)) in
      pairs

  key_small : (k : ℕ) → has k keys ≡ true → IsU32 k
  key_small k h =
      let (b, (r, name, at, m, e)) =
        finished.keeps.only_keyed k (sym (has-sort_by k (keys_of sealed.lists)) ∙ h) in
      for_each_small name k (All-at (All IsByte) names r name are_bytes at) m

  off_small : (k off : ℕ) → Stored sealed.lists laid.1 k off → IsU32 off
  off_small k off (inl e) = omega arith
  off_small k off (inr (front, rest, e, o)) = omega arith

  entry :
      (i k : ℕ)
      → get_elem? keys i ≡ some k
      → (off : ℕ) × Stored sealed.lists laid.1 k off
        × (u32_at (entries_of keys laid.0) (i * 8 + 0) ≡ k)
        × (u32_at (entries_of keys laid.0) (i * 8 + 4) ≡ off)
  entry i k at =
      entry-Pairs (Stored sealed.lists laid.1) keys laid.0 i k off_small
        (All-has IsU32 keys key_small) stored at

  key_at-index : (i k : ℕ) → get_elem? keys i ≡ some k → key_at index i ≡ k
  unfolding key_at
  key_at-index i k at =
      let (off, s, key, place) = entry i k at in
      ap (u32_at (entries_of keys laid.0)) (omega arith) ∙ key

  off_at-index :
      (i k : ℕ) → get_elem? keys i ≡ some k → Stored sealed.lists laid.1 k (off_at index i)
  unfolding off_at
  off_at-index i k at = let (off, s, key, place) = entry i k at in rw place s

  key_at_rises : (i j : ℕ) → i ≤ j → j < length keys → key_at index i ≤ key_at index j
  key_at_rises i j le lt =
      let (a, p) = get_elem?-some keys i (omega arith) in
      let (b, q) = get_elem?-some keys j lt in
      rw (key_at-index i a p, key_at-index j b q)
        (RisesBy-le (λ k. k) keys i j a b (sort_by-RisesBy (λ k. k) (keys_of sealed.lists)) le p q)

  module _ (post_fits : length laid.1 < 2 ^ 32) where
    lookup-Admits :
        (k b : ℕ) → has b (finished.keeps.blocks_of k) ≡ true → Admits b (lookup index k)
    lookup-Admits k b m =
        let listed : has k keys ≡ true =
          has-sort_by k (keys_of sealed.lists) ∙ finished.keeps.keyed k b m in
        let (i, at) = has-get_elem? k keys listed in
        elim (lookup-Answers index k key_at_rises) [
          | inl (none_there, missing) ↦
              absurd (missing i (get_elem?-lt keys i k at) (key_at-index i k at))
          | inr (mid, lt, here, e) ↦
              let (j, at') = get_elem?-some keys mid lt in
              let same : j ≡ k = sym (key_at-index mid j at') ∙ here in
              let held =
                subst (λ x. Stored sealed.lists laid.1 x (off_at index mid)) same
                  (off_at-index mid j at') in
              subst (Admits b) (sym e) (
                lookup_at-Admits sealed.lists laid.1 k (off_at index mid) b sealed.block
                  (finished.keeps.blocks_of k) held (finished.keeps.holds k) finished.small
                  post_fits m)
        ]

    pub candidates-index :
        (r : ℕ) (front needle rest : Bytes) (out : List ℕ)
        → get_elem? names r ≡ some (front ++ (needle ++ rest))
        → candidates index needle ≡ some out
        → Keeps (r / block_rows) out
    candidates-index r front needle rest out at e =
        candidates-Keeps (r / block_rows) index needle out
          (All-has (λ k. Admits (r / block_rows) (lookup index k)) (for_each needle)
            (λ k m. lookup-Admits k (r / block_rows) (
              finished.complete r (front ++ (needle ++ rest)) k at
                (for_each-within k front needle rest m))))
          e

  -- The two files open, if they are smaller than 4 GiB: the index reads the entries and the postings
  -- that were written, one entry for each trigram listed.
  pub open_index-finish :
      length (finish cutoff_of (push_all new names)).0 < 2 ^ 32
      → open_index
          (finish cutoff_of (push_all new names)).0
          (finish cutoff_of (push_all new names)).1
        ≡ some index
  unfolding finish
  open_index-finish fits =
      let size = length-entries_of (Stored sealed.lists laid.1) keys laid.0 stored in
      let small : length keys < 2 ^ 32 = omega arith in
      let e : u32 (length keys) ≡ length keys = omega arith in
      rw e (
        open_index-dict (length keys) sealed.block (entries_of keys laid.0) laid.1 small
          finished.small size)

  -- The candidates of a needle that stands in the name of a row keep its block, and ascend.
  pub candidates-Keeps_block :
      (r : ℕ) (front needle rest : Bytes) (idx : TrigramIndex) (out : List ℕ)
      → length (finish cutoff_of (push_all new names)).0 < 2 ^ 32
      → length (finish cutoff_of (push_all new names)).1 < 2 ^ 32
      → get_elem? names r ≡ some (front ++ (needle ++ rest))
      → open_index
          (finish cutoff_of (push_all new names)).0
          (finish cutoff_of (push_all new names)).1
        ≡ some idx
      → candidates idx needle ≡ some out
      → Keeps (r / block_rows) out
  candidates-Keeps_block r front needle rest idx out dict_fits post_fits at opened e =
      let same : index ≡ idx = some-inj (sym (open_index-finish dict_fits) ∙ opened) in
      candidates-index (unfold finish in post_fits) r front needle rest out at
        (ap (λ i. candidates i needle) same ∙ e)

  -- No match is missed: if the name of row `r` contains the needle, and both files are smaller than
  -- 4 GiB, then the candidates of the index opened from them, where it gives any, have the block of
  -- the row. `cutoff_of` may leave any trigrams out.
  pub candidates_complete :
      (r : ℕ) (front needle rest : Bytes) (idx : TrigramIndex) (out : List ℕ)
      → length (finish cutoff_of (push_all new names)).0 < 2 ^ 32
      → length (finish cutoff_of (push_all new names)).1 < 2 ^ 32
      → get_elem? names r ≡ some (front ++ (needle ++ rest))
      → open_index
          (finish cutoff_of (push_all new names)).0
          (finish cutoff_of (push_all new names)).1
        ≡ some idx
      → candidates idx needle ≡ some out
      → has (r / block_rows) out ≡ true
  candidates_complete r front needle rest idx out dict_fits post_fits at opened e =
      (candidates-Keeps_block r front needle rest idx out dict_fits post_fits at opened e).2
