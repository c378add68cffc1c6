-- ===== src/Index/Trigram/Rows.antt =====
-- crates/scour-index-native/src/trigram.rs: one row added to `TrigramWriter`, and many.
use scour.Prelude.{
  ℕ, zero, suc, ◌+◌, ◌/◌, ◌%◌, ◌^◌, ◌<◌, ◌≡◌, ◌≢◌, refl, true, some, List, [], ◌∷◌, ◌++◌,
  append-nil, append_assoc, ◌==◌, length, length-append, has, arith, ◌⊎◌, inl, inr, Bool-cases,
  get_elem?, subst, sym, ap,
}
use scour.Index.Varint.{Bytes}
use scour.Index.Trigram.{
  TrigramWriter, new, record_keys, seal, finish_row, push_folded, push_all, for_each, block_rows,
}
use scour.Index.Trigram.Writer.{NoDup, record_keys-Records, seal_keys-Seals}
use scour.Index.Trigram.History.{HasRow, Keeps, seal-Keeps, seal-block, new-Keeps}

get_elem?-append {ℓ} :
    {A : Type ℓ} (xs ys : List A) (i : ℕ) (v : A)
    → get_elem? xs i ≡ some v
    → get_elem? (xs ++ ys) i ≡ some v
get_elem?-append [] ys i v h = ground arith
get_elem?-append (x ∷ xs) ys zero v h = h
get_elem?-append (x ∷ xs) ys (suc i) v h = get_elem?-append xs ys i v h

get_elem?-snoc {ℓ} :
    {A : Type ℓ} (xs : List A) (x : A) (i : ℕ) (v : A)
    → get_elem? (xs ++ (x ∷ [])) i ≡ some v
    → (get_elem? xs i ≡ some v) ⊎ ((i ≡ length xs) × (x ≡ v))
get_elem?-snoc [] x zero v h = inr (refl, cc)
get_elem?-snoc [] x (suc i) v h = ground arith
get_elem?-snoc (y ∷ xs) x zero v h = inl h
get_elem?-snoc (y ∷ xs) x (suc i) v h = elim (get_elem?-snoc xs x i v h) [
  | inl p ↦ inl p
  | inr (p, q) ↦ inr (omega (arith, p), q)
]

get_elem?-last {ℓ} :
    {A : Type ℓ} (xs : List A) (x : A) → get_elem? (xs ++ (x ∷ [])) (length xs) ≡ some x
get_elem?-last [] x = refl
get_elem?-last (y ∷ xs) x = get_elem?-last xs x

HasRow-append :
    (names more : List Bytes) (key b : ℕ) → HasRow names key b → HasRow (names ++ more) key b
HasRow-append names more key b (r, name, p, q, e) =
    (r, name, get_elem?-append names more r name p, q, e)

-- The keys of one more row are recorded.
module _ (names : List Bytes) (w : TrigramWriter) (keeps : Keeps names w) (name : Bytes)
    (here : length names / block_rows ≡ w.block) where
  record-Keeps : Keeps (names ++ (name ∷ [])) (record_keys (for_each name) w)
  record-Keeps =
      let r = record_keys-Records (for_each name) w keeps.agrees in
      record {
        blocks_of = keeps.blocks_of;
        holds = λ k. rw (r.block_kept, r.lists_kept) (keeps.holds k);
        keyed = λ k b h. rw r.lists_kept (keeps.keyed k b h);
        agrees = r.agrees;
        reach = λ i h. omega (arith, keeps.reach i, length-append names (name ∷ []), r.block_kept);
        sealed = λ i v k p q h. elim (get_elem?-snoc names name i v p) [
          | inl p' ↦ keeps.sealed i v k p' q (omega (arith, r.block_kept))
          | inr (p', e) ↦ absurd (omega (arith, r.block_kept, ap (λ n. n / block_rows) p'))
        ];
        filling = λ i v k p q h. elim (get_elem?-snoc names name i v p) [
          | inl p' ↦
              ground (arith, r.seen k, keeps.filling i v k p' q (omega (arith, r.block_kept)))
          | inr (p', e) ↦
              let mine : has k (for_each name) ≡ true = rw e q in ground (arith, r.seen k)
        ];
        only_sealed = λ k b h. HasRow-append names (name ∷ []) k b (keeps.only_sealed k b h);
        only_keyed = λ k h.
            let (b, row) = keeps.only_keyed k (rw (sym r.lists_kept) h) in
            (b, HasRow-append names (name ∷ []) k b row);
        only_filling = λ k h.
            subst (HasRow (names ++ (name ∷ [])) k) (sym r.block_kept)
              (elim (Bool-cases (has k w.seen_list)) [
                | inl e ↦ HasRow-append names (name ∷ []) k w.block (keeps.only_filling k e)
                | inr e ↦
                    (length names, name, get_elem?-last names name, ground (arith, r.seen k), here)
              ]);
      }

-- The rows and the sealed blocks are counted.
pub record Counts (names : List Bytes) (w : TrigramWriter) : Type 0 where
  pub keeps : Keeps names w
  pub row_count : w.rows ≡ length names
  pub block_count : w.block ≡ length names / block_rows

Keeps-rows :
    (names : List Bytes) (w : TrigramWriter) (n : ℕ)
    → Keeps names w
    → Keeps names (record w { rows = n })
Keeps-rows names w n h = record {
  blocks_of = h.blocks_of;
  holds = h.holds;
  keyed = h.keyed;
  agrees = record { same = h.agrees.same; once = h.agrees.once };
  reach = h.reach;
  sealed = h.sealed;
  filling = h.filling;
  only_sealed = h.only_sealed;
  only_keyed = h.only_keyed;
  only_filling = h.only_filling;
}

seal-rows : (w : TrigramWriter) → NoDup w.seen_list → (seal w).rows ≡ w.rows
unfolding seal
seal-rows w h = (seal_keys-Seals w.seen_list w h).rows_kept

push_folded-Counts :
    (names : List Bytes) (w : TrigramWriter) (name : Bytes)
    → Counts names w
    → length names + 1 < 2 ^ 32
    → Counts (names ++ (name ∷ [])) (push_folded w name)
unfolding push_folded finish_row
push_folded-Counts names w name h fits =
    let r = record_keys-Records (for_each name) w h.keeps.agrees in
    let recorded = record-Keeps names w h.keeps name (omega (arith, h.block_count)) in
    let w' : TrigramWriter = record_keys (for_each name) w in
    let counted : TrigramWriter = record w' { rows = w'.rows + 1 } in
    let k = Keeps-rows (names ++ (name ∷ [])) w' (w'.rows + 1) recorded in
    let longer = length-append names (name ∷ []) in
    let rows : w'.rows + 1 ≡ length names + 1 = omega (arith, r.rows_kept, h.row_count) in
    let block : w'.block ≡ length names / block_rows = omega (arith, r.block_kept, h.block_count) in
    elim (Bool-cases ((w'.rows + 1) % block_rows == 0)) [
      | inl e ↦
          let fit : counted.block + 1 < 2 ^ 32 = omega arith in
          let full : (w'.rows + 1) % block_rows ≡ 0 = ground arith in
          rw e (record {
            keeps = seal-Keeps (names ++ (name ∷ [])) counted k fit;
            row_count = omega (arith, seal-rows counted k.agrees.once);
            block_count = omega (
              arith,
              seal-block (names ++ (name ∷ [])) counted k fit,
              length-append names (name ∷ []),
            );
          })
      | inr e ↦
          let more : (w'.rows + 1) % block_rows ≢ 0 = ground arith in
          rw e (record { keeps = k; row_count = omega arith; block_count = omega arith })
    ]

push_all-Counts :
    (names : List Bytes) (w : TrigramWriter) (more : List Bytes)
    → Counts names w
    → length names + length more < 2 ^ 32
    → Counts (names ++ more) (push_all w more)
unfolding push_all
push_all-Counts names w [] h fits = rw (append-nil names) h
push_all-Counts names w (name ∷ more) h fits =
    subst (λ l. Counts l (push_all (push_folded w name) more)) (append_assoc names (name ∷ []) more)
      (push_all-Counts (names ++ (name ∷ [])) (push_folded w name) more
        (push_folded-Counts names w name h (omega arith))
        (omega (arith, length-append names (name ∷ []))))

-- After any rows, fewer than 2 ^ 32, the writer has counted the rows and the blocks that are full,
-- and its lists hold exactly the full blocks in which a name has the trigram; what is seen in the
-- block being filled is kept beside them.
pub push_all-new : (names : List Bytes) → length names < 2 ^ 32 → Counts names (push_all new names)
push_all-new names fits =
    push_all-Counts [] new names
      (record { keeps = new-Keeps; row_count = refl; block_count = omega arith }) (omega arith)
