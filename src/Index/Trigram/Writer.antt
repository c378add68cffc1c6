-- ===== src/Index/Trigram/Writer.antt =====
-- crates/scour-index-native/src/trigram.rs: `TrigramWriter` while rows are added to it.
use scour.Prelude.{
  ℕ, ◌≡◌, refl, true, false, ◌||◌, List, [], ◌∷◌, ◌++◌, ◌==◌, if◌then◌else◌, has, has-append, arith,
  map, inl, inr, Bool-cases, not, ◌&&◌,
}
use scour.Index.Trigram.{
  Lists, TrigramWriter, record_keys, append_block, append_to, seal_keys, list_of, first, set_bit,
}

abbrev pub keys_of : Lists → List ℕ
keys_of lists = map first lists

list_of-append_to :
    (b key k : ℕ) (lists : Lists)
    → list_of k (append_to b key lists)
      ≡ (if key == k then append_block b (list_of key lists) else list_of k lists)
unfolding list_of append_to
list_of-append_to b key k [] = refl
list_of-append_to b key k ((j, list) ∷ lists) = ground (arith, list_of-append_to b key k lists)

has-append_to :
    (b key k : ℕ) (lists : Lists)
    → has k (keys_of (append_to b key lists)) ≡ (key == k || has k (keys_of lists))
unfolding append_to
has-append_to b key k [] = refl
has-append_to b key k ((j, list) ∷ lists) = ground (arith, has-append_to b key k lists)

-- No number twice.
abbrev pub NoDup : List ℕ → Type 0
NoDup [] = Unit
NoDup (x ∷ xs) = (has x xs ≡ false) × NoDup xs

NoDup-snoc : (x : ℕ) (xs : List ℕ) → NoDup xs → has x xs ≡ false → NoDup (xs ++ (x ∷ []))
NoDup-snoc x [] h e = (refl, tt)
NoDup-snoc x (y ∷ xs) (p, h) e =
    (ground (arith, has-append y xs (x ∷ [])), NoDup-snoc x xs h (ground arith))

-- The bitmap and the list of the keys seen say the same.
pub record Agrees (w : TrigramWriter) : Type 0 where
  pub same : (k : ℕ) → w.seen_bits k ≡ has k w.seen_list
  pub once : NoDup w.seen_list

-- What `record_keys` does to the writer.
pub record Records (keys : List ℕ) (w w' : TrigramWriter) : Type 0 where
  pub lists_kept : w'.lists ≡ w.lists
  pub block_kept : w'.block ≡ w.block
  pub rows_kept : w'.rows ≡ w.rows
  pub agrees : Agrees w'
  pub seen : (k : ℕ) → has k w'.seen_list ≡ (has k w.seen_list || has k keys)

pub record_keys-Records :
    (keys : List ℕ) (w : TrigramWriter) → Agrees w → Records keys w (record_keys keys w)
unfolding record_keys
record_keys-Records [] w h = record {
  lists_kept = refl;
  block_kept = refl;
  rows_kept = refl;
  agrees = h;
  seen = λ k. ground arith;
}
record_keys-Records (key ∷ keys) w h = elim (Bool-cases (w.seen_bits key)) [
  | inl e ↦
      let r = record_keys-Records keys w h in
      rw e (record {
        lists_kept = r.lists_kept;
        block_kept = r.block_kept;
        rows_kept = r.rows_kept;
        agrees = r.agrees;
        seen = λ k. ground (arith, r.seen k, h.same k);
      })
  | inr e ↦
      let w' : TrigramWriter = record w {
        seen_bits = set_bit key true w.seen_bits;
        seen_list = w.seen_list ++ (key ∷ []);
      } in
      let h' : Agrees w' = record {
        same = λ k. ground (arith, h.same k, has-append k w.seen_list (key ∷ []));
        once = NoDup-snoc key w.seen_list h.once (ground (arith, h.same key));
      } in
      let r = record_keys-Records keys w' h' in
      rw e (record {
        lists_kept = r.lists_kept;
        block_kept = r.block_kept;
        rows_kept = r.rows_kept;
        agrees = r.agrees;
        seen = λ k. ground (arith, r.seen k, has-append k w.seen_list (key ∷ []));
      })
]

-- What the loop of `seal` does to the writer.
pub record Seals (keys : List ℕ) (w w' : TrigramWriter) : Type 0 where
  pub block_kept : w'.block ≡ w.block
  pub rows_kept : w'.rows ≡ w.rows
  pub cleared : (k : ℕ) → w'.seen_bits k ≡ (w.seen_bits k && not (has k keys))
  pub listed :
      (k : ℕ)
      → list_of k w'.lists
        ≡ (if has k keys then append_block w.block (list_of k w.lists) else list_of k w.lists)
  pub keyed : (k : ℕ) → has k (keys_of w'.lists) ≡ (has k (keys_of w.lists) || has k keys)

pub seal_keys-Seals :
    (keys : List ℕ) (w : TrigramWriter) → NoDup keys → Seals keys w (seal_keys keys w)
unfolding seal_keys
seal_keys-Seals [] w h = record {
  block_kept = refl;
  rows_kept = refl;
  cleared = λ k. ground arith;
  listed = λ k. refl;
  keyed = λ k. ground arith;
}
seal_keys-Seals (key ∷ keys) w (fresh, h) =
    let w' : TrigramWriter = record w {
      seen_bits = set_bit key false w.seen_bits;
      lists = append_to w.block key w.lists;
    } in
    let r = seal_keys-Seals keys w' h in
    record {
      block_kept = r.block_kept;
      rows_kept = r.rows_kept;
      cleared = λ k. ground (arith, r.cleared k);
      listed = λ k. ground (arith, r.listed k, list_of-append_to w.block key k w.lists);
      keyed = λ k. ground (arith, r.keyed k, has-append_to w.block key k w.lists);
    }
