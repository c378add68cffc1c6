-- ===== src/Index/Trigram.antt =====
-- crates/scour-index-native/src/trigram.rs: which blocks of rows hold a trigram. The writer is here,
-- and the reader in a child. A hash map is an association list, and the bitmap of the trigrams seen
-- is a function from a key to its bit.
pub mod Reader
mod Postings
pub mod Writer
pub mod History
pub mod Rows
mod Entries
mod Search
pub mod Narrow
mod Finished
pub mod Sound
mod Tests
use scour.Index.Words.{
  u32, le_bytes, from_le, u32_at, from_le-le_bytes, drop-add, IsU32, next_entry, this_key, this_off,
}
use scour.Index.Sort.{
  insert_by, sort_by, sort_by-All, any-sort_by, RisesBy, sort_by-RisesBy, RisesBy-le, has-sort_by,
  has-any,
}
use scour.Prelude.{
  ℕ, zero, suc, ◌+◌, ◌-◌, ◌*◌, ◌/◌, ◌%◌, ◌^◌, Bool, true, false, none, some, List, [], ◌∷◌, ◌++◌,
  ltb, leb, ◌==◌, if◌then◌else◌, length, bit_or, is_empty, map,
}
use scour.Index.Varint.{Bytes, put}

-- How many rows stand in a block, `BLOCK` of columns.rs.
abbrev pub block_rows : ℕ
block_rows = 32

abbrev pub unindexed : ℕ
unindexed = 2 ^ 32 - 1

abbrev pub key_of : ℕ → ℕ → ℕ → ℕ
key_of a b c = bit_or (bit_or (a * 2 ^ 16) (b * 2 ^ 8)) c

-- `for_each`, as the list of the keys that it visits.
unfoldable pub for_each : Bytes → List ℕ
for_each [] = []
for_each (a ∷ []) = []
for_each (a ∷ b ∷ []) = []
for_each (a ∷ b ∷ c ∷ s) = key_of a b c ∷ for_each (b ∷ c ∷ s)

pub record Posting : Type 0 where
  pub last : ℕ
  pub count : ℕ
  pub bytes : Bytes

abbrev pub default : Posting
default = record { last = 0; count = 0; bytes = [] }

abbrev pub Lists : Type 0
Lists = List (ℕ × Posting)

pub record TrigramWriter : Type 0 where
  pub lists : Lists
  pub seen_bits : ℕ → Bool
  pub seen_list : List ℕ
  pub block : ℕ
  pub rows : ℕ

abbrev pub new : TrigramWriter
new = record { lists = []; seen_bits = λ k. false; seen_list = []; block = 0; rows = 0 }

-- `varint::put` on a buffer that is changed in place.
unfoldable pub put_to : Bytes → ℕ → Bytes
put_to out v = elim (put out v) [ none ↦ out | some out' ↦ out' ]

abbrev pub set_bit : ℕ → Bool → (ℕ → Bool) → ℕ → Bool
set_bit key v bits k = if k == key then v else bits k

unfoldable pub record_keys : List ℕ → TrigramWriter → TrigramWriter
record_keys [] w = w
record_keys (key ∷ keys) w = record_keys keys (
    if w.seen_bits key then w else record w {
      seen_bits = set_bit key true w.seen_bits;
      seen_list = w.seen_list ++ (key ∷ []);
    })

abbrev pub append_block : ℕ → Posting → Posting
append_block block list = record {
  last = block;
  count = u32 (list.count + 1);
  bytes = put_to list.bytes (block - list.last);
}

-- `self.lists.entry(key).or_default()`, changed.
unfoldable pub append_to : ℕ → ℕ → Lists → Lists
append_to block key [] = (key, append_block block default) ∷ []
append_to block key ((k, list) ∷ lists) =
    let rest = append_to block key lists in
    if k == key then (k, append_block block list) ∷ lists else (k, list) ∷ rest

-- The loop of `seal` over the keys that are drained.
unfoldable pub seal_keys : List ℕ → TrigramWriter → TrigramWriter
unfolding append_to
seal_keys [] w = w
seal_keys (key ∷ keys) w =
    seal_keys keys (record w {
      seen_bits = set_bit key false w.seen_bits;
      lists = append_to w.block key w.lists;
    })

unfoldable pub seal : TrigramWriter → TrigramWriter
unfolding seal_keys
seal w =
    let sealed = seal_keys w.seen_list w in
    record sealed { seen_list = []; block = u32 (sealed.block + 1) }

unfoldable pub finish_row : TrigramWriter → TrigramWriter
unfolding seal
finish_row w =
    let counted : TrigramWriter = record w { rows = w.rows + 1 } in
    if counted.rows % block_rows == 0 then seal counted else counted

unfoldable pub push_folded : TrigramWriter → Bytes → TrigramWriter
unfolding record_keys finish_row for_each
push_folded w name = finish_row (record_keys (for_each name) w)

unfoldable pub push_all : TrigramWriter → List Bytes → TrigramWriter
unfolding push_folded
push_all w [] = w
push_all w (name ∷ names) = push_all (push_folded w name) names

-- `self.lists[&key]`, which stops the program at a key that is missing. It is asked for keys of the
-- map only.
unfoldable pub list_of : ℕ → Lists → Posting
list_of key [] = default
list_of key ((k, list) ∷ lists) = let rest = list_of key lists in if k == key then list else rest

-- The loop over the sorted keys: the offsets, and the postings.
unfoldable pub layout : ℕ → Lists → Bytes → List ℕ → List ℕ × Bytes
unfolding list_of
layout cutoff lists post [] = ([], post)
layout cutoff lists post (k ∷ ks) =
    let list = list_of k lists in
    let skipped = layout cutoff lists post ks in
    let stored = layout cutoff lists (put_to post list.count ++ list.bytes) ks in
    if ltb cutoff list.count
    then (unindexed ∷ skipped.0, skipped.1)
    else (u32 (length post) ∷ stored.0, stored.1)

-- The loop over `keys.iter().zip(&offsets)`.
unfoldable pub entries_of : List ℕ → List ℕ → Bytes
entries_of [] offs = []
entries_of (k ∷ ks) [] = []
entries_of (k ∷ ks) (off ∷ offs) = le_bytes k ++ (le_bytes off ++ entries_of ks offs)

abbrev pub first {ℓ κ} : {A : Type ℓ} {B : Type κ} → A × B → A
first (a, b) = a

-- `if !self.seen_list.is_empty() { self.seal() }`
unfoldable pub seal_rest : TrigramWriter → TrigramWriter
unfolding seal
seal_rest w = if is_empty w.seen_list then w else seal w

-- `cutoff_of` is `(f64::from(blocks) * TOO_COMMON) as u32`, a product of the machine.
module _ (cutoff_of : ℕ → ℕ) where
  -- Dictionary and postings.
  unfoldable pub finish : TrigramWriter → Bytes × Bytes
  unfolding seal_rest sort_by layout entries_of
  finish w =
      let w' = seal_rest w in
      let keys = sort_by (λ k. k) (map first w'.lists) in
      let (offsets, post) = layout (cutoff_of w'.block) w'.lists [] keys in
      (le_bytes (u32 (length keys)) ++ (le_bytes w'.block ++ entries_of keys offsets), post)
