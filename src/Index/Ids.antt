-- ===== src/Index/Ids.antt =====
-- crates/scour-index-native/src/ids.rs: rows by the half digest of a path, and `path_digest` of
-- crates/scour-core/src/types/entry.rs. A path is its bytes.
pub mod Front
pub mod Rows
use scour.Prelude.{
  ℕ, zero, suc, ◌+◌, ◌-◌, ◌*◌, ◌/◌, ◌%◌, ◌^◌, Bool, true, false, Option, none, some, List, [], ◌∷◌,
  ◌++◌, ltb, ◌==◌, if◌then◌else◌, length, drop, take, bit_xor,
}
use scour.Index.Varint.{Bytes}
use scour.Index.Words.{u32, le_bytes, from_le, u32_at}
use scour.Index.Sort.{sort_by}

-- `rotate_left(5)` of a `u64`.
abbrev pub rotate_left_5 : ℕ → ℕ
rotate_left_5 h = h * 2 ^ 5 % 2 ^ 64 + h / 2 ^ 59

-- The loop over the chunks of eight bytes; the length of the path is fuel enough. The last chunk is
-- filled up with zeros, which add nothing to its number.
digest_loop : ℕ → ℕ → Bytes → ℕ
digest_loop zero h path = h
digest_loop (suc f) h [] = h
digest_loop (suc f) h (b ∷ path) =
    digest_loop f
      (bit_xor (rotate_left_5 h) (from_le (take 8 (b ∷ path))) * 0x517cc1b727220a95 % 2 ^ 64)
      (drop 8 (b ∷ path))

unfoldable pub path_digest : ℕ → Bytes → ℕ
unfolding digest_loop
path_digest source path = digest_loop (length path) source path

-- `(d >> 32) as u32`
abbrev pub narrow_digest : ℕ → ℕ
narrow_digest d = u32 (d / 2 ^ 32)

-- `IdWriter`, by its pairs of a hash and a row.
abbrev pub IdWriter : Type 0
IdWriter = List (ℕ × ℕ)

unfoldable pub push : IdWriter → ℕ → Bytes → ℕ → IdWriter
unfolding path_digest
push w source path row = w ++ ((narrow_digest (path_digest source path), row) ∷ [])

-- Pairs of 32-bit words stand in the order of this number.
abbrev pub pair_rank : ℕ × ℕ → ℕ
pair_rank (h, row) = h * 2 ^ 32 + row

unfoldable pub pair_bytes : List (ℕ × ℕ) → Bytes
pair_bytes [] = []
pair_bytes ((h, row) ∷ pairs) = le_bytes h ++ (le_bytes row ++ pair_bytes pairs)

unfoldable pub finish : IdWriter → Bytes
unfolding pair_bytes sort_by
finish w = let pairs = sort_by pair_rank w in le_bytes (u32 (length pairs)) ++ pair_bytes pairs

pub record IdMap : Type 0 where
  pub pairs : Bytes
  pub len : ℕ

-- `bytes.get(4..4 + len * 8)?`
unfoldable pub open_map : Bytes → Option IdMap
unfolding u32_at
open_map bytes =
    let len = u32_at bytes 0 in
    if ltb (length bytes) 4
    then none
    else if ltb (length bytes) (4 + len * 8)
    then none
    else some (record { pairs = take (len * 8) (drop 4 bytes); len = len })

unfoldable pub hash_at : IdMap → ℕ → ℕ
unfolding u32_at
hash_at m i = u32_at m.pairs (i * 8)

unfoldable pub row_at : IdMap → ℕ → ℕ
unfolding u32_at
row_at m i = u32_at m.pairs (i * 8 + 4)

-- The loop that looks for the first pair whose hash is not below; a round halves what is left, so
-- its width serves as fuel.
unfoldable pub bound_loop : ℕ → IdMap → ℕ → ℕ → ℕ → ℕ
unfolding hash_at
bound_loop zero m want lo hi = lo
bound_loop (suc f) m want lo hi =
    let mid = lo + (hi - lo) / 2 in
    let right = bound_loop f m want (mid + 1) hi in
    let left = bound_loop f m want lo mid in
    if ltb lo hi then (if ltb (hash_at m mid) want then right else left) else lo

-- `(lo..self.len).take_while(…).map(…)`, by how many are left.
unfoldable pub rows_while : ℕ → IdMap → ℕ → ℕ → List ℕ
unfolding hash_at row_at
rows_while zero m want i = []
rows_while (suc n) m want i =
    let rest = rows_while n m want (i + 1) in if hash_at m i == want then row_at m i ∷ rest else []

unfoldable pub rows_for : IdMap → ℕ → List ℕ
unfolding bound_loop rows_while
rows_for m want = let lo = bound_loop m.len m want 0 m.len in rows_while (m.len - lo) m want lo

unfoldable pub candidates : IdMap → ℕ → Bytes → List ℕ
unfolding rows_for path_digest
candidates m source path = rows_for m (narrow_digest (path_digest source path))
