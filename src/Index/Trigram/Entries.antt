-- ===== src/Index/Trigram/Entries.antt =====
-- crates/scour-index-native/src/trigram.rs: the dictionary and the postings that `finish` writes.
use scour.Index.Words.{u32, le_bytes, u32_at, IsU32, next_entry, this_key, this_off}
use scour.Prelude.{
  take-length, ℕ, zero, suc, ◌+◌, ◌*◌, ◌^◌, ◌<◌, ◌≡◌, refl, false, some, List, [], ◌∷◌, ◌++◌,
  append-nil, append_assoc, ltb, length, arith, ◌⊎◌, inl, inr, Bool-cases, get_elem?, take, sym,
  ◌∙◌, ap, All, subst,
}
use scour.Index.Varint.{Bytes}
use scour.Index.Varint.RoundTrip.{varint_of}
use scour.Index.Trigram.{Lists, put_to, list_of, layout, entries_of, unindexed}
use scour.Index.Trigram.Reader.{open_index}
use scour.Index.Trigram.Postings.{put_to-varint_of}

-- The postings hold the list of the key at the offset, unless it is left out.
abbrev pub Stored : Lists → Bytes → ℕ → ℕ → Type 0
Stored lists post k off =
    let list = list_of k lists in
    (off ≡ unindexed)
    ⊎ ((front : Bytes) × (rest : Bytes) × (post
          ≡ front ++ (varint_of list.count ++ (list.bytes ++ rest)))
        × (off ≡ u32 (length front)))

pub data Pairs (P : ℕ → ℕ → Type 0) : List ℕ → List ℕ → Type 0 where
  done : Pairs P [] []
  pair : {k off : ℕ} {ks offs : List ℕ} → P k off → Pairs P ks offs → Pairs P (k ∷ ks) (off ∷ offs)

append_four : (xs ys zs ws : Bytes) → ((xs ++ ys) ++ zs) ++ ws ≡ xs ++ (ys ++ (zs ++ ws))
append_four xs ys zs ws = append_assoc (xs ++ ys) zs ws ∙ append_assoc xs ys (zs ++ ws)

pub layout-Stored :
    (cutoff : ℕ) (lists : Lists) (post : Bytes) (ks : List ℕ)
    → ((k : ℕ) → (list_of k lists).count < 2 ^ 64)
    → let out = layout cutoff lists post ks in
      (tail : Bytes) × (out.1 ≡ post ++ tail) × Pairs (Stored lists out.1) ks out.0
unfolding layout
layout-Stored cutoff lists post [] h = ([], sym (append-nil post), done)
layout-Stored cutoff lists post (k ∷ ks) h =
    let list = list_of k lists in
    elim (Bool-cases (ltb cutoff list.count)) [
      | inl e ↦ rw e (
          let (tail, same, pairs) = layout-Stored cutoff lists post ks h in
          (tail, same, pair (inl refl) pairs))
      | inr e ↦ rw e (
          let longer : Bytes = put_to post list.count ++ list.bytes in
          let (tail, same, pairs) = layout-Stored cutoff lists longer ks h in
          let whole : (layout cutoff lists longer ks).1
              ≡ post ++ (varint_of list.count ++ (list.bytes ++ tail)) =
            same
            ∙ ap (λ l. (l ++ list.bytes) ++ tail) (put_to-varint_of post list.count (h k))
            ∙ append_four post (varint_of list.count) list.bytes tail in
          (
            varint_of list.count ++ (list.bytes ++ tail),
            whole,
            pair (inr (post, tail, whole, refl)) pairs,
          ))
    ]

-- What stands at entry `i` is the key there, and an offset of it.
pub entry-Pairs :
    (P : ℕ → ℕ → Type 0) (ks offs : List ℕ) (i k : ℕ)
    → ((j o : ℕ) → P j o → IsU32 o)
    → All IsU32 ks
    → Pairs P ks offs
    → get_elem? ks i ≡ some k
    → (off : ℕ) × P k off
      × (u32_at (entries_of ks offs) (i * 8 + 0) ≡ k)
      × (u32_at (entries_of ks offs) (i * 8 + 4) ≡ off)
unfolding entries_of
entry-Pairs P [] [] i k small all done h = absurd (cc)
entry-Pairs P [] (o ∷ offs) i k small all d h = elim d [ ]
entry-Pairs P (j ∷ ks) [] i k small all d h = elim d [ ]
entry-Pairs P (j ∷ ks) (o ∷ offs) zero k small (s, all) (pair p ps) h =
    let e : j ≡ k = cc in
    (
      o,
      subst (λ x. P x o) e p,
      this_key j o (entries_of ks offs) s ∙ e,
      this_off j o (entries_of ks offs) (small j o p),
    )
entry-Pairs P (j ∷ ks) (o ∷ offs) (suc i) k small (s, all) (pair p ps) h =
    let (off, q, key, place) = entry-Pairs P ks offs i k small all ps h in
    (
      off,
      q,
      next_entry j o (entries_of ks offs) i 0 ∙ key,
      next_entry j o (entries_of ks offs) i 4 ∙ place,
    )

pub length-entries_of :
    (P : ℕ → ℕ → Type 0) (ks offs : List ℕ)
    → Pairs P ks offs
    → length (entries_of ks offs) ≡ length ks * 8
unfolding entries_of
length-entries_of P [] [] done = refl
length-entries_of P [] (off ∷ offs) d = elim d [ ]
length-entries_of P (k ∷ ks) [] d = elim d [ ]
length-entries_of P (k ∷ ks) (off ∷ offs) (pair p ps) =
    omega (arith, length-entries_of P ks offs ps)

-- A dictionary of `n` entries opens as what it was written from.
pub open_index-dict :
    (n block : ℕ) (entries post : Bytes)
    → IsU32 n
    → IsU32 block
    → length entries ≡ n * 8
    → open_index (le_bytes n ++ (le_bytes block ++ entries)) post
      ≡ some (record { entries = entries; post = post; len = n; block_count = block })
unfolding open_index
open_index-dict n block entries post hn hb hl =
    let dict : Bytes = le_bytes n ++ (le_bytes block ++ entries) in
    let len : u32_at dict 0 ≡ n = this_key n block entries hn in
    let count : u32_at dict 4 ≡ block = this_off n block entries hb in
    let size : length dict ≡ 8 + length entries = omega arith in
    let rest : take (n * 8) entries ≡ entries = take-length (n * 8) entries (omega arith) in
    let long : ltb (length dict) 8 ≡ false = ground arith in
    let full : ltb (length dict) (8 + n * 8) ≡ false = ground arith in
    rw (len, count, full, long, rest) refl
