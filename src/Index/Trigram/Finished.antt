-- ===== src/Index/Trigram/Finished.antt =====
-- crates/scour-index-native/src/trigram.rs: the writer at the end of its rows.
use scour.Index.Words.{u32, IsU32}
use scour.Prelude.{
  ℕ, ◌+◌, ◌*◌, ◌/◌, ◌^◌, ◌≤◌, ◌<◌, ◌≡◌, refl, true, false, some, List, [], ◌∷◌, ◌++◌, ◌==◌, length,
  length-append, arith, inl, inr, Bool-cases, get_elem?, get_elem?-lt, All, has, is_empty, bit_or,
  bit_or_lt, ◌∙◌, drop, ap, ltb,
}
use scour.Index.Varint.{Bytes, get}
use scour.Index.Varint.RoundTrip.{IsByte, varint_of, get-varint_of}
use scour.Index.Trigram.{
  Lists, TrigramWriter, seal_rest, list_of, for_each, key_of, block_rows, unindexed,
}
use scour.Index.Trigram.Reader.{lookup_at, decode}
use scour.Index.Trigram.Postings.{Ascends-le, Holds, decode-Holds, drop-length}
use scour.Index.Trigram.History.{Keeps, seal-Keeps, seal-block}
use scour.Index.Trigram.Rows.{Counts}
use scour.Index.Trigram.Narrow.{Admits}
use scour.Index.Trigram.Entries.{Stored}

-- Every trigram of every row is in a sealed block.
pub record Finished (names : List Bytes) (w : TrigramWriter) : Type 0 where
  pub keeps : Keeps names w
  pub small : w.block < 2 ^ 32
  pub complete :
      (r : ℕ) (name : Bytes) (k : ℕ)
      → get_elem? names r ≡ some name
      → has k (for_each name) ≡ true
      → has (r / block_rows) (keeps.blocks_of k) ≡ true

nothing_seen : (k : ℕ) (l : List ℕ) → is_empty l ≡ true → has k l ≡ false
nothing_seen k [] h = refl
nothing_seen k (x ∷ l) h = absurd (cc)

pub seal_rest-Finished :
    (names : List Bytes) (w : TrigramWriter)
    → Counts names w
    → length names < 2 ^ 32
    → Finished names (seal_rest w)
unfolding seal_rest
seal_rest-Finished names w h fits = elim (Bool-cases (is_empty w.seen_list)) [
  | inl e ↦ rw e (record {
    keeps = h.keeps;
    small = omega (arith, h.block_count);
    complete = λ r name k p q. elim (Bool-cases (ltb (r / block_rows) w.block)) [
      | inl lt ↦ h.keeps.sealed r name k p q (ground arith)
      | inr ge ↦
          let at : w.block ≤ r / block_rows = ground arith in
          absurd (ground (arith, h.keeps.filling r name k p q at, nothing_seen k w.seen_list e))
    ];
  })
  | inr e ↦
      let fit : w.block + 1 < 2 ^ 32 = omega (arith, h.block_count) in
      let k = seal-Keeps names w h.keeps fit in
      rw e (record {
        keeps = k;
        small = omega (arith, seal-block names w h.keeps fit);
        complete = λ r name key p q. k.sealed r name key p q (
            omega (
              arith,
              h.keeps.reach r (get_elem?-lt names r name p),
              seal-block names w h.keeps fit,
            ));
      })
]

key_of_small : (a b c : ℕ) → IsByte a → IsByte b → IsByte c → IsU32 (key_of a b c)
key_of_small a b c ha hb hc =
    bit_or_lt 32 (bit_or (a * 2 ^ 16) (b * 2 ^ 8)) c
      (bit_or_lt 32 (a * 2 ^ 16) (b * 2 ^ 8) (omega arith) (omega arith)) (omega arith)

pub for_each_small :
    (name : Bytes) (k : ℕ) → All IsByte name → has k (for_each name) ≡ true → IsU32 k
unfolding for_each
for_each_small [] k h e = absurd (cc)
for_each_small (a ∷ []) k h e = absurd (cc)
for_each_small (a ∷ b ∷ []) k h e = absurd (cc)
for_each_small (a ∷ b ∷ c ∷ s) k (ha, (hb, (hc, h))) e = elim (Bool-cases (key_of a b c == k)) [
  | inl p ↦ let same : key_of a b c ≡ k = ground arith in rw (← same) (key_of_small a b c ha hb hc)
  | inr p ↦ for_each_small (b ∷ c ∷ s) k (hb, (hc, h)) (ground arith)
]

-- What is read at the offset of a key does not lose a block of the key.
pub lookup_at-Admits :
    (lists : Lists) (post : Bytes) (k off b hi : ℕ) (bs : List ℕ)
    → Stored lists post k off
    → Holds hi bs (list_of k lists)
    → hi < 2 ^ 32
    → length post < 2 ^ 32
    → has b bs ≡ true
    → Admits b (lookup_at post off)
unfolding lookup_at
lookup_at-Admits lists post k off b hi bs (inl e) h small fits m = inl (rw e refl)
lookup_at-Admits lists post k off b hi bs (inr (front, rest, e, o)) h small fits m =
    elim (Bool-cases (off == unindexed)) [
      | inl c ↦ inl (ground arith)
      | inr c ↦
          let list = list_of k lists in
          let bytes : Bytes = list.bytes ++ rest in
          let stored : Bytes = varint_of list.count ++ bytes in
          let size : length post ≡ length front + length stored =
            ap length e ∙ length-append front stored in
          let place : off ≡ length front = omega arith in
          let held : list.count < 2 ^ 32 =
            omega (arith, h.is_count, Ascends-le 0 hi bs h.is_ascending) in
          let inside : ltb (length post) off ≡ false = ground arith in
          let found : drop off post ≡ stored = rw (place, e) (drop-length front stored) in
          let parsed : get (drop off post) ≡ some (list.count, length (varint_of list.count)) =
            rw found (get-varint_of list.count bytes (omega arith)) in
          let after : drop (length (varint_of list.count)) (drop off post) ≡ bytes =
            rw found (drop-length (varint_of list.count) bytes) in
          let whole : u32 list.count ≡ list.count = omega arith in
          let read : decode list.count bytes ≡ bs = decode-Holds hi bs list rest h (omega arith) in
          inr (
            list.count,
            bytes,
            rw (c, inside, parsed, after, whole) refl,
            (hi, rw read h.is_ascending, rw read m),
          )
    ]
