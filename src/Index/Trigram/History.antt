-- ===== src/Index/Trigram/History.antt =====
-- crates/scour-index-native/src/trigram.rs: what `TrigramWriter` keeps of the rows added to it.
use scour.Prelude.{
  ℕ, ◌+◌, ◌/◌, ◌^◌, ◌≤◌, ◌<◌, ◌≡◌, refl, true, ◌||◌, some, List, [], ◌∷◌, ◌++◌, ◌==◌, if◌then◌else◌,
  length, has, has-append, arith, inl, inr, Bool-cases, get_elem?, get_elem?-lt, ◌&&◌, subst, sym,
}
use scour.Index.Varint.{Bytes}
use scour.Index.Trigram.{TrigramWriter, new, seal, list_of, for_each, block_rows}
use scour.Index.Trigram.Postings.{Holds, append_block-Holds, Holds-raise, default-Holds}
use scour.Index.Trigram.Writer.{keys_of, Agrees, seal_keys-Seals}

-- Row `r` is in block `b`, and its name has the trigram.
abbrev pub HasRow : List Bytes → ℕ → ℕ → Type 0
HasRow names key b =
    (r : ℕ) × (name : Bytes) × (get_elem? names r ≡ some name)
    × (has key (for_each name) ≡ true)
    × (r / block_rows ≡ b)

-- The lists hold the blocks that are sealed, and `seen_list` the trigrams of the block being
-- filled: every trigram of every row, and nothing else.
pub record Keeps (names : List Bytes) (w : TrigramWriter) : Type 0 where
  pub blocks_of : ℕ → List ℕ
  pub holds : (k : ℕ) → Holds w.block (blocks_of k) (list_of k w.lists)
  pub keyed : (k b : ℕ) → has b (blocks_of k) ≡ true → has k (keys_of w.lists) ≡ true
  pub agrees : Agrees w
  pub reach : (r : ℕ) → r < length names → r / block_rows ≤ w.block
  pub sealed :
      (r : ℕ) (name : Bytes) (k : ℕ)
      → get_elem? names r ≡ some name
      → has k (for_each name) ≡ true
      → r / block_rows < w.block
      → has (r / block_rows) (blocks_of k) ≡ true
  pub filling :
      (r : ℕ) (name : Bytes) (k : ℕ)
      → get_elem? names r ≡ some name
      → has k (for_each name) ≡ true
      → w.block ≤ r / block_rows
      → has k w.seen_list ≡ true
  pub only_sealed : (k b : ℕ) → has b (blocks_of k) ≡ true → HasRow names k b
  pub only_keyed : (k : ℕ) → has k (keys_of w.lists) ≡ true → (b : ℕ) × HasRow names k b
  pub only_filling : (k : ℕ) → has k w.seen_list ≡ true → HasRow names k w.block

pub new-Keeps : Keeps [] new
unfolding list_of
new-Keeps = record {
  blocks_of = λ k. [];
  holds = λ k. default-Holds;
  keyed = λ k b h. absurd (cc);
  agrees = record { same = λ k. refl; once = tt };
  reach = λ r h. absurd (omega arith);
  sealed = λ r name k h. absurd (cc);
  filling = λ r name k h. absurd (cc);
  only_sealed = λ k b h. absurd (cc);
  only_keyed = λ k h. absurd (cc);
  only_filling = λ k h. absurd (cc);
}

seal_blocks : TrigramWriter → (ℕ → List ℕ) → ℕ → List ℕ
seal_blocks w blocks k = if has k w.seen_list then blocks k ++ (w.block ∷ []) else blocks k

has-seal_blocks :
    (w : TrigramWriter) (blocks : ℕ → List ℕ) (k b : ℕ)
    → has b (seal_blocks w blocks k) ≡ (has b (blocks k) || (has k w.seen_list && w.block == b))
unfolding seal_blocks
has-seal_blocks w blocks k b = ground (arith, has-append b (blocks k) (w.block ∷ []))

module _ (names : List Bytes) (w : TrigramWriter) (keeps : Keeps names w) where
  module _ (fits : w.block + 1 < 2 ^ 32) where
    pub seal-block : (seal w).block ≡ w.block + 1
    unfolding seal
    seal-block = omega (arith, (seal_keys-Seals w.seen_list w keeps.agrees.once).block_kept)

    seal-holds :
        (k : ℕ) → Holds (w.block + 1) (seal_blocks w keeps.blocks_of k) (list_of k (seal w).lists)
    unfolding seal seal_blocks
    seal-holds k =
        let s = seal_keys-Seals w.seen_list w keeps.agrees.once in
        elim (Bool-cases (has k w.seen_list)) [
          | inl e ↦
              rw (s.listed k, e)
                (append_block-Holds w.block (keeps.blocks_of k) (list_of k w.lists) (keeps.holds k)
                  fits)
          | inr e ↦
              rw (s.listed k, e)
                (Holds-raise w.block (w.block + 1) (keeps.blocks_of k) (list_of k w.lists)
                  (keeps.holds k) (omega arith))
        ]

    seal-keyed :
        (k b : ℕ)
        → has b (seal_blocks w keeps.blocks_of k) ≡ true
        → has k (keys_of (seal w).lists) ≡ true
    unfolding seal
    seal-keyed k b h =
        let s = seal_keys-Seals w.seen_list w keeps.agrees.once in
        ground (arith, s.keyed k, has-seal_blocks w keeps.blocks_of k b, keeps.keyed k b)

    seal-Agrees : Agrees (seal w)
    unfolding seal
    seal-Agrees =
        let s = seal_keys-Seals w.seen_list w keeps.agrees.once in
        record { same = λ k. ground (arith, s.cleared k, keeps.agrees.same k); once = tt }

    seal-only_keyed : (k : ℕ) → has k (keys_of (seal w).lists) ≡ true → (b : ℕ) × HasRow names k b
    unfolding seal
    seal-only_keyed k h = elim (Bool-cases (has k (keys_of w.lists))) [
      | inl e ↦ keeps.only_keyed k e
      | inr e ↦
          let s = seal_keys-Seals w.seen_list w keeps.agrees.once in
          (w.block, keeps.only_filling k (ground (arith, s.keyed k)))
    ]

    pub seal-Keeps : Keeps names (seal w)
    seal-Keeps = record {
      blocks_of = seal_blocks w keeps.blocks_of;
      holds = λ k.
          subst (λ b. Holds b (seal_blocks w keeps.blocks_of k) (list_of k (seal w).lists))
            (sym seal-block) (seal-holds k);
      keyed = seal-keyed;
      agrees = seal-Agrees;
      reach = λ r h. omega (arith, keeps.reach r h, seal-block);
      sealed = λ r name k p q h. ground (
        arith,
        seal-block,
        has-seal_blocks w keeps.blocks_of k (r / block_rows),
        keeps.sealed r name k p q,
        keeps.filling r name k p q,
      );
      filling = λ r name k p q h.
          absurd (omega (arith, seal-block, keeps.reach r (get_elem?-lt names r name p)));
      only_sealed = λ k b h. only k b h;
      only_keyed = seal-only_keyed;
      only_filling = λ k h. absurd (unfold seal in cc);
    }
      where
        only : (k b : ℕ) → has b (seal_blocks w keeps.blocks_of k) ≡ true → HasRow names k b
        only k b h = elim (Bool-cases (has b (keeps.blocks_of k))) [
          | inl e ↦ keeps.only_sealed k b e
          | inr e ↦
              let both = has-seal_blocks w keeps.blocks_of k b in
              let now : w.block ≡ b = ground arith in
              subst (HasRow names k) now (keeps.only_filling k (ground arith))
        ]
