-- ===== src/Index/Narrowing/Complete.antt =====
-- crates/scour-index-native/src/search.rs: the rows that a query accepts, and the blocks that
-- narrow_to_blocks leaves of them.
use scour.Prelude.{
  contains-within, ℕ, ◌/◌, ◌^◌, ◌<◌, ◌≡◌, refl, Bool, true, false, Option, none, some, List, [],
  ◌∷◌, ◌++◌, Str, All, any, length, map, get_elem?, has, flat_map, flat_map-append, length-map,
  zero, suc, ap, ◌∙◌, sym, subst, arith, Option-cases, inl, inr, contains,
}
use scour.Core.Ast.{Match}
use scour.Index.Varint.{Bytes}
use scour.Index.Varint.RoundTrip.{IsByte}
use scour.Index.Trigram.{new, push_all, finish, block_rows}
use scour.Index.Trigram.Reader.{TrigramIndex, open_index, candidates}
use scour.Index.Trigram.Narrow.{Keeps, intersect-Keeps}
use scour.Index.Trigram.Sound.{candidates-Keeps_block}
use scour.Index.Plan.{Test, evaluate, filterable}
use scour.Index.Plan.Filter.{filterable-Within}
use scour.Index.Narrowing.{
  Clause, plain_test, needle_of, with_blocks, accepts, differs, blocks_of, narrow_from,
  narrow_to_blocks,
}

get_elem?-map {ℓ κ} :
    {A : Type ℓ} {B : Type κ} (f : A → B) (l : List A) (i : ℕ) (a : A)
    → get_elem? l i ≡ some a
    → get_elem? (map f l) i ≡ some (f a)
get_elem?-map f [] i a h = absurd (cc)
get_elem?-map f (x ∷ l) zero a h = let e : x ≡ a = cc in rw e refl
get_elem?-map f (x ∷ l) (suc i) a h = get_elem?-map f l i a h

-- No list, or an ascending one with block `b` in it.
abbrev KeepsIfSome : ℕ → Option (List ℕ) → Type 0
KeepsIfSome b none = Unit
KeepsIfSome b (some blocks) = Keeps b blocks

with_blocks-KeepsIfSome :
    (b : ℕ) (out blocks : Option (List ℕ))
    → KeepsIfSome b out
    → KeepsIfSome b blocks
    → KeepsIfSome b (with_blocks out blocks)
with_blocks-KeepsIfSome b out none h k = h
with_blocks-KeepsIfSome b none (some blocks) h k = k
with_blocks-KeepsIfSome b (some have) (some blocks) h k = intersect-Keeps b have blocks h k

-- The names are folded texts, and the trigram files hold their bytes.
module _ (utf8 : ℕ → Bytes) (cutoff_of : ℕ → ℕ) (names : List Str) where
  abbrev pub stored : List Bytes
  stored = map (flat_map utf8) names

  abbrev pub files : Bytes × Bytes
  files = finish cutoff_of (push_all new stored)

  module _ (few : length names < 2 ^ 32) (bytes : All (All IsByte) stored)
      (dict_fits : length files.0 < 2 ^ 32) (post_fits : length files.1 < 2 ^ 32)
      (tri : TrigramIndex) (opened : open_index files.0 files.1 ≡ some tri) (r : ℕ) (name : Str)
      (row : get_elem? names r ≡ some name) where
    needle-KeepsIfSome :
        (needle : Str)
        → contains name needle ≡ true
        → KeepsIfSome (r / block_rows) (candidates tri (flat_map utf8 needle))
    needle-KeepsIfSome needle inside = elim (Option-cases (candidates tri (flat_map utf8 needle))) [
      | inl e ↦ rw e tt
      | inr (out, e) ↦
          let (front, rest, same) = contains-within name needle inside in
          let parts : flat_map utf8 name
              ≡ flat_map utf8 front ++ (flat_map utf8 needle ++ flat_map utf8 rest) =
            ap (flat_map utf8) same
            ∙ flat_map-append utf8 front (needle ++ rest)
            ∙ ap (λ t. flat_map utf8 front ++ t) (flat_map-append utf8 needle rest) in
          let at = get_elem?-map (flat_map utf8) names r name row ∙ ap some parts in
          rw e (
            candidates-Keeps_block cutoff_of stored
              (subst (λ n. n < 2 ^ 32) (sym (length-map (flat_map utf8) names)) few) bytes r
              (flat_map utf8 front) (flat_map utf8 needle) (flat_map utf8 rest) tri out dict_fits
              post_fits at opened e)
    ]

    module _ (rest : Match → Bool) (spelled : Str) (is_dir : Bool) where
      clause-KeepsIfSome :
          (alts : List (Bool × Test))
          → any (λ (negated, test). differs negated (evaluate rest spelled name is_dir test)) alts
            ≡ true
          → KeepsIfSome (r / block_rows) (blocks_of utf8 tri (needle_of (plain_test alts)))
      clause-KeepsIfSome [] h = tt
      clause-KeepsIfSome ((true, test) ∷ alts) h = tt
      clause-KeepsIfSome ((false, test) ∷ alt ∷ alts) h = tt
      clause-KeepsIfSome ((false, test) ∷ []) h = elim (Option-cases (filterable test)) [
        | inl e ↦ rw e tt
        | inr (needle, e) ↦ rw e (
            needle-KeepsIfSome needle
              (filterable-Within rest spelled name is_dir test needle (ground arith) e))
      ]

      narrow_from-KeepsIfSome :
          (out : Option (List ℕ)) (clauses : List Clause)
          → KeepsIfSome (r / block_rows) out
          → accepts rest spelled name is_dir clauses ≡ true
          → KeepsIfSome (r / block_rows) (narrow_from utf8 tri out clauses)
      unfolding narrow_from accepts
      narrow_from-KeepsIfSome out [] k h = k
      narrow_from-KeepsIfSome out (c ∷ clauses) k h =
          let blocks = blocks_of utf8 tri (needle_of (plain_test c.alts)) in
          narrow_from-KeepsIfSome (with_blocks out blocks) clauses
            (with_blocks-KeepsIfSome (r / block_rows) out blocks k
              (clause-KeepsIfSome c.alts (ground arith)))
            (ground arith)

      -- Narrowing loses no row: of fewer than 2 ^ 32 names, encoded in bytes, whose trigram files
      -- are each below 4 GiB, the blocks that `narrow_to_blocks` leaves, where it gives any list,
      -- hold every row whose name and other columns the clauses accept.
      pub narrow_to_blocks_complete :
          (off : Bool) (clauses : List Clause) (blocks : List ℕ)
          → accepts rest spelled name is_dir clauses ≡ true
          → narrow_to_blocks utf8 off clauses tri ≡ some blocks
          → has (r / block_rows) blocks ≡ true
      unfolding narrow_to_blocks
      narrow_to_blocks_complete true clauses blocks h e = absurd (cc)
      narrow_to_blocks_complete false clauses blocks h e =
          (subst (KeepsIfSome (r / block_rows)) e (narrow_from-KeepsIfSome none clauses tt h)).2
