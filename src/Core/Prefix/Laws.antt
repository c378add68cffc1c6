-- ===== src/Core/Prefix/Laws.antt =====
-- crates/scour-core/src/types/prefix.rs: the reduction, step by step, and what `covers` asks of it.
use scour.Prelude.{
  ◌≡◌, refl, sym, Bool, true, false, ◌||◌, some, List, [], ◌∷◌, ◌++◌, Str, str_eq, str_eq→eq,
  is_empty, arith, any, All, any-append, last?, map, Bool-cases, Option-cases, ◌∙◌, inl, inr,
  All-append, ap,
}
use scour.Core.Prefix.{
  PrefixSet, trim_slash, under, sort_insert, sort, dedup_after, dedup, is_new, keep_outer, reduce,
}
use scour.Core.Prefix.Below.{
  below, under-eq-below, below_trans, IsTrimmed, trim_slash-IsTrimmed, trim_slash_trimmed,
  below-trim_slash,
}

-- Nothing but the empty path is below a path whose text is all slashes.
nothing_below_root :
    (k p : Str)
    → IsTrimmed k
    → is_empty (trim_slash p) ≡ true
    → below k p ≡ true
    → is_empty k ≡ true
unfolding below
nothing_below_root [] p h e b = refl
nothing_below_root (a ∷ k) p h e b = go (trim_slash p) e (sym (below-trim_slash p (a ∷ k) h) ∙ refl)
  where
    go : (r : Str) → is_empty r ≡ true → below (a ∷ k) p ≡ below (a ∷ k) r → is_empty (a ∷ k) ≡ true
    go [] e' q = ground arith
    go (c ∷ r) e' q = ground arith

-- What is under a path is under every path that this one is under.
pub under_trans : (path p k : Str) → under path p ≡ true → under p k ≡ true → under path k ≡ true
under_trans path p k h g = rw (under-eq-below path k) (elim (Bool-cases (is_empty (trim_slash k))) [
  | inl root ↦ rw root
  | inr deep ↦ elim (Bool-cases (is_empty (trim_slash p))) [
    | inl flat ↦ absurd (
        ground (
          arith,
          nothing_below_root (trim_slash k) p (trim_slash-IsTrimmed k) flat,
          under-eq-below p k,
        ))
    | inr steep ↦ ground (
      arith,
      under-eq-below path p,
      under-eq-below p k,
      below-trim_slash p (trim_slash k) (trim_slash-IsTrimmed k),
      below_trans (trim_slash k) (trim_slash p) path,
    )
  ]
])

pub under-trim_slash : (path p : Str) → under path (trim_slash p) ≡ under path p
under-trim_slash path p = ground (
  arith,
  under-eq-below path p,
  under-eq-below path (trim_slash p),
  trim_slash_trimmed (trim_slash p) (trim_slash-IsTrimmed p),
)

module _ (path : Str) where
  abbrev pub hit : Str → Bool
  hit p = under path p

  any-map-trim : (ps : List Str) → any hit (map trim_slash ps) ≡ any hit ps
  any-map-trim [] = refl
  any-map-trim (p ∷ ps) = rw (under-trim_slash path p, any-map-trim ps)

  any-sort_insert : (s : Str) (ss : List Str) → any hit (sort_insert s ss) ≡ (hit s || any hit ss)
  unfolding sort_insert
  any-sort_insert s [] = refl
  any-sort_insert s (t ∷ ts) = ground (arith, any-sort_insert s ts)

  any-sort : (ss : List Str) → any hit (sort ss) ≡ any hit ss
  unfolding sort
  any-sort [] = refl
  any-sort (s ∷ ss) = any-sort_insert s (sort ss) ∙ rw (any-sort ss)

  any-dedup_after :
      (s : Str) (ss : List Str) → (hit s || any hit (dedup_after s ss)) ≡ (hit s || any hit ss)
  unfolding dedup_after
  any-dedup_after s [] = refl
  any-dedup_after s (t ∷ ts) = elim (Bool-cases (str_eq s t)) [
    | inl e ↦ rw e (ground (arith, any-dedup_after s ts, ap hit (str_eq→eq s t e)))
    | inr e ↦ rw e (ground (arith, any-dedup_after t ts))
  ]

  any-dedup : (ss : List Str) → any hit (dedup ss) ≡ any hit ss
  unfolding dedup
  any-dedup [] = refl
  any-dedup (s ∷ ss) = any-dedup_after s ss

  any-last? : (kept : List Str) (k : Str) → last? kept ≡ some k → hit k ≡ true → any hit kept ≡ true
  any-last? [] k e h = ground arith
  any-last? (x ∷ []) k e h = ground arith
  any-last? (x ∷ y ∷ kept) k e h = ground (arith, any-last? (y ∷ kept) k e h)

  -- A path that is dropped lies under one that is kept.
  dropped :
      (kept : List Str) (p : Str)
      → is_new (last? kept) p ≡ false
      → hit p ≡ true
      → any hit kept ≡ true
  dropped kept p old h = elim (Option-cases (last? kept)) [
    | inl e ↦ absurd (ground arith)
    | inr (k, e) ↦ any-last? kept k e (under_trans path p k h (ground arith))
  ]

  any-keep_outer :
      (kept ps : List Str) → any hit (keep_outer kept ps) ≡ (any hit kept || any hit ps)
  unfolding keep_outer
  any-keep_outer kept [] = ground arith
  any-keep_outer kept (p ∷ ps) = elim (Bool-cases (is_new (last? kept) p)) [
    | inl e ↦
        rw e (ground (arith, any-keep_outer (kept ++ (p ∷ [])) ps, any-append hit kept (p ∷ [])))
    | inr e ↦ rw e (ground (arith, any-keep_outer kept ps, dropped kept p e))
  ]

  pub any-reduce : (s : PrefixSet) → any hit (reduce s).paths ≡ any hit s.paths
  unfolding reduce
  any-reduce s =
      any-keep_outer [] (dedup (sort (map trim_slash s.paths)))
      ∙ any-dedup (sort (map trim_slash s.paths))
      ∙ any-sort (map trim_slash s.paths)
      ∙ any-map-trim s.paths

-- What `new`, `extend`, `forget` and `clear` keep: the lookup holds the members, and no member ends
-- in a slash.
pub record IsValid (s : PrefixSet) : Type 0 where
  pub same : s.lookup ≡ s.paths
  pub trimmed : All IsTrimmed s.paths

All-sort_insert :
    (s : Str) (ss : List Str) → IsTrimmed s → All IsTrimmed ss → All IsTrimmed (sort_insert s ss)
unfolding sort_insert
All-sort_insert s [] h k = (h, tt)
All-sort_insert s (t ∷ ts) h (p, k) = ground (arith, All-sort_insert s ts h k)

All-sort_trim : (ps : List Str) → All IsTrimmed (sort (map trim_slash ps))
unfolding sort
All-sort_trim [] = tt
All-sort_trim (p ∷ ps) =
    All-sort_insert (trim_slash p) _ (trim_slash-IsTrimmed p) (All-sort_trim ps)

All-dedup_after : (s : Str) (ss : List Str) → All IsTrimmed ss → All IsTrimmed (dedup_after s ss)
unfolding dedup_after
All-dedup_after s [] h = tt
All-dedup_after s (t ∷ ts) (p, h) = ground (arith, All-dedup_after s ts h, All-dedup_after t ts h)

All-dedup : (ss : List Str) → All IsTrimmed ss → All IsTrimmed (dedup ss)
unfolding dedup
All-dedup [] h = tt
All-dedup (s ∷ ss) (p, h) = (p, All-dedup_after s ss h)

All-keep_outer :
    (kept ps : List Str)
    → All IsTrimmed kept
    → All IsTrimmed ps
    → All IsTrimmed (keep_outer kept ps)
unfolding keep_outer
All-keep_outer kept [] h k = h
All-keep_outer kept (p ∷ ps) h (q, k) = elim (Bool-cases (is_new (last? kept) p)) [
  | inl e ↦
      rw e (All-keep_outer (kept ++ (p ∷ [])) ps (All-append IsTrimmed kept (p ∷ []) h (q, tt)) k)
  | inr e ↦ rw e (All-keep_outer kept ps h k)
]

pub reduce-IsValid : (s : PrefixSet) → IsValid (reduce s)
unfolding reduce
reduce-IsValid s = record {
  same = refl;
  trimmed =
      All-keep_outer [] (dedup (sort (map trim_slash s.paths))) tt
        (All-dedup (sort (map trim_slash s.paths)) (All-sort_trim s.paths));
}
