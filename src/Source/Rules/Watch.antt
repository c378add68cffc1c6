-- ===== src/Source/Rules/Watch.antt =====
-- crates/scour-source-fs/src/rules.rs: `excludes`, which the walk asks, and `excludes_path`, which
-- the watcher asks.
use scour.Prelude.{
  ◌+◌, ◌≤◌, ◌≡◌, refl, Bool, true, false, some, List, [], ◌∷◌, length, All, arith, ap, leb, any,
  Bool-cases, inl, inr, Str, member, is_empty, last?,
}
use scour.Source.Rules.{
  Casing, Seq, Rules, components, any_window, any_within, seq_within, fold_chars, lower_components,
  seq_matches, tail_matches, tail_of, longest, allows, any_before_last, inside_excluded, by_name,
  excludes, excludes_path,
}
use scour.Source.Rules.Tail.{ByLetters}

-- No sequence rule is without a name.
abbrev pub NoneEmpty : Rules → Type 0
NoneEmpty r = All (λ (rule : Seq). 1 ≤ length rule) r.dir_seqs

any_mono {ℓ} :
    {A : Type ℓ} (p q : A → Bool) (l : List A)
    → ((x : A) → p x ≡ true → q x ≡ true)
    → any p l ≡ true
    → any q l ≡ true
any_mono p q [] f h = h
any_mono p q (x ∷ l) f h = ground (arith, f x, any_mono p q l f)

module _ (casing : Casing) where
  open casing use {str_lower}

  any_within_total :
      (comps : Seq) (rules : List Seq)
      → All (λ (rule : Seq). 1 ≤ length rule) rules
      → (b : Bool) × (any_within casing comps rules ≡ some b)
  unfolding any_within
  any_within_total comps [] h = (false, refl)
  any_within_total comps ([] ∷ rules) (p, h) = absurd (omega arith)
  any_within_total comps ((s ∷ rule) ∷ rules) (p, h) =
      let (b, e) = any_within_total comps rules h in
      elim (Bool-cases (leb (length (s ∷ rule)) (length comps))) [
        | inr short ↦ (b, rw short e)
        | inl long ↦ elim (Bool-cases (any_window (s ∷ rule) comps)) [
          | inl met ↦ (true, rw (long, met) refl)
          | inr not_met ↦ (b, rw (long, not_met) e)
        ]
      ]

  -- Where no sequence rule is empty, the check of the sequences does not panic.
  pub seq_within_total :
      (r : Rules) (path : Str) → NoneEmpty r → (b : Bool) × (seq_within casing r path ≡ some b)
  unfolding seq_within
  seq_within_total r path h =
      let (b, e) = any_within_total (lower_components casing path) r.dir_seqs h in
      elim (Bool-cases (is_empty r.dir_seqs)) [
        | inl none_there ↦ (false, rw none_there refl)
        | inr some_there ↦ (b, rw some_there e)
      ]

  seq_matches_file :
      (comps rule : Seq)
      → seq_matches casing comps true rule ≡ true
      → seq_matches casing comps false rule ≡ true
  unfolding seq_matches
  seq_matches_file comps rule h = ground arith

  tail_matches_file :
      (tail rule : Seq)
      → tail_matches casing tail true rule ≡ true
      → tail_matches casing tail false rule ≡ true
  unfolding tail_matches
  tail_matches_file tail rule h = ground arith

  -- What is taken back as a directory is taken back as a file.
  allows_file :
      (r : Rules) (path : Str)
      → allows casing r path true ≡ true
      → allows casing r path false ≡ true
  unfolding allows
  allows_file r path h =
      let comps = lower_components casing path in
      let tail = tail_of path (longest r.allow_seqs + 1) in
      ground (
        arith,
        any_mono (seq_matches casing comps true) (seq_matches casing comps false) r.allow_seqs
            (seq_matches_file comps),
        any_mono (tail_matches casing tail true) (tail_matches casing tail false) r.allow_seqs
            (tail_matches_file tail),
      )

  any_before_last-any :
      (r : Rules) (comps : Seq)
      → All (ByLetters casing) comps
      → any_before_last casing r comps ≡ true
      → any (λ part. member (str_lower part) r.dirs) comps ≡ true
  unfolding any_before_last
  any_before_last-any r [] letters h = h
  any_before_last-any r (c ∷ []) letters h = absurd (cc)
  any_before_last-any r (c ∷ d ∷ comps) (p, letters) h =
      let same : member (fold_chars casing c) r.dirs ≡ member (str_lower c) r.dirs =
        ap (λ t. member t r.dirs) p in
      ground (arith, any_before_last-any r (d ∷ comps) letters)

  -- A file that the walk leaves out is left out by the watcher, which has only its path; for a path
  -- whose letters lower one by one, and rules without an empty sequence.
  pub excludes-excludes_path :
      (r : Rules) (path name : Str)
      → NoneEmpty r
      → All (ByLetters casing) (components path)
      → last? (components path) ≡ some name
      → excludes casing r path name false ≡ some true
      → excludes_path casing r path ≡ some true
  unfolding excludes excludes_path inside_excluded by_name
  excludes-excludes_path r path name full letters at h =
      let (b, e) = seq_within_total r path full in
      rw (e, at)
        (ground (arith, allows_file r path, any_before_last-any r (components path) letters, e))
