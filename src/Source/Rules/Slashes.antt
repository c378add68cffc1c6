-- ===== src/Source/Rules/Slashes.antt =====
-- crates/scour-source-fs/src/rules.rs: the directory rules that `from_options` makes of slashes, and
-- what `seq_within` does with them.
use scour.Prelude.{
  ℕ, ◌≤◌, ◌≡◌, refl, Bool, true, false, not, ◌&&◌, ◌||◌, none, List, [], ◌∷◌, ◌==◌, Str, codes,
  cons_head, split, is_empty, is_some, any, all, map, keep, length, All, arith, Bool-cases, inl,
  inr, sym, ◌∙◌, ap,
}
use scour.Source.Rules.{
  Casing, Seq, Rules, ScanOptions, nonempty, components, has_slash, from_options, any_within,
  seq_within, lower_components,
}
use scour.Source.Rules.Watch.{seq_within_total}

-- A text of slashes and nothing else.
abbrev pub only_slashes : Str → Bool
only_slashes s = not (is_empty s) && all (λ c. c == b'/') s

keep-cons_head : (c : ℕ) (ps : List Str) → is_empty (keep nonempty (cons_head c ps)) ≡ false
keep-cons_head c [] = refl
keep-cons_head c (p ∷ ps) = refl

is_empty-components : (s : Str) → is_empty (components s) ≡ all (λ c. c == b'/') s
unfolding components split
is_empty-components [] = refl
is_empty-components (c ∷ s) = elim (Bool-cases (c == b'/')) [
  | inl e ↦ rw e (is_empty-components s)
  | inr e ↦ rw e (keep-cons_head c (split b'/' s))
]

has_slash-only_slashes : (s : Str) → only_slashes s ≡ (has_slash s && all (λ c. c == b'/') s)
has_slash-only_slashes [] = refl
has_slash-only_slashes (c ∷ s) = ground arith

-- An empty rule comes of a text of slashes, and of no other.
any-dir_seqs :
    (l : List Str) → any is_empty (map components (keep has_slash l)) ≡ any only_slashes l
any-dir_seqs [] = refl
any-dir_seqs (s ∷ l) = elim (Bool-cases (has_slash s)) [
  | inl e ↦ rw (e, any-dir_seqs l, is_empty-components s, has_slash-only_slashes s) (rw e refl)
  | inr e ↦ rw (e, any-dir_seqs l, has_slash-only_slashes s) (rw e refl)
]

module _ (casing : Casing) where
  -- At the root, which has no components, the first empty rule is reached.
  any_within_root :
      (rules : List Seq) → any is_empty rules ≡ true → any_within casing [] rules ≡ none
  unfolding any_within
  any_within_root [] h = absurd (cc)
  any_within_root ([] ∷ rules) h = refl
  any_within_root ((s ∷ rule) ∷ rules) h = ground (arith, any_within_root rules h)

  NoneEmpty-any :
      (rules : List Seq) → any is_empty rules ≡ false → All (λ (rule : Seq). 1 ≤ length rule) rules
  NoneEmpty-any [] h = tt
  NoneEmpty-any ([] ∷ rules) h = absurd (cc)
  NoneEmpty-any ((s ∷ rule) ∷ rules) h = (omega arith, NoneEmpty-any rules h)

  nonempty_of : (rules : List Seq) → any is_empty rules ≡ true → is_empty rules ≡ false
  nonempty_of [] h = absurd (cc)
  nonempty_of (rule ∷ rules) h = refl

  seq_within_root :
      (r : Rules) → any is_empty r.dir_seqs ≡ true → seq_within casing r (codes "/") ≡ none
  unfolding seq_within lower_components components split
  seq_within_root r h =
      let some_there : is_empty r.dir_seqs ≡ false = nonempty_of r.dir_seqs h in
      rw (seq_within, some_there) (any_within_root r.dir_seqs h)

  -- With the rules of a set of options, `seq_within` answers at the root exactly if no excluded
  -- directory, in lower case, is slashes and nothing else, and panics otherwise; and if none is, it
  -- answers on every path.
  pub seq_within_panics :
      (windows : Bool) (opts : ScanOptions) (path : Str)
      → let lone = any only_slashes (map casing.str_lower opts.exclude_dirs) in
        let r = from_options windows casing opts in
        (is_some (seq_within casing r (codes "/")) ≡ not lone)
        × ((lone || is_some (seq_within casing r path)) ≡ true)
  unfolding from_options
  seq_within_panics windows opts path =
      let lower = map casing.str_lower opts.exclude_dirs in
      let r = from_options windows casing opts in
      elim (Bool-cases (any only_slashes lower)) [
        | inl lone ↦
            let root = seq_within_root r (any-dir_seqs lower ∙ lone) in
            (ap is_some root ∙ ap not (sym lone), rw lone refl)
        | inr none_lone ↦
            let full = NoneEmpty-any r.dir_seqs (any-dir_seqs lower ∙ none_lone) in
            let (b, e) = seq_within_total casing r path full in
            let (b', e') = seq_within_total casing r (codes "/") full in
            (ap is_some e' ∙ ap not (sym none_lone), rw none_lone (ap is_some e))
      ]
