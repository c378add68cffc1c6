-- ===== src/Index/Plan/Filter.antt =====
-- crates/scour-index-native/src/search.rs: `filterable`.
use scour.Prelude.{
  ℕ, ◌≡◌, refl, Bool, true, false, Option, none, some, List, [], ◌∷◌, ◌++◌, leb, Str, strip_prefix,
  starts_with, contains, is_empty, str_eq, str_eq→eq, All, arith, Bool-cases, inl, inr,
  Option-cases, is_yes, ap, sym, ◌∙◌, subst,
}
use scour.Core.Ast.{Match}
use scour.Core.Entry.{rsplit_char}
use scour.Core.Entry.Names.{IsCut, rsplit_char-IsCut}
use scour.Core.Fold.{byte_len}
use scour.Query.Glob.{glob_matches}
use scour.Query.Glob.Matches.{Matches}
use scour.Query.Glob.Laws.{glob_matches_iff}
use scour.Index.Plan.{
  Test, evaluate, filterable, runs, longest_run, is_wild, to_head, extension, folded_extension,
  extension_is_eligible,
}

abbrev Within : Str → Str → Type 0
Within name run = contains name run ≡ true

abbrev Begins : Str → Str → Type 0
Begins name run = starts_with run name ≡ true

is_yes-some : (o : Option Bool) → is_yes o ≡ true → o ≡ some true
is_yes-some none h = absurd (cc)
is_yes-some (some b) h = ap some h

-- The first run begins the name, and the others are in it.
abbrev Runs : Str → List Str → Type 0
Runs name [] = Unit
Runs name (r ∷ rs) = Begins name r × All (Within name) rs

empty-Begins : (name : Str) → Begins name []
unfolding strip_prefix
empty-Begins name = refl

Begins-Within : (name run : Str) → Begins name run → Within name run
unfolding contains
Begins-Within [] run h = h
Begins-Within (c ∷ name) run h = ground arith

Within-cons : (c : ℕ) (name run : Str) → Within name run → Within (c ∷ name) run
unfolding contains
Within-cons c name run h = ground arith

All-cons : (c : ℕ) (name : Str) (rs : List Str) → All (Within name) rs → All (Within (c ∷ name)) rs
All-cons c name [] h = tt
All-cons c name (r ∷ rs) (p, h) = (Within-cons c name r p, All-cons c name rs h)

Runs-All : (name : Str) (rs : List Str) → Runs name rs → All (Within name) rs
Runs-All name [] h = tt
Runs-All name (r ∷ rs) (p, h) = (Begins-Within name r p, h)

Begins-cons : (c : ℕ) (name run : Str) → Begins name run → Begins (c ∷ name) (c ∷ run)
unfolding strip_prefix
Begins-cons c name run h = ground arith

to_head-Runs : (c : ℕ) (name : Str) (rs : List Str) → Runs name rs → Runs (c ∷ name) (to_head c rs)
to_head-Runs c name [] h = (Begins-cons c name [] (empty-Begins name), tt)
to_head-Runs c name (r ∷ rs) (p, h) = (Begins-cons c name r p, All-cons c name rs h)

runs_wild : (a : ℕ) (p : Str) → is_wild a ≡ true → runs (a ∷ p) ≡ [] ∷ runs p
unfolding runs
runs_wild a p h = rw h refl

runs_plain : (a : ℕ) (p : Str) → is_wild a ≡ false → runs (a ∷ p) ≡ to_head a (runs p)
unfolding runs
runs_plain a p h = rw h refl

-- Every run between the wildcards of a pattern is in every name that it matches.
Matches-Runs : {p name : Str} → Matches p name → Runs name (runs p)
Matches-Runs Matches.done = unfold runs in (empty-Begins [], tt)
Matches-Runs (Matches.skip {a} {p} {t} e d) =
    subst (Runs t) (sym (runs_wild a p (ground arith)))
      (empty-Begins t, Runs-All t (runs p) (Matches-Runs d))
Matches-Runs (Matches.eat {a} {c} {p} {t} e d) =
    let wild = runs_wild a p (ground arith) in
    let (h, rest) = subst (Runs t) wild (Matches-Runs d) in
    subst (Runs (c ∷ t)) (sym wild) (empty-Begins (c ∷ t), All-cons c t (runs p) rest)
Matches-Runs (Matches.any_one {a} {c} {p} {t} e d) =
    subst (Runs (c ∷ t)) (sym (runs_wild a p (ground arith)))
      (empty-Begins (c ∷ t), All-cons c t (runs p) (Runs-All t (runs p) (Matches-Runs d)))
Matches-Runs (Matches.same {a} {c} {p} {t} n m e d) =
    subst (Runs (c ∷ t)) (sym (runs_plain a p (ground arith) ∙ ap (λ x. to_head x (runs p)) e))
      (to_head-Runs c t (runs p) (Matches-Runs d))

longest_run-Within :
    (name best : Str) (rs : List Str)
    → Within name best
    → All (Within name) rs
    → Within name (longest_run best rs)
unfolding longest_run
longest_run-Within name best [] h all = h
longest_run-Within name best (r ∷ rs) h (p, all) =
    elim (Bool-cases (leb (byte_len best) (byte_len r))) [
      | inl e ↦ rw e (longest_run-Within name r rs p all)
      | inr e ↦ rw e (longest_run-Within name best rs h all)
    ]

Begins-itself : (x : Str) → Begins x x
unfolding strip_prefix
Begins-itself [] = refl
Begins-itself (a ∷ x) = ground (arith, Begins-itself x)

suffix-Within : (stem x : Str) → Within (stem ++ x) x
suffix-Within [] x = Begins-Within x x (Begins-itself x)
suffix-Within (a ∷ stem) x = Within-cons a (stem ++ x) x (suffix-Within stem x)

-- The last dot and what follows it are in the name.
extension-Within :
    (name e : Str) → is_empty (extension name) ≡ false → extension name ≡ e → Within name (b'.' ∷ e)
unfolding extension
extension-Within name e some_there same = elim (Option-cases (rsplit_char b'.' name)) [
  | inl h ↦ absurd (ground arith)
  | inr ((stem, x), h) ↦
      let cut : IsCut b'.' name (some (stem, x)) =
        subst (IsCut b'.' name) h (rsplit_char-IsCut b'.' name) in
      let is : x ≡ e = ground arith in
      let whole : name ≡ stem ++ (b'.' ∷ e) = cut.0 ∙ ap (λ t. stem ++ (b'.' ∷ t)) is in
      subst (λ n. Within n (b'.' ∷ e)) (sym whole) (suffix-Within stem (b'.' ∷ e))
]

ext-Within :
    (spelled name only : Str)
    → is_empty (folded_extension spelled name) ≡ false
    → str_eq only (folded_extension spelled name) ≡ true
    → Within name (b'.' ∷ only)
unfolding folded_extension
ext-Within spelled name only some_there same = elim (Bool-cases (extension_is_eligible spelled)) [
  | inr e ↦ absurd (ground arith)
  | inl e ↦
      let full : is_empty (extension name) ≡ false = ground arith in
      let asked : str_eq only (extension name) ≡ true = ground arith in
      extension-Within name only full (sym (str_eq→eq only (extension name) asked))
]

-- A name that passes a test contains what the test is filtered by, where it is filtered: over-narrowing
-- would lose files.
pub filterable-Within :
    (rest : Match → Bool) (spelled name : Str) (is_dir : Bool) (test : Test) (needle : Str)
    → evaluate rest spelled name is_dir test ≡ true
    → filterable test ≡ some needle
    → contains name needle ≡ true
unfolding filterable evaluate
filterable-Within rest spelled name is_dir (Test.name_has n) needle h e = ground arith
filterable-Within rest spelled name is_dir (Test.ext [] dirs) needle h e = absurd (cc)
filterable-Within rest spelled name is_dir (Test.ext (only ∷ []) dirs) needle h e =
    let same : (b'.' ∷ only) ≡ needle = cc in
    ap (contains name) (sym same) ∙ ext-Within spelled name only (ground arith) (ground arith)
filterable-Within rest spelled name is_dir (Test.ext (x ∷ y ∷ list) dirs) needle h e = absurd (cc)
filterable-Within rest spelled name is_dir (Test.name_glob p) needle h e =
    let yes : glob_matches p name ≡ some true = is_yes-some (glob_matches p name) h in
    let matching : Matches p name = (glob_matches_iff p name).1.0 yes in
    let inside = Runs-All name (runs p) (Matches-Runs matching) in
    let longest =
      longest_run-Within name [] (runs p) (Begins-Within name [] (empty-Begins name)) inside in
    elim (Bool-cases (leb 3 (byte_len (longest_run [] (runs p))))) [
      | inl long ↦
          let same : longest_run [] (runs p) ≡ needle = ground arith in
          ap (contains name) (sym same) ∙ longest
      | inr short ↦ absurd (ground arith)
    ]
filterable-Within rest spelled name is_dir (Test.other m) needle h e = absurd (cc)
