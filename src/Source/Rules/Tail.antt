-- ===== src/Source/Rules/Tail.antt =====
-- crates/scour-source-fs/src/rules.rs: `allows`, read from the end of the path and from its whole.
use scour.Prelude.{
  ℕ, ◌+◌, ◌-◌, ◌≤◌, ◌<◌, ◌≡◌, refl, Bool, true, false, ◌||◌, List, [], ◌∷◌, ◌++◌, length, take,
  drop, map, reverse, All, arith, sym, ◌∙◌, ap, leb, ltb, min, any, Bool-cases, inl, inr, Str,
  str_eq, is_empty, length-take-min, take-length, length-map,
}
use mathlib.Core.List.{reverse-cons, map-append}
use scour.Core.Prefix.{under}
use scour.Source.Rules.{
  Casing, Seq, Rules, components, seq_eq, all_zip, seq_matches, tail_matches, fold_chars,
  lower_components, eq_folded, longest, tail_of, allows, max_tail,
}
use scour.Source.Rules.Lists.{
  seq_eq-reverse, length-reverse, length-drop, take-drop-take, take-drop-reverse, map-take,
  map-drop, all_zip-seq_eq,
}

map-reverse {ℓ κ} :
    {A : Type ℓ} {B : Type κ} (f : A → B) (l : List A) → map f (reverse l) ≡ reverse (map f l)
map-reverse f [] = refl
map-reverse f (a ∷ l) =
    ap (map f) (reverse-cons a l)
    ∙ map-append f (reverse l) (a ∷ [])
    ∙ ap (λ t. t ++ (f a ∷ [])) (map-reverse f l)
    ∙ sym (reverse-cons (f a) (map f l))

any_empty {ℓ} : {A : Type ℓ} (p : A → Bool) (l : List A) → is_empty l ≡ true → any p l ≡ false
any_empty p [] h = refl
any_empty p (x ∷ l) h = absurd (cc)

module _ (casing : Casing) where
  open casing use {str_lower}

  -- Lower case, letter by letter, is lower case: no letter of the component asks what is around it.
  abbrev pub ByLetters : Str → Type 0
  ByLetters c = fold_chars casing c ≡ str_lower c

  lowered :
      (comps : Seq) → All ByLetters comps → map (fold_chars casing) comps ≡ map str_lower comps
  lowered [] h = refl
  lowered (c ∷ comps) (p, h) = rw (p, lowered comps h) refl

  module _ (comps : Seq) (letters : All ByLetters comps) (k : ℕ) (rule : Seq) where
    abbrev lower : Seq
    lower = map str_lower comps

    piece :
        (from : ℕ)
        → from + length rule ≤ length comps
        → from + length rule ≤ k
        → all_zip
            (λ s c. str_eq (fold_chars casing c) s)
            (reverse rule)
            (drop from (take k (reverse comps)))
          ≡ seq_eq (take (length rule) (drop (length comps - from - length rule) lower)) rule
    piece from fits short =
        let f = fold_chars casing in
        let l : ℕ = length rule in
        let tail : Seq = drop from (take k (reverse comps)) in
        let size : length tail ≡ length (take k (reverse comps)) - from =
          length-drop from (take k (reverse comps)) in
        let long : l ≤ length tail =
          omega (arith, size, length-take-min k (reverse comps), length-reverse comps) in
        let back : length (reverse rule) ≡ l = length-reverse rule in
        let images : take l (map f tail) ≡ reverse (take l (drop (length comps - from - l) lower)) =
          sym (map-take f l tail)
          ∙ ap (map f) (take-drop-take l from k (reverse comps) short)
          ∙ map-take f l (drop from (reverse comps))
          ∙ ap (take l) (map-drop f from (reverse comps))
          ∙ ap (λ t. take l (drop from t))
              (map-reverse f comps ∙ ap reverse (lowered comps letters))
          ∙ take-drop-reverse l from lower (omega (arith, length-map str_lower comps))
          ∙ ap (λ n. reverse (take l (drop (n - from - l) lower))) (length-map str_lower comps) in
        all_zip-seq_eq f (reverse rule) tail (omega (arith, back))
        ∙ ap (λ n. seq_eq (take n (map f tail)) (reverse rule)) back
        ∙ ap (λ t. seq_eq t (reverse rule)) images
        ∙ seq_eq-reverse (take l (drop (length comps - from - l) lower)) rule

    -- The components that are named are the last ones.
    at_end :
        length rule ≤ length comps
        → length rule < k
        → all_zip (λ s c. str_eq (fold_chars casing c) s) (reverse rule) (take k (reverse comps))
          ≡ seq_eq (drop (length comps - length rule) lower) rule
    at_end fits short =
        let start : length comps - 0 - length rule ≡ length comps - length rule = omega arith in
        piece 0 (omega arith) (omega arith)
        ∙ ap (λ n. seq_eq (take (length rule) (drop n lower)) rule) start
        ∙ ap (λ t. seq_eq t rule)
            (take-length (length rule) (drop (length comps - length rule) lower) (
              omega (
                arith,
                length-drop (length comps - length rule) lower,
                length-map str_lower comps,
              )))

    pub tail_matches-seq_matches :
        (is_dir : Bool)
        → length rule < k
        → tail_matches casing (take k (reverse comps)) is_dir rule
          ≡ seq_matches casing lower is_dir rule
    unfolding tail_matches seq_matches eq_folded
    tail_matches-seq_matches is_dir short =
        let size : length (take k (reverse comps)) ≡ min k (length comps) =
          omega (arith, length-take-min k (reverse comps), length-reverse comps) in
        let whole : length lower ≡ length comps = length-map str_lower comps in
        let enough : leb (length rule) (length (take k (reverse comps)))
            ≡ leb (length rule) (length comps) =
          ground arith in
        let more : ltb (length rule) (length (take k (reverse comps)))
            ≡ ltb (length rule) (length comps) =
          ground arith in
        rw (enough, more, whole)
          (elim (Bool-cases (leb (length rule) (length comps))) [
            | inr e ↦
                let none_more : ltb (length rule) (length comps) ≡ false = ground arith in
                rw (e, none_more) refl
            | inl e ↦ elim (Bool-cases (ltb (length rule) (length comps))) [
              | inr g ↦ rw (e, g, at_end (ground arith) short) refl
              | inl g ↦
                  rw (e, g, at_end (ground arith) short, piece 1 (ground arith) (omega arith)) refl
            ]
          ])

  any-tail_matches :
      (comps : Seq) (is_dir : Bool) (k : ℕ) (rules : List Seq)
      → All ByLetters comps
      → longest rules < k
      → any (tail_matches casing (take k (reverse comps)) is_dir) rules
        ≡ any (seq_matches casing (map str_lower comps) is_dir) rules
  unfolding longest
  any-tail_matches comps is_dir k [] letters h = refl
  any-tail_matches comps is_dir k (rule ∷ rules) letters h =
      rw
        (
          tail_matches-seq_matches comps letters k rule is_dir (omega arith),
          any-tail_matches comps is_dir k rules letters (omega arith),
        )
        refl

  -- However deep the rules are, a path is taken back if it is under an allowed path, or if a
  -- sequence stands at its end, or, for what is no directory, just before its last component; for a
  -- path whose letters lower one by one.
  pub allows_lem :
      (r : Rules) (path : Str) (is_dir : Bool)
      → All ByLetters (components path)
      → allows casing r path is_dir ≡ (
          any (under path) r.allow
          || any (seq_matches casing (lower_components casing path) is_dir) r.allow_seqs)
  unfolding allows lower_components tail_of
  allows_lem r path is_dir letters =
      let k : ℕ = longest r.allow_seqs + 1 in
      let same = any-tail_matches (components path) is_dir k r.allow_seqs letters (omega arith) in
      elim (Bool-cases (any (under path) r.allow)) [
        | inl e ↦ rw e refl
        | inr e ↦ elim (Bool-cases (is_empty r.allow_seqs)) [
          | inl none_there ↦
              let nothing =
                any_empty (seq_matches casing (map str_lower (components path)) is_dir) r.allow_seqs
                  none_there in
              rw (e, none_there, nothing) refl
          | inr some_there ↦ elim (Bool-cases (ltb max_tail k)) [
            | inl deep ↦ rw (e, some_there, deep) refl
            | inr flat ↦ rw (e, some_there, flat, same) refl
          ]
        ]
      ]
