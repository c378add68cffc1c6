-- ===== src/Query/Fields/Accepts.antt =====
-- crates/scour-query/src/fields.rs, `accepts`: the values that are shown as usable, and the parser.
use scour.Prelude.{
  ℕ, Bool, true, false, not, ◌≡◌, refl, sym, ◌∙◌, Option, none, some, List, [], ◌∷◌, ◌++◌, Str,
  codes, member, str_eq, is_empty, is_some, ℤ, All, All-append, All-get_elem?, get_elem?, any, all,
  map, split, trim_start, arith, ◌==◌, if◌then◌else◌,
}
use scour.Core.Ast.{Cmp, TimeField, Match}
use scour.Core.Fold.{Std, fold}
use scour.Core.Kind.{Kind, from_name}
use scour.Query.Fields.Table.{
  Takes, Field, fields, lookup, plain_fields, filesystem_fields, everything_fields, macro_fields,
}
use scour.Query.Value.{parse_size_value, parse_size, sized, split_cmp, trim}
use scour.Query.Time.{
  parse_time_value, parse_time, parse_iso_date, relative_window, at_instant, on_day, instant_of,
}
use scour.Query.Terms.{field_match, unless_empty, kinds_match}

module _ (std : Std) where
  unfoldable pub accepts : Field → Str → ℤ → Bool
  unfolding split trim_start
  accepts f folded now = elim f.takes [
    | Takes.nothing ↦ true
    | Takes.text ↦ not (is_empty folded)
    | Takes.path ↦ not (is_empty folded)
    | Takes.ext ↦
        any (λ e. not (is_empty e)) (map (trim_start (λ c. c == b'.')) (split b';' folded))
    | Takes.size ↦ is_some (parse_size_value std folded)
    | Takes.time ↦ is_some (parse_time_value std folded now)
    | Takes.kind ↦ is_some (from_name folded)
  ]

-- The fields whose condition `parse_alt` builds from the value alone, for every value that the
-- table's own test takes.
abbrev pub direct : List Str
direct =
    codes "ext"
    ∷ codes "path"
    ∷ codes "under"
    ∷ codes "parent"
    ∷ codes "file"
    ∷ codes "folder"
    ∷ codes "size"
    ∷ codes "kind"
    ∷ codes "dm"
    ∷ codes "dc"
    ∷ codes "da"
    ∷ codes "content"
    ∷ codes "suid"
    ∷ codes "sgid"
    ∷ codes "sticky"
    ∷ codes "ww"
    ∷ codes "regex"
    ∷ codes "case"
    ∷ []

abbrev found_as : Str → Option Field → Bool
found_as name none = false
found_as name (some f) = str_eq f.name name

-- Every name and every alias of the table leads to its own row: no spelling stands in two rows.
pub lookup-spellings :
    all (λ f. all (λ s. found_as f.name (lookup s)) (f.name ∷ f.aliases)) fields ≡ true
unfolding lookup
lookup-spellings = refl

true-not-false : ¬ (true ≡ false)
true-not-false e = absurd (ground arith)

is_some-if :
    (e : Bool) (a b : Option Match)
    → is_some (instant_of a) ≡ is_some b
    → is_some (instant_of (if e then none else a)) ≡ is_some (if e then none else b)
is_some-if true a b h = refl
is_some-if false a b h = h

instant_of-on_day :
    (field other : TimeField) (c d : Cmp) (o : Option ℤ)
    → is_some (instant_of (on_day field c o)) ≡ is_some (on_day other d o)
instant_of-on_day field other c d none = refl
instant_of-on_day field other c d (some at) = refl

instant_of-at_instant :
    (field other : TimeField) (v : Str) (c : Cmp) (rest : Str) (now : ℤ) (w : Option ℤ)
    → is_some (instant_of (at_instant field v c rest now w))
      ≡ is_some (at_instant other v c rest now w)
instant_of-at_instant field other v c rest now none =
    instant_of-on_day field other _ _ (parse_iso_date rest)
instant_of-at_instant field other v c rest now (some w) = refl

text_used : (t : Str) (m : Match) → not (is_empty t) ≡ true → is_some (unless_empty t m) ≡ true
text_used [] m h = absurd (ground arith)
text_used (c ∷ t) m h = refl

kinds_used : (o : Option (List Kind)) → is_some o ≡ true → is_some (kinds_match o) ≡ true
kinds_used none h = h
kinds_used (some ks) h = refl

module _ (std : Std) where
  sized-is_some : (c : Cmp) (o : Option ℤ) → is_some (sized std c o) ≡ is_some o
  sized-is_some c none = refl
  sized-is_some c (some n) = refl

  accepts_size : (v : Str) → is_some (parse_size_value std v) ≡ is_some (parse_size std v)
  unfolding parse_size_value parse_size
  accepts_size v = sym (sized-is_some _ _)

  accepts_time :
      (field : TimeField) (v : Str) (now : ℤ)
      → is_some (parse_time_value std v now) ≡ is_some (parse_time std field v now)
  unfolding parse_time_value parse_time
  accepts_time field v now =
      let cmp = (split_cmp v).0 in
      let rest = trim std (split_cmp v).1 in
      is_some-if (is_empty rest)
        (at_instant TimeField.modified v cmp rest now (relative_window rest))
        (at_instant field v cmp rest now (relative_window rest))
        (instant_of-at_instant TimeField.modified field v cmp rest now (relative_window rest))

  raw_used :
      (raw : Str) (m : Match)
      → not (is_empty (fold std raw)) ≡ true
      → is_some (unless_empty raw m) ≡ true
  unfolding fold
  raw_used [] m h = absurd (ground arith)
  raw_used (c ∷ s) m h = refl

  -- What the theorem says of one row.
  abbrev Used : Field → Type 0
  Used f =
      (raw : Str) (now : ℤ) (home : Option Str)
      → member f.name direct ≡ true
      → accepts std f (fold std raw) now ≡ true
      → is_some (field_match std f.name raw (fold std raw) now home) ≡ true

  plain-Used : All Used plain_fields
  unfolding accepts field_match
  plain-Used = (
    (λ raw now home d h. refl),
    (
      (λ raw now home d h. refl),
      (
        (λ raw now home d h. raw_used raw _ h),
        (
          (λ raw now home d h. raw_used raw _ h),
          (
            (λ raw now home d h. refl),
            (
              (λ raw now home d h. refl),
              (
                (λ raw now home d h. sym (accepts_size (fold std raw)) ∙ h),
                (
                  (λ raw now home d h. kinds_used (from_name (fold std raw)) h),
                  (
                    (λ raw now home d h.
                        sym (accepts_time TimeField.modified (fold std raw) now) ∙ h),
                    (
                      (λ raw now home d h.
                          sym (accepts_time TimeField.created (fold std raw) now) ∙ h),
                      (
                        (λ raw now home d h.
                            sym (accepts_time TimeField.accessed (fold std raw) now) ∙ h),
                        ((λ raw now home d h. text_used (fold std raw) _ h), tt),
                      ),
                    ),
                  ),
                ),
              ),
            ),
          ),
        ),
      ),
    ),
  )

  filesystem-Used : All Used filesystem_fields
  unfolding accepts field_match
  filesystem-Used = (
    (λ raw now home d h. absurd (true-not-false (sym d))),
    (
      (λ raw now home d h. absurd (true-not-false (sym d))),
      (
        (λ raw now home d h. refl),
        (
          (λ raw now home d h. refl),
          (
            (λ raw now home d h. refl),
            (
              (λ raw now home d h. refl),
              (
                (λ raw now home d h. absurd (true-not-false (sym d))),
                (
                  (λ raw now home d h. absurd (true-not-false (sym d))),
                  (
                    (λ raw now home d h. absurd (true-not-false (sym d))),
                    ((λ raw now home d h. text_used (fold std raw) _ h), tt),
                  ),
                ),
              ),
            ),
          ),
        ),
      ),
    ),
  )

  everything-Used : All Used everything_fields
  unfolding accepts field_match
  everything-Used = (
    (λ raw now home d h. absurd (true-not-false (sym d))),
    (
      (λ raw now home d h. absurd (true-not-false (sym d))),
      (
        (λ raw now home d h. absurd (true-not-false (sym d))),
        (
          (λ raw now home d h. absurd (true-not-false (sym d))),
          ((λ raw now home d h. raw_used raw _ h), tt),
        ),
      ),
    ),
  )

  macros-Used : All Used macro_fields
  unfolding accepts field_match
  macros-Used = (
    (λ raw now home d h. absurd (true-not-false (sym d))),
    (
      (λ raw now home d h. absurd (true-not-false (sym d))),
      (
        (λ raw now home d h. absurd (true-not-false (sym d))),
        (
          (λ raw now home d h. absurd (true-not-false (sym d))),
          (
            (λ raw now home d h. absurd (true-not-false (sym d))),
            ((λ raw now home d h. absurd (true-not-false (sym d))), tt),
          ),
        ),
      ),
    ),
  )

  fields-Used : All Used fields
  fields-Used =
      All-append Used plain_fields (filesystem_fields ++ (everything_fields ++ macro_fields))
        plain-Used
        (All-append Used filesystem_fields (everything_fields ++ macro_fields) filesystem-Used
          (All-append Used everything_fields macro_fields everything-Used macros-Used))

  -- Where `accepts` takes a value for one of the `direct` fields of the table, the field gives a condition
  -- for it, whatever the clock and the home are.
  pub field_match-accepts :
      (i : ℕ) (f : Field) (raw : Str) (now : ℤ) (home : Option Str)
      → get_elem? fields i ≡ some f
      → member f.name direct ≡ true
      → accepts std f (fold std raw) now ≡ true
      → is_some (field_match std f.name raw (fold std raw) now home) ≡ true
  field_match-accepts i f raw now home e = All-get_elem? Used fields i f fields-Used e raw now home
