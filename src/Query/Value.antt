-- ===== src/Query/Value.antt =====
-- crates/scour-query/src/parse.rs and fields.rs: comparison operators and sizes.
use scour.Prelude.{
  ℕ, ◌*◌, ◌^◌, Option, none, some, List, [], ◌∷◌, Str, codes, strip_prefix, strip_suffix, trim_by,
  ℤ, pos,
}
use scour.Core.Ast.{Cmp, Match}
use scour.Core.Fold.{Std}

-- The operators in the order in which they are tried.
abbrev pub operators : List (Str × Cmp)
operators =
    (codes ">=", Cmp.ge)
    ∷ (codes "<=", Cmp.le)
    ∷ (codes ">", Cmp.gt)
    ∷ (codes "<", Cmp.lt)
    ∷ (codes "=", Cmp.eq)
    ∷ []

unfoldable pub split_by : List (Str × Cmp) → Str → Cmp × Str
unfolding strip_prefix
split_by [] v = (Cmp.ge, v)
split_by ((prefix, cmp) ∷ ops) v = elim (strip_prefix prefix v) [
  | some rest ↦ (cmp, rest)
  | none ↦ split_by ops v
]

unfoldable pub split_cmp : Str → Cmp × Str
unfolding split_by
split_cmp v = split_by operators v

-- The units in the order in which they are tried.
abbrev pub units : List (Str × ℕ)
units =
    (codes "tb", 1024 ^ 4)
    ∷ (codes "gb", 1024 ^ 3)
    ∷ (codes "mb", 1024 * 1024)
    ∷ (codes "kb", 1024)
    ∷ (codes "b", 1)
    ∷ []

unfoldable pub split_unit : List (Str × ℕ) → Str → Str × ℕ
unfolding strip_suffix
split_unit [] rest = (rest, 1)
split_unit ((suffix, mult) ∷ us) rest = elim (strip_suffix suffix rest) [
  | some n ↦ (n, mult)
  | none ↦ split_unit us rest
]

module _ (std : Std) where
  open std use {is_whitespace, F64, parse_f64, from_i64, times, truncated}

  abbrev pub trim : Str → Str
  trim = trim_by is_whitespace

  -- `(value * mult as f64) as i64`
  abbrev scaled : ℕ → Option F64 → Option ℤ
  scaled mult none = none
  scaled mult (some value) = some (truncated (times value (from_i64 (pos mult))))

  abbrev number_and_unit : Str × ℕ → Option ℤ
  number_and_unit (num, mult) = scaled mult (parse_f64 (trim num))

  unfoldable pub parse_size_value : Str → Option ℤ
  unfolding split_cmp split_unit
  parse_size_value v = number_and_unit (split_unit units (trim (split_cmp v).1))

  abbrev pub sized : Cmp → Option ℤ → Option Match
  sized cmp none = none
  sized cmp (some n) = some (Match.size cmp n)

  unfoldable pub parse_size : Str → Option Match
  unfolding split_cmp split_unit
  parse_size v = sized (split_cmp v).0 (number_and_unit (split_unit units (trim (split_cmp v).1)))
