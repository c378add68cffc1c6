-- ===== src/Query/Time.antt =====
-- crates/scour-query/src/time.rs: dates, without a calendar dependency.
pub mod Calendar
use scour.Prelude.{
  ℕ, ◌*◌, ◌+◌, Bool, true, false, not, ◌&&◌, ◌||◌, Option, none, some, List, [], ◌∷◌, Str, codes,
  member, split, parse_i64, is_empty, leb, ltb_ℤ, leb_ℤ, if◌then◌else◌, ℤ, pos, negsuc, ◌+ℤ◌, ◌-ℤ◌,
  ◌*ℤ◌, ◌/ℤ◌, ◌%ℤ◌, wrap_i64, in_i64, starts_char,
}
use scour.Core.Ast.{Cmp, TimeField, Match}
use scour.Core.Fold.{Std}
use scour.Query.Value.{split_cmp, trim}

abbrev pub hour : ℕ
hour = 3600

abbrev pub day : ℕ
day = 86400

-- Named windows, as the `match` lists them.
abbrev pub named_windows : List (List Str × ℕ)
named_windows =
    (codes "today" ∷ codes "bugun" ∷ codes "bugün" ∷ [], day)
    ∷ (codes "yesterday" ∷ codes "dun" ∷ codes "dün" ∷ [], 2 * day)
    ∷ (codes "week" ∷ codes "thisweek" ∷ codes "hafta" ∷ [], 7 * day)
    ∷ (codes "month" ∷ codes "thismonth" ∷ codes "ay" ∷ [], 30 * day)
    ∷ (codes "year" ∷ codes "thisyear" ∷ codes "yil" ∷ codes "yıl" ∷ [], 365 * day)
    ∷ []

abbrev pub time_units : List (List Str × ℕ)
time_units =
    (codes "h" ∷ codes "s" ∷ codes "saat" ∷ [], hour)
    ∷ (codes "d" ∷ codes "g" ∷ codes "gun" ∷ codes "gün" ∷ [], day)
    ∷ (codes "w" ∷ codes "hafta" ∷ [], 7 * day)
    ∷ (codes "m" ∷ codes "ay" ∷ [], 30 * day)
    ∷ (codes "y" ∷ codes "yil" ∷ codes "yıl" ∷ [], 365 * day)
    ∷ []

unfoldable pub named : Str → List (List Str × ℕ) → Option ℕ
named s [] = none
named s ((names, n) ∷ rows) = let rest = named s rows in if member s names then some n else rest

abbrev is_ascii_digit : ℕ → Bool
is_ascii_digit c = leb b'0' c && leb c b'9'

-- The digits that begin a text, and the rest.
unfoldable pub span_digits : Str → Str × Str
span_digits [] = ([], [])
span_digits (c ∷ s) =
    let (num, unit) = span_digits s in if is_ascii_digit c then (c ∷ num, unit) else ([], c ∷ s)

-- `n.checked_mul(mult)`
abbrev checked_mul : Option ℤ → Option ℕ → Option ℤ
checked_mul (some n) (some mult) = if in_i64 (n *ℤ pos mult) then some (n *ℤ pos mult) else none
checked_mul _ _ = none

abbrev window_of : Option ℕ → Str × Str → Option ℤ
window_of (some n) _ = some (pos n)
window_of none (num, unit) =
    if is_empty unit then none else checked_mul (parse_i64 10 num) (named unit time_units)

unfoldable pub relative_window : Str → Option ℤ
unfolding named span_digits parse_i64 ◌*ℤ◌
relative_window s = window_of (named s named_windows) (span_digits s)

-- Howard Hinnant's algorithm in the arithmetic of an optimised build, which wraps around: the
-- operands of a comparison, a division or a remainder each, and the sums and products after them once.
unfoldable pub days_from_civil : ℤ → ℤ → ℤ → ℤ
unfolding wrap_i64
days_from_civil y m d =
    let y = if leb_ℤ m (pos 2) then wrap_i64 (y -ℤ pos 1) else y in
    let era = (if leb_ℤ (pos 0) y then y else wrap_i64 (y -ℤ pos 399)) /ℤ 400 in
    let yoe = y -ℤ era *ℤ pos 400 in
    let mp = wrap_i64 (m +ℤ pos 9) %ℤ 12 in
    let doy = (pos 153 *ℤ mp +ℤ pos 2) /ℤ 5 +ℤ d -ℤ pos 1 in
    let doe = yoe *ℤ pos 365 +ℤ yoe /ℤ 4 -ℤ yoe /ℤ 100 +ℤ doy in
    wrap_i64 (era *ℤ pos 146097 +ℤ doe -ℤ pos 719468)

abbrev in_span : ℕ → ℕ → ℤ → Bool
in_span lo hi z = leb_ℤ (pos lo) z && leb_ℤ z (pos hi)

abbrev date_of : Option ℤ → Option ℤ → Option ℤ → Option ℤ
date_of (some y) (some mo) (some d) =
    if in_span 1 12 mo && in_span 1 31 d
    then some (wrap_i64 (days_from_civil y mo d *ℤ pos day))
    else none
date_of _ _ _ = none

-- Three pieces between the dashes, and no fourth.
abbrev three : List Str → Option ℤ
three (y ∷ mo ∷ d ∷ []) = date_of (parse_i64 10 y) (parse_i64 10 mo) (parse_i64 10 d)
three _ = none

unfoldable pub parse_iso_date : Str → Option ℤ
unfolding split parse_i64 days_from_civil wrap_i64
parse_iso_date s = three (split b'-' s)

-- `v.starts_with(['>', '<', '='])`
abbrev pub has_operator : Str → Bool
has_operator v = starts_char b'>' v || (starts_char b'<' v || starts_char b'=' v)

abbrev pub on_day : TimeField → Cmp → Option ℤ → Option Match
on_day field cmp none = none
on_day field cmp (some at) = some (Match.time field cmp at)

abbrev pub at_instant : TimeField → Str → Cmp → Str → ℤ → Option ℤ → Option Match
at_instant field v cmp rest now (some window) =
    some (Match.time field (if has_operator v then cmp else Cmp.ge) (wrap_i64 (now -ℤ window)))
at_instant field v cmp rest now none =
    on_day field (if has_operator v then cmp else Cmp.eq) (parse_iso_date rest)

abbrev pub instant_of : Option Match → Option ℤ
instant_of (some (Match.time _ _ at)) = some at
instant_of _ = none

module _ (std : Std) where
  unfoldable pub parse_time : TimeField → Str → ℤ → Option Match
  unfolding split_cmp relative_window parse_iso_date ◌-ℤ◌
  parse_time field v now =
      let (cmp, tail) = split_cmp v in
      let rest = trim std tail in
      if is_empty rest then none else at_instant field v cmp rest now (relative_window rest)

  unfoldable pub parse_time_value : Str → ℤ → Option ℤ
  unfolding parse_time
  parse_time_value v now = instant_of (parse_time TimeField.modified v now)
