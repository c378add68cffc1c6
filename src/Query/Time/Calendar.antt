-- ===== src/Query/Time/Calendar.antt =====
-- crates/scour-query/src/time.rs, `days_from_civil`: the formula and the days of the calendar.
use scour.Prelude.{
  ℕ, zero, suc, ◌+◌, ◌-◌, ◌*◌, ◌/◌, ◌%◌, ◌≤◌, ◌<◌, ◌≡◌, refl, sym, ◌∙◌, ap, Bool, not, ◌&&◌, ◌||◌,
  List, [], ◌∷◌, leb, if◌then◌else◌, take, arith, ◌==◌, ==_iff, Bool-cases, inl, inr, subst, pos,
  sub_ℕ, ◌+ℤ◌, ◌-ℤ◌, ◌*ℤ◌, ◌/ℤ◌, ◌%ℤ◌, leb_ℤ, ◌^◌, wrap_i64,
}
use scour.Query.Time.{days_from_civil}

-- The calendar, year by year and month by month.
abbrev pub is_leap : ℕ → Bool
is_leap y = y % 4 == 0 && (not (y % 100 == 0) || y % 400 == 0)

abbrev pub leap_day : ℕ → ℕ
leap_day y = if is_leap y then 1 else 0

-- The days before the first of January.
unfoldable pub year_start : ℕ → ℕ
year_start zero = 0
year_start (suc y) = year_start y + 365 + leap_day y

abbrev pub month_lengths : ℕ → List ℕ
month_lengths y = 31 ∷ (28 + leap_day y) ∷ 31 ∷ 30 ∷ 31 ∷ 30 ∷ 31 ∷ 31 ∷ 30 ∷ 31 ∷ 30 ∷ 31 ∷ []

abbrev pub sum : List ℕ → ℕ
sum [] = 0
sum (n ∷ ns) = n + sum ns

-- The days from the first of January of the year 0 to a date.
unfoldable pub day_number : ℕ → ℕ → ℕ → ℕ
unfolding year_start
day_number y m d = year_start y + sum (take (m - 1) (month_lengths y)) + (d - 1)

year_start-closed :
    (y : ℕ) → year_start y + (y + 99) / 100 ≡ 365 * y + (y + 3) / 4 + (y + 399) / 400
unfolding year_start
year_start-closed zero = refl
year_start-closed (suc y) = ground (arith, year_start-closed y)

-- The formula over natural numbers, for a year that begins in March.
march_days : ℕ → ℕ → ℕ → ℕ
march_days y mp d =
    y / 400 * 146097
    + ((y - y / 400 * 400) * 365
        + (y - y / 400 * 400) / 4
        - (y - y / 400 * 400) / 100
        + ((153 * mp + 2) / 5 + d - 1))

plus-pos : (a b : ℕ) → pos a +ℤ pos b ≡ pos (a + b)
unfolding ◌+ℤ◌
plus-pos a b = ground arith

minus-pos : (a b : ℕ) → b ≤ a → pos a -ℤ pos b ≡ pos (a - b)
unfolding ◌-ℤ◌
minus-pos a b h = ground arith

times-pos : (a b : ℕ) → pos a *ℤ pos b ≡ pos (a * b)
unfolding ◌*ℤ◌
times-pos a b = ground arith

div-pos : (a n : ℕ) → 0 / n ≡ 0 → pos a /ℤ n ≡ pos (a / n)
unfolding ◌/ℤ◌
div-pos a n z = rw (z) (ground arith)

mod-pos : (a n : ℕ) → 0 % n ≡ 0 → pos a %ℤ n ≡ pos (a % n)
unfolding ◌%ℤ◌
mod-pos a n z = rw (z) (ground arith)

sub_ℕ-shift : (a b k : ℕ) → sub_ℕ (a + k) (b + k) ≡ sub_ℕ a b
sub_ℕ-shift a b k = ground arith

wrap-pos : (n : ℕ) → n < 2 ^ 63 → wrap_i64 (pos n) ≡ pos n
unfolding wrap_i64
wrap-pos n h = ground arith

wrap-difference : (a b : ℕ) → a < 2 ^ 63 → b < 2 ^ 63 → wrap_i64 (pos a -ℤ pos b) ≡ pos a -ℤ pos b
unfolding wrap_i64 ◌-ℤ◌
wrap-difference a b h k = ground arith

-- The year that begins in March, and its number in the formula.
march_year : ℕ → ℕ → ℕ
march_year y m = if leb m 2 then y - 1 else y

shifted_year :
    (y m : ℕ)
    → 1 ≤ y
    → y < 2 ^ 63
    → (if leb_ℤ (pos m) (pos 2) then wrap_i64 (pos y -ℤ pos 1) else pos y) ≡ pos (march_year y m)
unfolding march_year ◌-ℤ◌
shifted_year y m h small = ground (arith, wrap-difference y 1 small (omega arith))

era_year : (n : ℕ) → (if leb_ℤ (pos 0) (pos n) then pos n else wrap_i64 (pos n -ℤ pos 399)) ≡ pos n
era_year n = ground arith

year_of_era : (n : ℕ) → pos n -ℤ pos (n / 400) *ℤ pos 400 ≡ pos (n - n / 400 * 400)
year_of_era n = rw (times-pos (n / 400) 400) (minus-pos n (n / 400 * 400) (omega arith))

day_of_year :
    (m d : ℕ)
    → m ≤ 12
    → 1 ≤ d
    → (pos 153 *ℤ (wrap_i64 (pos m +ℤ pos 9) %ℤ 12) +ℤ pos 2) /ℤ 5 +ℤ pos d -ℤ pos 1
      ≡ pos ((153 * ((m + 9) % 12) + 2) / 5 + d - 1)
day_of_year m d b k =
    rw
      (
        plus-pos m 9,
        wrap-pos (m + 9) (omega arith),
        mod-pos (m + 9) 12 refl,
        times-pos 153 ((m + 9) % 12),
        plus-pos (153 * ((m + 9) % 12)) 2,
        div-pos (153 * ((m + 9) % 12) + 2) 5 refl,
        plus-pos ((153 * ((m + 9) % 12) + 2) / 5) d,
      )
      (minus-pos ((153 * ((m + 9) % 12) + 2) / 5 + d) 1 (omega arith))

day_of_era :
    (n doy : ℕ)
    → pos n *ℤ pos 365 +ℤ pos n /ℤ 4 -ℤ pos n /ℤ 100 +ℤ pos doy
      ≡ pos (n * 365 + n / 4 - n / 100 + doy)
day_of_era n doy = rw (
  times-pos n 365,
  div-pos n 4 refl,
  div-pos n 100 refl,
  plus-pos (n * 365) (n / 4),
  minus-pos (n * 365 + n / 4) (n / 100) (omega arith),
  plus-pos (n * 365 + n / 4 - n / 100) doy,
)

march_days-closed :
    (n mp d : ℕ)
    → 1 ≤ d
    → march_days n mp d + n / 100 ≡ 365 * n + n / 4 + n / 400 + (153 * mp + 2) / 5 + d - 1
unfolding march_days
march_days-closed n mp d k = omega arith

march_days_small :
    (y m d : ℕ)
    → y ≤ 25_000_000_000_000_000
    → m ≤ 12
    → 1 ≤ d
    → d ≤ 31
    → march_days (march_year y m) ((m + 9) % 12) d < 2 ^ 63
unfolding march_year
march_days_small y m d small b k short =
    ground
      (arith, march_days-closed y ((m + 9) % 12) d k, march_days-closed (y - 1) ((m + 9) % 12) d k)

days_from_civil-march :
    (y m d : ℕ)
    → 1 ≤ y
    → y ≤ 25_000_000_000_000_000
    → m ≤ 12
    → 1 ≤ d
    → d ≤ 31
    → days_from_civil (pos y) (pos m) (pos d)
      ≡ pos (march_days (march_year y m) ((m + 9) % 12) d) -ℤ pos 719468
unfolding days_from_civil march_days
days_from_civil-march y m d h small b k short =
    rw
      (
        shifted_year y m h (omega arith),
        era_year (march_year y m),
        div-pos (march_year y m) 400 refl,
        year_of_era (march_year y m),
        day_of_year m d b k,
        day_of_era (march_year y m - march_year y m / 400 * 400)
            ((153 * ((m + 9) % 12) + 2) / 5 + d - 1),
        times-pos (march_year y m / 400) 146097,
      )
      (ap (λ z. wrap_i64 (z -ℤ pos 719468))
          (plus-pos (march_year y m / 400 * 146097) _ ∙ ap pos (omega arith))
        ∙ wrap-difference (march_days (march_year y m) ((m + 9) % 12) d) 719468
            (march_days_small y m d small b k short) (omega arith))

-- A statement on the numbers from `base` on, one by one.
abbrev EachFrom : (ℕ → Type 0) → ℕ → ℕ → Type 0
EachFrom P base zero = Unit
EachFrom P base (suc n) = P base × EachFrom P (suc base) n

each_from : (P : ℕ → Type 0) (base n m : ℕ) → EachFrom P base n → base ≤ m → m < base + n → P m
each_from P base zero m h l u = absurd (omega arith)
each_from P base (suc n) m (p, h) l u = elim (Bool-cases (m == base)) [
  | inl e ↦ subst P (sym ((==_iff m base).0 e)) p
  | inr e ↦ each_from P (suc base) n m h (ground arith) (omega arith)
]

march_days-day_number :
    (y m d : ℕ)
    → 1 ≤ y
    → 1 ≤ m
    → m ≤ 12
    → 1 ≤ d
    → march_days (march_year y m) ((m + 9) % 12) d + 60 ≡ day_number y m d
unfolding day_number march_year
march_days-day_number y m d h a b k =
    each_from (λ i. march_days (march_year y i) ((i + 9) % 12) d + 60 ≡ day_number y i d) 1 12 m
      (
        ground (arith, march_days-closed (y - 1) 10 d k, year_start-closed y),
        (
          ground (arith, march_days-closed (y - 1) 11 d k, year_start-closed y),
          (
            ground (arith, march_days-closed y 0 d k, year_start-closed y),
            (
              ground (arith, march_days-closed y 1 d k, year_start-closed y),
              (
                ground (arith, march_days-closed y 2 d k, year_start-closed y),
                (
                  ground (arith, march_days-closed y 3 d k, year_start-closed y),
                  (
                    ground (arith, march_days-closed y 4 d k, year_start-closed y),
                    (
                      ground (arith, march_days-closed y 5 d k, year_start-closed y),
                      (
                        ground (arith, march_days-closed y 6 d k, year_start-closed y),
                        (
                          ground (arith, march_days-closed y 7 d k, year_start-closed y),
                          (
                            ground (arith, march_days-closed y 8 d k, year_start-closed y),
                            (ground (arith, march_days-closed y 9 d k, year_start-closed y), tt),
                          ),
                        ),
                      ),
                    ),
                  ),
                ),
              ),
            ),
          ),
        ),
      )
      a (omega arith)

-- For a year from 1 to 25 * 10 ^ 15, a month and a day from 1 to 31, `days_from_civil` is the number
-- of days from the first of January 1970 in the calendar with its leap years.
pub days_from_civil_lem :
    (y m d : ℕ)
    → 1 ≤ y
    → y ≤ 25_000_000_000_000_000
    → 1 ≤ m
    → m ≤ 12
    → 1 ≤ d
    → d ≤ 31
    → days_from_civil (pos y) (pos m) (pos d) ≡ pos (day_number y m d) -ℤ pos (day_number 1970 1 1)
unfolding ◌-ℤ◌ day_number
days_from_civil_lem y m d h small a b k short =
    days_from_civil-march y m d h small b k short
    ∙ ground (arith, march_days-day_number y m d h a b k)
