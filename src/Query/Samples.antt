-- ===== src/Query/Samples.antt =====
-- A standard library for the tests of the query: ASCII letters and spaces, and whole numbers in
-- place of those with a fraction.
use scour.Prelude.{
  ℕ, ◌+◌, Bool, ◌&&◌, ◌||◌, none, [], ◌∷◌, ◌==◌, leb, if◌then◌else◌, ℤ, parse_i64, ◌*ℤ◌,
}
use scour.Core.Fold.{Std}

abbrev between : ℕ → ℕ → ℕ → Bool
between lo hi c = leb lo c && leb c hi

abbrev pub ascii : Std
ascii = record {
  to_lowercase = λ c. if between b'A' b'Z' c then (c + 32) ∷ [] else c ∷ [];
  is_alphabetic = λ c. between b'A' b'Z' c || between b'a' b'z' c;
  is_whitespace = λ c. c == 32 || between 9 13 c;
  F64 = ℤ;
  parse_f64 = parse_i64 10;
  from_i64 = λ z. z;
  times = λ a b. a *ℤ b;
  truncated = λ z. z;
  read_to_string = λ p. none;
}
