-- ===== src/Prelude/Text.antt =====
-- Text as a list of code points, and the string operations of the standard library that the program
-- uses. A byte offset in the source always stands at a character boundary, so a slice is a split of
-- the list.
use Prim.Native.Nat.{ℕ, ◌+◌, ◌-◌, ◌*◌, compare, Ordering}
use Prim.Native.Char.{code}
use Prim.Native.String.{String}
use mathlib.Core.Path.{◌≡◌, refl}
use mathlib.Core.Logic.{inl, inr}
use mathlib.Core.Bool.{Bool, true, false, ◌&&◌, ◌||◌}
use mathlib.Core.Option.{Option, none, some}
use mathlib.Core.List.{List, [], ◌∷◌, ◌++◌, map}
use native.Mathlib.Omega.{arith}
use scour.Prelude.Tests.{Option-cases, ltb, leb, ◌==◌, if◌then◌else◌}
use scour.Prelude.Int.{ℤ, pos, sub_ℕ, in_i64}

abbrev pub Str : Type 0
Str = List ℕ

-- The code points of a literal.
abbrev pub codes : String → Str
codes String.[] = []
codes (String.◌∷◌ c s) = code c ∷ codes s

unfoldable pub str_eq : Str → Str → Bool
str_eq [] [] = true
str_eq (a ∷ s) (b ∷ t) = a == b && str_eq s t
str_eq _ _ = false

abbrev pub member : Str → List Str → Bool
member s [] = false
member s (t ∷ ts) = str_eq t s || member s ts

-- `strip_prefix`: what follows the prefix.
unfoldable pub strip_prefix : Str → Str → Option Str
strip_prefix [] s = some s
strip_prefix (a ∷ p) [] = none
strip_prefix (a ∷ p) (b ∷ s) = let rest = strip_prefix p s in if a == b then rest else none

abbrev pub is_some {ℓ} : {A : Type ℓ} → Option A → Bool
is_some none = false
is_some (some a) = true

abbrev pub starts_with : Str → Str → Bool
starts_with p s = is_some (strip_prefix p s)

-- `starts_with` and `ends_with` of one character.
abbrev pub starts_char : ℕ → Str → Bool
starts_char c [] = false
starts_char c (a ∷ s) = a == c

abbrev pub ends_char : ℕ → Str → Bool
ends_char c [] = false
ends_char c (a ∷ []) = a == c
ends_char c (a ∷ b ∷ s) = ends_char c (b ∷ s)

abbrev pub has_char : ℕ → Str → Bool
has_char c [] = false
has_char c (a ∷ s) = a == c || has_char c s

-- `strip_suffix`: what stands before the suffix.
unfoldable pub strip_suffix : Str → Str → Option Str
unfolding str_eq
strip_suffix p [] = if str_eq p [] then some [] else none
strip_suffix p (a ∷ s) =
    if str_eq p (a ∷ s)
    then some []
    else elim (strip_suffix p s) [ none ↦ none | some front ↦ some (a ∷ front) ]

-- `str::contains`
unfoldable pub contains : Str → Str → Bool
unfolding strip_prefix
contains [] t = starts_with t []
contains (c ∷ s) t = starts_with t (c ∷ s) || contains s t

-- `trim_start_matches` and `trim_end_matches` with a test on characters.
unfoldable pub trim_start : (ℕ → Bool) → Str → Str
trim_start p [] = []
trim_start p (a ∷ s) = let rest = trim_start p s in if p a then rest else a ∷ s

abbrev pub cons_unless_end : (ℕ → Bool) → ℕ → Str → Str
cons_unless_end p a [] = if p a then [] else a ∷ []
cons_unless_end p a (b ∷ s) = a ∷ b ∷ s

unfoldable pub trim_end : (ℕ → Bool) → Str → Str
trim_end p [] = []
trim_end p (a ∷ s) = cons_unless_end p a (trim_end p s)

abbrev pub trim_by : (ℕ → Bool) → Str → Str
trim_by p s = trim_end p (trim_start p s)

-- `replace` of one character by another, and the removal of a character.
abbrev pub replace_char : ℕ → ℕ → Str → Str
replace_char c d = map (λ a. if a == c then d else a)

unfoldable pub remove_char : ℕ → Str → Str
remove_char c [] = []
remove_char c (a ∷ s) = let rest = remove_char c s in if a == c then rest else a ∷ rest

-- `split` at a character: one piece more than there are separators.
abbrev pub cons_head : ℕ → List Str → List Str
cons_head a [] = (a ∷ []) ∷ []
cons_head a (p ∷ ps) = (a ∷ p) ∷ ps

unfoldable pub split : ℕ → Str → List Str
split c [] = [] ∷ []
split c (a ∷ s) = let rest = split c s in if a == c then [] ∷ rest else cons_head a rest

unfoldable pub join : Str → List Str → Str
join sep [] = []
join sep (p ∷ []) = p
join sep (p ∷ q ∷ ps) = p ++ (sep ++ join sep (q ∷ ps))

-- `split_once`: at the first place where the separator stands.
unfoldable pub split_once : Str → Str → Option (Str × Str)
unfolding strip_prefix
split_once sep [] = elim (strip_prefix sep []) [ none ↦ none | some rest ↦ some ([], rest) ]
split_once sep (a ∷ s) = elim (strip_prefix sep (a ∷ s)) [
  | some rest ↦ some ([], rest)
  | none ↦ elim (split_once sep s) [ none ↦ none | some (front, rest) ↦ some (a ∷ front, rest) ]
]

-- `str::parse::<i64>` and `i64::from_str_radix`: an optional sign, one digit at least, in range.
digit_value : ℕ → ℕ → Option ℕ
digit_value radix c = if leb b'0' c && ltb (c - b'0') radix then some (c - b'0') else none

digits_value : ℕ → ℕ → Str → Option ℕ
unfolding digit_value
digits_value radix acc [] = some acc
digits_value radix acc (c ∷ s) = elim (digit_value radix c) [
  | none ↦ none
  | some d ↦ digits_value radix (acc * radix + d) s
]

unsigned : ℕ → Str → Option ℕ
unfolding digits_value
unsigned radix [] = none
unsigned radix (c ∷ s) = digits_value radix 0 (c ∷ s)

in_range : Option ℤ → Option ℤ
in_range none = none
in_range (some z) = if in_i64 z then some z else none

signed : Bool → Option ℕ → Option ℤ
signed minus none = none
signed minus (some n) = some (if minus then sub_ℕ 0 n else pos n)

unfoldable pub parse_i64 : ℕ → Str → Option ℤ
unfolding unsigned in_range signed
parse_i64 radix [] = none
parse_i64 radix (c ∷ s) =
    if c == b'-'
    then in_range (signed true (unsigned radix s))
    else if c == b'+'
    then in_range (signed false (unsigned radix s))
    else in_range (signed false (unsigned radix (c ∷ s)))

-- `cmp` of strings, and of slices
unfoldable pub cmp_str : Str → Str → Ordering
cmp_str [] [] = Ordering.eq
cmp_str [] (b ∷ t) = Ordering.lt
cmp_str (a ∷ s) [] = Ordering.gt
cmp_str (a ∷ s) (b ∷ t) = elim (compare a b) [
  | Ordering.lt ↦ Ordering.lt
  | Ordering.gt ↦ Ordering.gt
  | Ordering.eq ↦ cmp_str s t
]

pub str_eq→eq : (s t : Str) → str_eq s t ≡ true → s ≡ t
unfolding str_eq
str_eq→eq [] [] h = refl
str_eq→eq [] (b ∷ t) h = ground arith
str_eq→eq (a ∷ s) [] h = ground arith
str_eq→eq (a ∷ s) (b ∷ t) h = ground (arith, str_eq→eq s t)

pub str_eq_refl : (s : Str) → str_eq s s ≡ true
unfolding str_eq
str_eq_refl [] = refl
str_eq_refl (a ∷ s) = ground (arith, str_eq_refl s)

pub strip_prefix-some : (p s rest : Str) → strip_prefix p s ≡ some rest → s ≡ p ++ rest
unfolding strip_prefix
strip_prefix-some [] s rest h = cc
strip_prefix-some (a ∷ p) [] rest h = absurd (cc)
strip_prefix-some (a ∷ p) (b ∷ s) rest h = ground (arith, strip_prefix-some p s rest)

-- What `contains` finds stands somewhere in the text.
pub contains-within :
    (s t : Str) → contains s t ≡ true → (front : Str) × (rest : Str) × (s ≡ front ++ (t ++ rest))
unfolding contains
contains-within [] t h = elim (Option-cases (strip_prefix t [])) [
  | inl e ↦ absurd (ground arith)
  | inr (rest, e) ↦ ([], rest, strip_prefix-some t [] rest e)
]
contains-within (c ∷ s) t h = elim (Option-cases (strip_prefix t (c ∷ s))) [
  | inl e ↦
      let (front, rest, same) = contains-within s t (ground arith) in
      (c ∷ front, rest, rw (← same) refl)
  | inr (rest, e) ↦ ([], rest, strip_prefix-some t (c ∷ s) rest e)
]
