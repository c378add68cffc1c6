-- ===== src/Prelude/Int.antt =====
-- Signed integers over the native numbers, under the library's names: exact ℤ, and the wrap-around
-- of a 64-bit word written out.
use Prim.Native.Nat.{ℕ, suc, ◌+◌, ◌-◌, ◌*◌, ◌/◌, ◌%◌, ◌^◌}
use mathlib.Core.Bool.{Bool, ◌&&◌}
use scour.Prelude.Tests.{ltb, leb, ◌==◌, if◌then◌else◌}

-- `negsuc n` is -(n + 1).
pub data ℤ : Type 0 where
  pos : ℕ → ℤ
  negsuc : ℕ → ℤ

abbrev pub pos_part : ℤ → ℕ
pos_part (pos n) = n
pos_part (negsuc n) = 0

abbrev pub neg_part : ℤ → ℕ
neg_part (pos n) = 0
neg_part (negsuc n) = suc n

-- a - b, as an integer.
abbrev pub sub_ℕ : ℕ → ℕ → ℤ
sub_ℕ a b = if leb b a then pos (a - b) else negsuc (b - a - 1)

infixl 65 ◌+ℤ◌ ◌-ℤ◌
infixl 70 ◌*ℤ◌ ◌/ℤ◌ ◌%ℤ◌
unfoldable pub ◌+ℤ◌ : ℤ → ℤ → ℤ
a +ℤ b = sub_ℕ (pos_part a + pos_part b) (neg_part a + neg_part b)

unfoldable pub ◌-ℤ◌ : ℤ → ℤ → ℤ
a -ℤ b = sub_ℕ (pos_part a + neg_part b) (neg_part a + pos_part b)

unfoldable pub ◌*ℤ◌ : ℤ → ℤ → ℤ
a *ℤ b =
    sub_ℕ (pos_part a * pos_part b + neg_part a * neg_part b)
      (pos_part a * neg_part b + neg_part a * pos_part b)

-- Division by a positive number rounds towards zero, and the remainder has the dividend's sign.
unfoldable pub ◌/ℤ◌ : ℤ → ℕ → ℤ
a /ℤ n = sub_ℕ (pos_part a / n) (neg_part a / n)

unfoldable pub ◌%ℤ◌ : ℤ → ℕ → ℤ
a %ℤ n = sub_ℕ (pos_part a % n) (neg_part a % n)

abbrev pub ltb_ℤ : ℤ → ℤ → Bool
ltb_ℤ a b = ltb (pos_part a + neg_part b) (pos_part b + neg_part a)

abbrev pub leb_ℤ : ℤ → ℤ → Bool
leb_ℤ a b = leb (pos_part a + neg_part b) (pos_part b + neg_part a)

abbrev pub eq_ℤ : ℤ → ℤ → Bool
eq_ℤ a b = (pos_part a + neg_part b) == (pos_part b + neg_part a)

-- The 64 bits of an `i64`, as a number, and back.
abbrev pub u64_mod : ℕ
u64_mod = 2 ^ 64

abbrev pub i64_mod : ℕ
i64_mod = 2 ^ 63

unfoldable pub as_u64 : ℤ → ℕ
as_u64 (pos n) = n % u64_mod
as_u64 (negsuc n) = u64_mod - 1 - n % u64_mod

unfoldable pub as_i64 : ℕ → ℤ
as_i64 n = if ltb n i64_mod then pos n else negsuc (u64_mod - 1 - n)

unfoldable pub wrap_i64 : ℤ → ℤ
unfolding as_u64 as_i64
wrap_i64 z = as_i64 (as_u64 z)

abbrev pub in_i64 : ℤ → Bool
in_i64 z = ltb (pos_part z) i64_mod && leb (neg_part z) i64_mod
