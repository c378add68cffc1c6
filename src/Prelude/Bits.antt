-- ===== src/Prelude/Bits.antt =====
-- `bit_or` and `bit_and` at variables: one binary digit at a time, and bytes by a table.
use Prim.Native.Nat.{
  ℕ, zero, suc, ◌+◌, ◌-◌, ◌*◌, ◌/◌, ◌%◌, ◌^◌, ◌≤◌, ◌<◌, min, max, bit_and, bit_or, digits,
  bit_and-bitwise, bit_or-bitwise,
}
use mathlib.Core.Path.{◌≡◌, refl, sym, ◌∙◌, ap}
use mathlib.Core.Bool.{Bool, true, ◌&&◌}
use native.Mathlib.Omega.{arith}
use native.Mathlib.Nat.{
  pow-suc, add-zero, mul_assoc, mod-lt, div-add-mod, mul-add-mod_self_left, mod-eq_of_lt,
}
use scour.Prelude.Tests.{◌==◌, ==_iff}

-- A Boolean test at each number before `n`.
unfoldable pub holds_below : (ℕ → Bool) → ℕ → Bool
holds_below p zero = true
holds_below p (suc n) = holds_below p n && p n

pub holds_below→at : (p : ℕ → Bool) (n i : ℕ) → i < n → holds_below p n ≡ true → p i ≡ true
unfolding holds_below
holds_below→at p zero i l e = absurd (omega arith)
holds_below→at p (suc n) i l e = ground (arith, holds_below→at p n i)

low_seven_table : holds_below (λ b. bit_and b 0x7f == b % 128) 256 ≡ true
unfolding holds_below
low_seven_table = refl

pub low_seven : (b : ℕ) → b < 256 → bit_and b 0x7f ≡ b % 128
low_seven b h = (==_iff _ _).0 (holds_below→at _ 256 b h low_seven_table)

top_bit_table : holds_below (λ b. bit_or b 0x80 == b % 128 + 128) 256 ≡ true
unfolding holds_below
top_bit_table = refl

pub set_top_bit : (b : ℕ) → b < 256 → bit_or b 0x80 ≡ b % 128 + 128
set_top_bit b h = (==_iff _ _).0 (holds_below→at _ 256 b h top_bit_table)

-- What the native operations stand for: `op` on each pair of digits, and `last` on what is left.
module _ (last : ℕ → ℕ) (op : ℕ → ℕ → ℕ) where
  digits_zero : (n b : ℕ) → digits last op n zero b ≡ last b
  digits_zero zero b = refl
  digits_zero (suc n) b = refl

  digits_agree : (a b n m : ℕ) → a ≤ min n m → digits last op n a b ≡ digits last op m a b
  digits_agree zero b n m l = digits_zero n b ∙ sym (digits_zero m b)
  digits_agree (suc a) b zero m l = absurd (omega arith)
  digits_agree (suc a) b (suc n) zero l = absurd (omega arith)
  digits_agree (suc a) b (suc n) (suc m) l =
      ap (λ q. q * 2 + op (suc a % 2) (b % 2)) (digits_agree (suc a / 2) (b / 2) n m (omega arith))

  -- One digit of a number that is not zero.
  digits_halve :
      (a b : ℕ)
      → digits last op (suc a) (suc a) b
        ≡ digits last op (suc a / 2) (suc a / 2) (b / 2) * 2 + op (suc a % 2) (b % 2)
  digits_halve a b =
      ap (λ q. q * 2 + op (suc a % 2) (b % 2))
        (digits_agree (suc a / 2) (b / 2) a (suc a / 2) (omega arith))

pub zero-bit_or : (b : ℕ) → bit_or 0 b ≡ b
zero-bit_or = bit_or-bitwise 0

pub bit_or_step : (a b : ℕ) → bit_or a b ≡ bit_or (a / 2) (b / 2) * 2 + max (a % 2) (b % 2)
bit_or_step zero b = omega (arith, zero-bit_or b, zero-bit_or (b / 2))
bit_or_step (suc a) b =
    bit_or-bitwise (suc a) b
    ∙ digits_halve (λ q. q) max a b
    ∙ ap (λ q. q * 2 + max (suc a % 2) (b % 2)) (sym (bit_or-bitwise (suc a / 2) (b / 2)))

bit_or-double : (a x : ℕ) → bit_or a (x * 2) ≡ bit_or (a / 2) x * 2 + a % 2
bit_or-double a x =
    let half : x * 2 / 2 ≡ x = omega arith in bit_or_step a (x * 2) ∙ rw half (omega arith)

pub shifted_twice : (w s : ℕ) → w * 2 ^ suc s ≡ w * 2 ^ s * 2
shifted_twice w s = rw pow-suc (omega arith)

-- Where the digits do not meet, `|` is a sum.
pub bit_or_shifted : (s a w : ℕ) → a < 2 ^ s → bit_or a (w * 2 ^ s) ≡ a + w * 2 ^ s
bit_or_shifted zero a w h =
    let e : a ≡ 0 = omega arith in rw e (zero-bit_or (w * 2 ^ 0) ∙ omega arith)
bit_or_shifted (suc s) a w h = rw (shifted_twice w s) (
    bit_or-double a (w * 2 ^ s)
    ∙ omega (arith, bit_or_shifted s (a / 2) w (omega (arith, shifted_twice 1 s))))

-- No bit of an `or` is above those of its two numbers.
pub bit_or_lt : (s a b : ℕ) → a < 2 ^ s → b < 2 ^ s → bit_or a b < 2 ^ s
bit_or_lt zero a b h k = let e : a ≡ 0 = omega arith in rw (e, zero-bit_or b) k
bit_or_lt (suc s) a b h k =
    let ih =
      bit_or_lt s (a / 2) (b / 2) (omega (arith, shifted_twice 1 s))
        (omega (arith, shifted_twice 1 s)) in
    omega (arith, bit_or_step a b, shifted_twice 1 s, ih)

pub pow_add : (a b : ℕ) → 2 ^ (a + b) ≡ 2 ^ a * 2 ^ b
pow_add a zero = rw add-zero (omega arith)
pow_add a (suc b) =
    let e : a + suc b ≡ suc (a + b) = omega arith in
    rw (e, pow-suc, pow-suc, pow_add a b) (mul_assoc (2 ^ a) (2 ^ b) 2)

pub pow_pos : (a : ℕ) → 0 < 2 ^ a
pow_pos zero = omega arith
pow_pos (suc a) = rw pow-suc (omega (arith, pow_pos a))

pub pow_256 : (n : ℕ) → 256 ^ n ≡ 2 ^ (8 * n)
pow_256 zero = refl
pow_256 (suc n) =
    let e : 8 * suc n ≡ 8 * n + 8 = omega arith in rw (e, pow_add, pow-suc, pow_256 n) refl

pub zero-bit_and : (b : ℕ) → bit_and 0 b ≡ 0
zero-bit_and = bit_and-bitwise 0

pub bit_and_step : (x y : ℕ) → bit_and x y ≡ bit_and (x / 2) (y / 2) * 2 + min (x % 2) (y % 2)
bit_and_step zero y = omega (arith, zero-bit_and y, zero-bit_and (y / 2))
bit_and_step (suc x) y =
    bit_and-bitwise (suc x) y
    ∙ digits_halve (λ q. zero) min x y
    ∙ ap (λ q. q * 2 + min (suc x % 2) (y % 2)) (sym (bit_and-bitwise (suc x / 2) (y / 2)))

-- `k` bounds the number, which is halved at each digit.
bit_and-nothing : (k x : ℕ) → x ≤ k → bit_and x 0 ≡ 0
bit_and-nothing k zero l = zero-bit_and 0
bit_and-nothing zero (suc x) l = absurd (omega arith)
bit_and-nothing (suc k) (suc x) l =
    let rest = bit_and-nothing k (suc x / 2) (omega arith) in
    omega (arith, rest, bit_and_step (suc x) 0)

mod_twice : (x m : ℕ) → 0 < m → x % (m * 2) ≡ x / 2 % m * 2 + x % 2
mod_twice x m h =
    let r : ℕ = x / 2 % m * 2 + x % 2 in
    let small : x / 2 % m < m = mod-lt (x / 2) h in
    let e : x ≡ m * 2 * (x / 2 / m) + r = omega (arith, div-add-mod (x / 2) m) in
    ap (λ (y : ℕ). y % (m * 2)) e
    ∙ mul-add-mod_self_left (m * 2) (x / 2 / m) r
    ∙ mod-eq_of_lt (omega arith)

-- A mask of `k` ones keeps the lowest `k` digits.
pub bit_and_mask : (k x : ℕ) → bit_and x (2 ^ k - 1) ≡ x % 2 ^ k
bit_and_mask zero x = bit_and-nothing x x (omega arith) ∙ omega arith
bit_and_mask (suc k) x =
    let half : (2 ^ suc k - 1) / 2 ≡ 2 ^ k - 1 = rw pow-suc (omega (arith, pow_pos k)) in
    let odd : (2 ^ suc k - 1) % 2 ≡ 1 = rw pow-suc (omega (arith, pow_pos k)) in
    bit_and_step x (2 ^ suc k - 1)
    ∙ rw (half, odd, bit_and_mask k (x / 2), pow-suc, mod_twice x (2 ^ k) (pow_pos k)) (omega arith)
