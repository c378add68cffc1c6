-- ===== src/Index/Varint/Value.antt =====
-- The number that a run of bytes spells, lowest byte first, and the number that a block of packed
-- offsets spells.
use scour.Prelude.{
  ℕ, zero, suc, ◌+◌, ◌*◌, ◌/◌, ◌%◌, ◌^◌, ◌≤◌, ◌<◌, ◌≡◌, refl, sym, ap, ◌∙◌, some, List, [], ◌∷◌,
  ◌++◌, length, get_elem?, take, drop, All, arith, pow_add, pow_pos,
}
use native.Mathlib.Nat.{
  pow-succ', div-div-eq-div-mul, div-add-mod, mod-lt, mul-add-mod_self_left, mod-eq_of_lt,
  mul-add-div, mul_assoc, div-eq_of_lt, div-one, div-lt_iff_lt-mul, mul_comm, mul-pos,
}
use scour.Index.Varint.{Bytes, gather}
use scour.Index.Varint.RoundTrip.{IsByte}
use scour.Prelude.{bit_or_shifted}

unfoldable pub value : Bytes → ℕ
value [] = 0
value (b ∷ bs) = b + 256 * value bs

pub value-append : (bs cs : Bytes) → value (bs ++ cs) ≡ value bs + 256 ^ length bs * value cs
unfolding value
value-append [] cs = omega arith
value-append (b ∷ bs) cs =
    rw (value-append bs cs, pow-succ') (omega (arith, mul_assoc 256 (256 ^ length bs) (value cs)))

tail_value : (b n k : ℕ) → IsByte b → (b + 256 * n) / 256 ^ suc k ≡ n / 256 ^ k
tail_value b n k h =
    let e : (b + 256 * n) / 256 ≡ n = omega arith in rw (pow-succ', ← div-div-eq-div-mul, e) refl

pow_256_pos : (j : ℕ) → 0 < 256 ^ j
pow_256_pos zero = omega arith
pow_256_pos (suc j) = rw pow-succ' (omega (arith, pow_256_pos j))

pub value-take : (k : ℕ) (bs : Bytes) → All IsByte bs → value (take k bs) ≡ value bs % 256 ^ k
unfolding value
value-take zero bs h = omega arith
value-take (suc k) [] h = sym (mod-eq_of_lt (pow_256_pos (suc k)))
value-take (suc k) (b ∷ bs) (p, h) =
    let q : ℕ = value bs / 256 ^ k in
    let r : ℕ = value bs % 256 ^ k in
    let small : r < 256 ^ k = mod-lt (value bs) (pow_256_pos k) in
    let up : 256 ^ suc k ≡ 256 * 256 ^ k = pow-succ' 256 k in
    let e : b + 256 * value bs ≡ 256 ^ suc k * q + (b + 256 * r) =
      rw up (omega (arith, div-add-mod (value bs) (256 ^ k), mul_assoc 256 (256 ^ k) q)) in
    let low : b + 256 * r < 256 ^ suc k = rw up (omega arith) in
    rw (value-take k bs h) (
      sym (
        ap (λ (n : ℕ). n % 256 ^ suc k) e
        ∙ mul-add-mod_self_left (256 ^ suc k) q (b + 256 * r)
        ∙ mod-eq_of_lt low))

pub value-drop : (k : ℕ) (bs : Bytes) → All IsByte bs → value (drop k bs) ≡ value bs / 256 ^ k
unfolding value
value-drop zero bs h = omega arith
value-drop (suc k) [] h = sym (div-eq_of_lt (pow_256_pos (suc k)))
value-drop (suc k) (b ∷ bs) (p, h) = value-drop k bs h ∙ sym (tail_value b (value bs) k p)

-- `gather` adds the bytes up, where the digits it holds do not meet theirs.
pub gather-value :
    (n acc : ℕ) (bs : Bytes)
    → acc < 2 ^ (n * 8)
    → All IsByte bs
    → gather n acc bs ≡ acc + 2 ^ (n * 8) * value bs
unfolding gather value
gather-value n acc [] h k = omega arith
gather-value n acc (b ∷ bs) h (p, k) =
    let next : 2 ^ ((n + 1) * 8) ≡ 2 ^ (n * 8) * 256 =
      ap (λ (t : ℕ). 2 ^ t) (omega arith) ∙ pow_add (n * 8) 8 in
    let fits : b * 2 ^ (n * 8) ≤ 255 * 2 ^ (n * 8) = grind arith in
    rw (bit_or_shifted (n * 8) acc b h) (
      gather-value (n + 1) (acc + b * 2 ^ (n * 8)) bs (omega arith) k
      ∙ rw next (omega (arith, mul_assoc (2 ^ (n * 8)) 256 (value bs))))

-- Offsets of `bits` digits each, the first one lowest.
unfoldable pub packed_value : ℕ → List ℕ → ℕ
packed_value bits [] = 0
packed_value bits (d ∷ ds) = d + 2 ^ bits * packed_value bits ds

-- The `i`-th offset is found `i * bits` digits up.
pub packed_value_at :
    (bits : ℕ) (ds : List ℕ) (i d : ℕ)
    → All (λ x. x < 2 ^ bits) ds
    → get_elem? ds i ≡ some d
    → packed_value bits ds / 2 ^ (i * bits) % 2 ^ bits ≡ d
unfolding packed_value
packed_value_at bits [] i d h e = ground arith
packed_value_at bits (x ∷ ds) zero d (p, h) e =
    let none_up : 0 * bits ≡ 0 = omega arith in
    let same : x ≡ d = ground arith in
    let swap : x + 2 ^ bits * packed_value bits ds ≡ 2 ^ bits * packed_value bits ds + x =
      omega arith in
    rw (none_up, div-one, swap, mul-add-mod_self_left, mod-eq_of_lt p) same
packed_value_at bits (x ∷ ds) (suc i) d (p, h) e =
    let up : suc i * bits ≡ bits + i * bits = grind arith in
    let swap : x + 2 ^ bits * packed_value bits ds ≡ 2 ^ bits * packed_value bits ds + x =
      omega arith in
    rw (up, pow_add, ← div-div-eq-div-mul, swap, mul-add-div (pow_pos bits), div-eq_of_lt p)
      (rw (add_zero (packed_value bits ds)) (packed_value_at bits ds i d h e))
  where
    add_zero : (n : ℕ) → n + 0 ≡ n
    add_zero n = omega arith

-- Of a number cut off at `A * B`, the digits from `A` on are those of the number, cut off at `B`.
pub mod_then_div : (x a b : ℕ) → 0 < a → 0 < b → x % (a * b) / a ≡ x / a % b
mod_then_div x a b ha hb =
    let q : ℕ = x / (a * b) in
    let r : ℕ = x % (a * b) in
    let e : x ≡ a * (b * q) + r = omega (arith, div-add-mod x (a * b), mul_assoc a b q) in
    let split : x / a ≡ b * q + r / a = ap (λ (y : ℕ). y / a) e ∙ mul-add-div ha (b * q) r in
    let small : r / a < b = below in rw (split, mul-add-mod_self_left) (sym (mod-eq_of_lt small))
  where
    below : x % (a * b) / a < b
    below = (div-lt_iff_lt-mul ha).1 (rw (mul_comm b a) (mod-lt x (mul-pos ha hb)))
