-- ===== src/Index/Varint/Packing.antt =====
-- crates/scour-index-native/src/varint.rs: `pack` and `unpack_one`.
mod Write
mod Width
use scour.Prelude.{
  ℕ, zero, suc, ◌+◌, ◌-◌, ◌*◌, ◌/◌, ◌%◌, ◌^◌, ◌≤◌, ◌<◌, ◌≡◌, refl, sym, ap, ◌∙◌, Option, some, List,
  [], ◌∷◌, ◌++◌, length, get_elem?, take, drop, All, All-get_elem?, arith, pow_add, pow_pos,
  pow_256, bit_and, bit_and_mask, leb, ◌==◌, if◌then◌else◌, u64_mod, ℤ, wrap_i64, as_i64, ◌+ℤ◌,
  Bool-cases, inl, inr, false,
}
use native.Mathlib.Nat.{div-div-eq-div-mul, div-add-mod, mul_assoc, mul-add-mod_self_left}
use scour.Index.Varint.{Bytes, offset_from, width_for, pack, gather, unpack_one}
use scour.Index.Varint.RoundTrip.{IsByte}
use scour.Index.Varint.Value.{
  value, value-take, value-drop, gather-value, packed_value, packed_value_at, mod_then_div,
}
use scour.Index.Varint.Packing.Write.{offsets, pack-value}
use scour.Index.Varint.Packing.Width.{IsI64, add_offset, offset_from_self, width_for-holds}

All-drop : (k : ℕ) (bs : Bytes) → All IsByte bs → All IsByte (drop k bs)
All-drop zero bs h = h
All-drop (suc k) [] h = h
All-drop (suc k) (b ∷ bs) (p, h) = All-drop k bs h

All-take : (k : ℕ) (bs : Bytes) → All IsByte bs → All IsByte (take k bs)
All-take zero bs h = tt
All-take (suc k) [] h = h
All-take (suc k) (b ∷ bs) (p, h) = (p, All-take k bs h)

-- The digits below `a` are not touched by a cut further up.
mod_below : (x a b : ℕ) → x % (a * b) % a ≡ x % a
mod_below x a b =
    let q : ℕ = x / (a * b) in
    let r : ℕ = x % (a * b) in
    let e : x ≡ a * (b * q) + r = omega (arith, div-add-mod x (a * b), mul_assoc a b q) in
    sym (ap (λ (y : ℕ). y % a) e ∙ mul-add-mod_self_left a (b * q) r)

mod_pow_below : (x k n : ℕ) → k ≤ n → x % 2 ^ n % 2 ^ k ≡ x % 2 ^ k
mod_pow_below x k n h =
    let e : 2 ^ n ≡ 2 ^ k * 2 ^ (n - k) = ap (λ (t : ℕ). 2 ^ t) (omega arith) ∙ pow_add k (n - k) in
    rw e (mod_below x (2 ^ k) (2 ^ (n - k)))

-- Nine bytes from the one where the value starts hold all its digits.
window_digits :
    (n start bits : ℕ)
    → bits ≤ 64
    → n / 256 ^ (start / 8) % 2 ^ 72 / 2 ^ (start % 8) % 2 ^ bits ≡ n / 2 ^ start % 2 ^ bits
window_digits n start bits h =
    let off : ℕ = start % 8 in
    let q : ℕ = start / 8 in
    let m : ℕ = n / 256 ^ q in
    let cut : 2 ^ 72 ≡ 2 ^ off * 2 ^ (72 - off) =
      ap (λ (t : ℕ). 2 ^ t) {x = 72} {y = off + (72 - off)} (omega arith)
      ∙ pow_add off (72 - off) in
    let whole : 256 ^ q * 2 ^ off ≡ 2 ^ start =
      ap (λ (t : ℕ). t * 2 ^ off) (pow_256 q)
      ∙ sym (pow_add (8 * q) off)
      ∙ ap (λ (t : ℕ). 2 ^ t) {x = 8 * q + off} {y = start} (omega arith) in
    ap (λ (t : ℕ). m % t / 2 ^ off % 2 ^ bits) cut
    ∙ ap (λ (t : ℕ). t % 2 ^ bits)
        (mod_then_div m (2 ^ off) (2 ^ (72 - off)) (pow_pos off) (pow_pos (72 - off)))
    ∙ mod_pow_below (m / 2 ^ off) bits (72 - off) (omega arith)
    ∙ ap (λ (t : ℕ). t % 2 ^ bits) (div-div-eq-div-mul n (256 ^ q) (2 ^ off))
    ∙ ap (λ (t : ℕ). n / t % 2 ^ bits) whole

gather-window :
    (bytes : Bytes) (k : ℕ)
    → All IsByte bytes
    → gather 0 0 (take 9 (drop k bytes)) ≡ value bytes / 256 ^ k % 2 ^ 72
gather-window bytes k h =
    let ok : All IsByte (drop k bytes) = All-drop k bytes h in
    gather-value 0 0 (take 9 (drop k bytes)) (omega arith) (All-take 9 (drop k bytes) ok)
    ∙ plain (value (take 9 (drop k bytes)))
    ∙ value-take 9 (drop k bytes) ok
    ∙ ap (λ (t : ℕ). t % 2 ^ 72) (value-drop k bytes h)
  where
    plain : (n : ℕ) → 0 + 2 ^ (0 * 8) * n ≡ n
    plain n = omega arith

masked :
    (x bits : ℕ)
    → bits ≤ 64
    → bit_and (x % u64_mod) (if leb 64 bits then u64_mod - 1 else 2 ^ bits - 1) ≡ x % 2 ^ bits
masked x bits h =
    let mask : (if leb 64 bits then u64_mod - 1 else 2 ^ bits - 1) ≡ 2 ^ bits - 1 = same in
    rw mask (bit_and_mask bits (x % u64_mod) ∙ mod_pow_below x bits 64 h)
  where
    same : (if leb 64 bits then u64_mod - 1 else 2 ^ bits - 1) ≡ 2 ^ bits - 1
    same = elim (Bool-cases (leb 64 bits)) [
      | inl e ↦ rw e (ap (λ (t : ℕ). 2 ^ t - 1) (let eq : 64 ≡ bits = ground arith in eq))
      | inr e ↦ rw e
    ]

get_elem?-offsets :
    (min : ℤ) (vals : List ℤ) (i : ℕ) (v : ℤ)
    → get_elem? vals i ≡ some v
    → get_elem? (offsets min vals) i ≡ some (offset_from min v)
get_elem?-offsets min [] i v e = ground arith
get_elem?-offsets min (x ∷ vals) zero v e = ground arith
get_elem?-offsets min (x ∷ vals) (suc i) v e = get_elem?-offsets min vals i v e

-- The same at any width that holds the offsets.
unpack_one-pack_at :
    (vals : List ℤ) (min : ℤ) (bits i : ℕ) (v : ℤ)
    → IsI64 min
    → bits ≤ 64
    → All (λ d. d < 2 ^ bits) (offsets min vals)
    → IsI64 v
    → get_elem? vals i ≡ some v
    → unpack_one (pack [] vals min bits) min bits i ≡ v
unfolding unpack_one
unpack_one-pack_at vals min zero i v min_in le fit v_in e =
    let at_i : offset_from min v < 1 =
      All-get_elem? (λ d. d < 1) (offsets min vals) i (offset_from min v) fit
        (get_elem?-offsets min vals i v e) in
    let none_far : offset_from min v ≡ offset_from min min = omega (arith, offset_from_self min) in
    sym (add_offset min min min_in min_in)
    ∙ ap (λ (t : ℕ). wrap_i64 (min +ℤ as_i64 t)) (sym none_far)
    ∙ add_offset min v min_in v_in
unpack_one-pack_at vals min (suc bits) i v min_in le fit v_in e =
    let w = suc bits in
    let bytes = pack [] vals min w in
    let (ok, spelled) = pack-value vals min w (omega arith) fit in
    let raw : gather 0 0 (take 9 (drop (i * w / 8) bytes)) / 2 ^ (i * w % 8) % 2 ^ w
        ≡ offset_from min v =
      ap (λ (t : ℕ). t / 2 ^ (i * w % 8) % 2 ^ w) (gather-window bytes (i * w / 8) ok)
      ∙ window_digits (value bytes) (i * w) w le
      ∙ ap (λ (t : ℕ). t / 2 ^ (i * w) % 2 ^ w) spelled
      ∙ packed_value_at w (offsets min vals) i (offset_from min v) fit
          (get_elem?-offsets min vals i v e) in
    let wide : (suc bits == 0) ≡ false = ground arith in
    rw (wide, masked _ w le, raw) (add_offset min v min_in v_in)

-- A block that `pack` wrote at the minimum and the width that `width_for` found for it gives every
-- value back by its position, for any block of 64-bit integers.
pub unpack_one-pack :
    (vals : List ℤ) (i : ℕ) (v : ℤ)
    → All IsI64 vals
    → get_elem? vals i ≡ some v
    → unpack_one
        (pack [] vals (width_for vals).0 (width_for vals).1)
        (width_for vals).0
        (width_for vals).1
        i
      ≡ v
unpack_one-pack vals i v h e =
    let (min_in, le, fit) = width_for-holds vals h in
    go (width_for vals).0 (width_for vals).1 min_in le fit
  where
    go :
        (min : ℤ) (bits : ℕ)
        → IsI64 min
        → bits ≤ 64
        → All (λ d. d < 2 ^ bits) (offsets min vals)
        → unpack_one (pack [] vals min bits) min bits i ≡ v
    go min bits min_in le fit =
        unpack_one-pack_at vals min bits i v min_in le fit (All-get_elem? IsI64 vals i v h e) e
