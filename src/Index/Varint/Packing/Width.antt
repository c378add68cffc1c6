-- ===== src/Index/Varint/Packing/Width.antt =====
-- crates/scour-index-native/src/varint.rs: `width_for` and the offsets.
use scour.Prelude.{
  ℕ, zero, suc, ◌/◌, ◌^◌, ◌≤◌, ◌<◌, ◌≡◌, List, [], ◌∷◌, All, arith, ltb, ◌==◌, if◌then◌else◌, ℤ,
  pos, negsuc, pos_part, neg_part, ◌+ℤ◌, ◌-ℤ◌, as_u64, as_i64, wrap_i64, ltb_ℤ, Bool-cases, inl,
  inr, shifted_twice,
}
use scour.Index.Varint.{offset_from, least, most_offset, bit_length, width_for}
use scour.Index.Varint.Packing.Write.{offsets}

-- A value of the type `i64`.
abbrev pub IsI64 : ℤ → Type 0
IsI64 z = (pos_part z < 2 ^ 63) × (neg_part z ≤ 2 ^ 63)

offset_from-lt : (min v : ℤ) → offset_from min v < 2 ^ 64
unfolding offset_from as_u64 ◌-ℤ◌
offset_from-lt min v = ground arith

pub offset_from_self : (min : ℤ) → offset_from min min ≡ 0
unfolding offset_from as_u64 ◌-ℤ◌
offset_from_self min = ground arith

pub add_offset :
    (min v : ℤ) → IsI64 min → IsI64 v → wrap_i64 (min +ℤ as_i64 (offset_from min v)) ≡ v
unfolding offset_from as_u64 as_i64 wrap_i64 ◌-ℤ◌ ◌+ℤ◌
add_offset (pos m) (pos n) hm hv = ground arith
add_offset (pos m) (negsuc n) hm hv = ground arith
add_offset (negsuc m) (pos n) hm hv = ground arith
add_offset (negsuc m) (negsuc n) hm hv = ground arith

bit_length-fits : (f n : ℕ) → n < 2 ^ f → (n < 2 ^ bit_length f n) × (bit_length f n ≤ f)
unfolding bit_length
bit_length-fits zero n h = omega arith
bit_length-fits (suc f) n h = elim (Bool-cases (n == 0)) [
  | inl e ↦ rw e (ground arith, omega arith)
  | inr e ↦
      let (lo, hi) = bit_length-fits f (n / 2) (omega (arith, shifted_twice 1 f)) in
      rw e (omega (arith, shifted_twice 1 (bit_length f (n / 2))), omega arith)
]

most_offset-ge :
    (min : ℤ) (m : ℕ) (vals : List ℤ)
    → (m ≤ most_offset min m vals) × All (λ d. d ≤ most_offset min m vals) (offsets min vals)
unfolding most_offset
most_offset-ge min m [] = (omega arith, tt)
most_offset-ge min m (v ∷ vals) =
    let next : ℕ = if ltb m (offset_from min v) then offset_from min v else m in
    let (ge, rest) = most_offset-ge min next vals in
    let both : (m ≤ next) × (offset_from min v ≤ next) = ground arith in
    (omega (arith, ge, both.0), (omega (arith, ge, both.1), rest))

most_offset-lt : (min : ℤ) (m : ℕ) (vals : List ℤ) → m < 2 ^ 64 → most_offset min m vals < 2 ^ 64
unfolding most_offset
most_offset-lt min m [] h = h
most_offset-lt min m (v ∷ vals) h =
    most_offset-lt min (if ltb m (offset_from min v) then offset_from min v else m) vals
      (ground (arith, offset_from-lt min v))

All-le_lt : {m k : ℕ} (ds : List ℕ) → m < k → All (λ d. d ≤ m) ds → All (λ d. d < k) ds
All-le_lt [] h a = tt
All-le_lt (d ∷ ds) h (p, a) = (omega arith, All-le_lt ds h a)

least-IsI64 : (m : ℤ) (vals : List ℤ) → IsI64 m → All IsI64 vals → IsI64 (least m vals)
unfolding least
least-IsI64 m [] h a = h
least-IsI64 m (v ∷ vals) h (p, a) = least-IsI64 (if ltb_ℤ v m then v else m) vals (ground arith) a

-- The minimum of the block is a 64-bit integer, and the width, at most 64, holds every offset.
pub width_for-holds :
    (vals : List ℤ)
    → All IsI64 vals
    → IsI64 (width_for vals).0
      × ((width_for vals).1 ≤ 64)
      × All (λ d. d < 2 ^ (width_for vals).1) (offsets (width_for vals).0 vals)
unfolding width_for
width_for-holds [] h = omega arith
width_for-holds (v ∷ vals) (p, h) =
    let min : ℤ = least v vals in
    let top = most_offset min 0 (v ∷ vals) in
    let (fits, le) = bit_length-fits 64 top (most_offset-lt min 0 (v ∷ vals) (omega arith)) in
    (
      least-IsI64 v vals p h,
      le,
      All-le_lt (offsets min (v ∷ vals)) fits (most_offset-ge min 0 (v ∷ vals)).1,
    )
