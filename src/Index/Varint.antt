-- ===== src/Index/Varint.antt =====
-- crates/scour-index-native/src/varint.rs: variable-length integers, and frame-of-reference bit
-- packing. A byte slice is a list of numbers.
pub mod RoundTrip
mod Value
pub mod Packing
use scour.Prelude.{
  ℕ, zero, suc, ◌+◌, ◌-◌, ◌*◌, ◌/◌, ◌%◌, ◌^◌, ◌<◌, Bool, true, false, Option, none, some, List, [],
  ◌∷◌, ◌++◌, ltb, leb, ◌==◌, if◌then◌else◌, length, take, drop, bit_and, bit_or, ℤ, pos, as_u64,
  as_i64, wrap_i64, ltb_ℤ, ◌-ℤ◌, ◌+ℤ◌, u64_mod,
}

abbrev pub Bytes : Type 0
Bytes = List ℕ

abbrev pub IsU64 : ℕ → Type 0
IsU64 v = v < 2 ^ 64

-- The loop of `put`; ten rounds serve every `u64`, and `none` is the fuel at its end.
unfoldable pub put_loop : ℕ → Bytes → ℕ → Option Bytes
put_loop zero out v = none
put_loop (suc f) out v =
    let more = put_loop f (out ++ (bit_or (v % 256) 0x80 ∷ [])) (v / 2 ^ 7) in
    if leb 0x80 v then more else some (out ++ (v % 256 ∷ []))

unfoldable pub put : Bytes → ℕ → Option Bytes
unfolding put_loop
put out v = put_loop 10 out v

-- The loop of `get` at byte `i`. `u64::from(b & 0x7f) << shift` drops what passes bit 63.
unfoldable pub get_loop : Bytes → ℕ → ℕ → ℕ → Option (ℕ × ℕ)
get_loop [] i v shift = none
get_loop (b ∷ bytes) i v shift =
    let v' = bit_or v (bit_and b 0x7f * 2 ^ shift % 2 ^ 64) in
    let more = get_loop bytes (i + 1) v' (shift + 7) in
    if ltb 63 shift then none else if ltb b 0x80 then some (v', i + 1) else more

unfoldable pub get : Bytes → Option (ℕ × ℕ)
unfolding get_loop
get bytes = get_loop bytes 0 0 0

-- `v.wrapping_sub(min) as u64`
unfoldable pub offset_from : ℤ → ℤ → ℕ
unfolding as_u64 ◌-ℤ◌
offset_from min v = as_u64 (v -ℤ min)

least : ℤ → List ℤ → ℤ
least m [] = m
least m (v ∷ vals) = least (if ltb_ℤ v m then v else m) vals

most_offset : ℤ → ℕ → List ℤ → ℕ
most_offset min m [] = m
most_offset min m (v ∷ vals) =
    most_offset min (if ltb m (offset_from min v) then offset_from min v else m) vals

-- `64 - leading_zeros`: how many binary digits a `u64` has.
bit_length : ℕ → ℕ → ℕ
bit_length zero n = 0
bit_length (suc f) n = let rest = bit_length f (n / 2) in if n == 0 then 0 else suc rest

unfoldable pub width_for : List ℤ → ℤ × ℕ
unfolding least most_offset bit_length offset_from
width_for [] = (pos 0, 0)
width_for (v ∷ vals) = let min = least v vals in (min, bit_length 64 (most_offset min 0 (v ∷ vals)))

-- `while held >= 8`: `held` is at most 71 where the loop begins, so it serves as fuel.
unfoldable pub flush : ℕ → Bytes → ℕ → ℕ → Bytes × ℕ × ℕ
flush zero out acc held = (out, acc, held)
flush (suc f) out acc held =
    let more = flush f (out ++ (acc % 256 ∷ [])) (acc / 256) (held - 8) in
    if leb 8 held then more else (out, acc, held)

unfoldable pub pack_loop : Bytes → ℕ → ℕ → List ℤ → ℤ → ℕ → Bytes
unfolding flush
pack_loop out acc held [] min bits = if ltb 0 held then out ++ (acc % 256 ∷ []) else out
pack_loop out acc held (v ∷ vals) min bits =
    let acc' = bit_or acc (offset_from min v * 2 ^ held) in
    let (out', acc'', held') = flush (held + bits) out acc' (held + bits) in
    pack_loop out' acc'' held' vals min bits

unfoldable pub pack : Bytes → List ℤ → ℤ → ℕ → Bytes
unfolding pack_loop offset_from
pack out vals min bits = if bits == 0 then out else pack_loop out 0 0 vals min bits

-- `acc |= u128::from(b) << (n * 8)` over at most nine bytes.
unfoldable pub gather : ℕ → ℕ → Bytes → ℕ
gather n acc [] = acc
gather n acc (b ∷ bytes) = gather (n + 1) (bit_or acc (b * 2 ^ (n * 8))) bytes

unfoldable pub unpack_one : Bytes → ℤ → ℕ → ℕ → ℤ
unfolding gather
unpack_one bytes min bits i =
    let start_bit = i * bits in
    let acc = gather 0 0 (take 9 (drop (start_bit / 8) bytes)) in
    let mask = if leb 64 bits then u64_mod - 1 else 2 ^ bits - 1 in
    let raw = bit_and (acc / 2 ^ (start_bit % 8) % u64_mod) mask in
    if bits == 0 then min else wrap_i64 (min +ℤ as_i64 raw)

-- `div_ceil(8)`
unfoldable pub packed_len : ℕ → ℕ → ℕ
packed_len n bits = (n * bits + 7) / 8
