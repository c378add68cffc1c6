-- ===== src/Index/Varint/Packing/Write.antt =====
-- crates/scour-index-native/src/varint.rs: the bytes that `pack` writes, as one number.
use scour.Prelude.{
  ℕ, zero, suc, ◌+◌, ◌-◌, ◌*◌, ◌/◌, ◌%◌, ◌^◌, ◌≤◌, ◌<◌, ◌≡◌, sym, ap, ◌∙◌, false, List, [], ◌∷◌,
  ◌++◌, append_assoc, append-nil, length, All, All-append, map, arith, pow_add, pow_256,
  bit_or_shifted, leb, ◌==◌, ℤ, Bool-cases, inl, inr,
}
use native.Mathlib.Nat.{pow-succ', mul_assoc, mul_comm, pow-le-pow_right}
use scour.Index.Varint.{Bytes, offset_from, flush, pack_loop, pack}
use scour.Index.Varint.RoundTrip.{IsByte}
use scour.Index.Varint.Value.{value, value-append, packed_value}

-- What `flush` leaves: some bytes are out, and what is held is less than eight digits.
record Flushed (out : Bytes) (acc held : ℕ) (r : Bytes × ℕ × ℕ) : Type 0 where
  bytes : Bytes
  wrote : r.0 ≡ out ++ bytes
  are_bytes : All IsByte bytes
  kept : acc ≡ value bytes + 256 ^ length bytes * r.1
  digits : held ≡ 8 * length bytes + r.2
  small : r.1 < 2 ^ r.2
  short : r.2 < 8

eight_less : (h : ℕ) → 8 ≤ h → 2 ^ h ≡ 256 * 2 ^ (h - 8)
eight_less h le =
    let e : h ≡ 8 + (h - 8) = omega arith in ap (λ (t : ℕ). 2 ^ t) e ∙ pow_add 8 (h - 8)

flush-Flushed :
    (f : ℕ) (out : Bytes) (acc held : ℕ)
    → held < f + 8
    → acc < 2 ^ held
    → Flushed out acc held (flush f out acc held)
unfolding flush value
flush-Flushed zero out acc held hf h = record {
  bytes = [];
  wrote = sym (append-nil out);
  are_bytes = tt;
  kept = omega arith;
  digits = omega arith;
  small = h;
  short = omega arith;
}
flush-Flushed (suc f) out acc held hf h = elim (Bool-cases (leb 8 held)) [
  | inr e ↦ rw e (record {
    bytes = [];
    wrote = sym (append-nil out);
    are_bytes = tt;
    kept = omega arith;
    digits = omega arith;
    small = h;
    short = ground arith;
  })
  | inl e ↦
      let le : 8 ≤ held = ground arith in
      let rest =
        flush-Flushed f (out ++ (acc % 256 ∷ [])) (acc / 256) (held - 8) (omega arith)
          (omega (arith, eight_less held le)) in
      rw e (record {
        bytes = acc % 256 ∷ rest.bytes;
        wrote = rest.wrote ∙ append_assoc out (acc % 256 ∷ []) rest.bytes;
        are_bytes = (omega arith, rest.are_bytes);
        kept = step (acc / 256) _ (length rest.bytes) _ rest.kept;
        digits = omega (arith, rest.digits);
        small = rest.small;
        short = rest.short;
      })
]
  where
    step : (n m k a : ℕ) → acc / 256 ≡ m + 256 ^ k * a → acc ≡ acc % 256 + 256 * m + 256 ^ suc k * a
    step n m k a e = rw pow-succ' (omega (arith, e, mul_assoc 256 (256 ^ k) a))

-- The offsets that `pack` stores.
abbrev pub offsets : ℤ → List ℤ → List ℕ
offsets min vals = map (offset_from min) vals

-- `pack_loop` writes what it holds, then the offsets.
record Written (out : Bytes) (n : ℕ) (r : Bytes) : Type 0 where
  bytes : Bytes
  wrote : r ≡ out ++ bytes
  are_bytes : All IsByte bytes
  spelled : value bytes ≡ n

low_eight : (held : ℕ) → held < 8 → 2 ^ held ≤ 256
low_eight held h = pow-le-pow_right (omega arith) {j = 8} (omega arith)

one_digit :
    (held : ℕ) (acc d bits : ℕ)
    → acc < 2 ^ held
    → d < 2 ^ bits
    → acc + d * 2 ^ held < 2 ^ (held + bits)
one_digit held acc d bits h hd =
    let le : (d + 1) * 2 ^ held ≤ 2 ^ bits * 2 ^ held = grind arith in
    rw pow_add (omega (arith, mul_comm (2 ^ held) (2 ^ bits)))

-- The bytes that are out, then those of the rest.
Written-Flushed :
    (out : Bytes) (acc held bits d p : ℕ) (r : Bytes × ℕ × ℕ) {all_bytes : Bytes}
    → Flushed out (acc + d * 2 ^ held) (held + bits) r
    → Written r.0 (r.1 + 2 ^ r.2 * p) all_bytes
    → Written out (acc + 2 ^ held * (d + 2 ^ bits * p)) all_bytes
Written-Flushed out acc held bits d p (o, a, h) f w = record {
  bytes = f.bytes ++ w.bytes;
  wrote = w.wrote ∙ rw f.wrote (append_assoc out f.bytes w.bytes);
  are_bytes = All-append IsByte f.bytes w.bytes f.are_bytes w.are_bytes;
  spelled =
      value-append f.bytes w.bytes
      ∙ rw w.spelled (
          regroup (value f.bytes) (256 ^ length f.bytes) (2 ^ h) (2 ^ held) (2 ^ bits) f.kept
            powers);
}
  where
    powers : 256 ^ length f.bytes * 2 ^ h ≡ 2 ^ held * 2 ^ bits
    powers =
        ap (λ (t : ℕ). t * 2 ^ h) (pow_256 (length f.bytes))
        ∙ sym (pow_add (8 * length f.bytes) h)
        ∙ ap (λ (t : ℕ). 2 ^ t) (sym f.digits)
        ∙ pow_add held bits

    regroup :
        (m x y s b : ℕ)
        → acc + d * s ≡ m + x * a
        → x * y ≡ s * b
        → m + x * (a + y * p) ≡ acc + s * (d + b * p)
    regroup m x y s b e k =
        omega (arith, e, ap (λ (t : ℕ). t * p) k, mul_assoc x y p, mul_assoc s b p)

pack_loop-Written :
    (out : Bytes) (acc held : ℕ) (vals : List ℤ) (min : ℤ) (bits : ℕ)
    → held < 8
    → acc < 2 ^ held
    → All (λ d. d < 2 ^ bits) (offsets min vals)
    → Written out
        (acc + 2 ^ held * packed_value bits (offsets min vals))
        (pack_loop out acc held vals min bits)
unfolding pack_loop packed_value value
pack_loop-Written out acc zero [] min bits hs ha hd = record {
  bytes = [];
  wrote = sym (append-nil out);
  are_bytes = tt;
  spelled = omega arith;
}
pack_loop-Written out acc (suc held) [] min bits hs ha hd = record {
  bytes = acc % 256 ∷ [];
  wrote = ground arith;
  are_bytes = omega arith;
  spelled = omega (arith, low_eight (suc held) hs);
}
pack_loop-Written out acc held (v ∷ vals) min bits hs ha (hd, hds) =
    let d : ℕ = offset_from min v in
    let fits : acc + d * 2 ^ held < 2 ^ (held + bits) = one_digit held acc d bits ha hd in
    let flushed =
      flush-Flushed (held + bits) out (acc + d * 2 ^ held) (held + bits) (omega arith) fits in
    let r = flush (held + bits) out (acc + d * 2 ^ held) (held + bits) in
    rw (bit_or_shifted held acc d ha) (
      Written-Flushed out acc held bits d (packed_value bits (offsets min vals)) r flushed
        (pack_loop-Written r.0 r.1 r.2 vals min bits flushed.short flushed.small hds))

-- With no digit held, `pack` writes the number of the block.
pub pack-value :
    (vals : List ℤ) (min : ℤ) (bits : ℕ)
    → 0 < bits
    → All (λ d. d < 2 ^ bits) (offsets min vals)
    → All IsByte (pack [] vals min bits)
      × (value (pack [] vals min bits) ≡ packed_value bits (offsets min vals))
unfolding pack
pack-value vals min bits pos h =
    let w = pack_loop-Written [] 0 0 vals min bits (omega arith) (omega arith) h in
    let e : (bits == 0) ≡ false = ground arith in
    rw (e, w.wrote) (w.are_bytes, w.spelled ∙ omega arith)
