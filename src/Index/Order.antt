-- ===== src/Index/Order.antt =====
-- crates/scour-index-native/src/order.rs: the rows of a segment in the order of their paths.
use Prim.Native.Nat.{compare, Ordering}
use scour.Prelude.{
  ℕ, zero, suc, ◌+◌, ◌*◌, ◌≡◌, refl, min, true, false, Option, none, some, [], ◌∷◌, ◌++◌, ltb, ◌==◌,
  if◌then◌else◌, length, take, drop, cmp_str, has_char, ends_char, strip_prefix, arith, ◌∙◌, sym,
  ap, inl, inr, Option-cases,
}
use scour.Core.Prefix.{slash}
use scour.Index.Varint.{Bytes}
use scour.Index.Words.{u32_at}

pub record PathOrder : Type 0 where
  pub rows : ℕ
  pub rows_bytes : Bytes

unfoldable pub open_order : Bytes → Option PathOrder
unfolding u32_at
open_order bytes =
    let rows = u32_at bytes 0 in
    if ltb (length bytes) 4
    then none
    else if length bytes == 4 + rows * 4
    then some (record { rows = rows; rows_bytes = drop 4 bytes })
    else none

unfoldable pub at : PathOrder → ℕ → Option ℕ
unfolding u32_at
at o i =
    let row = u32_at o.rows_bytes (i * 4) in
    if ltb (length o.rows_bytes) (i * 4 + 4)
    then none
    else if ltb row o.rows
    then some row
    else none

abbrev pub or_else : Ordering → Ordering → Ordering
or_else Ordering.lt o = Ordering.lt
or_else Ordering.gt o = Ordering.gt
or_else Ordering.eq o = o

unfoldable pub joined : Bytes → Bytes → Bytes → Bytes → Ordering
unfolding cmp_str
joined ha na hb nb =
    let m = min (length ha) (length hb) in
    or_else (cmp_str (take m ha) (take m hb)) (elim (compare (length ha) (length hb)) [
      | Ordering.eq ↦ cmp_str na nb
      | Ordering.lt ↦ cmp_str na (drop m hb)
      | Ordering.gt ↦ cmp_str (drop m ha) nb
    ])

-- A row that the order gives is a row of the segment.
pub at-lt : (o : PathOrder) (i row : ℕ) → at o i ≡ some row → ltb row o.rows ≡ true
unfolding at
at-lt o i row h = ground arith

-- A head is empty, or a slash ends it.
abbrev pub IsHead : Bytes → Type 0
IsHead [] = Unit
IsHead (a ∷ h) = ends_char slash (a ∷ h) ≡ true

IsHead-tail : (a : ℕ) (h : Bytes) → IsHead (a ∷ h) → IsHead h
IsHead-tail a [] p = tt
IsHead-tail a (b ∷ h) p = p

joined_step :
    (a b : ℕ) (ha na hb nb : Bytes)
    → joined (a ∷ ha) na (b ∷ hb) nb ≡ or_else (compare a b) (joined ha na hb nb)
unfolding joined cmp_str
joined_step a b ha na hb nb =
    let m : min (suc (length ha)) (suc (length hb)) ≡ suc (min (length ha) (length hb)) =
      omega arith in
    let c : compare (suc (length ha)) (suc (length hb)) ≡ compare (length ha) (length hb) =
      ground arith in
    rw (m, c) (ground arith)

no_slash_prefix :
    (x n rest : Bytes)
    → ends_char slash x ≡ true
    → has_char slash n ≡ false
    → strip_prefix x n ≡ some rest
    → zero ≡ suc zero
unfolding strip_prefix
no_slash_prefix [] n rest p q h = absurd (cc)
no_slash_prefix (a ∷ x) [] rest p q h = absurd (cc)
no_slash_prefix (a ∷ []) (b ∷ n) rest p q h = ground arith
no_slash_prefix (a ∷ c ∷ x) (b ∷ n) rest p q h = ground (arith, no_slash_prefix (c ∷ x) n rest)

-- What stands behind text that is no prefix does not decide.
cmp_front : (n x y : Bytes) → strip_prefix x n ≡ none → cmp_str n (x ++ y) ≡ cmp_str n x
unfolding cmp_str strip_prefix
cmp_front n [] y h = absurd (cc)
cmp_front [] (a ∷ x) y h = refl
cmp_front (b ∷ n) (a ∷ x) y h = ground (arith, cmp_front n x y)

cmp_front_left : (n x y : Bytes) → strip_prefix x n ≡ none → cmp_str (x ++ y) n ≡ cmp_str x n
unfolding cmp_str strip_prefix
cmp_front_left n [] y h = absurd (cc)
cmp_front_left [] (a ∷ x) y h = refl
cmp_front_left (b ∷ n) (a ∷ x) y h = ground (arith, cmp_front_left n x y)

no_prefix :
    (x n : Bytes) → ends_char slash x ≡ true → has_char slash n ≡ false → strip_prefix x n ≡ none
no_prefix x n p q = elim (Option-cases (strip_prefix x n)) [
  | inl e ↦ e
  | inr (rest, e) ↦ absurd (omega (arith, no_slash_prefix x n rest p q e))
]

joined_no_head_left :
    (na : Bytes) (b : ℕ) (hb nb : Bytes) → joined [] na (b ∷ hb) nb ≡ cmp_str na (b ∷ hb)
unfolding joined cmp_str
joined_no_head_left na b hb nb =
    let m : min 0 (suc (length hb)) ≡ 0 = omega arith in
    let c : compare 0 (suc (length hb)) ≡ Ordering.lt = ground arith in
    rw (m, c) (ap (λ k. cmp_str na (drop k (b ∷ hb))) m)

joined_no_head_right : (a : ℕ) (ha na nb : Bytes) → joined (a ∷ ha) na [] nb ≡ cmp_str (a ∷ ha) nb
unfolding joined cmp_str
joined_no_head_right a ha na nb =
    let m : min (suc (length ha)) 0 ≡ 0 = omega arith in
    let c : compare (suc (length ha)) 0 ≡ Ordering.gt = ground arith in
    rw (m, c) (ap (λ k. cmp_str (drop k (a ∷ ha)) nb) m)

cmp_step : (a b : ℕ) (s t : Bytes) → cmp_str (a ∷ s) (b ∷ t) ≡ or_else (compare a b) (cmp_str s t)
unfolding cmp_str
cmp_step a b s t = ground arith

-- The comparison without joining is that of the joined paths, for names without a slash, and heads
-- that are empty or end with one.
pub joined_lem :
    (ha na hb nb : Bytes)
    → IsHead ha
    → IsHead hb
    → has_char slash na ≡ false
    → has_char slash nb ≡ false
    → joined ha na hb nb ≡ cmp_str (ha ++ na) (hb ++ nb)
joined_lem [] na [] nb p q h k = unfold joined in refl
joined_lem [] na (b ∷ hb) nb p q h k =
    joined_no_head_left na b hb nb ∙ sym (cmp_front na (b ∷ hb) nb (no_prefix (b ∷ hb) na q h))
joined_lem (a ∷ ha) na [] nb p q h k =
    joined_no_head_right a ha na nb
    ∙ sym (cmp_front_left nb (a ∷ ha) na (no_prefix (a ∷ ha) nb p k))
joined_lem (a ∷ ha) na (b ∷ hb) nb p q h k =
    joined_step a b ha na hb nb
    ∙ ap (or_else (compare a b))
        (joined_lem ha na hb nb (IsHead-tail a ha p) (IsHead-tail b hb q) h k)
    ∙ sym (cmp_step a b (ha ++ na) (hb ++ nb))
