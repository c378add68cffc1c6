-- ===== src/Index/Rank/Counting.antt =====
-- crates/scour-index-native/src/rank.rs: counting by whole bytes and counting bit by bit.
use scour.Prelude.{
  ◌≢◌, ℕ, zero, suc, ◌+◌, ◌-◌, ◌*◌, ◌/◌, ◌%◌, ◌≤◌, ◌<◌, ◌≡◌, refl, sym, ap, ◌∙◌, min, max, true,
  false, [], ◌∷◌, ltb, leb, ◌==◌, ==_iff, if◌then◌else◌, length, take, drop, All, arith,
  holds_below, holds_below→at,
}
use scour.Index.Rank.{Bitmap, count_ones, ones_in, bit, live_from, ones}

abbrev pub IsByte : ℕ → Type 0
IsByte b = b < 256

pub live_from-add :
    (alive : Bitmap) (from m n : ℕ)
    → live_from alive from (m + n) ≡ live_from alive from m + live_from alive (from + m) n
unfolding live_from
live_from-add alive from zero n =
    let e : 0 + n ≡ n = omega arith in
    let e' : from + 0 ≡ from = omega arith in rw (e, e') (omega arith)
live_from-add alive from (suc m) n =
    let e : suc m + n ≡ suc (m + n) = omega arith in
    let e' : from + suc m ≡ from + 1 + m = omega arith in
    rw (e, e', live_from-add alive (from + 1) m n) (omega arith)

bit-cons : (b : ℕ) (bs : Bitmap) (row : ℕ) → bit (b ∷ bs) (row + 8) ≡ bit bs row
unfolding bit
bit-cons b bs row =
    let e : (row + 8) / 8 ≡ suc (row / 8) = omega arith in
    let e' : (row + 8) % 8 ≡ row % 8 = omega arith in rw (e, e')

live_from-cons :
    (b : ℕ) (bs : Bitmap) (from n : ℕ) → live_from (b ∷ bs) (from + 8) n ≡ live_from bs from n
unfolding live_from
live_from-cons b bs from zero = refl
live_from-cons b bs from (suc n) =
    let e : from + 8 + 1 ≡ from + 1 + 8 = omega arith in
    rw (e, bit-cons b bs from, live_from-cons b bs (from + 1) n)

live_from-nil : (from n : ℕ) → live_from [] from n ≡ 0
unfolding live_from bit
live_from-nil from zero = refl
live_from-nil from (suc n) = rw (live_from-nil (from + 1) n)

-- The rows from byte `k` on.
pub live_from-drop :
    (k : ℕ) (alive : Bitmap) (n : ℕ) → live_from alive (k * 8) n ≡ live_from (drop k alive) 0 n
live_from-drop zero alive n = ap (λ (t : ℕ). live_from alive t n) {x = 0 * 8} {y = 0} (omega arith)
live_from-drop (suc k) [] n = live_from-nil (suc k * 8) n ∙ sym (live_from-nil 0 n)
live_from-drop (suc k) (b ∷ bs) n =
    ap (λ (t : ℕ). live_from (b ∷ bs) t n) {x = suc k * 8} {y = k * 8 + 8} (omega arith)
    ∙ live_from-cons b bs (k * 8) n
    ∙ live_from-drop k bs n

-- One byte: its digit sum is its number of set bits, checked for each of the 256.
byte_table : holds_below (λ b. live_from (b ∷ []) 0 8 == count_ones b) 256 ≡ true
unfolding holds_below live_from bit count_ones
byte_table = refl

one_byte_alone : (b : ℕ) → IsByte b → live_from (b ∷ []) 0 8 ≡ count_ones b
one_byte_alone b h =
    (==_iff _ _).0 (holds_below→at (λ b. live_from (b ∷ []) 0 8 == count_ones b) 256 b h byte_table)

one_byte : (b : ℕ) (bs : Bitmap) → IsByte b → live_from (b ∷ bs) 0 8 ≡ count_ones b
one_byte b bs h = same ∙ one_byte_alone b h
  where
    same : live_from (b ∷ bs) 0 8 ≡ live_from (b ∷ []) 0 8
    same = unfold live_from bit in refl

pub live_from-bytes :
    (m : ℕ) (alive : Bitmap) → All IsByte alive → live_from alive 0 (m * 8) ≡ ones_in (take m alive)
unfolding ones_in
live_from-bytes zero alive h = unfold live_from in refl
live_from-bytes (suc m) [] h = live_from-nil 0 (suc m * 8)
live_from-bytes (suc m) (b ∷ bs) (p, h) =
    ap (live_from (b ∷ bs) 0) {x = suc m * 8} {y = 8 + m * 8} (omega arith)
    ∙ live_from-add (b ∷ bs) 0 8 (m * 8)
    ∙ rw (one_byte b bs p, live_from-cons b bs 0 (m * 8), live_from-bytes m bs h) refl

pub All-drop : (k : ℕ) (bs : Bitmap) → All IsByte bs → All IsByte (drop k bs)
All-drop zero bs h = h
All-drop (suc k) [] h = h
All-drop (suc k) (b ∷ bs) (p, h) = All-drop k bs h

length-drop : (k : ℕ) (xs : Bitmap) → length (drop k xs) ≡ length xs - k
length-drop zero xs = omega arith
length-drop (suc k) [] = omega arith
length-drop (suc k) (x ∷ xs) = omega (arith, length-drop k xs)

take-min : (k : ℕ) (xs : Bitmap) → take (min k (length xs)) xs ≡ take k xs
take-min zero xs = ap (λ (t : ℕ). take t xs) {x = min 0 (length xs)} {y = 0} (omega arith)
take-min (suc k) [] =
    ap (λ (t : ℕ). take t (let e : Bitmap = [] in e)) {x = min (suc k) 0} {y = 0} (omega arith)
take-min (suc k) (x ∷ xs) =
    ap (λ (t : ℕ). take t (x ∷ xs)) {x = min (suc k) (suc (length xs))}
      {y = suc (min k (length xs))} (omega arith)
    ∙ ap (λ (l : Bitmap). x ∷ l) (take-min k xs)

drop-min : (k : ℕ) (xs : Bitmap) → drop (min k (length xs)) xs ≡ drop k xs
drop-min zero xs = ap (λ (t : ℕ). drop t xs) {x = min 0 (length xs)} {y = 0} (omega arith)
drop-min (suc k) [] =
    ap (λ (t : ℕ). drop t (let e : Bitmap = [] in e)) {x = min (suc k) 0} {y = 0} (omega arith)
drop-min (suc k) (x ∷ xs) =
    ap (λ (t : ℕ). drop t (x ∷ xs)) {x = min (suc k) (suc (length xs))}
      {y = suc (min k (length xs))} (omega arith)
    ∙ drop-min k xs

-- The slice of whole bytes, clamped to the bitmap, is the slice.
slice_clamped :
    (lo hi : ℕ) (xs : Bitmap)
    → lo ≤ hi
    → take (min hi (length xs) - min lo (length xs)) (drop (min lo (length xs)) xs)
      ≡ take (hi - lo) (drop lo xs)
slice_clamped lo hi xs h =
    ap (take (min hi (length xs) - min lo (length xs))) (drop-min lo xs)
    ∙ ap (λ (t : ℕ). take t (drop lo xs)) {x = min hi (length xs) - min lo (length xs)}
        {y = min (hi - lo) (length (drop lo xs))} (omega (arith, length-drop lo xs))
    ∙ take-min (hi - lo) (drop lo xs)

middle :
    (k m : ℕ) (xs : Bitmap)
    → (if ltb k (k + m) then ones_in (take (k + m - k) xs) else 0) ≡ ones_in (take m xs)
unfolding ones_in
middle k zero xs = ground arith
middle k (suc m) xs =
    let e : k + suc m - k ≡ suc m = omega arith in
    let wide : ltb k (k + suc m) ≡ true = ground arith in rw (wide, e)

-- From a byte boundary on, counting whole bytes and then the bits that are left is counting bits.
pub ones_aligned :
    (alive : Bitmap) (k n : ℕ)
    → All IsByte alive
    → ones alive (k * 8) (k * 8 + n) ≡ live_from alive (k * 8) n
unfolding ones
ones_aligned alive k zero h = ground arith
ones_aligned alive k (suc n) h =
    let m : ℕ = suc n / 8 in
    let r : ℕ = suc n % 8 in
    let whole : live_from alive (k * 8) (m * 8) ≡ ones_in (take m (drop k alive)) =
      live_from-drop k alive (m * 8) ∙ live_from-bytes m (drop k alive) (All-drop k alive h) in
    let first : (k * 8 + 7) / 8 ≡ k = omega arith in
    let last : (k * 8 + suc n) / 8 ≡ k + m = omega arith in
    let no_head : min (k * 8) (k * 8 + suc n) - k * 8 ≡ 0 = omega arith in
    let from_tail : max ((k + m) * 8) (k * 8) ≡ k * 8 + m * 8 = omega arith in
    let tail_len : k * 8 + suc n - (k * 8 + m * 8) ≡ r = omega arith in
    let wide : leb (k * 8 + suc n) (k * 8) ≡ false = ground arith in
    let parts : live_from alive (k * 8) (suc n)
        ≡ live_from alive (k * 8) (m * 8) + live_from alive (k * 8 + m * 8) r =
      ap (live_from alive (k * 8)) {x = suc n} {y = m * 8 + r} (omega arith)
      ∙ live_from-add alive (k * 8) (m * 8) r in
    rw
      (
        wide,
        first,
        last,
        no_head,
        from_tail,
        tail_len,
        slice_clamped k (k + m) alive (omega arith),
        middle k m (drop k alive),
      )
      (omega (arith, whole, parts))

-- Within one byte, from a row that is not its first one, `ones` counts every row twice: once in the
-- loop before the whole bytes and once in the loop after them.
pub ones_within_byte :
    (alive : Bitmap) (from to : ℕ)
    → from < to
    → from % 8 ≢ 0
    → to / 8 ≡ from / 8
    → ones alive from to ≡ 2 * live_from alive from (to - from)
unfolding ones
ones_within_byte alive from to h off same =
    let wide : leb to from ≡ false = ground arith in
    let up : (from + 7) / 8 ≡ from / 8 + 1 = omega arith in
    let head : min ((from / 8 + 1) * 8) to ≡ to = omega arith in
    let none_whole : ltb (from / 8 + 1) (from / 8) ≡ false = ground arith in
    let back : max (from / 8 * 8) from ≡ from = omega arith in
    rw (wide, up, same, head, none_whole, back) (omega arith)
