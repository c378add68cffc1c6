-- ===== src/Index/Rank/Upto.antt =====
-- crates/scour-index-native/src/rank.rs: `upto` and the table that `build` makes.
use scour.Prelude.{
  ℕ, zero, suc, ◌+◌, ◌-◌, ◌*◌, ◌/◌, ◌%◌, ◌^◌, ◌≤◌, ◌<◌, ◌≡◌, refl, ap, ◌∙◌, min, none, some, List,
  [], ◌∷◌, if◌then◌else◌, is_empty, length, get_elem?, last?, take, drop, All, arith, Option-cases,
  inl, inr,
}
use scour.Index.Rank.{
  Bitmap, ones_in, live_from, ones, prefix_loop, build, upto, tail, stride, or_zero,
}
use scour.Index.Rank.Counting.{
  IsByte, live_from-add, live_from-drop, live_from-bytes, ones_aligned, All-drop,
}
use native.Mathlib.Nat.{mod-eq_of_lt}

ones_in-take-drop : (k : ℕ) (bs : Bitmap) → ones_in bs ≡ ones_in (take k bs) + ones_in (drop k bs)
unfolding ones_in
ones_in-take-drop zero bs = omega arith
ones_in-take-drop (suc k) [] = omega arith
ones_in-take-drop (suc k) (b ∷ bs) = omega (arith, ones_in-take-drop k bs)

length-drop-le : (k : ℕ) (b : ℕ) (bs : Bitmap) → length (drop k bs) ≤ length bs
length-drop-le zero b bs = omega arith
length-drop-le (suc k) b [] = omega arith
length-drop-le (suc k) b (c ∷ bs) = omega (arith, length-drop-le k b bs)

-- The entry of each stride is the count of the rows before it.
prefix_loop-entry :
    (f running : ℕ) (bs : Bitmap) (e n : ℕ)
    → All IsByte bs
    → running + ones_in bs < 2 ^ 32
    → get_elem? (prefix_loop f running bs) e ≡ some n
    → n ≡ running + live_from bs 0 (e * stride)
unfolding prefix_loop
prefix_loop-entry zero running [] e n ok fits h = absurd (cc)
prefix_loop-entry (suc f) running [] e n ok fits h = absurd (cc)
prefix_loop-entry zero running (b ∷ bs) e n ok fits h = absurd (cc)
prefix_loop-entry (suc f) running (b ∷ bs) zero n ok fits h =
    let first : running ≡ n = cc in unfold live_from in omega arith
prefix_loop-entry (suc f) running (b ∷ bs) (suc e) n ok fits h =
    let chunk : ℕ = ones_in (take 64 (b ∷ bs)) in
    let split = ones_in-take-drop 64 (b ∷ bs) in
    let small : (running + chunk) % 2 ^ 32 ≡ running + chunk = mod-eq_of_lt (omega arith) in
    let rest : n ≡ (running + chunk) % 2 ^ 32 + live_from (drop 64 (b ∷ bs)) 0 (e * stride) =
      prefix_loop-entry f ((running + chunk) % 2 ^ 32) (drop 64 (b ∷ bs)) e n
        (All-drop 64 (b ∷ bs) ok) (omega arith) h in
    let rows : live_from (b ∷ bs) 0 (suc e * stride)
        ≡ chunk + live_from (drop 64 (b ∷ bs)) 0 (e * stride) =
      ap (live_from (b ∷ bs) 0) {x = suc e * stride} {y = 512 + e * stride} (omega arith)
      ∙ live_from-add (b ∷ bs) 0 512 (e * stride)
      ∙ rw (live_from-bytes 64 (b ∷ bs) ok, live_from-drop 64 (b ∷ bs) (e * stride)) refl in
    omega arith

last?-eq : (xs : List ℕ) → last? xs ≡ get_elem? xs (length xs - 1)
last?-eq [] = refl
last?-eq (x ∷ []) = refl
last?-eq (x ∷ y ∷ xs) =
    last?-eq (y ∷ xs)
    ∙ ap (get_elem? (x ∷ y ∷ xs)) {x = suc (suc (length xs) - 1)} {y = suc (suc (length xs)) - 1}
        (omega arith)

get_elem?-past : (xs : List ℕ) (i : ℕ) → get_elem? xs i ≡ none → length xs ≤ i
get_elem?-past [] i h = omega arith
get_elem?-past (x ∷ xs) zero h = absurd (cc)
get_elem?-past (x ∷ xs) (suc i) h = omega (arith, get_elem?-past xs i h)

get_elem?-within : (xs : List ℕ) (i : ℕ) → i < length xs → (n : ℕ) × (get_elem? xs i ≡ some n)
get_elem?-within [] i h = elim h [ ]
get_elem?-within (x ∷ xs) zero h = (x, refl)
get_elem?-within (x ∷ xs) (suc i) h = get_elem?-within xs i (omega arith)

-- Rows counted from an entry of the table on.
from_entry :
    (alive : Bitmap) (e row n : ℕ)
    → All IsByte alive
    → e * stride ≤ row
    → n ≡ live_from alive 0 (e * stride)
    → n + ones alive (e * stride) row ≡ live_from alive 0 row
from_entry alive e row n ok le h =
    let k : ℕ = e * 64 in
    let d : ℕ = row - e * stride in
    let counted : ones alive (e * stride) row ≡ live_from alive (0 + e * stride) d =
      at_byte (e * stride) row (omega arith) (omega arith) in
    let parts : live_from alive 0 row
        ≡ live_from alive 0 (e * stride) + live_from alive (0 + e * stride) d =
      ap (live_from alive 0) {x = row} {y = e * stride + d} (omega arith)
      ∙ live_from-add alive 0 (e * stride) d in
    omega arith
  where
    at_byte :
        (from to : ℕ)
        → from ≡ e * 64 * 8
        → to ≡ from + (row - e * stride)
        → ones alive from to ≡ live_from alive (0 + from) (row - e * stride)
    at_byte from to p q =
        let zero_plus : 0 + from ≡ e * 64 * 8 = omega arith in
        rw (zero_plus, q, p) (ones_aligned alive (e * 64) (row - e * stride) ok)

prefix_not_empty :
    (f : ℕ) (b : ℕ) (bs : Bitmap) → length (b ∷ bs) ≤ f → 1 ≤ length (prefix_loop f 0 (b ∷ bs))
unfolding prefix_loop
prefix_not_empty zero b bs h = omega arith
prefix_not_empty (suc f) b bs h = omega arith

-- For a bitmap of bytes with fewer than 2 ^ 32 live rows, `upto` is the count of the live rows before
-- `row`, no further than the segment's rows; an absent bitmap makes every row live.
pub upto-build :
    (alive : Bitmap) (rows row : ℕ)
    → All IsByte alive
    → ones_in alive < 2 ^ 32
    → upto (build alive rows) alive row
      ≡ (if is_empty alive then min row rows else live_from alive 0 (min row rows))
unfolding upto build tail
upto-build [] rows row ok fits = refl
upto-build (b ∷ bs) rows row ok fits = elim (Option-cases (get_elem? table entry)) [
  | inr (n, e) ↦ rw e (from_entry alive entry here n ok (omega arith) (entry_counts entry n e))
  | inl e ↦ rw e (
      past
        (get_elem?-within table (length table - 1)
          (omega (arith, prefix_not_empty (length alive) b bs (omega arith))))
        (get_elem?-past table entry e))
]
  where
    alive : Bitmap
    alive = b ∷ bs

    here : ℕ
    here = min row rows

    entry : ℕ
    entry = here / stride

    table : List ℕ
    table = prefix_loop (length alive) 0 alive

    entry_counts : (e n : ℕ) → get_elem? table e ≡ some n → n ≡ live_from alive 0 (e * stride)
    entry_counts e n h =
        omega (arith, prefix_loop-entry (length alive) 0 alive e n ok (omega arith) h)

    past :
        (n : ℕ) × (get_elem? table (length table - 1) ≡ some n)
        → length table ≤ entry
        → or_zero (last? table) + ones alive ((length table - 1) * stride) here
          ≡ live_from alive 0 here
    past (n, h) le =
        rw (last?-eq table, h)
          (from_entry alive (length table - 1) here n ok (omega arith)
            (entry_counts (length table - 1) n h))
