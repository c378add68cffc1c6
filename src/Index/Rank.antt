-- ===== src/Index/Rank.antt =====
-- crates/scour-index-native/src/rank.rs: how many rows before one are live, and the binary search
-- for a row. A bitmap is a list of bytes.
pub mod Counting
pub mod Upto
pub mod Search
use scour.Prelude.{
  ℕ, zero, suc, ◌+◌, ◌-◌, ◌*◌, ◌/◌, ◌%◌, ◌^◌, min, max, Bool, true, false, not, Option, none, some,
  List, [], ◌∷◌, ltb, leb, ◌==◌, if◌then◌else◌, length, get_elem?, last?, take, drop, is_empty,
  bit_and, ℤ, ltb_ℤ,
}

abbrev pub Bitmap : Type 0
Bitmap = List ℕ

abbrev pub stride : ℕ
stride = 512

pub record LiveRank : Type 0 where
  pub prefix : List ℕ
  pub rows : ℕ
  pub all_live : Bool

-- `count_ones` of a byte.
abbrev digit_sum : ℕ → ℕ → ℕ
digit_sum zero n = 0
digit_sum (suc f) n = n % 2 + digit_sum f (n / 2)

unfoldable pub count_ones : ℕ → ℕ
count_ones b = digit_sum 8 b

unfoldable pub ones_in : List ℕ → ℕ
ones_in [] = 0
ones_in (b ∷ bs) = count_ones b + ones_in bs

-- The loop of `build` over `alive.chunks(STRIDE / 8)`; `running` is a `u32`. A chunk is not empty,
-- so the length of the bitmap is fuel enough.
unfoldable pub prefix_loop : ℕ → ℕ → Bitmap → List ℕ
unfolding ones_in
prefix_loop f running [] = []
prefix_loop zero running (b ∷ bs) = []
prefix_loop (suc f) running (b ∷ bs) =
    running ∷ prefix_loop f ((running + ones_in (take 64 (b ∷ bs))) % 2 ^ 32) (drop 64 (b ∷ bs))

unfoldable pub build : Bitmap → ℕ → LiveRank
unfolding prefix_loop
build alive rows =
    if is_empty alive
    then record { prefix = []; rows = rows; all_live = true }
    else record { prefix = prefix_loop (length alive) 0 alive; rows = rows; all_live = false }

abbrev bit_of : Option ℕ → ℕ → Bool
bit_of none k = false
bit_of (some byte) k = not (bit_and byte (2 ^ k) == 0)

unfoldable pub bit : Bitmap → ℕ → Bool
bit alive row = bit_of (get_elem? alive (row / 8)) (row % 8)

-- `usize::from` of a bit.
abbrev pub one_if : Bool → ℕ
one_if true = 1
one_if false = 0

-- The loop `for row in from..to { count += bit(row) }` over `n` rows.
unfoldable pub live_from : Bitmap → ℕ → ℕ → ℕ
live_from alive from zero = 0
live_from alive from (suc n) = one_if (bit alive from) + live_from alive (from + 1) n

unfoldable pub ones : Bitmap → ℕ → ℕ → ℕ
unfolding live_from ones_in
ones alive from to =
    let first_whole = (from + 7) / 8 in
    let last_whole = to / 8 in
    let head = live_from alive from (min (first_whole * 8) to - from) in
    let middle = ones_in (
      take (min last_whole (length alive) - min first_whole (length alive))
        (drop (min first_whole (length alive)) alive)) in
    let tail = live_from alive (max (last_whole * 8) from) (to - max (last_whole * 8) from) in
    if leb to from then 0 else head + (if ltb first_whole last_whole then middle else 0) + tail

abbrev or_zero : Option ℕ → ℕ
or_zero none = 0
or_zero (some n) = n

unfoldable pub tail : LiveRank → Bitmap → ℕ → ℕ
unfolding ones
tail r alive row = ones alive ((length r.prefix - 1) * stride) row

unfoldable pub upto : LiveRank → Bitmap → ℕ → ℕ
unfolding ones tail
upto r alive row =
    let row = min row r.rows in
    let entry = row / stride in
    if r.all_live then row else elim (get_elem? r.prefix entry) [
      | some n ↦ n + ones alive (entry * stride) row
      | none ↦ or_zero (last? r.prefix) + tail r alive row
    ]

unfoldable pub total : LiveRank → Bitmap → ℕ
unfolding upto
total r alive = upto r alive r.rows

-- The binary search on `lo..hi`; the distance between the two is fuel enough.
unfoldable pub search_loop : ℕ → ℤ → (ℕ → ℤ) → ℕ → ℕ → ℕ
search_loop zero bound at lo hi = lo
search_loop (suc f) bound at lo hi =
    let mid = lo + (hi - lo) / 2 in
    let right = search_loop f bound at (mid + 1) hi in
    let left = search_loop f bound at lo mid in
    if ltb lo hi then if ltb_ℤ bound (at mid) then right else left else lo

unfoldable pub first_at_or_below : ℕ → ℤ → (ℕ → ℤ) → ℕ
unfolding search_loop
first_at_or_below rows bound at = search_loop rows bound at 0 rows
