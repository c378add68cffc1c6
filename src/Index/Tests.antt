-- ===== src/Index/Tests.antt =====
-- Runs of the numbers and of the ranks, and the theorems at concrete inputs.
use scour.Prelude.{
  has, any, ◌==◌, ◌&&◌, codes, cmp_str, ℕ, ◌-◌, ◌*◌, ◌≤◌, ◌^◌, some, List, [], ◌∷◌, ◌++◌, ℤ, pos,
  negsuc, ◌≡◌, refl, length, arith, min, is_empty, if◌then◌else◌,
}
use Prim.Native.Nat.{Ordering}
use scour.Index.Ids.{IdWriter, IdMap, open_map, finish, rows_for}
use scour.Index.Ids.Rows.{rows_for-finish}
use scour.Index.Order.{joined, joined_lem}
use scour.Index.Varint.{Bytes, put, get, pack, unpack_one, width_for}
use scour.Index.Varint.RoundTrip.{get-put, Continues}
use scour.Index.Varint.Packing.{unpack_one-pack}
use scour.Index.Rank.{build, upto, ones, live_from, ones_in, first_at_or_below}
use scour.Index.Rank.Counting.{ones_within_byte}
use scour.Index.Rank.Upto.{upto-build}
use scour.Index.Rank.Search.{first_at_or_below-above, above}

get-put_example :
    (bytes : Bytes) × (put (7 ∷ []) 300 ≡ some ((7 ∷ []) ++ bytes))
    × (1 ≤ length bytes)
    × (length bytes ≤ 10)
    × (get (bytes ++ (9 ∷ [])) ≡ some (300, length bytes))
get-put_example = get-put (7 ∷ []) 300 (9 ∷ []) (omega arith)

abbrev two_bytes : Bytes
two_bytes = 172 ∷ 2 ∷ 5 ∷ []

abbrev ten : Bytes
ten = 128 ∷ 128 ∷ 128 ∷ 128 ∷ 128 ∷ 128 ∷ 128 ∷ 128 ∷ 128 ∷ 128 ∷ []

ten-Continues : Continues ten
ten-Continues = (
  omega arith,
  (
    omega arith,
    (
      omega arith,
      (
        omega arith,
        (
          omega arith,
          (omega arith, (omega arith, (omega arith, (omega arith, (omega arith, tt))))),
        ),
      ),
    ),
  ),
)

-- The bits above the sixty-fourth of a tenth byte are lost.
a_tenth_byte_is_cut :
    get (255 ∷ 255 ∷ 255 ∷ 255 ∷ 255 ∷ 255 ∷ 255 ∷ 255 ∷ 255 ∷ 127 ∷ []) ≡ some (2 ^ 64 - 1, 10)
unfolding get
a_tenth_byte_is_cut = refl

abbrev block : List ℤ
block = pos 5 ∷ negsuc 2 ∷ pos 1000 ∷ []

unpack_one-pack_example :
    unpack_one
      (pack [] block (width_for block).0 (width_for block).1)
      (width_for block).0
      (width_for block).1
      1
    ≡ negsuc 2
unpack_one-pack_example =
    unpack_one-pack block 1 (negsuc 2)
      ((omega arith, omega arith), ((omega arith, omega arith), ((omega arith, omega arith), tt)))
      refl

abbrev alive : List ℕ
alive = 0b10110101 ∷ 0b00000011 ∷ []

upto-build_example :
    upto (build alive 12) alive 9
    ≡ (if is_empty alive then min 9 12 else live_from alive 0 (min 9 12))
unfolding scour.Index.Rank.count_ones
upto-build_example =
    upto-build alive 12 9 (omega arith, (omega arith, tt)) (unfold ones_in in omega arith)

ones_within_byte_example : ones alive 2 6 ≡ 2 * live_from alive 2 (6 - 2)
ones_within_byte_example = ones_within_byte alive 2 6 (omega arith) (omega arith) refl

abbrev falling : ℕ → ℤ
falling i = pos (10 - i)

first_at_or_below-above_example : first_at_or_below 8 (pos 6) falling ≡ above (pos 6) falling 8
first_at_or_below-above_example = first_at_or_below-above 8 (pos 6) falling (λ i j p q. omega arith)

abbrev pushed : IdWriter
pushed = (9, 0) ∷ (4, 1) ∷ (9, 2) ∷ []

rows_for-finish_example :
    (m : IdMap) × (open_map (finish pushed) ≡ some m)
    × (has 2 (rows_for m 9) ≡ any (λ p. p.0 == 9 && p.1 == 2) pushed)
rows_for-finish_example =
    rows_for-finish pushed 9 2
      ((omega arith, omega arith), ((omega arith, omega arith), ((omega arith, omega arith), tt)))
      (omega arith)

-- As pairs of a head and a name the first would come first; as paths the second does.
a_dash_before_a_slash : joined (codes "/a/") (codes "c") (codes "/a-x/") (codes "b") ≡ Ordering.gt
unfolding joined
a_dash_before_a_slash = refl

joined_example :
    joined (codes "/a/") (codes "c") (codes "/a-x/") (codes "b")
    ≡ cmp_str (codes "/a/" ++ codes "c") (codes "/a-x/" ++ codes "b")
joined_example =
    joined_lem (codes "/a/") (codes "c") (codes "/a-x/") (codes "b") refl refl refl refl
