-- ===== src/Index/Varint/RoundTrip.antt =====
-- crates/scour-index-native/src/varint.rs: `put` and `get`.
use scour.Prelude.{
  ℕ, zero, suc, ◌+◌, ◌*◌, ◌/◌, ◌%◌, ◌^◌, ◌≤◌, ◌<◌, ◌≡◌, refl, ap, none, some, [], ◌∷◌, ◌++◌,
  append_assoc, ltb, if◌then◌else◌, length, bit_and, bit_or, arith, low_seven, set_top_bit,
  bit_or_shifted,
}
use scour.Index.Varint.{Bytes, IsU64, put_loop, put, get_loop, get}
use native.Mathlib.Numerals.{towards_suc}

-- The groups of seven digits, lowest first, for `v` below 2 ^ (7 * (k + 1)).
groups_of : ℕ → ℕ → Bytes
groups_of zero v = v ∷ []
groups_of (suc k) v =
    let rest = groups_of k (v / 128) in if ltb v 128 then v ∷ [] else (v % 128 + 128) ∷ rest

put_loop-groups_of :
    (k : ℕ) (out : Bytes) (v : ℕ)
    → v < 128 ^ suc k
    → put_loop (suc k) out v ≡ some (out ++ groups_of k v)
unfolding put_loop groups_of
put_loop-groups_of zero out v h = ground arith
put_loop-groups_of (suc k) out v h = ground (
  arith,
  set_top_bit (v % 256) (omega arith),
  put_loop-groups_of k (out ++ ((v % 128 + 128) ∷ [])) (v / 128) (omega arith),
  append_assoc out ((v % 128 + 128) ∷ []) (groups_of k (v / 128)),
)

-- One group at least, and one more for each round at most.
length-groups_of :
    (rounds w : ℕ) → (1 ≤ length (groups_of rounds w)) × (length (groups_of rounds w) < rounds + 2)
unfolding groups_of
length-groups_of zero w = omega arith
length-groups_of (suc rounds) w =
    let (least_one, most) = length-groups_of rounds (w / 128) in ground arith

shift_seven : (s : ℕ) → 2 ^ (s + 7) ≡ 128 * 2 ^ s
shift_seven s = simp towards_suc (omega arith)

-- The lowest group of `w`, and the rest of it, both from digit `s` on.
lowest_group : (w s : ℕ) → w * 2 ^ s ≡ w % 128 * 2 ^ s + w / 128 * 2 ^ (s + 7)
lowest_group w s =
    let whole : w ≡ 128 * (w / 128) + w % 128 = omega arith in
    let moved : w / 128 * 2 ^ (s + 7) ≡ w / 128 * (128 * 2 ^ s) = rw (shift_seven s) in
    omega (arith, moved, ap (λ t. t * 2 ^ s) whole)

small_group : (w s : ℕ) → w % 128 * 2 ^ s ≤ w * 2 ^ s
small_group w s = omega (arith, lowest_group w s)

-- `w` is what is still to be read, from digit `shift` on, and `v` is what has been read.
get_loop-groups_of :
    (k w i v shift : ℕ) (rest : Bytes)
    → w < 128 ^ suc k
    → v < 2 ^ shift
    → shift + 7 * k ≤ 63
    → v + w * 2 ^ shift < 2 ^ 64
    → get_loop (groups_of k w ++ rest) i v shift
      ≡ some (v + w * 2 ^ shift, i + length (groups_of k w))
unfolding groups_of get_loop
get_loop-groups_of zero w i v shift rest hw hv hs fits =
    ground (arith, low_seven w (omega arith), bit_or_shifted shift v w hv)
get_loop-groups_of (suc k) w i v shift rest hw hv hs fits = ground (
  arith,
  low_seven w,
  low_seven (w % 128 + 128) (omega arith),
  bit_or_shifted shift v w hv,
  bit_or_shifted shift v (w % 128) hv,
  lowest_group w shift,
  shift_seven shift,
  group_bound,
  get_loop-groups_of k (w / 128) (i + 1) (v + w % 128 * 2 ^ shift) (shift + 7) rest (omega arith),
)
  where
    group_bound : w % 128 * 2 ^ shift ≤ 127 * 2 ^ shift
    group_bound = grind arith

-- The bytes of a number.
pub varint_of : ℕ → Bytes
varint_of v = groups_of 9 v

pub put-varint_of : (out : Bytes) (v : ℕ) → IsU64 v → put out v ≡ some (out ++ varint_of v)
unfolding put varint_of
put-varint_of out v h = put_loop-groups_of 9 out v (omega arith)

pub get-varint_of :
    (v : ℕ) (rest : Bytes) → IsU64 v → get (varint_of v ++ rest) ≡ some (v, length (varint_of v))
unfolding get varint_of
get-varint_of v rest h = ground (arith, get_loop-groups_of 9 v 0 0 0 rest)

-- What `put` appends to the buffer for any `u64` is one to ten bytes, and `get` reads the number
-- back from them, whatever follows, and says how many bytes it took.
pub get-put :
    (out : Bytes) (v : ℕ) (rest : Bytes)
    → IsU64 v
    → (bytes : Bytes) × (put out v ≡ some (out ++ bytes))
      × (1 ≤ length bytes)
      × (length bytes ≤ 10)
      × (get (bytes ++ rest) ≡ some (v, length bytes))
unfolding varint_of
get-put out v rest h =
    let (lo, hi) = length-groups_of 9 v in
    (varint_of v, put-varint_of out v h, lo, omega arith, get-varint_of v rest h)

abbrev pub IsByte : ℕ → Type 0
IsByte b = b < 256

get_loop_takes :
    (bytes : Bytes) (i v shift n w : ℕ)
    → shift ≡ 7 * i
    → i ≤ 10
    → get_loop bytes i v shift ≡ some (w, n)
    → (i < n) × (n ≤ 10) × (n ≤ i + length bytes)
unfolding get_loop
get_loop_takes [] i v shift n w hs hi e = ground arith
get_loop_takes (b ∷ bytes) i v shift n w hs hi e = ground (
  arith,
  get_loop_takes bytes (i + 1) (bit_or v (bit_and b 0x7f * 2 ^ shift % 2 ^ 64)) (shift + 7) n w,
)

-- An answer of `get`, on any bytes, took one to ten of the bytes that there are.
pub get_takes :
    (bytes : Bytes) (v n : ℕ) → get bytes ≡ some (v, n) → (1 ≤ n) × (n ≤ 10) × (n ≤ length bytes)
unfolding get
get_takes bytes v n e = omega (arith, get_loop_takes bytes 0 0 0 n v (omega arith) (omega arith) e)

-- Bytes that all ask for another one.
abbrev pub Continues : Bytes → Type 0
Continues [] = Unit
Continues (b ∷ bytes) = (128 ≤ b) × Continues bytes

get_loop_endless :
    (bytes : Bytes) (i v shift : ℕ) → Continues bytes → get_loop bytes i v shift ≡ none
unfolding get_loop
get_loop_endless [] i v shift h = refl
get_loop_endless (b ∷ bytes) i v shift (p, h) = ground (
  arith,
  get_loop_endless bytes (i + 1) (bit_or v (bit_and b 0x7f * 2 ^ shift % 2 ^ 64)) (shift + 7) h,
)

get_loop_too_long :
    (front rest : Bytes) (i v shift : ℕ)
    → Continues front
    → shift ≡ 7 * i
    → i + length front ≡ 10
    → get_loop (front ++ rest) i v shift ≡ none
unfolding get_loop
get_loop_too_long [] [] i v shift h hs hl = refl
get_loop_too_long [] (b ∷ rest) i v shift h hs hl = ground arith
get_loop_too_long (b ∷ front) rest i v shift (p, h) hs hl = ground (
  arith,
  get_loop_too_long front rest (i + 1) (bit_or v (bit_and b 0x7f * 2 ^ shift % 2 ^ 64)) (shift + 7)
      h,
)

-- `get` refuses bytes that all ask for another one: the number does not end in them.
pub get_refuses : (front : Bytes) → Continues front → get front ≡ none
unfolding get
get_refuses front h = get_loop_endless front 0 0 0 h

-- `get` refuses ten bytes that all ask for another one, whatever follows them.
pub get_refuses_ten :
    (front rest : Bytes) → Continues front → length front ≡ 10 → get (front ++ rest) ≡ none
unfolding get
get_refuses_ten front rest h l = get_loop_too_long front rest 0 0 0 h (omega arith) (omega arith)
