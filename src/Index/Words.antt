-- ===== src/Index/Words.antt =====
-- crates/scour-index-native: 32-bit words in a byte slice, as the tables of the index write and read
-- them.
use scour.Prelude.{
  ℕ, zero, suc, ◌+◌, ◌*◌, ◌/◌, ◌%◌, ◌^◌, ◌<◌, ◌≡◌, refl, List, [], ◌∷◌, ◌++◌, arith, drop, take,
  sym, ◌∙◌, ap,
}
use scour.Index.Varint.{Bytes}

abbrev pub u32 : ℕ → ℕ
u32 n = n % 2 ^ 32

-- `n.to_le_bytes()` for a `u32`.
abbrev pub le_bytes : ℕ → Bytes
le_bytes n = n % 256 ∷ n / 256 % 256 ∷ n / 65536 % 256 ∷ n / 16777216 % 256 ∷ []

-- `u32::from_le_bytes` of the four bytes at an offset.
abbrev pub from_le : Bytes → ℕ
from_le [] = 0
from_le (b ∷ bytes) = b + 256 * from_le bytes

unfoldable pub u32_at : Bytes → ℕ → ℕ
u32_at bytes i = from_le (take 4 (drop i bytes))

pub from_le-le_bytes :
    (n : ℕ) (rest : Bytes) → n < 2 ^ 32 → from_le (take 4 (le_bytes n ++ rest)) ≡ n
from_le-le_bytes n rest h = omega arith

drop_nil {ℓ} : {A : Type ℓ} (n : ℕ) → drop {A = A} n [] ≡ []
drop_nil zero = refl
drop_nil (suc n) = refl

pub drop-add {ℓ} : {A : Type ℓ} (m n : ℕ) (xs : List A) → drop (m + n) xs ≡ drop n (drop m xs)
drop-add zero n xs = ap (λ k. drop k xs) (omega arith)
drop-add (suc m) n [] = drop_nil (suc m + n) ∙ sym (drop_nil n)
drop-add (suc m) n (x ∷ xs) =
    let e : suc m + n ≡ suc (m + n) = omega arith in rw e (drop-add m n xs)

abbrev pub IsU32 : ℕ → Type 0
IsU32 n = n < 2 ^ 32

pub next_entry :
    (k off : ℕ) (rest : Bytes) (i c : ℕ)
    → u32_at (le_bytes k ++ (le_bytes off ++ rest)) (suc i * 8 + c) ≡ u32_at rest (i * 8 + c)
unfolding u32_at
next_entry k off rest i c =
    let e : suc i * 8 + c ≡ 8 + (i * 8 + c) = omega arith in
    rw (e, drop-add 8 (i * 8 + c) (le_bytes k ++ (le_bytes off ++ rest)))

pub this_key :
    (k off : ℕ) (rest : Bytes) → IsU32 k → u32_at (le_bytes k ++ (le_bytes off ++ rest)) 0 ≡ k
unfolding u32_at
this_key k off rest h = from_le-le_bytes k (le_bytes off ++ rest) h

pub this_off :
    (k off : ℕ) (rest : Bytes) → IsU32 off → u32_at (le_bytes k ++ (le_bytes off ++ rest)) 4 ≡ off
unfolding u32_at
this_off k off rest h = from_le-le_bytes off rest h
