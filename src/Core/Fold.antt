-- ===== src/Core/Fold.antt =====
-- crates/scour-core/src/text.rs: case folding. The Unicode tables of the standard library and its
-- numbers with a fraction are the parameters of the model.
pub mod Laws
use scour.Prelude.{
  ℕ, zero, suc, ◌+◌, Bool, true, false, Option, List, [], ◌∷◌, ◌++◌, ◌==◌, ltb, if◌then◌else◌, Str,
  ℤ, flat_map,
}

-- What the program uses of the standard library and of the machine, and does not implement.
pub record Std : Type 1 where
  -- `char::to_lowercase`, `char::is_alphabetic`, `char::is_whitespace`.
  pub to_lowercase : ℕ → Str
  pub is_alphabetic : ℕ → Bool
  pub is_whitespace : ℕ → Bool
  -- `f64`: `str::parse`, `as f64` of an `i64`, the product, `as i64`.
  pub F64 : Type 0
  pub parse_f64 : Str → Option F64
  pub from_i64 : ℤ → F64
  pub times : F64 → F64 → F64
  pub truncated : F64 → ℤ
  -- `std::fs::read_to_string`, where it succeeds.
  pub read_to_string : Str → Option Str

abbrev pub dot_above : ℕ
dot_above = 0x307

abbrev pub dotless_i : ℕ
dotless_i = 0x131

-- One lowercase character: the dot above is dropped, and the dotless i gets its dot.
unfoldable pub fold_lower : Str → Str
fold_lower [] = []
fold_lower (c ∷ s) =
    let rest = fold_lower s in
    if c == dot_above then rest else if c == dotless_i then b'i' ∷ rest else c ∷ rest

-- `len_utf8`
unfoldable pub len_utf8 : ℕ → ℕ
len_utf8 c = if ltb c 0x80 then 1 else if ltb c 0x800 then 2 else if ltb c 0x10000 then 3 else 4

-- The length of a text in bytes.
unfoldable pub byte_len : Str → ℕ
unfolding len_utf8
byte_len [] = 0
byte_len (c ∷ s) = len_utf8 c + byte_len s

abbrev pub repeat_n : ℕ → ℕ → List ℕ
repeat_n zero x = []
repeat_n (suc n) x = x ∷ repeat_n n x

module _ (std : Std) where
  open std use {to_lowercase}

  -- `DefaultFolder::fold_into`, as what it appends.
  unfoldable pub fold : Str → Str
  unfolding fold_lower
  fold [] = []
  fold (c ∷ s) = fold_lower (to_lowercase c) ++ fold s

  -- The loop of `fold_indexed` from byte offset `i` of the source on.
  unfoldable pub fold_indexed_from : ℕ → Str → Str × List ℕ
  unfolding byte_len
  fold_indexed_from i [] = ([], i ∷ [])
  fold_indexed_from i (c ∷ s) =
      let piece = fold_lower (to_lowercase c) in
      let (folded, map) = fold_indexed_from (i + len_utf8 c) s in
      (piece ++ folded, repeat_n (byte_len piece) i ++ map)

  unfoldable pub fold_indexed : Str → Str × List ℕ
  unfolding fold_indexed_from
  fold_indexed s = fold_indexed_from 0 s
