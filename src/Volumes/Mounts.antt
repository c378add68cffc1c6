-- ===== src/Volumes/Mounts.antt =====
-- crates/scour-volumes/src/mountinfo.rs: the mount table of the kernel. A text is the list of its bytes
-- here; the conversion of what is not UTF-8 comes after, and is not modelled.
pub mod Escapes
use scour.Prelude.{
  ℕ, zero, suc, ◌+◌, ◌-◌, ◌*◌, ◌%◌, Bool, true, false, ◌&&◌, Option, none, some, List, [], ◌∷◌,
  ◌==◌, leb, if◌then◌else◌, Str, codes, split, split_once, filter_map,
}
use scour.Query.Terms.{lines}

pub record Mount : Type 0 where
  pub device : Str
  pub part : Str
  pub place : Str
  pub fs : Str
  pub source : Str

abbrev pub backslash : ℕ
backslash = 92

abbrev pub is_octal : ℕ → Bool
is_octal d = leb b'0' d && leb d b'7'

-- The byte of three octal digits, in the arithmetic of a `u8`.
abbrev pub octal_value : ℕ → ℕ → ℕ → ℕ
octal_value d e f = ((d - b'0') * 64 + (e - b'0') * 8 + (f - b'0')) % 256

unfoldable pub unescape : Str → Str
unescape [] = []
unescape (b ∷ []) = b ∷ []
unescape (b ∷ d ∷ []) = b ∷ unescape (d ∷ [])
unescape (b ∷ d ∷ e ∷ []) = b ∷ unescape (d ∷ e ∷ [])
unescape (b ∷ d ∷ e ∷ f ∷ s) =
    let on = b ∷ unescape (d ∷ e ∷ f ∷ s) in
    let octal = octal_value d e f ∷ unescape s in
    if b == backslash && (is_octal d && (is_octal e && is_octal f)) then octal else on

-- The columns of a line, before and after the dash.
abbrev mount_of : List Str → List Str → Option Mount
mount_of (_ ∷ _ ∷ device ∷ part ∷ place ∷ _) (fs ∷ source ∷ _) = some (record {
  device = device;
  part = unescape part;
  place = unescape place;
  fs = fs;
  source = unescape source;
})
mount_of _ _ = none

abbrev of_halves : Option (Str × Str) → Option Mount
of_halves none = none
of_halves (some (head, tail)) = mount_of (split b' ' head) (split b' ' tail)

unfoldable pub line : Str → Option Mount
unfolding split_once split unescape
line text = of_halves (split_once (codes " - ") text)

unfoldable pub parse : Str → List Mount
unfolding line lines
parse text = filter_map line (lines text)
