-- ===== src/Names.antt =====
-- crates/scour-name/src/lib.rs: what a file may be called, and giving it a different name.
pub mod Laws
mod Tests
use scour.Prelude.{
  ℕ, Bool, true, false, ◌||◌, Option, none, some, List, [], ◌∷◌, ltb, if◌then◌else◌, Str, codes,
  str_eq, has_char, ends_char, is_empty, is_some,
}
use scour.Core.Fold.{byte_len}
use scour.Core.Prefix.{slash}

pub data Refusal : Type 0 where
  empty has_slash dots has_nul trailing_space too_long taken unchanged failed : Refusal

unfoldable pub msgid : Refusal → Str
msgid Refusal.empty = codes "a name cannot be empty"
msgid Refusal.has_slash = codes "a name cannot contain a slash"
msgid Refusal.dots = codes "that names a folder, not a file in one"
msgid Refusal.has_nul = codes "that is not a name a filesystem will take"
msgid Refusal.trailing_space = codes "a name should not end in a space or a dot"
msgid Refusal.too_long = codes "that name is too long"
msgid Refusal.taken = codes "something is already called that"
msgid Refusal.unchanged = codes "that is the name it already has"
msgid Refusal.failed = codes "the file could not be renamed"

abbrev pub name_max : ℕ
name_max = 255

pub data Outcome {ℓ} (A : Type ℓ) : Type ℓ where
  done : A → Outcome A
  refused : Refusal → Outcome A

-- How `std::fs::rename` ends.
pub data Renamed : Type 0 where
  moved already_exists other_error : Renamed

-- The paths of the standard library, and its file system with the state that it has.
pub record FileSystem : Type 1 where
  pub FilePath : Type 0
  pub State : Type 0
  -- `file_name().and_then(|n| n.to_str())`, `parent`, `join` and `PathBuf::from`.
  pub file_name : FilePath → Option Str
  pub parent : FilePath → Option FilePath
  pub join : FilePath → Str → FilePath
  pub from : Str → FilePath
  -- `std::fs::symlink_metadata(_).is_ok()` and `std::fs::rename`.
  pub symlink_exists : State → FilePath → Bool
  pub move_to : State → FilePath → FilePath → State × Renamed

abbrev pub is_name : Option Str → Str → Bool
is_name none name = false
is_name (some s) name = str_eq s name

module _ (fs : FileSystem) where
  open fs use {FilePath, State, file_name, parent, join, from, symlink_exists, move_to}

  abbrev pub in_folder : Option FilePath → Str → FilePath
  in_folder none name = from name
  in_folder (some dir) name = join dir name

  unfoldable pub beside : FilePath → Str → FilePath
  beside path name = in_folder (parent path) name

  unfoldable pub check : State → FilePath → Str → Outcome (Unit {0})
  unfolding beside str_eq byte_len
  check st path name =
      if is_empty name
      then Outcome.refused Refusal.empty
      else if has_char slash name
      then Outcome.refused Refusal.has_slash
      else if has_char 0 name
      then Outcome.refused Refusal.has_nul
      else if str_eq name (codes ".") || str_eq name (codes "..")
      then Outcome.refused Refusal.dots
      else if ends_char b' ' name || ends_char b'.' name
      then Outcome.refused Refusal.trailing_space
      else if ltb name_max (byte_len name)
      then Outcome.refused Refusal.too_long
      else if is_name (file_name path) name
      then Outcome.refused Refusal.unchanged
      else if symlink_exists st (beside path name)
      then Outcome.refused Refusal.taken
      else Outcome.done tt

  abbrev pub answer : FilePath → State × Renamed → State × Outcome FilePath
  answer to (st, Renamed.moved) = (st, Outcome.done to)
  answer to (st, Renamed.already_exists) = (st, Outcome.refused Refusal.taken)
  answer to (st, Renamed.other_error) = (st, Outcome.refused Refusal.failed)

  unfoldable pub rename : State → FilePath → Str → State × Outcome FilePath
  unfolding check beside
  rename st path name = elim (check st path name) [
    | Outcome.refused r ↦ (st, Outcome.refused r)
    | Outcome.done u ↦ let to = beside path name in answer to (move_to st path to)
  ]
