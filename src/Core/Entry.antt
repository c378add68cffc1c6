-- ===== src/Core/Entry.antt =====
-- crates/scour-core/src/types/entry.rs: the name, the parent, the extension and the kind of an entry.
pub mod ExtTable
pub mod Classify
pub mod Names
use scour.Prelude.{
  ℕ, zero, suc, ◌+◌, ◌-◌, ◌/◌, Bool, true, false, not, ◌&&◌, ◌||◌, Option, none, some, List, [],
  ◌∷◌, ◌==◌, leb, if◌then◌else◌, Str, codes, str_eq, member, starts_with, has_char, is_empty,
  length, get_elem?, find, ℤ, as_u64, bit_and, strip_prefix,
}
use scour.Core.Kind.{Kind}
use scour.Core.Fold.{Std, fold, byte_len}
use scour.Core.Prefix.{str_le}
use ExtTable.{Table, ext_table}

-- `NAME_TABLE`
abbrev pub name_table : Table
name_table =
    (codes ".bash_profile", Kind.config)
    ∷ (codes ".bashrc", Kind.config)
    ∷ (codes ".cargo-ok", Kind.build)
    ∷ (codes ".dockerignore", Kind.config)
    ∷ (codes ".editorconfig", Kind.config)
    ∷ (codes ".env", Kind.config)
    ∷ (codes ".gitattributes", Kind.config)
    ∷ (codes ".gitconfig", Kind.config)
    ∷ (codes ".gitignore", Kind.config)
    ∷ (codes ".gitmodules", Kind.config)
    ∷ (codes ".npmignore", Kind.config)
    ∷ (codes ".npmrc", Kind.config)
    ∷ (codes ".profile", Kind.config)
    ∷ (codes ".vimrc", Kind.config)
    ∷ (codes ".zshrc", Kind.config)
    ∷ (codes "authors", Kind.doc)
    ∷ (codes "brewfile", Kind.code)
    ∷ (codes "contributors", Kind.doc)
    ∷ (codes "gemfile", Kind.code)
    ∷ (codes "install", Kind.doc)
    ∷ (codes "justfile", Kind.code)
    ∷ (codes "news", Kind.doc)
    ∷ (codes "notice", Kind.doc)
    ∷ (codes "pkgbuild", Kind.code)
    ∷ (codes "procfile", Kind.code)
    ∷ (codes "rakefile", Kind.code)
    ∷ (codes "todo", Kind.doc)
    ∷ (codes "vagrantfile", Kind.code)
    ∷ []

-- `NAME_PREFIX`
abbrev pub name_prefix : Table
name_prefix =
    (codes "changelog", Kind.doc)
    ∷ (codes "changes", Kind.doc)
    ∷ (codes "copying", Kind.doc)
    ∷ (codes "dockerfile", Kind.code)
    ∷ (codes "licence", Kind.doc)
    ∷ (codes "license", Kind.doc)
    ∷ (codes "makefile", Kind.code)
    ∷ (codes "readme", Kind.doc)
    ∷ []

-- `GENERATED_PAGES`
abbrev pub generated_pages : List Str
generated_pages =
    codes "allclasses"
    ∷ codes "allclasses-frame"
    ∷ codes "allclasses-index"
    ∷ codes "allclasses-noframe"
    ∷ codes "allpackages-index"
    ∷ codes "constant-values"
    ∷ codes "deprecated-list"
    ∷ codes "element-list"
    ∷ codes "help-doc"
    ∷ codes "index-all"
    ∷ codes "member-search-index"
    ∷ codes "overview-frame"
    ∷ codes "overview-summary"
    ∷ codes "overview-tree"
    ∷ codes "package-frame"
    ∷ codes "package-search-index"
    ∷ codes "package-summary"
    ∷ codes "package-tree"
    ∷ codes "package-use"
    ∷ codes "serialized-form"
    ∷ codes "type-search-index"
    ∷ []

-- `WINDOWS_RUNS`
abbrev pub windows_runs : List Str
windows_runs =
    codes "js"
    ∷ codes "jse"
    ∷ codes "vbe"
    ∷ codes "wsh"
    ∷ codes "hta"
    ∷ codes "cpl"
    ∷ codes "msc"
    ∷ codes "reg"
    ∷ codes "url"
    ∷ codes "application"
    ∷ codes "appref-ms"
    ∷ codes "pif"
    ∷ codes "scf"
    ∷ codes "inf"
    ∷ codes "msix"
    ∷ codes "appx"
    ∷ codes "msixbundle"
    ∷ codes "appxbundle"
    ∷ []

-- `rsplit_once`: what stands before and after the last place of the character.
unfoldable pub rsplit_char : ℕ → Str → Option (Str × Str)
rsplit_char c [] = none
rsplit_char c (a ∷ s) = elim (rsplit_char c s) [
  | some (front, rest) ↦ some (a ∷ front, rest)
  | none ↦ if a == c then some ([], s) else none
]

abbrev pub last_component : Str → Option (Str × Str) → Str
last_component path none = path
last_component path (some (front, rest)) = rest

-- `Entry::name` and `Entry::parent`
unfoldable pub entry_name : Str → Str
unfolding rsplit_char
entry_name path = last_component path (rsplit_char b'/' path)

abbrev pub front_of : Option (Str × Str) → Str
front_of none = []
front_of (some (front, rest)) = if is_empty front then codes "/" else front

unfoldable pub entry_parent : Str → Str
unfolding rsplit_char
entry_parent path = front_of (rsplit_char b'/' path)

abbrev usable_ext : Option (Str × Str) → Str
usable_ext none = []
usable_ext (some (stem, ext)) =
    if not (is_empty stem) && (not (is_empty ext) && leb (byte_len ext) 12) then ext else []

unfoldable pub ext_str : Str → Str
unfolding rsplit_char byte_len
ext_str name = usable_ext (rsplit_char b'.' name)

-- What is before the dot of an extension that the name has.
abbrev stem_of : Option (Str × Str) → Str
stem_of none = []
stem_of (some (stem, ext)) = stem

-- A binary search in the rows from `lo` on and before `hi`; a round halves them at least, and the
-- fuel is the number of rows.
unfoldable pub search_rows : {A : Type 0} → ℕ → List (Str × A) → Str → ℕ → ℕ → Option A
unfolding str_eq str_le
search_rows zero t s lo hi = none
search_rows (suc f) t s lo hi =
    let mid = lo + (hi - lo) / 2 in
    elim (leb hi lo) [
      | true ↦ none
      | false ↦ elim (get_elem? t mid) [
        | none ↦ none
        | some (k, v) ↦ elim (str_eq k s) [
          | true ↦ some v
          | false ↦ elim (str_le k s) [
            | true ↦ search_rows f t s (mid + 1) hi
            | false ↦ search_rows f t s lo mid
          ]
        ]
      ]
    ]

unfoldable pub table_lookup : Table → Str → Option Kind
unfolding search_rows
table_lookup t folded = search_rows (length t) t folded 0 (length t)

abbrev as_rows : List Str → List (Str × Bool)
as_rows [] = []
as_rows (p ∷ ps) = (p, true) ∷ as_rows ps

abbrev is_found : Option Bool → Bool
is_found none = false
is_found (some b) = b

-- `mode & 0o111 != 0`
abbrev pub runs : ℤ → Bool
runs mode = not (bit_and (as_u64 mode) 0o111 == 0)

abbrev pub by_mode : ℤ → Kind
by_mode mode = if runs mode then Kind.exec else Kind.file

abbrev pub or_mode : Option Kind → ℤ → Kind
or_mode none mode = by_mode mode
or_mode (some k) mode = k

abbrev first_prefix : Option (Str × Kind) → Option Kind
first_prefix none = none
first_prefix (some (p, k)) = some k

abbrev or_prefix : Str → Option Kind → Option Kind
or_prefix folded (some k) = some k
or_prefix folded none = first_prefix (find (λ row. starts_with row.0 folded) name_prefix)

abbrev is_exec : Kind → Bool
is_exec Kind.exec = true
is_exec _ = false

module _ (std : Std) where
  -- `ext_of`, and `Entry::ext`
  unfoldable pub ext_of : Str → Str
  unfolding ext_str fold
  ext_of name = fold std (ext_str name)

  unfoldable pub entry_ext : Bool → Str → Str
  unfolding ext_of entry_name
  entry_ext is_dir path = if is_dir then [] else ext_of (entry_name path)

  unfoldable pub is_generated_page : Str → Bool
  unfolding rsplit_char search_rows fold
  is_generated_page name =
      let stem = stem_of (rsplit_char b'.' name) in
      has_char b'.' stem
      || is_found (
          search_rows (length generated_pages) (as_rows generated_pages) (fold std stem) 0
            (length generated_pages))

  abbrev kind_of_ext : Str → Str → Option Kind
  kind_of_ext name folded =
      if (str_eq folded (codes "html") || str_eq folded (codes "htm")) && is_generated_page name
      then some Kind.build
      else if str_eq folded (codes "bin")
      then some Kind.build
      else table_lookup ext_table folded

  -- What the name alone says.
  abbrev pub kind_of_name : Str → Option Kind
  kind_of_name name =
      if is_empty (ext_str name)
      then or_prefix (fold std name) (table_lookup name_table (fold std name))
      else kind_of_ext name (fold std (ext_str name))

  unfoldable pub kind_of : Bool → Str → ℤ → Kind
  unfolding ext_str fold table_lookup is_generated_page str_eq strip_prefix
  kind_of is_dir name mode = if is_dir then Kind.dir else or_mode (kind_of_name name) mode

  -- `windows` is `cfg!(windows)`.
  unfoldable pub runs_when_opened : Bool → Str → ℤ → Bool
  unfolding kind_of ext_of str_eq
  runs_when_opened windows name mode =
      is_exec (kind_of false name mode)
      || (member (ext_of name) (
            codes "desktop"
            ∷ codes "sh"
            ∷ codes "bash"
            ∷ codes "zsh"
            ∷ codes "ksh"
            ∷ codes "fish"
            ∷ codes "ps1"
            ∷ codes "scr"
            ∷ codes "lnk"
            ∷ codes "vbs"
            ∷ codes "wsf"
            ∷ codes "jar"
            ∷ [])
          || (windows && member (ext_of name) windows_runs))
