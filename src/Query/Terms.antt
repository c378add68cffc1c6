-- ===== src/Query/Terms.antt =====
-- crates/scour-query/src/parse.rs: one alternative of the query, as a condition.
pub mod Unusable
use scour.Prelude.{
  ℕ, ◌+◌, ◌*◌, Bool, true, false, not, ◌&&◌, ◌||◌, Option, none, some, List, [], ◌∷◌, ◌++◌, map,
  ◌==◌, if◌then◌else◌, Str, codes, str_eq, strip_prefix, starts_char, has_char, trim_start,
  trim_end, remove_char, replace_char, is_empty, is_some, keep, split, member, parse_i64, ℤ, pos,
  cons_head,
}
use scour.Core.Ast.{Cmp, TimeField, NumField, Match, Alt}
use scour.Core.Kind.{Kind, from_name}
use scour.Core.Fold.{Std, fold}
use scour.Query.Fields.{Field, lookup}
use scour.Query.Value.{trim, split_cmp, parse_size}
use scour.Query.Time.{parse_time}
use scour.Query.Tokens.{quote, bang, split_field}

abbrev pub unquote : Str → Str
unquote = remove_char quote

-- A directory as the index spells it; `~` is the home, where one is known.
abbrev at_home : Str → Option Str → Str → Str
at_home h (some rest) trimmed = h ++ (b'/' ∷ rest)
at_home h none trimmed = trimmed

abbrev in_home : Option Str → Str → Str
in_home none trimmed = trimmed
in_home (some h) trimmed =
    if str_eq trimmed (codes "~") then h else at_home h (strip_prefix (codes "~/") trimmed) trimmed

unfoldable pub trim_dir : Str → Option Str → Str
unfolding trim_end strip_prefix str_eq
trim_dir s home =
    let trimmed = trim_end (λ c. c == b'/') (replace_char 92 b'/' s) in
    if is_empty trimmed then codes "/" else in_home home trimmed

-- `mode & mask` against `want`, or against zero.
abbrev pub bits : ℕ → ℕ → Bool → Match
bits mask want any_of = Match.bits NumField.mode (pos mask) (pos want) any_of

abbrev pub node_table : List (List Str × ℕ)
node_table =
    (codes "f" ∷ codes "file" ∷ codes "dosya" ∷ [], 0o100000)
    ∷ (codes "d" ∷ codes "dir" ∷ codes "folder" ∷ codes "klasor" ∷ [], 0o040000)
    ∷ (codes "l" ∷ codes "link" ∷ codes "symlink" ∷ codes "bag" ∷ [], 0o120000)
    ∷ (codes "s" ∷ codes "socket" ∷ codes "soket" ∷ [], 0o140000)
    ∷ (codes "p" ∷ codes "fifo" ∷ codes "pipe" ∷ codes "boru" ∷ [], 0o010000)
    ∷ (codes "b" ∷ codes "block" ∷ codes "blok" ∷ [], 0o060000)
    ∷ (codes "c" ∷ codes "char" ∷ codes "karakter" ∷ [], 0o020000)
    ∷ []

unfoldable pub find_node : Str → List (List Str × ℕ) → Option Match
find_node v [] = none
find_node v ((names, want) ∷ rows) =
    let rest = find_node v rows in if member v names then some (bits 0o170000 want false) else rest

unfoldable pub parse_node : Str → Option Match
unfolding find_node str_eq
parse_node v = find_node v node_table

abbrev mode_bits : ℤ → ℤ → Bool → Match
mode_bits mask want any_of = Match.bits NumField.mode mask want any_of

abbrev perm_all : Option ℤ → Option Match
perm_all none = none
perm_all (some n) = some (mode_bits n n false)

abbrev perm_any : Option ℤ → Option Match
perm_any none = none
perm_any (some n) = some (mode_bits n (pos 0) true)

abbrev perm_exact : Option ℤ → Option Match
perm_exact none = none
perm_exact (some n) = some (mode_bits (pos 0o7777) n false)

unfoldable pub parse_perm : Str → Option Match
unfolding parse_i64
parse_perm [] = perm_exact (parse_i64 8 [])
parse_perm (c ∷ rest) =
    if c == b'-'
    then perm_all (parse_i64 8 rest)
    else if c == b'/' || c == b'+'
    then perm_any (parse_i64 8 rest)
    else perm_exact (parse_i64 8 (c ∷ rest))

-- `str::lines`: no line after the last end of line, and no carriage return before one.
abbrev without_cr : Str → Str
without_cr [] = []
without_cr (c ∷ []) = if c == 13 then [] else c ∷ []
without_cr (c ∷ d ∷ s) = c ∷ without_cr (d ∷ s)

abbrev end_lines : List Str → List Str
end_lines [] = []
end_lines (l ∷ []) = if is_empty l then [] else l ∷ []
end_lines (l ∷ m ∷ ls) = without_cr l ∷ end_lines (m ∷ ls)

unfoldable pub lines : Str → List Str
unfolding split
lines s = end_lines (split 10 s)

-- The third column of a line whose first one is the name.
abbrev id_of : Str → List Str → Option ℤ
id_of name (first ∷ _ ∷ third ∷ _) = if str_eq first name then parse_i64 10 third else none
id_of name _ = none

unfoldable pub find_id : Str → List Str → Option ℤ
unfolding split parse_i64 str_eq
find_id name [] = none
find_id name (l ∷ ls) = elim (id_of name (split b':' l)) [
  | some id ↦ some id
  | none ↦ find_id name ls
]

abbrev owner_file : NumField → Str
owner_file NumField.uid = codes "/etc/passwd"
owner_file _ = codes "/etc/group"

abbrev owned : NumField → Option ℤ → Option Match
owned field none = none
owned field (some n) = some (Match.num field Cmp.eq n)

abbrev listed : NumField → Str → Option Str → Option Match
listed field name none = none
listed field name (some text) = owned field (find_id name (lines text))

abbrev numbered : NumField → Option Match → Option ℤ → Option Match
numbered field by_name (some n) = some (Match.num field Cmp.eq n)
numbered field by_name none = by_name

unfoldable pub name_match : Str → Match
name_match text =
    if has_char b'/' text
    then Match.path_contains text
    else if has_char b'*' text || has_char b'?' text
    then Match.name_glob text
    else Match.name_contains text

abbrev pub unless_empty : Str → Match → Option Match
unless_empty s m = if is_empty s then none else some m

abbrev pub kinds_match : Option (List Kind) → Option Match
kinds_match none = none
kinds_match (some k) = some (Match.kind k)

abbrev with_number : (ℤ → Match) → Option ℤ → Option Match
with_number f none = none
with_number f (some n) = some (f n)

-- `depth:` reads a bare number as an equality.
abbrev depth_cmp : Str → Cmp × Str → Cmp × Str
depth_cmp folded (Cmp.ge, r) = if str_eq r folded then (Cmp.eq, r) else (Cmp.ge, r)
depth_cmp folded other = other

abbrev quoted_match : Str → Match
quoted_match text =
    if has_char b'/' text then Match.path_contains text else Match.name_contains text

abbrev or_else : Option Match → Match → Match
or_else none m = m
or_else (some m) _ = m

module _ (std : Std) where
  open std use {read_to_string}

  unfoldable pub resolve_owner : NumField → Str → Option Match
  unfolding parse_i64 find_id lines
  resolve_owner field raw =
      let name = trim std raw in
      if is_empty name
      then none
      else numbered field (listed field name (read_to_string (owner_file field)))
          (parse_i64 10 name)

  abbrev counted : (Cmp → ℤ → Match) → Cmp × Str → Option Match
  counted f (cmp, rest) = with_number (f cmp) (parse_i64 10 (trim std rest))

  abbrev ext_list : Str → List Str
  ext_list folded =
      keep (λ e. not (is_empty e)) (map (trim_start (λ c. c == b'.')) (split b';' folded))

  -- The condition of a field, by its canonical name; `none` where the field cannot use the value.
  unfoldable pub field_match : Str → Str → Str → ℤ → Option Str → Option Match
  unfolding str_eq resolve_owner parse_perm parse_node parse_time parse_size trim_dir split_cmp
      trim_start
  field_match name raw folded now home =
      if str_eq name (codes "ext")
      then some (Match.ext (ext_list folded))
      else if str_eq name (codes "path")
      then some (Match.path_contains folded)
      else if str_eq name (codes "under")
      then unless_empty raw (Match.under (trim_dir raw home))
      else if str_eq name (codes "parent")
      then unless_empty raw (Match.parent_is (trim_dir raw home))
      else if str_eq name (codes "file")
      then some (Match.is_dir false)
      else if str_eq name (codes "folder")
      then some (Match.is_dir true)
      else if str_eq name (codes "size")
      then parse_size std folded
      else if str_eq name (codes "kind")
      then kinds_match (from_name folded)
      else if str_eq name (codes "dm")
      then parse_time std TimeField.modified folded now
      else if str_eq name (codes "dc")
      then parse_time std TimeField.created folded now
      else if str_eq name (codes "da")
      then parse_time std TimeField.accessed folded now
      else if str_eq name (codes "content")
      then unless_empty folded (Match.content_contains folded)
      else if str_eq name (codes "node")
      then parse_node folded
      else if str_eq name (codes "perm")
      then parse_perm folded
      else if str_eq name (codes "suid")
      then some (bits 0o4000 0o4000 false)
      else if str_eq name (codes "sgid")
      then some (bits 0o2000 0o2000 false)
      else if str_eq name (codes "sticky")
      then some (bits 0o1000 0o1000 false)
      else if str_eq name (codes "ww")
      then some (bits 0o0002 0 true)
      else if str_eq name (codes "user")
      then resolve_owner NumField.uid raw
      else if str_eq name (codes "group")
      then resolve_owner NumField.gid raw
      else if str_eq name (codes "len")
      then counted Match.name_len (split_cmp folded)
      else if str_eq name (codes "case")
      then unless_empty raw (Match.name_contains_cased raw)
      else if str_eq name (codes "depth")
      then counted Match.depth (depth_cmp folded (split_cmp folded))
      else if str_eq name (codes "regex")
      then unless_empty folded (Match.regex folded)
      else none

  abbrev of_field : Option Field → Str → ℤ → Option Str → Option Match
  of_field none raw now home = none
  of_field (some f) raw now home = field_match f.name raw (fold std raw) now home

  -- What a term is when it names no usable field: a search for its text.
  abbrev pub as_text : Str → Match
  as_text rest = name_match (fold std (unquote rest))

  abbrev fielded : Option (Str × Str) → Str → ℤ → Option Str → Option Match
  fielded (some (field, value)) rest now home =
      some (or_else (of_field (lookup field) (unquote value) now home) (as_text rest))
  fielded none rest now home =
      let text = fold std (unquote rest) in
      if is_empty text
      then none
      else some (if starts_char quote rest then quoted_match text else name_match text)

  -- `parse_alt` after the leading `!`.
  unfoldable pub parse_rest : Str → ℤ → Option Str → Option Match
  unfolding split_field lookup field_match name_match fold remove_char
  parse_rest rest now home =
      if is_empty rest then none else fielded (split_field std rest) rest now home

  abbrev negated_by : Bool → Option Match → Option Alt
  negated_by n none = none
  negated_by n (some m) = some (n, m)

  unfoldable pub parse_alt : Str → ℤ → Option Str → Option Alt
  unfolding parse_rest
  parse_alt [] now home = none
  parse_alt (c ∷ s) now home =
      if c == bang
      then negated_by true (parse_rest s now home)
      else negated_by false (parse_rest (c ∷ s) now home)
