-- ===== src/Source/Rules.antt =====
-- crates/scour-source-fs/src/rules.rs: what not to index. A hash set is the list of its members, and
-- `none` stands for the panic of `windows(0)`. `under` there is the same code as in prefix.rs.
pub mod Lists
pub mod Tail
pub mod Watch
pub mod Slashes
pub mod Reach
mod Tests
use scour.Prelude.{
  ℕ, zero, suc, ◌+◌, ◌-◌, Bool, true, false, not, ◌&&◌, ◌||◌, Option, none, some, List, [], ◌∷◌,
  ◌++◌, ltb, leb, ◌==◌, if◌then◌else◌, Str, str_eq, member, has_char, starts_char, is_empty, length,
  any, all, keep, split, replace_char, map, reverse, take, drop, last?, flat_map, max, min,
}
use scour.Core.Prefix.{slash, under, trim_slash}

-- `char::to_lowercase`, and `str::to_lowercase`, which also looks at what stands around a letter.
pub record Casing : Type 0 where
  pub char_lower : ℕ → Str
  pub str_lower : Str → Str

abbrev pub Seq : Type 0
Seq = List Str

pub record Rules : Type 0 where
  pub paths : List Str
  pub dirs : List Str
  pub dir_seqs : List Seq
  pub files : List Str
  pub allow : List Str
  pub allow_seqs : List Seq
  pub deny : List Str

-- The fields of `ScanOptions` that the rules are made from.
pub record ScanOptions : Type 0 where
  pub exclude_paths : List Str
  pub exclude_dirs : List Str
  pub exclude_files : List Str
  pub opts_allow : List Str
  pub opts_deny : List Str

-- `scour_core::path::normalise`
abbrev pub normalise : Bool → Str → Str
normalise windows p = if windows then replace_char b'\\' slash p else p

abbrev pub nonempty : Str → Bool
nonempty s = not (is_empty s)

-- `split('/').filter(|c| !c.is_empty())`
unfoldable pub components : Str → Seq
unfolding split
components path = keep nonempty (split slash path)

abbrev pub has_slash : Str → Bool
has_slash s = has_char slash s

abbrev pub norm : Bool → List Str → List Str
norm windows v = keep nonempty (map (λ s. trim_slash (normalise windows s)) v)

unfoldable pub from_options : Bool → Casing → ScanOptions → Rules
unfolding components
from_options windows casing opts =
    let lower = map casing.str_lower opts.exclude_dirs in
    record {
      paths = norm windows opts.exclude_paths;
      dirs = keep (λ d. not (has_slash d)) lower;
      dir_seqs = map components (keep has_slash lower);
      files = map casing.str_lower opts.exclude_files;
      allow = norm windows (keep (starts_char slash) opts.opts_allow);
      allow_seqs =
          map (λ a. map casing.str_lower (components a))
            (keep (λ a. not (starts_char slash a)) opts.opts_allow);
      deny = norm windows opts.opts_deny;
    }

unfoldable pub seq_eq : Seq → Seq → Bool
seq_eq [] [] = true
seq_eq [] (t ∷ ts) = false
seq_eq (s ∷ ss) [] = false
seq_eq (s ∷ ss) (t ∷ ts) = str_eq s t && seq_eq ss ts

-- `zip` and `all` of a test on pairs.
unfoldable pub all_zip : (Str → Str → Bool) → Seq → Seq → Bool
all_zip p [] ts = true
all_zip p (s ∷ ss) [] = true
all_zip p (s ∷ ss) (t ∷ ts) = p s t && all_zip p ss ts

-- `slice.windows(l).any(|w| w == rule)` for an `l` that is not zero.
unfoldable pub any_window : Seq → Seq → Bool
unfolding seq_eq
any_window rule [] = false
any_window rule (c ∷ comps) =
    (leb (length rule) (length (c ∷ comps)) && seq_eq (take (length rule) (c ∷ comps)) rule)
    || any_window rule comps

abbrev pub max_tail : ℕ
max_tail = 8

unfoldable pub longest : List Seq → ℕ
longest [] = 0
longest (s ∷ ss) = max (length s) (longest ss)

-- `tail_of`: the last components, newest first.
unfoldable pub tail_of : Str → ℕ → Seq
unfolding components
tail_of path n = take n (reverse (components path))

module _ (casing : Casing) where
  open casing use {char_lower, str_lower}

  abbrev pub fold_chars : Str → Str
  fold_chars = flat_map char_lower

  unfoldable pub lower_components : Str → Seq
  unfolding components
  lower_components path = map str_lower (components path)

  unfoldable pub eq_folded : Str → Str → Bool
  unfolding str_eq
  eq_folded component folded = str_eq (fold_chars component) folded

  abbrev pub ends_with_lower : Option Str → Str → Bool
  ends_with_lower none lower = false
  ends_with_lower (some last) lower = str_eq last lower

  unfoldable pub seq_ends_at : Rules → Str → Str → Bool
  unfolding components all_zip
  seq_ends_at r path name =
      let comps = components path in
      any
        (λ rule.
          ends_with_lower (last? rule) (str_lower name)
          && (leb (length rule) (length comps)
              && all_zip (λ c s. str_eq (str_lower c) s) (drop (length comps - length rule) comps)
                  rule))
        r.dir_seqs

  -- The rules in turn, up to the first that is met.
  unfoldable pub any_within : Seq → List Seq → Option Bool
  unfolding any_window
  any_within comps [] = some false
  any_within comps (rule ∷ rules) =
      let rest = any_within comps rules in
      if leb (length rule) (length comps)
      then (if is_empty rule then none else if any_window rule comps then some true else rest)
      else rest

  unfoldable pub seq_within : Rules → Str → Option Bool
  unfolding any_within lower_components
  seq_within r path =
      if is_empty r.dir_seqs then some false else any_within (lower_components path) r.dir_seqs

  -- A rule against the components of the whole path.
  unfoldable pub seq_matches : Seq → Bool → Seq → Bool
  unfolding seq_eq
  seq_matches comps is_dir rule =
      let n = length comps in
      let l = length rule in
      (leb l n && seq_eq (drop (n - l) comps) rule)
      || (not is_dir && (ltb l n && seq_eq (take l (drop (n - 1 - l) comps)) rule))

  -- A rule, reversed, against the last components.
  unfoldable pub tail_matches : Seq → Bool → Seq → Bool
  unfolding all_zip eq_folded
  tail_matches tail is_dir rule =
      let n = length tail in
      let l = length rule in
      let matches : ℕ → Bool =
        λ from. all_zip (λ s c. eq_folded c s) (reverse rule) (drop from tail) in
      (leb l n && matches 0) || (not is_dir && (ltb l n && matches 1))

  unfoldable pub allows : Rules → Str → Bool → Bool
  unfolding under longest tail_of seq_matches tail_matches lower_components
  allows r path is_dir =
      let wanted = longest r.allow_seqs + 1 in
      if any (under path) r.allow
      then true
      else if is_empty r.allow_seqs
      then false
      else if ltb max_tail wanted
      then any (seq_matches (lower_components path) is_dir) r.allow_seqs
      else any (tail_matches (tail_of path wanted) is_dir) r.allow_seqs

  -- The loop of `inside_excluded`, which leaves the last component out.
  unfoldable pub any_before_last : Rules → Seq → Bool
  any_before_last r [] = false
  any_before_last r (c ∷ []) = false
  any_before_last r (c ∷ d ∷ comps) = member (fold_chars c) r.dirs || any_before_last r (d ∷ comps)

  unfoldable pub inside_excluded : Rules → Str → Option Bool
  unfolding any_before_last seq_within components
  inside_excluded r path =
      if any_before_last r (components path) then some true else seq_within r path

  unfoldable pub by_name : Rules → Str → Str → Bool → Bool
  unfolding seq_ends_at
  by_name r path name is_dir =
      if is_dir
      then member (str_lower name) r.dirs || seq_ends_at r path name
      else member (str_lower name) r.files

  unfoldable pub excludes : Rules → Str → Str → Bool → Option Bool
  unfolding under allows by_name inside_excluded
  excludes r path name is_dir =
      if any (under path) r.deny
      then some true
      else if allows r path is_dir
      then some false
      else if any (under path) r.paths
      then some true
      else if by_name r path name is_dir
      then some true
      else if is_empty r.allow && is_empty r.allow_seqs
      then some false
      else inside_excluded r path

  abbrev or_empty : Option Str → Str
  or_empty none = []
  or_empty (some s) = s

  unfoldable pub excludes_path : Rules → Str → Option Bool
  unfolding under allows seq_within components
  excludes_path r path =
      let comps = components path in
      if any (under path) r.deny
      then some true
      else if allows r path false || allows r path true
      then some false
      else if any (under path) r.paths
      then some true
      else if any (λ part. member (str_lower part) r.dirs) comps
      then some true
      else elim (seq_within r path) [
        | none ↦ none
        | some met ↦ some (met || member (str_lower (or_empty (last? comps))) r.files)
      ]

  -- `(1..=rule.len().min(comps.len())).any(…)`, from the longest head down.
  unfoldable pub any_head : ℕ → Seq → Seq → Bool
  unfolding seq_eq
  any_head zero comps rule = false
  any_head (suc n) comps rule =
      seq_eq (drop (length comps - suc n) comps) (take (suc n) rule) || any_head n comps rule

  unfoldable pub may_contain_allowed : Rules → Str → Bool
  unfolding under any_head lower_components
  may_contain_allowed r path =
      let comps = lower_components path in
      if any (λ a. under a path) r.allow
      then true
      else if is_empty r.allow_seqs
      then false
      else any (λ rule. any_head (min (length rule) (length comps)) comps rule) r.allow_seqs
