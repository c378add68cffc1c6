-- ===== src/Source/Rules/Tests.antt =====
-- Runs of the exclusion rules, and the theorems at concrete inputs.
use scour.Prelude.{
  ℕ, ◌+◌, ◌≡◌, refl, Bool, true, false, ◌||◌, ◌&&◌, none, some, [], ◌∷◌, leb, ◌==◌, if◌then◌else◌,
  Str, codes, map, any, arith, is_some, not,
}
use scour.Core.Prefix.{under}
use scour.Source.Rules.{
  Casing, Rules, ScanOptions, from_options, allows, excludes, excludes_path, may_contain_allowed,
  seq_matches, lower_components, components, seq_within,
}
use scour.Source.Rules.Tail.{allows_lem}
use scour.Source.Rules.Watch.{excludes-excludes_path}
use scour.Source.Rules.Slashes.{only_slashes, seq_within_panics}
use scour.Source.Rules.Reach.{may_contain_allowed_above}

abbrev lower_ascii : ℕ → ℕ
lower_ascii c = if leb b'A' c && leb c b'Z' then c + 32 else c

abbrev ascii : Casing
ascii = record { char_lower = λ c. lower_ascii c ∷ []; str_lower = map lower_ascii }

abbrev options : ScanOptions
options = record {
  exclude_paths = codes "/proc/" ∷ [];
  exclude_dirs = codes "Target" ∷ codes ".git/objects" ∷ [];
  exclude_files = codes "Thumbs.db" ∷ [];
  opts_allow = codes "target/release" ∷ codes "/home/u/target/keep" ∷ [];
  opts_deny = codes "/home/u/.index" ∷ [];
}

abbrev rules : Rules
rules = from_options false ascii options

leaves_the_build_out :
    excludes ascii rules (codes "/p/target/debug/app") (codes "app") false ≡ some true
unfolding excludes from_options
leaves_the_build_out = refl

takes_the_binary_back :
    excludes ascii rules (codes "/p/target/release/app") (codes "app") false ≡ some false
unfolding excludes from_options
takes_the_binary_back = refl

-- A directory rule that is a lone slash is a sequence without a name, and stops the watcher.
a_lone_slash_panics :
    excludes_path ascii
      (from_options false ascii (record options { exclude_dirs = codes "/" ∷ []; opts_allow = [] }))
      (codes "/home/u/a.txt")
    ≡ none
unfolding excludes_path from_options
a_lone_slash_panics = refl

-- Casing in which a capital sigma at the end of a text becomes a final sigma, as in `str`.
abbrev sigma_end : Str → Str
sigma_end [] = []
sigma_end (c ∷ []) = if c == 0x3A3 then 0x3C2 ∷ [] else c ∷ []
sigma_end (c ∷ d ∷ s) = (if c == 0x3A3 then 0x3C3 else c) ∷ sigma_end (d ∷ s)

abbrev greek : Casing
greek = record { char_lower = λ c. (if c == 0x3A3 then 0x3C3 else c) ∷ []; str_lower = sigma_end }

abbrev sigma_rules : Rules
sigma_rules = from_options false greek (record options {
  exclude_dirs = (b'a' ∷ 0x3A3 ∷ []) ∷ [];
  opts_allow = codes "keep/this" ∷ [];
})

abbrev sigma_dir : Str
sigma_dir = b'/' ∷ b'a' ∷ 0x3A3 ∷ []

-- The directory is left out by name, and a file in it is not.
final_sigma_is_excluded : excludes greek sigma_rules sigma_dir (b'a' ∷ 0x3A3 ∷ []) true ≡ some true
unfolding excludes from_options
final_sigma_is_excluded = refl

below_final_sigma_is_not :
    excludes greek sigma_rules (b'/' ∷ b'a' ∷ 0x3A3 ∷ b'/' ∷ b'f' ∷ []) (codes "f") false
    ≡ some false
unfolding excludes from_options
below_final_sigma_is_not = refl

abbrev binary : Str
binary = codes "/p/target/release/app"

allows_example : allows ascii rules binary false ≡ (
    any (under binary) rules.allow
    || any (seq_matches ascii (lower_components ascii binary) false) rules.allow_seqs)
allows_example =
    allows_lem ascii rules binary false (unfold components in (refl, (refl, (refl, (refl, tt)))))

abbrev debug : Str
debug = codes "/p/target/debug/app"

excludes-excludes_path_example : excludes_path ascii rules debug ≡ some true
excludes-excludes_path_example =
    excludes-excludes_path ascii rules debug (codes "app")
      (unfold from_options in (omega arith, tt))
      (unfold components in (refl, (refl, (refl, (refl, tt))))) (unfold components in refl)
      (unfold excludes from_options in refl)

may_contain_allowed_above_example :
    (may_contain_allowed ascii rules (codes "/home/u/target")
      || any (under (codes "/home/u/target")) rules.allow)
    ≡ true
may_contain_allowed_above_example =
    may_contain_allowed_above ascii rules (codes "/home/u/target") (codes "/home/u/target/keep/x")
      (unfold from_options in unfold under in refl) (unfold under in refl)

abbrev lone_slash : ScanOptions
lone_slash = record options { exclude_dirs = codes "/" ∷ [] }

abbrev is_lone : Bool
is_lone = any only_slashes (map lower_ascii (codes "/") ∷ [])

seq_within_panics_example :
    (is_some (seq_within ascii (from_options false ascii lone_slash) (codes "/")) ≡ not is_lone)
    × ((is_lone || is_some (seq_within ascii (from_options false ascii lone_slash) debug)) ≡ true)
seq_within_panics_example = seq_within_panics ascii false lone_slash debug
