-- ===== src/Query/Tests.antt =====
-- Runs of the parts of the parser, and the theorems at concrete inputs.
use scour.Prelude.{
  suc, length, ℕ, ◌≤◌, true, false, not, ◌&&◌, ◌||◌, Option, none, some, List, [], ◌∷◌, Str, codes,
  ℤ, pos, ◌-ℤ◌, ◌≡◌, ◌≢◌, ◌↔◌, refl, arith, length, join, All, is_empty, is_some, map, starts_char,
  get_elem?, member, str_eq,
}
use scour.Core.Fold.{fold}
use scour.Query.Samples.{ascii}
use scour.Query.Glob.{glob_matches}
use scour.Query.Glob.Matches.{Matches}
use scour.Query.Glob.Laws.{glob_matches_iff}
use scour.Query.Tokens.{bang, semicolon, split_outside_quotes, tokenize, without_bang}
use scour.Query.Tokens.Split.{split_outside_quotes-cuts, marks_outside, ClosedPieces}
use scour.Query.Tokens.Quotes.{solid, concat, concat-tokenize}
use scour.Query.Terms.{parse_alt, field_match}
use scour.Query.Terms.Unusable.{asks, parse_alt-asks}
use scour.Query.Time.{days_from_civil}
use scour.Query.Time.Calendar.{day_number, days_from_civil_lem}
use scour.Query.Fields.Table.{Takes, Field}
use scour.Query.Fields.Accepts.{accepts, field_match-accepts}
use scour.Query.Parse.{expand}
use scour.Query.Parse.Expand.{expand-bang}

glob_matches_iff_example :
    (glob_matches (codes "*.r?") (codes "a.b.rs") ≢ none)
    × ((glob_matches (codes "*.r?") (codes "a.b.rs") ≡ some true)
        ↔ Matches (codes "*.r?") (codes "a.b.rs"))
glob_matches_iff_example = glob_matches_iff (codes "*.r?") (codes "a.b.rs")

abbrev cut_text : Str
cut_text = codes "a;\"b;c\";d"

split_outside_quotes-cuts_example :
    (join (semicolon ∷ []) (split_outside_quotes cut_text semicolon) ≡ cut_text)
    × (length (split_outside_quotes cut_text semicolon)
        ≡ suc (marks_outside semicolon false cut_text))
    × ClosedPieces false (split_outside_quotes cut_text semicolon)
split_outside_quotes-cuts_example = split_outside_quotes-cuts cut_text semicolon

abbrev spaced : Str
spaced = codes " a \"b c\" d"

concat-tokenize_example :
    concat (tokenize ascii spaced) ≡ solid (λ c. ascii.is_whitespace c) false spaced
concat-tokenize_example = concat-tokenize ascii spaced

abbrev marked : List Str
marked = codes "a!b" ∷ codes "ext:c!" ∷ []

abbrev grouped : List Str
grouped = codes "(a" ∷ codes "|" ∷ codes "b)" ∷ codes "c" ∷ []

parse_alt-asks_example :
    is_some (parse_alt ascii (codes "!size:big") (pos 0) none)
    ≡ asks ascii (without_bang (codes "!size:big"))
parse_alt-asks_example = parse_alt-asks ascii (codes "!size:big") (pos 0) none

days_from_civil_lem_example :
    days_from_civil (pos 2024) (pos 3) (pos 1)
    ≡ pos (day_number 2024 3 1) -ℤ pos (day_number 1970 1 1)
days_from_civil_lem_example =
    days_from_civil_lem 2024 3 1 (omega arith) (omega arith) (omega arith) (omega arith)
      (omega arith) (omega arith)

abbrev size_field : Field
size_field = record {
  name = codes "size";
  aliases = [];
  takes = Takes.size;
  about = "size, in binary units, with an optional comparison";
  example = "size:>1mb";
}

field_match-accepts_example :
    is_some
      (field_match ascii (codes "size") (codes ">2KB") (fold ascii (codes ">2KB")) (pos 0) none)
    ≡ true
unfolding accepts fold str_eq scour.Query.Value.parse_size_value scour.Prelude.parse_i64
    scour.Prelude.trim_end
field_match-accepts_example =
    field_match-accepts ascii 6 size_field (codes ">2KB") (pos 0) none refl refl refl

-- A value that is shown as usable for `depth:` and that the parser cannot use.
depth_in_bytes :
    (accepts ascii
        (record {
          name = codes "depth";
          aliases = [];
          takes = Takes.size;
          about = "";
          example = "";
        })
        (codes "1kb")
        (pos 0)
      && not (is_some (field_match ascii (codes "depth") (codes "1kb") (codes "1kb") (pos 0) none)))
    ≡ true
unfolding accepts field_match scour.Query.Value.parse_size_value
depth_in_bytes = refl

abbrev ranged : Str
ranged = codes "size:1kb..2kb"

expand-bang_example : expand ascii (bang ∷ ranged) ≡ map (λ p. bang ∷ p) (expand ascii ranged)
expand-bang_example = expand-bang ascii ranged refl refl refl

-- The complement of a range is written as two conditions that no size meets together.
negated_range :
    expand ascii (codes "!size:1kb..2kb") ≡ codes "!size:>=1kb" ∷ codes "!size:<=2kb" ∷ []
unfolding expand
negated_range = refl
