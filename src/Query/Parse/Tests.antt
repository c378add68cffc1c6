-- ===== src/Query/Parse/Tests.antt =====
-- Runs of the whole parser of a query.
use scour.Prelude.{true, false, [], ◌∷◌, codes, pos, ◌≡◌, refl}
use scour.Core.Ast.{Cmp, Match}
use scour.Core.Kind.{Kind}
use scour.Query.Parse.{parse_at, parse_in, all_tokens}
use scour.Query.Samples.{ascii}

tokens_of_a_list :
    all_tokens ascii (codes "a ext:rs; toml !tmp")
    ≡ codes "a" ∷ codes "ext:rs;toml" ∷ codes "!tmp" ∷ []
unfolding all_tokens
tokens_of_a_list = refl

tokens_of_a_group : all_tokens ascii (codes "( a | b ) x") ≡ codes "a|b" ∷ codes "x" ∷ []
unfolding all_tokens
tokens_of_a_group = refl

tokens_of_a_range :
    all_tokens ascii (codes "size:1kb..2kb") ≡ codes "size:>=1kb" ∷ codes "size:<=2kb" ∷ []
unfolding all_tokens
tokens_of_a_range = refl

parsed_query : parse_at ascii (codes "Main|lib kind:code !size:>2kb") (pos 0) ≡ record {
  groups =
      record {
        alts =
            (false, Match.name_contains (codes "main"))
            ∷ (false, Match.name_contains (codes "lib"))
            ∷ [];
      }
      ∷ record { alts = (false, Match.kind (Kind.code ∷ [])) ∷ [] }
      ∷ record { alts = (true, Match.size Cmp.gt (pos 2048)) ∷ [] }
      ∷ [];
}
unfolding parse_at parse_in scour.Core.Kind.from_name
parsed_query = refl
