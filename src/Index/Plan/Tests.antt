-- ===== src/Index/Plan/Tests.antt =====
-- Runs of the tests on names, and the theorem at a concrete input.
use scour.Prelude.{Bool, true, false, ◌≡◌, refl, some, Str, codes, contains}
use scour.Core.Ast.{Match}
use scour.Query.Glob.{glob_matches}
use scour.Index.Plan.{Test, compile_match, evaluate, filterable}
use scour.Index.Plan.Filter.{filterable-Within}

abbrev no_rest : Match → Bool
no_rest m = false

abbrev passes : Str → Str → Bool
passes pattern name = evaluate no_rest name name false (compile_match (Match.name_glob pattern))

a_wildcard_by_extension : passes (codes "*.rs") (codes "main.rs") ≡ true
unfolding evaluate compile_match
a_wildcard_by_extension = refl

-- The pattern matches a name that begins with its only dot, and the test does not.
a_hidden_file_matches : glob_matches (codes "*.gitignore") (codes ".gitignore") ≡ some true
unfolding glob_matches
a_hidden_file_matches = refl

a_hidden_file_is_lost : passes (codes "*.gitignore") (codes ".gitignore") ≡ false
unfolding evaluate compile_match
a_hidden_file_is_lost = refl

-- The pattern matches a name with an extension of thirteen letters, and the test does not.
a_long_extension_matches :
    glob_matches (codes "*.photoslibrary") (codes "my.photoslibrary") ≡ some true
unfolding glob_matches
a_long_extension_matches = refl

a_long_extension_is_lost : passes (codes "*.photoslibrary") (codes "my.photoslibrary") ≡ false
unfolding evaluate compile_match
a_long_extension_is_lost = refl

filterable-Within_example : contains (codes "xrapport") (codes "rap") ≡ true
filterable-Within_example =
    filterable-Within no_rest (codes "xRapport") (codes "xrapport") false
      (Test.name_glob (codes "?rap*rt")) (codes "rap") (unfold evaluate in refl)
      (unfold filterable in refl)
