-- ===== src/Source/Rules/Reach.antt =====
-- crates/scour-source-fs/src/rules.rs: `may_contain_allowed`, asked on the way to an allowed path.
use scour.Prelude.{◌≡◌, refl, true, ◌||◌, List, [], ◌∷◌, any, Str, arith}
use scour.Core.Prefix.{trim_slash, under}
use scour.Core.Prefix.Below.{below, under-eq-below, below-trim_slash, trim_slash-IsTrimmed}
use scour.Source.Rules.{Casing, Rules, may_contain_allowed}

-- Of two paths that one path is below, one is below the other.
below_or_above :
    (p q path : Str) → below p path ≡ true → below q path ≡ true → (below q p || below p q) ≡ true
unfolding below
below_or_above [] [] path h k = refl
below_or_above [] (b ∷ q) [] h k = absurd (cc)
below_or_above [] (b ∷ q) (c ∷ path) h k = ground arith
below_or_above (a ∷ p) [] [] h k = absurd (cc)
below_or_above (a ∷ p) [] (c ∷ path) h k = ground arith
below_or_above (a ∷ p) (b ∷ q) [] h k = absurd (cc)
below_or_above (a ∷ p) (b ∷ q) (c ∷ path) h k = ground (arith, below_or_above p q path)

under_or_above :
    (a dir path : Str)
    → under path a ≡ true
    → under path dir ≡ true
    → (under a dir || under dir a) ≡ true
under_or_above a dir path h k = ground (
  arith,
  under-eq-below path a,
  under-eq-below path dir,
  under-eq-below a dir,
  under-eq-below dir a,
  below-trim_slash a (trim_slash dir) (trim_slash-IsTrimmed dir),
  below-trim_slash dir (trim_slash a) (trim_slash-IsTrimmed a),
  below_or_above (trim_slash a) (trim_slash dir) path,
)

any_above :
    (allow : List Str) (dir path : Str)
    → any (under path) allow ≡ true
    → under path dir ≡ true
    → (any (λ a. under a dir) allow || any (under dir) allow) ≡ true
any_above [] dir path h k = absurd (cc)
any_above (a ∷ allow) dir path h k =
    ground (arith, under_or_above a dir path, any_above allow dir path)

-- A directory above a path that an allowed path takes back may hold what is allowed, or is itself
-- under an allowed path.
pub may_contain_allowed_above :
    (casing : Casing) (r : Rules) (dir path : Str)
    → any (under path) r.allow ≡ true
    → under path dir ≡ true
    → (may_contain_allowed casing r dir || any (under dir) r.allow) ≡ true
unfolding may_contain_allowed
may_contain_allowed_above casing r dir path h k = ground (arith, any_above r.allow dir path h k)
