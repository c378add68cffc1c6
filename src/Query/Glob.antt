-- ===== src/Query/Glob.antt =====
-- crates/scour-query/src/glob.rs: wildcard matching, anchored end to end. A position in the pattern
-- or in the text is the part of it that stands from there on.
pub mod Matches
pub mod Laws
use scour.Prelude.{
  ℕ, zero, suc, ◌+◌, ◌*◌, Bool, true, false, Option, none, some, List, [], ◌∷◌, ◌==◌, if◌then◌else◌,
  Str, length, is_empty,
}

-- `star` and `resume`: the pattern behind the last `*`, and the text from where it resumes.
abbrev pub Back : Type 0
Back = Option (Str × Str)

-- The state of the loop: `p[pi..]`, `t[ti..]` and the saved star.
pub record State : Type 0 where
  pub pat : Str
  pub text : Str
  pub back : Back

-- One round of the loop ends it with an answer, or goes on.
pub data Round : Type 0 where
  answer : Bool → Round
  again : State → Round

-- The last arm: give the last `*` one more character. The resumed text has that character, for it
-- is not shorter than the text of the round, which is not empty.
unfoldable pub retry : Back → Round
retry none = answer false
retry (some (p, [])) = answer false
retry (some (p, c ∷ s)) = again (record { pat = p; text = s; back = some (p, s) })

-- The pattern after its trailing stars.
unfoldable pub skip_stars : Str → Str
skip_stars [] = []
skip_stars (a ∷ p) = let rest = skip_stars p in if a == b'*' then rest else a ∷ p

unfoldable pub round : Str → Str → Back → Round
unfolding retry skip_stars
round p [] back = answer (is_empty (skip_stars p))
round [] (c ∷ t) back = retry back
round (a ∷ p) (c ∷ t) back =
    if a == b'*'
    then again (record { pat = p; text = c ∷ t; back = some (p, c ∷ t) })
    else if a == b'?'
    then again (record { pat = p; text = t; back = back })
    else if a == c
    then again (record { pat = p; text = t; back = back })
    else retry back

-- `none` says that the fuel ran out.
unfoldable pub loop : ℕ → State → Option Bool
loop zero s = none
loop (suc f) s = elim (round s.pat s.text s.back) [ answer b ↦ some b | again s' ↦ loop f s' ]

unfoldable pub glob_matches : Str → Str → Option Bool
unfolding loop round
glob_matches pattern text =
    loop ((length text + 1) * (length pattern + 1))
      (record { pat = pattern; text = text; back = none })
