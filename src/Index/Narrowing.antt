-- ===== src/Index/Narrowing.antt =====
-- crates/scour-index-native/src/search.rs: narrow_to_blocks, the blocks that a query's clauses leave,
-- and accepts, the clauses at a row.
pub mod Complete
mod Tests
use scour.Prelude.{
  ℕ, Bool, true, false, not, Option, none, some, List, [], ◌∷◌, if◌then◌else◌, Str, any, all,
  flat_map,
}
use scour.Core.Ast.{Match}
use scour.Index.Varint.{Bytes}
use scour.Index.Trigram.Reader.{TrigramIndex, candidates, intersect}
use scour.Index.Plan.{Test, evaluate, filterable}

-- Alternatives, each with its negation.
pub record Clause : Type 0 where
  pub alts : List (Bool × Test)

-- `let [(false, test)] = &c.alts[..]`
abbrev pub plain_test : List (Bool × Test) → Option Test
plain_test [] = none
plain_test ((true, test) ∷ alts) = none
plain_test ((false, test) ∷ []) = some test
plain_test ((false, test) ∷ alt ∷ alts) = none

abbrev pub needle_of : Option Test → Option Str
needle_of none = none
needle_of (some test) = filterable test

-- The same text as the `intersect` of trigram.rs.
abbrev pub intersect_blocks : List ℕ → List ℕ → List ℕ
intersect_blocks = intersect

abbrev pub both_lists : Option (List ℕ) → List ℕ → Option (List ℕ)
both_lists none blocks = some blocks
both_lists (some have) blocks = some (intersect_blocks have blocks)

abbrev pub with_blocks : Option (List ℕ) → Option (List ℕ) → Option (List ℕ)
with_blocks out none = out
with_blocks out (some blocks) = both_lists out blocks

-- `evaluate(…) != *negated`
abbrev pub differs : Bool → Bool → Bool
differs true b = not b
differs false b = b

-- `Plan::accepts`, at a row which its two names and `rest` stand for.
unfoldable pub accepts : (Match → Bool) → Str → Str → Bool → List Clause → Bool
unfolding evaluate
accepts rest spelled name is_dir clauses =
    all
      (λ c.
        any (λ (negated, test). differs negated (evaluate rest spelled name is_dir test)) c.alts)
      clauses

-- `utf8` is the encoding of a character in bytes.
module _ (utf8 : ℕ → Bytes) where
  abbrev pub blocks_of : TrigramIndex → Option Str → Option (List ℕ)
  blocks_of tri none = none
  blocks_of tri (some needle) = candidates tri (flat_map utf8 needle)

  unfoldable pub narrow_from : TrigramIndex → Option (List ℕ) → List Clause → Option (List ℕ)
  unfolding candidates intersect filterable
  narrow_from tri out [] = out
  narrow_from tri out (c ∷ clauses) =
      narrow_from tri (with_blocks out (blocks_of tri (needle_of (plain_test c.alts)))) clauses

  -- `off` is whether SCOUR_NO_TRIGRAM is set.
  unfoldable pub narrow_to_blocks : (off : Bool) → List Clause → TrigramIndex → Option (List ℕ)
  unfolding narrow_from
  narrow_to_blocks off clauses tri = if off then none else narrow_from tri none clauses
