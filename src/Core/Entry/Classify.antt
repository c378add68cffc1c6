-- ===== src/Core/Entry/Classify.antt =====
-- crates/scour-core/src/types/entry.rs: what the classification answers.
use scour.Prelude.{Bool, true, false, ◌&&◌, ◌≡◌, refl, Option, none, some, ◌==◌, Str, all, ℤ, arith}
use scour.Core.Kind.{Kind, as_u8}
use scour.Core.Fold.{Std}
use scour.Core.Entry.{table_lookup, kind_of, or_mode, kind_of_name, name_table}
use scour.Core.Entry.ExtTable.{ext_table}

abbrev is_kind : Kind → Option Kind → Bool
is_kind k none = false
is_kind k (some j) = as_u8 j == as_u8 k

-- The binary search finds every row of both tables, with its own kind.
pub table_lookup-rows :
    (all (λ row. is_kind row.1 (table_lookup ext_table row.0)) ext_table
      && all (λ row. is_kind row.1 (table_lookup name_table row.0)) name_table)
    ≡ true
unfolding table_lookup as_u8
table_lookup-rows = refl

-- An answer that the execute bits could give.
abbrev pub of_mode : Kind → Bool
of_mode Kind.exec = true
of_mode Kind.file = true
of_mode _ = false

module _ (std : Std) where
  -- The mode decides nothing where the kind is neither a program nor a plain file: with any other
  -- mode the kind is the same.
  pub kind_of-mode :
      (is_dir : Bool) (name : Str) (m n : ℤ)
      → of_mode (kind_of std is_dir name m) ≡ false
      → kind_of std is_dir name n ≡ kind_of std is_dir name m
  unfolding kind_of
  kind_of-mode true name m n h = refl
  kind_of-mode false name m n h = go (kind_of_name std name) h
    where
      go : (o : Option Kind) → of_mode (or_mode o m) ≡ false → or_mode o n ≡ or_mode o m
      go none k = absurd (ground arith)
      go (some j) k = refl
