-- ===== src/Reference/Order.antt =====
-- crates/scour-mock/src/reference.rs: the orders of `brute_force`.
use Prim.Native.Nat.{compare, Ordering}
use scour.Prelude.{
  cmp_str, ℕ, ◌+◌, Bool, true, false, List, [], ◌∷◌, if◌then◌else◌, Str, ℤ, pos_part, neg_part,
  keep, take, map, Option,
}
use scour.Core.Kind.{Kind, as_u8}
use scour.Core.Fold.{Std, fold}
use scour.Core.Ast.{Ast}
use scour.Core.Entry.{entry_name, ext_of, kind_of}
use scour.Reference.{Entry, Meta, matches}

pub data SortKey : Type 0 where
  relevance by_name by_path by_size modified created accessed by_ext by_kind : SortKey
  by_mode by_uid by_gid by_disk : SortKey

pub record Hit : Type 0 where
  pub path : Str
  pub is_dir : Bool
  pub kind : Kind
  pub meta : Meta

unfoldable pub cmp_ℤ : ℤ → ℤ → Ordering
cmp_ℤ a b = compare (pos_part a + neg_part b) (pos_part b + neg_part a)

-- `reverse` and `then_with`.
abbrev pub swap : Ordering → Ordering
swap Ordering.lt = Ordering.gt
swap Ordering.eq = Ordering.eq
swap Ordering.gt = Ordering.lt

abbrev pub then_by : Ordering → Ordering → Ordering
then_by Ordering.lt o = Ordering.lt
then_by Ordering.gt o = Ordering.gt
then_by Ordering.eq o = o

abbrev pub not_after : Ordering → Bool
not_after Ordering.lt = true
not_after Ordering.eq = true
not_after Ordering.gt = false

-- `sort_unstable_by`: insertion, by a comparison.
unfoldable pub insert_with {ℓ} : {A : Type ℓ} → (A → A → Ordering) → A → List A → List A
insert_with cmp a [] = a ∷ []
insert_with cmp a (b ∷ l) =
    let rest = insert_with cmp a l in if not_after (cmp a b) then a ∷ b ∷ l else b ∷ rest

unfoldable pub sort_with {ℓ} : {A : Type ℓ} → (A → A → Ordering) → List A → List A
unfolding insert_with
sort_with cmp [] = []
sort_with cmp (a ∷ l) = insert_with cmp a (sort_with cmp l)

module _ (std : Std) where
  unfoldable pub hit_of : Entry → Hit
  unfolding kind_of entry_name
  hit_of e = record {
    path = e.path;
    is_dir = e.is_dir;
    kind = kind_of std e.is_dir (entry_name e.path) e.meta.mode;
    meta = e.meta;
  }

  unfoldable pub cmp_key : SortKey → Hit → Hit → Ordering
  unfolding fold ext_of entry_name cmp_str cmp_ℤ
  cmp_key SortKey.relevance a b = Ordering.eq
  cmp_key SortKey.by_name a b =
      cmp_str (fold std (entry_name a.path)) (fold std (entry_name b.path))
  cmp_key SortKey.by_path a b = cmp_str a.path b.path
  cmp_key SortKey.by_ext a b =
      cmp_str (ext_of std (entry_name a.path)) (ext_of std (entry_name b.path))
  cmp_key SortKey.by_size a b = cmp_ℤ a.meta.size b.meta.size
  cmp_key SortKey.modified a b = cmp_ℤ a.meta.mtime b.meta.mtime
  cmp_key SortKey.created a b = cmp_ℤ a.meta.ctime b.meta.ctime
  cmp_key SortKey.accessed a b = cmp_ℤ a.meta.atime b.meta.atime
  cmp_key SortKey.by_kind a b = compare (as_u8 a.kind) (as_u8 b.kind)
  cmp_key SortKey.by_mode a b = cmp_ℤ a.meta.mode b.meta.mode
  cmp_key SortKey.by_uid a b = cmp_ℤ a.meta.uid b.meta.uid
  cmp_key SortKey.by_gid a b = cmp_ℤ a.meta.gid b.meta.gid
  cmp_key SortKey.by_disk a b = cmp_ℤ a.meta.disk b.meta.disk

  -- The key, reversed where asked; ties newest first, and then by path.
  unfoldable pub cmp_hits : SortKey → Bool → Hit → Hit → Ordering
  unfolding cmp_key cmp_str cmp_ℤ
  cmp_hits key desc a b =
      let o = cmp_key key a b in
      then_by (if desc then swap o else o)
        (then_by (cmp_ℤ b.meta.mtime a.meta.mtime) (cmp_str a.path b.path))

  module _ (compile : Str → Option (Str → Bool)) where
    unfoldable pub brute_force : List Entry → Ast → SortKey → Bool → ℕ → List Hit
    unfolding matches hit_of sort_with cmp_hits
    brute_force entries ast key desc limit =
        take limit (
          sort_with (cmp_hits key desc)
            (map hit_of (keep (λ e. matches std compile e ast) entries)))
