-- ===== src/Reference/Answer.antt =====
-- crates/scour-mock/src/reference.rs: what `brute_force` answers.
use Prim.Native.Nat.{compare, Ordering}
use scour.Prelude.{
  ltb, ltb_ℤ, ◌==◌, not, sym, pos, cmp_str, ℕ, ◌+◌, ◌≡◌, refl, Bool, true, false, ◌&&◌, ◌||◌, List,
  [], ◌∷◌, if◌then◌else◌, Option, Str, ℤ, keep, take, map, length, min, arith, ◌∙◌, ap, pos_part,
  neg_part, length-take-min, length-map,
}
use scour.Core.Fold.{Std, fold}
use scour.Core.Ast.{Ast}
use scour.Core.Kind.{as_u8}
use scour.Core.Entry.{entry_name, ext_of}
use scour.Reference.{Entry, matches}
use scour.Reference.Order.{
  SortKey, Hit, cmp_ℤ, swap, then_by, not_after, sort_with, hit_of, cmp_key, cmp_hits, brute_force,
}
use scour.Reference.Sorting.{InOrder, sort_with-InOrder, take-InOrder, length-sort_with}

compare-swap : (a b : ℕ) → compare b a ≡ swap (compare a b)
compare-swap a b = ground arith

cmp_str-swap : (s t : Str) → cmp_str t s ≡ swap (cmp_str s t)
unfolding cmp_str
cmp_str-swap [] [] = refl
cmp_str-swap [] (b ∷ t) = refl
cmp_str-swap (a ∷ s) [] = refl
cmp_str-swap (a ∷ s) (b ∷ t) = ground (arith, cmp_str-swap s t)

cmp_ℤ-swap : (a b : ℤ) → cmp_ℤ b a ≡ swap (cmp_ℤ a b)
unfolding cmp_ℤ
cmp_ℤ-swap a b = compare-swap (pos_part a + neg_part b) (pos_part b + neg_part a)

then_by-swap : (o p : Ordering) → then_by (swap o) (swap p) ≡ swap (then_by o p)
then_by-swap Ordering.lt p = refl
then_by-swap Ordering.eq p = refl
then_by-swap Ordering.gt p = refl

swap_if :
    (b : Bool) (o : Ordering)
    → (if b then swap (swap o) else swap o) ≡ swap (if b then swap o else o)
swap_if true o = refl
swap_if false o = refl

-- What a key is in a hit: a number, a text, or nothing that is compared.
pub data Key : Type 0 where
  number : ℤ → Key
  text : Str → Key
  nothing : Key

abbrev pub text_below : Str → Str → Bool
text_below s [] = false
text_below [] (b ∷ t) = true
text_below (a ∷ s) (b ∷ t) = ltb a b || (a == b && text_below s t)

abbrev pub below : Key → Key → Bool
below (Key.number a) (Key.number b) = ltb_ℤ a b
below (Key.text s) (Key.text t) = text_below s t
below _ _ = false

abbrev is_lt : Ordering → Bool
is_lt Ordering.lt = true
is_lt Ordering.eq = false
is_lt Ordering.gt = false

text_below-cmp_str : (s t : Str) → text_below s t ≡ is_lt (cmp_str s t)
unfolding cmp_str
text_below-cmp_str [] [] = refl
text_below-cmp_str [] (b ∷ t) = refl
text_below-cmp_str (a ∷ s) [] = refl
text_below-cmp_str (a ∷ s) (b ∷ t) = ground (arith, text_below-cmp_str s t)

ltb_ℤ-cmp_ℤ : (a b : ℤ) → ltb_ℤ a b ≡ is_lt (cmp_ℤ a b)
unfolding cmp_ℤ
ltb_ℤ-cmp_ℤ a b = ground arith

-- Where the one stands below the other, and neither below the other, decides a comparison.
not_after-below :
    (key time path : Ordering) (desc : Bool)
    → not_after (then_by (if desc then swap key else key) (then_by time path)) ≡ (
        (if desc then is_lt (swap key) else is_lt key)
        || (not (is_lt key)
            && (not (is_lt (swap key))
                && (is_lt time || (not (is_lt (swap time)) && not (is_lt (swap path)))))))
not_after-below Ordering.lt time path true = refl
not_after-below Ordering.lt time path false = refl
not_after-below Ordering.gt time path true = refl
not_after-below Ordering.gt time path false = refl
not_after-below Ordering.eq Ordering.lt path true = refl
not_after-below Ordering.eq Ordering.lt path false = refl
not_after-below Ordering.eq Ordering.gt path true = refl
not_after-below Ordering.eq Ordering.gt path false = refl
not_after-below Ordering.eq Ordering.eq Ordering.lt true = refl
not_after-below Ordering.eq Ordering.eq Ordering.lt false = refl
not_after-below Ordering.eq Ordering.eq Ordering.eq true = refl
not_after-below Ordering.eq Ordering.eq Ordering.eq false = refl
not_after-below Ordering.eq Ordering.eq Ordering.gt true = refl
not_after-below Ordering.eq Ordering.eq Ordering.gt false = refl

module _ (std : Std) where
  cmp_key-swap : (key : SortKey) (a b : Hit) → cmp_key std key b a ≡ swap (cmp_key std key a b)
  unfolding cmp_key
  cmp_key-swap SortKey.relevance a b = refl
  cmp_key-swap SortKey.by_name a b =
      cmp_str-swap (fold std (entry_name a.path)) (fold std (entry_name b.path))
  cmp_key-swap SortKey.by_path a b = cmp_str-swap a.path b.path
  cmp_key-swap SortKey.by_ext a b =
      cmp_str-swap (ext_of std (entry_name a.path)) (ext_of std (entry_name b.path))
  cmp_key-swap SortKey.by_size a b = cmp_ℤ-swap a.meta.size b.meta.size
  cmp_key-swap SortKey.modified a b = cmp_ℤ-swap a.meta.mtime b.meta.mtime
  cmp_key-swap SortKey.created a b = cmp_ℤ-swap a.meta.ctime b.meta.ctime
  cmp_key-swap SortKey.accessed a b = cmp_ℤ-swap a.meta.atime b.meta.atime
  cmp_key-swap SortKey.by_kind a b = compare-swap (as_u8 a.kind) (as_u8 b.kind)
  cmp_key-swap SortKey.by_mode a b = cmp_ℤ-swap a.meta.mode b.meta.mode
  cmp_key-swap SortKey.by_uid a b = cmp_ℤ-swap a.meta.uid b.meta.uid
  cmp_key-swap SortKey.by_gid a b = cmp_ℤ-swap a.meta.gid b.meta.gid
  cmp_key-swap SortKey.by_disk a b = cmp_ℤ-swap a.meta.disk b.meta.disk

  cmp_hits-swap :
      (key : SortKey) (desc : Bool) (a b : Hit)
      → cmp_hits std key desc b a ≡ swap (cmp_hits std key desc a b)
  unfolding cmp_hits
  cmp_hits-swap key desc a b =
      let o = cmp_key std key a b in
      let time = cmp_ℤ b.meta.mtime a.meta.mtime in
      let path = cmp_str a.path b.path in
      let turned = if desc then swap o else o in
      rw (cmp_key-swap key a b, cmp_ℤ-swap b.meta.mtime a.meta.mtime, cmp_str-swap a.path b.path)
        (ap (λ x. then_by x (then_by (swap time) (swap path))) (swap_if desc o)
          ∙ ap (then_by (swap turned)) (then_by-swap time path)
          ∙ then_by-swap turned (then_by time path))

  abbrev pub key_of : SortKey → Hit → Key
  key_of SortKey.relevance h = Key.nothing
  key_of SortKey.by_name h = Key.text (fold std (entry_name h.path))
  key_of SortKey.by_path h = Key.text h.path
  key_of SortKey.by_ext h = Key.text (ext_of std (entry_name h.path))
  key_of SortKey.by_size h = Key.number h.meta.size
  key_of SortKey.modified h = Key.number h.meta.mtime
  key_of SortKey.created h = Key.number h.meta.ctime
  key_of SortKey.accessed h = Key.number h.meta.atime
  key_of SortKey.by_kind h = Key.number (pos (as_u8 h.kind))
  key_of SortKey.by_mode h = Key.number h.meta.mode
  key_of SortKey.by_uid h = Key.number h.meta.uid
  key_of SortKey.by_gid h = Key.number h.meta.gid
  key_of SortKey.by_disk h = Key.number h.meta.disk

  -- The key of the first is below that of the second, or above it where the order is reversed; or
  -- neither is below the other, and the first is newer, or as old and its path not after the other's.
  abbrev pub stands_before : SortKey → Bool → Hit → Hit → Bool
  stands_before key desc a b =
      (if desc then below (key_of key b) (key_of key a) else below (key_of key a) (key_of key b))
      || (not (below (key_of key a) (key_of key b))
          && (not (below (key_of key b) (key_of key a))
              && (ltb_ℤ b.meta.mtime a.meta.mtime
                  || (not (ltb_ℤ a.meta.mtime b.meta.mtime) && not (text_below b.path a.path)))))

  below-cmp_key :
      (key : SortKey) (a b : Hit)
      → below (key_of key a) (key_of key b) ≡ is_lt (cmp_key std key a b)
  unfolding cmp_key
  below-cmp_key SortKey.relevance a b = refl
  below-cmp_key SortKey.by_name a b =
      text_below-cmp_str (fold std (entry_name a.path)) (fold std (entry_name b.path))
  below-cmp_key SortKey.by_path a b = text_below-cmp_str a.path b.path
  below-cmp_key SortKey.by_ext a b =
      text_below-cmp_str (ext_of std (entry_name a.path)) (ext_of std (entry_name b.path))
  below-cmp_key SortKey.by_size a b = ltb_ℤ-cmp_ℤ a.meta.size b.meta.size
  below-cmp_key SortKey.modified a b = ltb_ℤ-cmp_ℤ a.meta.mtime b.meta.mtime
  below-cmp_key SortKey.created a b = ltb_ℤ-cmp_ℤ a.meta.ctime b.meta.ctime
  below-cmp_key SortKey.accessed a b = ltb_ℤ-cmp_ℤ a.meta.atime b.meta.atime
  below-cmp_key SortKey.by_kind a b = ground arith
  below-cmp_key SortKey.by_mode a b = ltb_ℤ-cmp_ℤ a.meta.mode b.meta.mode
  below-cmp_key SortKey.by_uid a b = ltb_ℤ-cmp_ℤ a.meta.uid b.meta.uid
  below-cmp_key SortKey.by_gid a b = ltb_ℤ-cmp_ℤ a.meta.gid b.meta.gid
  below-cmp_key SortKey.by_disk a b = ltb_ℤ-cmp_ℤ a.meta.disk b.meta.disk

  cmp_hits-stands_before :
      (key : SortKey) (desc : Bool) (a b : Hit)
      → not_after (cmp_hits std key desc a b) ≡ stands_before key desc a b
  unfolding cmp_hits
  cmp_hits-stands_before key desc a b =
      not_after-below (cmp_key std key a b) (cmp_ℤ b.meta.mtime a.meta.mtime)
        (cmp_str a.path b.path) desc
      ∙ sym (
          rw
            (
              below-cmp_key key a b,
              below-cmp_key key b a,
              cmp_key-swap key a b,
              ltb_ℤ-cmp_ℤ b.meta.mtime a.meta.mtime,
              ltb_ℤ-cmp_ℤ a.meta.mtime b.meta.mtime,
              cmp_ℤ-swap b.meta.mtime a.meta.mtime,
              text_below-cmp_str b.path a.path,
              cmp_str-swap a.path b.path,
            )
            refl)

  -- Each stands before the next.
  abbrev pub Sorted : SortKey → Bool → List Hit → Type 0
  Sorted key desc [] = Unit
  Sorted key desc (a ∷ []) = Unit
  Sorted key desc (a ∷ b ∷ l) = (stands_before key desc a b ≡ true) × Sorted key desc (b ∷ l)

  InOrder-Sorted :
      (key : SortKey) (desc : Bool) (l : List Hit)
      → InOrder (cmp_hits std key desc) l
      → Sorted key desc l
  InOrder-Sorted key desc [] h = tt
  InOrder-Sorted key desc (a ∷ []) h = tt
  InOrder-Sorted key desc (a ∷ b ∷ l) (p, h) =
      (sym (cmp_hits-stands_before key desc a b) ∙ p, InOrder-Sorted key desc (b ∷ l) h)

  module _ (compile : Str → Option (Str → Bool)) where
    -- The hits stand in the order of the key, or in the reverse where it is asked for; ties newest
    -- first, and then by path; and they are as many as the entries that match, up to the limit.
    pub brute_force-answers :
        (entries : List Entry) (ast : Ast) (key : SortKey) (desc : Bool) (limit : ℕ)
        → Sorted key desc (brute_force std compile entries ast key desc limit)
          × (length (brute_force std compile entries ast key desc limit)
              ≡ min limit (length (keep (λ e. matches std compile e ast) entries)))
    unfolding brute_force
    brute_force-answers entries ast key desc limit =
        let cmp = cmp_hits std key desc in
        let found = map (hit_of std) (keep (λ e. matches std compile e ast) entries) in
        (
          InOrder-Sorted key desc (take limit (sort_with cmp found)) (
              take-InOrder cmp limit (sort_with cmp found)
                (sort_with-InOrder cmp (cmp_hits-swap key desc) found)),
          omega (
            arith,
            length-take-min limit (sort_with cmp found),
            length-sort_with cmp found,
            length-map (hit_of std) (keep (λ e. matches std compile e ast) entries),
          ),
        )
