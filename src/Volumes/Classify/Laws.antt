-- ===== src/Volumes/Classify/Laws.antt =====
-- crates/scour-volumes/src/classify.rs: the volumes among the mounts, their ids and their roots.
use scour.Prelude.{
  ◌≡◌, refl, sym, ◌∙◌, ap, Bool, true, false, not, ◌||◌, List, [], ◌∷◌, Str, str_eq, str_eq→eq, any,
  any-append, keep, foldl, arith, Bool-cases, inl, inr,
}
use scour.Core.Prefix.{under}
use scour.Core.Prefix.Laws.{under_trans}
use scour.Volumes.Mounts.{Mount}
use scour.Volumes.Classify.{
  Volume, Probe, within, add_root, join_volume, merge, volume, volumes, kept_mounts,
}

-- Being within a folder is being under its path.
pub within-under : (path base : Str) → within path base ≡ under path base
unfolding within under
within-under path base = ground arith

within_trans : (x r k : Str) → within x r ≡ true → within r k ≡ true → within x k ≡ true
within_trans x r k h g =
    within-under x k ∙ under_trans x r k (sym (within-under x r) ∙ h) (sym (within-under r k) ∙ g)

-- `x` is in one of the roots.
abbrev pub inside : Str → List Str → Bool
inside x roots = any (λ r. within x r) roots

inside-kept :
    (x r : Str) (roots : List Str)
    → any (λ have. within r have) roots ≡ true
    → within x r ≡ true
    → inside x roots ≡ true
inside-kept x r [] h g = absurd (ground arith)
inside-kept x r (k ∷ roots) h g = elim (Bool-cases (within r k)) [
  | inl e ↦ ground (arith, within_trans x r k g e)
  | inr e ↦ ground (arith, inside-kept x r roots (ground arith) g)
]

inside-dropped :
    (x r : Str) (roots : List Str)
    → (inside x (keep (λ have. not (within have r)) roots) || within x r)
      ≡ (inside x roots || within x r)
inside-dropped x r [] = refl
inside-dropped x r (k ∷ roots) = elim (Bool-cases (within k r)) [
  | inl e ↦ elim (Bool-cases (within x k)) [
    | inl g ↦ ground (arith, within_trans x k r g e, inside-dropped x r roots)
    | inr g ↦ ground (arith, inside-dropped x r roots)
  ]
  | inr e ↦ ground (arith, inside-dropped x r roots)
]

inside-add_root :
    (x : Str) (roots : List Str) (r : Str)
    → inside x (add_root roots r) ≡ (inside x roots || within x r)
unfolding add_root
inside-add_root x roots r = elim (Bool-cases (any (λ have. within r have) roots)) [
  | inl e ↦ rw (e) (elim (Bool-cases (within x r)) [
    | inl g ↦ ground (arith, inside-kept x r roots e g)
    | inr g ↦ ground arith
  ])
  | inr e ↦ rw (e) (
      ground (
        arith,
        any-append (λ p. within x p) (keep (λ have. not (within have r)) roots) (r ∷ []),
        inside-dropped x r roots,
      ))
]

inside-add_roots :
    (x : Str) (roots more : List Str)
    → inside x (foldl add_root roots more) ≡ (inside x roots || inside x more)
inside-add_roots x roots [] = ground arith
inside-add_roots x roots (r ∷ more) =
    ground (arith, inside-add_roots x (add_root roots r) more, inside-add_root x roots r)

-- A volume that takes another one in holds exactly the paths that one of the two held.
pub inside-join_volume :
    (x : Str) (into more : Volume)
    → inside x (join_volume into more).roots ≡ (inside x into.roots || inside x more.roots)
unfolding join_volume
inside-join_volume x into more = inside-add_roots x into.roots more.roots

-- `x` is in a root of one of the volumes.
abbrev pub in_volumes : Str → List Volume → Bool
in_volumes x vs = any (λ v. inside x v.roots) vs

in_volumes-merge :
    (x : Str) (out : List Volume) (v : Volume)
    → in_volumes x (merge out v) ≡ (in_volumes x out || inside x v.roots)
unfolding merge
in_volumes-merge x [] v = ground arith
in_volumes-merge x (o ∷ out) v = ground (arith, in_volumes-merge x out v, inside-join_volume x o v)

in_volumes-all :
    (x : Str) (probe : Probe) (out : List Volume) (ms : List Mount)
    → in_volumes x (foldl (λ vs m. merge vs (volume m probe)) out ms)
      ≡ (in_volumes x out || any (λ m. within x m.place) ms)
in_volumes-all x probe out [] = ground arith
in_volumes-all x probe out (m ∷ ms) = ground (
  arith,
  in_volumes-all x probe (merge out (volume m probe)) ms,
  in_volumes-merge x out (volume m probe),
  one,
)
  where
    one : inside x (volume m probe).roots ≡ (within x m.place || false)
    one = unfold volume in refl

-- A path is in one of the volumes exactly when it is where one of the mounts is that were kept.
pub in_volumes-volumes :
    (mounts : List Mount) (probe : Probe) (x : Str)
    → in_volumes x (volumes mounts probe) ≡ any (λ m. within x m.place) (kept_mounts mounts)
unfolding volumes
in_volumes-volumes mounts probe x = in_volumes-all x probe [] (kept_mounts mounts)

-- One of the volumes has the id.
abbrev pub has_id : Str → List Volume → Bool
has_id i vs = any (λ v. str_eq i v.id) vs

-- No two of the volumes have one id.
abbrev pub IsDistinct : List Volume → Type 0
IsDistinct [] = Unit
IsDistinct (v ∷ vs) = (has_id v.id vs ≡ false) × IsDistinct vs

has_id-merge :
    (i : Str) (out : List Volume) (v : Volume)
    → has_id i (merge out v) ≡ (has_id i out || str_eq i v.id)
unfolding merge join_volume
has_id-merge i [] v = ground arith
has_id-merge i (o ∷ out) v = elim (Bool-cases (str_eq o.id v.id)) [
  | inl e ↦ rw (e) (ground (arith, ap (λ j. str_eq i j) (str_eq→eq o.id v.id e)))
  | inr e ↦ rw (e) (ground (arith, has_id-merge i out v))
]

merge-IsDistinct : (out : List Volume) (v : Volume) → IsDistinct out → IsDistinct (merge out v)
unfolding merge join_volume
merge-IsDistinct [] v d = (refl, tt)
merge-IsDistinct (o ∷ out) v (h, d) = elim (Bool-cases (str_eq o.id v.id)) [
  | inl e ↦ rw (e) (h, d)
  | inr e ↦ rw (e) ((has_id-merge o.id out v ∙ rw (h, e)), merge-IsDistinct out v d)
]

merge_all-IsDistinct :
    (probe : Probe) (out : List Volume) (ms : List Mount)
    → IsDistinct out
    → IsDistinct (foldl (λ vs m. merge vs (volume m probe)) out ms)
merge_all-IsDistinct probe out [] d = d
merge_all-IsDistinct probe out (m ∷ ms) d =
    merge_all-IsDistinct probe (merge out (volume m probe)) ms
      (merge-IsDistinct out (volume m probe) d)

-- A filesystem is one volume, however many places it is mounted: no two volumes have one id.
pub volumes-IsDistinct : (mounts : List Mount) (probe : Probe) → IsDistinct (volumes mounts probe)
unfolding volumes
volumes-IsDistinct mounts probe = merge_all-IsDistinct probe [] (kept_mounts mounts) tt
