-- ===== src/Core/Tests.antt =====
-- Runs of the paths, the kinds and the folding, and the theorems at concrete inputs.
use scour.Prelude.{
  ◌++◌, has_char, true, false, some, List, [], ◌∷◌, Str, codes, pos, ◌≡◌, refl, any, ◌||◌, ◌&&◌,
  member, length, ◌+◌,
}
use scour.Core.Prefix.{PrefixSet, new, covers, under}
use scour.Core.Prefix.Laws.{IsValid, reduce-IsValid}
use scour.Core.Prefix.Cover.{covers-new}
use scour.Core.Prefix.History.{Change, run, covers-run}
use scour.Core.Entry.{entry_name, entry_parent}
use scour.Core.Entry.Names.{entry_parent-entry_name}

abbrev roots : List Str
roots = codes "/pkg/lib/" ∷ codes "/pkg/lib-old" ∷ codes "/etc" ∷ []

abbrev root_set : PrefixSet
root_set = new roots

root_set-IsValid : IsValid root_set
unfolding new
root_set-IsValid = reduce-IsValid (record { paths = roots; lookup = [] })

-- A member under the first one stays where a longer name stands between the two.
keeps_a_nested_member :
    (new (codes "/pkg/lib" ∷ codes "/pkg/lib-old" ∷ codes "/pkg/lib/f" ∷ [])).paths
    ≡ codes "/pkg/lib" ∷ codes "/pkg/lib-old" ∷ codes "/pkg/lib/f" ∷ []
unfolding new
keeps_a_nested_member = refl

covers-new_example :
    covers (new roots) (codes "/etc/fstab") ≡ any (λ p. under (codes "/etc/fstab") p) roots
covers-new_example = covers-new roots (codes "/etc/fstab")

abbrev history : List Change
history = Change.forget_path (codes "/etc") ∷ Change.extend_by (codes "/srv" ∷ []) ∷ []

covers-run_example :
    covers (run (new roots) history) (codes "/srv/x")
    ≡ any (λ p. under (codes "/srv/x") p) (run (new roots) history).paths
covers-run_example = covers-run roots history (codes "/srv/x")

entry_parent-entry_name_example :
    (has_char b'/' (entry_name (codes "/etc/fstab")) ≡ false)
    × (entry_parent (codes "/etc/fstab") ++ (b'/' ∷ entry_name (codes "/etc/fstab"))
        ≡ codes "/etc/fstab")
unfolding scour.Prelude.str_eq
entry_parent-entry_name_example =
    entry_parent-entry_name (codes "/etc/fstab") refl (unfold entry_parent in refl)
