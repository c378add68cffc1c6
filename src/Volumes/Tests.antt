-- ===== src/Volumes/Tests.antt =====
-- Runs of the mount table and of its volumes, and the theorems at concrete inputs.
use scour.Prelude.{false, none, some, List, [], ◌∷◌, Str, codes, ◌≡◌, refl, any}
use scour.Volumes.Mounts.{Mount, unescape, line}
use scour.Volumes.Mounts.Escapes.{escaped, unescape-escaped}
use scour.Volumes.Classify.{Probe, volumes, within, kept_mounts}
use scour.Volumes.Classify.Laws.{in_volumes, in_volumes-volumes, IsDistinct, volumes-IsDistinct}

mount_line :
    line (codes "36 35 8:1 / /mnt/my\\040disk rw - ext4 /dev/sda1 rw")
    ≡ some (record {
      device = codes "8:1";
      part = codes "/";
      place = codes "/mnt/my disk";
      fs = codes "ext4";
      source = codes "/dev/sda1";
    })
unfolding line
mount_line = refl

unescape-escaped_example : unescape (escaped (codes "my disk\\040")) ≡ codes "my disk\\040"
unescape-escaped_example = unescape-escaped (codes "my disk\\040")

abbrev probe : Probe
probe = record { names = λ s. (some s, none); removable = λ s. false; size = λ p. 0 }

abbrev mounted : Str → Str → Mount
mounted place source = record {
  device = codes "0:1";
  part = codes "/";
  place = place;
  fs = codes "btrfs";
  source = source;
}

abbrev pools : List Mount
pools =
    mounted (codes "/") (codes "a")
    ∷ mounted (codes "/pool") (codes "b")
    ∷ mounted (codes "/proc/x") (codes "c")
    ∷ []

in_volumes-volumes_example :
    in_volumes (codes "/pool/x") (volumes pools probe)
    ≡ any (λ m. within (codes "/pool/x") m.place) (kept_mounts pools)
in_volumes-volumes_example = in_volumes-volumes pools probe (codes "/pool/x")

volumes-IsDistinct_example : IsDistinct (volumes pools probe)
volumes-IsDistinct_example = volumes-IsDistinct pools probe
