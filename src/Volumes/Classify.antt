-- ===== src/Volumes/Classify.antt =====
-- crates/scour-volumes/src/classify.rs: which mounts are volumes that a person would call a disk.
pub mod Laws
use scour.Prelude.{
  ℕ, Bool, true, false, not, ◌&&◌, ◌||◌, Option, none, some, List, [], ◌∷◌, ◌++◌, ◌==◌,
  if◌then◌else◌, Str, codes, str_eq, member, strip_prefix, starts_char, trim_end, is_empty, any,
  keep, foldl,
}
use scour.Core.Prefix.{followed_by_slash}
use scour.Volumes.Mounts.{Mount}

-- crates/scour-volumes/src/volume.rs
pub data VolumeKind : Type 0 where
  system fixed removable network : VolumeKind

pub record Volume : Type 0 where
  pub id : Str
  pub roots : List Str
  pub label : Str
  pub kind : VolumeKind
  pub fs : Str
  pub size : ℕ

-- `Kind::is_built_in`, `Kind::as_str` and `Volume::name`
unfoldable pub is_built_in : VolumeKind → Bool
is_built_in VolumeKind.system = true
is_built_in VolumeKind.fixed = true
is_built_in _ = false

unfoldable pub as_str : VolumeKind → Str
as_str VolumeKind.system = codes "system"
as_str VolumeKind.fixed = codes "fixed"
as_str VolumeKind.removable = codes "removable"
as_str VolumeKind.network = codes "network"

abbrev first_root : List Str → Str
first_root [] = []
first_root (r ∷ roots) = r

unfoldable pub volume_name : Volume → Str
volume_name v = if is_empty v.label then first_root v.roots else v.label

-- What only the machine can say about a mounted device.
pub record Probe : Type 0 where
  pub names : Str → Option Str × Option Str
  pub removable : Str → Bool
  pub size : Str → ℕ

-- `NOT_DISKS`
abbrev pub not_disks : List Str
not_disks =
    codes "proc"
    ∷ codes "sysfs"
    ∷ codes "devtmpfs"
    ∷ codes "devpts"
    ∷ codes "tmpfs"
    ∷ codes "ramfs"
    ∷ codes "securityfs"
    ∷ codes "cgroup"
    ∷ codes "cgroup2"
    ∷ codes "pstore"
    ∷ codes "efivarfs"
    ∷ codes "bpf"
    ∷ codes "tracefs"
    ∷ codes "debugfs"
    ∷ codes "configfs"
    ∷ codes "fusectl"
    ∷ codes "mqueue"
    ∷ codes "hugetlbfs"
    ∷ codes "autofs"
    ∷ codes "binfmt_misc"
    ∷ codes "rpc_pipefs"
    ∷ codes "nsfs"
    ∷ codes "overlay"
    ∷ codes "squashfs"
    ∷ codes "erofs"
    ∷ codes "fuse.portal"
    ∷ codes "fuse.gvfsd-fuse"
    ∷ codes "fuse.xdg-document-portal"
    ∷ codes "fuse.lxcfs"
    ∷ codes "fuse.snapfuse"
    ∷ codes "zram"
    ∷ []

-- `NETWORK`
abbrev pub networks : List Str
networks =
    codes "nfs"
    ∷ codes "nfs4"
    ∷ codes "cifs"
    ∷ codes "smb3"
    ∷ codes "smbfs"
    ∷ codes "9p"
    ∷ codes "fuse.sshfs"
    ∷ codes "fuse.rclone"
    ∷ codes "davfs"
    ∷ codes "ceph"
    ∷ codes "glusterfs"
    ∷ codes "fuse.glusterfs"
    ∷ codes "afs"
    ∷ []

-- `SYSTEM_PLACES`
abbrev pub system_places : List Str
system_places =
    codes "/proc"
    ∷ codes "/sys"
    ∷ codes "/dev"
    ∷ codes "/run"
    ∷ codes "/boot"
    ∷ codes "/efi"
    ∷ codes "/snap"
    ∷ codes "/tmp"
    ∷ codes "/var/lib/docker"
    ∷ codes "/var/lib/containers"
    ∷ codes "/var/lib/snapd"
    ∷ []

unfoldable pub within : Str → Str → Bool
unfolding trim_end str_eq strip_prefix
within path base =
    let base = trim_end (λ c. c == b'/') base in
    str_eq path base || (is_empty base || followed_by_slash (strip_prefix base path))

unfoldable pub is_disk : Mount → Bool
unfolding within str_eq
is_disk m =
    not (member m.fs not_disks)
    && (not (any (λ p. within m.place p) system_places) || within m.place (codes "/run/media"))

abbrev kind_of_mount : Mount → Bool → Probe → VolumeKind
kind_of_mount m remote probe =
    if str_eq m.place (codes "/")
    then VolumeKind.system
    else if remote
    then VolumeKind.network
    else if probe.removable m.source
        || (within m.place (codes "/run/media")
            || (within m.place (codes "/media")
                || (str_eq m.fs (codes "iso9660") || str_eq m.fs (codes "udf"))))
    then VolumeKind.removable
    else VolumeKind.fixed

abbrev id_from : Bool → Option Str → Str → Str
id_from true uuid source = codes "net:" ++ source
id_from false (some uuid) source = codes "uuid:" ++ uuid
id_from false none source = codes "dev:" ++ source

abbrev or_no_text : Option Str → Str
or_no_text none = []
or_no_text (some s) = s

unfoldable pub volume : Mount → Probe → Volume
unfolding str_eq within
volume m probe =
    let remote = member m.fs networks in
    let (uuid, label) = if remote then (none, none) else probe.names m.source in
    record {
      id = id_from remote uuid m.source;
      roots = m.place ∷ [];
      label = or_no_text label;
      kind = kind_of_mount m remote probe;
      fs = m.fs;
      size = if remote then 0 else probe.size m.place;
    }

-- One root more, unless it is inside one that is there; those inside it go.
unfoldable pub add_root : List Str → Str → List Str
unfolding within
add_root roots r =
    if any (λ have. within r have) roots
    then roots
    else keep (λ have. not (within have r)) roots ++ (r ∷ [])

abbrev joined_kind : VolumeKind → VolumeKind → VolumeKind
joined_kind into VolumeKind.system = VolumeKind.system
joined_kind into _ = into

unfoldable pub join_volume : Volume → Volume → Volume
unfolding add_root
join_volume into more = record into {
  roots = foldl add_root into.roots more.roots;
  kind = joined_kind into.kind more.kind;
}

-- The volume with the same id takes the new one in, or the new one stands last.
unfoldable pub merge : List Volume → Volume → List Volume
unfolding join_volume str_eq
merge [] v = v ∷ []
merge (o ∷ out) v =
    let rest = merge out v in if str_eq o.id v.id then join_volume o v ∷ out else o ∷ rest

-- A mount of a part of what a kept mount shows is left out.
unfoldable pub keep_mount : List Mount → Mount → List Mount
unfolding within str_eq
keep_mount kept m =
    if any (λ k. str_eq k.source m.source && within m.part k.part) kept
    then kept
    else kept ++ (m ∷ [])

abbrev pub kept_mounts : List Mount → List Mount
kept_mounts mounts = foldl keep_mount [] (keep is_disk mounts)

unfoldable pub volumes : List Mount → Probe → List Volume
unfolding is_disk keep_mount merge volume
volumes mounts probe = foldl (λ out m. merge out (volume m probe)) [] (kept_mounts mounts)
