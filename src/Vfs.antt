-- ===== src/Vfs.antt =====
-- fs/vfs.c, include/fs/vfs.h: devices, the mount table and the way from a path to a volume. A C
-- string is the list of its characters; a NULL subpath is `none`. The volumes of one device share its
-- sectors: a mount holds the device's number, and a call on the volume takes the sectors from the
-- device and gives them back. A device that is NULL or has no name is not modelled.
pub mod Covers
pub mod Resolve
pub mod Table
pub mod Listing
mod Tests
use hao_sys.Base.{
  ℕ, zero, suc, ◌+◌, ◌-◌, ◌*◌, ◌/◌, ◌%◌, ◌^◌, Bool, true, false, not, ◌&&◌, ◌||◌, List, [], ◌∷◌,
  ◌++◌, Option, none, some, Memory, ◌==◌, ltb, leb, if◌then◌else◌, length, get_or, set, nth, drop,
}
use hao_sys.Str.Text.{Text, text_cmp, text_ncmp}
use hao_sys.Fat.{Device, Fs}
use hao_sys.Fat.Run.{Run}
use hao_sys.Fat.Mount
use hao_sys.Probe.{ProbeFs, fs_fat12, fs_fat16, fs_fat32, fs_probe}

-- `block_dev_t`
pub record BlockDev : Type 0 where
  pub name : Text
  pub sector_count : ℕ
  pub device : Device

-- `vfs_mount_t` with its `mount_point_storage`: `named` is whether `mount_point` is not NULL, and then
-- it is the text in the storage. `fs_dev` is the number of the device that `fs` stands on.
pub record MountSlot : Type 0 where
  pub point : Text
  pub named : Bool
  pub dev : Option ℕ
  pub fs : Fs
  pub fs_dev : ℕ
  pub mounted : Bool

pub record Vfs : Type 0 where
  pub mounts : List MountSlot
  pub devs : List BlockDev

abbrev pub max_mounts : ℕ
max_mounts = 8

abbrev pub max_devs : ℕ
max_devs = 8

-- `strcmp(a, b) == 0`
abbrev pub same_text : Text → Text → Bool
same_text a b = text_cmp a b == 0

-- The number of the first device of that name.
unfoldable pub find_dev : Text → List BlockDev → Option ℕ
find_dev name [] = none
find_dev name (d ∷ ds) =
    let rest = find_dev name ds in
    if same_text d.name name then some 0 else elim rest [ none ↦ none | some i ↦ some (suc i) ]

unfoldable pub register_device : Vfs → BlockDev → Bool × Vfs
register_device v d = elim (find_dev d.name v.devs) [
  | some i ↦ (false, v)
  | none ↦
      if leb max_devs (length v.devs)
      then (false, v)
      else (true, record v { devs = v.devs ++ (d ∷ []) })
]

-- `mounts[i].mounted && mounts[i].mount_point && strcmp(mounts[i].mount_point, point) == 0`
abbrev pub mounted_at : Text → MountSlot → Bool
mounted_at point s = s.mounted && (s.named && same_text s.point point)

unfoldable pub find_mount : Text → List MountSlot → Option ℕ
find_mount point [] = none
find_mount point (s ∷ ss) =
    let rest = find_mount point ss in
    if mounted_at point s then some 0 else elim rest [ none ↦ none | some i ↦ some (suc i) ]

unfoldable pub find_unmounted : List MountSlot → Option ℕ
find_unmounted [] = none
find_unmounted (s ∷ ss) =
    let rest = find_unmounted ss in
    if not s.mounted then some 0 else elim rest [ none ↦ none | some i ↦ some (suc i) ]

-- The slot of a mount there already, or else a free one.
unfoldable pub mount_slot : Text → List MountSlot → Option ℕ
mount_slot point ss = elim (find_mount point ss) [ some i ↦ some i | none ↦ find_unmounted ss ]

abbrev pub is_fat : ProbeFs → Bool
is_fat t = elim t [ fs_fat12 ↦ true | fs_fat16 ↦ true | fs_fat32 ↦ true | _ ↦ false ]

-- The slot with the mount point copied, after the probe and `fat_mount`.
unfoldable pub mount_in : MountSlot → Text → ℕ → BlockDev → Bool × MountSlot
mount_in s point i d =
    let placed : MountSlot = record s { point = point } in
    let (ok, fs) = Mount.mount s.fs d.device in
    let tried : MountSlot = record placed { fs = fs; fs_dev = i } in
    if is_fat (fs_probe d.device)
    then (if ok
        then (true, record tried { named = true; dev = some i; mounted = true })
        else (false, tried))
    else (false, placed)

-- What `strncpy(storage, point, 31)` can copy without running over.
abbrev pub fits_storage : Text → Bool
fits_storage point = ltb (length point) 31

-- `none` is the mount point that is too long: its copy wipes the memory.
unfoldable pub mount : Vfs → Text → Text → Option (Bool × Vfs)
mount v point dev_name = elim (find_dev dev_name v.devs) [
  | none ↦ some (false, v)
  | some i ↦ elim (nth v.devs i) [
    | none ↦ some (false, v)
    | some d ↦ elim (mount_slot point v.mounts) [
      | none ↦ some (false, v)
      | some k ↦ elim (nth v.mounts k) [
        | none ↦ some (false, v)
        | some s ↦
            let (ok, s') = mount_in s point i d in
            if fits_storage point then some (ok, record v { mounts = set v.mounts k s' }) else none
      ]
    ]
  ]
]

unfoldable pub unmount_first : Text → List MountSlot → Bool × List MountSlot
unmount_first point [] = (false, [])
unmount_first point (s ∷ ss) =
    let (ok, rest) = unmount_first point ss in
    if mounted_at point s then (true, record s { mounted = false } ∷ ss) else (ok, s ∷ rest)

unfoldable pub umount : Vfs → Text → Bool × Vfs
umount v point = let (ok, ss) = unmount_first point v.mounts in (ok, record v { mounts = ss })

abbrev pub slash : ℕ
slash = 47

-- The mount point is the path's first characters, and the path ends there or goes on with a slash.
abbrev pub leads_to : Text → MountSlot → Bool
leads_to path s =
    let n = length s.point in
    let next = get_or path n 0 in
    s.mounted && (s.named && ((text_ncmp s.point path n == 0) && ((next == 0) || (next == slash))))

-- The loop over the slots from number `i` on, with the best mount so far and its length.
unfoldable pub longest_mount : Text → List MountSlot → ℕ → Option ℕ → ℕ → Option ℕ × ℕ
longest_mount path [] i best best_len = (best, best_len)
longest_mount path (s ∷ ss) i best best_len =
    let n = length s.point in
    let better = longest_mount path ss (suc i) (some i) n in
    let same = longest_mount path ss (suc i) best best_len in
    if ltb best_len n && leads_to path s then better else same

abbrev pub non_empty : Text → Option Text
non_empty t = elim t [ [] ↦ none | c ∷ cs ↦ some (c ∷ cs) ]

-- What follows the mount point and a slash.
abbrev pub below_mount : Text → ℕ → Option Text
below_mount path n = if get_or path n 0 == 0 then none else non_empty (drop (suc n) path)

abbrev pub strip_slash : Text → Text
strip_slash path = elim path [ [] ↦ [] | c ∷ cs ↦ if c == slash then cs else c ∷ cs ]

-- The root mount.
unfoldable pub at_root : Vfs → Option Text → Option (ℕ × Option Text)
at_root v sub = elim (find_mount (slash ∷ []) v.mounts) [ none ↦ none | some i ↦ some (i, sub) ]

-- The number of the mount and the path in its volume.
unfoldable pub resolve : Vfs → Text → Option (ℕ × Option Text)
resolve v [] = at_root v none
resolve v (c ∷ cs) =
    let (best, best_len) = longest_mount (c ∷ cs) v.mounts 0 none 0 in
    elim best [
      | some i ↦ some (i, below_mount (c ∷ cs) best_len)
      | none ↦ at_root v (some (strip_slash (c ∷ cs)))
    ]

-- The sectors of device `i` change.
abbrev pub put_device : List BlockDev → ℕ → Device → List BlockDev
put_device ds i device = elim (nth ds i) [
  | none ↦ ds
  | some d ↦ set ds i (record d { device = device })
]

-- A call of the FAT driver on the volume of mount `k`.
unfoldable pub on_volume {ℓ} : {A : Type ℓ} → Vfs → ℕ → Run A → Option (A × Vfs)
on_volume v k run = elim (nth v.mounts k) [
  | none ↦ none
  | some s ↦ elim (nth v.devs s.fs_dev) [
    | none ↦ none
    | some d ↦ elim (run (record s.fs { dev = d.device })) [
      | none ↦ none
      | some (a, fs) ↦ some (
        a,
        record v {
          mounts = set v.mounts k (record s { fs = fs });
          devs = put_device v.devs s.fs_dev fs.dev;
        },
      )
    ]
  ]
]
