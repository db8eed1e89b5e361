-- ===== src/Vfs/Tests.antt =====
-- A disk "/dev/a" with a FAT16 volume that is mounted at "/" and at "/mnt".
use hao_sys.Base.{
  ℕ, suc, zero, ◌<◌, ◌≡◌, ◌≢◌, ◌⊎◌, refl, true, false, [], ◌∷◌, none, some, ◌==◌, if◌then◌else◌,
  Memory, arith, nth, set, replicate, some-eq, ap, ◌∙◌, sym, subst,
}
use hao_sys.Str.Text.{Text, IsChars, text_cmp, text_ncmp}
use hao_sys.Fat.{Fs, Device, fat_unknown, dev_read}
use hao_sys.Fat.Mount.{
  mbr_find_fat_partition, scan_partitions, read_bpb, detect_fat_type, bytes_match, named_type,
  type_of, lay_out, bpb_load, mount_boot, mount_partition,
}
use hao_sys.Fat.Mount
use hao_sys.Probe.{fs_probe, probe_first, fat_named, probe_fat_numeric, fat_by_clusters}
use hao_sys.Vfs.{
  MountSlot, BlockDev, Vfs, find_mount, mount, umount, resolve, register_device, find_dev,
  mount_slot, find_unmounted, mount_in, longest_mount, at_root, same_text,
}
use hao_sys.Vfs.Resolve.{Resolved, resolve-Resolved}
use hao_sys.Vfs.Table.{IsMount, IsTable, IsDevices}
use hao_sys.Vfs.Table.Mounting.{IsTried, mounted_slot, mount-find_mount}
use hao_sys.Vfs.Table.Unmounting.{ended, umount_lem}
use hao_sys.Vfs.Table.Steps.{start, more, registering, unmounting, IsVfs, Steps-IsVfs}

-- The boot sector of a FAT16 volume of 20000 sectors.
abbrev boot : Memory
boot i =
    if i == 12
    then 2
    else (if i == 13
        then 4
        else (if i == 14
            then 1
            else (if i == 16
                then 2
                else (if i == 18
                    then 2
                    else (if i == 19
                        then 0x20
                        else (if i == 20
                            then 0x4E
                            else (if i == 22
                                then 20
                                else if i == 510
                                then 0x55
                                else if i == 511
                                then 0xAA
                                else 0)))))))

abbrev fresh_device : Device
fresh_device = record { sectors = λ l. boot; can_read = λ l. true; can_write = λ l. true }

abbrev fresh_fs : Fs
fresh_fs = record {
  bpb = read_bpb (λ i. 0);
  dev = fresh_device;
  base_lba = 0;
  first_data_sector = 0;
  root_dir_sectors = 0;
  total_sectors = 0;
  fat_size = 0;
  sectors_per_cluster = 0;
  bytes_per_sector = 0;
  root_dir_entries = 0;
  fs_type = fat_unknown;
  initialized = false;
  root_cluster = 0;
  sector_buffer = λ i. 0;
}

abbrev unused : MountSlot
unused = record {
  point = [];
  named = false;
  dev = none;
  fs = fresh_fs;
  fs_dev = 0;
  mounted = false;
}

abbrev at_point : Text → MountSlot
at_point p = record {
  point = p;
  named = true;
  dev = some 0;
  fs = fresh_fs;
  fs_dev = 0;
  mounted = true;
}

abbrev disk : BlockDev
disk = record {
  name = 47 ∷ 100 ∷ 101 ∷ 118 ∷ 47 ∷ 97 ∷ [];
  sector_count = 20000;
  device = fresh_device;
}

abbrev mnt : Text
mnt = 47 ∷ 109 ∷ 110 ∷ 116 ∷ []

abbrev empty : Vfs
empty = record { mounts = replicate 8 unused; devs = disk ∷ [] }

abbrev two_mounts : Vfs
two_mounts = record {
  mounts = at_point (47 ∷ []) ∷ at_point mnt ∷ replicate 6 unused;
  devs = disk ∷ [];
}

abbrev mnt_x : Text
mnt_x = 47 ∷ 109 ∷ 110 ∷ 116 ∷ 47 ∷ 120 ∷ []

-- "/mnt/x" is "x" in the second mount, "/mntx" is "mntx" in the root.
resolve-mnt : resolve two_mounts mnt_x ≡ some (1, some (120 ∷ []))
unfolding resolve longest_mount text_ncmp
resolve-mnt = refl

resolve-root :
    resolve two_mounts (47 ∷ 109 ∷ 110 ∷ 116 ∷ 120 ∷ [])
    ≡ some (0, some (109 ∷ 110 ∷ 116 ∷ 120 ∷ []))
unfolding resolve longest_mount text_ncmp at_root find_mount text_cmp
resolve-root = refl

nth-unused : (n i : ℕ) (s : MountSlot) → nth (replicate n unused) i ≡ some s → unused ≡ s
nth-unused zero i s e = absurd (cc)
nth-unused (suc n) zero s e = some-eq e
nth-unused (suc n) (suc i) s e = nth-unused n i s e

never_mount : (n i : ℕ) (s : MountSlot) → nth (replicate n unused) i ≡ some s → s.mounted ≢ true
never_mount n i s e m =
    let q = nth-unused n i s e in absurd (let f : false ≡ true = ap (λ x. x.mounted) q ∙ m in cc)

empty-IsTable : IsTable empty.mounts
empty-IsTable = record {
  slots = refl;
  distinct = λ i j s t ei ej ms mt same. absurd (never_mount 8 i s ei ms.0);
  chars = λ i s e. subst (λ x. IsChars x.point) (nth-unused 8 i s e) tt;
}

empty-IsDevices : IsDevices empty.devs
empty-IsDevices = record { room = omega arith; names = only_one }
  where
    only_one :
        (i j : ℕ) (d e : BlockDev)
        → i < j
        → nth empty.devs i ≡ some d
        → nth empty.devs j ≡ some e
        → same_text d.name e.name ≡ false
    only_one i (suc j) d e l ei ej = absurd (cc)
    only_one i zero d e l ei ej = absurd (omega arith)

mnt-IsChars : IsChars mnt
mnt-IsChars = (
  omega arith,
  omega arith,
  (omega arith, omega arith, (omega arith, omega arith, (omega arith, omega arith, tt))),
)

mnt_x-IsChars : IsChars mnt_x
mnt_x-IsChars = (
  omega arith,
  omega arith,
  (
    omega arith,
    omega arith,
    (
      omega arith,
      omega arith,
      (omega arith, omega arith, (omega arith, omega arith, (omega arith, omega arith, tt))),
    ),
  ),
)

root-IsChars : IsChars (47 ∷ [])
root-IsChars = (omega arith, omega arith, tt)

abbrev at_mnt : Vfs
at_mnt = record empty { mounts = mounted_slot unused mnt 0 disk ∷ replicate 7 unused }

mount-at_mnt : mount empty mnt disk.name ≡ some (true, at_mnt)
unfolding mount find_dev text_cmp mount_slot find_mount find_unmounted mount_in fs_probe probe_first
    fat_named bytes_match probe_fat_numeric fat_by_clusters Mount.mount mount_boot
    mbr_find_fat_partition scan_partitions bpb_load type_of named_type detect_fat_type lay_out
    read_bpb dev_read
mount-at_mnt = refl

mount-find_mount_example :
    (t : IsTried empty mnt disk.name (true, at_mnt)) × ((Mount.mount t.s.fs t.d.device).0 ≡ true)
    × (find_mount mnt at_mnt.mounts ≡ some t.k)
    × (nth at_mnt.mounts t.k ≡ some (mounted_slot t.s mnt t.i t.d))
mount-find_mount_example =
    mount-find_mount empty mnt disk.name at_mnt mnt-IsChars empty-IsTable mount-at_mnt

abbrev ended_all : Vfs
ended_all = (umount (register_device empty disk).1 mnt).1

Steps-IsVfs_example : IsVfs ended_all
Steps-IsVfs_example =
    Steps-IsVfs (more (more start (registering disk)) (unmounting mnt))
      (empty-IsTable, empty-IsDevices)

two_mounts-points : (k : ℕ) (s : MountSlot) → nth two_mounts.mounts k ≡ some s → IsChars s.point
two_mounts-points zero s e = subst (λ x. IsChars x.point) (some-eq e) root-IsChars
two_mounts-points (suc zero) s e = subst (λ x. IsChars x.point) (some-eq e) mnt-IsChars
two_mounts-points (suc (suc k)) s e = subst (λ x. IsChars x.point) (nth-unused 6 k s e) tt

two_mounts-distinct :
    (i j : ℕ) (s t : MountSlot)
    → nth two_mounts.mounts i ≡ some s
    → nth two_mounts.mounts j ≡ some t
    → IsMount s
    → IsMount t
    → s.point ≡ t.point
    → i ≡ j
two_mounts-distinct zero zero s t ei ej ms mt same = refl
two_mounts-distinct (suc zero) (suc zero) s t ei ej ms mt same = refl
two_mounts-distinct zero (suc zero) s t ei ej ms mt same = absurd (
    let q : (47 ∷ []) ≡ mnt =
      ap (λ x. x.point) (some-eq ei) ∙ same ∙ sym (ap (λ x. x.point) (some-eq ej)) in
    cc)
two_mounts-distinct (suc zero) zero s t ei ej ms mt same = absurd (
    let q : mnt ≡ (47 ∷ []) =
      ap (λ x. x.point) (some-eq ei) ∙ same ∙ sym (ap (λ x. x.point) (some-eq ej)) in
    cc)
two_mounts-distinct (suc (suc i)) j s t ei ej ms mt same = absurd (never_mount 6 i s ei ms.0)
two_mounts-distinct zero (suc (suc j)) s t ei ej ms mt same = absurd (never_mount 6 j t ej mt.0)
two_mounts-distinct (suc zero) (suc (suc j)) s t ei ej ms mt same =
    absurd (never_mount 6 j t ej mt.0)

two_mounts-IsTable : IsTable two_mounts.mounts
two_mounts-IsTable = record {
  slots = refl;
  distinct = two_mounts-distinct;
  chars = two_mounts-points;
}

resolve-Resolved_example : Resolved two_mounts mnt_x (resolve two_mounts mnt_x)
resolve-Resolved_example = resolve-Resolved two_mounts 47 _ mnt_x-IsChars two_mounts-points

umount_lem_example :
    ((find_mount mnt two_mounts.mounts ≡ none) × (umount two_mounts mnt ≡ (false, two_mounts)))
    ⊎ ((k : ℕ) × (s : MountSlot) × (find_mount mnt two_mounts.mounts ≡ some k)
        × (nth two_mounts.mounts k ≡ some s)
        × (umount two_mounts mnt
            ≡ (true, record two_mounts { mounts = set two_mounts.mounts k (ended s) }))
        × (find_mount mnt (umount two_mounts mnt).1.mounts ≡ none))
umount_lem_example = umount_lem two_mounts mnt mnt-IsChars two_mounts-IsTable
