-- ===== src/Probe.antt =====
-- fs/probe.c, include/fs/probe.h: which file system a device holds. A device has its sectors and may
-- fail to read any of them; one without a read function is not modelled.
pub mod Numeric
mod Tests
use hao_sys.Base.{
  ℕ, zero, suc, ◌+◌, ◌-◌, ◌*◌, ◌/◌, ◌%◌, ◌^◌, Bool, true, false, not, ◌&&◌, ◌||◌, List, [], ◌∷◌,
  Option, none, some, Memory, add32, sub32, mul32, ◌==◌, ltb, if◌then◌else◌, bit_and,
}
use hao_sys.Fat.{Device, get16, get32}
use hao_sys.Fat.Mount.{
  bytes_match, or_else, root_sectors, is_fat_partition, partition_type, partition_lba,
  has_signature,
}

pub data ProbeFs : Type 0 where
  fs_unknown : ProbeFs
  fs_fat12 : ProbeFs
  fs_fat16 : ProbeFs
  fs_fat32 : ProbeFs
  fs_exfat : ProbeFs
  fs_ntfs : ProbeFs
  fs_ext2 : ProbeFs
  fs_ext3 : ProbeFs
  fs_ext4 : ProbeFs
  fs_iso9660 : ProbeFs
  fs_xfs : ProbeFs
  fs_btrfs : ProbeFs

-- The names in ASCII.
pub probe_fs_name : ProbeFs → List ℕ
probe_fs_name t = elim t [
  | fs_fat12 ↦ 70 ∷ 65 ∷ 84 ∷ 49 ∷ 50 ∷ []
  | fs_fat16 ↦ 70 ∷ 65 ∷ 84 ∷ 49 ∷ 54 ∷ []
  | fs_fat32 ↦ 70 ∷ 65 ∷ 84 ∷ 51 ∷ 50 ∷ []
  | fs_exfat ↦ 101 ∷ 120 ∷ 70 ∷ 65 ∷ 84 ∷ []
  | fs_ntfs ↦ 78 ∷ 84 ∷ 70 ∷ 83 ∷ []
  | fs_ext2 ↦ 101 ∷ 120 ∷ 116 ∷ 50 ∷ []
  | fs_ext3 ↦ 101 ∷ 120 ∷ 116 ∷ 51 ∷ []
  | fs_ext4 ↦ 101 ∷ 120 ∷ 116 ∷ 52 ∷ []
  | fs_iso9660 ↦ 73 ∷ 83 ∷ 79 ∷ 57 ∷ 54 ∷ 54 ∷ 48 ∷ []
  | fs_xfs ↦ 88 ∷ 70 ∷ 83 ∷ []
  | fs_btrfs ↦ 98 ∷ 116 ∷ 114 ∷ 102 ∷ 115 ∷ []
  | fs_unknown ↦ 117 ∷ 110 ∷ 107 ∷ 110 ∷ 111 ∷ 119 ∷ 110 ∷ []
]

abbrev pub sector_size_known : ℕ → Bool
sector_size_known n = (n == 512) || ((n == 1024) || ((n == 2048) || (n == 4096)))

-- The number of clusters decides.
unfoldable pub fat_by_clusters : ℕ → ProbeFs
fat_by_clusters clusters =
    if ltb clusters 4085 then fs_fat12 else if ltb clusters 65525 then fs_fat16 else fs_fat32

unfoldable pub probe_fat_numeric : Memory → ProbeFs
probe_fat_numeric s =
    let size = get16 s 11 in
    let tables = or_else (get16 s 22) (get32 s 36) in
    let total = or_else (get16 s 19) (get32 s 32) in
    let data_sectors =
      sub32 (sub32 (sub32 total (get16 s 14)) (mul32 (s 16) tables))
        (root_sectors (get16 s 17) size) in
    if not (sector_size_known size)
    then fs_unknown
    else (if (s 13 == 0) || not (bit_and (s 13) (s 13 - 1) == 0)
        then fs_unknown
        else (if (s 16 == 0) || ((tables == 0) || (total == 0))
            then fs_unknown
            else fat_by_clusters (data_sectors / s 13)))

abbrev pub known : ProbeFs → Option ProbeFs
known t = elim t [ fs_unknown ↦ none | t ↦ some t ]

abbrev pub or_try : Option ProbeFs → Option ProbeFs → Option ProbeFs
or_try found next = elim found [ none ↦ next | some t ↦ some t ]

abbrev pub try : Bool → ProbeFs → Option ProbeFs
try test t = if test then some t else none

-- "FAT12   ", "FAT16   " or "FAT32   " at offset 54.
unfoldable pub fat_named : Memory → Option ProbeFs
fat_named s =
    or_try (try (bytes_match s 54 (70 ∷ 65 ∷ 84 ∷ 49 ∷ 50 ∷ 32 ∷ 32 ∷ 32 ∷ [])) fs_fat12) (
      or_try (try (bytes_match s 54 (70 ∷ 65 ∷ 84 ∷ 49 ∷ 54 ∷ 32 ∷ 32 ∷ 32 ∷ [])) fs_fat16)
        (try (bytes_match s 54 (70 ∷ 65 ∷ 84 ∷ 51 ∷ 50 ∷ 32 ∷ 32 ∷ 32 ∷ [])) fs_fat32))

-- Sector 0: "NTFS    " and "EXFAT   " at offset 3, the FAT names, "XFSB", and the FAT numbers.
unfoldable pub probe_first : Memory → Option ProbeFs
probe_first s =
    or_try (try (bytes_match s 3 (78 ∷ 84 ∷ 70 ∷ 83 ∷ 32 ∷ 32 ∷ 32 ∷ 32 ∷ [])) fs_ntfs) (
      or_try (try (bytes_match s 3 (69 ∷ 88 ∷ 70 ∷ 65 ∷ 84 ∷ 32 ∷ 32 ∷ 32 ∷ [])) fs_exfat) (
        or_try (fat_named s) (
          or_try (try (bytes_match s 0 (88 ∷ 70 ∷ 83 ∷ 66 ∷ [])) fs_xfs)
            (known (probe_fat_numeric s)))))

-- The boot sectors of the FAT partitions among `n` entries of the table from entry `i` on.
unfoldable pub probe_partitions : Device → Memory → ℕ → ℕ → Option ProbeFs
probe_partitions dev mbr zero i = none
probe_partitions dev mbr (suc n) i =
    let rest = probe_partitions dev mbr n (i + 1) in
    let s = dev.sectors (partition_lba mbr i) in
    if is_fat_partition (partition_type mbr i) && dev.can_read (partition_lba mbr i)
    then or_try (fat_named s) (or_try (known (probe_fat_numeric s)) rest)
    else rest

-- The magic number of ext at offset 56 of sector 2, and its features.
unfoldable pub probe_ext : Memory → Option ProbeFs
probe_ext s =
    if get16 s 56 == 0xEF53
    then some (
        if bit_and (get32 s 96) 0x40 == 0
        then (if bit_and (get32 s 92) 0x04 == 0 then fs_ext2 else fs_ext3)
        else fs_ext4)
    else none

-- What is tried at a sector, if it can be read.
abbrev pub at_sector : Device → ℕ → (Memory → Option ProbeFs) → Option ProbeFs
at_sector dev lba probe = if dev.can_read lba then probe (dev.sectors lba) else none

unfoldable pub fs_probe : Device → ProbeFs
fs_probe dev =
    let found = or_try (at_sector dev 0 probe_first) (
      or_try (at_sector dev 0 (λ s. if has_signature s then probe_partitions dev s 4 0 else none)) (
        or_try (at_sector dev 2 probe_ext) (
          or_try
            (at_sector dev 16 (λ s. try (bytes_match s 1 (67 ∷ 68 ∷ 48 ∷ 48 ∷ 49 ∷ [])) fs_iso9660))
            (at_sector dev 128 (λ s.
              try (bytes_match s 0x40 (95 ∷ 66 ∷ 72 ∷ 82 ∷ 102 ∷ 83 ∷ 95 ∷ 77 ∷ []))
                fs_btrfs))))) in
    elim found [ none ↦ fs_unknown | some t ↦ t ]
