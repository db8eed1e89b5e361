-- ===== src/Fat/Mount.antt =====
-- fs/fat.c: the partition table, the boot sector and `fat_mount`. A C string is the list of its
-- bytes, without the final 0. A sector size of 0, which would divide by 0, is not modelled.
pub mod Laws
use hao_sys.Base.{
  ℕ, zero, suc, ◌+◌, ◌-◌, ◌*◌, ◌/◌, ◌%◌, ◌^◌, ◌≤◌, ◌<◌, ◌≡◌, refl, Bool, true, false, not, ◌&&◌,
  ◌||◌, List, [], ◌∷◌, Memory, store, add32, sub32, mul32, ◌==◌, ltb, if◌then◌else◌, arith,
}
use hao_sys.Fat.{
  Fs, Device, Bpb, FatType, fat_unknown, fat12, fat16, fat32, set_buffer, get16, get32, dev_read,
}

-- `a ? a : b`
abbrev pub or_else : ℕ → ℕ → ℕ
or_else a b = if a == 0 then b else a

-- The sectors of `entries` entries of 32 bytes.
abbrev pub root_sectors : ℕ → ℕ → ℕ
root_sectors entries bytes_per_sector = (entries * 32 + bytes_per_sector - 1) / bytes_per_sector

unfoldable pub detect_fat_type : Bpb → FatType
detect_fat_type b =
    let fat_size = or_else b.fat_size_16 b.fat_size_32 in
    let total = or_else b.total_sectors_16 b.total_sectors_32 in
    let root = root_sectors b.root_entry_count b.bytes_per_sector in
    let data_sectors =
      sub32 total (add32 (add32 b.reserved_sectors (mul32 b.num_fats fat_size)) root) in
    let clusters = data_sectors / b.sectors_per_cluster in
    if not (b.bytes_per_sector == 512)
    then fat_unknown
    else (if (b.sectors_per_cluster == 0) || ltb 64 b.sectors_per_cluster
        then fat_unknown
        else (if fat_size == 0
            then fat_unknown
            else (if ltb clusters 4085
                then fat12
                else if ltb clusters 65525
                then fat16
                else fat32)))

-- The partition types of FAT, and of the EFI system partition.
abbrev pub is_fat_partition : ℕ → Bool
is_fat_partition t =
    (t == 0x01)
    || ((t == 0x04)
        || ((t == 0x06) || ((t == 0x0E) || ((t == 0x0B) || ((t == 0x0C) || (t == 0xEF))))))

abbrev pub partition_type : Memory → ℕ → ℕ
partition_type mbr i = mbr (446 + i * 16 + 4)

abbrev pub partition_lba : Memory → ℕ → ℕ
partition_lba mbr i = get32 mbr (446 + i * 16 + 8)

-- The loop over `n` entries from entry `i` on.
unfoldable pub scan_partitions : Memory → ℕ → ℕ → ℕ
scan_partitions mbr zero i = 0
scan_partitions mbr (suc n) i =
    let t = partition_type mbr i in
    let rest = scan_partitions mbr n (i + 1) in
    if (t == 0x00) || ((t == 0x05) || (t == 0x0F))
    then rest
    else (if is_fat_partition t then partition_lba mbr i else rest)

-- The bytes 0x55 and 0xAA at the end.
abbrev pub has_signature : Memory → Bool
has_signature b = (b 510 == 0x55) && (b 511 == 0xAA)

unfoldable pub mbr_find_fat_partition : Memory → ℕ
unfolding scan_partitions
mbr_find_fat_partition mbr = if has_signature mbr then scan_partitions mbr 4 0 else 0

-- The fields at their offsets in `fat_bpb_t`.
unfoldable pub read_bpb : Memory → Bpb
read_bpb b = record {
  bytes_per_sector = get16 b 11;
  sectors_per_cluster = b 13;
  reserved_sectors = get16 b 14;
  num_fats = b 16;
  root_entry_count = get16 b 17;
  total_sectors_16 = get16 b 19;
  fat_size_16 = get16 b 22;
  total_sectors_32 = get32 b 32;
  fat_size_32 = get32 b 36;
  root_cluster = get32 b 44;
}

-- Whether `b` has these bytes from offset `o` on, as `memcmp` compares.
unfoldable pub bytes_match : Memory → ℕ → List ℕ → Bool
bytes_match b o [] = true
bytes_match b o (c ∷ cs) = (b o == c) && bytes_match b (o + 1) cs

-- The type string `fs_type`, at offset 82: "FAT12", "FAT16" or "FAT32".
unfoldable pub named_type : Memory → FatType
unfolding bytes_match
named_type b =
    if bytes_match b 82 (70 ∷ 65 ∷ 84 ∷ 49 ∷ 50 ∷ [])
    then fat12
    else (if bytes_match b 82 (70 ∷ 65 ∷ 84 ∷ 49 ∷ 54 ∷ [])
        then fat16
        else (if bytes_match b 82 (70 ∷ 65 ∷ 84 ∷ 51 ∷ 50 ∷ []) then fat32 else fat_unknown))

-- What the fields say where the string says nothing.
unfoldable pub type_of : Memory → FatType
unfolding named_type detect_fat_type read_bpb
type_of b = elim (named_type b) [ fat_unknown ↦ detect_fat_type (read_bpb b) | t ↦ t ]

-- The fields that follow from the boot sector.
unfoldable pub lay_out : Fs → Bpb → FatType → Fs
lay_out fs b t =
    let fat_size = or_else b.fat_size_16 b.fat_size_32 in
    let tables = add32 b.reserved_sectors (mul32 b.num_fats fat_size) in
    let root = root_sectors b.root_entry_count b.bytes_per_sector in
    let common : Fs = record fs {
      bpb = b;
      fs_type = t;
      bytes_per_sector = b.bytes_per_sector;
      sectors_per_cluster = b.sectors_per_cluster;
      root_dir_entries = b.root_entry_count;
      root_dir_sectors = root;
      total_sectors = or_else b.total_sectors_16 b.total_sectors_32;
      fat_size = fat_size;
      first_data_sector = add32 tables root;
      initialized = true;
    } in
    elim t [
      | fat32 ↦ record common {
        root_cluster = b.root_cluster;
        root_dir_sectors = 0;
        first_data_sector = tables;
      }
      | _ ↦ common
    ]

-- The boot sector is in the buffer.
unfoldable pub bpb_load : Fs → Bool × Fs
unfolding type_of lay_out read_bpb
bpb_load fs =
    let b = read_bpb fs.sector_buffer in
    let f : Fs = record fs { bpb = b } in
    if has_signature fs.sector_buffer
    then elim (type_of fs.sector_buffer) [
      | fat_unknown ↦ (false, record f { fs_type = fat_unknown })
      | t ↦ (true, lay_out f b t)
    ]
    else (false, f)

-- The volume of a partition.
unfoldable pub mount_partition : Fs → ℕ → Bool × Fs
mount_partition fs part_lba =
    let (ok, g) = dev_read (record fs { base_lba = part_lba }) 0 in
    if ok then bpb_load g else (false, g)

-- The first sector is in the buffer: the whole disk, unless there is a partition table with a FAT
-- partition.
unfoldable pub mount_boot : Fs → Bool × Fs
mount_boot fs =
    let part_lba = mbr_find_fat_partition fs.sector_buffer in
    if part_lba == 0 then bpb_load fs else mount_partition fs part_lba

unfoldable pub mount : Fs → Device → Bool × Fs
mount fs dev =
    let (ok, g) = dev_read (record fs { dev = dev; base_lba = 0 }) 0 in
    if ok then mount_boot g else (false, g)

pub get_type : Fs → FatType
get_type fs = fs.fs_type
