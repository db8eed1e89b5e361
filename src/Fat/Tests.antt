-- ===== src/Fat/Tests.antt =====
-- Small volumes: an empty device that reads and writes everywhere, with two FATs of two sectors.
use hao_sys.Base.{
  ℕ, ◌%◌, ◌^◌, ◌≤◌, ◌<◌, ◌≡◌, refl, ◌⊎◌, true, false, some, [], ◌∷◌, map, Memory, store, ◌==◌, leb,
  min, if◌then◌else◌, arith,
}
use hao_sys.Fat.{Fs, Device, FatType, fat_unknown, fat12, fat16, dev_read}
use hao_sys.Fat.Table.{read_fat_entry, write_fat_entry, write_fat12}
use hao_sys.Fat.Layout.{IsMounted, sector_of}
use hao_sys.Fat.Entries.{
  InTable, AreMirrored, entry_bits, read_fat_entry-write_fat_entry, write_fat_entry-AreMirrored,
}
use hao_sys.Fat.Straddle.{write_fat12-copies, low_byte}
use hao_sys.Fat.Mount.{
  mount, mount_boot, mbr_find_fat_partition, scan_partitions, bpb_load, type_of, named_type,
  bytes_match, detect_fat_type, lay_out, read_bpb,
}
use hao_sys.Fat.Mount.Laws.{IsLaidOut, FirstFat, mount-IsLaidOut, mbr_find_fat_partition-FirstFat}
use hao_sys.Fat.Name.{
  make_83_name, to_upper, entry_unix_meta, entry_set_unix_meta, make_83_name-to_upper,
  entry_unix_meta-entry_set_unix_meta, file_size,
}
use hao_sys.Fat.Path.{resolve_parent}
use hao_sys.Fat.Path.Segments.{IsSegment, join, resolve_segments, resolve_parent-segments}
use hao_sys.Fat.File.{load_file}
use hao_sys.Fat.File.Loading.{Reads, load_file-Reads}
use hao_sys.Fat.Dir.{end_mark, chain_end}
use hao_sys.Fat.Write.Free.{end_mark-chain_end}

abbrev blank : Device
blank = record { sectors = λ l o. 0; can_read = λ l. true; can_write = λ l. true }

abbrev tiny : FatType → Fs
tiny t = record {
  bpb = record {
    bytes_per_sector = 512;
    sectors_per_cluster = 1;
    reserved_sectors = 1;
    num_fats = 2;
    root_entry_count = 16;
    total_sectors_16 = 64;
    fat_size_16 = 2;
    total_sectors_32 = 0;
    fat_size_32 = 0;
    root_cluster = 0;
  };
  dev = blank;
  base_lba = 0;
  first_data_sector = 6;
  root_dir_sectors = 1;
  total_sectors = 64;
  fat_size = 2;
  sectors_per_cluster = 1;
  bytes_per_sector = 512;
  root_dir_entries = 16;
  fs_type = t;
  initialized = true;
  root_cluster = 0;
  sector_buffer = λ i. 0;
}

tiny-IsMounted : (t : FatType) → IsMounted (tiny t)
tiny-IsMounted t = record {
  sector_size = refl;
  inside = omega arith;
  reads = λ k h. refl;
  writes = λ k h. refl;
  bytes = λ l o. omega arith;
}

InTable-three_16 : InTable (tiny fat16) 3
InTable-three_16 = record { small = omega arith; inside = omega arith }

InTable-three_12 : InTable (tiny fat12) 3
InTable-three_12 = record { small = omega arith; inside = omega arith }

InTable-two_12 : InTable (tiny fat12) 2
InTable-two_12 = record { small = omega arith; inside = omega arith }

read_fat_entry-write_fat_entry_example :
    (read_fat_entry (write_fat_entry (tiny fat12) 3 0x1ABC) 2).0
    ≡ (if 2 == 3 then 0x1ABC % 2 ^ entry_bits fat12 else (read_fat_entry (tiny fat12) 2).0)
read_fat_entry-write_fat_entry_example =
    read_fat_entry-write_fat_entry 3 2 0x1ABC (tiny-IsMounted fat12) (λ e. cc) InTable-three_12
      InTable-two_12 (λ s. omega (arith, s.1))

reads_back : (read_fat_entry (write_fat_entry (tiny fat12) 3 0x1ABC) 3).0 ≡ 0xABC
unfolding read_fat_entry write_fat_entry store
reads_back = refl

write_fat_entry-AreMirrored_example : AreMirrored (write_fat_entry (tiny fat16) 3 4)
write_fat_entry-AreMirrored_example =
    write_fat_entry-AreMirrored 3 4 (tiny-IsMounted fat16) InTable-three_16 (λ s. cc (s.0))
      (λ k h. refl)

write_fat12-copies_example :
    sector_of (write_fat12 (tiny fat12) 341 7) 0
    ≡ store (sector_of (tiny fat12) 1) 511 (low_byte (tiny fat12) 341 7)
write_fat12-copies_example =
    write_fat12-copies 341 7 (tiny-IsMounted fat12) (omega arith) (omega arith) refl

end_mark-chain_end_example :
    leb chain_end (read_fat_entry (write_fat_entry (tiny fat16) 3 end_mark) 3).0 ≡ false
end_mark-chain_end_example =
    end_mark-chain_end 3 (tiny-IsMounted fat16) (λ e. cc) InTable-three_16 (λ s. cc (s.0))

name_in_lower_case :
    make_83_name (map to_upper (97 ∷ 46 ∷ 98 ∷ [])) ≡ make_83_name (97 ∷ 46 ∷ 98 ∷ [])
name_in_lower_case = make_83_name-to_upper (97 ∷ 46 ∷ 98 ∷ [])

entry_unix_meta-entry_set_unix_meta_example :
    (entry_unix_meta (some (entry_set_unix_meta (λ i. 0) 0x81C0 1000 100)) ≡ (0x81C0, 1000, 100))
    × ((i : ℕ) → (i < 13) ⊎ (20 ≤ i) → entry_set_unix_meta (λ i. 0) 0x81C0 1000 100 i ≡ 0)
entry_unix_meta-entry_set_unix_meta_example =
    entry_unix_meta-entry_set_unix_meta (λ i. 0) 0x81C0 1000 100 (omega arith) (omega arith)
      (omega arith)

IsSegment-a : IsSegment (97 ∷ [])
IsSegment-a = record { no_slash = refl; short = omega arith; some_char = omega arith }

resolve_parent-segments_example :
    resolve_parent 5 (join ((97 ∷ []) ∷ (97 ∷ []) ∷ [])) (tiny fat16)
    ≡ resolve_segments 5 0 ((97 ∷ []) ∷ (97 ∷ []) ∷ []) (tiny fat16)
resolve_parent-segments_example =
    resolve_parent-segments 5 ((97 ∷ []) ∷ (97 ∷ []) ∷ []) (tiny fat16)
      (IsSegment-a, (IsSegment-a, tt))

-- A file of 3 bytes in cluster 2.
abbrev three_bytes : Memory
three_bytes i = if i == 26 then 2 else if i == 28 then 3 else 0

load_file-Reads_example :
    Reads (tiny fat16) (min (file_size three_bytes) 100) (load_file three_bytes 100 (tiny fat16))
load_file-Reads_example = load_file-Reads three_bytes 100 (tiny fat16) (omega arith) (omega arith)

-- A boot sector of a FAT16 volume, and one with a partition table.
abbrev boot_sector : Memory
boot_sector i =
    if i == 510
    then 0x55
    else if i == 511
    then 0xAA
    else if i == 12
    then 2
    else if i == 13
    then 1
    else if i == 14
    then 1
    else if i == 16
    then 2
    else if i == 22
    then 20
    else if i == 20
    then 32
    else 0

abbrev disk : Device
disk = record blank { sectors = λ l. boot_sector }

mounted : Fs
unfolding mount
mounted = (mount (tiny fat_unknown) disk).1

mounts : mount (tiny fat_unknown) disk ≡ (true, mounted)
unfolding mounted dev_read mount_boot mbr_find_fat_partition scan_partitions bpb_load type_of
    named_type bytes_match detect_fat_type lay_out read_bpb
mounts = refl

mount-IsLaidOut_example : IsLaidOut disk mounted
mount-IsLaidOut_example = mount-IsLaidOut (tiny fat_unknown) disk mounts

abbrev table : Memory
table i =
    if i == 510
    then 0x55
    else if i == 511
    then 0xAA
    else if i == 466
    then 0x0C
    else if i == 471
    then 8
    else 0

mbr_find_fat_partition-FirstFat_example : FirstFat table 4 0 (mbr_find_fat_partition table)
mbr_find_fat_partition-FirstFat_example = mbr_find_fat_partition-FirstFat table refl
