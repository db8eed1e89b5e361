-- ===== src/Fat/Table.antt =====
-- fs/fat.c: `read_fat_entry` and `write_fat_entry`. A FAT12 entry has 12 bits, so two of them share
-- a byte, and an entry may have its bytes in two sectors.
use hao_sys.Base.{
  ℕ, ◌+◌, ◌*◌, ◌/◌, ◌%◌, ◌^◌, store, add32, mul32, ◌==◌, ltb, Option, none, some, if◌then◌else◌,
}
use hao_sys.Fat.{
  Fs, fat_unknown, fat12, fat16, fat32, set_buffer, get16, get32, put16, put32, dev_read, dev_write,
}

-- The sector and the offset in it of a byte of the first FAT.
unfoldable pub fat_sector : Fs → ℕ → ℕ
fat_sector fs fat_offset = add32 fs.bpb.reserved_sectors (fat_offset / fs.bytes_per_sector)

unfoldable pub offset_in : Fs → ℕ → ℕ
offset_in fs fat_offset = fat_offset % fs.bytes_per_sector

-- Two neighbouring bytes of the FAT, which may lie in two sectors. The buffer ends as the sector
-- that was read last.
unfoldable pub read_pair : Fs → ℕ → ℕ → Option (ℕ × ℕ) × Fs
unfolding dev_read
read_pair fs sector offset =
    let (ok, f) = dev_read fs sector in
    let (ok_next, g) = dev_read f (add32 sector 1) in
    if ok
    then (if ltb (offset + 1) fs.bytes_per_sector
        then (some (f.sector_buffer offset, f.sector_buffer (offset + 1)), f)
        else (if ok_next then (some (f.sector_buffer offset, g.sector_buffer 0), g) else (none, g)))
    else (none, f)

-- The even entry has the low 12 bits, the odd one the high 12.
abbrev pub fat12_value : ℕ → ℕ × ℕ → ℕ
fat12_value cluster (b0, b1) =
    let v = b0 + 2 ^ 8 * b1 in if cluster % 2 == 1 then v / 2 ^ 4 else v % 2 ^ 12

unfoldable pub read_fat12 : Fs → ℕ → ℕ × Fs
unfolding fat_sector offset_in read_pair
read_fat12 fs cluster =
    let fat_offset = mul32 cluster 3 / 2 in
    let (pair, f) = read_pair fs (fat_sector fs fat_offset) (offset_in fs fat_offset) in
    elim pair [ none ↦ (0x0FFFFFFF, f) | some p ↦ (fat12_value cluster p, f) ]

unfoldable pub read_fat16 : Fs → ℕ → ℕ × Fs
unfolding fat_sector offset_in dev_read
read_fat16 fs cluster =
    let fat_offset = mul32 cluster 2 in
    let (ok, f) = dev_read fs (fat_sector fs fat_offset) in
    if ok then (get16 f.sector_buffer (offset_in fs fat_offset), f) else (0xFFFF, f)

unfoldable pub read_fat32 : Fs → ℕ → ℕ × Fs
unfolding fat_sector offset_in dev_read
read_fat32 fs cluster =
    let fat_offset = mul32 cluster 4 in
    let (ok, f) = dev_read fs (fat_sector fs fat_offset) in
    if ok then (get32 f.sector_buffer (offset_in fs fat_offset) % 2 ^ 28, f) else (0x0FFFFFFF, f)

unfoldable pub read_fat_entry : Fs → ℕ → ℕ × Fs
unfolding read_fat12 read_fat16 read_fat32
read_fat_entry fs cluster = elim fs.fs_type [
  | fat12 ↦ read_fat12 fs cluster
  | fat16 ↦ read_fat16 fs cluster
  | fat32 ↦ read_fat32 fs cluster
  | fat_unknown ↦ (0x0FFFFFFF, fs)
]

-- The buffer goes to the first FAT and to the second; neither result is looked at.
unfoldable pub write_both : Fs → ℕ → Fs
unfolding dev_write
write_both fs sector = (dev_write (dev_write fs sector).1 (add32 sector fs.fat_size)).1

-- `(v & 0x000F) | ((value & 0x0FFF) << 4)` and `(v & 0xF000) | (value & 0x0FFF)`
abbrev pub fat12_merge : ℕ → ℕ → ℕ × ℕ → ℕ
fat12_merge cluster value (b0, b1) =
    let v = b0 + 2 ^ 8 * b1 in
    if cluster % 2 == 1
    then v % 2 ^ 4 + 2 ^ 4 * (value % 2 ^ 12)
    else v / 2 ^ 12 * 2 ^ 12 + value % 2 ^ 12

-- An entry whose bytes lie in two sectors: the buffer holds the second sector when the first is
-- written.
unfoldable pub write_split : Fs → ℕ → ℕ → ℕ → Fs
unfolding write_both dev_read
write_split fs sector offset v =
    let f = write_both (set_buffer fs (store fs.sector_buffer offset (v % 2 ^ 8))) sector in
    let (ok, g) = dev_read f (add32 sector 1) in
    if ok
    then write_both (set_buffer g (store g.sector_buffer 0 (v / 2 ^ 8 % 2 ^ 8))) (add32 sector 1)
    else g

unfoldable pub write_fat12 : Fs → ℕ → ℕ → Fs
unfolding fat_sector offset_in read_pair write_both write_split
write_fat12 fs cluster value =
    let fat_offset = mul32 cluster 3 / 2 in
    let sector = fat_sector fs fat_offset in
    let offset = offset_in fs fat_offset in
    let (pair, f) = read_pair fs sector offset in
    elim pair [
      | none ↦ f
      | some p ↦
          let v = fat12_merge cluster value p in
          if ltb (offset + 1) fs.bytes_per_sector
          then write_both (set_buffer f (put16 f.sector_buffer offset v)) sector
          else write_split f sector offset v
    ]

unfoldable pub write_fat16 : Fs → ℕ → ℕ → Fs
unfolding fat_sector offset_in dev_read write_both
write_fat16 fs cluster value =
    let fat_offset = mul32 cluster 2 in
    let sector = fat_sector fs fat_offset in
    let (ok, f) = dev_read fs sector in
    if ok
    then write_both
        (set_buffer f (put16 f.sector_buffer (offset_in fs fat_offset) (value % 2 ^ 16))) sector
    else f

-- The high 4 bits of the entry stay.
unfoldable pub write_fat32 : Fs → ℕ → ℕ → Fs
unfolding fat_sector offset_in dev_read write_both
write_fat32 fs cluster value =
    let fat_offset = mul32 cluster 4 in
    let sector = fat_sector fs fat_offset in
    let offset = offset_in fs fat_offset in
    let (ok, f) = dev_read fs sector in
    let v = get32 f.sector_buffer offset / 2 ^ 28 * 2 ^ 28 + value % 2 ^ 28 in
    if ok then write_both (set_buffer f (put32 f.sector_buffer offset v)) sector else f

unfoldable pub write_fat_entry : Fs → ℕ → ℕ → Fs
unfolding write_fat12 write_fat16 write_fat32
write_fat_entry fs cluster value = elim fs.fs_type [
  | fat12 ↦ write_fat12 fs cluster value
  | fat16 ↦ write_fat16 fs cluster value
  | fat32 ↦ write_fat32 fs cluster value
  | fat_unknown ↦ fs
]
