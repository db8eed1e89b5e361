-- ===== src/Fat/Entry.antt =====
-- What `read_fat_entry` returns, in the bytes of the first FAT.
use hao_sys.Base.{
  ℕ, ◌+◌, ◌*◌, ◌/◌, ◌%◌, ◌^◌, ◌≤◌, ◌<◌, ◌≡◌, refl, add32, mul32, ltb, arith, some, Bool-cases, inl,
  inr,
}
use hao_sys.Fat.{Fs, set_buffer, get32}
use hao_sys.Fat.Table.{read_pair, fat12_value, read_fat12, read_fat16, read_fat32}
use hao_sys.Fat.Layout.{
  IsMounted, fat_sector_lem, offset_in_lem, sector_of, fat_byte, dev_read-fat, with_buffer,
}

pub read_fat16_lem :
    {fs : Fs} (c : ℕ)
    → IsMounted fs
    → c < 2 ^ 28
    → 2 * c + 2 ≤ 512 * fs.fat_size
    → read_fat16 fs c ≡ (
      fat_byte fs (2 * c) + 2 ^ 8 * fat_byte fs (2 * c + 1),
      set_buffer fs (sector_of fs (2 * c / 512)),
    )
unfolding read_fat16
read_fat16_lem {fs} c m hc hi =
    let o : mul32 c 2 ≡ 2 * c = omega arith in
    let same : (2 * c + 1) / 512 ≡ 2 * c / 512 = omega arith in
    let next : (2 * c + 1) % 512 ≡ 2 * c % 512 + 1 = omega arith in
    rw
      (
        read_fat16,
        o,
        fat_sector_lem (2 * c) m,
        offset_in_lem (2 * c) m,
        dev_read-fat (2 * c / 512) m (omega arith),
        same,
        next,
      )
      refl

pub read_fat32_lem :
    {fs : Fs} (c : ℕ)
    → IsMounted fs
    → c < 2 ^ 28
    → 4 * c + 4 ≤ 512 * fs.fat_size
    → read_fat32 fs c ≡ (
      get32 (sector_of fs (4 * c / 512)) (4 * c % 512) % 2 ^ 28,
      set_buffer fs (sector_of fs (4 * c / 512)),
    )
unfolding read_fat32
read_fat32_lem {fs} c m hc hi =
    let o : mul32 c 4 ≡ 4 * c = omega arith in
    rw
      (
        read_fat32,
        o,
        fat_sector_lem (4 * c) m,
        offset_in_lem (4 * c) m,
        dev_read-fat (4 * c / 512) m (omega arith),
      )
      refl

-- The two bytes, wherever they lie, and a buffer with the last sector read.
pub read_pair_lem :
    {fs : Fs} (o : ℕ)
    → IsMounted fs
    → o + 2 ≤ 512 * fs.fat_size
    → read_pair fs (add32 fs.bpb.reserved_sectors (o / 512)) (o % 512)
      ≡ (some (fat_byte fs o, fat_byte fs (o + 1)), set_buffer fs (sector_of fs ((o + 1) / 512)))
unfolding read_pair
read_pair_lem {fs} o m h =
    let succ : add32 (add32 fs.bpb.reserved_sectors (o / 512)) 1
        ≡ add32 fs.bpb.reserved_sectors (o / 512 + 1) =
      omega (arith, m.inside) in
    let first = dev_read-fat (o / 512) m (omega arith) in
    elim (Bool-cases (ltb (o % 512 + 1) fs.bytes_per_sector)) [
      | inl near ↦
          let same : (o + 1) / 512 ≡ o / 512 = ground (arith, m.sector_size) in
          let next : (o + 1) % 512 ≡ o % 512 + 1 = ground (arith, m.sector_size) in
          rw (read_pair, first, near, same, next) refl
      | inr far ↦
          let after : (o + 1) / 512 ≡ o / 512 + 1 = ground (arith, m.sector_size) in
          let start : (o + 1) % 512 ≡ 0 = ground (arith, m.sector_size) in
          let second =
            dev_read-fat (o / 512 + 1) (with_buffer (sector_of fs (o / 512)) m)
              (ground (arith, m.sector_size)) in
          rw (read_pair, first, far, succ, second, after, start) refl
    ]

pub read_fat12_lem :
    {fs : Fs} (c : ℕ)
    → IsMounted fs
    → c < 2 ^ 28
    → c * 3 / 2 + 2 ≤ 512 * fs.fat_size
    → read_fat12 fs c ≡ (
      fat12_value c (fat_byte fs (c * 3 / 2), fat_byte fs (c * 3 / 2 + 1)),
      set_buffer fs (sector_of fs ((c * 3 / 2 + 1) / 512)),
    )
unfolding read_fat12
read_fat12_lem {fs} c m hc hi =
    let o : mul32 c 3 ≡ c * 3 = omega arith in
    let sector = fat_sector_lem (c * 3 / 2) m in
    let offset = offset_in_lem (c * 3 / 2) m in
    let pair = read_pair_lem (c * 3 / 2) m hi in
    rw (read_fat12, o, sector, offset, pair) (rw (o, sector, offset, pair) refl)
