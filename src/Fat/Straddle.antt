-- ===== src/Fat/Straddle.antt =====
-- `write_fat_entry` on a FAT12 entry whose bytes lie in two sectors: the sector buffer holds the
-- second sector when the first one is written.
use hao_sys.Base.{
  ℕ, ◌+◌, ◌*◌, ◌/◌, ◌%◌, ◌^◌, ◌≤◌, ◌<◌, ◌≡◌, refl, ap, ◌∙◌, false, store, add32, mul32, ◌==◌, ltb,
  arith, some, ==_refl,
}
use hao_sys.Fat.{Fs, set_buffer}
use hao_sys.Fat.Table.{fat12_merge, write_split, write_fat12}
use hao_sys.Fat.Layout.{
  IsMounted, fat_sector_lem, offset_in_lem, sector_of, fat_byte, dev_read-fat, with_buffer, both,
  both-sector_of, both-IsMounted, write_both-written,
}
use hao_sys.Fat.Entry.{read_pair_lem}

-- The low byte of the new entry's pair.
abbrev pub low_byte : Fs → ℕ → ℕ → ℕ
low_byte fs c v = let o = c * 3 / 2 in fat12_merge c v (fat_byte fs o, fat_byte fs (o + 1)) % 2 ^ 8

write_split-first :
    {fs : Fs} (k p v : ℕ)
    → IsMounted fs
    → k + 1 < fs.fat_size
    → sector_of
        (write_split (set_buffer fs (sector_of fs (k + 1))) (add32 fs.bpb.reserved_sectors k) p v)
        k
      ≡ store (sector_of fs (k + 1)) p (v % 2 ^ 8)
unfolding write_split store
write_split-first {fs} k p v m h =
    let b = store (sector_of fs (k + 1)) p (v % 2 ^ 8) in
    let f = both fs b k in
    let fm : IsMounted f =
      both-IsMounted b k m
        (λ o. ground (arith, m.bytes (fs.base_lba + fs.bpb.reserved_sectors + (k + 1)) o)) in
    let succ : add32 (add32 fs.bpb.reserved_sectors k) 1 ≡ add32 fs.bpb.reserved_sectors (k + 1) =
      omega (arith, m.inside) in
    let first = write_both-written {fs = set_buffer fs b} k (with_buffer b m) (omega arith) in
    let again = dev_read-fat {fs = f} (k + 1) fm (omega arith) in
    let b' = store (sector_of f (k + 1)) 0 (v / 2 ^ 8 % 2 ^ 8) in
    let second = write_both-written {fs = set_buffer f b'} (k + 1) (with_buffer b' fm) h in
    let kept = both-sector_of f b' (k + 1) k (omega arith) in
    let put = both-sector_of fs b k k (omega arith) in
    let other : (k == k + 1) ≡ false = ground arith in
    let same = ==_refl k in
    rw (write_split, first, succ, again, second) (kept ∙ rw (other) (put ∙ rw same refl))

-- A FAT12 entry that starts at the last byte of a sector: `write_fat_entry` turns that sector of the FAT
-- into a copy of the next one, but for its last byte.
pub write_fat12-copies :
    {fs : Fs} (c v : ℕ)
    → IsMounted fs
    → c < 2 ^ 28
    → c * 3 / 2 + 2 ≤ 512 * fs.fat_size
    → c * 3 / 2 % 512 ≡ 511
    → let k = c * 3 / 2 / 512 in
      sector_of (write_fat12 fs c v) k
      ≡ store (sector_of fs (k + 1)) (c * 3 / 2 % 512) (low_byte fs c v)
unfolding write_fat12
write_fat12-copies {fs} c v m hc hi last =
    let o = c * 3 / 2 in
    let k = o / 512 in
    let index : mul32 c 3 ≡ c * 3 = omega arith in
    let far : ltb (o % 512 + 1) fs.bytes_per_sector ≡ false = ground (arith, m.sector_size) in
    let next : (o + 1) / 512 ≡ o / 512 + 1 = omega arith in
    let sector = fat_sector_lem o m in
    let offset = offset_in_lem o m in
    let pair =
      read_pair_lem o m hi
      ∙ ap (λ j. (some (fat_byte fs o, fat_byte fs (o + 1)), set_buffer fs (sector_of fs j)))
          next in
    rw (write_fat12, index, sector, offset, pair)
      (rw (index, sector, offset, pair, far)
        (write_split-first k (o % 512) (fat12_merge c v (fat_byte fs o, fat_byte fs (o + 1))) m
          (omega arith)))
