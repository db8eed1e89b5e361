-- ===== src/Fat/Layout.antt =====
-- The two FATs of a mounted volume, as the bytes of the first and its copy.
use hao_sys.Base.{
  ℕ, ◌+◌, ◌*◌, ◌/◌, ◌%◌, ◌^◌, ◌<◌, ◌≡◌, refl, ap, true, Memory, add32, ◌==◌, arith, if◌then◌else◌,
}
use hao_sys.Fat.{Fs, set_buffer, dev_read, dev_write}
use hao_sys.Fat.Table.{fat_sector, offset_in, write_both}

-- Sectors of 512 bytes, two FATs inside 32-bit sector numbers, and a device that reads and writes
-- all their sectors.
pub record IsMounted (fs : Fs) : Type 0 where
  pub sector_size : fs.bytes_per_sector ≡ 512
  pub inside : fs.base_lba + fs.bpb.reserved_sectors + 2 * fs.fat_size < 2 ^ 32
  pub reads :
      (k : ℕ)
      → k < 2 * fs.fat_size
      → fs.dev.can_read (fs.base_lba + fs.bpb.reserved_sectors + k) ≡ true
  pub writes :
      (k : ℕ)
      → k < 2 * fs.fat_size
      → fs.dev.can_write (fs.base_lba + fs.bpb.reserved_sectors + k) ≡ true
  pub bytes : (l o : ℕ) → fs.dev.sectors l o < 256

-- Sector `k` of the FATs, and byte `o` of the first.
abbrev pub sector_of : Fs → ℕ → Memory
sector_of fs k = fs.dev.sectors (fs.base_lba + fs.bpb.reserved_sectors + k)

abbrev pub fat_byte : Fs → ℕ → ℕ
fat_byte fs o = sector_of fs (o / 512) (o % 512)

pub with_buffer : {fs : Fs} (b : Memory) → IsMounted fs → IsMounted (set_buffer fs b)
with_buffer b m = record {
  sector_size = m.sector_size;
  inside = m.inside;
  reads = m.reads;
  writes = m.writes;
  bytes = m.bytes;
}

pub dev_read-fat :
    {fs : Fs} (k : ℕ)
    → IsMounted fs
    → k < 2 * fs.fat_size
    → dev_read fs (add32 fs.bpb.reserved_sectors k) ≡ (true, set_buffer fs (sector_of fs k))
unfolding dev_read
dev_read-fat {fs} k m h =
    let at : add32 fs.base_lba (add32 fs.bpb.reserved_sectors k)
        ≡ fs.base_lba + fs.bpb.reserved_sectors + k =
      omega (arith, m.inside) in
    rw (at, m.reads k h) refl

pub fat_sector_lem :
    {fs : Fs} (o : ℕ) → IsMounted fs → fat_sector fs o ≡ add32 fs.bpb.reserved_sectors (o / 512)
unfolding fat_sector
fat_sector_lem {fs} o m = ap (λ n. add32 fs.bpb.reserved_sectors (o / n)) m.sector_size

pub offset_in_lem : {fs : Fs} (o : ℕ) → IsMounted fs → offset_in fs o ≡ o % 512
unfolding offset_in
offset_in_lem o m = ap (λ n. o % n) m.sector_size

-- The volume after its buffer was written to device sector `a`.
abbrev pub written : Fs → ℕ → Fs
written fs a = record fs {
  dev = record fs.dev { sectors = λ l. if l == a then fs.sector_buffer else fs.dev.sectors l };
}

pub dev_write-written :
    (fs : Fs) (lba a : ℕ)
    → add32 fs.base_lba lba ≡ a
    → fs.dev.can_write a ≡ true
    → dev_write fs lba ≡ (true, written fs a)
unfolding dev_write
dev_write-written fs lba a e w = rw (e, w) refl

pub write_both-written :
    {fs : Fs} (k : ℕ)
    → IsMounted fs
    → k < fs.fat_size
    → let start = fs.base_lba + fs.bpb.reserved_sectors in
      write_both fs (add32 fs.bpb.reserved_sectors k)
      ≡ written (written fs (start + k)) (start + (k + fs.fat_size))
unfolding write_both
write_both-written {fs} k m h =
    let start = fs.base_lba + fs.bpb.reserved_sectors in
    let first =
      dev_write-written fs (add32 fs.bpb.reserved_sectors k) (start + k) (omega (arith, m.inside))
        (m.writes k (omega arith)) in
    let second =
      dev_write-written (written fs (start + k))
        (add32 (add32 fs.bpb.reserved_sectors k) fs.fat_size) (start + (k + fs.fat_size))
        (omega (arith, m.inside)) (m.writes (k + fs.fat_size) (omega arith)) in
    rw (write_both, first, second) refl

-- Both copies of FAT sector `k` with the contents `b`.
abbrev pub both : Fs → Memory → ℕ → Fs
both fs b k =
    let start = fs.base_lba + fs.bpb.reserved_sectors in
    written (written (set_buffer fs b) (start + k)) (start + (k + fs.fat_size))

pub both-fat_byte :
    (fs : Fs) (b : Memory) (k o : ℕ)
    → o < 512 * fs.fat_size
    → fat_byte (both fs b k) o ≡ (if o / 512 == k then b (o % 512) else fat_byte fs o)
both-fat_byte fs b k o h = ground arith

pub both-IsMounted :
    {fs : Fs} (b : Memory) (k : ℕ) → IsMounted fs → ((o : ℕ) → b o < 256) → IsMounted (both fs b k)
both-IsMounted b k m h = record {
  sector_size = m.sector_size;
  inside = m.inside;
  reads = m.reads;
  writes = m.writes;
  bytes = λ l o. ground (arith, h o, m.bytes l o);
}

pub both-sector_of :
    (fs : Fs) (b : Memory) (k j : ℕ)
    → j < fs.fat_size
    → sector_of (both fs b k) j ≡ (if j == k then b else sector_of fs j)
both-sector_of fs b k j h = ground arith
