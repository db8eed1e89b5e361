-- ===== src/Fat/Update.antt =====
-- `write_fat_entry` against `read_fat_entry` on FAT16 and FAT32.
use hao_sys.Base.{
  ℕ, ◌+◌, ◌*◌, ◌/◌, ◌%◌, ◌^◌, ◌≤◌, ◌<◌, ◌≡◌, ◌≢◌, refl, ap, ◌∙◌, false, Memory, store, mul32, ◌==◌,
  arith, if◌then◌else◌, ℕ_discrete, ==_refl,
}
use hao_sys.Fat.{Fs, set_buffer, get32, put16, put32}
use hao_sys.Fat.Table.{read_fat16, read_fat32, write_fat16, write_fat32}
use hao_sys.Fat.Layout.{
  IsMounted, fat_sector_lem, offset_in_lem, sector_of, dev_read-fat, with_buffer, both,
  both-fat_byte, both-sector_of, both-IsMounted, write_both-written,
}
use hao_sys.Fat.Entry.{read_fat16_lem, read_fat32_lem}

pub put16-IsBytes : (b : Memory) (o v : ℕ) → ((a : ℕ) → b a < 256) → (a : ℕ) → put16 b o v a < 256
unfolding store
put16-IsBytes b o v h a = ground (arith, h a)

pub write_fat16-both :
    {fs : Fs} (c v : ℕ)
    → IsMounted fs
    → c < 2 ^ 28
    → 2 * c + 2 ≤ 512 * fs.fat_size
    → let k = 2 * c / 512 in
      write_fat16 fs c v ≡ both fs (put16 (sector_of fs k) (2 * c % 512) (v % 2 ^ 16)) k
unfolding write_fat16
write_fat16-both {fs} c v m hc hi =
    let k = 2 * c / 512 in
    let o : mul32 c 2 ≡ 2 * c = omega arith in
    let b = put16 (sector_of fs k) (2 * c % 512) (v % 2 ^ 16) in
    rw
      (
        write_fat16,
        o,
        fat_sector_lem (2 * c) m,
        offset_in_lem (2 * c) m,
        dev_read-fat k m (omega arith),
        write_both-written {fs = set_buffer fs b} k (with_buffer b m) (omega arith),
      )
      refl

pub read_fat16-write_fat16 :
    {fs : Fs} (c d v : ℕ)
    → IsMounted fs
    → c < 2 ^ 28
    → d < 2 ^ 28
    → 2 * c + 2 ≤ 512 * fs.fat_size
    → 2 * d + 2 ≤ 512 * fs.fat_size
    → (read_fat16 (write_fat16 fs c v) d).0 ≡ (if d == c then v % 2 ^ 16 else (read_fat16 fs d).0)
unfolding store
read_fat16-write_fat16 {fs} c d v m hc hd ic id =
    let k = 2 * c / 512 in
    let b = put16 (sector_of fs k) (2 * c % 512) (v % 2 ^ 16) in
    let bytes = put16-IsBytes (sector_of fs k) (2 * c % 512) (v % 2 ^ 16) (m.bytes _) in
    rw
      (
        write_fat16-both c v m hc ic,
        read_fat16_lem {fs = both fs b k} d (both-IsMounted b k m bytes) hd id,
        read_fat16_lem d m hd id,
      )
      (ground (arith, both-fat_byte fs b k (2 * d), both-fat_byte fs b k (2 * d + 1)))

put32-IsBytes : (b : Memory) (o v : ℕ) → ((a : ℕ) → b a < 256) → (a : ℕ) → put32 b o v a < 256
unfolding store
put32-IsBytes b o v h a = ground (arith, h a)

-- The entry's new word: the old high 4 bits and the low 28 bits of the value.
abbrev fat32_word : Fs → ℕ → ℕ → ℕ
fat32_word fs c v = get32 (sector_of fs (4 * c / 512)) (4 * c % 512) / 2 ^ 28 * 2 ^ 28 + v % 2 ^ 28

pub write_fat32-both :
    {fs : Fs} (c v : ℕ)
    → IsMounted fs
    → c < 2 ^ 28
    → 4 * c + 4 ≤ 512 * fs.fat_size
    → let k = 4 * c / 512 in
      write_fat32 fs c v ≡ both fs (put32 (sector_of fs k) (4 * c % 512) (fat32_word fs c v)) k
unfolding write_fat32
write_fat32-both {fs} c v m hc hi =
    let k = 4 * c / 512 in
    let o : mul32 c 4 ≡ 4 * c = omega arith in
    let b = put32 (sector_of fs k) (4 * c % 512) (fat32_word fs c v) in
    rw
      (
        write_fat32,
        o,
        fat_sector_lem (4 * c) m,
        offset_in_lem (4 * c) m,
        dev_read-fat k m (omega arith),
        write_both-written {fs = set_buffer fs b} k (with_buffer b m) (omega arith),
      )
      refl

get32-put32_same : (b : Memory) (o v : ℕ) → v < 2 ^ 32 → get32 (put32 b o v) o ≡ v
unfolding store
get32-put32_same b o v h = ground arith

get32-put32_other :
    (b : Memory) (o p v : ℕ) → o % 4 ≡ 0 → p % 4 ≡ 0 → p ≢ o → get32 (put32 b o v) p ≡ get32 b p
unfolding store
get32-put32_other b o p v ho hp ne = ground arith

pub read_fat32-write_fat32 :
    {fs : Fs} (c d v : ℕ)
    → IsMounted fs
    → c < 2 ^ 28
    → d < 2 ^ 28
    → 4 * c + 4 ≤ 512 * fs.fat_size
    → 4 * d + 4 ≤ 512 * fs.fat_size
    → (read_fat32 (write_fat32 fs c v) d).0 ≡ (if d == c then v % 2 ^ 28 else (read_fat32 fs d).0)
read_fat32-write_fat32 {fs} c d v m hc hd ic id =
    let k = 4 * c / 512 in
    let b = put32 (sector_of fs k) (4 * c % 512) (fat32_word fs c v) in
    let bytes = put32-IsBytes (sector_of fs k) (4 * c % 512) (fat32_word fs c v) (m.bytes _) in
    let small : fat32_word fs c v < 2 ^ 32 = omega (
      arith,
      m.bytes (fs.base_lba + fs.bpb.reserved_sectors + k) (4 * c % 512),
      m.bytes (fs.base_lba + fs.bpb.reserved_sectors + k) (4 * c % 512 + 1),
      m.bytes (fs.base_lba + fs.bpb.reserved_sectors + k) (4 * c % 512 + 2),
      m.bytes (fs.base_lba + fs.bpb.reserved_sectors + k) (4 * c % 512 + 2 + 1),
    ) in
    let there =
      ap (λ s. get32 s (4 * d % 512) % 2 ^ 28)
        (both-sector_of fs b k (4 * d / 512) (omega arith)) in
    rw
      (
        write_fat32-both c v m hc ic,
        read_fat32_lem {fs = both fs b k} d (both-IsMounted b k m bytes) hd id,
        read_fat32_lem d m hd id,
      )
      (there ∙ value_here small)
  where
    value_here :
        fat32_word fs c v < 2 ^ 32
        → (get32
              (if 4 * d / 512 == 4 * c / 512
                then put32 (sector_of fs (4 * c / 512)) (4 * c % 512) (fat32_word fs c v)
                else sector_of fs (4 * d / 512))
              (4 * d % 512)
            % 2 ^ 28)
          ≡ (if d == c
              then v % 2 ^ 28
              else get32 (sector_of fs (4 * d / 512)) (4 * d % 512) % 2 ^ 28)
    value_here small = elim (ℕ_discrete d c) [
      | yes e ↦
          let same =
            get32-put32_same (sector_of fs (4 * c / 512)) (4 * c % 512) (fat32_word fs c v) small in
          rw (e, ==_refl (4 * c / 512), ==_refl c) (ap (λ n. n % 2 ^ 28) same ∙ omega arith)
      | no ne ↦ elim (ℕ_discrete (4 * d / 512) (4 * c / 512)) [
        | yes e ↦
            let other =
              get32-put32_other (sector_of fs (4 * c / 512)) (4 * c % 512) (4 * d % 512)
                (fat32_word fs c v) (omega arith) (omega arith) (λ q. ne (omega arith)) in
            let apart : (d == c) ≡ false = ground arith in
            rw (e, ==_refl (4 * c / 512), apart) (ap (λ n. n % 2 ^ 28) other)
        | no far ↦
            let apart : (d == c) ≡ false = ground arith in
            let away : (4 * d / 512 == 4 * c / 512) ≡ false = ground arith in rw (apart, away) refl
      ]
    ]
