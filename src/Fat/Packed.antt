-- ===== src/Fat/Packed.antt =====
-- `write_fat_entry` against `read_fat_entry` on FAT12, where two entries share a byte.
use hao_sys.Base.{
  ℕ, ◌+◌, ◌*◌, ◌/◌, ◌%◌, ◌^◌, ◌≤◌, ◌<◌, ◌≡◌, ◌≢◌, refl, ap, ◌∙◌, true, false, Memory, store, mul32,
  ◌==◌, ltb, arith, some, if◌then◌else◌, ℕ_discrete, ==_refl,
}
use hao_sys.Fat.{Fs, set_buffer, put16}
use hao_sys.Fat.Table.{fat12_value, fat12_merge, read_fat12, write_fat12}
use hao_sys.Fat.Layout.{
  IsMounted, fat_sector_lem, offset_in_lem, sector_of, fat_byte, with_buffer, both, both-fat_byte,
  both-IsMounted, write_both-written,
}
use hao_sys.Fat.Entry.{read_fat12_lem, read_pair_lem}
use hao_sys.Fat.Update.{put16-IsBytes}

abbrev merged_bytes : Memory → ℕ → ℕ → Memory
merged_bytes f c v x =
    let o = c * 3 / 2 in
    let merged = fat12_merge c v (f o, f (o + 1)) in
    if x == o then merged % 2 ^ 8 else if x == o + 1 then merged / 2 ^ 8 % 2 ^ 8 else f x

no_eq : (a b : ℕ) → a ≢ b → (a == b) ≡ false
no_eq a b h = ground arith

-- Entries in a sequence of bytes: a merge at `c` changes entry `c` and no other.
fat12_merge_lem :
    (f : Memory) (c d v : ℕ)
    → ((a : ℕ) → f a < 256)
    → let p = d * 3 / 2 in
      let g = merged_bytes f c v in
      fat12_value d (g p, g (p + 1))
      ≡ (if d == c then v % 2 ^ 12 else fat12_value d (f p, f (p + 1)))
fat12_merge_lem f c d v h = elim (ℕ_discrete d c) [
  | yes e ↦ rw (e, ==_refl c) (ground (arith, h (c * 3 / 2), h (c * 3 / 2 + 1)))
  | no ne ↦
      let o = c * 3 / 2 in
      let p = d * 3 / 2 in
      let apart = no_eq d c ne in
      elim (ℕ_discrete p (o + 1)) [
        | yes up ↦
            let odd : (d % 2 == 1) ≡ true = ground arith in
            let even : (c % 2 == 1) ≡ false = ground arith in
            let after = no_eq (o + 1 + 1) (o + 1) (λ q. omega arith) in
            let after_2 = no_eq (o + 1 + 1) o (λ q. omega arith) in
            let before = no_eq (o + 1) o (λ q. omega arith) in
            rw (apart, up, ==_refl (o + 1), odd, even, after, after_2, before)
              (omega (arith, h o, h (o + 1), h (o + 1 + 1)))
        | no nu ↦ elim (ℕ_discrete (p + 1) o) [
          | yes down ↦
              let odd : (c % 2 == 1) ≡ true = ground arith in
              let even : (d % 2 == 1) ≡ false = ground arith in
              let first = no_eq p o (λ q. omega arith) in
              let second = no_eq p (o + 1) nu in
              rw (apart, first, second, down, ==_refl o, odd, even)
                (omega (arith, h o, h (o + 1), h p))
          | no nd ↦
              let first = no_eq p o (λ q. omega arith) in
              let second = no_eq p (o + 1) nu in
              let third = no_eq (p + 1) o nd in
              let fourth = no_eq (p + 1) (o + 1) (λ q. omega arith) in
              rw (apart, first, second, third, fourth) refl
        ]
      ]
]

-- An entry with both bytes in one sector.
pub write_fat12-both :
    {fs : Fs} (c v : ℕ)
    → IsMounted fs
    → c < 2 ^ 28
    → c * 3 / 2 + 2 ≤ 512 * fs.fat_size
    → c * 3 / 2 % 512 ≢ 511
    → let o = c * 3 / 2 in
      let k = o / 512 in
      write_fat12 fs c v
      ≡ both fs
          (put16 (sector_of fs k) (o % 512) (fat12_merge c v (fat_byte fs o, fat_byte fs (o + 1))))
          k
unfolding write_fat12
write_fat12-both {fs} c v m hc hi ne =
    let o = c * 3 / 2 in
    let k = o / 512 in
    let index : mul32 c 3 ≡ c * 3 = omega arith in
    let near : ltb (o % 512 + 1) fs.bytes_per_sector ≡ true = ground (arith, m.sector_size) in
    let here : (o + 1) / 512 ≡ o / 512 = omega arith in
    let b =
      put16 (sector_of fs k) (o % 512) (fat12_merge c v (fat_byte fs o, fat_byte fs (o + 1))) in
    let sector = fat_sector_lem o m in
    let offset = offset_in_lem o m in
    let pair =
      read_pair_lem o m hi
      ∙ ap (λ j. (some (fat_byte fs o, fat_byte fs (o + 1)), set_buffer fs (sector_of fs j)))
          here in
    rw (write_fat12, index, sector, offset, pair)
      (rw
        (
          index,
          sector,
          offset,
          pair,
          near,
          write_both-written {fs = set_buffer fs b} k (with_buffer b m) (omega arith),
        )
        refl)

pub read_fat12-write_fat12 :
    {fs : Fs} (c d v : ℕ)
    → IsMounted fs
    → c < 2 ^ 28
    → d < 2 ^ 28
    → c * 3 / 2 + 2 ≤ 512 * fs.fat_size
    → d * 3 / 2 + 2 ≤ 512 * fs.fat_size
    → c * 3 / 2 % 512 ≢ 511
    → (read_fat12 (write_fat12 fs c v) d).0 ≡ (if d == c then v % 2 ^ 12 else (read_fat12 fs d).0)
unfolding store
read_fat12-write_fat12 {fs} c d v m hc hd ic id ne =
    let o = c * 3 / 2 in
    let p = d * 3 / 2 in
    let k = o / 512 in
    let merged = fat12_merge c v (fat_byte fs o, fat_byte fs (o + 1)) in
    let b = put16 (sector_of fs k) (o % 512) merged in
    let bytes = put16-IsBytes (sector_of fs k) (o % 512) merged (m.bytes _) in
    let at : (x : ℕ)
        → x < 512 * fs.fat_size
        → fat_byte (both fs b k) x ≡ merged_bytes (fat_byte fs) c v x =
      λ x hx. both-fat_byte fs b k x hx ∙ merged_at x ne in
    rw
      (
        write_fat12-both c v m hc ic ne,
        read_fat12_lem {fs = both fs b k} d (both-IsMounted b k m bytes) hd id,
        read_fat12_lem d m hd id,
        at p (omega arith),
        at (p + 1) (omega arith),
      )
      (fat12_merge_lem (fat_byte fs) c d v (λ a. m.bytes _ _))
  where
    merged_at :
        (x : ℕ)
        → c * 3 / 2 % 512 ≢ 511
        → (if x / 512 == c * 3 / 2 / 512
            then put16
                (sector_of fs (c * 3 / 2 / 512))
                (c * 3 / 2 % 512)
                (fat12_merge c v (fat_byte fs (c * 3 / 2), fat_byte fs (c * 3 / 2 + 1)))
                (x % 512)
            else fat_byte fs x)
          ≡ merged_bytes (fat_byte fs) c v x
    merged_at x h = ground arith
