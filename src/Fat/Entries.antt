-- ===== src/Fat/Entries.antt =====
-- `read_fat_entry` and `write_fat_entry` of fs/fat.c on the three kinds of FAT.
use hao_sys.Base.{
  ℕ, ◌+◌, ◌*◌, ◌/◌, ◌%◌, ◌^◌, ◌≤◌, ◌<◌, ◌≡◌, ◌≢◌, refl, ap, subst, ◌∙◌, Memory, ◌==◌, arith,
  if◌then◌else◌,
}
use hao_sys.Fat.{Fs, FatType, fat_unknown, fat12, fat16, fat32}
use hao_sys.Fat.Table.{
  read_fat12, read_fat16, read_fat32, read_fat_entry, write_fat12, write_fat16, write_fat32,
  write_fat_entry,
}
use hao_sys.Fat.Layout.{IsMounted, sector_of, both}
use hao_sys.Fat.Update.{
  read_fat16-write_fat16, read_fat32-write_fat32, write_fat16-both, write_fat32-both,
}
use hao_sys.Fat.Packed.{read_fat12-write_fat12, write_fat12-both}

abbrev pub entry_offset : FatType → ℕ → ℕ
entry_offset t c = elim t [ fat12 ↦ c * 3 / 2 | fat16 ↦ 2 * c | fat32 ↦ 4 * c | fat_unknown ↦ 0 ]

abbrev pub entry_bytes : FatType → ℕ
entry_bytes t = elim t [ fat12 ↦ 2 | fat16 ↦ 2 | fat32 ↦ 4 | fat_unknown ↦ 0 ]

abbrev pub entry_bits : FatType → ℕ
entry_bits t = elim t [ fat12 ↦ 12 | fat16 ↦ 16 | fat32 ↦ 28 | fat_unknown ↦ 0 ]

-- A cluster whose entry lies in the table.
pub record InTable (fs : Fs) (c : ℕ) : Type 0 where
  pub small : c < 2 ^ 28
  pub inside : entry_offset fs.fs_type c + entry_bytes fs.fs_type ≤ 512 * fs.fat_size

-- The bytes of a FAT12 entry lie in two sectors.
abbrev pub Straddles : Fs → ℕ → Type 0
Straddles fs c = (fs.fs_type ≡ fat12) × (c * 3 / 2 % 512 ≡ 511)

in_table :
    {fs : Fs} {c : ℕ} {t : FatType}
    → fs.fs_type ≡ t
    → InTable fs c
    → entry_offset t c + entry_bytes t ≤ 512 * fs.fat_size
in_table {fs} {c} e i = subst (λ t. entry_offset t c + entry_bytes t ≤ 512 * fs.fat_size) e i.inside

pub read_fat_entry-12 :
    (fs : Fs) (c : ℕ) → fs.fs_type ≡ fat12 → read_fat_entry fs c ≡ read_fat12 fs c
unfolding read_fat_entry
read_fat_entry-12 fs c e = rw e refl

pub read_fat_entry-16 :
    (fs : Fs) (c : ℕ) → fs.fs_type ≡ fat16 → read_fat_entry fs c ≡ read_fat16 fs c
unfolding read_fat_entry
read_fat_entry-16 fs c e = rw e refl

pub read_fat_entry-32 :
    (fs : Fs) (c : ℕ) → fs.fs_type ≡ fat32 → read_fat_entry fs c ≡ read_fat32 fs c
unfolding read_fat_entry
read_fat_entry-32 fs c e = rw e refl

write_fat_entry-12 :
    (fs : Fs) (c v : ℕ) → fs.fs_type ≡ fat12 → write_fat_entry fs c v ≡ write_fat12 fs c v
unfolding write_fat_entry
write_fat_entry-12 fs c v e = rw e refl

write_fat_entry-16 :
    (fs : Fs) (c v : ℕ) → fs.fs_type ≡ fat16 → write_fat_entry fs c v ≡ write_fat16 fs c v
unfolding write_fat_entry
write_fat_entry-16 fs c v e = rw e refl

write_fat_entry-unknown :
    (fs : Fs) (c v : ℕ) → fs.fs_type ≡ fat_unknown → write_fat_entry fs c v ≡ fs
unfolding write_fat_entry
write_fat_entry-unknown fs c v e = rw e refl

write_fat_entry-32 :
    (fs : Fs) (c v : ℕ) → fs.fs_type ≡ fat32 → write_fat_entry fs c v ≡ write_fat32 fs c v
unfolding write_fat_entry
write_fat_entry-32 fs c v e = rw e refl

-- Writing the entry of cluster `c` makes it read back as the value, cut to the bits of an entry, and
-- leaves the entry of every other cluster. `c` must not be a FAT12 cluster whose entry straddles
-- two sectors.
pub read_fat_entry-write_fat_entry :
    {fs : Fs} (c d v : ℕ)
    → IsMounted fs
    → fs.fs_type ≢ fat_unknown
    → InTable fs c
    → InTable fs d
    → ¬ Straddles fs c
    → (read_fat_entry (write_fat_entry fs c v) d).0
      ≡ (if d == c then v % 2 ^ entry_bits fs.fs_type else (read_fat_entry fs d).0)
read_fat_entry-write_fat_entry {fs} c d v m known ic id whole = by_type fs.fs_type refl
  where
    by_type :
        (t : FatType)
        → fs.fs_type ≡ t
        → (read_fat_entry (write_fat_entry fs c v) d).0
          ≡ (if d == c then v % 2 ^ entry_bits fs.fs_type else (read_fat_entry fs d).0)
    by_type fat_unknown e = absurd (known e)
    by_type fat12 e =
        let apart : c * 3 / 2 % 512 ≢ 511 = λ q. whole (e, q) in
        let changed = write_fat12-both c v m ic.small (in_table e ic) apart in
        let kind = ap (λ f. f.fs_type) changed ∙ e in
        rw
          (
            write_fat_entry-12 fs c v e,
            read_fat_entry-12 (write_fat12 fs c v) d kind,
            read_fat_entry-12 fs d e,
            ap entry_bits e,
          )
          (read_fat12-write_fat12 c d v m ic.small id.small (in_table e ic) (in_table e id) apart)
    by_type fat16 e =
        let kind = ap (λ f. f.fs_type) (write_fat16-both c v m ic.small (in_table e ic)) ∙ e in
        rw
          (
            write_fat_entry-16 fs c v e,
            read_fat_entry-16 (write_fat16 fs c v) d kind,
            read_fat_entry-16 fs d e,
            ap entry_bits e,
          )
          (read_fat16-write_fat16 c d v m ic.small id.small (in_table e ic) (in_table e id))
    by_type fat32 e =
        let kind = ap (λ f. f.fs_type) (write_fat32-both c v m ic.small (in_table e ic)) ∙ e in
        rw
          (
            write_fat_entry-32 fs c v e,
            read_fat_entry-32 (write_fat32 fs c v) d kind,
            read_fat_entry-32 fs d e,
            ap entry_bits e,
          )
          (read_fat32-write_fat32 c d v m ic.small id.small (in_table e ic) (in_table e id))

-- The second FAT is a copy of the first.
abbrev pub AreMirrored : Fs → Type 0
AreMirrored fs = (k : ℕ) → k < fs.fat_size → sector_of fs k ≡ sector_of fs (k + fs.fat_size)

both-AreMirrored :
    (fs : Fs) (b : Memory) (k : ℕ) → k < fs.fat_size → AreMirrored fs → AreMirrored (both fs b k)
both-AreMirrored fs b k hk h j hj = ground (arith, h j hj)

-- `write_fat_entry` keeps the two FATs alike, except perhaps for a FAT12 entry that straddles two
-- sectors.
pub write_fat_entry-AreMirrored :
    {fs : Fs} (c v : ℕ)
    → IsMounted fs
    → InTable fs c
    → ¬ Straddles fs c
    → AreMirrored fs
    → AreMirrored (write_fat_entry fs c v)
write_fat_entry-AreMirrored {fs} c v m ic whole h = by_type fs.fs_type refl
  where
    by_type : (t : FatType) → fs.fs_type ≡ t → AreMirrored (write_fat_entry fs c v)
    by_type fat_unknown e = rw (write_fat_entry-unknown fs c v e) h
    by_type fat12 e =
        rw
          (
            write_fat_entry-12 fs c v e,
            write_fat12-both c v m ic.small (in_table e ic) (λ q. whole (e, q)),
          )
          (both-AreMirrored fs _ (c * 3 / 2 / 512) (omega (arith, in_table e ic)) h)
    by_type fat16 e =
        rw (write_fat_entry-16 fs c v e, write_fat16-both c v m ic.small (in_table e ic))
          (both-AreMirrored fs _ (2 * c / 512) (omega (arith, in_table e ic)) h)
    by_type fat32 e =
        rw (write_fat_entry-32 fs c v e, write_fat32-both c v m ic.small (in_table e ic))
          (both-AreMirrored fs _ (4 * c / 512) (omega (arith, in_table e ic)) h)
