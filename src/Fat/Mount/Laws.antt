-- ===== src/Fat/Mount/Laws.antt =====
-- What `fat_mount` leaves, and which partition it takes.
use hao_sys.Base.{
  ℕ, zero, suc, ◌+◌, ◌<◌, ◌≡◌, ◌≢◌, refl, ◌⊎◌, inl, inr, Bool, true, false, ◌||◌, Memory, add32,
  mul32, ◌==◌, if◌then◌else◌, arith, Bool-cases, ==_iff, ap, ◌∙◌, sym, subst,
}
use hao_sys.Fat.{Fs, Device, FatType, fat_unknown, fat12, fat16, fat32, set_buffer, dev_read}
use hao_sys.Fat.Mount.{
  is_fat_partition, partition_type, partition_lba, scan_partitions, has_signature,
  mbr_find_fat_partition, read_bpb, type_of, lay_out, bpb_load, mount_partition, mount_boot, mount,
  or_else,
}

-- No FAT partition among the four, or the first of them.
abbrev pub FirstFat : Memory → ℕ → ℕ → ℕ → Type 0
FirstFat mbr n i found =
    ((found ≡ 0) × ((j : ℕ) → j < n → is_fat_partition (partition_type mbr (i + j)) ≡ false))
    ⊎ ((j : ℕ) × (j < n)
        × (is_fat_partition (partition_type mbr (i + j)) ≡ true)
        × (found ≡ partition_lba mbr (i + j))
        × ((k : ℕ) → k < j → is_fat_partition (partition_type mbr (i + k)) ≡ false))

FirstFat-skip :
    (mbr : Memory) (i : ℕ) {n found : ℕ}
    → is_fat_partition (partition_type mbr i) ≡ false
    → FirstFat mbr n (i + 1) found
    → FirstFat mbr (suc n) i found
FirstFat-skip mbr i {n} out (inl (e, h)) = inl (e, after)
  where
    after : (j : ℕ) → j < suc n → is_fat_partition (partition_type mbr (i + j)) ≡ false
    after zero lt = let e : i + 0 ≡ i = omega arith in rw e out
    after (suc j) lt = let e : i + suc j ≡ i + 1 + j = omega arith in rw e (h j (omega arith))
FirstFat-skip mbr i {n} out (inr (j, lt, fat, e, h)) =
    let at : i + suc j ≡ i + 1 + j = omega arith in
    inr (suc j, omega arith, rw at fat, rw at e, before)
  where
    before : (k : ℕ) → k < suc j → is_fat_partition (partition_type mbr (i + k)) ≡ false
    before zero l = let e : i + 0 ≡ i = omega arith in rw e out
    before (suc k) l = let e : i + suc k ≡ i + 1 + k = omega arith in rw e (h k (omega arith))

scan_partitions-FirstFat : (mbr : Memory) (n i : ℕ) → FirstFat mbr n i (scan_partitions mbr n i)
unfolding scan_partitions
scan_partitions-FirstFat mbr zero i = inl (refl, λ j lt. absurd (omega arith))
scan_partitions-FirstFat mbr (suc n) i =
    let rest = scan_partitions-FirstFat mbr n (i + 1) in
    let t = partition_type mbr i in
    elim (Bool-cases (is_fat_partition t)) [
      | inl fat ↦
          let plain : ((t == 0x00) || ((t == 0x05) || (t == 0x0F))) ≡ false = ground arith in
          let here : i + 0 ≡ i = omega arith in
          inr (0, omega arith, rw here fat, rw (plain, fat, here) refl, λ k l. absurd (omega arith))
      | inr out ↦
          rw out (
            FirstFat-skip mbr i out
              (skip_either ((t == 0x00) || ((t == 0x05) || (t == 0x0F))) rest))
    ]
  where
    skip_either :
        (b : Bool)
        → FirstFat mbr n (i + 1) (scan_partitions mbr n (i + 1))
        → FirstFat mbr n
            (i + 1)
            (if b then scan_partitions mbr n (i + 1) else scan_partitions mbr n (i + 1))
    skip_either true h = h
    skip_either false h = h

-- In a signed boot record, the result is the start of the first of the four partitions with a FAT
-- type, and 0 if there is none.
pub mbr_find_fat_partition-FirstFat :
    (mbr : Memory) → has_signature mbr ≡ true → FirstFat mbr 4 0 (mbr_find_fat_partition mbr)
unfolding mbr_find_fat_partition
mbr_find_fat_partition-FirstFat mbr signed = rw signed (scan_partitions-FirstFat mbr 4 0)

-- A mounted volume: its device and place, the boot sector read there, and a layout that agrees with
-- it: reserved sectors, the FATs, the root directory and the data follow each other.
pub record IsLaidOut (dev : Device) (g : Fs) : Type 0 where
  pub device : g.dev ≡ dev
  pub place : g.base_lba ≡ mbr_find_fat_partition (dev.sectors 0)
  pub signed : has_signature (dev.sectors (add32 g.base_lba 0)) ≡ true
  pub boot : g.bpb ≡ read_bpb (dev.sectors (add32 g.base_lba 0))
  pub kind : g.fs_type ≡ type_of (dev.sectors (add32 g.base_lba 0))
  pub known : g.fs_type ≢ fat_unknown
  pub ready : g.initialized ≡ true
  pub tables : g.fat_size ≡ or_else g.bpb.fat_size_16 g.bpb.fat_size_32
  pub data_start :
      g.first_data_sector
      ≡ add32 (add32 g.bpb.reserved_sectors (mul32 g.bpb.num_fats g.fat_size)) g.root_dir_sectors

false-ne-true : false ≢ true
false-ne-true e = cc

-- The boot sector in the buffer, as the whole of what `bpb_load` sets.
record IsLoaded (fs g : Fs) : Type 0 where
  device : g.dev ≡ fs.dev
  place : g.base_lba ≡ fs.base_lba
  signed : has_signature fs.sector_buffer ≡ true
  boot : g.bpb ≡ read_bpb fs.sector_buffer
  kind : g.fs_type ≡ type_of fs.sector_buffer
  known : g.fs_type ≢ fat_unknown
  ready : g.initialized ≡ true
  tables : g.fat_size ≡ or_else g.bpb.fat_size_16 g.bpb.fat_size_32
  data_start :
      g.first_data_sector
      ≡ add32 (add32 g.bpb.reserved_sectors (mul32 g.bpb.num_fats g.fat_size)) g.root_dir_sectors

lay_out-IsLoaded :
    (fs f : Fs) (t : FatType)
    → f.dev ≡ fs.dev
    → f.base_lba ≡ fs.base_lba
    → has_signature fs.sector_buffer ≡ true
    → t ≡ type_of fs.sector_buffer
    → t ≢ fat_unknown
    → IsLoaded fs (lay_out f (read_bpb fs.sector_buffer) t)
unfolding lay_out
lay_out-IsLoaded fs f fat32 d p s e ne = record {
  device = d;
  place = p;
  signed = s;
  boot = refl;
  kind = e;
  known = ne;
  ready = refl;
  tables = refl;
  data_start = omega arith;
}
lay_out-IsLoaded fs f fat16 d p s e ne = record {
  device = d;
  place = p;
  signed = s;
  boot = refl;
  kind = e;
  known = ne;
  ready = refl;
  tables = refl;
  data_start = refl;
}
lay_out-IsLoaded fs f fat12 d p s e ne = record {
  device = d;
  place = p;
  signed = s;
  boot = refl;
  kind = e;
  known = ne;
  ready = refl;
  tables = refl;
  data_start = refl;
}
lay_out-IsLoaded fs f fat_unknown d p s e ne = absurd (ne refl)

bpb_load-IsLoaded : (fs : Fs) {g : Fs} → bpb_load fs ≡ (true, g) → IsLoaded fs g
unfolding bpb_load
bpb_load-IsLoaded fs {g} h = elim (Bool-cases (has_signature fs.sector_buffer)) [
  | inr unsigned ↦ absurd (false-ne-true (ap (λ p. p.0) (rw unsigned at h)))
  | inl signed ↦ by_type (type_of fs.sector_buffer) refl signed
]
  where
    by_type :
        (t : FatType)
        → type_of fs.sector_buffer ≡ t
        → has_signature fs.sector_buffer ≡ true
        → IsLoaded fs g
    by_type fat_unknown e s = absurd (false-ne-true (ap (λ p. p.0) (rw (s, e) at h)))
    by_type fat32 e s =
        let h' = rw (s, e) at h in
        subst (IsLoaded fs) (ap (λ p. p.1) h') (
          lay_out-IsLoaded fs (record fs { bpb = read_bpb fs.sector_buffer }) fat32 refl refl s
            (sym e) (λ q. cc))
    by_type fat16 e s =
        let h' = rw (s, e) at h in
        subst (IsLoaded fs) (ap (λ p. p.1) h') (
          lay_out-IsLoaded fs (record fs { bpb = read_bpb fs.sector_buffer }) fat16 refl refl s
            (sym e) (λ q. cc))
    by_type fat12 e s =
        let h' = rw (s, e) at h in
        subst (IsLoaded fs) (ap (λ p. p.1) h') (
          lay_out-IsLoaded fs (record fs { bpb = read_bpb fs.sector_buffer }) fat12 refl refl s
            (sym e) (λ q. cc))

dev_read-good :
    (fs : Fs) (lba : ℕ)
    → fs.dev.can_read (add32 fs.base_lba lba) ≡ true
    → dev_read fs lba ≡ (true, set_buffer fs (fs.dev.sectors (add32 fs.base_lba lba)))
unfolding dev_read
dev_read-good fs lba e = rw e refl

dev_read-bad :
    (fs : Fs) (lba : ℕ)
    → fs.dev.can_read (add32 fs.base_lba lba) ≡ false
    → dev_read fs lba ≡ (false, fs)
unfolding dev_read
dev_read-bad fs lba e = rw e refl

-- What is loaded from the buffer is laid out on the device.
IsLoaded-IsLaidOut :
    (dev : Device) (f : Fs) {g : Fs}
    → f.dev ≡ dev
    → f.base_lba ≡ mbr_find_fat_partition (dev.sectors 0)
    → f.sector_buffer ≡ dev.sectors (add32 f.base_lba 0)
    → IsLoaded f g
    → IsLaidOut dev g
IsLoaded-IsLaidOut dev f {g} d p b l =
    let at : f.sector_buffer ≡ dev.sectors (add32 g.base_lba 0) =
      b ∙ ap (λ n. dev.sectors (add32 n 0)) (sym l.place) in
    record {
      device = l.device ∙ d;
      place = l.place ∙ p;
      signed = subst (λ s. has_signature s ≡ true) at l.signed;
      boot = l.boot ∙ ap read_bpb at;
      kind = l.kind ∙ ap type_of at;
      known = l.known;
      ready = l.ready;
      tables = l.tables;
      data_start = l.data_start;
    }

mount_partition-IsLaidOut :
    (dev : Device) (f : Fs) {g : Fs} (part : ℕ)
    → f.dev ≡ dev
    → part ≡ mbr_find_fat_partition (dev.sectors 0)
    → mount_partition f part ≡ (true, g)
    → IsLaidOut dev g
unfolding mount_partition
mount_partition-IsLaidOut dev f {g} part d p h =
    let there : Fs = record f { base_lba = part } in
    let read : Fs = set_buffer there (f.dev.sectors (add32 part 0)) in
    elim (Bool-cases (f.dev.can_read (add32 part 0))) [
      | inl ok ↦
          let h' : bpb_load read ≡ (true, g) = rw (dev_read-good there 0 ok) at h in
          IsLoaded-IsLaidOut dev read d p (ap (λ e. e.sectors (add32 part 0)) d)
            (bpb_load-IsLoaded read h')
      | inr bad ↦ absurd (false-ne-true (ap (λ p. p.0) (rw (dev_read-bad there 0 bad) at h)))
    ]

mount_boot-IsLaidOut :
    (dev : Device) (f : Fs) {g : Fs}
    → f.dev ≡ dev
    → f.base_lba ≡ 0
    → f.sector_buffer ≡ dev.sectors 0
    → mount_boot f ≡ (true, g)
    → IsLaidOut dev g
unfolding mount_boot
mount_boot-IsLaidOut dev f {g} d p b h =
    let part = mbr_find_fat_partition f.sector_buffer in
    let same : part ≡ mbr_find_fat_partition (dev.sectors 0) = ap mbr_find_fat_partition b in
    elim (Bool-cases (part == 0)) [
      | inl whole ↦
          let none_there : part ≡ 0 = (==_iff part 0).0 whole in
          IsLoaded-IsLaidOut dev f d (p ∙ sym none_there ∙ same)
            (b ∙ ap (λ n. dev.sectors (add32 n 0)) (sym p)) (bpb_load-IsLoaded f (rw whole at h))
      | inr at ↦ mount_partition-IsLaidOut dev f part d same (rw at at h)
    ]

pub mount-IsLaidOut : (fs : Fs) (dev : Device) {g : Fs} → mount fs dev ≡ (true, g) → IsLaidOut dev g
unfolding mount
mount-IsLaidOut fs dev {g} h =
    let f : Fs = record fs { dev = dev; base_lba = 0 } in
    let read : Fs = set_buffer f (dev.sectors 0) in
    elim (Bool-cases (dev.can_read 0)) [
      | inr bad ↦ absurd (false-ne-true (ap (λ p. p.0) (rw (dev_read-bad f 0 bad) at h)))
      | inl ok ↦
          let h' : mount_boot read ≡ (true, g) = rw (dev_read-good f 0 ok) at h in
          mount_boot-IsLaidOut dev read refl refl refl h'
    ]
