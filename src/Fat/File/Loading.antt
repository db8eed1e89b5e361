-- ===== src/Fat/File/Loading.antt =====
-- `fat_load_file` ends, and reads no more than it is asked for.
use hao_sys.Base.{
  ℕ, zero, suc, ◌+◌, ◌-◌, ◌≤◌, ◌<◌, ◌≡◌, refl, ap, Bool, true, false, not, ◌||◌, List, [], ◌++◌,
  Option, some, Memory, add32, mul32, ◌/◌, Option-cases, ◌==◌, ltb, leb, length, length-append, min,
  arith, Bool-cases, inl, inr,
}
use hao_sys.Fat.{Fs, FatType, fat12, fat16, fat32, fat_unknown, dev_read}
use hao_sys.Fat.Name.{first_cluster, file_size}
use hao_sys.Fat.Dir.{chain_end, cluster_lba}
use hao_sys.Fat.Table.{
  fat_sector, offset_in, read_pair, read_fat12, read_fat16, read_fat32, read_fat_entry,
}
use hao_sys.Fat.Entries.{read_fat_entry-12, read_fat_entry-16, read_fat_entry-32}
use hao_sys.Fat.File.{copy, load_sectors, load_loop, load_file}
use hao_sys.Fat.Run.{◌>>=◌}

-- A volume with the same device and geometry.
pub record IsSame (fs g : Fs) : Type 0 where
  pub device : g.dev ≡ fs.dev
  pub sector : g.bytes_per_sector ≡ fs.bytes_per_sector
  pub cluster : g.sectors_per_cluster ≡ fs.sectors_per_cluster

IsSame-trans : {f g h : Fs} → IsSame f g → IsSame g h → IsSame f h
IsSame-trans p q = record {
  device = cc (p.device, q.device);
  sector = cc (p.sector, q.sector);
  cluster = cc (p.cluster, q.cluster);
}

pub dev_read-IsSame : (fs : Fs) (lba : ℕ) → IsSame fs (dev_read fs lba).1
unfolding dev_read
dev_read-IsSame fs lba = elim (Bool-cases (fs.dev.can_read (add32 fs.base_lba lba))) [
  | inl e ↦ rw e (record { device = refl; sector = refl; cluster = refl })
  | inr e ↦ rw e (record { device = refl; sector = refl; cluster = refl })
]

length-copy : (b : Memory) (i n : ℕ) → length (copy b i n) ≡ n
unfolding copy
length-copy b i zero = refl
length-copy b i (suc n) = ap suc (length-copy b (i + 1) n)

read_pair-IsSame : (fs : Fs) (sector offset : ℕ) → IsSame fs (read_pair fs sector offset).1
unfolding read_pair
read_pair-IsSame fs sector offset =
    let first = dev_read-IsSame fs sector in
    let second = dev_read-IsSame (dev_read fs sector).1 (add32 sector 1) in
    elim (Bool-cases (dev_read fs sector).0) [
      | inr bad ↦ rw (read_pair, bad) first
      | inl ok ↦ elim (Bool-cases (ltb (offset + 1) fs.bytes_per_sector)) [
        | inl near ↦ rw (read_pair, ok, near) first
        | inr far ↦ elim (Bool-cases (dev_read (dev_read fs sector).1 (add32 sector 1)).0) [
          | inl ok_next ↦ rw (read_pair, ok, far, ok_next) (IsSame-trans first second)
          | inr bad ↦ rw (read_pair, ok, far, bad) (IsSame-trans first second)
        ]
      ]
    ]

read_fat12-IsSame : (fs : Fs) (c : ℕ) → IsSame fs (read_fat12 fs c).1
unfolding read_fat12
read_fat12-IsSame fs c =
    let o = mul32 c 3 / 2 in
    let same = read_pair-IsSame fs (fat_sector fs o) (offset_in fs o) in
    elim (Option-cases (read_pair fs (fat_sector fs o) (offset_in fs o)).0) [
      | inl e ↦ rw (read_fat12, e) same
      | inr (p, e) ↦ rw (read_fat12, e) same
    ]

read_fat16-IsSame : (fs : Fs) (c : ℕ) → IsSame fs (read_fat16 fs c).1
unfolding read_fat16
read_fat16-IsSame fs c =
    let s = fat_sector fs (mul32 c 2) in
    let same = dev_read-IsSame fs s in
    elim (Bool-cases (dev_read fs s).0) [
      | inl e ↦ rw (read_fat16, e) same
      | inr e ↦ rw (read_fat16, e) same
    ]

read_fat32-IsSame : (fs : Fs) (c : ℕ) → IsSame fs (read_fat32 fs c).1
unfolding read_fat32
read_fat32-IsSame fs c =
    let s = fat_sector fs (mul32 c 4) in
    let same = dev_read-IsSame fs s in
    elim (Bool-cases (dev_read fs s).0) [
      | inl e ↦ rw (read_fat32, e) same
      | inr e ↦ rw (read_fat32, e) same
    ]

read_fat_entry-unknown :
    (fs : Fs) (c : ℕ) → fs.fs_type ≡ fat_unknown → read_fat_entry fs c ≡ (0x0FFFFFFF, fs)
unfolding read_fat_entry
read_fat_entry-unknown fs c e = rw e refl

pub read_fat_entry-IsSame : (fs : Fs) (c : ℕ) → IsSame fs (read_fat_entry fs c).1
read_fat_entry-IsSame fs c = by_type fs.fs_type refl
  where
    by_type : (t : FatType) → fs.fs_type ≡ t → IsSame fs (read_fat_entry fs c).1
    by_type fat12 e = rw (read_fat_entry-12 fs c e) (read_fat12-IsSame fs c)
    by_type fat16 e = rw (read_fat_entry-16 fs c e) (read_fat16-IsSame fs c)
    by_type fat32 e = rw (read_fat_entry-32 fs c e) (read_fat32-IsSame fs c)
    by_type fat_unknown e =
        rw (read_fat_entry-unknown fs c e) (record { device = refl; sector = refl; cluster = refl })

-- What `load_sectors` comes to: it splits what remains into what it copies and what is left, and
-- makes progress if it reads at all.
record Loaded (fs : Fs) (n remaining : ℕ) (run : Option ((Bool × List ℕ × ℕ) × Fs)) : Type 0 where
  all : Bool
  found : List ℕ
  left : ℕ
  after : Fs
  result : run ≡ some ((all, found, left), after)
  same : IsSame fs after
  split : length found + left ≡ remaining
  progress : all ≡ true → 0 < n → 0 < remaining → left < remaining

load_sectors-Loaded :
    (lba n s remaining : ℕ) (fs : Fs)
    → 0 < fs.bytes_per_sector
    → Loaded fs n remaining (load_sectors lba n s remaining fs)
unfolding load_sectors ◌>>=◌
load_sectors-Loaded lba zero s remaining fs pos = record {
  all = true;
  found = [];
  left = remaining;
  after = fs;
  result = refl;
  same = record { device = refl; sector = refl; cluster = refl };
  split = omega arith;
  progress = λ a b c. absurd (omega arith);
}
load_sectors-Loaded lba (suc n) s remaining fs pos =
    let g = (dev_read fs (add32 lba s)).1 in
    let read = dev_read-IsSame fs (add32 lba s) in
    let size = min remaining g.bytes_per_sector in
    let rest = load_sectors-Loaded lba n (s + 1) (remaining - size) g (rw read.sector pos) in
    elim (Bool-cases (remaining == 0)) [
      | inl nothing ↦ rw nothing (record {
        all = true;
        found = [];
        left = remaining;
        after = fs;
        result = refl;
        same = record { device = refl; sector = refl; cluster = refl };
        split = omega arith;
        progress = λ a b c. absurd (ground arith);
      })
      | inr more ↦ elim (Bool-cases (dev_read fs (add32 lba s)).0) [
        | inr bad ↦
            rw (more, bad)
              (record {
                all = false;
                found = [];
                left = remaining;
                after = g;
                result = refl;
                same = read;
                split = omega arith;
                progress = λ a b c. absurd (cc);
              })
        | inl ok ↦
            rw (more, ok, ◌>>=◌, rest.result)
              (record {
                all = rest.all;
                found = copy g.sector_buffer 0 size ++ rest.found;
                left = rest.left;
                after = rest.after;
                result = refl;
                same = IsSame-trans read rest.same;
                split = omega (
                  arith,
                  rest.split,
                  length-append (copy g.sector_buffer 0 size) rest.found,
                  length-copy g.sector_buffer 0 size,
                );
                progress = λ a b c. omega (arith, rest.split, read.sector);
              })
      ]
    ]

-- At most `remaining` bytes, on a volume with the same contents.
abbrev pub Reads : Fs → ℕ → Option (List ℕ × Fs) → Type 0
Reads fs remaining run =
    (out : List ℕ) × (g : Fs) × (run ≡ some (out, g)) × (length out ≤ remaining) × IsSame fs g

load_loop-Reads :
    (fuel cluster remaining : ℕ) (fs : Fs)
    → remaining < fuel
    → 0 < fs.bytes_per_sector
    → 0 < fs.sectors_per_cluster
    → Reads fs remaining (load_loop fuel cluster remaining fs)
unfolding load_loop ◌>>=◌
load_loop-Reads zero cluster remaining fs lt pb pc = absurd (omega arith)
load_loop-Reads (suc fuel) cluster remaining fs lt pb pc =
    elim (Bool-cases ((remaining == 0) || leb chain_end cluster)) [
      | inl stop ↦
          rw stop
            ([], fs, refl, omega arith, record { device = refl; sector = refl; cluster = refl })
      | inr on ↦
          let r =
            load_sectors-Loaded (cluster_lba fs cluster) fs.sectors_per_cluster 0 remaining fs pb in
          elim (Bool-cases r.all) [
            | inr bad ↦
                rw (on, ◌>>=◌, r.result, bad)
                  (r.found, r.after, refl, omega (arith, r.split), r.same)
            | inl all ↦
                let h = (read_fat_entry r.after cluster).1 in
                let same = IsSame-trans r.same (read_fat_entry-IsSame r.after cluster) in
                let next = (read_fat_entry r.after cluster).0 in
                elim (Bool-cases (leb chain_end next)) [
                  | inl end ↦
                      rw (on, ◌>>=◌, r.result, all, end)
                        (r.found, h, refl, omega (arith, r.split), same)
                  | inr further ↦
                      let less = r.progress all pc (ground arith) in
                      let (out, g, e, le, same') =
                        load_loop-Reads fuel next r.left h (omega (arith, less)) (rw same.sector pb)
                          (rw same.cluster pc) in
                      rw (on, ◌>>=◌, r.result, all, further, e)
                        (
                          r.found ++ out,
                          g,
                          refl,
                          omega (arith, r.split, length-append r.found out),
                          IsSame-trans same same',
                        )
                ]
          ]
    ]

pub load_file-Reads :
    (e : Memory) (max_size : ℕ) (fs : Fs)
    → 0 < fs.bytes_per_sector
    → 0 < fs.sectors_per_cluster
    → Reads fs (min (file_size e) max_size) (load_file e max_size fs)
unfolding load_file ◌>>=◌
load_file-Reads e max_size fs pb pc = elim (Bool-cases (not fs.initialized || (max_size == 0))) [
  | inl stop ↦
      rw stop ([], fs, refl, omega arith, record { device = refl; sector = refl; cluster = refl })
  | inr on ↦ elim (Bool-cases (ltb (first_cluster e) 2)) [
    | inl no_data ↦
        rw (on, no_data)
          ([], fs, refl, omega arith, record { device = refl; sector = refl; cluster = refl })
    | inr more ↦
        rw (on, more)
          (load_loop-Reads (min (file_size e) max_size + 1) (first_cluster e)
            (min (file_size e) max_size) fs (omega arith) pb pc)
  ]
]
