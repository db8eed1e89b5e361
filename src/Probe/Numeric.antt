-- ===== src/Probe/Numeric.antt =====
-- fs/probe.c against fs/fat.c: both judge a boot sector by the number of its clusters.
use hao_sys.Base.{
  ℕ, ◌-◌, ◌^◌, ◌<◌, ◌≤◌, ◌≡◌, ◌≢◌, refl, false, Memory, add32, sub32, mul32, ◌==◌, ltb,
  if◌then◌else◌, bit_and, arith, Bool-cases, inl, inr,
}
use hao_sys.Fat.{FatType, fat_unknown, fat12, fat16, fat32, get16, get32}
use hao_sys.Fat.Mount.{or_else, root_sectors, detect_fat_type, read_bpb}
use hao_sys.Probe.{
  ProbeFs, fs_unknown, fs_fat12, fs_fat16, fs_fat32, fat_by_clusters, probe_fat_numeric,
}

-- The same kind of volume in the words of the probe.
abbrev pub probed : FatType → ProbeFs
probed t = elim t [
  | fat_unknown ↦ fs_unknown
  | fat12 ↦ fs_fat12
  | fat16 ↦ fs_fat16
  | fat32 ↦ fs_fat32
]

-- The one source subtracts the reserved sectors, the tables and the root one after the other, the
-- other subtracts their sum.
sub32-sub32 :
    (total reserved tables root : ℕ)
    → reserved < 2 ^ 16
    → tables < 2 ^ 32
    → root < 2 ^ 16
    → sub32 (sub32 (sub32 total reserved) tables) root
      ≡ sub32 total (add32 (add32 reserved tables) root)
sub32-sub32 total reserved tables root hr ht hs = omega arith

probed_by_clusters :
    (n : ℕ)
    → fat_by_clusters n
      ≡ probed (if ltb n 4085 then fat12 else if ltb n 65525 then fat16 else fat32)
unfolding fat_by_clusters
probed_by_clusters n = elim (Bool-cases (ltb n 4085)) [
  | inl small ↦ rw small refl
  | inr more ↦ elim (Bool-cases (ltb n 65525)) [
    | inl mid ↦ rw (more, mid) refl
    | inr big ↦ rw (more, big) refl
  ]
]

-- On a boot sector of 512-byte sectors with a power of two up to 64 of them in a cluster, with a
-- table, its size and the volume's not 0, the probe's numbers and the FAT driver's give the same kind
-- of volume.
pub probe_fat_numeric-detect_fat_type :
    (s : Memory)
    → ((i : ℕ) → s i < 2 ^ 8)
    → get16 s 11 ≡ 512
    → s 13 ≢ 0
    → s 13 ≤ 64
    → bit_and (s 13) (s 13 - 1) ≡ 0
    → s 16 ≢ 0
    → or_else (get16 s 22) (get32 s 36) ≢ 0
    → or_else (get16 s 19) (get32 s 32) ≢ 0
    → probe_fat_numeric s ≡ probed (detect_fat_type (read_bpb s))
unfolding probe_fat_numeric detect_fat_type read_bpb
probe_fat_numeric-detect_fat_type s bytes size spc few power tables fat_size total =
    let c : (s 13 == 0) ≡ false = ground arith in
    let t : (s 16 == 0) ≡ false = ground arith in
    let f : (or_else (get16 s 22) (get32 s 36) == 0) ≡ false = ground arith in
    let v : (or_else (get16 s 19) (get32 s 32) == 0) ≡ false = ground arith in
    let l : ltb 64 (s 13) ≡ false = ground arith in
    let root : root_sectors (get16 s 17) 512 < 2 ^ 16 = omega (arith, bytes 17, bytes 18) in
    let e =
      sub32-sub32 (or_else (get16 s 19) (get32 s 32)) (get16 s 14)
        (mul32 (s 16) (or_else (get16 s 22) (get32 s 36))) (root_sectors (get16 s 17) 512)
        (omega (arith, bytes 14, bytes 15)) (omega arith) root in
    rw (size, power, c, t, f, v, l, e) (probed_by_clusters _)
