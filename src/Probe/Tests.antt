-- ===== src/Probe/Tests.antt =====
-- The boot sector of a FAT16 volume of 20000 sectors without a name, and devices that hold it.
use hao_sys.Base.{
  ℕ, ◌^◌, ◌<◌, ◌≡◌, refl, true, false, Memory, ◌==◌, if◌then◌else◌, arith, [], ◌∷◌, get_or,
}
use hao_sys.Fat.{Device}
use hao_sys.Fat.Mount.{detect_fat_type, read_bpb, bytes_match}
use hao_sys.Probe.{
  fs_probe, probe_first, fat_named, probe_fat_numeric, fat_by_clusters, fs_fat16, fs_iso9660,
}
use hao_sys.Probe.Numeric.{probed, probe_fat_numeric-detect_fat_type}

abbrev pub boot_sector : Memory
boot_sector i =
    if i == 12
    then 2
    else (if i == 13
        then 4
        else (if i == 14
            then 1
            else (if i == 16
                then 2
                else (if i == 18
                    then 2
                    else (if i == 19
                        then 0x20
                        else if i == 20
                        then 0x4E
                        else if i == 22
                        then 20
                        else 0)))))

boot_sector_bytes : (i : ℕ) → boot_sector i < 2 ^ 8
boot_sector_bytes i = ground arith

abbrev pub holds_boot : Device
holds_boot = record {
  sectors = λ lba. boot_sector;
  can_read = λ lba. true;
  can_write = λ lba. false;
}

-- A disc of which sector 16 alone can be read.
abbrev disc : Device
disc = record {
  sectors = λ lba i. get_or (1 ∷ 67 ∷ 68 ∷ 48 ∷ 48 ∷ 49 ∷ []) i 0;
  can_read = λ lba. lba == 16;
  can_write = λ lba. false;
}

pub holds_boot_probe : fs_probe holds_boot ≡ fs_fat16
unfolding fs_probe probe_first fat_named bytes_match probe_fat_numeric fat_by_clusters
holds_boot_probe = refl

disc_probe : fs_probe disc ≡ fs_iso9660
unfolding fs_probe probe_first fat_named bytes_match probe_fat_numeric fat_by_clusters
disc_probe = refl

same_kind : probe_fat_numeric boot_sector ≡ probed (detect_fat_type (read_bpb boot_sector))
same_kind =
    probe_fat_numeric-detect_fat_type boot_sector boot_sector_bytes refl (λ e. omega arith)
      (omega arith) refl (λ e. omega arith) (λ e. omega arith) (λ e. omega arith)
