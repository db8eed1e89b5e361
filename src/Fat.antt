-- ===== src/Fat.antt =====
-- fs/fat.c, include/fs/fat.h: a mounted FAT volume on a block device. A device is what
-- include/driver/block_dev.h asks of it: sectors, each of which can be read or written or not. The
-- sector buffer that the functions share is part of the state, and so is what they leave in it.
pub mod Table
pub mod Layout
pub mod Entry
pub mod Update
pub mod Packed
pub mod Straddle
pub mod Entries
pub mod Mount
pub mod Name
pub mod Run
pub mod Keeps
pub mod Dir
pub mod Path
pub mod File
pub mod Write
mod Tests
use hao_sys.Base.{
  ℕ, ◌+◌, ◌*◌, ◌/◌, ◌%◌, ◌^◌, Bool, true, false, Memory, store, add32, ◌==◌, if◌then◌else◌,
}

pub record Device : Type 0 where
  pub sectors : ℕ → Memory
  pub can_read : ℕ → Bool
  pub can_write : ℕ → Bool

pub data FatType : Type 0 where
  fat_unknown : FatType
  fat12 : FatType
  fat16 : FatType
  fat32 : FatType

-- The fields of `fat_bpb_t` that the driver reads.
pub record Bpb : Type 0 where
  pub bytes_per_sector : ℕ
  pub sectors_per_cluster : ℕ
  pub reserved_sectors : ℕ
  pub num_fats : ℕ
  pub root_entry_count : ℕ
  pub total_sectors_16 : ℕ
  pub fat_size_16 : ℕ
  pub total_sectors_32 : ℕ
  pub fat_size_32 : ℕ
  pub root_cluster : ℕ

-- `fat_fs_t`
pub record Fs : Type 0 where
  pub bpb : Bpb
  pub dev : Device
  pub base_lba : ℕ
  pub first_data_sector : ℕ
  pub root_dir_sectors : ℕ
  pub total_sectors : ℕ
  pub fat_size : ℕ
  pub sectors_per_cluster : ℕ
  pub bytes_per_sector : ℕ
  pub root_dir_entries : ℕ
  pub fs_type : FatType
  pub initialized : Bool
  pub root_cluster : ℕ
  pub sector_buffer : Memory

abbrev pub set_buffer : Fs → Memory → Fs
set_buffer fs b = record fs { sector_buffer = b }

-- Little-endian fields of a sector.
abbrev pub get16 : Memory → ℕ → ℕ
get16 b o = b o + 2 ^ 8 * b (o + 1)

abbrev pub get32 : Memory → ℕ → ℕ
get32 b o = get16 b o + 2 ^ 16 * get16 b (o + 2)

abbrev pub put16 : Memory → ℕ → ℕ → Memory
put16 b o v = store (store b o (v % 2 ^ 8)) (o + 1) (v / 2 ^ 8 % 2 ^ 8)

abbrev pub put32 : Memory → ℕ → ℕ → Memory
put32 b o v = put16 (put16 b o (v % 2 ^ 16)) (o + 2) (v / 2 ^ 16 % 2 ^ 16)

-- A failed read leaves the buffer.
unfoldable pub dev_read : Fs → ℕ → Bool × Fs
dev_read fs lba =
    let a = add32 fs.base_lba lba in
    if fs.dev.can_read a then (true, set_buffer fs (fs.dev.sectors a)) else (false, fs)

-- Each write of the driver writes its sector buffer.
unfoldable pub dev_write : Fs → ℕ → Bool × Fs
dev_write fs lba =
    let a = add32 fs.base_lba lba in
    if fs.dev.can_write a
    then (
      true,
      record fs {
        dev = record fs.dev {
          sectors = λ l. if l == a then fs.sector_buffer else fs.dev.sectors l;
        };
      },
    )
    else (false, fs)
