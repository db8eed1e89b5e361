-- ===== src/Fat/Write/Free.antt =====
-- The search for a free cluster, and what the driver's end mark is on each kind of FAT.
use hao_sys.Base.{ℕ, ◌%◌, ◌^◌, ◌≤◌, ◌≡◌, ◌≢◌, false, leb, arith, ==_refl}
use hao_sys.Fat.{Fs, FatType, fat_unknown, fat12, fat16, fat32}
use hao_sys.Fat.Table.{read_fat_entry, write_fat_entry}
use hao_sys.Fat.Dir.{end_mark, chain_end}
use hao_sys.Fat.Layout.{IsMounted}
use hao_sys.Fat.Entries.{InTable, Straddles, entry_bits, read_fat_entry-write_fat_entry}

cut_mark : (t : FatType) → end_mark % 2 ^ entry_bits t ≤ end_mark
cut_mark fat12 = omega arith
cut_mark fat16 = omega arith
cut_mark fat32 = omega arith
cut_mark fat_unknown = omega arith

-- The mark that the driver writes for the end of a chain never reads back as an end, so the loops
-- over a chain go on from it.
pub end_mark-chain_end :
    {fs : Fs} (c : ℕ)
    → IsMounted fs
    → fs.fs_type ≢ fat_unknown
    → InTable fs c
    → ¬ Straddles fs c
    → leb chain_end (read_fat_entry (write_fat_entry fs c end_mark) c).0 ≡ false
end_mark-chain_end {fs} c m known i whole =
    let back = read_fat_entry-write_fat_entry c c end_mark m known i i whole in
    let value : (read_fat_entry (write_fat_entry fs c end_mark) c).0
        ≡ end_mark % 2 ^ entry_bits fs.fs_type =
      rw (==_refl c) at back in
    ground (arith, cut_mark fs.fs_type)
