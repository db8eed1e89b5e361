-- ===== src/Fat/Dir.antt =====
-- fs/fat.c: reading a directory and looking a name up. A caller's entry array is the list of the
-- entries that are stored. A loop over a chain of clusters takes fuel, one round for a cluster.
use hao_sys.Base.{
  ℕ, zero, suc, ◌+◌, ◌-◌, ◌*◌, ◌/◌, Bool, true, false, not, ◌&&◌, ◌||◌, List, [], ◌∷◌, ◌++◌, Option,
  none, some, Memory, add32, sub32, mul32, ◌==◌, ltb, leb, if◌then◌else◌, length,
}
use hao_sys.Fat.{Fs, FatType, fat32}
use hao_sys.Fat.Name.{to_upper, dirent_at}
use hao_sys.Fat.Run.{
  Run, pure, ◌>>=◌, ◌>>◌, volume, read_sector, write_sector, fill_buffer, entry, put_entry, diverge,
}

abbrev pub is_fat32 : FatType → Bool
is_fat32 t = elim t [ fat32 ↦ true | _ ↦ false ]

-- A value of the table from here on ends a chain.
abbrev pub chain_end : ℕ
chain_end = 0x0FFFFFF8

abbrev pub cluster_lba : Fs → ℕ → ℕ
cluster_lba fs c = add32 fs.first_data_sector (mul32 (sub32 c 2) fs.sectors_per_cluster)

-- The first sector and the number of sectors of a directory's cluster; 0 is the root's fixed area.
unfoldable pub dir_area : Fs → ℕ → ℕ × ℕ
dir_area fs c =
    if c == 0
    then (add32 fs.bpb.reserved_sectors (mul32 fs.bpb.num_fats fs.fat_size), fs.root_dir_sectors)
    else (cluster_lba fs c, fs.sectors_per_cluster)

unfoldable pub start_cluster : Fs → ℕ → ℕ
start_cluster fs dir = if (dir == 0) && is_fat32 fs.fs_type then fs.root_cluster else dir

-- `n` entries of a sector from number `i` on, while there is room: whether the end of the directory
-- was seen, and the entries in use.
unfoldable pub scan_sector : Memory → ℕ → ℕ → ℕ → Bool × List Memory
scan_sector b zero i room = (false, [])
scan_sector b (suc n) i room =
    let skipped = scan_sector b n (i + 1) room in
    let (fin, more) = scan_sector b n (i + 1) (room - 1) in
    if room == 0
    then (false, [])
    else (if b (i * 32) == 0x00
        then (true, [])
        else (if b (i * 32) == 0xE5 then skipped else (fin, dirent_at b (i * 32) ∷ more)))

-- A sector that cannot be read ends the area.
unfoldable pub scan_sectors : ℕ → ℕ → ℕ → ℕ → Run (Bool × List Memory)
scan_sectors lba zero s room = pure (false, [])
scan_sectors lba (suc n) s room = do
  ok ← read_sector (add32 lba s)
  fs ← volume
  let (fin, found) = scan_sector fs.sector_buffer (fs.bytes_per_sector / 32) 0 room
  if not ok then pure (false, []) else if fin then pure (true, found) else do
    (ended, more) ← scan_sectors lba n (s + 1) (room - length found)
    pure (ended, found ++ more)

unfoldable pub read_dir_loop : ℕ → ℕ → ℕ → Run (List Memory)
read_dir_loop zero cluster room = diverge
read_dir_loop (suc fuel) cluster room = do
  fs ← volume
  let (lba, count) = dir_area fs cluster
  if cluster == 1 then pure [] else do
    (fin, found) ← scan_sectors lba count 0 room
    if fin || (cluster == 0) then pure found else do
      next ← entry cluster
      if leb chain_end next
          then pure found
          else do more ← read_dir_loop fuel next (room - length found); pure (found ++ more)

unfoldable pub read_dir : ℕ → ℕ → ℕ → Run (List Memory)
read_dir fuel dir_cluster max_entries = do
  fs ← volume
  if not fs.initialized || (max_entries == 0)
      then pure []
      else read_dir_loop fuel (start_cluster fs dir_cluster) max_entries

unfoldable pub read_root_dir : ℕ → ℕ → Run (List Memory)
read_root_dir fuel max_entries = read_dir fuel 0 max_entries

-- The first `n` characters agree, the entry's in upper case.
unfoldable pub name_matches : ℕ → Memory → Memory → Bool
name_matches zero e name = true
name_matches (suc n) e name = name_matches n e name && (to_upper (e n) == name n)

unfoldable pub first_match : List Memory → Memory → Option Memory
first_match [] name = none
first_match (e ∷ es) name =
    let rest = first_match es name in if name_matches 11 e name then some e else rest

unfoldable pub dir_find_name : ℕ → ℕ → Memory → Run (Option Memory)
dir_find_name fuel dir_cluster name = do
  entries ← read_dir fuel dir_cluster 128
  pure (first_match entries name)

-- The place of the entry of that name, or of one that is free.
pub data Slot : Type 0 where
  slot_full : Slot
  slot_same : ℕ → ℕ → Slot
  slot_free : ℕ → ℕ → Slot

unfoldable pub slot_in_sector : Memory → Memory → ℕ → ℕ → ℕ → Option Slot
slot_in_sector b name lba zero i = none
slot_in_sector b name lba (suc n) i =
    let rest = slot_in_sector b name lba n (i + 1) in
    if (b (i * 32) == 0x00) || (b (i * 32) == 0xE5)
    then some (slot_free lba (i * 32))
    else (if name_matches 11 (dirent_at b (i * 32)) name
        then some (slot_same lba (i * 32))
        else rest)

-- A sector that cannot be read ends the search.
unfoldable pub slot_in_sectors : Memory → ℕ → ℕ → ℕ → Run (Option Slot)
slot_in_sectors name lba zero s = pure none
slot_in_sectors name lba (suc n) s = do
  ok ← read_sector (add32 lba s)
  fs ← volume
  if not ok
      then pure (some slot_full)
      else elim (slot_in_sector fs.sector_buffer name (add32 lba s) (fs.bytes_per_sector / 32) 0) [
        | some slot ↦ pure (some slot)
        | none ↦ slot_in_sectors name lba n (s + 1)
      ]

unfoldable pub find_slot_loop : ℕ → ℕ → Memory → Run Slot
find_slot_loop zero cluster name = diverge
find_slot_loop (suc fuel) cluster name = do
  fs ← volume
  let (lba, count) = dir_area fs cluster
  if cluster == 1 then pure slot_full else do
    found ← slot_in_sectors name lba count 0
    elim found [
      | some slot ↦ pure slot
      | none ↦ if cluster == 0 then pure slot_full else do
        next ← entry cluster
        if leb chain_end next then pure slot_full else find_slot_loop fuel next name
    ]

unfoldable pub dir_find_slot : ℕ → ℕ → Memory → Run Slot
dir_find_slot fuel dir_cluster name = do
  fs ← volume
  find_slot_loop fuel (start_cluster fs dir_cluster) name

-- The last cluster of a chain, or the one where 65536 rounds end.
unfoldable pub chain_tail : ℕ → ℕ → Run ℕ
chain_tail zero cluster = pure cluster
chain_tail (suc guard) cluster =
    if ltb cluster 2
    then pure cluster
    else do next ← entry cluster; if leb chain_end next then pure cluster else chain_tail guard next

-- One more than the last cluster of the volume.
unfoldable pub max_cluster : Fs → ℕ
max_cluster fs =
    let tables = add32 fs.bpb.reserved_sectors (mul32 fs.bpb.num_fats fs.fat_size) in
    let data_sectors = sub32 fs.total_sectors (add32 tables fs.root_dir_sectors) in
    add32 2 (data_sectors / fs.sectors_per_cluster)

-- The first free cluster among `n` from `c` on.
unfoldable pub find_free : ℕ → ℕ → Run (Option ℕ)
find_free zero c = pure none
find_free (suc n) c = do
  value ← entry c
  if value == 0x0000 then pure (some c) else find_free n (c + 1)

-- The mark that the driver writes for the end of a chain.
abbrev pub end_mark : ℕ
end_mark = 0xFFF8

unfoldable pub clear_cluster : ℕ → ℕ → ℕ → Run Bool
clear_cluster lba zero s = pure true
clear_cluster lba (suc n) s = do
  fill_buffer (λ i. 0)
  write_sector (add32 lba s)
  clear_cluster lba n (s + 1)

-- The first sector of a new cluster at the end of the directory.
unfoldable pub dir_extend : ℕ → Run (Option ℕ)
dir_extend dir_cluster = do
  cluster ← chain_tail 65536 dir_cluster
  fs ← volume
  if ltb cluster 2 then pure none else do
    free ← find_free (max_cluster fs - 2) 2
    elim free [
      | none ↦ pure none
      | some c ↦ do
        put_entry cluster c
        put_entry c end_mark
        clear_cluster (cluster_lba fs c) fs.sectors_per_cluster 0
        pure (some (cluster_lba fs c))
    ]
