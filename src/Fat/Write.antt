-- ===== src/Fat/Write.antt =====
-- fs/fat.c: writing, deleting and making directories. The data of a file is the list of its bytes.
pub mod Free
use hao_sys.Base.{
  ℕ, zero, suc, ◌+◌, ◌-◌, ◌*◌, ◌/◌, ◌%◌, ◌^◌, Bool, true, false, not, ◌&&◌, ◌||◌, List, [], ◌∷◌,
  ◌++◌, Option, none, some, Memory, store, add32, sub32, mul32, ◌==◌, ltb, leb, if◌then◌else◌,
  length, min, take, drop, get_or,
}
use hao_sys.Fat.{Fs, put16, put32}
use hao_sys.Fat.Name.{dirent_at, is_directory, first_cluster, entry_set_unix_meta}
use hao_sys.Fat.Dir.{
  is_fat32, chain_end, end_mark, cluster_lba, max_cluster, find_free, clear_cluster, dir_extend,
  read_dir, Slot, slot_full, slot_same, slot_free, dir_find_slot,
}
use hao_sys.Fat.Path.{Parent, bad_path, existing, missing, resolve_parent}
use hao_sys.Fat.Run.{
  Run, pure, ◌>>=◌, ◌>>◌, volume, read_sector, write_sector, buffer, fill_buffer, entry, put_entry,
  diverge,
}

-- Every entry of the chain becomes 0; 65536 rounds at most.
unfoldable pub free_chain : ℕ → ℕ → Run Bool
free_chain zero c = pure true
free_chain (suc guard) c = if ltb c 2 || leb chain_end c then pure true else do
  next ← entry c
  put_entry c 0x0000
  if leb chain_end next then pure true else free_chain guard next

-- An entry of 32 bytes into the sector at offset `o`.
abbrev pub put_dirent : Memory → ℕ → Memory → Memory
put_dirent b o e a = if leb o a && ltb a (o + 32) then e (a - o) else b a

-- A new entry; its times, and with them the borrowed fields, are 0.
abbrev pub new_dirent : Memory → ℕ → ℕ → ℕ → Memory
new_dirent name attributes first size =
    put32
      (put16
        (put16 (λ i. if ltb i 11 then name i else if i == 11 then attributes else 0) 20
          (first / 2 ^ 16 % 2 ^ 16))
        26 (first % 2 ^ 16))
      28 size

-- Reads a sector, changes it and writes it back.
unfoldable pub change_sector : ℕ → (Memory → Memory) → Run Bool
change_sector lba f = do
  ok ← read_sector lba
  b ← buffer
  if not ok then pure false else do fill_buffer (f b); write_sector lba

unfoldable pub set_file_meta : ℕ → List ℕ → ℕ → ℕ → ℕ → Run Bool
set_file_meta fuel filename mode uid gid = do
  fs ← volume
  if not fs.initialized then pure false else do
    parent ← resolve_parent fuel filename
    elim parent [
      | existing dir name e ↦ do
        slot ← dir_find_slot fuel dir name
        elim slot [
          | slot_same lba o ↦
              change_sector lba
                (λ b. put_dirent b o (entry_set_unix_meta (dirent_at b o) mode uid gid))
          | _ ↦ pure false
        ]
      | _ ↦ pure false
    ]

-- Only '.' and '..' may be in a directory that is deleted.
unfoldable pub only_dots : List Memory → Bool
only_dots [] = true
only_dots (e ∷ es) = (e 0 == 0x2E) && only_dots es

unfoldable pub is_empty_dir : ℕ → ℕ → Run Bool
is_empty_dir fuel cluster = do entries ← read_dir fuel cluster 128; pure (only_dots entries)

unfoldable pub delete_entry : ℕ → ℕ → ℕ → Run Bool
delete_entry lba o first = do
  ok ← change_sector lba (λ b. store b o 0xE5)
  if not ok then pure false else if ltb first 2 then pure true else free_chain 65536 first

unfoldable pub delete_file : ℕ → List ℕ → Run Bool
delete_file fuel filename = do
  fs ← volume
  if not fs.initialized then pure false else do
    parent ← resolve_parent fuel filename
    elim parent [
      | existing dir name e ↦ do
        slot ← dir_find_slot fuel dir name
        elim slot [
          | slot_same lba o ↦ do
            ok ← read_sector lba
            b ← buffer
            let first = first_cluster (dirent_at b o)
            if not ok
                then pure false
                else if is_directory (dirent_at b o) && leb 2 first
                then (do
                  empty ← is_empty_dir fuel first
                  if empty then delete_entry lba o first else pure false)
                else delete_entry lba o first
          | _ ↦ pure false
        ]
      | _ ↦ pure false
    ]

-- The first, the last and the number of the clusters allocated so far.
pub record Chain : Type 0 where
  pub first : ℕ
  pub last : ℕ
  pub allocated : ℕ

-- The loop over `n` clusters from `c` on that links free ones until there are enough.
unfoldable pub allocate_chain : ℕ → ℕ → ℕ → Chain → Run Chain
allocate_chain needed zero c chain = pure chain
allocate_chain needed (suc n) c chain = if leb needed chain.allocated then pure chain else do
  value ← entry c
  if not (value == 0x0000) then allocate_chain needed n (c + 1) chain else do
    if chain.last == 0 then pure true else put_entry chain.last c
    allocate_chain needed n (c + 1) (record {
      first = if chain.first == 0 then c else chain.first;
      last = c;
      allocated = chain.allocated + 1;
    })

-- A sector of data, filled up with zeros.
abbrev pub data_sector : List ℕ → Memory
data_sector bytes i = get_or bytes i 0

-- Whether all was written, and what remains of the data.
unfoldable pub store_sectors : ℕ → ℕ → ℕ → List ℕ → Run (Bool × List ℕ)
store_sectors lba zero s rest = pure (true, rest)
store_sectors lba (suc n) s rest = if length rest == 0 then pure (true, rest) else do
  fs ← volume
  let size = min (length rest) fs.bytes_per_sector
  fill_buffer (data_sector (take size rest))
  ok ← write_sector (add32 lba s)
  if not ok then pure (false, rest) else store_sectors lba n (s + 1) (drop size rest)

unfoldable pub store_loop : ℕ → ℕ → List ℕ → Run Bool
store_loop zero c rest = diverge
store_loop (suc fuel) c rest = if (length rest == 0) || (c == 0) then pure true else do
  fs ← volume
  (all, left) ← store_sectors (cluster_lba fs c) fs.sectors_per_cluster 0 rest
  if not all
      then pure false
      else do next ← entry c; if leb chain_end next then pure true else store_loop fuel next left

-- Where the new entry goes, and the first cluster of a file that it replaces.
pub data Place : Type 0 where
  no_place : Place
  place : ℕ → ℕ → Option ℕ → Place

unfoldable pub find_place : ℕ → ℕ → Memory → Run Place
find_place fuel parent name = do
  slot ← dir_find_slot fuel parent name
  elim slot [
    | slot_free lba o ↦ pure (place lba o none)
    | slot_same lba o ↦ do
      ok ← read_sector lba
      b ← buffer
      if not ok || is_directory (dirent_at b o)
          then pure no_place
          else pure (place lba o (some (first_cluster (dirent_at b o))))
    | slot_full ↦ if parent == 0 then pure no_place else do
      extended ← dir_extend parent
      elim extended [ none ↦ pure no_place | some lba ↦ pure (place lba 0 none) ]
  ]

-- Allocation, the old chain, the data and the entry, in this order.
unfoldable pub write_contents : ℕ → Memory → ℕ → ℕ → Option ℕ → List ℕ → Run Bool
write_contents fuel name lba o old bytes = do
  fs ← volume
  let cluster_bytes = mul32 fs.sectors_per_cluster fs.bytes_per_sector
  let needed = sub32 (add32 (length bytes) cluster_bytes) 1 / cluster_bytes
  chain ←
      allocate_chain needed (max_cluster fs - 2) 2 (record { first = 0; last = 0; allocated = 0 })
  if ltb chain.allocated needed then (do free_chain 65536 chain.first; pure false) else do
    if chain.last == 0 then pure true else put_entry chain.last end_mark
    elim old [ none ↦ pure true | some c ↦ if ltb c 2 then pure true else free_chain 65536 c ]
    stored ← store_loop fuel chain.first bytes
    if not stored
        then (do free_chain 65536 chain.first; pure false)
        else change_sector lba
            (λ b. put_dirent b o (new_dirent name 0x20 chain.first (length bytes)))

unfoldable pub write_to : ℕ → ℕ → Memory → List ℕ → Run Bool
write_to fuel parent name bytes = do
  where_to ← find_place fuel parent name
  elim where_to [
    | no_place ↦ pure false
    | place lba o old ↦ write_contents fuel name lba o old bytes
  ]

unfoldable pub write_file : ℕ → List ℕ → List ℕ → Run Bool
write_file fuel filename bytes = do
  fs ← volume
  if not fs.initialized then pure false else do
    parent ← resolve_parent fuel filename
    elim parent [
      | bad_path ↦ pure false
      | existing dir name e ↦ write_to fuel dir name bytes
      | missing dir name ↦ write_to fuel dir name bytes
    ]

-- The names of the two entries that a directory starts with.
abbrev pub dot_name : Memory
dot_name i = if i == 0 then 0x2E else 0x20

abbrev pub dotdot_name : Memory
dotdot_name i = if ltb i 2 then 0x2E else 0x20

unfoldable pub dot_entries : Fs → ℕ → ℕ → Memory → Memory
dot_entries fs new_cluster parent b =
    let parent_cluster : ℕ = if (parent == 0) && is_fat32 fs.fs_type then 0x0FFFFFF8 else parent in
    put_dirent (put_dirent b 0 (new_dirent dot_name 0x10 new_cluster 0)) 32
      (new_dirent dotdot_name 0x10 parent_cluster 0)

-- Each failure from here on gives the new cluster back.
unfoldable pub release : ℕ → Run Bool
release c = do free_chain 65536 c; pure false

unfoldable pub link_dir : ℕ → ℕ → Memory → ℕ → Run Bool
link_dir c lba name o = do
  ok ← change_sector lba (λ b. put_dirent b o (new_dirent name 0x10 c 0))
  if ok then pure true else release c

unfoldable pub enter_dir : ℕ → ℕ → Memory → ℕ → Run Bool
enter_dir fuel parent name c = do
  slot ← dir_find_slot fuel parent name
  elim slot [
    | slot_free lba o ↦ link_dir c lba name o
    | slot_same lba o ↦ release c
    | slot_full ↦ if parent == 0 then release c else do
      extended ← dir_extend parent
      elim extended [ none ↦ release c | some lba ↦ link_dir c lba name 0 ]
  ]

unfoldable pub make_dir : ℕ → ℕ → Memory → Run Bool
make_dir fuel parent name = do
  fs ← volume
  free ← find_free (max_cluster fs - 2) 2
  elim free [
    | none ↦ pure false
    | some c ↦ do
      put_entry c end_mark
      clear_cluster (cluster_lba fs c) fs.sectors_per_cluster 0
      ok ← change_sector (cluster_lba fs c) (dot_entries fs c parent)
      if ok then enter_dir fuel parent name c else release c
  ]

unfoldable pub mkdir : ℕ → List ℕ → Run Bool
mkdir fuel path = do
  fs ← volume
  if not fs.initialized then pure false else do
    parent ← resolve_parent fuel path
    elim parent [ missing dir name ↦ make_dir fuel dir name | _ ↦ pure false ]
