-- ===== src/Fat/File.antt =====
-- fs/fat.c: `fat_load_file` and `fat_load_file_off`. What is copied to the caller's buffer is the
-- list of the bytes, and the result is its length. A round of the loop over clusters takes fuel.
pub mod Loading
use hao_sys.Base.{
  ℕ, zero, suc, ◌+◌, ◌-◌, ◌*◌, ◌/◌, ◌%◌, ◌^◌, Bool, true, false, not, ◌&&◌, ◌||◌, List, [], ◌∷◌,
  ◌++◌, Option, none, some, Memory, add32, ◌==◌, ltb, leb, if◌then◌else◌, length, min,
}
use hao_sys.Fat.{Fs}
use hao_sys.Fat.Name.{first_cluster, file_size}
use hao_sys.Fat.Dir.{chain_end, cluster_lba}
use hao_sys.Fat.Run.{Run, pure, ◌>>=◌, volume, read_sector, entry, diverge}

-- `memcpy` of `n` bytes from offset `i`.
unfoldable pub copy : Memory → ℕ → ℕ → List ℕ
copy b i zero = []
copy b i (suc n) = b i ∷ copy b (i + 1) n

-- `n` sectors from `lba + s` on: whether all could be read, what is copied, and what remains.
unfoldable pub load_sectors : ℕ → ℕ → ℕ → ℕ → Run (Bool × List ℕ × ℕ)
load_sectors lba zero s remaining = pure (true, [], remaining)
load_sectors lba (suc n) s remaining = if remaining == 0 then pure (true, [], remaining) else do
  ok ← read_sector (add32 lba s)
  fs ← volume
  if not ok then pure (false, [], remaining) else do
    let size = min remaining fs.bytes_per_sector
    (all, more, left) ← load_sectors lba n (s + 1) (remaining - size)
    pure (all, copy fs.sector_buffer 0 size ++ more, left)

unfoldable pub load_loop : ℕ → ℕ → ℕ → Run (List ℕ)
load_loop zero cluster remaining = diverge
load_loop (suc fuel) cluster remaining =
    if (remaining == 0) || leb chain_end cluster then pure [] else do
      fs ← volume
      (all, found, left) ← load_sectors (cluster_lba fs cluster) fs.sectors_per_cluster 0 remaining
      if not all then pure found else do
        next ← entry cluster
        if leb chain_end next
            then pure found
            else do more ← load_loop fuel next left; pure (found ++ more)

-- One round for each byte is fuel enough, and one more for the end.
unfoldable pub load_file : Memory → ℕ → Run (List ℕ)
load_file e max_size = do
  fs ← volume
  if not fs.initialized || (max_size == 0)
      then pure []
      else if ltb (first_cluster e) 2
      then pure []
      else load_loop (min (file_size e) max_size + 1) (first_cluster e) (min (file_size e) max_size)

-- As `load_sectors`, but `skip` bytes are passed over first; they are the last component.
unfoldable pub load_sectors_off : ℕ → ℕ → ℕ → ℕ → ℕ → Run (Bool × List ℕ × ℕ × ℕ)
load_sectors_off lba zero s remaining skip = pure (true, [], remaining, skip)
load_sectors_off lba (suc n) s remaining skip =
    if remaining == 0 then pure (true, [], remaining, skip) else do
      ok ← read_sector (add32 lba s)
      fs ← volume
      if not ok
          then pure (false, [], remaining, skip)
          else if ltb 0 skip && leb fs.bytes_per_sector skip
          then load_sectors_off lba n (s + 1) remaining (skip - fs.bytes_per_sector)
          else do
            let size = min remaining (fs.bytes_per_sector - skip)
            (all, more, left, over) ← load_sectors_off lba n (s + 1) (remaining - size) 0
            pure (all, copy fs.sector_buffer skip size ++ more, left, over)

unfoldable pub load_loop_off : ℕ → ℕ → ℕ → ℕ → Run (List ℕ)
load_loop_off zero cluster remaining skip = diverge
load_loop_off (suc fuel) cluster remaining skip =
    if (remaining == 0) || leb chain_end cluster then pure [] else do
      fs ← volume
      (all, found, left, over) ←
          load_sectors_off (cluster_lba fs cluster) fs.sectors_per_cluster 0 remaining skip
      if not all then pure found else do
        next ← entry cluster
        if leb chain_end next
            then pure found
            else do more ← load_loop_off fuel next left over; pure (found ++ more)

unfoldable pub load_file_off : Memory → ℕ → ℕ → Run (List ℕ)
load_file_off e offset max_size = do
  fs ← volume
  let size = min (file_size e - offset) max_size
  if not fs.initialized || (max_size == 0)
      then pure []
      else if leb (file_size e) offset || ltb (first_cluster e) 2
      then pure []
      else load_loop_off (offset + size + 1) (first_cluster e) size offset
