-- ===== src/Fat/Path.antt =====
-- fs/fat.c: paths. A path is the list of its characters, without the final 0.
pub mod Segments
use hao_sys.Base.{
  ℕ, zero, suc, ◌+◌, ◌-◌, ◌*◌, ◌/◌, ◌%◌, ◌^◌, Bool, true, false, not, ◌&&◌, ◌||◌, List, [], ◌∷◌,
  ◌++◌, Option, none, some, Memory, ◌==◌, ltb, leb, if◌then◌else◌, length,
}
use hao_sys.Fat.{Fs, get16}
use hao_sys.Fat.Name.{
  make_83_name, is_directory, first_cluster, entry_unix_meta, entry_set_unix_meta,
}
use hao_sys.Fat.Dir.{dir_find_name}
use hao_sys.Fat.Run.{Run, pure, ◌>>=◌, volume}

abbrev pub slash : ℕ
slash = 47

-- The segment has room for 15 characters; more are dropped.
abbrev pub push_char : List ℕ → ℕ → List ℕ
push_char seg c = if ltb (length seg) 15 then seg ++ (c ∷ []) else seg

-- The parent directory of the last name with its 8.3 form, and the entry of that name if there is
-- one; or no such path (0xFFFFFFFF).
pub data Parent : Type 0 where
  bad_path : Parent
  existing : ℕ → Memory → Memory → Parent
  missing : ℕ → Memory → Parent

-- A name inside the path must be a directory: its first cluster.
unfoldable pub enter : ℕ → ℕ → List ℕ → Run (Option ℕ)
enter fuel cur seg = do
  found ← dir_find_name fuel cur (make_83_name seg)
  elim found [
    | none ↦ pure none
    | some e ↦ if is_directory e then pure (some (first_cluster e)) else pure none
  ]

unfoldable pub last_name : ℕ → ℕ → List ℕ → Run Parent
last_name fuel cur seg = do
  found ← dir_find_name fuel cur (make_83_name seg)
  elim found [
    | none ↦ pure (missing cur (make_83_name seg))
    | some e ↦ pure (existing cur (make_83_name seg) e)
  ]

-- The loop over the path: the current directory, the segment so far, and whether there is one.
unfoldable pub resolve_loop : ℕ → ℕ → List ℕ → Bool → List ℕ → Run Parent
resolve_loop fuel cur seg have [] = if have then last_name fuel cur seg else pure bad_path
resolve_loop fuel cur seg have (c ∷ cs) =
    if c == slash
    then (if have
        then (do
          below ← enter fuel cur seg
          elim below [ none ↦ pure bad_path | some dir ↦ resolve_loop fuel dir [] false cs ])
        else resolve_loop fuel cur seg false cs)
    else resolve_loop fuel cur (push_char seg c) true cs

unfoldable pub resolve_parent : ℕ → List ℕ → Run Parent
resolve_parent fuel path = resolve_loop fuel 0 [] false path

-- `none` is 0xFFFFFFFF.
unfoldable pub open_loop : ℕ → ℕ → List ℕ → Bool → List ℕ → Run (Option ℕ)
open_loop fuel cur seg have [] = if have then enter fuel cur seg else pure (some cur)
open_loop fuel cur seg have (c ∷ cs) =
    if c == slash
    then (if have
        then (do
          below ← enter fuel cur seg
          elim below [ none ↦ pure none | some dir ↦ open_loop fuel dir [] false cs ])
        else open_loop fuel cur seg false cs)
    else open_loop fuel cur (push_char seg c) true cs

unfoldable pub open_dir : ℕ → List ℕ → Run (Option ℕ)
open_dir fuel path = open_loop fuel 0 [] false path

unfoldable pub find_file : ℕ → List ℕ → Run (Option Memory)
find_file fuel filename = do
  fs ← volume
  if not fs.initialized then pure none else do
    parent ← resolve_parent fuel filename
    elim parent [ existing dir name e ↦ pure (some e) | _ ↦ pure none ]

unfoldable pub get_file_meta : ℕ → List ℕ → Run (Option (ℕ × ℕ × ℕ))
get_file_meta fuel filename = do
  fs ← volume
  if not fs.initialized then pure none else do
    found ← find_file fuel filename
    elim found [ none ↦ pure none | some e ↦ pure (some (entry_unix_meta (some e))) ]
