-- ===== src/Sys/Files.antt =====
-- syscall/syscall.c: writing, reading, deleting files and making directories.
use hao_sys.Base.{
  ℕ, ◌%◌, ◌^◌, Bool, true, false, not, ◌&&◌, ◌||◌, List, Option, none, some, Memory, add32, sub32,
  ◌==◌, ltb, if◌then◌else◌, length,
}
use hao_sys.Str.Text.{Text}
use hao_sys.Task.{Task}
use hao_sys.Vmm.{is_user_accessible}
use hao_sys.Fat.Run.{Run, pure, ◌>>=◌, ◌>>◌}
use hao_sys.Fat.Name.{entry_unix_meta}
use hao_sys.Fat.Path.{find_file}
use hao_sys.Fat.File.{load_file, load_file_off}
use hao_sys.Fat.Write.{write_file, delete_file, set_file_meta}
use hao_sys.Fat.Write
use hao_sys.Perm.{check_entry, check_parent_writable}
use hao_sys.Sys.{Kernel, Answer, checked, failure, user_ptr, user_bytes, put_bytes, at_path, done}

-- Without a task files are root's.
abbrev pub uid_of : Option Task → ℕ
uid_of t = elim t [ none ↦ 0 | some task ↦ task.uid ]

abbrev pub gid_of : Option Task → ℕ
gid_of t = elim t [ none ↦ 0 | some task ↦ task.gid ]

-- A regular file with mode 0644, and a directory with mode 0755.
abbrev pub file_mode : ℕ
file_mode = 0x81A4

abbrev pub dir_mode : ℕ
dir_mode = 0x41ED

-- Writes, and puts mode and owner into the new entry.
unfoldable pub write_with : ℕ → Text → List ℕ → ℕ × ℕ × ℕ → Run Bool
write_with fuel sub bytes (mode, uid, gid) = do
  ok ← write_file fuel sub bytes
  if not ok then pure false else do set_file_meta fuel sub mode uid gid; pure true

-- A file that is there wants write permission and keeps its mode and owner; a new one wants write
-- permission on its directory and is the task's.
unfoldable pub write_checked : ℕ → Option Task → List ℕ → Text → Run Bool
write_checked fuel t bytes sub = do
  found ← find_file fuel sub
  elim found [
    | some e ↦
        if check_entry t e 2
        then write_with fuel sub bytes (entry_unix_meta (some e))
        else pure false
    | none ↦ do
      may ← check_parent_writable fuel t sub
      if may
          then write_with fuel sub bytes (file_mode, uid_of t % 2 ^ 16, gid_of t % 2 ^ 16)
          else pure false
  ]

-- The first and the last byte of the data must be on the user's pages.
unfoldable pub sys_write_file : ℕ → Kernel → ℕ → ℕ → ℕ → Answer
sys_write_file fuel k filename source size =
    checked k
      (user_ptr k filename
        && (not (ltb 65536 size)
            && (user_ptr k source
                && ((size == 0) || is_user_accessible k.vmm (sub32 (add32 source size) 1)))))
      (at_path fuel k filename (write_checked fuel k.current (user_bytes k.memory source size))
        done)

-- The bytes of a file that the task may read.
unfoldable pub read_checked :
    ℕ → Option Task → (Memory → Run (List ℕ)) → Text → Run (Option (List ℕ))
read_checked fuel t load sub = do
  found ← find_file fuel sub
  elim found [
    | none ↦ pure none
    | some e ↦ if check_entry t e 4 then (do bytes ← load e; pure (some bytes)) else pure none
  ]

abbrev pub deliver : ℕ → Option (List ℕ) → Kernel → ℕ × Kernel
deliver buf result k = elim result [
  | none ↦ (failure, k)
  | some bytes ↦ (length bytes, record k { memory = put_bytes k.memory buf bytes })
]

abbrev pub user_buffer : Kernel → ℕ → ℕ → Bool
user_buffer k buf max_size =
    not (max_size == 0)
    && (user_ptr k buf && is_user_accessible k.vmm (sub32 (add32 buf max_size) 1))

unfoldable pub sys_read_file : ℕ → Kernel → ℕ → ℕ → ℕ → Answer
sys_read_file fuel k filename buf max_size =
    checked k (user_ptr k filename && user_buffer k buf max_size) (
      at_path fuel k filename (read_checked fuel k.current (λ e. load_file e max_size))
        (deliver buf))

unfoldable pub sys_read_file_off : ℕ → Kernel → ℕ → ℕ → ℕ → ℕ → Answer
sys_read_file_off fuel k filename offset buf max_size =
    checked k (user_ptr k filename && user_buffer k buf max_size) (
      at_path fuel k filename (read_checked fuel k.current (λ e. load_file_off e offset max_size))
        (deliver buf))

unfoldable pub delete_checked : ℕ → Option Task → Text → Run Bool
delete_checked fuel t sub = do
  may ← check_parent_writable fuel t sub
  if may then delete_file fuel sub else pure false

unfoldable pub sys_delete_file : ℕ → Kernel → ℕ → Answer
sys_delete_file fuel k filename =
    checked k (user_ptr k filename) (at_path fuel k filename (delete_checked fuel k.current) done)

unfoldable pub mkdir_checked : ℕ → Option Task → Text → Run Bool
mkdir_checked fuel t sub = do
  may ← check_parent_writable fuel t sub
  if not may then pure false else do
    made ← Write.mkdir fuel sub
    if not made
        then pure false
        else do set_file_meta fuel sub dir_mode (uid_of t % 2 ^ 16) (gid_of t % 2 ^ 16); pure true

unfoldable pub sys_mkdir : ℕ → Kernel → ℕ → Answer
sys_mkdir fuel k path =
    checked k (user_ptr k path) (at_path fuel k path (mkdir_checked fuel k.current) done)
