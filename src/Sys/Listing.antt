-- ===== src/Sys/Listing.antt =====
-- syscall/syscall.c: listing a directory.
use hao_sys.Base.{
  ℕ, ◌-◌, ◌^◌, Bool, true, false, not, ◌&&◌, ◌||◌, List, [], ◌∷◌, ◌++◌, Option, none, some, Memory,
  add32, mul32, ◌==◌, ltb, if◌then◌else◌, length, get_or,
}
use hao_sys.Str.Text.{Text}
use hao_sys.Task.{Task}
use hao_sys.Vmm.{is_user_accessible}
use hao_sys.Fat.Run.{Run, pure, ◌>>=◌}
use hao_sys.Fat.Dir.{read_dir}
use hao_sys.Fat.File.{copy}
use hao_sys.Fat.Path.{find_file, open_dir}
use hao_sys.Perm.{check_entry, root_entry}
use hao_sys.Vfs.Listing.{virtual_entry, list_devices, list_mount_points}
use hao_sys.Sys.{Kernel, Answer, checked, with_string, failure, user_ptr, put_bytes, on_path}
use hao_sys.Sys.Meta.{is_dev, is_mnt}

abbrev pub put_entries : Memory → ℕ → List Memory → Memory
put_entries m buf [] = m
put_entries m buf (e ∷ es) = put_entries (put_bytes m buf (copy e 0 32)) (add32 buf 32) es

-- The root's entry stands for an empty subpath.
unfoldable pub may_list : ℕ → Option Task → Text → Run Bool
may_list fuel t [] = pure (check_entry t root_entry 4)
may_list fuel t (c ∷ cs) = do
  found ← find_file fuel (c ∷ cs)
  elim found [ none ↦ pure false | some e ↦ pure (check_entry t e 4) ]

unfoldable pub list_opened : ℕ → ℕ → Text → Run (Option (List Memory))
list_opened fuel max sub = do
  opened ← open_dir fuel sub
  elim opened [ none ↦ pure none | some c ↦ do entries ← read_dir fuel c max; pure (some entries) ]

unfoldable pub list_checked : ℕ → Option Task → ℕ → Text → Run (Option (List Memory))
list_checked fuel t max sub = do
  may ← may_list fuel t sub
  if not may then pure none else list_opened fuel max sub

-- One more, if `int` comparison says that there is room.
abbrev pub add_entry : ℕ → Memory → List Memory → List Memory
add_entry max e es = if ltb max (2 ^ 31) && ltb (length es) max then es ++ (e ∷ []) else es

-- The root directory also shows DEV and MNT.
abbrev pub with_virtual : Bool → ℕ → List Memory → List Memory
with_virtual at_root max es =
    if at_root
    then add_entry max (virtual_entry (77 ∷ 78 ∷ 84 ∷ []) 0x10 0)
        (add_entry max (virtual_entry (68 ∷ 69 ∷ 86 ∷ []) 0x10 0) es)
    else es

abbrev pub deliver_entries : ℕ → Kernel → List Memory → ℕ × Kernel
deliver_entries buf k es = (length es, record k { memory = put_entries k.memory buf es })

abbrev pub deliver_list : ℕ → Bool → ℕ → Option (List Memory) → Kernel → ℕ × Kernel
deliver_list buf at_root max found k = elim found [
  | none ↦ (failure, k)
  | some es ↦ deliver_entries buf k (with_virtual at_root max es)
]

abbrev pub is_slash : Text → Bool
is_slash p = (get_or p 0 0 == 47) && (get_or p 1 0 == 0)

unfoldable pub list_text : ℕ → Kernel → Text → ℕ → ℕ → Answer
list_text fuel k p buf max =
    if is_dev p
    then some (deliver_entries buf k (list_devices k.vfs max))
    else (if is_mnt p
        then some (deliver_entries buf k (list_mount_points k.vfs max))
        else on_path k p (list_checked fuel k.current max) (deliver_list buf (is_slash p) max))

-- A NULL path is the root.
unfoldable pub sys_list : ℕ → Kernel → ℕ → ℕ → ℕ → Answer
sys_list fuel k path buf max =
    checked k
      (not (max == 0)
        && (((path == 0) || is_user_accessible k.vmm path)
            && (user_ptr k buf && is_user_accessible k.vmm (add32 buf (mul32 (max - 1) 32)))))
      (if path == 0
        then on_path k [] (list_checked fuel k.current max) (deliver_list buf true max)
        else with_string fuel k path (λ p. list_text fuel k p buf max))
