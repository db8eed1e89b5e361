-- ===== src/Sys/Dispatch.antt =====
-- syscall/syscall.c: credentials, mounting, and the dispatcher. The calls that only pass on to a
-- driver are the argument `drivers`.
use hao_sys.Base.{ℕ, Bool, ◌&&◌, Option, none, some, ◌==◌, if◌then◌else◌}
use hao_sys.Task.{Task}
use hao_sys.Perm.{euid_of, egid_of, set_uid, set_gid}
use hao_sys.Vfs
use hao_sys.Vfs.{umount}
use hao_sys.Sys.{Kernel, Answer, deny, checked, with_string, code, user_ptr}
use hao_sys.Sys.Files.{
  uid_of, gid_of, sys_write_file, sys_read_file, sys_read_file_off, sys_delete_file, sys_mkdir,
}
use hao_sys.Sys.Meta.{is_root, sys_stat, sys_chmod, sys_chown}
use hao_sys.Sys.Listing.{sys_list}

abbrev pub sys_getuid : Kernel → ℕ
sys_getuid k = uid_of k.current

abbrev pub sys_getgid : Kernel → ℕ
sys_getgid k = gid_of k.current

abbrev pub sys_geteuid : Kernel → ℕ
sys_geteuid k = euid_of k.current

abbrev pub sys_getegid : Kernel → ℕ
sys_getegid k = egid_of k.current

-- A call that changes the current task.
unfoldable pub with_task : Kernel → (Task → Bool × Task) → Answer
with_task k f = elim k.current [
  | none ↦ deny k
  | some t ↦ let (ok, t') = f t in some (code ok, record k { current = some t' })
]

unfoldable pub sys_setuid : Kernel → ℕ → Answer
sys_setuid k uid = with_task k (λ t. set_uid t uid)

unfoldable pub sys_setgid : Kernel → ℕ → Answer
sys_setgid k gid = with_task k (λ t. set_gid t gid)

unfoldable pub sys_mount : ℕ → Kernel → ℕ → ℕ → Answer
sys_mount fuel k dev_name point =
    checked k (is_root k.current && (user_ptr k dev_name && user_ptr k point)) (
      with_string fuel k dev_name (λ name. with_string fuel k point (λ path.
        elim (Vfs.mount k.vfs path name) [
          | none ↦ none
          | some (ok, v) ↦ some (code ok, record k { vfs = v })
        ])))

unfoldable pub sys_umount : ℕ → Kernel → ℕ → Answer
sys_umount fuel k point = checked k (is_root k.current && user_ptr k point) (
    with_string fuel k point
      (λ path. let (ok, v) = umount k.vfs path in some (code ok, record k { vfs = v })))

-- The argument registers of `regs_t`, and `eax`.
pub record Regs : Type 0 where
  pub eax : ℕ
  pub ebx : ℕ
  pub ecx : ℕ
  pub edx : ℕ
  pub esi : ℕ

-- The calls that this file models.
pub data FileCall : Type 0 where
  write_file : FileCall
  read_file : FileCall
  read_file_off : FileCall
  delete_file : FileCall
  make_dir : FileCall
  list_dir : FileCall
  mount_dev : FileCall
  umount_dev : FileCall
  get_uid : FileCall
  get_gid : FileCall
  get_euid : FileCall
  get_egid : FileCall
  set_user : FileCall
  set_group : FileCall
  stat_file : FileCall
  chmod_file : FileCall
  chown_file : FileCall

-- The call of a number in include/syscall/syscall.h.
unfoldable pub call_of : ℕ → Option FileCall
call_of n =
    if n == 17
    then some write_file
    else if n == 18
    then some read_file
    else if n == 22
    then some delete_file
    else if n == 24
    then some make_dir
    else if n == 25
    then some list_dir
    else if n == 28
    then some mount_dev
    else if n == 29
    then some umount_dev
    else if n == 36
    then some read_file_off
    else if n == 38
    then some get_uid
    else if n == 39
    then some get_gid
    else if n == 40
    then some get_euid
    else if n == 41
    then some get_egid
    else if n == 42
    then some set_user
    else if n == 43
    then some set_group
    else if n == 44
    then some stat_file
    else if n == 45
    then some chmod_file
    else if n == 46
    then some chown_file
    else none

unfoldable pub perform : ℕ → ℕ × ℕ → Kernel → Regs → FileCall → Answer
perform fuel pad k r write_file = sys_write_file fuel k r.ebx r.ecx r.edx
perform fuel pad k r read_file = sys_read_file fuel k r.ebx r.ecx r.edx
perform fuel pad k r read_file_off = sys_read_file_off fuel k r.ebx r.ecx r.edx r.esi
perform fuel pad k r delete_file = sys_delete_file fuel k r.ebx
perform fuel pad k r make_dir = sys_mkdir fuel k r.ebx
perform fuel pad k r list_dir = sys_list fuel k r.ebx r.ecx r.edx
perform fuel pad k r mount_dev = sys_mount fuel k r.ebx r.ecx
perform fuel pad k r umount_dev = sys_umount fuel k r.ebx
perform fuel pad k r get_uid = some (sys_getuid k, k)
perform fuel pad k r get_gid = some (sys_getgid k, k)
perform fuel pad k r get_euid = some (sys_geteuid k, k)
perform fuel pad k r get_egid = some (sys_getegid k, k)
perform fuel pad k r set_user = sys_setuid k r.ebx
perform fuel pad k r set_group = sys_setgid k r.ebx
perform fuel pad k r stat_file = sys_stat fuel pad k r.ebx r.ecx
perform fuel pad k r chmod_file = sys_chmod fuel k r.ebx r.ecx
perform fuel pad k r chown_file = sys_chown fuel k r.ebx r.ecx r.edx

-- The result goes to `eax`.
unfoldable pub syscall_dispatcher :
    ℕ → ℕ × ℕ → (Kernel → Regs → Answer) → Kernel → Regs → Option (Regs × Kernel)
syscall_dispatcher fuel pad drivers k r =
    let answer : Answer = elim (call_of r.eax) [
      | some c ↦ perform fuel pad k r c
      | none ↦ drivers k r
    ] in
    elim answer [ none ↦ none | some (ret, k') ↦ some (record r { eax = ret }, k') ]
