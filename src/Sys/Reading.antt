-- ===== src/Sys/Reading.antt =====
-- The calls of syscall/syscall.c that read leave the disks as they are.
use hao_sys.Base.{ℕ, ◌≡◌, refl, Bool, true, List, [], ◌∷◌, Option, none, some, Memory, ◌==◌, ◌||◌}
use hao_sys.Str.Text.{Text}
use hao_sys.Fat.Run.{Run}
use hao_sys.Fat.Keeps.{Keeps, keeps_rules, bind-Keeps, option-Keeps, read_dir-Keeps}
use hao_sys.Fat.Keeps.Paths.{find_file-Keeps, load_file-Keeps, load_file_off-Keeps, open_dir-Keeps}
use hao_sys.Task.{Task}
use hao_sys.Sys.{Kernel, failure, on_path}
use hao_sys.Sys.Disks.{
  KeepsDisks, same-KeepsDisks, if-KeepsDisks, on_path-KeepsDisks, checked-KeepsDisks,
  with_string-KeepsDisks,
}
use hao_sys.Sys.Files.{read_checked, deliver, sys_read_file, sys_read_file_off}
use hao_sys.Sys.Meta.{stat_run, stat_text, deliver_stat, sys_stat, is_dev, is_mnt}
use hao_sys.Sys.Listing.{
  may_list, list_opened, list_checked, deliver_list, sys_list, list_text, is_slash,
}
use hao_sys.Sys.Dispatch.{Regs, FileCall, read_file, read_file_off, list_dir, stat_file, perform}

read_checked-Keeps :
    (fuel : ℕ) (t : Option Task) (load : Memory → Run (List ℕ)) (sub : Text)
    → ((e : Memory) → Keeps (load e))
    → Keeps (read_checked fuel t load sub)
unfolding read_checked
read_checked-Keeps fuel t load sub h =
    bind-Keeps _ _ (find_file-Keeps fuel sub)
      (option-Keeps _ (search keeps_rules) (λ e. search (keeps_rules, h)))

may_list-Keeps : (fuel : ℕ) (t : Option Task) (sub : Text) → Keeps (may_list fuel t sub)
unfolding may_list
may_list-Keeps fuel t [] = search keeps_rules
may_list-Keeps fuel t (c ∷ cs) =
    bind-Keeps _ _ (find_file-Keeps fuel (c ∷ cs))
      (option-Keeps _ (search keeps_rules) (λ e. search keeps_rules))

list_opened-Keeps : (fuel max : ℕ) (sub : Text) → Keeps (list_opened fuel max sub)
unfolding list_opened
list_opened-Keeps fuel max sub =
    bind-Keeps _ _ (open_dir-Keeps fuel sub)
      (option-Keeps _ (search keeps_rules) (λ c. search (keeps_rules, read_dir-Keeps)))

list_checked-Keeps :
    (fuel : ℕ) (t : Option Task) (max : ℕ) (sub : Text) → Keeps (list_checked fuel t max sub)
unfolding list_checked
list_checked-Keeps fuel t max sub = search (keeps_rules, may_list-Keeps, list_opened-Keeps)

deliver-vfs : (buf : ℕ) (found : Option (List ℕ)) (k : Kernel) → (deliver buf found k).1.vfs ≡ k.vfs
deliver-vfs buf none k = refl
deliver-vfs buf (some bytes) k = refl

deliver_stat-vfs :
    (buf : ℕ) (pad : ℕ × ℕ) (found : Option Memory) (k : Kernel)
    → (deliver_stat buf pad found k).1.vfs ≡ k.vfs
deliver_stat-vfs buf pad none k = refl
deliver_stat-vfs buf pad (some e) k = refl

deliver_list-vfs :
    (buf : ℕ) (at_root : Bool) (max : ℕ) (found : Option (List Memory)) (k : Kernel)
    → (deliver_list buf at_root max found k).1.vfs ≡ k.vfs
deliver_list-vfs buf at_root max none k = refl
deliver_list-vfs buf at_root max (some es) k = refl

denied-KeepsDisks : (k : Kernel) → KeepsDisks k (some (failure, k))
denied-KeepsDisks k = same-KeepsDisks k k failure refl

read_text-KeepsDisks :
    (fuel : ℕ) (k : Kernel) (load : Memory → Run (List ℕ)) (buf : ℕ) (path : Text)
    → ((e : Memory) → Keeps (load e))
    → KeepsDisks k (on_path k path (read_checked fuel k.current load) (deliver buf))
read_text-KeepsDisks fuel k load buf path h =
    on_path-KeepsDisks k path (read_checked fuel k.current load) (deliver buf)
      (λ sub. read_checked-Keeps fuel k.current load sub h) (deliver-vfs buf)

sys_read_file-KeepsDisks :
    (fuel : ℕ) (k : Kernel) (filename buf n : ℕ)
    → KeepsDisks k (sys_read_file fuel k filename buf n)
unfolding sys_read_file
sys_read_file-KeepsDisks fuel k filename buf n = checked-KeepsDisks k _ _ (
    with_string-KeepsDisks fuel k filename _
      (λ path. read_text-KeepsDisks fuel k _ buf path (λ e. load_file-Keeps e n)))

sys_read_file_off-KeepsDisks :
    (fuel : ℕ) (k : Kernel) (filename offset buf n : ℕ)
    → KeepsDisks k (sys_read_file_off fuel k filename offset buf n)
unfolding sys_read_file_off
sys_read_file_off-KeepsDisks fuel k filename offset buf n = checked-KeepsDisks k _ _ (
    with_string-KeepsDisks fuel k filename _
      (λ path. read_text-KeepsDisks fuel k _ buf path (λ e. load_file_off-Keeps e offset n)))

stat_path-KeepsDisks :
    (fuel : ℕ) (pad : ℕ × ℕ) (k : Kernel) (p : Text) (buf : ℕ)
    → KeepsDisks k (on_path k p (stat_run fuel) (deliver_stat buf pad))
unfolding stat_run
stat_path-KeepsDisks fuel pad k p buf =
    on_path-KeepsDisks k p _ (deliver_stat buf pad) (find_file-Keeps fuel)
      (deliver_stat-vfs buf pad)

stat_text-KeepsDisks :
    (fuel : ℕ) (pad : ℕ × ℕ) (k : Kernel) (buf : ℕ) (p : Text)
    → KeepsDisks k (stat_text fuel pad k buf p)
unfolding stat_text
stat_text-KeepsDisks fuel pad k buf p =
    if-KeepsDisks k (is_dev p || is_mnt p) _ _ (same-KeepsDisks k _ _ refl)
      (stat_path-KeepsDisks fuel pad k p buf)

sys_stat-KeepsDisks :
    (fuel : ℕ) (pad : ℕ × ℕ) (k : Kernel) (path buf : ℕ)
    → KeepsDisks k (sys_stat fuel pad k path buf)
unfolding sys_stat
sys_stat-KeepsDisks fuel pad k path buf =
    checked-KeepsDisks k _ _
      (with_string-KeepsDisks fuel k path _ (stat_text-KeepsDisks fuel pad k buf))

list_path-KeepsDisks :
    (fuel : ℕ) (k : Kernel) (p : Text) (buf max : ℕ) (at_root : Bool)
    → KeepsDisks k (on_path k p (list_checked fuel k.current max) (deliver_list buf at_root max))
list_path-KeepsDisks fuel k p buf max at_root =
    on_path-KeepsDisks k p _ (deliver_list buf at_root max) (list_checked-Keeps fuel k.current max)
      (deliver_list-vfs buf at_root max)

list_text-KeepsDisks :
    (fuel : ℕ) (k : Kernel) (p : Text) (buf max : ℕ) → KeepsDisks k (list_text fuel k p buf max)
unfolding list_text
list_text-KeepsDisks fuel k p buf max =
    if-KeepsDisks k (is_dev p) _ _ (same-KeepsDisks k _ _ refl) (
      if-KeepsDisks k (is_mnt p) _ _ (same-KeepsDisks k _ _ refl)
        (list_path-KeepsDisks fuel k p buf max (is_slash p)))

sys_list-KeepsDisks :
    (fuel : ℕ) (k : Kernel) (path buf max : ℕ) → KeepsDisks k (sys_list fuel k path buf max)
unfolding sys_list
sys_list-KeepsDisks fuel k path buf max = checked-KeepsDisks k _ _ (
    if-KeepsDisks k (path == 0) _ _ (list_path-KeepsDisks fuel k [] buf max true)
      (with_string-KeepsDisks fuel k path _ (λ p. list_text-KeepsDisks fuel k p buf max)))

-- The calls that only read.
pub data IsReading : FileCall → Type 0 where
  reads : IsReading read_file
  reads_off : IsReading read_file_off
  lists : IsReading list_dir
  stats : IsReading stat_file

-- Reading a file, listing a directory and asking for a file's data leave the sectors of every device as
-- they were, whatever the registers, the paths, the permissions and the devices are.
pub perform-KeepsDisks :
    {c : FileCall} (fuel : ℕ) (pad : ℕ × ℕ) (k : Kernel) (r : Regs)
    → IsReading c
    → KeepsDisks k (perform fuel pad k r c)
unfolding perform
perform-KeepsDisks fuel pad k r reads = sys_read_file-KeepsDisks fuel k r.ebx r.ecx r.edx
perform-KeepsDisks fuel pad k r reads_off =
    sys_read_file_off-KeepsDisks fuel k r.ebx r.ecx r.edx r.esi
perform-KeepsDisks fuel pad k r lists = sys_list-KeepsDisks fuel k r.ebx r.ecx r.edx
perform-KeepsDisks fuel pad k r stats = sys_stat-KeepsDisks fuel pad k r.ebx r.ecx
