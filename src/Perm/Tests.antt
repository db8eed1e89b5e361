-- ===== src/Perm/Tests.antt =====
-- A file of user 1000 with mode 0640, and a task of another user in its group.
use hao_sys.Base.{◌+◌, ◌^◌, ◌≡◌, ◌≢◌, true, some, [], ◌∷◌, arith}
use hao_sys.Task.{Task, task_running}
use hao_sys.Fat.Name.{entry_set_unix_meta}
use hao_sys.Perm.{check_entry, set_uids}
use hao_sys.Perm.Laws.{mode_bit, check_entry_lem, set_uids-user}

abbrev member : Task
member = record {
  addr = 4096;
  esp = 0;
  eip = 0;
  pid = 7;
  state = task_running;
  kernel_esp0 = 0;
  uid = 2000;
  gid = 100;
  euid = 2000;
  egid = 100;
  is_user = true;
  page_directory = 0;
  user_virt_pages = [];
  name = [];
}

check_entry_lem_example :
    check_entry (some member) (entry_set_unix_meta (λ i. 0) 0x81A0 1000 100) (2 ^ 2)
    ≡ mode_bit 0x81A0 (3 + 2)
check_entry_lem_example =
    check_entry_lem (some member) (λ i. 0) 0x81A0 1000 100 2 (omega arith) (omega arith)
      (omega arith) (omega arith)

set_uids-user_example :
    ((set_uids (0 ∷ 2000 ∷ []) member).euid ≢ 0) × ((set_uids (0 ∷ 2000 ∷ []) member).uid ≡ 2000)
set_uids-user_example = set_uids-user (0 ∷ 2000 ∷ []) member (λ e. omega arith) (λ e. omega arith)
