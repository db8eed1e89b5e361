-- ===== src/Task.antt =====
-- proc/task.c, include/proc/task.h: tasks, their creation and their memory, and the scheduler's
-- choice. A task is known by the address of its PCB page, and the linked list of PCBs is the list of
-- the tasks. Saving and restoring registers (proc/switch.asm) is not modelled.
pub mod Gdt
pub mod Pick
pub mod Invariant
pub mod Steps
pub mod Rotation
mod Tests
use hao_sys.Base.{
  ℕ, zero, suc, ◌+◌, ◌-◌, ◌*◌, ◌/◌, ◌%◌, ◌^◌, Bool, true, false, not, ◌&&◌, ◌||◌, List, [], ◌∷◌,
  Option, none, some, Memory, store, add32, sub32, ◌==◌, ltb, if◌then◌else◌, take, count_up,
}
use hao_sys.Pmm.{alloc_page, free_page}
use hao_sys.Vmm.{
  Vmm, zero_page, write_word, get_phys_addr, unmap_page, destroy_directory, create_directory,
  switch_directory,
}

pub data TaskState : Type 0 where
  task_running : TaskState
  task_ready : TaskState
  task_blocked : TaskState
  task_terminated : TaskState

abbrev pub state_is_ready : TaskState → Bool
state_is_ready s = elim s [ task_ready ↦ true | _ ↦ false ]

pub record Task : Type 0 where
  -- the address of the PCB
  pub addr : ℕ
  pub esp : ℕ
  pub eip : ℕ
  pub pid : ℕ
  pub state : TaskState
  pub kernel_esp0 : ℕ
  pub uid : ℕ
  pub gid : ℕ
  pub euid : ℕ
  pub egid : ℕ
  pub is_user : Bool
  pub page_directory : ℕ
  pub user_virt_pages : List ℕ
  pub name : List ℕ

-- `esp0` is the field of the TSS.
pub record Sched : Type 0 where
  pub tasks : List Task
  pub zombies : List Task
  pub current_task : ℕ
  pub idle_task : ℕ
  pub next_pid : ℕ
  pub esp0 : ℕ
  pub vmm : Vmm

abbrev pub max_tasks : ℕ
max_tasks = 32

unfoldable pub find_task : ℕ → List Task → Option Task
find_task a [] = none
find_task a (t ∷ ts) = let rest = find_task a ts in if t.addr == a then some t else rest

abbrev pub first_addr : List Task → ℕ
first_addr [] = 0
first_addr (t ∷ ts) = t.addr

-- `t->next`, 0 at the end.
unfoldable pub next_addr : ℕ → List Task → ℕ
next_addr a [] = 0
next_addr a (t ∷ ts) = let rest = next_addr a ts in if t.addr == a then first_addr ts else rest

-- `t->next ? t->next : task_list`
unfoldable pub next_or_first : ℕ → List Task → ℕ
next_or_first a ts = if next_addr a ts == 0 then first_addr ts else next_addr a ts

unfoldable pub is_ready : ℕ → List Task → Bool
is_ready a ts = elim (find_task a ts) [ none ↦ false | some t ↦ state_is_ready t.state ]

abbrev pub with_state : TaskState → Task → Task
with_state s t = record t { state = s }

unfoldable pub set_state : ℕ → TaskState → List Task → List Task
set_state a s [] = []
set_state a s (t ∷ ts) = (if t.addr == a then with_state s t else t) ∷ set_state a s ts

-- Unlinks the task.
unfoldable pub remove_task : ℕ → List Task → List Task
remove_task a [] = []
remove_task a (t ∷ ts) = let rest = remove_task a ts in if t.addr == a then ts else t ∷ rest

-- Unmaps and frees the registered pages that are mapped.
unfoldable pub free_user_pages : ℕ → List ℕ → Vmm → Vmm
free_user_pages dir [] v = v
free_user_pages dir (virt ∷ rest) v =
    let phys = get_phys_addr v dir virt in
    let w = (unmap_page v dir virt).1 in
    let freed = record w { pmm = free_page w.pmm phys } in
    free_user_pages dir rest (if phys == 0 then v else freed)

-- The user's pages, the kernel stack, the page directory and the PCB.
unfoldable pub free_task : Task → Vmm → Vmm
free_task t v =
    let dir : ℕ = if t.page_directory == 0 then v.current_directory else t.page_directory in
    let pages = free_user_pages dir (take 96 t.user_virt_pages) v in
    let stack : Vmm =
      if t.kernel_esp0 == 0
      then pages
      else record pages { pmm = free_page pages.pmm (sub32 t.kernel_esp0 4096) } in
    let tables : Vmm =
      if (t.page_directory == 0) || (t.page_directory == stack.current_directory)
      then stack
      else destroy_directory stack t.page_directory in
    record tables { pmm = free_page tables.pmm t.addr }

unfoldable pub reap_zombies : List Task → Vmm → Vmm
reap_zombies [] v = v
reap_zombies (t ∷ ts) v = reap_zombies ts (free_task t v)

-- `while (pick->state != TASK_READY && tries < MAX_TASKS)` after a task ended.
unfoldable pub pick_ready : ℕ → List Task → ℕ → ℕ
pick_ready zero ts a = a
pick_ready (suc tries) ts a =
    let rest = pick_ready tries ts (next_or_first a ts) in if is_ready a ts then a else rest

-- The loop of the normal branch from task `a` on: `none` is the way to `out`.
unfoldable pub find_next : ℕ → List Task → ℕ → ℕ → Option ℕ
find_next zero ts current a = if is_ready a ts then some a else none
find_next (suc tries) ts current a =
    let b = next_or_first a ts in
    let rest = find_next tries ts current b in
    if is_ready a ts then some a else (if b == current then none else rest)

-- The directory of the task that runs next, if it has one of its own.
unfoldable pub enter_directory : ℕ → Vmm → Vmm
enter_directory dir v =
    if (dir == 0) || (dir == v.current_directory) then v else switch_directory v dir

abbrev pub directory_of : ℕ → List Task → ℕ
directory_of a ts = elim (find_task a ts) [ none ↦ 0 | some t ↦ t.page_directory ]

abbrev pub esp0_of : ℕ → List Task → ℕ
esp0_of a ts = elim (find_task a ts) [ none ↦ 0 | some t ↦ t.kernel_esp0 ]

-- The branch for a task that has ended: `none` if no task is left.
unfoldable pub schedule_ended : Task → Sched → Option Sched
schedule_ended t s =
    let left = remove_task t.addr s.tasks in
    let next : ℕ =
      if next_addr t.addr s.tasks == 0 then first_addr left else next_addr t.addr s.tasks in
    let pick = pick_ready max_tasks left next in
    let chosen : ℕ = if is_ready pick left then pick else next in
    if next == 0
    then none
    else some (record s {
      tasks = set_state chosen task_running left;
      zombies = t ∷ s.zombies;
      current_task = chosen;
      vmm = enter_directory (directory_of chosen left) s.vmm;
    })

-- The switch of the normal branch.
unfoldable pub switch_task : ℕ → Sched → Sched
switch_task next s = record s {
  tasks = set_state next task_running (set_state s.current_task task_ready s.tasks);
  zombies = [];
  current_task = next;
  esp0 = if esp0_of next s.tasks == 0 then s.esp0 else esp0_of next s.tasks;
  vmm = enter_directory (directory_of next s.tasks) (reap_zombies s.zombies s.vmm);
}

unfoldable pub schedule_running : Sched → Sched
schedule_running s =
    let next = next_or_first s.current_task s.tasks in
    if next == s.current_task then s else elim (find_next max_tasks s.tasks s.current_task next) [
      | none ↦ s
      | some a ↦ switch_task a s
    ]

-- `none` is the machine halted for want of a task.
unfoldable pub schedule : Sched → Option Sched
schedule s = elim (find_task s.current_task s.tasks) [
  | none ↦ some s
  | some t ↦ elim t.state [ task_terminated ↦ schedule_ended t s | _ ↦ some (schedule_running s) ]
]

-- `task_exit` up to its first `schedule`.
unfoldable pub task_exit : Sched → Option Sched
task_exit s = schedule (record s { tasks = set_state s.current_task task_terminated s.tasks })

abbrev pub task_set_kernel_stack : ℕ → Sched → Sched
task_set_kernel_stack top s = record s { esp0 = top }

-- Words pushed downwards from `top`, the first one highest.
unfoldable pub push_words : List ℕ → ℕ → Vmm → Vmm
push_words [] top v = v
push_words (w ∷ ws) top v = push_words ws (sub32 top 4) (write_word v (sub32 top 4) w)

abbrev pub zeroed : ℕ → Vmm → Vmm
zeroed page v = record v { pmm = record v.pmm { mem = zero_page page v.mem } }

-- What both kinds of creation do last: the next pid, and the head of the list.
unfoldable pub add_task : Sched → Vmm → Task → Sched
add_task s v t = record s { tasks = t ∷ s.tasks; next_pid = add32 s.next_pid 1; vmm = v }

abbrev pub eight_zeros : List ℕ
eight_zeros = 0 ∷ 0 ∷ 0 ∷ 0 ∷ 0 ∷ 0 ∷ 0 ∷ 0 ∷ []

-- The new task, or `none` for NULL. A stack holds the entry, EBP and the frame for `popa`.
unfoldable pub task_create : List ℕ → ℕ → Sched → Option Task × Sched
task_create name entry s =
    let (pcb, p) = alloc_page s.vmm.pmm in
    let v : Vmm = zeroed pcb (record s.vmm { pmm = p }) in
    let (stack, q) = alloc_page v.pmm in
    let w : Vmm = record v { pmm = q } in
    let task : Task = record {
      addr = pcb;
      esp = sub32 (add32 stack 4096) 40;
      eip = entry;
      pid = s.next_pid;
      state = task_ready;
      kernel_esp0 = add32 stack 4096;
      uid = 0;
      gid = 0;
      euid = 0;
      egid = 0;
      is_user = false;
      page_directory = w.current_directory;
      user_virt_pages = [];
      name = take 31 name;
    } in
    if entry == 0
    then (none, s)
    else (if pcb == 0
        then (none, record s { vmm = record s.vmm { pmm = p } })
        else (if stack == 0
            then (none, record s { vmm = record w { pmm = free_page w.pmm pcb } })
            else (
              some task,
              add_task s (push_words (entry ∷ 0 ∷ eight_zeros) (add32 stack 4096) w) task,
            )))

-- The frame for `iret` (SS, ESP, EFLAGS, CS, EIP) and the one of the registers.
abbrev pub user_frame : ℕ → ℕ → List ℕ
user_frame entry stack = 0x23 ∷ add32 stack 4096 ∷ 0x200 ∷ 0x1B ∷ entry ∷ eight_zeros

unfoldable pub task_create_user : List ℕ → ℕ → ℕ → Sched → Option Task × Sched
task_create_user name entry stack s =
    let (pcb, p) = alloc_page s.vmm.pmm in
    let v : Vmm = zeroed pcb (record s.vmm { pmm = p }) in
    let (kstack, q) = alloc_page v.pmm in
    let w : Vmm = record v { pmm = q } in
    let (dir, u) = create_directory w in
    let task : Task = record {
      addr = pcb;
      esp = sub32 (add32 kstack 4096) 52;
      eip = entry;
      pid = s.next_pid;
      state = task_ready;
      kernel_esp0 = add32 kstack 4096;
      uid = 0;
      gid = 0;
      euid = 0;
      egid = 0;
      is_user = true;
      page_directory = dir;
      user_virt_pages = [];
      name = take 31 name;
    } in
    if (entry == 0) || (stack == 0)
    then (none, s)
    else (if pcb == 0
        then (none, record s { vmm = record s.vmm { pmm = p } })
        else (if kstack == 0
            then (none, record s { vmm = record w { pmm = free_page w.pmm pcb } })
            else (if dir == 0
                then (
                  none,
                  record s { vmm = record u { pmm = free_page (free_page u.pmm kstack) pcb } },
                )
                else (
                  some task,
                  add_task s (push_words (user_frame entry stack) (add32 kstack 4096) u) task,
                ))))

-- The idle task, if there is memory for it; `init_gdt_tss` clears the TSS.
unfoldable pub task_init : ℕ → Sched → Sched
task_init idle_loop s =
    let (created, w) = task_create (105 ∷ 100 ∷ 108 ∷ 101 ∷ []) idle_loop (record s { esp0 = 0 }) in
    elim created [
      | none ↦ w
      | some t ↦ record w {
        tasks = record t { state = task_running; kernel_esp0 = 0 } ∷ [];
        current_task = t.addr;
        idle_task = t.addr;
      }
    ]
