-- ===== src/Task/Tests.antt =====
-- Two tasks: the first runs, the second is a user task that is ready.
use hao_sys.Base.{
  ℕ, ◌≡◌, ◌≢◌, refl, true, false, [], ◌∷◌, none, some, ◌==◌, arith, Bool-cases, inl, inr, ◌⊎◌, ◌^◌,
  ◌%◌, ◌/◌,
}
use hao_sys.Pmm.Tests.{two_free}
use hao_sys.Vmm.{switch_directory}
use hao_sys.Task.{
  Task, Sched, task_running, task_ready, schedule, task_exit, find_task, is_ready, set_state,
  remove_task, schedule_ended, next_addr, pick_ready, enter_directory,
}
use hao_sys.Task.Gdt.{gdt_set_gate, base_of, limit_of, gdt_set_gate_lem}
use hao_sys.Task.Pick.{state_of}
use hao_sys.Task.Invariant.{IsScheduled}
use hao_sys.Task.Steps.{Switched, Ended, schedule-IsScheduled, task_exit-Ended}

abbrev idle : Task
idle = record {
  addr = 4096;
  esp = 8192;
  eip = 100;
  pid = 1;
  state = task_running;
  kernel_esp0 = 0;
  uid = 0;
  gid = 0;
  euid = 0;
  egid = 0;
  is_user = false;
  page_directory = 4096;
  user_virt_pages = [];
  name = [];
}

abbrev shell : Task
shell = record idle {
  addr = 20480;
  pid = 2;
  state = task_ready;
  kernel_esp0 = 28672;
  is_user = true;
  page_directory = 32768;
}

abbrev two_tasks : Sched
two_tasks = record {
  tasks = shell ∷ idle ∷ [];
  zombies = [];
  current_task = 4096;
  idle_task = 4096;
  next_pid = 3;
  esp0 = 0;
  vmm = record { pmm = two_free; current_directory = 4096; kernel_directory = 4096 };
}

two_tasks-IsScheduled : IsScheduled two_tasks
unfolding state_of
two_tasks-IsScheduled = record {
  distinct = (refl, (refl, tt));
  runs = refl;
  alone = λ a ne. alone a ne;
}
  where
    alone : (a : ℕ) → a ≢ 4096 → state_of a (shell ∷ idle ∷ []) ≢ some task_running
    alone a ne h = elim (Bool-cases (20480 == a)) [
      | inl e ↦ absurd (let h' = rw e at h in cc)
      | inr e ↦ let f : (4096 == a) ≡ false = ground arith in absurd (let h' = rw (e, f) at h in cc)
    ]

schedule-IsScheduled_example :
    (s' : Sched) × (schedule two_tasks ≡ some s')
    × IsScheduled s'
    × ((s' ≡ two_tasks) ⊎ Switched two_tasks s')
schedule-IsScheduled_example = schedule-IsScheduled two_tasks-IsScheduled

-- What the end of the first task leaves.
after_exit : Sched
unfolding task_exit
after_exit = elim (task_exit two_tasks) [ some s ↦ s | none ↦ two_tasks ]

exits : task_exit two_tasks ≡ some after_exit
unfolding after_exit schedule find_task is_ready set_state remove_task schedule_ended next_addr
    pick_ready enter_directory switch_directory
exits = refl

task_exit-Ended_example : Ended two_tasks after_exit
task_exit-Ended_example = task_exit-Ended two_tasks-IsScheduled exits

shell_runs : (after_exit.current_task ≡ 20480) × (after_exit.esp0 ≡ 0)
unfolding after_exit schedule find_task is_ready set_state remove_task schedule_ended next_addr
    pick_ready enter_directory switch_directory
shell_runs = (refl, refl)

gdt_set_gate_lem_example :
    let e = gdt_set_gate 0x123456 103 0x89 0x40 in
    (base_of e ≡ 0x123456)
    × (limit_of e ≡ 103 % 2 ^ 20)
    × (e.granularity / 2 ^ 4 ≡ 0x40 % 2 ^ 8 / 2 ^ 4)
gdt_set_gate_lem_example = gdt_set_gate_lem 0x123456 103 0x89 0x40 (omega arith)
