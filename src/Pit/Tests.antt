-- ===== src/Pit/Tests.antt =====
-- Two tasks of a user: the first runs, the second is ready.
use hao_sys.Base.{
  ℕ, ◌≡◌, ◌≢◌, refl, true, false, [], ◌∷◌, some, ◌==◌, arith, Bool-cases, inl, inr, has, length,
  ◌*◌,
}
use hao_sys.Pmm.Tests.{two_free}
use hao_sys.Task.{Task, task_running, task_ready}
use hao_sys.Task.Pick.{addrs, state_of}
use hao_sys.Pit.{Pit, divisor}
use hao_sys.Pit.Slice.{IsTicking, Reaches}
use hao_sys.Pit.Fair.{tick-Reaches}

abbrev first : Task
first = record {
  addr = 4096;
  esp = 8192;
  eip = 100;
  pid = 1;
  state = task_running;
  kernel_esp0 = 0;
  uid = 0;
  gid = 0;
  euid = 0;
  egid = 0;
  is_user = true;
  page_directory = 4096;
  user_virt_pages = [];
  name = [];
}

abbrev second : Task
second = record first { addr = 20480; pid = 2; state = task_ready }

abbrev pair : Pit
pair = record {
  pit_ticks = 0;
  ticks_used = λ a. 0;
  sched = record {
    tasks = second ∷ first ∷ [];
    zombies = [];
    current_task = 4096;
    idle_task = 4096;
    next_pid = 3;
    esp0 = 0;
    vmm = record { pmm = two_free; current_directory = 4096; kernel_directory = 4096 };
  };
}

other_states : (a : ℕ) → a ≢ 4096 → state_of a (second ∷ first ∷ []) ≢ some task_running
unfolding state_of
other_states a ne h = elim (Bool-cases (20480 == a)) [
  | inl e ↦ absurd (let h' = rw e at h in cc)
  | inr e ↦ let f : (4096 == a) ≡ false = ground arith in absurd (let h' = rw (e, f) at h in cc)
]

ready_states :
    (a : ℕ)
    → has a (addrs (second ∷ first ∷ [])) ≡ true
    → a ≢ 4096
    → state_of a (second ∷ first ∷ []) ≡ some task_ready
unfolding state_of
ready_states a h ne =
    let f : (a == 4096) ≡ false = ground arith in
    elim (Bool-cases (20480 == a)) [
      | inl e ↦ rw e refl
      | inr e ↦
          let g : (a == 20480) ≡ false = ground arith in absurd (let h' = rw (f, g) at h in cc)
    ]

pair-IsTicking : IsTicking pair
unfolding state_of
pair-IsTicking = record {
  rotating = record {
    order = record { distinct = (refl, (refl, tt)); runs = refl; alone = other_states };
    no_null = refl;
    ready = ready_states;
  };
  users = (refl, (refl, tt));
  slices = λ a. omega arith;
}

tick-Reaches_example : Reaches pair (3 * length (addrs pair.sched.tasks)) 20480
tick-Reaches_example = tick-Reaches pair 20480 pair-IsTicking refl

divisor-100 : divisor 100 ≡ 11931
unfolding divisor
divisor-100 = refl
