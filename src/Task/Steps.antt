-- ===== src/Task/Steps.antt =====
-- `schedule` and `task_exit` of proc/task.c keep the task list in order.
use hao_sys.Base.{
  ℕ, ◌≡◌, ◌≢◌, refl, sym, ◌∙◌, ap, subst, true, false, ◌||◌, List, [], ◌∷◌, none, some, ◌==◌,
  ==_iff, ==_refl, if◌then◌else◌, has, Distinct, arith, Bool-cases, Option-cases, inl, inr, some-eq,
  ◌⊎◌,
}
use hao_sys.Vmm.{Vmm, switch_directory}
use hao_sys.Task.{
  Task, Sched, task_running, task_ready, task_terminated, find_task, first_addr, next_addr,
  next_or_first, is_ready, set_state, remove_task, pick_ready, find_next, max_tasks,
  enter_directory, schedule_ended, switch_task, schedule_running, schedule, task_exit,
}
use hao_sys.Task.Pick.{
  addrs, state_of, addrs-set_state, state_of-set_state, state_of-remove_task, Distinct-remove_task,
  is_ready-state_of, find_next-is_ready,
}
use hao_sys.Task.Invariant.{IsScheduled, present, set_running, has-first_addr, has-next_addr}

pub find_task-state_of :
    (a : ℕ) (ts : List Task) {t : Task}
    → find_task a ts ≡ some t
    → (state_of a ts ≡ some t.state) × (t.addr ≡ a)
unfolding find_task state_of
find_task-state_of a [] h = absurd (cc)
find_task-state_of a (u ∷ ts) {t} h = elim (Bool-cases (u.addr == a)) [
  | inl e ↦
      let q : u ≡ t = some-eq (rw e at h) in
      (rw e (ap (λ x. some x.state) q), ap (λ x. x.addr) (sym q) ∙ (==_iff u.addr a).0 e)
  | inr e ↦ let (p, q) = find_task-state_of a ts (rw e at h) in (rw e p, q)
]

pub find_task-none : (a : ℕ) (ts : List Task) → find_task a ts ≡ none → state_of a ts ≡ none
unfolding find_task state_of
find_task-none a [] h = refl
find_task-none a (u ∷ ts) h = elim (Bool-cases (u.addr == a)) [
  | inl e ↦ absurd (let h' = rw e at h in cc)
  | inr e ↦ rw e (find_task-none a ts (rw e at h))
]

state_of-none : (a : ℕ) (ts : List Task) → state_of a ts ≡ none → has a (addrs ts) ≡ false
unfolding state_of
state_of-none a [] h = refl
state_of-none a (u ∷ ts) h = elim (Bool-cases (u.addr == a)) [
  | inl e ↦ absurd (let h' = rw e at h in cc)
  | inr e ↦ ground (arith, e, state_of-none a ts (rw e at h))
]

-- A switch to a ready task: it runs, and the task that ran is ready.
abbrev pub Switched : Sched → Sched → Type 0
Switched s s' =
    (state_of s'.current_task s.tasks ≡ some task_ready)
    × (state_of s.current_task s'.tasks ≡ some task_ready)
    × (s'.zombies ≡ [])

pub switch_task-lem :
    {s : Sched} (next : ℕ)
    → IsScheduled s
    → is_ready next s.tasks ≡ true
    → IsScheduled (switch_task next s) × Switched s (switch_task next s)
unfolding switch_task
switch_task-lem {s} next i ready =
    let cur = s.current_task in
    let mid = set_state cur task_ready s.tasks in
    let was = is_ready-state_of next s.tasks ready in
    let here = present next s.tasks was in
    let cur_here = present cur s.tasks i.runs in
    let apart : next ≢ cur = λ q. let h = i.runs in let w = rw q at was in cc in
    let in_mid : has next (addrs mid) ≡ true = rw (addrs-set_state cur task_ready s.tasks) here in
    let none_runs : (b : ℕ) → b ≢ next → state_of b mid ≢ some task_running = λ b ne h.
      elim (Bool-cases (b == cur)) [
        | inl e ↦
            let now : state_of b mid ≡ some task_ready =
              state_of-set_state cur b task_ready s.tasks ∙ rw (e, cur_here) refl in
            cc
        | inr e ↦
            let kept : state_of b mid ≡ state_of b s.tasks =
              state_of-set_state cur b task_ready s.tasks ∙ rw e refl in
            i.alone b (ground arith) (sym kept ∙ h)
      ] in
    let (runs, alone) = set_running next mid in_mid none_runs in
    let cur_next : (cur == next) ≡ false = ground arith in
    let cur_now : state_of cur (set_state next task_running mid) ≡ some task_ready =
      state_of-set_state next cur task_running mid
      ∙ rw cur_next
          (state_of-set_state cur cur task_ready s.tasks ∙ rw (==_refl cur, cur_here) refl) in
    let same : addrs (set_state next task_running mid) ≡ addrs s.tasks =
      addrs-set_state next task_running mid ∙ addrs-set_state cur task_ready s.tasks in
    (record { distinct = rw same i.distinct; runs = runs; alone = alone }, (was, cur_now, refl))

schedule_running-lem :
    {s : Sched}
    → IsScheduled s
    → IsScheduled (schedule_running s)
      × ((schedule_running s ≡ s) ⊎ Switched s (schedule_running s))
unfolding schedule_running
schedule_running-lem {s} i =
    let next = next_or_first s.current_task s.tasks in
    elim (Bool-cases (next == s.current_task)) [
      | inl e ↦ rw e (i, inl refl)
      | inr e ↦ elim (Option-cases (find_next max_tasks s.tasks s.current_task next)) [
        | inl n ↦ rw (e, n) (i, inl refl)
        | inr (a, f) ↦
            let (j, k) =
              switch_task-lem a i (find_next-is_ready max_tasks s.current_task next s.tasks f) in
            rw (e, f) (j, inr k)
      ]
    ]

pub schedule-IsScheduled :
    {s : Sched}
    → IsScheduled s
    → (s' : Sched) × (schedule s ≡ some s') × IsScheduled s' × ((s' ≡ s) ⊎ Switched s s')
unfolding schedule
schedule-IsScheduled {s} i = elim (Option-cases (find_task s.current_task s.tasks)) [
  | inl n ↦ absurd (let gone = find_task-none s.current_task s.tasks n in let h = i.runs in cc)
  | inr (t, f) ↦
      let state : t.state ≡ task_running =
        some-eq (sym (find_task-state_of s.current_task s.tasks f).0 ∙ i.runs) in
      let (j, k) = schedule_running-lem i in
      (schedule_running s, rw (schedule, f, state) refl, j, k)
]

-- What is left when a task ends: it is off the list and kept for later, and nothing is freed yet.
pub record Ended (s s' : Sched) : Type 0 where
  pub order : IsScheduled s'
  pub gone : has s.current_task (addrs s'.tasks) ≡ false
  pub same_stack : s'.esp0 ≡ s.esp0
  pub same_memory : s'.vmm.pmm ≡ s.vmm.pmm

enter_directory-pmm : (dir : ℕ) (v : Vmm) → (enter_directory dir v).pmm ≡ v.pmm
unfolding enter_directory switch_directory
enter_directory-pmm dir v = elim (Bool-cases ((dir == 0) || (dir == v.current_directory))) [
  | inl e ↦ rw e refl
  | inr e ↦ elim (Bool-cases (dir == 0)) [ inl f ↦ rw (e, f) refl | inr f ↦ rw (e, f) refl ]
]

schedule_ended-lem :
    {s s' : Sched} (t : Task)
    → Distinct (addrs s.tasks)
    → t.addr ≡ s.current_task
    → ((a : ℕ) → state_of a s.tasks ≢ some task_running)
    → schedule_ended t s ≡ some s'
    → Ended s s'
unfolding schedule_ended
schedule_ended-lem {s} {s'} t d at none_runs h =
    let left = remove_task t.addr s.tasks in
    let next : ℕ =
      if next_addr t.addr s.tasks == 0 then first_addr left else next_addr t.addr s.tasks in
    let pick = pick_ready max_tasks left next in
    let chosen : ℕ = if is_ready pick left then pick else next in
    elim (Bool-cases (next == 0)) [
      | inl e ↦ absurd (let h' = rw e at h in cc)
      | inr e ↦
          let result = some-eq (rw e at h) in
          let next_here : has next (addrs left) ≡ true =
            elim (Bool-cases (next_addr t.addr s.tasks == 0)) [
              | inl z ↦ rw z (has-first_addr left (λ q. let e' = rw z at e in ground arith))
              | inr z ↦ rw z (has-next_addr t.addr s.tasks (λ q. ground arith))
            ] in
          let here : has chosen (addrs left) ≡ true = elim (Bool-cases (is_ready pick left)) [
            | inl r ↦ rw r (present pick left (is_ready-state_of pick left r))
            | inr r ↦ rw r next_here
          ] in
          let quiet : (b : ℕ) → b ≢ chosen → state_of b left ≢ some task_running = λ b ne r.
            elim (Bool-cases (b == t.addr)) [
              | inl q ↦
                  let gone : state_of b left ≡ none =
                    state_of-remove_task t.addr b s.tasks d ∙ rw q refl in
                  cc
              | inr q ↦
                  let kept = state_of-remove_task t.addr b s.tasks d ∙ rw q refl in
                  none_runs b (sym kept ∙ r)
            ] in
          let (runs, alone) = set_running chosen left here quiet in
          let off : has t.addr (addrs left) ≡ false =
            state_of-none t.addr left
              (state_of-remove_task t.addr t.addr s.tasks d ∙ rw (==_refl t.addr) refl) in
          let names = addrs-set_state chosen task_running left in
          subst (Ended s) result (record {
            order = record {
              distinct = rw names (Distinct-remove_task t.addr s.tasks d);
              runs = runs;
              alone = alone;
            };
            gone = rw (← at) (rw names off);
            same_stack = refl;
            same_memory = enter_directory-pmm _ s.vmm;
          })
    ]

pub task_exit-Ended : {s s' : Sched} → IsScheduled s → task_exit s ≡ some s' → Ended s s'
unfolding task_exit schedule
task_exit-Ended {s} {s'} i h =
    let cur = s.current_task in
    let ts = set_state cur task_terminated s.tasks in
    let here = present cur s.tasks i.runs in
    let names = addrs-set_state cur task_terminated s.tasks in
    let now : state_of cur ts ≡ some task_terminated =
      state_of-set_state cur cur task_terminated s.tasks ∙ rw (==_refl cur, here) refl in
    let quiet : (a : ℕ) → state_of a ts ≢ some task_running = λ a r. elim (Bool-cases (a == cur)) [
      | inl e ↦
          let q : state_of a ts ≡ some task_terminated =
            state_of-set_state cur a task_terminated s.tasks ∙ rw (e, here) refl in
          cc
      | inr e ↦
          let kept = state_of-set_state cur a task_terminated s.tasks ∙ rw e refl in
          i.alone a (λ q. ground arith) (sym kept ∙ r)
    ] in
    elim (Option-cases (find_task cur ts)) [
      | inl n ↦ absurd (let gone = find_task-none cur ts n in cc)
      | inr (t, f) ↦
          let (state, at) = find_task-state_of cur ts f in
          let ended : t.state ≡ task_terminated = some-eq (sym state ∙ now) in
          let e =
            schedule_ended-lem {s = record s { tasks = ts }} t (rw names i.distinct) at quiet
              (rw (schedule, f, ended) at h) in
          record {
            order = e.order;
            gone = e.gone;
            same_stack = e.same_stack;
            same_memory = e.same_memory;
          }
    ]
