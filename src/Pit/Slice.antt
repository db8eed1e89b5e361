-- ===== src/Pit/Slice.antt =====
-- A time slice of driver/pit.c: at the third tick at the latest the next task runs.
use hao_sys.Base.{
  ℕ, zero, suc, ◌+◌, ◌<◌, ◌≤◌, ◌≡◌, refl, sym, ◌∙◌, ap, subst, true, false, List, [], ◌∷◌, some,
  ◌==◌, has, arith, Bool-cases, Option-cases, inl, inr, some-eq, Memory, store, store_self,
  store_ne, add32, leb, ℕ_discrete,
}
use hao_sys.Task.{
  Task, TaskState, Sched, task_running, task_ready, find_task, next_or_first, set_state, find_next,
  max_tasks, switch_task, schedule_running, schedule,
}
use hao_sys.Task.Pick.{addrs}
use hao_sys.Task.Steps.{find_task-none}
use hao_sys.Task.Rotation.{IsRotating, schedule-live, schedule-next}
use hao_sys.Pit.{Pit, time_slice_ticks, runs_user, reschedule, pit_tick_handler, ticks}

abbrev pub AllUser : List Task → Type 0
AllUser [] = Unit {0}
AllUser (t ∷ ts) = (t.is_user ≡ true) × AllUser ts

-- Between ticks: all tasks are the user's, those that do not run are ready, and no slice is full.
pub record IsTicking (p : Pit) : Type 0 where
  pub rotating : IsRotating p.sched
  pub users : AllUser p.sched.tasks
  pub slices : (a : ℕ) → p.ticks_used a < time_slice_ticks

set_state-AllUser :
    (a : ℕ) (s : TaskState) (ts : List Task) → AllUser ts → AllUser (set_state a s ts)
unfolding set_state
set_state-AllUser a s [] h = tt
set_state-AllUser a s (t ∷ ts) (u, h) = elim (Bool-cases (t.addr == a)) [
  | inl e ↦ rw e (u, set_state-AllUser a s ts h)
  | inr e ↦ rw e (u, set_state-AllUser a s ts h)
]

schedule_running-AllUser : (s : Sched) → AllUser s.tasks → AllUser (schedule_running s).tasks
unfolding schedule_running switch_task
schedule_running-AllUser s h =
    let next = next_or_first s.current_task s.tasks in
    elim (Bool-cases (next == s.current_task)) [
      | inl e ↦ rw (schedule_running, e) h
      | inr e ↦ elim (Option-cases (find_next max_tasks s.tasks s.current_task next)) [
        | inl n ↦ rw (schedule_running, e, n) h
        | inr (a, f) ↦
            rw (schedule_running, e, f)
              (set_state-AllUser a task_running _
                (set_state-AllUser s.current_task task_ready s.tasks h))
      ]
    ]

find_task-AllUser :
    (a : ℕ) (ts : List Task) (t : Task) → AllUser ts → find_task a ts ≡ some t → t.is_user ≡ true
unfolding find_task
find_task-AllUser a [] t h e = absurd (cc)
find_task-AllUser a (u ∷ ts) t (v, h) e = elim (Bool-cases (u.addr == a)) [
  | inl q ↦ let same : u ≡ t = some-eq (rw q at e) in ap (λ x. x.is_user) (sym same) ∙ v
  | inr q ↦ find_task-AllUser a ts t h (rw q at e)
]

ticking-runs_user : (p : Pit) → IsTicking p → runs_user p.sched ≡ true
ticking-runs_user p h = elim (Option-cases (find_task p.sched.current_task p.sched.tasks)) [
  | inl n ↦ absurd (
      let gone = find_task-none p.sched.current_task p.sched.tasks n in
      let runs = h.rotating.order.runs in cc)
  | inr (t, f) ↦
      rw (runs_user, f) (find_task-AllUser p.sched.current_task p.sched.tasks t h.users f)
]

-- A tick inside the slice.
abbrev pub counted : Pit → Pit
counted p = record p {
  pit_ticks = add32 p.pit_ticks 1;
  ticks_used =
      store p.ticks_used p.sched.current_task (add32 (p.ticks_used p.sched.current_task) 1);
}

abbrev pub slice_over : Pit → Pit
slice_over p = record p {
  pit_ticks = add32 p.pit_ticks 1;
  ticks_used = store p.ticks_used p.sched.current_task 0;
}

tick-inside :
    (p : Pit)
    → IsTicking p
    → p.ticks_used p.sched.current_task < 2
    → pit_tick_handler p ≡ some (counted p)
unfolding pit_tick_handler
tick-inside p h l =
    let few : leb 3 (add32 (p.ticks_used p.sched.current_task) 1) ≡ false = ground arith in
    rw (pit_tick_handler, ticking-runs_user p h, few) refl

tick-last :
    (p : Pit)
    → IsTicking p
    → p.ticks_used p.sched.current_task ≡ 2
    → pit_tick_handler p ≡ reschedule (slice_over p)
unfolding pit_tick_handler
tick-last p h e =
    let full : leb 3 (add32 (p.ticks_used p.sched.current_task) 1) ≡ true = ground arith in
    rw (pit_tick_handler, ticking-runs_user p h, full) refl

store-slices : (m : Memory) (c v : ℕ) → ((a : ℕ) → m a < 3) → v < 3 → (a : ℕ) → store m c v a < 3
store-slices m c v h l a = elim (ℕ_discrete a c) [
  | yes e ↦ rw (e, store_self m c v) l
  | no e ↦ rw (store_ne m c v a e) (h a)
]

-- Some ticks, at most `bound`, after which `next` runs and the list has the same tasks.
pub record Reaches (p : Pit) (bound next : ℕ) : Type 0 where
  pub count : ℕ
  pub after : Pit
  pub few : count ≤ bound
  pub run : ticks count p ≡ some after
  pub ticking : IsTicking after
  pub now : after.sched.current_task ≡ next
  pub names : addrs after.sched.tasks ≡ addrs p.sched.tasks

ticks-one : (p q : Pit) → pit_tick_handler p ≡ some q → ticks 1 p ≡ some q
unfolding ticks
ticks-one p q e = rw (ticks, e) refl

ticks-more : (n : ℕ) (p q : Pit) → pit_tick_handler p ≡ some q → ticks (suc n) p ≡ ticks n q
unfolding ticks
ticks-more n p q e = rw (ticks, e) refl

rescheduled :
    (p : Pit) (s' : Sched)
    → schedule p.sched ≡ some s'
    → reschedule p ≡ some (record p { sched = s' })
rescheduled p s' e = rw (reschedule, e) refl

last-Reaches :
    (p : Pit) (next : ℕ)
    → IsTicking p
    → p.ticks_used p.sched.current_task ≡ 2
    → next_or_first p.sched.current_task p.sched.tasks ≡ next
    → has next (addrs p.sched.tasks) ≡ true
    → Reaches p 1 next
last-Reaches p next h used e here =
    let (s', runs, rotating, now, names) = schedule-next next h.rotating e here in
    let same : schedule_running p.sched ≡ s' =
      some-eq (sym (schedule-live h.rotating.order) ∙ runs) in
    record {
      count = 1;
      after = record (slice_over p) { sched = s' };
      few = omega arith;
      run = ticks-one p _ (tick-last p h used ∙ rescheduled (slice_over p) s' runs);
      ticking = record {
        rotating = rotating;
        users = subst (λ s. AllUser s.tasks) same (schedule_running-AllUser p.sched h.users);
        slices = store-slices p.ticks_used p.sched.current_task 0 h.slices (omega arith);
      };
      now = now;
      names = names;
    }

counted-IsTicking :
    (p : Pit) → IsTicking p → p.ticks_used p.sched.current_task < 2 → IsTicking (counted p)
counted-IsTicking p h l = record {
  rotating = h.rotating;
  users = h.users;
  slices = store-slices p.ticks_used p.sched.current_task _ h.slices (omega arith);
}

-- `left` ticks are left of the slice.
pub slice-Reaches :
    (left : ℕ) (p : Pit) (next : ℕ)
    → IsTicking p
    → p.ticks_used p.sched.current_task + suc left ≡ 3
    → next_or_first p.sched.current_task p.sched.tasks ≡ next
    → has next (addrs p.sched.tasks) ≡ true
    → Reaches p (suc left) next
slice-Reaches zero p next h used e here = last-Reaches p next h (omega arith) e here
slice-Reaches (suc left) p next h used e here =
    let inside : p.ticks_used p.sched.current_task < 2 = omega arith in
    let c = p.sched.current_task in
    let more : (counted p).ticks_used c + suc left ≡ 3 =
      rw (store_self p.ticks_used c (add32 (p.ticks_used c) 1)) (omega arith) in
    let r = slice-Reaches left (counted p) next (counted-IsTicking p h inside) more e here in
    record {
      count = suc r.count;
      after = r.after;
      few = omega (arith, r.few);
      run = ticks-more r.count p (counted p) (tick-inside p h inside) ∙ r.run;
      ticking = r.ticking;
      now = r.now;
      names = r.names;
    }
