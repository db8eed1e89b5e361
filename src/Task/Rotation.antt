-- ===== src/Task/Rotation.antt =====
-- `schedule` of proc/task.c where every task but the current one is ready: it goes round the list.
use hao_sys.Base.{
  ℕ, zero, suc, ◌≡◌, ◌≢◌, refl, sym, ◌∙◌, ap, true, false, List, [], ◌∷◌, none, some, ◌==◌, ==_iff,
  ==_refl, has, Distinct, arith, Bool-cases, Option-cases, inl, inr, some-eq, nth,
}
use hao_sys.Task.{
  Task, Sched, task_running, task_ready, find_task, next_addr, next_or_first, is_ready, set_state,
  find_next, max_tasks, switch_task, schedule_running, schedule,
}
use hao_sys.Task.Pick.{addrs, state_of, addrs-set_state, state_of-set_state}
use hao_sys.Task.Invariant.{IsScheduled, present}
use hao_sys.Task.Steps.{switch_task-lem, find_task-state_of, find_task-none}

-- No PCB is at address 0, and the tasks that do not run are ready.
pub record IsRotating (s : Sched) : Type 0 where
  pub order : IsScheduled s
  pub no_null : has 0 (addrs s.tasks) ≡ false
  pub ready :
      (a : ℕ)
      → has a (addrs s.tasks) ≡ true
      → a ≢ s.current_task
      → state_of a s.tasks ≡ some task_ready

pub nth-has : (xs : List ℕ) (i a : ℕ) → nth xs i ≡ some a → has a xs ≡ true
nth-has [] i a e = absurd (cc)
nth-has (x ∷ xs) zero a e = let q : x ≡ a = some-eq e in rw (q, ==_refl a) refl
nth-has (x ∷ xs) (suc i) a e = ground (arith, nth-has xs i a e)

pub has-nth : (xs : List ℕ) (a : ℕ) → has a xs ≡ true → (i : ℕ) × (nth xs i ≡ some a)
has-nth [] a h = absurd (cc)
has-nth (x ∷ xs) a h = elim (Bool-cases (a == x)) [
  | inl e ↦ (0, ap some (sym ((==_iff a x).0 e)))
  | inr e ↦ let (i, there) = has-nth xs a (rw e at h) in (suc i, there)
]

has_distinct : (xs : List ℕ) (x a : ℕ) → has x xs ≡ false → has a xs ≡ true → (x == a) ≡ false
has_distinct xs x a out here = elim (Bool-cases (x == a)) [
  | inr e ↦ e
  | inl e ↦ let q : x ≡ a = (==_iff x a).0 e in absurd (let h = rw q at out in cc)
]

-- The successor of the task at place `i`.
next_addr-inside :
    (ts : List Task) (i a b : ℕ)
    → Distinct (addrs ts)
    → nth (addrs ts) i ≡ some a
    → nth (addrs ts) (suc i) ≡ some b
    → next_addr a ts ≡ b
unfolding next_addr
next_addr-inside [] i a b d e f = absurd (cc)
next_addr-inside (t ∷ []) zero a b d e f = absurd (cc)
next_addr-inside (t ∷ u ∷ ts) zero a b d e f =
    let q : t.addr ≡ a = some-eq e in let r : u.addr ≡ b = some-eq f in rw (q, ==_refl a) r
next_addr-inside (t ∷ ts) (suc i) a b (out, d) e f =
    rw (has_distinct (addrs ts) t.addr a out (nth-has (addrs ts) i a e))
      (next_addr-inside ts i a b d e f)

next_addr-last :
    (ts : List Task) (i a : ℕ)
    → Distinct (addrs ts)
    → nth (addrs ts) i ≡ some a
    → nth (addrs ts) (suc i) ≡ none
    → next_addr a ts ≡ 0
unfolding next_addr
next_addr-last [] i a d e f = absurd (cc)
next_addr-last (t ∷ []) zero a d e f = let q : t.addr ≡ a = some-eq e in rw (q, ==_refl a) refl
next_addr-last (t ∷ u ∷ ts) zero a d e f = absurd (cc)
next_addr-last (t ∷ ts) (suc i) a (out, d) e f =
    rw (has_distinct (addrs ts) t.addr a out (nth-has (addrs ts) i a e))
      (next_addr-last ts i a d e f)

not_null : (xs : List ℕ) (i b : ℕ) → has 0 xs ≡ false → nth xs i ≡ some b → (b == 0) ≡ false
not_null xs i b h e = elim (Bool-cases (b == 0)) [
  | inr f ↦ f
  | inl f ↦
      let q : b ≡ 0 = (==_iff b 0).0 f in
      absurd (let g = nth-has xs i b e in let g' = rw q at g in cc)
]

pub next_or_first-inside :
    (ts : List Task) (i a b : ℕ)
    → Distinct (addrs ts)
    → has 0 (addrs ts) ≡ false
    → nth (addrs ts) i ≡ some a
    → nth (addrs ts) (suc i) ≡ some b
    → next_or_first a ts ≡ b
unfolding next_or_first
next_or_first-inside ts i a b d z e f =
    rw (next_addr-inside ts i a b d e f, not_null (addrs ts) (suc i) b z f) refl

pub next_or_first-last :
    (ts : List Task) (i a b : ℕ)
    → Distinct (addrs ts)
    → nth (addrs ts) i ≡ some a
    → nth (addrs ts) (suc i) ≡ none
    → nth (addrs ts) 0 ≡ some b
    → next_or_first a ts ≡ b
unfolding next_or_first
next_or_first-last [] i a b d e f g = absurd (cc)
next_or_first-last (t ∷ ts) i a b d e f g = rw (next_addr-last (t ∷ ts) i a d e f) (some-eq g)

is_ready-intro : (a : ℕ) (ts : List Task) → state_of a ts ≡ some task_ready → is_ready a ts ≡ true
unfolding is_ready
is_ready-intro a ts h = elim (Option-cases (find_task a ts)) [
  | inl n ↦ absurd (let gone = find_task-none a ts n in cc)
  | inr (t, f) ↦
      let q : t.state ≡ task_ready = some-eq (sym (find_task-state_of a ts f).0 ∙ h) in
      rw (is_ready, f, q) refl
]

find_next-here :
    (tries : ℕ) (ts : List Task) (current a : ℕ)
    → is_ready a ts ≡ true
    → find_next tries ts current a ≡ some a
unfolding find_next
find_next-here zero ts current a h = rw h refl
find_next-here (suc tries) ts current a h = rw h refl

pub schedule-live : {s : Sched} → IsScheduled s → schedule s ≡ some (schedule_running s)
unfolding schedule
schedule-live {s} i = elim (Option-cases (find_task s.current_task s.tasks)) [
  | inl n ↦ absurd (let gone = find_task-none s.current_task s.tasks n in let h = i.runs in cc)
  | inr (t, f) ↦
      let state : t.state ≡ task_running =
        some-eq (sym (find_task-state_of s.current_task s.tasks f).0 ∙ i.runs) in
      rw (schedule, f, state) refl
]

switched-current : (next : ℕ) (s : Sched) → (switch_task next s).current_task ≡ next
unfolding switch_task
switched-current next s = refl

switched-addrs : (next : ℕ) (s : Sched) → addrs (switch_task next s).tasks ≡ addrs s.tasks
unfolding switch_task
switched-addrs next s =
    addrs-set_state next task_running (set_state s.current_task task_ready s.tasks)
    ∙ addrs-set_state s.current_task task_ready s.tasks

-- After a switch the tasks that do not run are ready.
switched-ready :
    (next : ℕ) (s : Sched) (a : ℕ)
    → IsRotating s
    → has a (addrs s.tasks) ≡ true
    → a ≢ next
    → state_of a (switch_task next s).tasks ≡ some task_ready
unfolding switch_task
switched-ready next s a r here ne =
    let cur = s.current_task in
    let other : (a == next) ≡ false = ground arith in
    state_of-set_state next a task_running (set_state cur task_ready s.tasks)
    ∙ rw other (
        state_of-set_state cur a task_ready s.tasks ∙ elim (Bool-cases (a == cur)) [
          | inl e ↦ rw (e, present cur s.tasks r.order.runs) refl
          | inr e ↦ rw e (r.ready a here (λ q. ground arith))
        ])

running-switch :
    (s : Sched) (next : ℕ)
    → next_or_first s.current_task s.tasks ≡ next
    → (next == s.current_task) ≡ false
    → is_ready next s.tasks ≡ true
    → schedule_running s ≡ switch_task next s
unfolding schedule_running
running-switch s next e other ready =
    rw (schedule_running, e, other, find_next-here max_tasks s.tasks s.current_task next ready) refl

running-stays :
    (s : Sched) (next : ℕ)
    → next_or_first s.current_task s.tasks ≡ next
    → (next == s.current_task) ≡ true
    → schedule_running s ≡ s
unfolding schedule_running
running-stays s next e same = rw (schedule_running, e, same) refl

-- A round: the successor of the current task runs, and the tasks are the same.
pub schedule-next :
    {s : Sched} (next : ℕ)
    → IsRotating s
    → next_or_first s.current_task s.tasks ≡ next
    → has next (addrs s.tasks) ≡ true
    → (s' : Sched) × (schedule s ≡ some s')
      × IsRotating s'
      × (s'.current_task ≡ next)
      × (addrs s'.tasks ≡ addrs s.tasks)
schedule-next {s} next r e here = elim (Bool-cases (next == s.current_task)) [
  | inl same ↦ (
    s,
    schedule-live r.order ∙ ap some (running-stays s next e same),
    r,
    sym ((==_iff next s.current_task).0 same),
    refl,
  )
  | inr other ↦
      let ready = is_ready-intro next s.tasks (r.ready next here (λ q. ground arith)) in
      let (order, k) = switch_task-lem next r.order ready in
      let names = switched-addrs next s in
      (
        switch_task next s,
        schedule-live r.order ∙ ap some (running-switch s next e other ready),
        record {
          order = order;
          no_null = rw names r.no_null;
          ready = λ a h ne.
              switched-ready next s a r (rw names at h)
                (λ q. ne (q ∙ sym (switched-current next s)));
        },
        switched-current next s,
        names,
      )
]
