-- ===== src/Task/Invariant.antt =====
-- What holds of the task list between two calls of `schedule`.
use hao_sys.Base.{
  ℕ, ◌≡◌, ◌≢◌, refl, sym, ◌∙◌, true, false, List, [], ◌∷◌, some, ◌==◌, ==_refl, has, Distinct,
  arith, Bool-cases, inl, inr,
}
use hao_sys.Task.{
  Task, TaskState, Sched, task_running, first_addr, next_addr, set_state, remove_task,
}
use hao_sys.Task.Pick.{addrs, state_of, state_of-set_state, state_of-absent}

-- No PCB is in the list twice, and the current task is the one that runs.
pub record IsScheduled (s : Sched) : Type 0 where
  pub distinct : Distinct (addrs s.tasks)
  pub runs : state_of s.current_task s.tasks ≡ some task_running
  pub alone : (a : ℕ) → a ≢ s.current_task → state_of a s.tasks ≢ some task_running

pub present :
    (a : ℕ) (ts : List Task) {x : TaskState} → state_of a ts ≡ some x → has a (addrs ts) ≡ true
present a ts h = elim (Bool-cases (has a (addrs ts))) [
  | inl e ↦ e
  | inr e ↦ absurd (let gone = state_of-absent a ts e in cc)
]

-- A task that is set running where no other runs.
pub set_running :
    (a : ℕ) (ts : List Task)
    → has a (addrs ts) ≡ true
    → ((b : ℕ) → b ≢ a → state_of b ts ≢ some task_running)
    → (state_of a (set_state a task_running ts) ≡ some task_running)
      × ((b : ℕ) → b ≢ a → state_of b (set_state a task_running ts) ≢ some task_running)
set_running a ts here alone = (
  state_of-set_state a a task_running ts ∙ rw (==_refl a, here) refl,
  λ b ne h.
      let other : (b == a) ≡ false = ground arith in
      let kept : state_of b (set_state a task_running ts) ≡ state_of b ts =
        state_of-set_state a b task_running ts ∙ rw other refl in
      alone b ne (sym kept ∙ h),
)

pub has-first_addr : (ts : List Task) → first_addr ts ≢ 0 → has (first_addr ts) (addrs ts) ≡ true
has-first_addr [] h = absurd (h refl)
has-first_addr (t ∷ ts) h = rw (==_refl t.addr) refl

-- The successor of a task is in the list without that task.
pub has-next_addr :
    (a : ℕ) (ts : List Task)
    → next_addr a ts ≢ 0
    → has (next_addr a ts) (addrs (remove_task a ts)) ≡ true
unfolding next_addr remove_task
has-next_addr a [] h = absurd (h refl)
has-next_addr a (t ∷ ts) h = elim (Bool-cases (t.addr == a)) [
  | inl e ↦ rw e (has-first_addr ts (λ q. h (rw e q)))
  | inr e ↦ let rest = has-next_addr a ts (λ q. h (rw e q)) in rw e (ground (arith, rest))
]
