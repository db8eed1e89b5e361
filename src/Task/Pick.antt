-- ===== src/Task/Pick.antt =====
-- The task list of proc/task.c: lookups after a change of state and after an unlinking.
use hao_sys.Base.{
  ℕ, zero, suc, ◌≡◌, refl, true, false, ◌&&◌, List, [], ◌∷◌, Option, none, some, ◌==◌,
  if◌then◌else◌, has, Distinct, arith, Bool-cases, inl, inr, some-eq,
}
use hao_sys.Task.{
  Task, TaskState, task_running, task_ready, task_blocked, task_terminated, state_is_ready,
  find_task, next_or_first, is_ready, set_state, remove_task, find_next,
}

abbrev pub addrs : List Task → List ℕ
addrs [] = []
addrs (t ∷ ts) = t.addr ∷ addrs ts

-- The state of the task at an address.
unfoldable pub state_of : ℕ → List Task → Option TaskState
state_of a [] = none
state_of a (t ∷ ts) = let rest = state_of a ts in if t.addr == a then some t.state else rest

pub addrs-set_state : (a : ℕ) (s : TaskState) (ts : List Task) → addrs (set_state a s ts) ≡ addrs ts
unfolding set_state
addrs-set_state a s [] = refl
addrs-set_state a s (t ∷ ts) = elim (Bool-cases (t.addr == a)) [
  | inl e ↦ rw (e, addrs-set_state a s ts) refl
  | inr e ↦ rw (e, addrs-set_state a s ts) refl
]

pub state_of-set_state :
    (a b : ℕ) (s : TaskState) (ts : List Task)
    → state_of b (set_state a s ts)
      ≡ (if (b == a) && has a (addrs ts) then some s else state_of b ts)
unfolding state_of set_state
state_of-set_state a b s [] = elim (Bool-cases (b == a)) [ inl e ↦ rw e refl | inr e ↦ rw e refl ]
state_of-set_state a b s (t ∷ ts) =
    let rest = state_of-set_state a b s ts in
    elim (Bool-cases (t.addr == a)) [
      | inl e ↦
          let at : (a == t.addr) ≡ true = ground (arith, e) in
          elim (Bool-cases (t.addr == b)) [
            | inl f ↦ let same : (b == a) ≡ true = ground (arith, e, f) in rw (e, f, at, same) refl
            | inr f ↦
                let other : (b == a) ≡ false = ground (arith, e, f) in
                rw (e, f, at, other) (rw other at rest)
          ]
      | inr e ↦
          let at : (a == t.addr) ≡ false = ground (arith, e) in
          elim (Bool-cases (t.addr == b)) [
            | inl f ↦ let other : (b == a) ≡ false = ground (arith, e, f) in rw (e, f, other) refl
            | inr f ↦ rw (e, f, at) rest
          ]
    ]

pub has-remove_task :
    (a b : ℕ) (ts : List Task) → has b (addrs ts) ≡ false → has b (addrs (remove_task a ts)) ≡ false
unfolding remove_task
has-remove_task a b [] h = h
has-remove_task a b (t ∷ ts) h = elim (Bool-cases (t.addr == a)) [
  | inl e ↦ rw e (ground (arith, h))
  | inr e ↦ rw e (ground (arith, h, has-remove_task a b ts))
]

pub Distinct-remove_task :
    (a : ℕ) (ts : List Task) → Distinct (addrs ts) → Distinct (addrs (remove_task a ts))
unfolding remove_task
Distinct-remove_task a [] d = d
Distinct-remove_task a (t ∷ ts) (out, d) = elim (Bool-cases (t.addr == a)) [
  | inl e ↦ rw e d
  | inr e ↦ rw e (has-remove_task a t.addr ts out, Distinct-remove_task a ts d)
]

pub state_of-absent : (a : ℕ) (ts : List Task) → has a (addrs ts) ≡ false → state_of a ts ≡ none
unfolding state_of
state_of-absent a [] h = refl
state_of-absent a (t ∷ ts) h =
    let other : (t.addr == a) ≡ false = ground (arith, h) in
    rw other (state_of-absent a ts (ground (arith, h)))

-- The unlinked task is gone, the others are as they were.
pub state_of-remove_task :
    (a b : ℕ) (ts : List Task)
    → Distinct (addrs ts)
    → state_of b (remove_task a ts) ≡ (if b == a then none else state_of b ts)
unfolding state_of remove_task
state_of-remove_task a b [] d = elim (Bool-cases (b == a)) [ inl e ↦ rw e refl | inr e ↦ rw e refl ]
state_of-remove_task a b (t ∷ ts) (out, d) =
    let rest = state_of-remove_task a b ts d in
    elim (Bool-cases (t.addr == a)) [
      | inl e ↦ elim (Bool-cases (b == a)) [
        | inl f ↦
            let gone : has b (addrs ts) ≡ false =
              let q : t.addr ≡ b = ground (arith, e, f) in rw q at out in
            rw (e, f) (state_of-absent b ts gone)
        | inr f ↦ let other : (t.addr == b) ≡ false = ground (arith, e, f) in rw (e, f, other) refl
      ]
      | inr e ↦ elim (Bool-cases (t.addr == b)) [
        | inl f ↦ let other : (b == a) ≡ false = ground (arith, e, f) in rw (e, f, other) refl
        | inr f ↦ rw (e, f) rest
      ]
    ]

pub is_ready-state_of :
    (a : ℕ) (ts : List Task) → is_ready a ts ≡ true → state_of a ts ≡ some task_ready
unfolding is_ready find_task state_of
is_ready-state_of a [] h = absurd (cc)
is_ready-state_of a (t ∷ ts) h = elim (Bool-cases (t.addr == a)) [
  | inl e ↦ rw e (ready (t.state) (rw (is_ready, e) at h))
  | inr e ↦ rw e (is_ready-state_of a ts (rw (is_ready, e) at h))
]
  where
    ready : (s : TaskState) → state_is_ready s ≡ true → some s ≡ some task_ready
    ready task_ready h' = refl
    ready task_running h' = absurd (cc)
    ready task_blocked h' = absurd (cc)
    ready task_terminated h' = absurd (cc)

-- The search of the normal branch ends at a ready task.
pub find_next-is_ready :
    (tries current a : ℕ) (ts : List Task) {b : ℕ}
    → find_next tries ts current a ≡ some b
    → is_ready b ts ≡ true
unfolding find_next
find_next-is_ready zero current a ts {b} h = elim (Bool-cases (is_ready a ts)) [
  | inl e ↦ let q = some-eq (rw e at h) in rw (← q) e
  | inr e ↦ absurd (let h' = rw e at h in cc)
]
find_next-is_ready (suc tries) current a ts {b} h = elim (Bool-cases (is_ready a ts)) [
  | inl e ↦ let q = some-eq (rw e at h) in rw (← q) e
  | inr e ↦ elim (Bool-cases (next_or_first a ts == current)) [
    | inl f ↦ absurd (let h' = rw (e, f) at h in cc)
    | inr f ↦ find_next-is_ready tries current (next_or_first a ts) ts (rw (e, f) at h)
  ]
]
