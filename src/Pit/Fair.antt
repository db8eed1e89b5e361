-- ===== src/Pit/Fair.antt =====
-- The timer of driver/pit.c and the scheduler of proc/task.c together: no task waits for ever.
use hao_sys.Base.{
  ℕ, zero, suc, ◌+◌, ◌-◌, ◌*◌, ◌<◌, ◌≤◌, ◌≡◌, ◌⊎◌, refl, sym, ◌∙◌, subst, true, List, [], ◌∷◌, none,
  some, ltb, has, arith, Option-cases, Bool-cases, inl, inr, nth, nth-lt, length, some-eq, ltb→lt,
}
use hao_sys.Task.{next_or_first}
use hao_sys.Task.Pick.{addrs}
use hao_sys.Task.Invariant.{present}
use hao_sys.Task.Rotation.{nth-has, has-nth, next_or_first-inside, next_or_first-last}
use hao_sys.Pit.{Pit, pit_tick_handler, ticks}
use hao_sys.Pit.Slice.{IsTicking, Reaches, slice-Reaches}

ticks-append : (n m : ℕ) (p q : Pit) → ticks n p ≡ some q → ticks (n + m) p ≡ ticks m q
unfolding ticks
ticks-append zero m p q e =
    let z : 0 + m ≡ m = omega arith in let same : p ≡ q = some-eq e in rw (z, same) refl
ticks-append (suc n) m p q e = elim (Option-cases (pit_tick_handler p)) [
  | inl halts ↦ absurd (let e' = rw (ticks, halts) at e in cc)
  | inr (r, step) ↦
      let z : suc n + m ≡ suc (n + m) = omega arith in
      rw (z, ticks, step) (ticks-append n m r q (rw (ticks, step) at e))
]

ticks-zero : (p : Pit) → ticks 0 p ≡ some p
unfolding ticks
ticks-zero p = refl

-- One slice, to the successor of the current task.
next-Reaches :
    (p : Pit) (next : ℕ)
    → IsTicking p
    → next_or_first p.sched.current_task p.sched.tasks ≡ next
    → has next (addrs p.sched.tasks) ≡ true
    → Reaches p 3 next
next-Reaches p next h e here =
    let used = p.ticks_used p.sched.current_task in
    let l = h.slices p.sched.current_task in
    let r = slice-Reaches (2 - used) p next h (omega arith) e here in
    record {
      count = r.count;
      after = r.after;
      few = omega (arith, r.few);
      run = r.run;
      ticking = r.ticking;
      now = r.now;
      names = r.names;
    }

and_then :
    {p : Pit} {b a : ℕ} (d : ℕ) (r : Reaches p 3 b)
    → Reaches r.after (3 * d) a
    → Reaches p (3 * suc d) a
and_then {p} d r t = record {
  count = r.count + t.count;
  after = t.after;
  few = omega (arith, r.few, t.few);
  run = ticks-append r.count t.count p r.after r.run ∙ t.run;
  ticking = t.ticking;
  now = t.now;
  names = t.names ∙ r.names;
}

nth-end : (xs : List ℕ) (i : ℕ) → nth xs i ≡ none → length xs ≤ i
nth-end [] i e = omega arith
nth-end (x ∷ xs) zero e = absurd (cc)
nth-end (x ∷ xs) (suc i) e = omega (arith, nth-end xs i e)

first_of_list : (xs : List ℕ) → 0 < length xs → (b : ℕ) × (nth xs 0 ≡ some b)
first_of_list [] l = absurd (omega arith)
first_of_list (x ∷ xs) l = (x, refl)

further :
    (i d j n : ℕ) → (i + suc d ≡ j) ⊎ (i + suc d ≡ j + n) → (suc i + d ≡ j) ⊎ (suc i + d ≡ j + n)
further i d j n (inl e) = inl (omega arith)
further i d j n (inr e) = inr (omega arith)

around :
    (i d j n : ℕ)
    → suc i ≡ n
    → j < n
    → (i + suc d ≡ j) ⊎ (i + suc d ≡ j + n)
    → (0 + d ≡ j) ⊎ (0 + d ≡ j + n)
around i d j n l lj (inl e) = absurd (omega arith)
around i d j n l lj (inr e) = inl (omega arith)

-- `d` tasks further round the list.
round-Reaches :
    (d : ℕ) (p : Pit) (i j a : ℕ)
    → IsTicking p
    → nth (addrs p.sched.tasks) i ≡ some p.sched.current_task
    → nth (addrs p.sched.tasks) j ≡ some a
    → (i + d ≡ j) ⊎ (i + d ≡ j + length (addrs p.sched.tasks))
    → Reaches p (3 * d) a
round-Reaches zero p i j a h here there at = record {
  count = 0;
  after = p;
  few = omega arith;
  run = ticks-zero p;
  ticking = h;
  now =
      let l = nth-lt (addrs p.sched.tasks) i p.sched.current_task here in
      let q : i ≡ j = omega arith in
      some-eq (sym here ∙ subst (λ n. nth (addrs p.sched.tasks) n ≡ some a) (sym q) there);
  names = refl;
}
round-Reaches (suc d) p i j a h here there at =
    let names = addrs p.sched.tasks in
    let li = nth-lt names i p.sched.current_task here in
    let lj = nth-lt names j a there in
    elim (Option-cases (nth names (suc i))) [
      | inr (b, inside) ↦
          let li' = nth-lt names (suc i) b inside in
          let e =
            next_or_first-inside p.sched.tasks i p.sched.current_task b h.rotating.order.distinct
              h.rotating.no_null here inside in
          let r = next-Reaches p b h e (nth-has names (suc i) b inside) in
          and_then d r (
            round-Reaches d r.after (suc i) j a r.ticking (rw (r.names, r.now) inside)
              (rw (r.names) there) (rw (r.names) (further i d j _ at)))
      | inl out ↦
          let li' : suc i ≡ length names = omega (arith, nth-end names (suc i) out) in
          let (b, first) = first_of_list names (omega arith) in
          let e =
            next_or_first-last p.sched.tasks i p.sched.current_task b h.rotating.order.distinct here
              out first in
          let r = next-Reaches p b h e (nth-has names 0 b first) in
          and_then d r (
            round-Reaches d r.after 0 j a r.ticking (rw (r.names, r.now) first) (rw (r.names) there)
              (rw (r.names) (around i d j _ li' lj at)))
    ]

pub tick-Reaches :
    (p : Pit) (a : ℕ)
    → IsTicking p
    → has a (addrs p.sched.tasks) ≡ true
    → Reaches p (3 * length (addrs p.sched.tasks)) a
tick-Reaches p a h here =
    let names = addrs p.sched.tasks in
    let (i, now) =
      has-nth names p.sched.current_task
        (present p.sched.current_task p.sched.tasks h.rotating.order.runs) in
    let (j, there) = has-nth names a here in
    let li = nth-lt names i p.sched.current_task now in
    let lj = nth-lt names j a there in
    elim (Bool-cases (ltb j i)) [
      | inr e ↦
          let before : i ≤ j = ground arith in
          within (omega arith) (round-Reaches (j - i) p i j a h now there (inl (omega arith)))
      | inl e ↦
          let past : j < i = ltb→lt j i e in
          within (omega arith)
            (round-Reaches (j + length names - i) p i j a h now there (inr (omega arith)))
    ]
  where
    within : {m n : ℕ} → m ≤ n → Reaches p m a → Reaches p n a
    within l r = record {
      count = r.count;
      after = r.after;
      few = omega (arith, r.few);
      run = r.run;
      ticking = r.ticking;
      now = r.now;
      names = r.names;
    }
