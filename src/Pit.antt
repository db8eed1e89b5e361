-- ===== src/Pit.antt =====
-- driver/pit.c: the timer's tick and the time slices of tasks. `ticks_used` of a PCB is kept here, by the
-- PCB's address. The ports and the interrupt controller are not modelled, nor a frequency of 0, which
-- would divide by 0.
pub mod Slice
pub mod Fair
mod Tests
use hao_sys.Base.{
  ℕ, zero, suc, ◌+◌, ◌-◌, ◌/◌, ◌%◌, ◌^◌, Bool, true, false, ◌&&◌, Option, none, some, Memory, store,
  add32, ◌==◌, ltb, leb, if◌then◌else◌,
}
use hao_sys.Task.{Task, Sched, find_task, schedule}

pub record Pit : Type 0 where
  pub pit_ticks : ℕ
  pub ticks_used : Memory
  pub sched : Sched

abbrev pub time_slice_ticks : ℕ
time_slice_ticks = 3

-- What the counter of channel 0 starts from.
unfoldable pub divisor : ℕ → ℕ
divisor freq_hz =
    let d = 1193182 / freq_hz in
    let low : ℕ = if ltb d 2 then 2 else d in if ltb 65535 low then 65535 else low

-- The two bytes that are written to the port.
unfoldable pub pit_init : ℕ → ℕ × ℕ
pit_init freq_hz = (divisor freq_hz % 2 ^ 8, divisor freq_hz / 2 ^ 8 % 2 ^ 8)

abbrev pub pit_get_ticks : Pit → ℕ
pit_get_ticks p = p.pit_ticks

-- The current task is a user's.
abbrev pub runs_user : Sched → Bool
runs_user s = elim (find_task s.current_task s.tasks) [ none ↦ false | some t ↦ t.is_user ]

-- A call of the scheduler, which may halt the machine.
abbrev pub reschedule : Pit → Option Pit
reschedule p = elim (schedule p.sched) [ none ↦ none | some s ↦ some (record p { sched = s }) ]

unfoldable pub pit_tick_handler : Pit → Option Pit
pit_tick_handler p =
    let a = p.sched.current_task in
    let used = add32 (p.ticks_used a) 1 in
    let counted : Pit = record p { pit_ticks = add32 p.pit_ticks 1 } in
    let full : Pit = record counted { ticks_used = store p.ticks_used a 0 } in
    let part : Pit = record counted { ticks_used = store p.ticks_used a used } in
    if runs_user p.sched
    then (if leb time_slice_ticks used then reschedule full else some part)
    else some counted

-- `n` ticks.
unfoldable pub ticks : ℕ → Pit → Option Pit
ticks zero p = some p
ticks (suc n) p = elim (pit_tick_handler p) [ none ↦ none | some q ↦ ticks n q ]
