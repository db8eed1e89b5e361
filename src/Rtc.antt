-- ===== src/Rtc.antt =====
-- driver/rtc.c: the clock's registers, dates and times. What the CMOS gives for a register is an
-- argument; waiting for the end of an update is left out. Years are from 2000 on.
pub mod Calendar
mod Tests
use hao_sys.Base.{
  ℕ, ◌+◌, ◌-◌, ◌*◌, ◌/◌, ◌%◌, ◌^◌, Bool, true, false, add32, sub32, mul32, ◌==◌, ltb, leb,
  if◌then◌else◌,
}

-- The bytes of the six registers, in BCD.
pub record Registers : Type 0 where
  pub seconds : ℕ
  pub minutes : ℕ
  pub hours : ℕ
  pub day : ℕ
  pub month : ℕ
  pub year : ℕ

unfoldable pub bcd_to_bin : ℕ → ℕ
bcd_to_bin v = (v % 2 ^ 4 + v / 2 ^ 4 * 10) % 2 ^ 8

unfoldable pub get_time_packed : Registers → ℕ
get_time_packed r =
    2 ^ 16 * bcd_to_bin r.hours + 2 ^ 8 * bcd_to_bin r.minutes + bcd_to_bin r.seconds

unfoldable pub get_date_packed : Registers → ℕ
get_date_packed r = 2 ^ 16 * bcd_to_bin r.year + 2 ^ 8 * bcd_to_bin r.month + bcd_to_bin r.day

-- Years that begin in March, in eras of 400 of them.
unfoldable pub days_from_civil : ℕ → ℕ → ℕ → ℕ
days_from_civil year m d =
    let y : ℕ = if leb m 2 then year - 1 else year in
    let era = y / 400 in
    let yoe = y - era * 400 in
    let doy = sub32 ((153 * (if ltb 2 m then m - 3 else m + 9) + 2) / 5 + d) 1 in
    let doe = yoe * 365 + yoe / 4 - yoe / 100 + doy in era * 146097 + doe - 719468

unfoldable pub get_epoch : Registers → ℕ
get_epoch r =
    let d = days_from_civil (2000 + bcd_to_bin r.year) (bcd_to_bin r.month) (bcd_to_bin r.day) in
    add32 (add32 (add32 (mul32 d 86400) (bcd_to_bin r.hours * 3600)) (bcd_to_bin r.minutes * 60))
      (bcd_to_bin r.seconds)

-- When the machine started, once that is known.
pub record Clock : Type 0 where
  pub boot_epoch : ℕ
  pub boot_epoch_set : Bool

unfoldable pub rtc_init : Registers → Clock
rtc_init r = record { boot_epoch = get_epoch r; boot_epoch_set = true }

unfoldable pub get_uptime : Registers → Clock → ℕ × Clock
get_uptime r c =
    let known : Clock = if c.boot_epoch_set then c else rtc_init r in
    (sub32 (get_epoch r) known.boot_epoch, known)
