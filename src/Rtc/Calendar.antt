-- ===== src/Rtc/Calendar.antt =====
-- `days_from_civil` of driver/rtc.c against the calendar, for the years that the clock can show.
use hao_sys.Base.{
  ℕ, ◌+◌, ◌%◌, ◌<◌, ◌≡◌, refl, Bool, true, ◌&&◌, ◌||◌, not, ◌==◌, ==_iff, if◌then◌else◌, all_below,
  all_below_sound,
}
use hao_sys.Rtc.{days_from_civil}

abbrev pub is_leap : ℕ → Bool
is_leap y = (y % 4 == 0) && (not (y % 100 == 0) || (y % 400 == 0))

abbrev pub month_days : ℕ → ℕ → ℕ
month_days y m =
    if m == 2
    then (if is_leap y then 29 else 28)
    else (if (m == 4) || ((m == 6) || ((m == 9) || (m == 11))) then 30 else 31)

-- The first day of the next month.
abbrev pub next_month : ℕ → ℕ → ℕ × ℕ
next_month y m = if m == 12 then (y + 1, 1) else (y, m + 1)

month_ok : ℕ → ℕ → Bool
unfolding days_from_civil
month_ok y m =
    let (y', m') = next_month (2000 + y) (m + 1) in
    days_from_civil y' m' 1 == days_from_civil (2000 + y) (m + 1) 1 + month_days (2000 + y) (m + 1)

months_table : all_below 166 (λ y. all_below 12 (λ m. month_ok y m)) ≡ true
unfolding all_below month_ok
months_table = refl

-- The days count on from month to month, over the ends of years and leap days, in every year that
-- two BCD digits of the clock can stand for.
pub days_from_civil-next_month :
    (y m : ℕ)
    → y < 166
    → m < 12
    → let (y', m') = next_month (2000 + y) (m + 1) in
      days_from_civil y' m' 1 ≡ days_from_civil (2000 + y) (m + 1) 1 + month_days (2000 + y) (m + 1)
unfolding month_ok
days_from_civil-next_month y m hy hm =
    (==_iff _ _).0 (all_below_sound 12 _ m (all_below_sound 166 _ y months_table hy) hm)
