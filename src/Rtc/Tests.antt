-- ===== src/Rtc/Tests.antt =====
-- Dates of the clock.
use hao_sys.Base.{◌+◌, ◌≡◌, refl, arith}
use hao_sys.Rtc.{days_from_civil}
use hao_sys.Rtc.Calendar.{month_days, days_from_civil-next_month}

new_century : days_from_civil 2000 1 1 ≡ 10957
unfolding days_from_civil
new_century = refl

days_from_civil-next_month_example :
    days_from_civil 2024 3 1 ≡ days_from_civil 2024 2 1 + month_days 2024 2
days_from_civil-next_month_example = days_from_civil-next_month 24 1 (omega arith) (omega arith)
