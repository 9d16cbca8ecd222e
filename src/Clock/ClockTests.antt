-- ===== src/Clock/ClockTests.antt =====
-- Runs of src/deps/xtime/time.go on given times, in the zone and with the offset that it begins with.
use heli.Common.{
  ℤ, eqb_ℤ, mul64, add64, sub64, wrap64, ◌+ℤ◌, ◌-ℤ◌, ◌*ℤ◌, pos, negsuc, true, false, ◌≡◌, refl, ◌↔◌,
  arith,
}
use heli.Clock.{
  get_day_zero_unix_with_zone_and_offset, get_week_zero_unix_with_zone_and_offset,
  check_daily_fresh_with_offset, check_weekly_fresh_with_offset, get_days_between,
}
use heli.Clock.Days.{InPeriod, BeginsDay, BeginsWeek, checks_exact}

-- 2024-01-01 03:00 and 05:00, a Monday, in UTC+8.
abbrev night : ℤ
night = pos 1704049200

abbrev morning : ℤ
morning = pos 1704056400

abbrev zone : ℤ
zone = pos 28800

abbrev offset : ℤ
offset = pos 14400

night_day : check_daily_fresh_with_offset zone night morning offset ≡ true
unfolding check_daily_fresh_with_offset eqb_ℤ ◌+ℤ◌ ◌-ℤ◌ add64 sub64 wrap64
night_day = refl

night_week : check_weekly_fresh_with_offset zone night morning offset ≡ true
unfolding check_weekly_fresh_with_offset eqb_ℤ mul64 ◌*ℤ◌ ◌+ℤ◌ ◌-ℤ◌ add64 sub64 wrap64
night_week = refl

no_days : get_days_between zone night morning ≡ pos 0
unfolding get_days_between ◌+ℤ◌ ◌-ℤ◌ add64 sub64 wrap64
no_days = refl

before_1970 : get_day_zero_unix_with_zone_and_offset (negsuc 0) (pos 0) (pos 0) ≡ negsuc 86399
unfolding get_day_zero_unix_with_zone_and_offset ◌+ℤ◌ ◌-ℤ◌ add64 sub64 wrap64
before_1970 = refl

checks_exact_example :
    ((check_daily_fresh_with_offset zone night morning offset ≡ false)
      ↔ InPeriod morning (get_day_zero_unix_with_zone_and_offset night zone offset) 86400)
    × ((check_weekly_fresh_with_offset zone night morning offset ≡ false)
        ↔ InPeriod morning (get_week_zero_unix_with_zone_and_offset night zone offset) 604800)
    × BeginsDay night (get_day_zero_unix_with_zone_and_offset night zone offset) zone offset
    × BeginsWeek night (get_week_zero_unix_with_zone_and_offset night zone offset) zone offset
checks_exact_example =
    checks_exact zone night morning offset (omega arith, omega arith) (omega arith, omega arith)
      (omega arith, omega arith) (omega arith, omega arith)
