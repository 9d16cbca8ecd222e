-- ===== src/Clock.antt =====
-- src/deps/xtime/time.go: the days and weeks of the game, which begin at an offset after midnight of a zone.
-- `LocalZoneOffset` and `OffSet`, which a program may set, are arguments.
pub mod Days
mod ClockTests
use heli.Common.{
  ℕ, suc, ◌+◌, ◌-◌, ◌%◌, ◌/◌, ℤ, pos, negsuc, ltb_ℤ, eqb_ℤ, add64, sub64, mul64, Bool, not, ◌==◌,
  if◌then◌else◌,
}

abbrev pub day_sec : ℕ
day_sec = 86400

-- 0 - n
abbrev pub negated : ℕ → ℤ
negated n = if n == 0 then pos 0 else negsuc (n - 1)

-- `a % n` and `a / n` of Go for a positive `n`: the quotient is cut towards 0.
abbrev pub rem : ℤ → ℕ → ℤ
rem (pos a) n = pos (a % n)
rem (negsuc a) n = negated (suc a % n)

abbrev pub quot : ℤ → ℕ → ℤ
quot (pos a) n = pos (a / n)
quot (negsuc a) n = negated (suc a / n)

unfoldable pub get_day_zero_unix_with_zone : ℤ → ℤ → ℤ
get_day_zero_unix_with_zone ts zone_offset =
    let shifted = add64 ts zone_offset in
    let r = rem shifted day_sec in
    let r' = if ltb_ℤ r (pos 0) then add64 r (pos day_sec) else r in
    sub64 (sub64 shifted r') zone_offset

unfoldable pub get_day_zero_unix_with_zone_and_offset : ℤ → ℤ → ℤ → ℤ
unfolding get_day_zero_unix_with_zone
get_day_zero_unix_with_zone_and_offset ts zone_offset offset =
    add64 (get_day_zero_unix_with_zone (sub64 ts offset) zone_offset) offset

-- `time.Unix(ts, 0).UTC().Weekday()`: 1970-01-01 was a Thursday, and a Sunday is 0.
abbrev pub weekday : ℤ → ℕ
weekday (pos n) = (n / day_sec + 4) % 7
weekday (negsuc n) = (6 - n / day_sec % 7 + 4) % 7

unfoldable pub get_week_zero_unix_with_zone_and_offset : ℤ → ℤ → ℤ → ℤ
unfolding get_day_zero_unix_with_zone_and_offset
get_week_zero_unix_with_zone_and_offset ts zone_offset offset =
    let day_zero = get_day_zero_unix_with_zone_and_offset ts zone_offset offset in
    let shift = sub64 (add64 ts zone_offset) offset in
    let nd = (weekday shift + 6) % 7 in sub64 day_zero (mul64 (pos nd) (pos day_sec))

unfoldable pub check_daily_fresh_with_offset : ℤ → ℤ → ℤ → ℤ → Bool
unfolding get_day_zero_unix_with_zone_and_offset
check_daily_fresh_with_offset zone_offset last_sec now_sec offset = not (
    eqb_ℤ (get_day_zero_unix_with_zone_and_offset now_sec zone_offset offset)
      (get_day_zero_unix_with_zone_and_offset last_sec zone_offset offset))

unfoldable pub check_daily_fresh : ℤ → ℤ → ℤ → ℤ → Bool
unfolding get_day_zero_unix_with_zone_and_offset
check_daily_fresh zone_offset off_set last_sec now_sec = not (
    eqb_ℤ (get_day_zero_unix_with_zone_and_offset now_sec zone_offset off_set)
      (get_day_zero_unix_with_zone_and_offset last_sec zone_offset off_set))

unfoldable pub check_weekly_fresh : ℤ → ℤ → ℤ → ℤ → Bool
unfolding get_week_zero_unix_with_zone_and_offset
check_weekly_fresh zone_offset off_set last_sec now_sec = not (
    eqb_ℤ (get_week_zero_unix_with_zone_and_offset now_sec zone_offset off_set)
      (get_week_zero_unix_with_zone_and_offset last_sec zone_offset off_set))

unfoldable pub check_weekly_fresh_with_offset : ℤ → ℤ → ℤ → ℤ → Bool
unfolding get_week_zero_unix_with_zone_and_offset
check_weekly_fresh_with_offset zone_offset last_sec now_sec offset = not (
    eqb_ℤ (get_week_zero_unix_with_zone_and_offset now_sec zone_offset offset)
      (get_week_zero_unix_with_zone_and_offset last_sec zone_offset offset))

-- `NextLocalDayZeroSec` with the time it reads as an argument: the seconds until the next refresh.
unfoldable pub next_local_day_zero_sec : ℤ → ℤ → ℤ → ℤ
unfolding get_day_zero_unix_with_zone_and_offset
next_local_day_zero_sec zone_offset off_set now =
    sub64 (pos day_sec) (sub64 now (get_day_zero_unix_with_zone_and_offset now zone_offset off_set))

unfoldable pub get_days_between : ℤ → ℤ → ℤ → ℤ
unfolding get_day_zero_unix_with_zone
get_days_between zone_offset ts₁ ts₂ =
    sub64 (quot (get_day_zero_unix_with_zone ts₂ zone_offset) day_sec)
      (quot (get_day_zero_unix_with_zone ts₁ zone_offset) day_sec)

unfoldable pub get_days_between_with_offset : ℤ → ℤ → ℤ → ℤ → ℤ
unfolding get_day_zero_unix_with_zone_and_offset
get_days_between_with_offset zone_offset off_set ts₁ ts₂ =
    sub64 (quot (get_day_zero_unix_with_zone_and_offset ts₂ zone_offset off_set) day_sec)
      (quot (get_day_zero_unix_with_zone_and_offset ts₁ zone_offset off_set) day_sec)
