-- ===== src/Clock/Days.antt =====
-- src/deps/xtime/time.go: where a day begins, and when a day is over.
use heli.Common.{
  ℕ, zero, suc, ◌+◌, ◌-◌, ◌*◌, ◌%◌, ◌^◌, ◌<◌, ℤ, pos, negsuc, pos_part, neg_part, ltb_ℤ, eqb_ℤ,
  eqb_ℤ_iff, ◌+ℤ◌, ◌-ℤ◌, ◌≤ℤ◌, ◌<ℤ◌, add64, sub64, mul64, mul64_pos, go_laws, Bool, true, false,
  not, ◌≡◌, ◌↔◌, refl, sym, ap, ◌∙◌, arith, if◌then◌else◌,
}
use heli.Clock.{
  day_sec, negated, rem, get_day_zero_unix_with_zone, get_day_zero_unix_with_zone_and_offset,
  check_daily_fresh_with_offset, check_weekly_fresh_with_offset, weekday,
  get_week_zero_unix_with_zone_and_offset,
}

-- The seconds since the day began, for a time in the zone.
abbrev pub since : ℤ → ℕ
since (pos n) = n % 86400
since (negsuc n) = 86399 - n % 86400

abbrev Within : ℕ → ℤ → Type 0
Within bound z = (pos_part z < neg_part z + bound) × (neg_part z < pos_part z + bound)

-- Far from the bounds of an int64.
abbrev pub Near : ℤ → Type 0
Near z = Within (2 ^ 60) z

abbrev not_negative : ℤ → ℤ
not_negative r = if ltb_ℤ r (pos 0) then add64 r (pos day_sec) else r

fixed_negated : (m : ℕ) → m < 86400 → not_negative (negated m) ≡ pos ((86400 - m) % 86400)
fixed_negated zero h = refl
fixed_negated (suc k) h =
    let down : negated (suc k) ≡ negsuc k = ground arith in
    let e : add64 (negsuc k) (pos 86400) ≡ pos ((86400 - suc k) % 86400) = omega go_laws in
    let neg : ltb_ℤ (negsuc k) (pos 0) ≡ true = ground arith in rw (down, neg) e

fixed_rem : (z : ℤ) → not_negative (rem z day_sec) ≡ pos (since z)
fixed_rem (pos n) = ground arith
fixed_rem (negsuc n) = fixed_negated (suc n % 86400) (omega arith) ∙ ap pos (omega arith)

since-lt : (z : ℤ) → since z < 86400
since-lt (pos n) = omega arith
since-lt (negsuc n) = omega arith

zero_with_zone :
    (ts zone : ℤ)
    → Within (2 ^ 61) ts
    → Near zone
    → get_day_zero_unix_with_zone ts zone ≡ ts -ℤ pos (since (ts +ℤ zone))
unfolding get_day_zero_unix_with_zone
zero_with_zone ts zone near_ts near_zone =
    let shifted : add64 ts zone ≡ ts +ℤ zone = omega go_laws in
    let small = since-lt (ts +ℤ zone) in rw (shifted, fixed_rem (ts +ℤ zone)) (omega go_laws)

abbrev begin_of_day : ℤ → ℤ
begin_of_day z = z -ℤ pos (since z)

same_day :
    (a b : ℤ)
    → begin_of_day b ≤ℤ a
    → a <ℤ (begin_of_day b +ℤ pos 86400)
    → begin_of_day a ≡ begin_of_day b
same_day (pos a) (pos b) low high = omega go_laws
same_day (pos a) (negsuc b) low high = omega go_laws
same_day (negsuc a) (pos b) low high = omega go_laws
same_day (negsuc a) (negsuc b) low high = omega go_laws

-- `now` is in the period of that length that begins at `start`.
abbrev pub InPeriod : ℤ → ℤ → ℕ → Type 0
InPeriod now start length = (start ≤ℤ now) × (now <ℤ (start +ℤ pos length))

-- `start` is at midnight by the zone's clock put back by the offset, and `t` is in the day that begins there.
abbrev pub BeginsDay : ℤ → ℤ → ℤ → ℤ → Type 0
BeginsDay t start zone offset = InPeriod t start 86400 × (since ((start +ℤ zone) -ℤ offset) ≡ 0)

-- The same of a week, which begins with a Monday.
abbrev pub BeginsWeek : ℤ → ℤ → ℤ → ℤ → Type 0
BeginsWeek t start zone offset =
    InPeriod t start 604800
    × (since ((start +ℤ zone) -ℤ offset) ≡ 0)
    × (weekday ((start +ℤ zone) -ℤ offset) ≡ 1)

since_week : ℤ → ℕ
since_week z = since z + 86400 * ((weekday z + 6) % 7)

week_mod : (z : ℤ) → since_week z < 604800
unfolding since_week
week_mod z = omega (arith, since-lt)

same_week :
    (a b : ℤ)
    → (b -ℤ pos (since_week b)) ≤ℤ a
    → a <ℤ ((b -ℤ pos (since_week b)) +ℤ pos 604800)
    → (a -ℤ pos (since_week a)) ≡ (b -ℤ pos (since_week b))
unfolding since_week
same_week (pos a) (pos b) low high = omega go_laws
same_week (pos a) (negsuc b) low high = omega go_laws
same_week (negsuc a) (pos b) low high = omega go_laws
same_week (negsuc a) (negsuc b) low high = omega go_laws

day_zero :
    (ts zone offset : ℤ)
    → Near ts
    → Near zone
    → Near offset
    → get_day_zero_unix_with_zone_and_offset ts zone offset
      ≡ ts -ℤ pos (since ((ts +ℤ zone) -ℤ offset))
unfolding get_day_zero_unix_with_zone_and_offset
day_zero ts zone offset near_ts near_zone near_offset =
    let early : sub64 ts offset ≡ ts -ℤ offset = omega go_laws in
    let order : (ts -ℤ offset) +ℤ zone ≡ (ts +ℤ zone) -ℤ offset = omega go_laws in
    let small = since-lt ((ts +ℤ zone) -ℤ offset) in
    let zero = zero_with_zone (ts -ℤ offset) zone (omega go_laws, omega go_laws) near_zone in
    rw (early, zero, order) (omega go_laws)

week_zero :
    (ts zone offset : ℤ)
    → Near ts
    → Near zone
    → Near offset
    → get_week_zero_unix_with_zone_and_offset ts zone offset
      ≡ ts -ℤ pos (since_week ((ts +ℤ zone) -ℤ offset))
unfolding get_week_zero_unix_with_zone_and_offset since_week
week_zero ts zone offset near_ts near_zone near_offset =
    let shift : sub64 (add64 ts zone) offset ≡ (ts +ℤ zone) -ℤ offset = omega go_laws in
    let small = since-lt ((ts +ℤ zone) -ℤ offset) in
    let days = (weekday ((ts +ℤ zone) -ℤ offset) + 6) % 7 in
    let back : mul64 (pos days) (pos 86400) ≡ pos (days * 86400) =
      mul64_pos days 86400 (omega arith) in
    rw (day_zero ts zone offset near_ts near_zone near_offset, shift, back) (omega go_laws)

not-false : (b : Bool) → not b ≡ false → b ≡ true
not-false false h = sym h
not-false true h = refl

-- `s` and `t` are what has gone by of the periods of `now` and `last`, both on the zone's clock.
same_start_iff :
    (now last zone offset : ℤ)
    → (length s t : ℕ) → s < length
    → ((((last +ℤ zone) -ℤ offset) -ℤ pos t) ≤ℤ ((now +ℤ zone) -ℤ offset)
        → ((now +ℤ zone) -ℤ offset) <ℤ ((((last +ℤ zone) -ℤ offset) -ℤ pos t) +ℤ pos length)
        → (((now +ℤ zone) -ℤ offset) -ℤ pos s) ≡ (((last +ℤ zone) -ℤ offset) -ℤ pos t))
    → (not (eqb_ℤ (now -ℤ pos s) (last -ℤ pos t)) ≡ false)
      ↔ (((last -ℤ pos t) ≤ℤ now) × (now <ℤ ((last -ℤ pos t) +ℤ pos length)))
same_start_iff now last zone offset length s t small same =
    let (to, from) = eqb_ℤ_iff (now -ℤ pos s) (last -ℤ pos t) in
    let parts : now -ℤ pos s ≡ last -ℤ pos t
        → ((last -ℤ pos t) ≤ℤ now) × (now <ℤ ((last -ℤ pos t) +ℤ pos length)) =
      λ e. let p = ap pos_part e in let n = ap neg_part e in (omega go_laws, omega go_laws) in
    (
      λ e. parts (to (not-false (eqb_ℤ (now -ℤ pos s) (last -ℤ pos t)) e)),
      λ (low, high).
          let e = same (omega go_laws) (omega go_laws) in
          let p = ap pos_part e in let n = ap neg_part e in ap not (from (omega go_laws)),
    )

-- The begin of a day, and of a week, on the zone's clock.
day_begins : (a z : ℤ) → pos_part z + neg_part a + since a ≡ neg_part z + pos_part a → since z ≡ 0
day_begins (pos a) (pos z) e = omega arith
day_begins (pos a) (negsuc z) e = omega arith
day_begins (negsuc a) (pos z) e = omega arith
day_begins (negsuc a) (negsuc z) e = omega arith

week_begins :
    (a z : ℤ)
    → pos_part z + neg_part a + since_week a ≡ neg_part z + pos_part a
    → (since z ≡ 0) × (weekday z ≡ 1)
unfolding since_week
week_begins (pos a) (pos z) e = (omega arith, omega arith)
week_begins (pos a) (negsuc z) e = (omega arith, omega arith)
week_begins (negsuc a) (pos z) e = (omega arith, omega arith)
week_begins (negsuc a) (negsuc z) e = (omega arith, omega arith)

-- For times, a zone and an offset far from the bounds of an int64: the daily check is false exactly when
-- `now` is in the 86,400 seconds that begin at the last time's day, and the weekly check exactly when it is
-- in the seven days that begin at the last time's week. The last time is itself in both, and both begin at
-- midnight by the zone's clock put back by the offset, the week on a Monday.
pub checks_exact :
    (zone last now offset : ℤ)
    → Near zone
    → Near last
    → Near now
    → Near offset
    → ((check_daily_fresh_with_offset zone last now offset ≡ false)
        ↔ InPeriod now (get_day_zero_unix_with_zone_and_offset last zone offset) 86400)
      × ((check_weekly_fresh_with_offset zone last now offset ≡ false)
          ↔ InPeriod now (get_week_zero_unix_with_zone_and_offset last zone offset) 604800)
      × BeginsDay last (get_day_zero_unix_with_zone_and_offset last zone offset) zone offset
      × BeginsWeek last (get_week_zero_unix_with_zone_and_offset last zone offset) zone offset
unfolding check_daily_fresh_with_offset check_weekly_fresh_with_offset
checks_exact zone last now offset near_zone near_last near_now near_offset =
    let a = (now +ℤ zone) -ℤ offset in
    let b = (last +ℤ zone) -ℤ offset in
    (
      rw
          (
            day_zero now zone offset near_now near_zone near_offset,
            day_zero last zone offset near_last near_zone near_offset,
          )
          (same_start_iff now last zone offset 86400 (since a) (since b) (since-lt a)
            (same_day a b)),
      rw
          (
            week_zero now zone offset near_now near_zone near_offset,
            week_zero last zone offset near_last near_zone near_offset,
          )
          (same_start_iff now last zone offset 604800 (since_week a) (since_week b) (week_mod a)
            (same_week a b)),
      rw (day_zero last zone offset near_last near_zone near_offset) (
        (omega (go_laws, since-lt b), omega (go_laws, since-lt b)),
        day_begins b (((last -ℤ pos (since b)) +ℤ zone) -ℤ offset) (omega go_laws),
      ),
      rw (week_zero last zone offset near_last near_zone near_offset) (
          let (midnight, monday) =
            week_begins b (((last -ℤ pos (since_week b)) +ℤ zone) -ℤ offset) (omega go_laws) in
          ((omega (go_laws, week_mod b), omega (go_laws, week_mod b)), midnight, monday)),
    )
