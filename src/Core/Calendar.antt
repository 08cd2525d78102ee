-- ===== src/Core/Calendar.antt =====
-- Dates, times of day and time zones, as the engine uses `datetime` and `zoneinfo`.
--
-- A date is its proleptic ordinal (`date.toordinal()`), so adding a timedelta of days is addition.
-- A time of day is the microseconds since midnight. An aware instant is the microseconds of UTC
-- since the start of ordinal 0, and a zone is given by its two conversions.
use tee_time_booker.Prelude.{ℕ, ◌+◌, ◌*◌, ◌/◌, ◌%◌, ◌≡◌}

-- Python's `date.weekday()` of an ordinal: Monday is 0 and Sunday is 6; ordinal 1 is a Monday.
unfoldable pub weekday : ℕ → ℕ
weekday day = (day + 6) % 7

abbrev pub second_us : ℕ
second_us = 1_000_000

abbrev pub minute_us : ℕ
minute_us = 60 * second_us

abbrev pub hour_us : ℕ
hour_us = 60 * minute_us

abbrev pub day_us : ℕ
day_us = 24 * hour_us

-- The fields of a `time`.
abbrev pub hour : ℕ → ℕ
hour t = t / hour_us

abbrev pub minute : ℕ → ℕ
minute t = t % hour_us / minute_us

abbrev pub second : ℕ → ℕ
second t = t % minute_us / second_us

-- A wall-clock reading.
pub record WallClock : Type 0 where
  pub day : ℕ
  pub time : ℕ

-- An aware `datetime`: its reading in its own zone, and the instant.
pub record DateTime : Type 0 where
  pub wall : WallClock
  pub open wall use *
  pub instant : ℕ

-- Readings of one zone are compared field by field.
abbrev pub wall_us : WallClock → ℕ
wall_us w = w.day * day_us + w.time

-- A zone with its name, `astimezone(zone)`, and `combine(day, time).replace(tzinfo=zone)`.
pub record Zone : Type 0 where
  pub name : ℕ
  pub to_local : ℕ → WallClock
  pub to_instant : ℕ → ℕ → ℕ

-- The zone reads back the wall clock that was localized: it lies in no transition gap or overlap.
abbrev pub ReadsBack : Zone → ℕ → ℕ → Type 0
ReadsBack zone day time =
    zone.to_local (zone.to_instant day time) ≡ record { day = day; time = time }

abbrev pub utc : Zone
utc = record {
  name = 0;
  to_local = λ at. record { day = at / day_us; time = at % day_us };
  to_instant = λ day time. day * day_us + time;
}
