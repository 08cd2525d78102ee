-- ===== src/Core/Policy.antt =====
-- The pure date policies of core/: booking_cutoff.py, booking_day_gate.py, dst_gate.py,
-- target_date.py and release_policy.py.
--
-- A function that reads the clock takes the instant that it reads. Sets of dates and weekdays are
-- lists. A timezone name is the zone that it names; a name that `ZoneInfo` refuses is left out.
pub mod Horizon
pub mod Gates
mod Examples
use tee_time_booker.Prelude.{
  ℕ, ◌+◌, ◌-◌, ◌*◌, ◌/◌, ◌%◌, Bool, true, false, not, ◌&&◌, Option, none, some, List, [], ◌∷◌, elem,
  is_none, sort_by, ltb, leb, ◌==◌, if◌then◌else◌, Result, ok, err, guard, ◌>>=◌, ◌>>◌,
}
use tee_time_booker.Core.Calendar.{Zone, WallClock, weekday, hour, minute, minute_us}

-- core/config.py
pub record BookingCutoffConfig : Type 0 where
  pub days_before : ℕ
  pub time_of_day : ℕ

-- Days before ordinal 0 do not exist; Python raises OverflowError there.
unfoldable pub cutoff_instant : ℕ → Zone → BookingCutoffConfig → ℕ
cutoff_instant target_date zone cutoff =
    zone.to_instant (target_date - cutoff.days_before) cutoff.time_of_day

pub data FrozenReason : Type 0 where
  by_cutoff by_skip : FrozenReason

-- `now >= cutoff_instant(...)`, and false where there is no cutoff.
abbrev pub is_past : ℕ → ℕ → Zone → Option BookingCutoffConfig → Bool
is_past now target_date zone none = false
is_past now target_date zone (some cutoff) = leb (cutoff_instant target_date zone cutoff) now

unfoldable pub frozen_reason :
    ℕ → ℕ → Zone → Option BookingCutoffConfig → List ℕ → Option FrozenReason
unfolding cutoff_instant
frozen_reason now target_date zone cutoff skip_dates =
    if is_past now target_date zone cutoff
    then some by_cutoff
    else if elem target_date skip_dates
    then some by_skip
    else none

unfoldable pub is_past_booking_cutoff : ℕ → ℕ → Zone → BookingCutoffConfig → Bool
unfolding frozen_reason
is_past_booking_cutoff now target_date zone cutoff =
    elim (frozen_reason now target_date zone (some cutoff) []) [ some by_cutoff ↦ true | _ ↦ false ]

-- The clock is read twice: `first` gives the date, and `now` is what the cutoff is held against.
unfoldable pub should_book_today :
    ℕ → ℕ → Zone → ℕ → List ℕ → List ℕ → Option BookingCutoffConfig → Bool
unfolding weekday
should_book_today first now zone target_offset wanted_weekdays skip_dates cutoff =
    let target = (zone.to_local first).day + target_offset in
    if not (elem (weekday target) wanted_weekdays)
    then false
    else is_none (frozen_reason now target zone cutoff skip_dates)

-- `et_hour == fire_time.hour - 1`, which no hour meets for a fire time in hour 0.
unfoldable pub should_proceed : ℕ → Zone → ℕ → Bool
should_proceed now zone fire_time = hour (zone.to_local now).time + 1 == hour fire_time

-- `if test: out.add(day)`, on a set.
abbrev pub add_when : Bool → ℕ → List ℕ → List ℕ
add_when test day out = if test then (if elem day out then out else day ∷ out) else out

-- `(w - today.weekday()) % 7`; a weekday index is at most 6.
abbrev pub days_until : ℕ → ℕ → ℕ
days_until today w = (w + 7 - weekday today) % 7

abbrev pub collect_weekday : ℕ → ℕ → ℕ → List ℕ → List ℕ
collect_weekday today horizon_days w out =
    let delta = days_until today w in
    add_when (delta == 0 && leb 7 horizon_days) (today + 7)
      (add_when (leb delta horizon_days) (today + delta) out)

abbrev pub collect_days : ℕ → ℕ → List ℕ → List ℕ → List ℕ
collect_days today horizon_days [] out = out
collect_days today horizon_days (w ∷ rest) out =
    collect_days today horizon_days rest (collect_weekday today horizon_days w out)

unfoldable pub next_occurrences_within_horizon : ℕ → List ℕ → ℕ → List ℕ
unfolding weekday
next_occurrences_within_horizon today wanted_weekdays horizon_days =
    sort_by leb (collect_days today horizon_days wanted_weekdays [])

pub record ReleasePolicy : Type 0 where
  pub advance_days : ℕ
  pub release_time : ℕ
  pub timezone : Zone
  pub hosted_booking : Bool

pub data PolicyError : Type 0 where
  hour_out_of_band crosses_midnight outside_gate_hour : PolicyError

abbrev pub minutes_of_day : ℕ → ℕ
minutes_of_day t = hour t * 60 + minute t

-- The checks on a negative `advance_days` or lead, on the zone's name and on a `tzinfo` have
-- nothing to refuse in these types.
unfoldable pub validate_release_policy : ReleasePolicy → ℕ → Result PolicyError (Unit {0})
validate_release_policy policy lead_minutes = do
  let total = minutes_of_day policy.release_time
  guard (leb 4 (hour policy.release_time) && leb (hour policy.release_time) 22) hour_out_of_band
  guard (leb lead_minutes total) crosses_midnight
  guard ((total - lead_minutes) / 60 + 1 == hour policy.release_time) outside_gate_hour

unfoldable pub fire_time_for : ReleasePolicy → ℕ → Result PolicyError ℕ
unfolding validate_release_policy
fire_time_for policy lead_minutes = do
  validate_release_policy policy lead_minutes
  ok ((minutes_of_day policy.release_time - lead_minutes) * minute_us)

unfoldable pub release_instant_for : ReleasePolicy → ℕ → ℕ
release_instant_for policy now =
    policy.timezone.to_instant (policy.timezone.to_local now).day policy.release_time

unfoldable pub target_date_for : ReleasePolicy → ℕ → ℕ
target_date_for policy now = (policy.timezone.to_local now).day + policy.advance_days
