-- ===== src/Core/Policy/Examples.antt =====
-- The date policies at concrete dates, in UTC.
use tee_time_booker.Prelude.{
  ℕ, ◌+◌, ◌*◌, ◌≡◌, refl, ◌↔◌, true, false, some, [], ◌∷◌, Member, IsDistinct, IsSortedBy, leb, ok,
  arith,
}
use tee_time_booker.Core.Calendar.{hour, weekday, utc, day_us, hour_us, minute_us}
use tee_time_booker.Core.Policy.{
  BookingCutoffConfig, frozen_reason, should_book_today, should_proceed,
  next_occurrences_within_horizon, ReleasePolicy, fire_time_for,
}
use tee_time_booker.Core.Policy.Gates.{IsBeforeCutoff, should_book_today_iff, fire_time_passes_gate}
use tee_time_booker.Core.Policy.Horizon.{Watches, next_occurrences_exact}

-- 16:00 on the day before.
abbrev day_before : BookingCutoffConfig
day_before = record { days_before = 1; time_of_day = 16 * hour_us }

-- Ordinal 740000 is a Tuesday, and 05:50 of that day.
abbrev morning : ℕ
morning = 740_000 * day_us + 5 * hour_us + 50 * minute_us

books_wanted_day :
    (should_book_today morning morning utc 7 (1 ∷ []) [] (some day_before) ≡ true)
    × (should_book_today morning morning utc 7 (1 ∷ []) (740_007 ∷ []) (some day_before) ≡ false)
    × (should_book_today morning morning utc 0 (1 ∷ []) [] (some day_before) ≡ false)
unfolding should_book_today frozen_reason
books_wanted_day = (refl, refl, refl)

should_book_today_example :
    (should_book_today morning morning utc 7 (1 ∷ []) [] (some day_before) ≡ true) ↔ (
      Member {A = ℕ} (weekday 740_007) (1 ∷ [])
      × IsBeforeCutoff morning 740_007 utc (some day_before)
      × (¬ Member {A = ℕ} 740_007 []))
should_book_today_example =
    should_book_today_iff morning morning utc 7 (1 ∷ []) [] (some day_before)

abbrev mangrove_bay : ReleasePolicy
mangrove_bay = record {
  advance_days = 7;
  release_time = 6 * hour_us;
  timezone = utc;
  hosted_booking = true;
}

fires_at : fire_time_for mangrove_bay 10 ≡ ok (5 * hour_us + 50 * minute_us)
unfolding fire_time_for
fires_at = refl

fire_time_passes_gate_example :
    (should_proceed morning utc (6 * hour_us) ≡ true)
    ↔ (hour (utc.to_local morning).time ≡ hour (5 * hour_us + 50 * minute_us))
fire_time_passes_gate_example = fire_time_passes_gate mangrove_bay 10 morning fires_at

-- On a Sunday the watcher watches Sunday, Saturday and the Sunday after.
watches_both_sundays :
    next_occurrences_within_horizon 740_005 (6 ∷ 5 ∷ []) 7 ≡ 740_005 ∷ 740_011 ∷ 740_012 ∷ []
unfolding next_occurrences_within_horizon
watches_both_sundays = refl

next_occurrences_exact_example :
    ((day : ℕ)
      → Member day (next_occurrences_within_horizon 740_005 (6 ∷ 5 ∷ []) 7)
        ↔ ((w : ℕ) × Member w (6 ∷ 5 ∷ []) × Watches 740_005 7 w day))
    × IsDistinct (next_occurrences_within_horizon 740_005 (6 ∷ 5 ∷ []) 7)
    × IsSortedBy leb (next_occurrences_within_horizon 740_005 (6 ∷ 5 ∷ []) 7)
next_occurrences_exact_example = next_occurrences_exact 740_005 7 (6 ∷ 5 ∷ []) (omega arith)
