-- ===== src/Tenant/Semantics/Examples.antt =====
-- One booked row, a withdrawn rule row and its rule, and the theorems at them.
use tee_time_booker.Prelude.{
  All, arith, ◌≢◌, ℕ, ◌+◌, ◌*◌, ◌≡◌, ◌↔◌, ◌⊎◌, refl, true, false, Option, none, some, [], ◌∷◌, ok,
  err, Member,
}
use tee_time_booker.Core.Calendar.{weekday, utc, day_us, hour_us}
use tee_time_booker.Core.Models.{plain, tagged}
use tee_time_booker.Tenant.Rows.{
  check_create, row_is_frozen, pending, booked, withdrawn, superseded, rule, web, materializer,
  booking_runner, rule_deactivated, StandingRule, RequestRow, OwnedBooking, held, check_transition,
  is_user_terminal, is_system_reason, prior, wrong_actor, is_frozen,
}
use tee_time_booker.Tenant.Rows.Edges.{Edge}
use tee_time_booker.Tenant.Semantics.Outcomes.Ledger.{IsAbout, validate_ledger_iff}
use tee_time_booker.Tenant.Rows.Soundness.{MayCreate, check_create_iff, check_transition_iff}
use tee_time_booker.Core.Policy.{BookingCutoffConfig}
use tee_time_booker.Tenant.Semantics.Intents.{new_row, rule_intent, cutoff_config_of, upserted_rule}
use tee_time_booker.Tenant.Semantics.Rules.{
  Keeps, cutoff_config_of-new_row, upserted_rule_watermark,
}
use tee_time_booker.Tenant.Semantics.Restoring.{
  restored, restore_first, stored_rule, rule_covers_row, unleased_write, restorable_rule_row,
}
use tee_time_booker.Tenant.Semantics.Restored.{IsRestorable, restorable_rule_row_sound}
use tee_time_booker.Tenant.Semantics.Outcomes.{
  validate_ledger, RowOutcome, outcome_row, booking_fields,
}
use tee_time_booker.Tenant.Semantics.Outcomes.Versions.{SameFacts, version_tells}

-- 06:00 of ordinal 740000, a Tuesday.
abbrev now : ℕ
now = 740_000 * day_us + 6 * hour_us

-- Withdrawn when its rule was switched off; the rule is on again.
abbrev withdrawn_row : RequestRow
withdrawn_row = record {
  id = 1;
  course_account_id = 7;
  course_id = 3;
  target_date = 740_007;
  timezone = utc;
  options = record { rank = 0; earliest = 7 * hour_us; latest = 9 * hour_us } ∷ [];
  party_size = 4;
  status = withdrawn;
  source = rule;
  cutoff_at = 740_006 * day_us;
  request_id = 11;
  version = 5;
  rule_id = some 2;
  status_reason = some rule_deactivated;
  booked_tee_time = none;
  booked_confirmation = none;
  booked_raw_id = none;
  booked_at = none;
  needs_reconcile = false;
  upgrade_started_at = none;
  booking_cutoff = none;
  superseded_from = none;
  lease_owner = none;
  lease_expires_at = none;
  last_outcome = none;
  last_outcome_at = none;
  group_id = none;
  group_rank = none;
  max_price = none;
}

abbrev weekly_rule : StandingRule
weekly_rule = record {
  id = 2;
  course_account_id = 7;
  weekday_index = 1;
  options = record { rank = 0; earliest = 8 * hour_us; latest = 9 * hour_us } ∷ [];
  party_size = 2;
  active = true;
  materialized_through = some 740_014;
  version = 3;
  max_price = none;
  group_id = none;
  group_rank = none;
  booking_cutoff = none;
}

abbrev rules : ℕ → Option StandingRule
rules id = some weekly_rule

-- The materializer may move the row back; the web may not, and nobody may once it is frozen.
moves_back :
    (check_transition withdrawn_row pending materializer now none false ≡ ok tt)
    × (check_transition withdrawn_row pending web now none false ≡ err wrong_actor)
    × (check_transition withdrawn_row pending materializer (740_006 * day_us) none false
        ≡ err is_frozen)
unfolding check_transition
moves_back = (refl, refl, refl)

check_transition_iff_example :
    (check_transition withdrawn_row pending materializer now none false ≡ ok tt)
    ↔ Edge withdrawn_row pending materializer now none false
check_transition_iff_example =
    check_transition_iff withdrawn_row materializer now none false pending

abbrev given_back : RequestRow
given_back = record withdrawn_row {
  status = pending;
  status_reason = none;
  version = 6;
  options = weekly_rule.options;
  party_size = 2;
}

gives_back :
    restorable_rule_row (withdrawn_row ∷ []) rules now ≡ ok (some (withdrawn_row, given_back))
unfolding restorable_rule_row restore_first stored_rule rule_covers_row restored unleased_write
    check_transition weekday
gives_back = refl

restorable_rule_row_sound_example :
    ((stored : StandingRule) × Member withdrawn_row (withdrawn_row ∷ [])
      × ((withdrawn ≡ superseded)
          ⊎ ((withdrawn ≡ withdrawn) × (is_system_reason (some rule_deactivated) ≡ true)))
      × IsRestorable rules now withdrawn_row stored
      × (pending ≡ prior withdrawn_row)
      × (given_back.version ≡ withdrawn_row.version + 1))
    × ((r : RequestRow) → Member r (withdrawn_row ∷ []) → is_user_terminal r ≡ false)
restorable_rule_row_sound_example =
    restorable_rule_row_sound (withdrawn_row ∷ []) rules now gives_back

-- A pending row that the booking run holds.
abbrev row_in_run : RequestRow
row_in_run = record given_back { lease_owner = some 42; lease_expires_at = some (now + 100) }

abbrev booking : OwnedBooking
booking = record {
  id = 9;
  row_id = 1;
  course_account_id = 7;
  course_id = 3;
  target_date = 740_007;
  raw_reservation_id = plain 77;
  tee_time = 740_007 * day_us + 8 * hour_us;
  party_size = 2;
  state = held;
}

abbrev won : RowOutcome
won = record {
  row_id = 1;
  course_account_id = 7;
  target_date = 740_007;
  actor = booking_runner;
  to_status = some booked;
  last_outcome = 1;
  at = now;
  result = none;
  booking = some booking;
  cancelled_extras = [];
  held_extras = [];
  cancelled_upgrade_raw_id = none;
  clear_upgrade_marker = false;
  needs_reconcile = false;
  status_reason = none;
  release_lease_owner = some 42;
}

abbrev booked_row : RequestRow
booked_row = record given_back {
  status = booked;
  version = 7;
  booked_tee_time = some (740_007 * day_us + 8 * hour_us);
  booked_confirmation = some (tagged (plain 77));
  booked_raw_id = some (plain 77);
  booked_at = some now;
  last_outcome = some 1;
  last_outcome_at = some now;
}

writes_won : outcome_row row_in_run won ≡ ok booked_row
unfolding outcome_row booking_fields check_transition
writes_won = refl

version_tells_example :
    ((booked_row.version ≡ row_in_run.version) × SameFacts booked_row row_in_run)
    ⊎ ((booked_row.version ≡ row_in_run.version + 1) × (¬ SameFacts booked_row row_in_run))
version_tells_example = version_tells row_in_run won writes_won

-- 16:00 two days before.
abbrev two_days_before : BookingCutoffConfig
two_days_before = record { days_before = 2; time_of_day = 16 * hour_us }

cutoff_config_of-new_row_example :
    cutoff_config_of (
      new_row
        (λ id. id + 10)
        1
        7
        3
        utc
        two_days_before
        740_007
        (rule_intent weekly_rule)
        pending
        rule
        (some 2)
        none)
    ≡ some two_days_before
cutoff_config_of-new_row_example =
    cutoff_config_of-new_row (λ id. id + 10) 1 7 3 utc two_days_before 740_007
      (rule_intent weekly_rule) pending rule (some 2) none (omega arith) refl

-- The rule moved to Wednesdays.
abbrev moved_rule : StandingRule
moved_rule = record weekly_rule { weekday_index = 2 }

clears_watermark : (upserted_rule moved_rule (some weekly_rule)).materialized_through ≡ none
unfolding upserted_rule
clears_watermark = refl

upserted_rule_watermark_example :
    ((upserted_rule moved_rule (some weekly_rule)).version ≡ 3 + 1)
    × ((((moved_rule.weekday_index ≢ weekly_rule.weekday_index) ⊎ ((true ≡ true) × (true ≡ false)))
          × ((upserted_rule moved_rule (some weekly_rule)).materialized_through ≡ none))
        ⊎ ((moved_rule.weekday_index ≡ weekly_rule.weekday_index)
            × ((true ≡ false) ⊎ (true ≡ true))
            × Keeps weekly_rule.materialized_through
                (upserted_rule moved_rule (some weekly_rule)).materialized_through))
upserted_rule_watermark_example = upserted_rule_watermark moved_rule weekly_rule

check_create_iff_example :
    (check_create given_back materializer now ≡ ok tt)
    ↔ (MayCreate rule pending materializer × (row_is_frozen given_back now ≡ false))
check_create_iff_example = check_create_iff given_back materializer now

validate_ledger_iff_example :
    (validate_ledger won (some 3) ≡ ok tt) ↔ All (IsAbout won (some 3)) (booking ∷ [])
validate_ledger_iff_example = validate_ledger_iff won (some 3)
