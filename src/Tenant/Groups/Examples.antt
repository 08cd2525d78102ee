-- ===== src/Tenant/Groups/Examples.antt =====
-- A group with two bookings, of which the worse one is owned, and the theorems at it.
use tee_time_booker.Prelude.{
  List, Member, [], false, inl, none, refl, select, some, true, ℕ, ◌*◌, ◌+◌, ◌<◌, ◌↔◌, ◌∷◌, ◌≡◌,
  ◌⊎◌,
}
use tee_time_booker.Core.Calendar.{day_us, hour_us, second_us, utc}
use tee_time_booker.Core.Models.{Code, plain, same_code}
use tee_time_booker.Core.Policy.{cutoff_instant}
use tee_time_booker.Tenant.Groups.Best.{Keeps, plan_collapse_splits}
use tee_time_booker.Tenant.Groups.Collapse.{
  Setting, World, cancel_done, downgrade, entry_for, held_entries, list_owned_bookings,
  mark_double_held,
}
use tee_time_booker.Tenant.Groups.Floor.{IsRival, group_floor_exact}
use tee_time_booker.Tenant.Groups.Ranks.{booked_rank, group_floor, is_booked, plan_collapse}
use tee_time_booker.Tenant.Groups.Report.{
  cancel_one, cancel_worse, collapse_group, notify_manual, plan_in,
}
use tee_time_booker.Tenant.Groups.Spares.{collapse_group_cancels}
use tee_time_booker.Tenant.Groups.Standing.{HasRank}
use tee_time_booker.Tenant.Rows.{
  OwnedBooking, RankedWindow, RequestRow, booked, check_transition, explicit, held, watcher,
}
use tee_time_booker.Tenant.Semantics.Intents.{RowIntent, new_row}
use tee_time_booker.Tenant.Semantics.Outcomes.{
  becomes_bookable, booking_fields, fingerprint_matches, outcome_row, validate_ledger,
}
use tee_time_booker.Tenant.Semantics.Restoring.{rule_covers_row}
use tee_time_booker.Tenant.Store.{
  commit, set_slot, same_row, acquire_row_lease, apply_outcome, flag_active_row, outcome_plan,
  record_outcomes, release_row_lease, set_upgrade_marker, settle_outcome, write_ledger, empty_store,
  guard_may_become_active, refuse_if_user_terminal,
}

-- 06:00 of ordinal 740000.
abbrev now : ℕ
now = 740_000 * day_us + 6 * hour_us

abbrev wishes : RowIntent
wishes = record {
  options =
      record { rank = 0; earliest = 8 * hour_us; latest = 9 * hour_us }
      ∷ record { rank = 1; earliest = 10 * hour_us; latest = 11 * hour_us }
      ∷ [];
  party_size = 2;
  max_price = none;
  group_id = some 9;
  group_rank = none;
}

abbrev booked_at_hour : (id account : ℕ) → ℕ → Code → RequestRow
booked_at_hour id account tee code =
    record (new_row (λ i. i + 10) id account 3 utc (record { days_before = 1; time_of_day = 0 })
      740_007 wishes booked explicit none none) {
        booked_tee_time = some (740_007 * day_us + tee * hour_us);
        booked_raw_id = some code;
      }

abbrev better : RequestRow
better = booked_at_hour 1 703 8 (plain 801)

abbrev worse : RequestRow
worse = booked_at_hour 2 704 10 (plain 802)

abbrev group : List RequestRow
group = worse ∷ better ∷ []

abbrev worse_entry : OwnedBooking
worse_entry = record {
  id = 5;
  row_id = 2;
  course_account_id = 704;
  course_id = 3;
  target_date = 740_007;
  raw_reservation_id = plain 802;
  tee_time = 740_007 * day_us + 10 * hour_us;
  party_size = 2;
  state = held;
}

abbrev world : World
world = record {
  store = record empty_store {
    rows = group;
    slots = set_slot (set_slot empty_store.slots 703 740_007 (some 1)) 704 740_007 (some 2);
    ledger = worse_entry ∷ [];
  };
  cancels = [];
  reads = 0;
}

abbrev night_run : Setting
night_run = record {
  session = λ account. some (λ before code. cancel_done);
  clock = λ reads. now + reads;
  code_le = λ a b. true;
  actor = watcher;
  owner = 5;
  lease_us = 120 * second_us;
  dry_run = false;
}

-- The worse booking is cancelled.
sent_one : Member (704, plain 802) (collapse_group night_run group world).1.cancels
unfolding collapse_group cancel_worse cancel_one downgrade notify_manual mark_double_held entry_for
    held_entries list_owned_bookings plan_collapse booked_rank acquire_row_lease set_upgrade_marker
    release_row_lease record_outcomes apply_outcome settle_outcome outcome_plan write_ledger
    flag_active_row validate_ledger outcome_row booking_fields commit guard_may_become_active
    refuse_if_user_terminal rule_covers_row becomes_bookable same_row fingerprint_matches
    check_transition new_row cutoff_instant same_code
sent_one = inl refl

collapse_group_cancels_example :
    Member (704, plain 802) world.cancels
    ⊎ ((night_run.dry_run ≡ false)
        × ((row : RequestRow) × Member row (plan_in night_run group world).cancel
            × (row.course_account_id ≡ 704)
            × (row.booked_raw_id ≡ some (plain 802))))
collapse_group_cancels_example =
    collapse_group_cancels night_run group world 704 (plain 802) sent_one

plan_collapse_splits_example :
    ((select is_booked group ≡ [])
      × ((plan_collapse group is_booked).keep ≡ none)
      × ((plan_collapse group is_booked).cancel ≡ [])
      × ((plan_collapse group is_booked).leave_manual ≡ []))
    ⊎ ((best : RequestRow) × Keeps
          (select is_booked group)
          is_booked
          (plan_collapse group is_booked)
          best)
plan_collapse_splits_example = plan_collapse_splits group is_booked

abbrev first_wish : RankedWindow
first_wish = record { rank = 0; earliest = 8 * hour_us; latest = 9 * hour_us }

group_floor_exact_example : Member first_wish (group_floor worse group) ↔ (
    Member first_wish worse.options
    × ((other : RequestRow) (n : ℕ)
        → Member other group
        → IsRival worse other
        → HasRank other n
        → 0 < n))
group_floor_exact_example = group_floor_exact worse group first_wish
