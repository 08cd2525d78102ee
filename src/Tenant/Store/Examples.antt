-- ===== src/Tenant/Store/Examples.antt =====
-- A site, a few calls on a new store, a store with one pending row, and the theorems at them.
use tee_time_booker.Prelude.{
  List, Member, Option, [], arith, false, inl, none, ok, refl, some, true, ℕ, ◌*◌, ◌+◌, ◌<◌, ◌↔◌,
  ◌∷◌, ◌≡◌, ◌≢◌, ◌≤◌,
}
use tee_time_booker.Core.Calendar.{day_us, hour_us, utc, weekday}
use tee_time_booker.Core.Models.{plain}
use tee_time_booker.Core.Policy.{cutoff_instant}
use tee_time_booker.Tenant.Rows.{
  OwnedBooking, RequestRow, StandingRule, booked, booking_runner, check_create, check_transition,
  explicit, held, pending, rule, user_withdrawn, web, withdrawn,
}
use tee_time_booker.Tenant.Semantics.Intents.{new_row, resolve_cutoff, rule_intent, upserted_rule}
use tee_time_booker.Tenant.Semantics.Outcomes.{
  RowFingerprint, RowOutcome, becomes_bookable, fingerprint_matches, is_active, validate_ledger,
}
use tee_time_booker.Tenant.Semantics.Restoring.{rule_covers_row, unleased_write}
use tee_time_booker.Tenant.Store.Calls.{
  Call, call, claiming, creating, inserting, moving, run, saving_account, saving_rule,
}
use tee_time_booker.Tenant.Store.Commit.{commit, set_slot}
use tee_time_booker.Tenant.Store.Covered.{IsCovered, IsGivenUp, Opens, commit-covers, enters}
use tee_time_booker.Tenant.Store.Equality.{same_row}
use tee_time_booker.Tenant.Store.Leasing.{lease_excludes}
use tee_time_booker.Tenant.Store.Leasing.Others.{
  LeaseCall, acquires_row, after_calls, claims_row, releases_row,
}
use tee_time_booker.Tenant.Store.Materializing.{insert_rule_row_if_absent}
use tee_time_booker.Tenant.Store.Offers.{load_event_rows_exact}
use tee_time_booker.Tenant.Store.Plans.{
  create, cutoff_for, for_each, new_store_row, perform, stored_rule_matching,
}
use tee_time_booker.Tenant.Store.Reach.{
  one_active_row, one_active_rule, run-Grows, slots_name_active_rows,
}
use tee_time_booker.Tenant.Store.Recorded.{apply_outcome-Records}
use tee_time_booker.Tenant.Store.Running.{
  acquire_row_lease, apply_outcome, claim_row, claim_rows, course_of, leased_row,
}
use tee_time_booker.Tenant.Store.State.{
  CourseAccount, Site, Store, account_active, account_at, account_for_user, covers_row, empty_store,
  guard_may_become_active, refuse_if_user_terminal, row_at, rule_at,
}
use tee_time_booker.Tenant.Store.Watching.{EventRow, load_event_rows}
use tee_time_booker.Tenant.Store.Web.{
  create_explicit_row, superseded_row, upsert_account, upsert_rule,
}

-- 06:00 of ordinal 740000, a Tuesday.
abbrev now : ℕ
now = 740_000 * day_us + 6 * hour_us

abbrev test_site : Site
test_site = record {
  course_timezone = λ course. some utc;
  cutoff = record { days_before = 1; time_of_day = 0 };
  max_accounts_per_course = 8;
  row_request_id = λ id. id + 10;
  rule_row_id = λ rule_id day. rule_id * 1_000_000 + day;
  derive_account_id = λ user course. user * 100 + course;
  casefold = λ text. text;
}

abbrev golfer : CourseAccount
golfer = record {
  id = 703;
  user_id = 7;
  course_id = 3;
  username = 55;
  status = account_active;
  consecutive_soft_auth_failures = 0;
  default_max_price = 9_000;
}

abbrev weekly : StandingRule
weekly = record {
  id = 2;
  course_account_id = 703;
  weekday_index = 1;
  options = record { rank = 0; earliest = 8 * hour_us; latest = 9 * hour_us } ∷ [];
  party_size = 2;
  active = true;
  materialized_through = none;
  version = 1;
  max_price = none;
  group_id = none;
  group_rank = none;
  booking_cutoff = none;
}

-- The rule's row of the next Tuesday gives way to a one-off, which the run claims.
abbrev calls : List Call
calls =
    saving_account golfer
    ∷ saving_rule weekly 7
    ∷ inserting weekly 740_007 now
    ∷ creating 99 7 703 740_007 (rule_intent weekly) now none
    ∷ claiming (99 ∷ []) 5 (now + hour_us) now
    ∷ []

abbrev reached : Store
reached = run test_site calls empty_store

abbrev one_off : RequestRow
one_off =
    leased_row
      (new_row test_site.row_request_id 99 703 3 utc test_site.cutoff 740_007 (rule_intent weekly)
        pending explicit none none)
      5 (now + hour_us)

calls_reach : (row_at reached 99 ≡ some one_off) × (rule_at reached 2 ≡ some weekly)
unfolding run call claim_rows claim_row for_each upsert_account upsert_rule upserted_rule
    insert_rule_row_if_absent create_explicit_row new_store_row stored_rule_matching
    account_for_user refuse_if_user_terminal guard_may_become_active commit rule_covers_row
    becomes_bookable same_row check_create check_transition superseded_row unleased_write cutoff_for
    resolve_cutoff new_row rule_intent cutoff_instant weekday
calls_reach = (refl, refl)

slots_name_active_rows_example : (reached.slots 703 740_007 ≡ some 99) ↔ (
    (r : RequestRow) × (row_at reached 99 ≡ some r)
    × (is_active r.status ≡ true)
    × (r.course_account_id ≡ 703)
    × (r.target_date ≡ 740_007))
slots_name_active_rows_example = slots_name_active_rows test_site calls 703 740_007 99

one_active_row_example : ◌≡◌ {A = ℕ} 99 99
unfolding new_row
one_active_row_example =
    one_active_row test_site calls 99 99 calls_reach.0 calls_reach.0 refl refl refl refl

one_active_rule_example : ◌≡◌ {A = ℕ} 2 2
one_active_rule_example =
    one_active_rule test_site calls 2 2 calls_reach.1 calls_reach.1 refl refl refl refl

-- The one-off is withdrawn while the run holds it: nothing happens.
abbrev later_calls : List Call
later_calls = moving 99 (some 7) withdrawn web (some user_withdrawn) now ∷ []

run-Grows_example :
    (r' : RequestRow) × (row_at (run test_site later_calls reached) 99 ≡ some r')
    × (r'.course_account_id ≡ 703)
    × (r'.target_date ≡ 740_007)
    × (one_off.version ≤ r'.version)
unfolding new_row
run-Grows_example = run-Grows test_site later_calls reached 99 calls_reach.0

-- A store with the rule's row alone.
abbrev tuesday_row : RequestRow
tuesday_row =
    new_row test_site.row_request_id 2_740_007 703 3 utc test_site.cutoff 740_007
      (rule_intent weekly) pending rule (some 2) none

abbrev one_rule : Store
one_rule = record empty_store { accounts = golfer ∷ []; rules = weekly ∷ [] }

abbrev one_row : Store
one_row = record one_rule {
  rows = tuesday_row ∷ [];
  slots = set_slot one_rule.slots 703 740_007 (some 2_740_007);
}

commit_one : commit (create tuesday_row ∷ []) one_rule ≡ ok one_row
unfolding commit guard_may_become_active refuse_if_user_terminal rule_covers_row becomes_bookable
    new_row rule_intent cutoff_instant weekday
commit_one = refl

tuesday_row_source : tuesday_row.source ≡ rule
unfolding new_row
tuesday_row_source = refl

tuesday_row-Opens : Opens (row_at one_rule tuesday_row.id) tuesday_row
unfolding new_row
tuesday_row-Opens = enters refl (inl refl)

commit-covers_example :
    IsCovered one_rule tuesday_row
    × ((r : RequestRow)
        → Member r one_rule.rows
        → r.course_account_id ≡ tuesday_row.course_account_id
        → r.target_date ≡ tuesday_row.target_date
        → ¬ IsGivenUp r)
commit-covers_example =
    commit-covers (create tuesday_row ∷ []) one_rule (create tuesday_row) commit_one (inl refl)
      tuesday_row_source tuesday_row-Opens

abbrev event : EventRow
event = record { row = tuesday_row; account = golfer }

load_event_rows_exact_example :
    Member event (load_event_rows one_row (λ course. some 740_007) now) ↔ (
      Member tuesday_row one_row.rows
      × (tuesday_row.status ≡ pending)
      × (◌≡◌ {A = Option ℕ} (some 740_007) (some tuesday_row.target_date))
      × (now < tuesday_row.cutoff_at)
      × (covers_row one_row tuesday_row ≡ true)
      × (account_at one_row tuesday_row.course_account_id ≡ some golfer)
      × (golfer.status ≡ account_active))
load_event_rows_exact_example = load_event_rows_exact one_row (λ course. some 740_007) now event

abbrev held_row : Store
held_row = record one_row { rows = leased_row tuesday_row 5 (now + hour_us) ∷ [] }

acquires :
    perform one_row (acquire_row_lease one_row 2_740_007 5 (now + hour_us) now none)
    ≡ (ok true, held_row)
unfolding acquire_row_lease commit guard_may_become_active refuse_if_user_terminal rule_covers_row
    becomes_bookable same_row new_row rule_intent cutoff_instant fingerprint_matches
acquires = refl

abbrev others : List LeaseCall
others =
    claims_row 2_740_007 6 (now + day_us) (now + 1)
    ∷ releases_row 2_740_007 6 (now + 2)
    ∷ acquires_row 2_740_007 7 (now + day_us) (now + 3) none
    ∷ []

lease_excludes_example :
    (row_at (after_calls others held_row) 2_740_007 ≡ row_at held_row 2_740_007)
    × ((other until now' : ℕ) (expected : Option RowFingerprint)
        → 5 ≢ other
        → now' < now + hour_us
        → perform
            (after_calls others held_row)
            (acquire_row_lease (after_calls others held_row) 2_740_007 other until now' expected)
          ≡ (ok false, after_calls others held_row))
lease_excludes_example =
    lease_excludes one_row 2_740_007 5 (now + hour_us) now none acquires others
      (((λ e. cc e), omega arith), (((λ e. cc e), omega arith), (((λ e. cc e), omega arith), tt)))

-- A booking of a row that is not stored.
abbrev booking : OwnedBooking
booking = record {
  id = 1;
  row_id = 44;
  course_account_id = 703;
  course_id = 3;
  target_date = 740_007;
  raw_reservation_id = plain 800;
  tee_time = 740_007 * day_us + 8 * hour_us;
  party_size = 2;
  state = held;
}

abbrev lost_row : RowOutcome
lost_row = record {
  row_id = 44;
  course_account_id = 703;
  target_date = 740_007;
  actor = booking_runner;
  to_status = some booked;
  last_outcome = 1;
  at = now;
  result = none;
  booking = some booking;
  cancelled_extras = [];
  held_extras = [];
  cancelled_upgrade_raw_id = none;
  clear_upgrade_marker = false;
  needs_reconcile = false;
  status_reason = none;
  release_lease_owner = some 5;
}

valid_ledger : validate_ledger lost_row (course_of (row_at one_row 44)) ≡ ok tt
unfolding validate_ledger new_row
valid_ledger = refl

apply_outcome-Records_example :
    (kept : OwnedBooking) × Member kept (apply_outcome one_row lost_row).1.ledger
    × (kept.course_account_id ≡ 703)
    × (kept.course_id ≡ 3)
    × (kept.raw_reservation_id ≡ plain 800)
apply_outcome-Records_example =
    apply_outcome-Records one_row lost_row booking valid_ledger (inl refl)
