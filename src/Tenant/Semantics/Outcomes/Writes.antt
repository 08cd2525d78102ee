-- ===== src/Tenant/Semantics/Outcomes/Writes.antt =====
-- `outcome_row`, `booking_fields`, `ledger_entries`, `validate_ledger`, `becomes_bookable` and
-- `fingerprint_matches`.
use tee_time_booker.Prelude.{
  ℕ, ◌+◌, Bool, true, false, not, ◌&&◌, ◌||◌, Option, none, some, List, [], ◌∷◌, ◌++◌, is_none,
  same_option, ◌==◌, if◌then◌else◌, Result, ok, guard, ◌>>◌,
}
use tee_time_booker.Core.Models.{Code, tagged, strip_tag, same_code?, BookingResult}
use tee_time_booker.Tenant.Rows.{
  RequestRow, RowStatus, pending, booked, skipped, cancelled, Actor, web, booking_runner, watcher,
  Reason, OwnedBooking, has_actor, is_status, lease_held, check_transition,
}
use tee_time_booker.Tenant.Semantics.Restoring.{not_leased_edge, WriteError, leased, or_refused}

-- store.py
pub record RowOutcome : Type 0 where
  pub row_id : ℕ
  pub course_account_id : ℕ
  pub target_date : ℕ
  pub actor : Actor
  pub to_status : Option RowStatus
  pub last_outcome : ℕ
  pub at : ℕ
  pub result : Option BookingResult
  pub booking : Option OwnedBooking
  pub cancelled_extras : List OwnedBooking
  pub held_extras : List OwnedBooking
  pub cancelled_upgrade_raw_id : Option Code
  pub clear_upgrade_marker : Bool
  pub needs_reconcile : Bool
  pub status_reason : Option Reason
  pub release_lease_owner : Option ℕ

pub record RowFingerprint : Type 0 where
  pub status : RowStatus
  pub version : ℕ
  pub booked_raw_id : Option Code

unfoldable pub fingerprint_matches : RequestRow → Option RowFingerprint → Bool
fingerprint_matches row none = true
fingerprint_matches row (some expected) =
    is_status row.status expected.status
    && (row.version == expected.version && same_code? row.booked_raw_id expected.booked_raw_id)

abbrev pub is_active : RowStatus → Bool
is_active pending = true
is_active booked = true
is_active skipped = true
is_active _ = false

unfoldable pub becomes_bookable : Option RequestRow → RequestRow → Bool
becomes_bookable old new =
    if not (is_status new.status pending || is_status new.status skipped) then false else elim old [
      | none ↦ true
      | some was ↦
          if not (is_active was.status)
          then true
          else is_status was.status skipped && is_status new.status pending
    ]

-- `LEASED_EDGES.get((from, to), frozenset())`
abbrev pub leased_edge : RowStatus → RowStatus → List Actor
leased_edge pending booked = booking_runner ∷ watcher ∷ []
leased_edge booked booked = watcher ∷ []
leased_edge booked pending = watcher ∷ booking_runner ∷ []
leased_edge booked cancelled = watcher ∷ web ∷ []
leased_edge _ _ = []

abbrev tee_of_result : Option BookingResult → Option ℕ
tee_of_result none = none
tee_of_result (some r) = elim r.slot [ none ↦ none | some s ↦ some s.tee_time.instant ]

abbrev code_of_result : Option BookingResult → Option Code
code_of_result none = none
code_of_result (some r) = r.confirmation_code

abbrev pub booked_tee : RowOutcome → Option ℕ
booked_tee o = elim o.booking [ none ↦ tee_of_result o.result | some b ↦ some b.tee_time ]

abbrev pub booked_code : RowOutcome → Option Code
booked_code o = elim (code_of_result o.result) [
  | some code ↦ some code
  | none ↦ elim o.booking [ none ↦ none | some b ↦ some (tagged b.raw_reservation_id) ]
]

abbrev pub booked_raw : RowOutcome → Option Code
booked_raw o = elim o.booking [
  | some b ↦ some b.raw_reservation_id
  | none ↦ elim (code_of_result o.result) [ none ↦ none | some code ↦ some (strip_tag code) ]
]

abbrev fields_for : RowStatus → RequestRow → RowOutcome → RequestRow
fields_for pending row o = record row {
  booked_tee_time = none;
  booked_confirmation = none;
  booked_raw_id = none;
  booked_at = none;
}
fields_for booked row o = record row {
  booked_tee_time = booked_tee o;
  booked_confirmation = booked_code o;
  booked_raw_id = booked_raw o;
  booked_at = some o.at;
}
fields_for _ row o = row

unfoldable pub booking_fields : RequestRow → RowOutcome → RequestRow
booking_fields row o = elim o.to_status [ none ↦ row | some to ↦ fields_for to row o ]

-- `row.lease_owner is not None and row.lease_owner == o.release_lease_owner`
abbrev pub owns : RequestRow → RowOutcome → Bool
owns row o = not (is_none row.lease_owner) && same_option row.lease_owner o.release_lease_owner

-- The refusals, in order.
abbrev pub check_outcome : RequestRow → RowOutcome → Result WriteError (Unit {0})
check_outcome row o = elim o.to_status [
  | some to ↦ (do
    guard (has_actor o.actor (leased_edge row.status to)) not_leased_edge
    or_refused (check_transition row to o.actor o.at o.status_reason o.needs_reconcile)
    guard (owns row o && lease_held row o.at) leased)
  | none ↦ guard (not (lease_held row o.at && not (owns row o && lease_held row o.at))) leased
]

-- The row with the outcome's fields, before the marker, the lease and the version.
abbrev pub with_status : RequestRow → RowOutcome → RequestRow
with_status row o =
    let base = record row { last_outcome = some o.last_outcome; last_outcome_at = some o.at } in
    elim o.to_status [
      | some to ↦ record (booking_fields base o) {
        status = to;
        status_reason = o.status_reason;
        needs_reconcile = o.needs_reconcile;
      }
      | none ↦ if o.needs_reconcile then record base { needs_reconcile = true } else base
    ]

abbrev pub with_marker : Bool → RequestRow → RequestRow
with_marker clear new = if clear then record new { upgrade_started_at = none } else new

abbrev pub without_lease : Bool → RequestRow → RequestRow
without_lease release new =
    if release then record new { lease_owner = none; lease_expires_at = none } else new

abbrev pub same_flag : Bool → Bool → Bool
same_flag true true = true
same_flag false false = true
same_flag _ _ = false

abbrev pub is_changed : RequestRow → RequestRow → Bool
is_changed new row = not (
    is_status new.status row.status
    && (same_flag new.needs_reconcile row.needs_reconcile
        && same_code? new.booked_raw_id row.booked_raw_id))

unfoldable pub outcome_row : RequestRow → RowOutcome → Result WriteError RequestRow
unfolding booking_fields
outcome_row row o = do
  check_outcome row o
  let new = without_lease (owns row o) (with_marker o.clear_upgrade_marker (with_status row o))
  ok (if is_changed new row then record new { version = row.version + 1 } else new)

abbrev pub ledger_entries : RowOutcome → List OwnedBooking
ledger_entries o =
    elim o.booking [ none ↦ [] | some b ↦ b ∷ [] ] ++ (o.held_extras ++ o.cancelled_extras)

pub data LedgerError : Type 0 where
  another_account another_date another_course : LedgerError

abbrev pub check_entry : RowOutcome → Option ℕ → OwnedBooking → Result LedgerError (Unit {0})
check_entry o course_id entry = do
  guard (entry.course_account_id == o.course_account_id) another_account
  guard (entry.target_date == o.target_date) another_date
  guard (elim course_id [ none ↦ true | some c ↦ entry.course_id == c ]) another_course

abbrev pub check_entries : RowOutcome → Option ℕ → List OwnedBooking → Result LedgerError (Unit {0})
check_entries o course_id [] = ok tt
check_entries o course_id (entry ∷ rest) =
    let later = check_entries o course_id rest in check_entry o course_id entry >> later

unfoldable pub validate_ledger : RowOutcome → Option ℕ → Result LedgerError (Unit {0})
validate_ledger o course_id = check_entries o course_id (ledger_entries o)
