-- ===== src/Tenant/Groups/Collapse.antt =====
-- `collapse_group`: its calls of the store and of the courses, in order.
use tee_time_booker.Prelude.{
  Bool, List, Option, Result, [], err, false, find, get_at, if◌then◌else◌, is_empty, is_none, ltb,
  none, not, ok, put_at, select, some, sort_by, true, ℕ, ◌&&◌, ◌++◌, ◌+◌, ◌==◌, ◌||◌, ◌∷◌,
}
use tee_time_booker.Core.Models.{Code, same_code?}
use tee_time_booker.Tenant.Groups.Ranks.{is_booked}
use tee_time_booker.Tenant.Rows.{
  Actor, BookingState, OwnedBooking, RequestRow, cancelled_group, group_downgrade, held, held_extra,
  pending,
}
use tee_time_booker.Tenant.Semantics.Outcomes.{RowFingerprint, RowOutcome}
use tee_time_booker.Tenant.Store.Batches.{written}
use tee_time_booker.Tenant.Store.{
  perform, acquire_row_lease, record_outcomes, release_row_lease, set_upgrade_marker, Store,
  StoreError,
}

-- How a course answers a cancel.
pub data CancelAnswer : Type 0 where
  cancel_done cancel_throttled cancel_failed : CancelAnswer

-- The cancels that the courses were sent, oldest first, and how often the clock was read.
pub record World : Type 0 where
  pub store : Store
  pub cancels : List (ℕ × Code)
  pub reads : ℕ

-- What the collapse is given: the session of an account, as its answers to a cancel after those
-- already sent; the clock; and the order of strings.
pub record Setting : Type 0 where
  pub session : ℕ → Option (List (ℕ × Code) → Code → CancelAnswer)
  pub clock : ℕ → ℕ
  pub code_le : Code → Code → Bool
  pub actor : Actor
  pub owner : ℕ
  pub lease_us : ℕ
  pub dry_run : Bool

pub data CollapseError : Type 0 where
  store_failed : StoreError → CollapseError
  throttled_out : CollapseError

abbrev pub Step : Type 0 → Type 0
Step A = Result CollapseError A × World

abbrev pub after_step : {A B : Type 0} → Step A → (A → World → Step B) → Step B
after_step (err e, w) next = (err e, w)
after_step (ok a, w) next = next a w

-- A store call, in the world.
abbrev pub in_store : {A : Type 0} → World → Result StoreError A × Store → Step A
in_store w (ok a, s) = (ok a, record w { store = s })
in_store w (err e, s) = (err (store_failed e), record w { store = s })

abbrev pub tick : World → World
tick w = record w { reads = w.reads + 1 }

abbrev pub is_held_state : BookingState → Bool
is_held_state held = true
is_held_state held_extra = true
is_held_state _ = false

-- The store's ledger of an account and a date, by tee time and reservation id.
unfoldable pub list_owned_bookings : (Code → Code → Bool) → Store → ℕ → ℕ → List OwnedBooking
list_owned_bookings code_le s account_id day =
    sort_by
      (λ a b.
        ltb a.tee_time b.tee_time
        || (a.tee_time == b.tee_time && code_le a.raw_reservation_id b.raw_reservation_id))
      (select (λ e. e.course_account_id == account_id && e.target_date == day) s.ledger)

unfoldable pub entry_for : Setting → Store → RequestRow → Option OwnedBooking
entry_for c s row =
    find (λ e. same_code? (some e.raw_reservation_id) row.booked_raw_id && is_held_state e.state)
      (list_owned_bookings c.code_le s row.course_account_id row.target_date)

-- The dictionary `held`, by row id.
abbrev pub add_held : ℕ → Option OwnedBooking → List (ℕ × OwnedBooking) → List (ℕ × OwnedBooking)
add_held id none entries = entries
add_held id (some e) entries = put_at (λ (i, x). i) (id, e) entries

unfoldable pub held_entries :
    Setting → Store → List RequestRow → List (ℕ × OwnedBooking) → List (ℕ × OwnedBooking)
held_entries c s [] entries = entries
held_entries c s (row ∷ rows) entries =
    held_entries c s rows
      (if is_booked row then add_held row.id (entry_for c s row) entries else entries)

abbrev pub entry_of : List (ℕ × OwnedBooking) → RequestRow → Option OwnedBooking
entry_of entries row = elim (get_at (λ (i, x). i) entries row.id) [
  | none ↦ none
  | some (i, e) ↦ some e
]

abbrev pub is_owned : List (ℕ × OwnedBooking) → RequestRow → Bool
is_owned entries row = not (is_none (entry_of entries row))

-- `last_outcome` texts.
abbrev pub double_held_outcome : ℕ
double_held_outcome = 101

abbrev pub downgrade_outcome : ℕ
downgrade_outcome = 102

abbrev plain_outcome : Setting → RequestRow → ℕ → RowOutcome
plain_outcome c row at = record {
  row_id = row.id;
  course_account_id = row.course_account_id;
  target_date = row.target_date;
  actor = c.actor;
  to_status = none;
  last_outcome = double_held_outcome;
  at = at;
  result = none;
  booking = none;
  cancelled_extras = [];
  held_extras = [];
  cancelled_upgrade_raw_id = none;
  clear_upgrade_marker = false;
  needs_reconcile = false;
  status_reason = none;
  release_lease_owner = none;
}

abbrev downgraded_outcome : Setting → RequestRow → OwnedBooking → ℕ → RowOutcome
downgraded_outcome c row entry at = record (plain_outcome c row at) {
  to_status = some pending;
  last_outcome = downgrade_outcome;
  cancelled_extras = record entry { state = cancelled_group } ∷ [];
  clear_upgrade_marker = true;
  status_reason = some group_downgrade;
  release_lease_owner = some c.owner;
}

-- One outcome written: whether the write raised nothing.
abbrev pub write_outcome : RowOutcome → World → Bool × World
write_outcome o w =
    let (errors, s) = record_outcomes (o ∷ []) w.store in (is_empty errors, record w { store = s })

unfoldable pub mark_double_held : Setting → RequestRow → World → Bool × World
mark_double_held c row w = write_outcome (plain_outcome c row (c.clock w.reads)) (tick w)

pub data Downgrade : Type 0 where
  downgraded skipped_row failed_row : Downgrade

abbrev pub as_downgrade : Bool → Downgrade
as_downgrade true = downgraded
as_downgrade false = failed_row

abbrev pub sent : ℕ → Code → World → World
sent account raw w = record w { cancels = w.cancels ++ ((account, raw) ∷ []) }

-- The write after a cancel that landed, the cancel that failed, or the one that was throttled.
abbrev pub after_cancel :
    Setting → RequestRow → OwnedBooking → CancelAnswer → World → Step Downgrade
after_cancel c row entry cancel_throttled w = (err throttled_out, w)
after_cancel c row entry cancel_failed w = (ok failed_row, w)
after_cancel c row entry cancel_done w =
    let (written, v) = write_outcome (downgraded_outcome c row entry (c.clock w.reads)) (tick w) in
    (ok (as_downgrade written), v)

abbrev pub fingerprint_of : RequestRow → Code → RowFingerprint
fingerprint_of row raw = record {
  status = row.status;
  version = row.version;
  booked_raw_id = some raw;
}

abbrev pub cancel_marked :
    Setting
    → RequestRow
    → OwnedBooking
    → (List (ℕ × Code) → Code → CancelAnswer)
    → Code
    → Bool
    → World
    → Step Downgrade
cancel_marked c row entry answer raw false w = (ok skipped_row, w)
cancel_marked c row entry answer raw true w =
    after_cancel c row entry (answer w.cancels raw) (sent row.course_account_id raw w)

-- The `finally` of the leased part: an error of the release replaces the result.
abbrev pub and_release : Setting → ℕ → Step Downgrade → Step Downgrade
and_release c row_id (result, w) =
    after_step (in_store w (perform w.store (release_row_lease w.store row_id c.owner)))
      (λ _ v. (result, v))

abbrev pub downgrade_leased :
    Setting
    → RequestRow
    → OwnedBooking
    → (List (ℕ × Code) → Code → CancelAnswer)
    → Code
    → ℕ
    → Bool
    → World
    → Step Downgrade
downgrade_leased c row entry answer raw now false w = (ok skipped_row, w)
downgrade_leased c row entry answer raw now true w = and_release c row.id (
    after_step
      (in_store w
        (perform w.store (set_upgrade_marker w.store row.id c.owner now (fingerprint_of row raw))))
      (cancel_marked c row entry answer raw))

abbrev pub downgrade_with :
    Setting
    → RequestRow
    → OwnedBooking
    → Option (List (ℕ × Code) → Code → CancelAnswer)
    → Option Code
    → World
    → Step Downgrade
downgrade_with c row entry (some answer) (some raw) w =
    let now = c.clock w.reads in
    after_step
      (in_store (tick w) (
        perform w.store (
          acquire_row_lease w.store row.id c.owner (now + c.lease_us) now
            (some (fingerprint_of row raw)))))
      (downgrade_leased c row entry answer raw now)
downgrade_with c row entry _ _ w = (ok skipped_row, w)

-- `_downgrade`
unfoldable pub downgrade : Setting → RequestRow → OwnedBooking → World → Step Downgrade
downgrade c row entry w =
    downgrade_with c row entry (c.session row.course_account_id) row.booked_raw_id w
