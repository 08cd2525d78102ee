-- ===== src/Tenant/Store/Running.antt =====
-- The transactions of the booking runner: claims, outcomes and leases.
use tee_time_booker.Prelude.{
  Bool, List, Option, Result, [], err, false, if◌then◌else◌, leb, map, none, not, ok, put_at,
  same_option, some, true, ℕ, ◌&&◌, ◌++◌, ◌+◌, ◌==◌, ◌>>=◌, ◌||◌, ◌∷◌,
}
use tee_time_booker.Core.Models.{Code, same_code}
use tee_time_booker.Tenant.Rows.{
  OwnedBooking, RequestRow, RowStatus, booked, cancelled_upgrade, is_status, lease_held, pending,
}
use tee_time_booker.Tenant.Semantics.Outcomes.{
  RowFingerprint, RowOutcome, fingerprint_matches, ledger_entries, outcome_row, validate_ledger,
}
use tee_time_booker.Tenant.Store.Plans.{Plan, and_then, for_each, or_key_error, perform, replace}
use tee_time_booker.Tenant.Store.State.{
  Store, StoreError, account_for_user, auth_failed, lift_ledger, lift_write, missing, or_missing,
  row_at, row_leased, rule_not_covering, transition_refused,
}

abbrev pub leased_row : RequestRow → ℕ → ℕ → RequestRow
leased_row row owner until = record row { lease_owner = some owner; lease_expires_at = some until }

abbrev pub held_by_other : RequestRow → ℕ → ℕ → Bool
held_by_other row owner now = lease_held row now && not (same_option row.lease_owner (some owner))

abbrev pub claim_found : ℕ → ℕ → ℕ → ℕ → Option RequestRow → Plan (List ℕ)
claim_found owner until now row_id none = ok ([], [])
claim_found owner until now row_id (some row) =
    if not (is_status row.status pending) || held_by_other row owner now
    then ok ([], [])
    else ok (replace row (leased_row row owner until) ∷ [], row_id ∷ [])

-- One turn of the loop of `claim_rows`.
unfoldable pub claim_row : ℕ → ℕ → ℕ → ℕ → Store → Plan (List ℕ)
claim_row owner until now row_id s = claim_found owner until now row_id (row_at s row_id)

-- The claimed ids, in order.
unfoldable pub claim_rows : List ℕ → ℕ → ℕ → ℕ → Store → Result StoreError (List ℕ) × Store
claim_rows row_ids owner until now s = for_each (claim_row owner until now) row_ids s

abbrev pub is_leasable : RowStatus → Bool
is_leasable status = is_status status pending || is_status status booked

unfoldable pub acquire_row_lease : Store → ℕ → ℕ → ℕ → ℕ → Option RowFingerprint → Plan Bool
acquire_row_lease s row_id owner until now expected = do
  row ← or_missing (row_at s row_id)
  (if not (is_leasable row.status)
        || (held_by_other row owner now || not (fingerprint_matches row expected))
      then ok ([], false)
      else ok (replace row (leased_row row owner until) ∷ [], true))

unfoldable pub release_row_lease : Store → ℕ → ℕ → Plan (Unit {0})
release_row_lease s row_id owner = do
  row ← or_missing (row_at s row_id)
  (if same_option row.lease_owner (some owner)
      then ok (replace row (record row { lease_owner = none; lease_expires_at = none }) ∷ [], tt)
      else ok ([], tt))

unfoldable pub set_upgrade_marker : Store → ℕ → ℕ → ℕ → RowFingerprint → Plan Bool
set_upgrade_marker s row_id owner at expected = do
  row ← or_missing (row_at s row_id)
  (if not (same_option row.lease_owner (some owner))
        || (not (lease_held row at) || not (fingerprint_matches row (some expected)))
      then ok ([], false)
      else ok (replace row (record row { upgrade_started_at = some at }) ∷ [], true))

-- The key of a ledger entry.
abbrev pub same_key : OwnedBooking → OwnedBooking → Bool
same_key a b =
    a.course_account_id == b.course_account_id
    && (a.course_id == b.course_id && same_code a.raw_reservation_id b.raw_reservation_id)

abbrev pub put_entry : OwnedBooking → List OwnedBooking → List OwnedBooking
put_entry e [] = e ∷ []
put_entry e (x ∷ xs) = let rest = put_entry e xs in if same_key x e then e ∷ xs else x ∷ rest

abbrev pub put_entries : List OwnedBooking → List OwnedBooking → List OwnedBooking
put_entries [] ledger = ledger
put_entries (e ∷ es) ledger = put_entries es (put_entry e ledger)

abbrev pub cancel_upgraded : RowOutcome → Option ℕ → Code → OwnedBooking → OwnedBooking
cancel_upgraded o course_id raw e =
    if e.course_account_id == o.course_account_id
      && (same_code e.raw_reservation_id raw
          && elim course_id [ none ↦ true | some c ↦ e.course_id == c ])
    then record e { state = cancelled_upgrade }
    else e

unfoldable pub write_ledger : Store → RowOutcome → Option ℕ → Store
write_ledger s o course_id =
    let ledger = put_entries (ledger_entries o) s.ledger in
    record s {
      ledger = elim o.cancelled_upgrade_raw_id [
        | none ↦ ledger
        | some raw ↦ map (cancel_upgraded o course_id raw) ledger
      ];
    }

abbrev pub flag_holder : Store → Option ℕ → Plan (Unit {0})
flag_holder s none = ok ([], tt)
flag_holder s (some active_id) = do
  active ← or_key_error (row_at s active_id)
  (if active.needs_reconcile
      then ok ([], tt)
      else ok (
        replace active (record active { needs_reconcile = true; version = active.version + 1 })
            ∷ [],
        tt,
      ))

unfoldable pub flag_active_row : Store → ℕ → ℕ → Plan (Unit {0})
flag_active_row s account_id day = flag_holder s (s.slots account_id day)

unfoldable pub outcome_plan : Store → RowOutcome → Plan (Unit {0})
outcome_plan s o = do
  row ← or_missing (row_at s o.row_id)
  new ← lift_write (outcome_row row o)
  ok (replace row new ∷ [], tt)

-- The exceptions that are caught, to keep what the bot did.
abbrev pub is_row_moved : StoreError → Bool
is_row_moved transition_refused = true
is_row_moved rule_not_covering = true
is_row_moved row_leased = true
is_row_moved missing = true
is_row_moved _ = false

abbrev pub course_of : Option RequestRow → Option ℕ
course_of none = none
course_of (some row) = some row.course_id

-- The row that is stored when the outcome arrives gives the course of the ledger entries.
unfoldable pub settle_outcome :
    Store
    → RowOutcome
    → Option ℕ
    → Result StoreError (Unit {0}) × Store
    → Result StoreError (Unit {0}) × Store
settle_outcome s o course_id (ok u, t) = (ok u, write_ledger t o course_id)
settle_outcome s o course_id (err e, t) =
    if is_row_moved e
    then and_then
        (perform (write_ledger t o course_id)
          (flag_active_row (write_ledger t o course_id) o.course_account_id o.target_date))
        (λ _ u. (err e, u))
    else (err e, t)

abbrev pub apply_checked :
    Store → RowOutcome → Result StoreError (Unit {0}) → Result StoreError (Unit {0}) × Store
apply_checked s o (err e) = (err e, s)
apply_checked s o (ok u) =
    settle_outcome s o (course_of (row_at s o.row_id)) (perform s (outcome_plan s o))

unfoldable pub apply_outcome : Store → RowOutcome → Result StoreError (Unit {0}) × Store
apply_outcome s o =
    apply_checked s o (lift_ledger (validate_ledger o (course_of (row_at s o.row_id))))

abbrev pub errors_of : Result StoreError (Unit {0}) → List StoreError
errors_of (ok u) = []
errors_of (err e) = e ∷ []

-- The errors of the outcomes that were not applied: the method raises them as a group.
unfoldable pub record_outcomes : List RowOutcome → Store → List StoreError × Store
record_outcomes [] s = ([], s)
record_outcomes (o ∷ os) s =
    let (first, t) = apply_outcome s o in
    let (later, u) = record_outcomes os t in (errors_of first ++ later, u)

abbrev pub soft_auth_failure_limit : ℕ
soft_auth_failure_limit = 3

unfoldable pub record_soft_auth_failure : Store → ℕ → Result StoreError (ℕ × Store)
record_soft_auth_failure s account_id = do
  account ← account_for_user s account_id none
  let count = account.consecutive_soft_auth_failures + 1
  ok (
    count,
    record s {
      accounts =
          put_at (λ a. a.id)
            (record account {
              consecutive_soft_auth_failures = count;
              status = if leb soft_auth_failure_limit count then auth_failed else account.status;
            })
            s.accounts;
    },
  )
