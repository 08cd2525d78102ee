-- ===== src/Tenant/Store/Watching.antt =====
-- What the runs read, and the transactions of the watcher.
use tee_time_booker.Prelude.{
  Bool, List, Option, Result, [], false, if◌then◌else◌, is_none, leb, ltb, none, not, ok,
  same_option, select, some, sort_by, true, ℕ, ◌&&◌, ◌+◌, ◌>>◌, ◌||◌, ◌∷◌,
}
use tee_time_booker.Tenant.Rows.{
  Reason, RequestRow, RowStatus, booked, check_transition, date_passed, is_status, lease_held, lost,
  materializer, past_cutoff, pending, row_is_frozen, superseded, watcher, withdrawn,
}
use tee_time_booker.Tenant.Semantics.Restoring.{uncovered_reason, unleased_write}
use tee_time_booker.Tenant.Store.Plans.{Plan, for_each, replace}
use tee_time_booker.Tenant.Store.State.{
  AccountStatus, CourseAccount, Store, StoreError, account_active, account_at, covers_row,
  lift_check, sorted_rows, stored_rule_of,
}

pub record EventRow : Type 0 where
  pub row : RequestRow
  pub account : CourseAccount

abbrev pub is_account_active : AccountStatus → Bool
is_account_active account_active = true
is_account_active _ = false

-- The rows that pass the test, each joined with its account where that is active.
unfoldable pub join_accounts : Store → (RequestRow → Bool) → List RequestRow → List EventRow
join_accounts s wanted [] = []
join_accounts s wanted (row ∷ rows) =
    let rest = join_accounts s wanted rows in
    elim (account_at s row.course_account_id) [
      | none ↦ rest
      | some account ↦
          if wanted row && is_account_active account.status
          then record { row = row; account = account } ∷ rest
          else rest
    ]

abbrev pub is_offered : Store → (ℕ → Option ℕ) → ℕ → RequestRow → Bool
is_offered s targets now row =
    is_status row.status pending
    && (same_option (targets row.course_id) (some row.target_date)
        && (ltb now row.cutoff_at && covers_row s row))

-- The booking runner's read.
unfoldable pub load_event_rows : Store → (ℕ → Option ℕ) → ℕ → List EventRow
load_event_rows s targets now = join_accounts s (is_offered s targets now) (sorted_rows s)

abbrev pub in_horizon : Option (ℕ × ℕ) → ℕ → Bool
in_horizon none day = false
in_horizon (some (first, last)) day = leb first day && leb day last

abbrev pub is_watched : Store → (ℕ → Option (ℕ × ℕ)) → ℕ → RequestRow → Bool
is_watched s horizons now row =
    in_horizon (horizons row.course_id) row.target_date
    && ((is_status row.status pending
          && (not (row_is_frozen row now) && (covers_row s row || row.needs_reconcile)))
        || is_status row.status booked)

unfoldable pub load_watch_rows : Store → (ℕ → Option (ℕ × ℕ)) → ℕ → List EventRow
load_watch_rows s horizons now = join_accounts s (is_watched s horizons now) (sorted_rows s)

-- `_withdraw_uncovered` and the end of a row whose date has passed: the same fields change.
unfoldable pub ended_row : RequestRow → RowStatus → Reason → ℕ → RequestRow
ended_row row status reason now = record (unleased_write row now) {
  status = status;
  status_reason = some reason;
  version = row.version + 1;
}

unfoldable pub withdraw_uncovered : Store → RequestRow → ℕ → Plan (List RequestRow)
withdraw_uncovered s row now =
    let reason = uncovered_reason row (stored_rule_of s row) in
    (lift_check (check_transition row withdrawn materializer now (some reason) false)
      >> ok (replace row (ended_row row withdrawn reason now) ∷ [], []))

-- One turn of the loop of `finalize_lost`.
unfoldable pub finalize_row : ℕ → RequestRow → Store → Plan (List RequestRow)
finalize_row now row s =
    if not (is_status row.status pending) || (not (row_is_frozen row now) || lease_held row now)
    then ok ([], [])
    else if not (covers_row s row)
    then withdraw_uncovered s row now
    else (let reason = if leb row.cutoff_at now then past_cutoff else date_passed in
        let new = ended_row row lost reason now in
        (lift_check (check_transition row lost watcher now none false)
          >> ok (replace row new ∷ [], new ∷ [])))

unfoldable pub finalize_lost : ℕ → Store → Result StoreError (List RequestRow) × Store
finalize_lost now s = for_each (finalize_row now) (sorted_rows s) s

unfoldable pub rows_no_longer_covered : Store → ℕ → List RequestRow
rows_no_longer_covered s now =
    sort_by (λ a b. leb a.id b.id)
      (select
        (λ r.
          not (is_none r.rule_id)
          && ((is_status r.status pending || is_status r.status superseded)
              && (not (covers_row s r) && (not r.needs_reconcile && not (lease_held r now)))))
        s.rows)
