-- ===== src/Tenant/Store/Web.antt =====
-- The transactions of the web application.
use tee_time_booker.Prelude.{
  ℕ, ◌+◌, Bool, false, not, ◌&&◌, ◌||◌, Option, none, some, List, [], ◌∷◌, select, any_of, length,
  leb, is_none, ◌==◌, if◌then◌else◌, put_at, Result, ok, err, guard, ◌>>=◌, ◌>>◌,
}
use tee_time_booker.Core.Policy.{BookingCutoffConfig}
use tee_time_booker.Tenant.Rows.{
  RequestRow, RowStatus, pending, booked, skipped, superseded, withdrawn, cancelled, explicit,
  Actor, web, materializer, Reason, StandingRule, is_status, is_actor, lease_held, check_create,
  check_transition,
}
use tee_time_booker.Tenant.Semantics.Intents.{RowIntent, upserted_rule}
use tee_time_booker.Tenant.Semantics.Restoring.{is_rule_row, unleased_write, restorable_rule_row}
use tee_time_booker.Tenant.Store.State.{
  Site, Store, StoreError, transition_refused, row_leased, missing, version_conflict,
  uniqueness_conflict, rule_conflict, lift_write, lift_check, or_missing, row_at, rule_at,
  account_at, history, account_for_user, CourseAccount,
}
use tee_time_booker.Tenant.Store.Commit.{Write, Slots, set_slot, is_holder, is_free_for}
use tee_time_booker.Tenant.Store.Plans.{Plan, create, replace, or_key_error, new_store_row}

-- The holder of the date, superseded.
unfoldable pub superseded_row : RequestRow → ℕ → RequestRow
superseded_row holder now = record (unleased_write holder now) {
  status = superseded;
  superseded_from = some holder.status;
  version = holder.version + 1;
}

-- The writes of a new one-off: over a free date, or over the rule row that holds it.
abbrev pub explicit_writes : Store → RequestRow → ℕ → Option ℕ → Result StoreError (List Write)
explicit_writes s row now none = ok (create row ∷ [])
explicit_writes s row now (some holder_id) = do
  holder ← or_key_error (row_at s holder_id)
  guard (is_rule_row holder && not (is_status holder.status booked)) transition_refused
  lift_check (check_transition holder superseded web now none false)
  guard (not (lease_held holder now)) row_leased
  ok (replace holder (superseded_row holder now) ∷ create row ∷ [])

-- `row_id` is the fresh random id.
unfoldable pub create_explicit_row :
    Site
    → Store
    → (row_id user_id account_id target_date : ℕ) → RowIntent
    → ℕ
    → Option BookingCutoffConfig
    → Plan RequestRow
create_explicit_row site s row_id user_id account_id target_date intent now booking_cutoff = do
  account ← account_for_user s account_id (some user_id)
  row ← new_store_row site s row_id account target_date intent pending explicit none booking_cutoff
  lift_check (check_create row web now)
  writes ← explicit_writes s row now (s.slots account_id target_date)
  ok (writes, row)

unfoldable pub moved_row : RequestRow → RowStatus → Option Reason → ℕ → RequestRow
moved_row row to reason now = record (unleased_write row now) {
  status = to;
  status_reason = reason;
  superseded_from = if is_status to withdrawn then row.superseded_from else none;
  version = row.version + 1;
}

-- The rule row that a withdrawn one-off gives its date back to, if there is one.
abbrev pub restore_writes : Store → RequestRow → RowStatus → ℕ → Result StoreError (List Write)
restore_writes s row to now =
    if not (is_rule_row row) && is_status to withdrawn
    then (lift_write
          (restorable_rule_row (history s row.course_account_id row.target_date) (rule_at s) now)
        >>= λ restore. ok (elim restore [ none ↦ [] | some (old, new) ↦ replace old new ∷ [] ]))
    else ok []

abbrev pub is_reactivation : RowStatus → RowStatus → Bool
is_reactivation from to = is_status from withdrawn && (is_status to pending || is_status to skipped)

unfoldable pub transition_row :
    Store → ℕ → Option ℕ → RowStatus → Actor → Option Reason → ℕ → Plan RequestRow
transition_row s row_id user_id to actor reason now = do
  row ← or_missing (row_at s row_id)
  guard (not (is_actor actor web && is_none user_id)) missing
  account ← account_for_user s row.course_account_id user_id
  guard (is_actor actor web || is_actor actor materializer) transition_refused
  guard (not (is_status to superseded)) transition_refused
  guard (not (is_status to cancelled)) transition_refused
  guard (not (is_reactivation row.status to)) transition_refused
  lift_check (check_transition row to actor now reason false)
  guard (not (lease_held row now)) row_leased
  restore ← restore_writes s row to now
  ok (replace row (moved_row row to reason now) ∷ restore, moved_row row to reason now)

-- The pointer of a stored rule, given up, and that of an active rule, claimed.
abbrev pub release_ruleday : Option StandingRule → Slots → Slots
release_ruleday none ruledays = ruledays
release_ruleday (some was) ruledays =
    if was.active && is_holder (ruledays was.course_account_id was.weekday_index) was.id
    then set_slot ruledays was.course_account_id was.weekday_index none
    else ruledays

abbrev pub claim_ruleday : StandingRule → Slots → Result StoreError Slots
claim_ruleday rule ruledays =
    if rule.active
    then if is_free_for (ruledays rule.course_account_id rule.weekday_index) rule.id
      then ok (set_slot ruledays rule.course_account_id rule.weekday_index (some rule.id))
      else err rule_conflict
    else ok ruledays

abbrev pub check_existing : StandingRule → Option StandingRule → Result StoreError (Unit {0})
check_existing rule none = ok tt
check_existing rule (some existing) = do
  guard (existing.course_account_id == rule.course_account_id) missing
  guard (rule.version == existing.version) version_conflict

unfoldable pub upsert_rule : Store → StandingRule → ℕ → Result StoreError (StandingRule × Store)
upsert_rule s rule user_id = do
  account ← account_for_user s rule.course_account_id (some user_id)
  check_existing rule (rule_at s rule.id)
  ruledays ← claim_ruleday rule (release_ruleday (rule_at s rule.id) s.ruledays)
  let stored = upserted_rule rule (rule_at s rule.id)
  ok (stored, record s { ruledays = ruledays; rules = put_at (λ r. r.id) stored s.rules })

unfoldable pub upsert_account : Site → Store → CourseAccount → Result StoreError Store
upsert_account site s account = do
  guard (account.id == site.derive_account_id account.user_id account.course_id) uniqueness_conflict
  let same_course = select (λ a. a.course_id == account.course_id) s.accounts
  guard
      (not (
        any_of
          (λ a.
            not (a.id == account.id) && site.casefold a.username == site.casefold account.username)
          same_course))
      uniqueness_conflict
  guard
      (not (
        is_none (account_at s account.id) && leb site.max_accounts_per_course (length same_course)))
      uniqueness_conflict
  ok (record s { accounts = put_at (λ a. a.id) account s.accounts })
