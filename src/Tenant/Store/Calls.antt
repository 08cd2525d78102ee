-- ===== src/Tenant/Store/Calls.antt =====
-- The methods that change the store, as one type of calls, and a sequence of calls.
use tee_time_booker.Prelude.{List, Option, Result, [], err, ok, ℕ, ◌∷◌}
use tee_time_booker.Core.Policy.{BookingCutoffConfig}
use tee_time_booker.Tenant.Rows.{Actor, Reason, RequestRow, RowStatus, StandingRule}
use tee_time_booker.Tenant.Semantics.Intents.{RowIntent}
use tee_time_booker.Tenant.Semantics.Outcomes.{RowFingerprint, RowOutcome}
use tee_time_booker.Tenant.Store.Cutoffs.{rewrite_rule_cutoff, set_booking_cutoff}
use tee_time_booker.Tenant.Store.Materializing.{
  insert_rule_row_if_absent, reactivate_rule_row, reset_materialized_through,
  rewrite_pending_rule_row, set_materialized_through,
}
use tee_time_booker.Tenant.Store.Plans.{perform}
use tee_time_booker.Tenant.Store.Reads.{bind_invited_user, delete_invited_user, upsert_user}
use tee_time_booker.Tenant.Store.Running.{
  acquire_row_lease, claim_rows, record_outcomes, record_soft_auth_failure, release_row_lease,
  set_upgrade_marker,
}
use tee_time_booker.Tenant.Store.State.{CourseAccount, Site, Store, StoreError, User}
use tee_time_booker.Tenant.Store.Watching.{finalize_lost}
use tee_time_booker.Tenant.Store.Web.{
  create_explicit_row, transition_row, upsert_account, upsert_rule,
}

pub data Call : Type 0 where
  claiming : (row_ids : List ℕ) (owner until now : ℕ) → Call
  recording : List RowOutcome → Call
  acquiring : (row_id owner until now : ℕ) → Option RowFingerprint → Call
  releasing : (row_id owner : ℕ) → Call
  marking_upgrade : (row_id owner at : ℕ) → RowFingerprint → Call
  finalizing : (now : ℕ) → Call
  failing_auth : (account_id : ℕ) → Call
  inserting : StandingRule → (target_date now : ℕ) → Call
  reactivating : RequestRow → StandingRule → (now : ℕ) → Call
  resetting_watermark : (rule_id : ℕ) → Call
  rewriting : (row_id : ℕ) → StandingRule → (expected_version now : ℕ) → Call
  setting_watermark : (rule_id through : ℕ) → Call
  saving_user : User → Call
  setting_cutoff : (user_id : ℕ) → Option BookingCutoffConfig → (now : ℕ) → Call
  recutting : StandingRule → (now : ℕ) → Call
  binding : (email provider subject : ℕ) → Call
  deleting_user : (user_id : ℕ) → Call
  saving_account : CourseAccount → Call
  creating :
      (row_id user_id account_id target_date : ℕ)
      → RowIntent
      → (now : ℕ) → Option BookingCutoffConfig
      → Call
  moving : (row_id : ℕ) → Option ℕ → RowStatus → Actor → Option Reason → (now : ℕ) → Call
  saving_rule : StandingRule → (user_id : ℕ) → Call

-- A method that raises before it writes leaves the store as it was.
abbrev pub or_before : Store → Result StoreError Store → Store
or_before s (ok t) = t
or_before s (err e) = s

abbrev pub or_before_with : {A : Type 0} → Store → Result StoreError (A × Store) → Store
or_before_with s (ok (a, t)) = t
or_before_with s (err e) = s

-- The store after a call, whether it returns or raises.
unfoldable pub call : Site → Call → Store → Store
call site (claiming row_ids owner until now) s = (claim_rows row_ids owner until now s).1
call site (recording outcomes) s = (record_outcomes outcomes s).1
call site (acquiring row_id owner until now expected) s =
    (perform s (acquire_row_lease s row_id owner until now expected)).1
call site (releasing row_id owner) s = (perform s (release_row_lease s row_id owner)).1
call site (marking_upgrade row_id owner at expected) s =
    (perform s (set_upgrade_marker s row_id owner at expected)).1
call site (finalizing now) s = (finalize_lost now s).1
call site (failing_auth account_id) s = or_before_with s (record_soft_auth_failure s account_id)
call site (inserting given target_date now) s =
    (perform s (insert_rule_row_if_absent site s given target_date now)).1
call site (reactivating row given now) s = (perform s (reactivate_rule_row site s row given now)).1
call site (resetting_watermark rule_id) s = or_before s (reset_materialized_through s rule_id)
call site (rewriting row_id given expected_version now) s =
    (perform s (rewrite_pending_rule_row s row_id given expected_version now)).1
call site (setting_watermark rule_id through) s =
    or_before s (set_materialized_through s rule_id through)
call site (saving_user user) s = or_before s (upsert_user s user)
call site (setting_cutoff user_id cutoff now) s = (set_booking_cutoff site user_id cutoff now s).1
call site (recutting given now) s = (rewrite_rule_cutoff site given now s).1
call site (binding email provider subject) s = (bind_invited_user site s email provider subject).1
call site (deleting_user user_id) s = (delete_invited_user s user_id).1
call site (saving_account account) s = or_before s (upsert_account site s account)
call site (creating row_id user_id account_id target_date intent now own) s =
    (perform s (create_explicit_row site s row_id user_id account_id target_date intent now own)).1
call site (moving row_id user_id to actor reason now) s =
    (perform s (transition_row s row_id user_id to actor reason now)).1
call site (saving_rule given user_id) s = or_before_with s (upsert_rule s given user_id)

unfoldable pub run : Site → List Call → Store → Store
run site [] s = s
run site (c ∷ cs) s = run site cs (call site c s)
