-- ===== src/Tenant/Store/Materializing.antt =====
-- The transactions of the materializer.
use tee_time_booker.Prelude.{
  Bool, List, Option, Result, [], false, guard, if◌then◌else◌, is_none, leb, none, not, ok, put_at,
  same_option, select, some, sort_by, ℕ, ◌&&◌, ◌+◌, ◌==◌, ◌>>=◌, ◌>>◌, ◌∷◌,
}
use tee_time_booker.Core.Calendar.{weekday}
use tee_time_booker.Core.Policy.{cutoff_instant}
use tee_time_booker.Tenant.Rows.{
  RequestRow, RowStatus, StandingRule, check_create, check_transition, is_status, lease_held,
  materializer, pending, prior, row_is_frozen, rule, superseded,
}
use tee_time_booker.Tenant.Semantics.Intents.{rule_intent}
use tee_time_booker.Tenant.Semantics.Restoring.{is_rule_row, unleased_write}
use tee_time_booker.Tenant.Store.Plans.{
  Plan, create, cutoff_for, new_store_row, replace, stored_rule_matching,
}
use tee_time_booker.Tenant.Store.State.{
  CourseAccount, Site, Store, StoreError, account_for_user, bad_value, guard_may_become_active,
  lift_check, or_missing, refuse_if_user_terminal, row_at, row_leased, rule_at, transition_refused,
}

unfoldable pub fresh_cutoff : Site → Store → CourseAccount → StandingRule → RequestRow → ℕ
fresh_cutoff site s account given row =
    cutoff_instant row.target_date row.timezone (cutoff_for site s account given.booking_cutoff)

abbrev pub slot_status : Option ℕ → RowStatus
slot_status none = pending
slot_status (some holder) = superseded

unfoldable pub insert_rule_row_if_absent :
    Site → Store → StandingRule → (target_date : ℕ) → ℕ → Plan (Option RequestRow)
insert_rule_row_if_absent site s given target_date now = do
  account ← account_for_user s given.course_account_id none
  stored ← stored_rule_matching s given
  guard (weekday target_date == stored.weekday_index) bad_value
  guard stored.active transition_refused
  (if not (is_none (row_at s (site.rule_row_id stored.id target_date))) then ok ([], none) else (do
    refuse_if_user_terminal s account.id target_date
    row ←
        new_store_row site s (site.rule_row_id stored.id target_date) account target_date
          (rule_intent stored) (slot_status (s.slots account.id target_date)) rule (some stored.id)
          stored.booking_cutoff
    lift_check (check_create row materializer now)
    ok (create row ∷ [], some row)))

-- The row back at `target`, refreshed from its rule.
unfoldable pub refreshed_row : RequestRow → RowStatus → ℕ → StandingRule → ℕ → RequestRow
refreshed_row row target fresh stored now = record (unleased_write row now) {
  status = target;
  status_reason = none;
  superseded_from = none;
  cutoff_at = fresh;
  options = stored.options;
  party_size = stored.party_size;
  max_price = stored.max_price;
  group_id = stored.group_id;
  group_rank = stored.group_rank;
  version = row.version + 1;
}

unfoldable pub reactivate_rule_row : Site → Store → RequestRow → StandingRule → ℕ → Plan RequestRow
reactivate_rule_row site s row given now = do
  stored ← or_missing (row_at s row.id)
  guard (same_option row.rule_id (some given.id)) transition_refused
  kept ← stored_rule_matching s given
  account ← account_for_user s row.course_account_id none
  lift_check (
      check_transition (record row { cutoff_at = fresh_cutoff site s account kept row })
        (prior stored) materializer now none false)
  guard kept.active transition_refused
  refuse_if_user_terminal s row.course_account_id row.target_date
  guard (not (lease_held stored now)) row_leased
  let new = refreshed_row row (prior stored) (fresh_cutoff site s account kept row) kept now
  ok (replace row new ∷ [], new)

unfoldable pub rewritten_row : RequestRow → StandingRule → ℕ → RequestRow
rewritten_row row stored now = record (unleased_write row now) {
  options = stored.options;
  party_size = stored.party_size;
  max_price = stored.max_price;
  group_id = stored.group_id;
  group_rank = stored.group_rank;
  version = row.version + 1;
}

unfoldable pub rewrite_pending_rule_row :
    Store → ℕ → StandingRule → (expected_version now : ℕ) → Plan RequestRow
rewrite_pending_rule_row s row_id given expected_version now = do
  stored ← or_missing (row_at s row_id)
  guard (stored.version == expected_version) transition_refused
  guard (is_rule_row stored && same_option stored.rule_id (some given.id)) transition_refused
  guard (is_status stored.status pending) transition_refused
  guard (not (row_is_frozen stored now)) transition_refused
  guard (not (lease_held stored now)) row_leased
  kept ← stored_rule_matching s given
  guard_may_become_active s stored
  let new = rewritten_row stored kept now
  ok (replace stored new ∷ [], new)

abbrev pub put_rule : StandingRule → Store → Store
put_rule given s = record s { rules = put_at (λ r. r.id) given s.rules }

unfoldable pub reset_materialized_through : Store → ℕ → Result StoreError Store
reset_materialized_through s rule_id = do
  given ← or_missing (rule_at s rule_id)
  ok (put_rule (record given { materialized_through = none }) s)

abbrev pub reaches : Option ℕ → ℕ → Bool
reaches none through = false
reaches (some reached) through = leb through reached

unfoldable pub set_materialized_through : Store → ℕ → ℕ → Result StoreError Store
set_materialized_through s rule_id through = do
  given ← or_missing (rule_at s rule_id)
  ok (
      if reaches given.materialized_through through
      then s
      else put_rule (record given { materialized_through = some through }) s)

unfoldable pub rules_needing_materialization : Store → ℕ → List StandingRule
rules_needing_materialization s through =
    sort_by (λ a b. leb a.id b.id)
      (select (λ r. r.active && not (reaches r.materialized_through through)) s.rules)
