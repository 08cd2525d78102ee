-- ===== src/Tenant/Groups/Report.antt =====
-- `collapse_group`: its two loops and its report.
use tee_time_booker.Prelude.{
  List, Option, [], err, if◌then◌else◌, is_none, map, none, ok, same_option, select, some, ℕ, ◌++◌,
  ◌==◌, ◌||◌, ◌∷◌,
}
use tee_time_booker.Tenant.Groups.Collapse.{
  Downgrade, Setting, Step, World, after_step, double_held_outcome, downgrade, downgraded, entry_of,
  failed_row, held_entries, is_owned, mark_double_held, skipped_row, store_failed,
}
use tee_time_booker.Tenant.Groups.Ranks.{CollapsePlan, plan_collapse}
use tee_time_booker.Tenant.Rows.{OwnedBooking, RequestRow}
use tee_time_booker.Tenant.Store.{key_error}

-- The rows whose user is told of a manual worse booking for the first time.
unfoldable pub notify_manual : Setting → List RequestRow → World → List RequestRow × World
notify_manual c [] w = ([], w)
notify_manual c (row ∷ rows) w =
    if c.dry_run || same_option row.last_outcome (some double_held_outcome)
    then notify_manual c rows w
    else (let (told, v) = mark_double_held c row w in
        let (later, u) = notify_manual c rows v in (if told then row ∷ later else later, u))

-- A row of the plan is owned, so that it has an entry.
abbrev pub downgrade_entry : Setting → RequestRow → Option OwnedBooking → World → Step Downgrade
downgrade_entry c row none w = (err (store_failed key_error), w)
downgrade_entry c row (some entry) w = downgrade c row entry w

unfoldable pub cancel_one : Setting → List (ℕ × OwnedBooking) → RequestRow → World → Step Downgrade
cancel_one c entries row w =
    if c.dry_run then (ok skipped_row, w) else downgrade_entry c row (entry_of entries row) w

unfoldable pub cancel_worse :
    Setting
    → List (ℕ × OwnedBooking)
    → List RequestRow
    → World
    → Step (List (RequestRow × Downgrade))
cancel_worse c entries [] w = (ok [], w)
cancel_worse c entries (row ∷ rows) w =
    after_step (cancel_one c entries row w)
      (λ d v. after_step (cancel_worse c entries rows v) (λ later u. (ok ((row, d) ∷ later), u)))

pub record CollapseReport : Type 0 where
  pub downgraded_rows : List ℕ
  pub manual_rows : List ℕ
  pub skipped_rows : List ℕ
  pub failed_rows : List ℕ
  pub notify : List RequestRow

abbrev downgrade_index : Downgrade → ℕ
downgrade_index downgraded = 0
downgrade_index skipped_row = 1
downgrade_index failed_row = 2

abbrev pub rows_with : Downgrade → List (RequestRow × Downgrade) → List RequestRow
rows_with d noted =
    map (λ (r, x). r) (select (λ (r, x). downgrade_index x == downgrade_index d) noted)

abbrev pub report_of :
    CollapsePlan → List RequestRow → List (RequestRow × Downgrade) → CollapseReport
report_of plan told noted = record {
  downgraded_rows = map (λ r. r.id) (rows_with downgraded noted);
  manual_rows = map (λ r. r.id) plan.leave_manual;
  skipped_rows = map (λ r. r.id) (rows_with skipped_row noted);
  failed_rows = map (λ r. r.id) (rows_with failed_row noted);
  notify = told ++ select (λ r. is_none r.upgrade_started_at) (rows_with failed_row noted);
}

-- What the group's plan is made with: the entries that are held when the collapse starts.
abbrev pub held_in : Setting → List RequestRow → World → List (ℕ × OwnedBooking)
held_in c group w = held_entries c w.store group []

abbrev pub plan_in : Setting → List RequestRow → World → CollapsePlan
plan_in c group w = plan_collapse group (is_owned (held_in c group w))

unfoldable pub collapse_group : Setting → List RequestRow → World → Step CollapseReport
collapse_group c group w =
    let plan = plan_in c group w in
    let (told, v) = notify_manual c plan.leave_manual w in
    after_step (cancel_worse c (held_in c group w) plan.cancel v)
      (λ noted u. (ok (report_of plan told noted), u))
