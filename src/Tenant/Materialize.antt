-- ===== src/Tenant/Materialize.antt =====
-- tenant/materialize.py: the rows of a standing rule, up to its horizon.
use tee_time_booker.Prelude.{
  Bool, List, Option, Result, [], any_of, err, false, find, if◌then◌else◌, is_none, ltb, map, max,
  none, not, ok, same_option, some, suc, true, zero, ℕ, ◌&&◌, ◌++◌, ◌+◌, ◌-◌, ◌/◌, ◌||◌, ◌∷◌,
}
use tee_time_booker.Core.Calendar.{Zone}
use tee_time_booker.Core.Policy.{BookingCutoffConfig, ReleasePolicy, days_until, frozen_reason}
use tee_time_booker.Tenant.Rows.{
  RequestRow, StandingRule, is_status, is_system_reason, is_user_terminal, superseded, withdrawn,
}
use tee_time_booker.Tenant.Semantics.Intents.{resolve_cutoff}
use tee_time_booker.Tenant.Semantics.Outcomes.{is_active}
use tee_time_booker.Tenant.Semantics.Restoring.{is_rule_row}
use tee_time_booker.Tenant.Store.{
  CutoffNote, rewrite_rule_cutoff, insert_rule_row_if_absent, reactivate_rule_row,
  set_materialized_through, and_then, perform, Site, Store, StoreError, bad_assertion, history,
}
pub mod Dates
pub mod Tick
pub mod Edits
pub mod Edited
pub mod Writes
mod Examples

pub data DateAction : Type 0 where
  skip_frozen skip_user_terminal nothing reactivate create_row create_superseded : DateAction

-- `_own_row`
abbrev pub own_row : StandingRule → List RequestRow → Option RequestRow
own_row given rows = find (λ r. is_rule_row r && same_option r.rule_id (some given.id)) rows

-- `_slot_held`
abbrev pub slot_held : List RequestRow → Bool
slot_held rows = any_of (λ r. is_active r.status) rows

abbrev pub classify_own : Option RequestRow → Bool → DateAction
classify_own none true = create_superseded
classify_own none false = create_row
classify_own (some own) is_held =
    if is_status own.status withdrawn && (is_system_reason own.status_reason && not is_held)
    then reactivate
    else nothing

unfoldable pub classify_date_history : StandingRule → List RequestRow → Bool → DateAction
classify_date_history given rows frozen_now =
    if frozen_now
    then skip_frozen
    else if any_of is_user_terminal rows
    then skip_user_terminal
    else classify_own (own_row given rows) (slot_held rows)

unfoldable pub horizon_days : ReleasePolicy → ℕ
horizon_days policy = max 21 (policy.advance_days + 7)

-- `range(first, …, 7)`, by its length.
abbrev pub every_week : ℕ → ℕ → List ℕ
every_week zero first = []
every_week (suc n) first = first ∷ every_week n (first + 7)

abbrev pub weeks_within : ℕ → ℕ → ℕ
weeks_within first last = if ltb last first then 0 else (last - first) / 7 + 1

unfoldable pub dates_for_rule : StandingRule → (today horizon : ℕ) → List ℕ
dates_for_rule given today horizon =
    let first = days_until today given.weekday_index in
    map (λ offset. today + offset) (every_week (weeks_within first horizon) first)

-- What the walk notes of a date.
pub data DateNote : Type 0 where
  inserted superseded_on_insert reactivated_row skipped_frozen skipped_user_terminal : ℕ → DateNote

abbrev pub note_created : Option RequestRow → List DateNote
note_created none = []
note_created (some row) =
    if is_status row.status superseded
    then superseded_on_insert row.id ∷ []
    else inserted row.id ∷ []

abbrev pub reactivate_own :
    Site → StandingRule → ℕ → Option RequestRow → Store → Result StoreError (List DateNote) × Store
reactivate_own site given now none s = (err bad_assertion, s)
reactivate_own site given now (some own) s =
    and_then (perform s (reactivate_rule_row site s own given now))
      (λ revived t. (ok (reactivated_row revived.id ∷ []), t))

abbrev pub act_on :
    Site
    → StandingRule
    → (day now : ℕ) → Option RequestRow
    → DateAction
    → Store
    → Result StoreError (List DateNote) × Store
act_on site given day now own skip_frozen s = (ok (skipped_frozen day ∷ []), s)
act_on site given day now own skip_user_terminal s = (ok (skipped_user_terminal day ∷ []), s)
act_on site given day now own nothing s = (ok [], s)
act_on site given day now own reactivate s = reactivate_own site given now own s
act_on site given day now own _ s =
    and_then (perform s (insert_rule_row_if_absent site s given day now))
      (λ created t. (ok (note_created created), t))

-- `_materialize_date`
unfoldable pub materialize_date :
    Site → StandingRule → (day : ℕ) → Bool → ℕ → Store → Result StoreError (List DateNote) × Store
materialize_date site given day frozen_now now s =
    let rows = history s given.course_account_id day in
    act_on site given day now (own_row given rows) (classify_date_history given rows frozen_now) s

-- `_frozen_now`
abbrev pub is_date_frozen : ℕ → Zone → BookingCutoffConfig → ℕ → Bool
is_date_frozen day zone cutoff now =
    not (is_none (frozen_reason now day zone (some cutoff) [])) || ltb day (zone.to_local now).day

unfoldable pub materialize_dates :
    Site
    → StandingRule
    → Zone
    → BookingCutoffConfig
    → ℕ
    → List ℕ
    → Store
    → Result StoreError (List DateNote) × Store
materialize_dates site given zone cutoff now [] s = (ok [], s)
materialize_dates site given zone cutoff now (day ∷ days) s =
    and_then (materialize_date site given day (is_date_frozen day zone cutoff now) now s)
      (λ noted t.
        and_then (materialize_dates site given zone cutoff now days t)
          (λ later u. (ok (noted ++ later), u)))

abbrev pub and_store :
    {A : Type 0} → A → Store → Result StoreError Store → Result StoreError A × Store
and_store a s (ok t) = (ok a, t)
and_store a s (err e) = (err e, s)

-- What the walk did: the cutoffs that it moved, its dates, and how far it went.
pub record MaterializeReport : Type 0 where
  pub cutoffs : List CutoffNote
  pub dates : List DateNote
  pub materialized_through : ℕ

unfoldable pub materialize_rule :
    Site
    → StandingRule
    → ReleasePolicy
    → BookingCutoffConfig
    → ℕ
    → Store
    → Result StoreError MaterializeReport × Store
materialize_rule site given policy owner_cutoff now s =
    let cutoff = resolve_cutoff given.booking_cutoff (some owner_cutoff) owner_cutoff in
    let today = (policy.timezone.to_local now).day in
    let through = today + horizon_days policy in
    and_then (rewrite_rule_cutoff site given now s) (λ (stored, moved) t.
      and_then
        (materialize_dates site given policy.timezone cutoff now
          (dates_for_rule given today (horizon_days policy)) t)
        (λ dates u.
          and_store (record { cutoffs = moved; dates = dates; materialized_through = through }) u
            (set_materialized_through u given.id through)))
