-- ===== src/Tenant/Rows/Machine.antt =====
-- `check_create` and `check_transition`, with the tables that they read.
use tee_time_booker.Prelude.{
  ℕ, Bool, true, false, not, ◌&&◌, ◌||◌, Option, none, some, List, [], ◌∷◌, any_of, ltb, leb,
  if◌then◌else◌, Result, ok, err, guard, ◌>>=◌, ◌>>◌,
}
use tee_time_booker.Tenant.Rows.Data.{
  RowStatus, pending, booked, skipped, superseded, withdrawn, cancelled, lost, RowSource, explicit,
  rule, Actor, web, materializer, booking_runner, watcher, Reason, rule_weekday_changed,
  rule_deactivated, rule_deleted, user_withdrawn, by_user, external, already_gone, group_downgrade,
  RequestRow, is_status, is_actor,
}

abbrev pub has_actor : Actor → List Actor → Bool
has_actor a actors = any_of (λ b. is_actor a b) actors

-- `_TRANSITION_OWNERS.get((from, to))`
abbrev pub transition_owners : RowStatus → RowStatus → Option (List Actor)
transition_owners pending booked = some (booking_runner ∷ watcher ∷ [])
transition_owners pending skipped = some (web ∷ [])
transition_owners skipped pending = some (web ∷ [])
transition_owners pending superseded = some (web ∷ [])
transition_owners skipped superseded = some (web ∷ [])
transition_owners superseded pending = some (web ∷ [])
transition_owners superseded skipped = some (web ∷ [])
transition_owners pending withdrawn = some (web ∷ materializer ∷ [])
transition_owners superseded withdrawn = some (web ∷ materializer ∷ [])
transition_owners withdrawn pending = some (materializer ∷ [])
transition_owners withdrawn skipped = some (materializer ∷ [])
transition_owners booked booked = some (watcher ∷ [])
transition_owners booked cancelled = some (web ∷ watcher ∷ [])
transition_owners booked pending = some (watcher ∷ booking_runner ∷ [])
transition_owners pending lost = some (watcher ∷ [])
transition_owners _ _ = none

abbrev pub requires_not_frozen : RowStatus → RowStatus → Bool
requires_not_frozen skipped pending = true
requires_not_frozen superseded pending = true
requires_not_frozen withdrawn pending = true
requires_not_frozen withdrawn skipped = true
requires_not_frozen _ _ = false

-- `reason in SYSTEM_WITHDRAW_REASONS`
abbrev pub is_system_reason : Option Reason → Bool
is_system_reason (some rule_weekday_changed) = true
is_system_reason (some rule_deactivated) = true
is_system_reason (some rule_deleted) = true
is_system_reason _ = false

-- `is_user_terminal(row)`
abbrev terminal_reason : RowStatus → Option Reason → Bool
terminal_reason cancelled (some by_user) = true
terminal_reason cancelled (some external) = true
terminal_reason cancelled (some already_gone) = true
terminal_reason _ _ = false

abbrev pub is_user_terminal : RequestRow → Bool
is_user_terminal row = terminal_reason row.status row.status_reason

abbrev pub row_is_frozen : RequestRow → ℕ → Bool
row_is_frozen row now =
    if leb row.cutoff_at now then true else ltb row.target_date (row.timezone.to_local now).day

abbrev unexpired : Option ℕ → Option ℕ → ℕ → Bool
unexpired (some owner) (some until) now = ltb now until
unexpired _ _ now = false

abbrev pub lease_held : RequestRow → ℕ → Bool
lease_held row now = unexpired row.lease_owner row.lease_expires_at now

pub data Refusal : Type 0 where
  not_skippable no_transition wrong_actor is_frozen not_frozen wrong_prior : Refusal
  downgrade_with_reconcile not_a_downgrade reconcile_not_set : Refusal
  bad_withdraw_reason not_system_withdrawn not_a_rule_row bad_cancel_reason : Refusal
  wrong_creator bad_initial_status : Refusal

abbrev pub creator : RowSource → Actor
creator explicit = web
creator rule = materializer

abbrev pub may_start : RowSource → RowStatus → Bool
may_start explicit pending = true
may_start rule pending = true
may_start rule superseded = true
may_start _ _ = false

unfoldable pub check_create : RequestRow → Actor → ℕ → Result Refusal (Unit {0})
check_create row actor now = do
  guard (is_actor actor (creator row.source)) wrong_creator
  guard (may_start row.source row.status) bad_initial_status
  guard (not (row_is_frozen row now)) is_frozen

abbrev withdraw_ok : RowSource → Actor → Option Reason → Bool
withdraw_ok explicit web (some user_withdrawn) = true
withdraw_ok explicit _ _ = false
withdraw_ok rule _ reason = is_system_reason reason

abbrev is_rule : RowSource → Bool
is_rule rule = true
is_rule explicit = false

-- `reason in _CANCEL_REASONS_BY_ACTOR.get(actor, frozenset())`
abbrev cancel_ok : Actor → Option Reason → Bool
cancel_ok web (some by_user) = true
cancel_ok web (some already_gone) = true
cancel_ok watcher (some external) = true
cancel_ok _ _ = false

abbrev pub is_downgrade : Option Reason → Bool
is_downgrade (some group_downgrade) = true
is_downgrade _ = false

abbrev check_booked_to_pending : Actor → Option Reason → Bool → Result Refusal (Unit {0})
check_booked_to_pending actor reason needs_reconcile =
    if is_downgrade reason
    then guard (not needs_reconcile) downgrade_with_reconcile
    else (guard (is_actor actor watcher) not_a_downgrade >> guard needs_reconcile reconcile_not_set)

-- `row.superseded_from or RowStatus.PENDING`
abbrev pub prior : RequestRow → RowStatus
prior row = elim row.superseded_from [ none ↦ pending | some status ↦ status ]

-- `_GUARDS.get(edge)`, applied; an edge without a guard passes.
abbrev edge_guard :
    RowStatus → RowStatus → RequestRow → Actor → Option Reason → Result Refusal (Unit {0})
edge_guard pending withdrawn row actor reason =
    guard (withdraw_ok row.source actor reason) bad_withdraw_reason
edge_guard superseded withdrawn row actor reason =
    guard (withdraw_ok row.source actor reason) bad_withdraw_reason
edge_guard withdrawn pending row actor reason =
    guard (is_system_reason row.status_reason) not_system_withdrawn
edge_guard withdrawn skipped row actor reason =
    guard (is_system_reason row.status_reason) not_system_withdrawn
edge_guard pending superseded row actor reason = guard (is_rule row.source) not_a_rule_row
edge_guard skipped superseded row actor reason = guard (is_rule row.source) not_a_rule_row
edge_guard booked cancelled row actor reason = guard (cancel_ok actor reason) bad_cancel_reason
edge_guard _ _ row actor reason = ok tt

abbrev owners_or_refuse : Option (List Actor) → Result Refusal (List Actor)
owners_or_refuse none = err no_transition
owners_or_refuse (some owners) = ok owners

-- The checks of `check_transition`, in order, for the edge `from → to`.
abbrev pub check_edge :
    RowStatus
    → RowStatus
    → RequestRow
    → Actor
    → ℕ
    → Option Reason
    → Bool
    → Result Refusal (Unit {0})
check_edge from to row actor now reason needs_reconcile = do
  guard (not (is_status from booked && is_status to skipped)) not_skippable
  owners ← owners_or_refuse (transition_owners from to)
  guard (has_actor actor owners) wrong_actor
  guard (not (requires_not_frozen from to && row_is_frozen row now)) is_frozen
  guard (not (is_status to lost && not (row_is_frozen row now))) not_frozen
  guard
      (not (
        (is_status from superseded || is_status from withdrawn)
        && (is_status to pending || is_status to skipped)
        && not (is_status to (prior row))))
      wrong_prior
  (if is_status from booked && is_status to pending
      then check_booked_to_pending actor reason needs_reconcile
      else ok tt)
  edge_guard from to row actor reason

unfoldable pub check_transition :
    RequestRow → RowStatus → Actor → ℕ → Option Reason → Bool → Result Refusal (Unit {0})
check_transition row to actor now reason needs_reconcile =
    check_edge row.status to row actor now reason needs_reconcile
