-- ===== src/Tenant/Materialize/Tick.antt =====
-- tenant/materialize.py: the watcher's entry, over all rules.
use tee_time_booker.Prelude.{
  List, Option, Result, [], err, find, if◌then◌else◌, max, none, not, ok, some, ℕ, ◌++◌, ◌+◌, ◌==◌,
  ◌∷◌,
}
use tee_time_booker.Core.Policy.{BookingCutoffConfig, ReleasePolicy}
use tee_time_booker.Tenant.Materialize.{MaterializeReport, horizon_days, materialize_rule}
use tee_time_booker.Tenant.Rows.{
  Reason, RequestRow, StandingRule, materializer, rule_deactivated, rule_deleted,
  rule_weekday_changed, withdrawn,
}
use tee_time_booker.Tenant.Semantics.Intents.{resolve_cutoff}
use tee_time_booker.Tenant.Store.{
  reaches, rules_needing_materialization, and_then, perform, Site, Store, StoreError, User,
  account_at, row_leased, rule_not_covering, stored_rule_of, transition_refused, user_at,
  rows_no_longer_covered, transition_row,
}

-- `_local_today`
abbrev pub local_today : ReleasePolicy → ℕ → ℕ
local_today policy now = (policy.timezone.to_local now).day

-- `_horizon_end`
abbrev pub horizon_end : ReleasePolicy → ℕ → ℕ
horizon_end policy now = local_today policy now + horizon_days policy

-- `_uncovered_reason`
abbrev pub swept_reason : RequestRow → Option StandingRule → Reason
swept_reason row none = rule_deleted
swept_reason row (some given) =
    if not (given.course_account_id == row.course_account_id)
    then rule_deleted
    else if not given.active
    then rule_deactivated
    else rule_weekday_changed

-- The loop goes on after a row that was leased or moved; other errors end it.
abbrev pub unless_moved :
    {A : Type 0} → Result StoreError A × Store → Result StoreError (List (Unit {0})) × Store
unless_moved (ok _, s) = (ok [], s)
unless_moved (err row_leased, s) = (ok [], s)
unless_moved (err transition_refused, s) = (ok [], s)
unless_moved (err rule_not_covering, s) = (ok [], s)
unless_moved (err e, s) = (err e, s)

-- `_sweep_uncovered`, over the rows that the query returned.
unfoldable pub sweep_rows :
    ℕ → List RequestRow → Store → Result StoreError (List (Unit {0})) × Store
sweep_rows now [] s = (ok [], s)
sweep_rows now (row ∷ rows) s =
    and_then
      (unless_moved (
        perform s (
          transition_row s row.id none withdrawn materializer
            (some (swept_reason row (stored_rule_of s row))) now)))
      (λ _ t. sweep_rows now rows t)

abbrev pub sweep_uncovered : ℕ → Store → Result StoreError (List (Unit {0})) × Store
sweep_uncovered now s = sweep_rows now (rows_no_longer_covered s now) s

-- `policies`: course ids with their policies.
abbrev pub policy_of : List (ℕ × ReleasePolicy) → ℕ → Option ReleasePolicy
policy_of policies course = elim (find (λ p. p.0 == course) policies) [
  | none ↦ none
  | some p ↦ some p.1
]

-- The policy and the owner's cutoff, for an account that was found.
abbrev pub with_owner :
    BookingCutoffConfig
    → Option User
    → Option ReleasePolicy
    → Option (ReleasePolicy × BookingCutoffConfig)
with_owner default_cutoff user none = none
with_owner default_cutoff user (some policy) = some (
  policy,
  resolve_cutoff none (elim user [ none ↦ none | some u ↦ u.booking_cutoff ]) default_cutoff,
)

-- `_context_for`
unfoldable pub context_for :
    List (ℕ × ReleasePolicy)
    → BookingCutoffConfig
    → StandingRule
    → Store
    → Option (ReleasePolicy × BookingCutoffConfig)
context_for policies default_cutoff given s = elim (account_at s given.course_account_id) [
  | none ↦ none
  | some account ↦
      with_owner default_cutoff (user_at s account.user_id) (policy_of policies account.course_id)
]

-- A rule that raised is left out of the reports; what it wrote stays.
abbrev pub reported : Result StoreError MaterializeReport × Store → List MaterializeReport × Store
reported (ok report, s) = (report ∷ [], s)
reported (err e, s) = ([], s)

-- A rule with its context: nothing where its own horizon is reached.
abbrev pub tick_found :
    Site
    → StandingRule
    → ℕ
    → Store
    → Option (ReleasePolicy × BookingCutoffConfig)
    → List MaterializeReport × Store
tick_found site given now s none = ([], s)
tick_found site given now s (some (policy, own_cutoff)) =
    if reaches given.materialized_through (horizon_end policy now)
    then ([], s)
    else reported (materialize_rule site given policy own_cutoff now s)

-- One turn of the tick's loop.
unfoldable pub tick_rule :
    Site
    → List (ℕ × ReleasePolicy)
    → BookingCutoffConfig
    → ℕ
    → StandingRule
    → Store
    → List MaterializeReport × Store
tick_rule site policies default_cutoff now given s =
    tick_found site given now s (context_for policies default_cutoff given s)

unfoldable pub tick_rules :
    Site
    → List (ℕ × ReleasePolicy)
    → BookingCutoffConfig
    → ℕ
    → List StandingRule
    → Store
    → List MaterializeReport × Store
tick_rules site policies default_cutoff now [] s = ([], s)
tick_rules site policies default_cutoff now (given ∷ rules) s =
    let (first, t) = tick_rule site policies default_cutoff now given s in
    let (later, u) = tick_rules site policies default_cutoff now rules t in (first ++ later, u)

abbrev pub farthest : List (ℕ × ReleasePolicy) → ℕ → ℕ
farthest [] now = 0
farthest (p ∷ policies) now = max (horizon_end p.1 now) (farthest policies now)

-- The rules of the tick: none where there are no policies.
abbrev pub due_rules : List (ℕ × ReleasePolicy) → ℕ → Store → List StandingRule
due_rules [] now s = []
due_rules policies now s = rules_needing_materialization s (farthest policies now)

unfoldable pub materialize_tick :
    Site
    → List (ℕ × ReleasePolicy)
    → BookingCutoffConfig
    → ℕ
    → Store
    → Result StoreError (List MaterializeReport) × Store
materialize_tick site policies default_cutoff now s =
    let (reports, t) = tick_rules site policies default_cutoff now (due_rules policies now s) s in
    and_then (sweep_uncovered now t) (λ _ u. (ok reports, u))
