-- ===== src/Tenant/Store/Plans.antt =====
-- A transaction reads the store, plans one batch and commits it.
use tee_time_booker.Prelude.{
  ℕ, Option, none, some, List, [], ◌∷◌, ◌++◌, is_none, ◌==◌, if◌then◌else◌, Result, ok, err, ◌>>=◌,
}
use tee_time_booker.Core.Policy.{BookingCutoffConfig}
use tee_time_booker.Tenant.Rows.{RequestRow, RowStatus, RowSource, StandingRule}
use tee_time_booker.Tenant.Semantics.Intents.{RowIntent, new_row, resolve_cutoff}
use tee_time_booker.Tenant.Store.State.{
  Site, Store, StoreError, transition_refused, key_error, CourseAccount, user_at, rule_at,
}
use tee_time_booker.Tenant.Store.Commit.{Write, commit}

-- The batch to commit, and what the transaction returns.
abbrev pub Plan : Type 0 → Type 0
Plan A = Result StoreError (List Write × A)

abbrev pub committed :
    {A : Type 0} → Store → A → Result StoreError Store → Result StoreError A × Store
committed s a (err e) = (err e, s)
committed s a (ok t) = (ok a, t)

-- A transaction that raises has written nothing.
abbrev pub perform : {A : Type 0} → Store → Plan A → Result StoreError A × Store
perform s (err e) = (err e, s)
perform s (ok (writes, a)) = committed s a (commit writes s)

-- The calls that follow one that returned; one that raised ends the method.
abbrev pub and_then :
    {A B : Type 0}
    → Result StoreError A × Store
    → (A → Store → Result StoreError B × Store)
    → Result StoreError B × Store
and_then (err e, s) next = (err e, s)
and_then (ok a, s) next = next a s

-- A loop that commits once per turn at most and appends to its lists as it goes.
unfoldable pub for_each :
    {A B : Type 0}
    → (A → Store → Plan (List B))
    → List A
    → Store
    → Result StoreError (List B) × Store
for_each turn [] s = (ok [], s)
for_each turn (x ∷ xs) s =
    and_then (perform s (turn x s))
      (λ notes t. and_then (for_each turn xs t) (λ later u. (ok (notes ++ later), u)))

abbrev pub create : RequestRow → Write
create row = record { old = none; new = row }

abbrev pub replace : RequestRow → RequestRow → Write
replace was row = record { old = some was; new = row }

abbrev pub or_key_error : {A : Type 0} → Option A → Result StoreError A
or_key_error none = err key_error
or_key_error (some a) = ok a

-- `_cutoff_for`
unfoldable pub cutoff_for :
    Site → Store → CourseAccount → Option BookingCutoffConfig → BookingCutoffConfig
cutoff_for site s account own =
    resolve_cutoff own
      (elim (user_at s account.user_id) [ none ↦ none | some u ↦ u.booking_cutoff ]) site.cutoff

-- `_new_row`
unfoldable pub new_store_row :
    Site
    → Store
    → (row_id : ℕ) → CourseAccount
    → (target_date : ℕ) → RowIntent
    → RowStatus
    → RowSource
    → Option ℕ
    → Option BookingCutoffConfig
    → Result StoreError RequestRow
new_store_row site s row_id account target_date intent status source rule_id own_cutoff = do
  zone ← or_key_error (site.course_timezone account.course_id)
  ok (
      new_row site.row_request_id row_id account.id account.course_id zone
        (cutoff_for site s account own_cutoff) target_date intent status source rule_id
        (if is_none rule_id then own_cutoff else none))

-- `_stored_rule_matching`
unfoldable pub stored_rule_matching : Store → StandingRule → Result StoreError StandingRule
stored_rule_matching s rule = elim (rule_at s rule.id) [
  | none ↦ err transition_refused
  | some stored ↦ if stored.version == rule.version then ok stored else err transition_refused
]
