-- ===== src/Tenant/Semantics/Rules.antt =====
-- A row keeps the cutoff that it was made with; a stored rule keeps its watermark.
use tee_time_booker.Prelude.{
  max, ap, ◌-◌, ℕ, ◌+◌, ◌≤◌, ◌≡◌, ◌≢◌, ◌⊎◌, refl, inl, inr, true, false, not, ◌&&◌, ◌||◌, Option,
  none, some, ltb, Bool-cases, ◌==◌, arith,
}
use tee_time_booker.Core.Calendar.{Zone, ReadsBack}
use tee_time_booker.Core.Policy.{BookingCutoffConfig, cutoff_instant}
use tee_time_booker.Tenant.Rows.{StandingRule, RowStatus, RowSource}
use tee_time_booker.Tenant.Semantics.Intents.{
  RowIntent, cutoff_config_of, new_row, upserted_rule, merge_watermark,
}

days_back : (target_date days : ℕ) → days ≤ target_date → target_date - (target_date - days) ≡ days
days_back target_date days small = omega arith

-- The cutoff that is read off a new row is the one that it was made with, where the zone reads
-- back the wall clock of the cutoff and the cutoff's day is a date (`days_before` does not reach
-- before day 0).
pub cutoff_config_of-new_row :
    (row_request_id : ℕ → ℕ) (row_id account_id course_id : ℕ) (zone : Zone)
    (cutoff : BookingCutoffConfig) (target_date : ℕ) (intent : RowIntent) (status : RowStatus)
    (source : RowSource) (rule_id : Option ℕ) (own_cutoff : Option BookingCutoffConfig)
    → cutoff.days_before ≤ target_date
    → ReadsBack zone (target_date - cutoff.days_before) cutoff.time_of_day
    → cutoff_config_of (
        new_row row_request_id row_id account_id course_id zone cutoff target_date intent status
          source rule_id own_cutoff)
      ≡ some cutoff
unfolding cutoff_config_of new_row cutoff_instant
cutoff_config_of-new_row row_request_id row_id account_id course_id zone cutoff target_date intent
      status source rule_id own_cutoff small back =
    rw (back, not_after) (ap with_days (days_back target_date cutoff.days_before small))
  where
    with_days : ℕ → Option BookingCutoffConfig
    with_days d = some (record { days_before = d; time_of_day = cutoff.time_of_day })

    not_after : ltb target_date (target_date - cutoff.days_before) ≡ false
    not_after = ground arith

-- The watermark after a replace that does not clear it: unset stays unset, set moves forward.
abbrev pub Keeps : Option ℕ → Option ℕ → Type 0
Keeps was now =
    ((was ≡ none) × (now ≡ none)) ⊎ ((s : ℕ) × (t : ℕ) × (was ≡ some s) × (now ≡ some t) × (s ≤ t))

merge_watermark-Keeps : (stored given : Option ℕ) → Keeps stored (merge_watermark stored given)
merge_watermark-Keeps none given = inl (refl, refl)
merge_watermark-Keeps (some a) none = inr (a, a, refl, refl, omega arith)
merge_watermark-Keeps (some a) (some b) = inr (a, max a b, refl, refl, ground arith)

-- A replace of a rule bumps its version. It clears the watermark where the weekday moves or the
-- rule is switched on again. Otherwise a cleared watermark stays cleared and a set one never moves
-- back.
pub upserted_rule_watermark :
    (rule existing : StandingRule)
    → ((upserted_rule rule (some existing)).version ≡ existing.version + 1)
      × ((((rule.weekday_index ≢ existing.weekday_index)
              ⊎ ((rule.active ≡ true) × (existing.active ≡ false)))
            × ((upserted_rule rule (some existing)).materialized_through ≡ none))
          ⊎ ((rule.weekday_index ≡ existing.weekday_index)
              × ((rule.active ≡ false) ⊎ (existing.active ≡ true))
              × Keeps existing.materialized_through
                  (upserted_rule rule (some existing)).materialized_through))
unfolding upserted_rule
upserted_rule_watermark rule existing = (
  refl,
  elim (Bool-cases (
      not (rule.weekday_index == existing.weekday_index) || (rule.active && not existing.active))) [
        | inl e ↦ inl (ground (arith, e), rw e refl)
        | inr e ↦ inr (
          ground (arith, e),
          ground (arith, e),
          rw e (merge_watermark-Keeps existing.materialized_through rule.materialized_through),
        )
      ],
)
