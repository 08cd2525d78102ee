-- ===== src/Tenant/Semantics/Intents.antt =====
-- What a row asks for, the cutoff it runs under, and the rule that a replace stores.
use tee_time_booker.Prelude.{
  ℕ, ◌+◌, ◌-◌, false, not, ◌&&◌, ◌||◌, Option, none, some, List, max, ltb, ◌==◌, if◌then◌else◌,
}
use tee_time_booker.Core.Calendar.{Zone}
use tee_time_booker.Core.Policy.{BookingCutoffConfig, cutoff_instant}
use tee_time_booker.Tenant.Rows.{RankedWindow, StandingRule, RequestRow, RowStatus, RowSource}

unfoldable pub resolve_cutoff :
    Option BookingCutoffConfig
    → Option BookingCutoffConfig
    → BookingCutoffConfig
    → BookingCutoffConfig
resolve_cutoff (some own) owner default = own
resolve_cutoff none (some owner) default = owner
resolve_cutoff none none default = default

-- The cutoff that a row's own `cutoff_at` encodes, and `none` where the config type refuses its
-- days: for a cutoff on a day after the target date.
unfoldable pub cutoff_config_of : RequestRow → Option BookingCutoffConfig
cutoff_config_of row =
    let local = row.timezone.to_local row.cutoff_at in
    if ltb row.target_date local.day
    then none
    else some (record { days_before = row.target_date - local.day; time_of_day = local.time })

pub record RowIntent : Type 0 where
  pub options : List RankedWindow
  pub party_size : ℕ
  pub max_price : Option ℕ
  pub group_id : Option ℕ
  pub group_rank : Option ℕ

unfoldable pub rule_intent : StandingRule → RowIntent
rule_intent rule = record {
  options = rule.options;
  party_size = rule.party_size;
  max_price = rule.max_price;
  group_id = rule.group_id;
  group_rank = rule.group_rank;
}

-- The derivation of `request_id` from the row's id is a hash, and is an argument. `account` is
-- given by its id and its course.
unfoldable pub new_row :
    (ℕ → ℕ)
    → (row_id account_id course_id : ℕ) → Zone
    → BookingCutoffConfig
    → (target_date : ℕ) → RowIntent
    → RowStatus
    → RowSource
    → Option ℕ
    → Option BookingCutoffConfig
    → RequestRow
new_row row_request_id row_id account_id course_id zone cutoff target_date intent status source
      rule_id own_cutoff =
    record {
      id = row_id;
      course_account_id = account_id;
      course_id = course_id;
      target_date = target_date;
      timezone = zone;
      options = intent.options;
      party_size = intent.party_size;
      status = status;
      source = source;
      cutoff_at = cutoff_instant target_date zone cutoff;
      request_id = row_request_id row_id;
      version = 1;
      rule_id = rule_id;
      status_reason = none;
      booked_tee_time = none;
      booked_confirmation = none;
      booked_raw_id = none;
      booked_at = none;
      needs_reconcile = false;
      upgrade_started_at = none;
      booking_cutoff = own_cutoff;
      superseded_from = none;
      lease_owner = none;
      lease_expires_at = none;
      last_outcome = none;
      last_outcome_at = none;
      group_id = intent.group_id;
      group_rank = intent.group_rank;
      max_price = intent.max_price;
    }

abbrev pub merge_watermark : Option ℕ → Option ℕ → Option ℕ
merge_watermark (some stored) (some given) = some (max stored given)
merge_watermark stored given = stored

-- `rule` as it is stored where no rule is, or in place of `existing`.
unfoldable pub upserted_rule : StandingRule → Option StandingRule → StandingRule
upserted_rule rule none = rule
upserted_rule rule (some existing) =
    let moved = not (rule.weekday_index == existing.weekday_index) in
    let reactivated = rule.active && not existing.active in
    record rule {
      version = existing.version + 1;
      materialized_through =
          if moved || reactivated
          then none
          else merge_watermark existing.materialized_through rule.materialized_through;
    }
