-- ===== src/Tenant/Materialize/Examples.antt =====
-- A Tuesday rule on a Thursday.
use tee_time_booker.Prelude.{Member, [], arith, none, refl, true, ◌+◌, ◌↔◌, ◌∷◌, ◌≡◌, ◌≤◌}
use tee_time_booker.Core.Calendar.{weekday}
use tee_time_booker.Tenant.Materialize.{dates_for_rule}
use tee_time_booker.Tenant.Materialize.Dates.{dates_for_rule_exact}
use tee_time_booker.Tenant.Rows.{StandingRule}

abbrev tuesdays : StandingRule
tuesdays = record {
  id = 2;
  course_account_id = 703;
  weekday_index = 1;
  options = [];
  party_size = 2;
  active = true;
  materialized_through = none;
  version = 1;
  max_price = none;
  group_id = none;
  group_rank = none;
  booking_cutoff = none;
}

-- From ordinal 740002, a Thursday, over three weeks.
walks : dates_for_rule tuesdays 740_002 21 ≡ 740_007 ∷ 740_014 ∷ 740_021 ∷ []
unfolding dates_for_rule weekday
walks = refl

dates_for_rule_exact_example :
    Member 740_014 (dates_for_rule tuesdays 740_002 21)
    ↔ ((740_002 ≤ 740_014) × (740_014 ≤ 740_002 + 21) × (weekday 740_014 ≡ 1))
dates_for_rule_exact_example = dates_for_rule_exact tuesdays 740_002 21 740_014 (omega arith)
