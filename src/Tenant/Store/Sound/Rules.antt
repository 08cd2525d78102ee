-- ===== src/Tenant/Store/Sound/Rules.antt =====
-- The plans of the materializer, of the watcher and of a changed cutoff.
use tee_time_booker.Prelude.{List, ℕ}
use tee_time_booker.Core.Policy.{BookingCutoffConfig}
use tee_time_booker.Tenant.Rows.{RequestRow, StandingRule}
use tee_time_booker.Tenant.Store.Cutoffs.{recut, recut_for_rule, recut_for_user, with_cutoff}
use tee_time_booker.Tenant.Store.Materializing.{
  insert_rule_row_if_absent, reactivate_rule_row, refreshed_row, rewrite_pending_rule_row,
  rewritten_row,
}
use tee_time_booker.Tenant.Store.Moves.{IsSound}
use tee_time_booker.Tenant.Store.Sound.Steps.{sound_rules}
use tee_time_booker.Tenant.Store.State.{Site, Store}
use tee_time_booker.Tenant.Store.Watching.{ended_row, finalize_row, withdraw_uncovered}

pub insert_rule_row_if_absent-IsSound :
    (site : Site) (s : Store) (given : StandingRule) (target_date now : ℕ)
    → IsSound s (insert_rule_row_if_absent site s given target_date now)
unfolding insert_rule_row_if_absent
insert_rule_row_if_absent-IsSound site s given target_date now = search sound_rules depth 10

pub reactivate_rule_row-IsSound :
    (site : Site) (s : Store) (row : RequestRow) (given : StandingRule) (now : ℕ)
    → IsSound s (reactivate_rule_row site s row given now)
unfolding reactivate_rule_row refreshed_row
reactivate_rule_row-IsSound site s row given now = search sound_rules depth 14

pub rewrite_pending_rule_row-IsSound :
    (s : Store) (row_id : ℕ) (given : StandingRule) (expected_version now : ℕ)
    → IsSound s (rewrite_pending_rule_row s row_id given expected_version now)
unfolding rewrite_pending_rule_row rewritten_row
rewrite_pending_rule_row-IsSound s row_id given expected_version now = search sound_rules depth 14

pub finalize_row-IsSound :
    (now : ℕ) (row : RequestRow) (s : Store) → IsSound s (finalize_row now row s)
unfolding finalize_row withdraw_uncovered ended_row
finalize_row-IsSound now row s = search sound_rules depth 10

recut-IsSound :
    (effective : BookingCutoffConfig) (now : ℕ) (row : RequestRow) (s : Store)
    → IsSound s (recut effective now row)
unfolding recut with_cutoff
recut-IsSound effective now row s = search sound_rules depth 8

pub recut_for_user-IsSound :
    (mine : List ℕ) (effective : BookingCutoffConfig) (now : ℕ) (row : RequestRow) (s : Store)
    → IsSound s (recut_for_user mine effective now row s)
unfolding recut_for_user
recut_for_user-IsSound mine effective now row s = search (sound_rules, recut-IsSound)

pub recut_for_rule-IsSound :
    (rule_id : ℕ) (effective : BookingCutoffConfig) (now : ℕ) (row : RequestRow) (s : Store)
    → IsSound s (recut_for_rule rule_id effective now row s)
unfolding recut_for_rule
recut_for_rule-IsSound rule_id effective now row s = search (sound_rules, recut-IsSound)
