-- ===== src/Tenant/Store/Sound/Runs.antt =====
-- The plans of the booking runner.
use tee_time_booker.Prelude.{Option, Result, arith, err, none, ok, some, ℕ, ◌≡◌}
use tee_time_booker.Tenant.Rows.{RequestRow}
use tee_time_booker.Tenant.Semantics.Outcomes.Versions.{outcome_row_place}
use tee_time_booker.Tenant.Semantics.Outcomes.{RowFingerprint, RowOutcome, outcome_row}
use tee_time_booker.Tenant.Semantics.Restoring.{WriteError}
use tee_time_booker.Tenant.Store.Moves.{IsSound, IsSound-bind}
use tee_time_booker.Tenant.Store.Running.{
  acquire_row_lease, claim_found, claim_row, flag_active_row, flag_holder, outcome_plan,
  release_row_lease, set_upgrade_marker,
}
use tee_time_booker.Tenant.Store.Sound.Steps.{IsSound-replace, sound_rules}
use tee_time_booker.Tenant.Store.State.{Store, lift_write, or_missing, row_at}

claim_found-IsSound :
    (s : Store) (owner until now row_id : ℕ) (found : Option RequestRow)
    → IsSound s (claim_found owner until now row_id found)
claim_found-IsSound s owner until now row_id none = search sound_rules
claim_found-IsSound s owner until now row_id (some row) = search sound_rules

pub claim_row-IsSound :
    (owner until now row_id : ℕ) (s : Store) → IsSound s (claim_row owner until now row_id s)
unfolding claim_row
claim_row-IsSound owner until now row_id s =
    claim_found-IsSound s owner until now row_id (row_at s row_id)

pub acquire_row_lease-IsSound :
    (s : Store) (row_id owner until now : ℕ) (expected : Option RowFingerprint)
    → IsSound s (acquire_row_lease s row_id owner until now expected)
unfolding acquire_row_lease
acquire_row_lease-IsSound s row_id owner until now expected = search sound_rules depth 8

pub release_row_lease-IsSound :
    (s : Store) (row_id owner : ℕ) → IsSound s (release_row_lease s row_id owner)
unfolding release_row_lease
release_row_lease-IsSound s row_id owner = search sound_rules depth 8

pub set_upgrade_marker-IsSound :
    (s : Store) (row_id owner at : ℕ) (expected : RowFingerprint)
    → IsSound s (set_upgrade_marker s row_id owner at expected)
unfolding set_upgrade_marker
set_upgrade_marker-IsSound s row_id owner at expected = search sound_rules depth 8

flag_holder-IsSound : (s : Store) (holder : Option ℕ) → IsSound s (flag_holder s holder)
flag_holder-IsSound s none = search sound_rules
flag_holder-IsSound s (some id) = search sound_rules

pub flag_active_row-IsSound :
    (s : Store) (account_id day : ℕ) → IsSound s (flag_active_row s account_id day)
unfolding flag_active_row
flag_active_row-IsSound s account_id day = flag_holder-IsSound s (s.slots account_id day)

pub lift_write_ok : {A : Type 0} (r : Result WriteError A) {a : A} → lift_write r ≡ ok a → r ≡ ok a
lift_write_ok (ok b) h = ground (arith, h)
lift_write_ok (err e) h = absurd (cc h)

pub outcome_plan-IsSound : (s : Store) (o : RowOutcome) → IsSound s (outcome_plan s o)
unfolding outcome_plan
outcome_plan-IsSound s o = IsSound-bind s (or_missing (row_at s o.row_id)) _ (λ row e.
    IsSound-bind s (lift_write (outcome_row row o)) _ (λ new h.
      let (c, d, v) = outcome_row_place row o (lift_write_ok (outcome_row row o) h) in
      IsSound-replace s row new tt c d v))
