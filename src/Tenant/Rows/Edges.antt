-- ===== src/Tenant/Rows/Edges.antt =====
-- The allowed transitions as a relation, written from the design's table: one constructor for
-- each kind of move, with who may make it and when.
use tee_time_booker.Prelude.{ℕ, ◌≡◌, ◌≢◌, ◌⊎◌, Bool, true, false, Option, some}
use tee_time_booker.Tenant.Rows.Data.{
  RowStatus, pending, booked, skipped, superseded, withdrawn, cancelled, lost, explicit, rule,
  Actor, web, materializer, booking_runner, watcher, Reason, user_withdrawn, by_user, external,
  already_gone, group_downgrade, RequestRow,
}
use tee_time_booker.Tenant.Rows.Machine.{row_is_frozen, is_system_reason, prior}

module _ (row : RequestRow) (to : RowStatus) (actor : Actor) (now : ℕ) (reason : Option Reason)
    (needs_reconcile : Bool) where
  pub data Edge : Type 0 where
    books : row.status ≡ pending → to ≡ booked → (actor ≡ booking_runner) ⊎ (actor ≡ watcher) → Edge
    skips : row.status ≡ pending → to ≡ skipped → actor ≡ web → Edge
    unskips :
        row.status ≡ skipped → to ≡ pending → actor ≡ web → row_is_frozen row now ≡ false → Edge
    supersedes :
        (row.status ≡ pending) ⊎ (row.status ≡ skipped)
        → to ≡ superseded
        → actor ≡ web
        → row.source ≡ rule
        → Edge
    -- The date need not be open where a skipped row is restored: it books nothing.
    restores :
        row.status ≡ superseded
        → to ≡ prior row
        → ((to ≡ pending) × (row_is_frozen row now ≡ false)) ⊎ (to ≡ skipped)
        → actor ≡ web
        → Edge
    withdraws_one_off :
        (row.status ≡ pending) ⊎ (row.status ≡ superseded)
        → to ≡ withdrawn
        → actor ≡ web
        → row.source ≡ explicit
        → reason ≡ some user_withdrawn
        → Edge
    withdraws_rule_row :
        (row.status ≡ pending) ⊎ (row.status ≡ superseded)
        → to ≡ withdrawn
        → (actor ≡ web) ⊎ (actor ≡ materializer)
        → row.source ≡ rule
        → is_system_reason reason ≡ true
        → Edge
    reactivates :
        row.status ≡ withdrawn
        → to ≡ prior row
        → (to ≡ pending) ⊎ (to ≡ skipped)
        → actor ≡ materializer
        → row_is_frozen row now ≡ false
        → is_system_reason row.status_reason ≡ true
        → Edge
    upgrades : row.status ≡ booked → to ≡ booked → actor ≡ watcher → Edge
    cancels :
        row.status ≡ booked
        → to ≡ cancelled
        → actor ≡ web
        → (reason ≡ some by_user) ⊎ (reason ≡ some already_gone)
        → Edge
    vanishes :
        row.status ≡ booked → to ≡ cancelled → actor ≡ watcher → reason ≡ some external → Edge
    downgrades :
        row.status ≡ booked
        → to ≡ pending
        → (actor ≡ booking_runner) ⊎ (actor ≡ watcher)
        → reason ≡ some group_downgrade
        → needs_reconcile ≡ false
        → Edge
    fails_to_rebook :
        row.status ≡ booked
        → to ≡ pending
        → actor ≡ watcher
        → reason ≢ some group_downgrade
        → needs_reconcile ≡ true
        → Edge
    loses : row.status ≡ pending → to ≡ lost → actor ≡ watcher → row_is_frozen row now ≡ true → Edge
