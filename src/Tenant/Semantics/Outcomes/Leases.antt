-- ===== src/Tenant/Semantics/Outcomes/Leases.antt =====
-- Which outcomes may be written, and what becomes of the lease.
use tee_time_booker.Prelude.{◌≡◌, ◌⊎◌, true, false, none, some}
use tee_time_booker.Tenant.Rows.{RequestRow, RowStatus, has_actor, lease_held}
use tee_time_booker.Tenant.Rows.Edges.{Edge}
use tee_time_booker.Tenant.Semantics.Outcomes.Writes.{RowOutcome, leased_edge, owns}

-- A status change is an allowed move of the leased path by the holder of a live lease. A write that
-- leaves the status needs only that nobody else holds one.
pub data Permitted (row : RequestRow) (o : RowOutcome) : Type 0 where
  moves :
      (to : RowStatus)
      → o.to_status ≡ some to
      → has_actor o.actor (leased_edge row.status to) ≡ true
      → Edge row to o.actor o.at o.status_reason o.needs_reconcile
      → owns row o ≡ true
      → lease_held row o.at ≡ true
      → Permitted row o
  notes : o.to_status ≡ none → (lease_held row o.at ≡ false) ⊎ (owns row o ≡ true) → Permitted row o
