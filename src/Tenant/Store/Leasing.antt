-- ===== src/Tenant/Store/Leasing.antt =====
-- The row leases of the tenant store.
use tee_time_booker.Prelude.{List, Option, false, ok, refl, sym, true, ℕ, ◌<◌, ◌∙◌, ◌≡◌, ◌≢◌}
use tee_time_booker.Tenant.Rows.{RequestRow}
use tee_time_booker.Tenant.Semantics.Outcomes.{RowFingerprint}
use tee_time_booker.Tenant.Store.Plans.{perform}
use tee_time_booker.Tenant.Store.Running.{acquire_row_lease, is_leasable, leased_row}
use tee_time_booker.Tenant.Store.State.{Store, row_at}
use tee_time_booker.Tenant.Store.Leasing.Granted.{granted, perform-empty, refuses}
use tee_time_booker.Tenant.Store.Leasing.Others.{
  LeaseCall, AreOthers, after_calls, calls-keep, held_now,
}
pub mod Granted
pub mod Others

-- Once a lease on a row is granted, and after any sequence of calls by other owners before it ends
-- that ask for the row or another one, claim it, release it or mark it for an upgrade: the row is as
-- the grant left it, and until the lease ends another owner's request for it is refused and changes
-- nothing.
pub lease_excludes :
    (s : Store) (row_id owner until now : ℕ) (expected : Option RowFingerprint) {t : Store}
    → perform s (acquire_row_lease s row_id owner until now expected) ≡ (ok true, t)
    → (cs : List LeaseCall) → AreOthers owner until cs
    → (row_at (after_calls cs t) row_id ≡ row_at t row_id)
      × ((other until' now' : ℕ) (expected' : Option RowFingerprint)
          → owner ≢ other
          → now' < until
          → perform
              (after_calls cs t)
              (acquire_row_lease (after_calls cs t) row_id other until' now' expected')
            ≡ (ok false, after_calls cs t))
unfolding acquire_row_lease
lease_excludes s row_id owner until now expected {t} h cs others =
    let (row, _, leasable, _, _, after) = granted s row_id owner until now expected h in
    let kept =
      calls-keep row_id owner until (leased_row row owner until) cs t refl refl others after in
    (
      kept ∙ sym after,
      (λ other until' now' expected' ne small.
          rw (kept, acquire_row_lease, refused row leasable other now' expected' ne small)
            (perform-empty (after_calls cs t) false)),
    )
  where
    refused :
        (row : RequestRow)
        → is_leasable row.status ≡ true
        → (other now' : ℕ) (expected' : Option RowFingerprint) → owner ≢ other
        → now' < until
        → refuses (leased_row row owner until) other now' expected' ≡ true
    refused row e other now' expected' ne small =
        rw (e, held_now (leased_row row owner until) owner other until now' refl refl ne small) refl
