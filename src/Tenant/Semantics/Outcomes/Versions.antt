-- ===== src/Tenant/Semantics/Outcomes/Versions.antt =====
-- What a written outcome changes: the status, the version that readers compare, the lease.
use tee_time_booker.Prelude.{
  not, ◌&&◌, if◌then◌else◌, if◌then◌else◌, ◌+◌, ◌≤◌, ◌≡◌, ◌↔◌, ◌⊎◌, refl, subst, ap, inl, inr, Bool,
  true, false, Option, none, some, Bool-cases, ok, arith, >>=-eq-ok,
}
use tee_time_booker.Core.Models.{Code, same_code_iff, same_code?}
use tee_time_booker.Tenant.Rows.{RequestRow, RowStatus, is_status}
use tee_time_booker.Tenant.Semantics.Outcomes.Writes.{
  RowOutcome, owns, check_outcome, with_status, with_marker, without_lease, is_changed, same_flag,
  outcome_row, booking_fields,
}

-- What a lease fingerprint and the outcome guard compare.
abbrev pub SameFacts : RequestRow → RequestRow → Type 0
SameFacts a b =
    (a.status ≡ b.status)
    × (a.needs_reconcile ≡ b.needs_reconcile)
    × (a.booked_raw_id ≡ b.booked_raw_id)

same_code?_iff : (a b : Option Code) → (same_code? a b ≡ true) ↔ (a ≡ b)
same_code?_iff none none = ((λ _. refl), (λ _. refl))
same_code?_iff none (some d) = ((λ h. cc), (λ h. cc))
same_code?_iff (some c) none = ((λ h. cc), (λ h. cc))
same_code?_iff (some c) (some d) =
    ((λ h. ap some ((same_code_iff c d).0 h)), (λ p. (same_code_iff c d).1 (cc)))

is_status_iff : (a b : RowStatus) → (is_status a b ≡ true) ↔ (a ≡ b)
is_status_iff a b = ((λ h. ground (arith, h)), (λ p. ground (arith, p)))

same_flag_iff : (a b : Bool) → (same_flag a b ≡ true) ↔ (a ≡ b)
same_flag_iff a b = ground arith

all_three : (a b c : Bool) → not (a && (b && c)) ≡ false → (a ≡ true) × (b ≡ true) × (c ≡ true)
all_three a b c h = ground arith

is_changed_cases :
    (new row : RequestRow)
    → ((is_changed new row ≡ false) × SameFacts new row)
      ⊎ ((is_changed new row ≡ true) × (¬ SameFacts new row))
is_changed_cases new row =
    let s = is_status_iff new.status row.status in
    let f = same_flag_iff new.needs_reconcile row.needs_reconcile in
    let r = same_code?_iff new.booked_raw_id row.booked_raw_id in
    elim (Bool-cases (is_changed new row)) [
      | inl e ↦ inr (e, λ (p, q, w). cc (rw (s.1 p, f.1 q, r.1 w) at e))
      | inr e ↦
          let (p, q, w) =
            all_three (is_status new.status row.status)
              (same_flag new.needs_reconcile row.needs_reconcile)
              (same_code? new.booked_raw_id row.booked_raw_id) e in
          inl (e, (s.0 p, f.0 q, r.0 w))
    ]

abbrev unversioned : RequestRow → RowOutcome → RequestRow
unversioned row o =
    without_lease (owns row o) (with_marker o.clear_upgrade_marker (with_status row o))

module _ (row : RequestRow) (o : RowOutcome) {new : RequestRow}
    (h : outcome_row row o ≡ ok new) where
  new-eq :
      (if is_changed (unversioned row o) row
        then record (unversioned row o) { version = row.version + 1 }
        else unversioned row o)
      ≡ new
  unfolding outcome_row
  new-eq = let (_, _, e) = >>=-eq-ok (check_outcome row o) _ h in ground (arith, e)

  version-unversioned : (unversioned row o).version ≡ row.version
  unfolding booking_fields
  version-unversioned = ground arith

  abbrev InPlace : RequestRow → Type 0
  InPlace n =
      (n.course_account_id ≡ row.course_account_id)
      × (n.target_date ≡ row.target_date)
      × (row.version ≤ n.version)

  pub outcome_row_place :
      (new.course_account_id ≡ row.course_account_id)
      × (new.target_date ≡ row.target_date)
      × (row.version ≤ new.version)
  unfolding booking_fields
  outcome_row_place = subst InPlace new-eq (ground arith)

  abbrev Told : RequestRow → Type 0
  Told n =
      ((n.version ≡ row.version) × SameFacts n row)
      ⊎ ((n.version ≡ row.version + 1) × (¬ SameFacts n row))

  -- In a row that was written, the version is the old row's while status, flag and reservation stay, and one more otherwise.
  pub version_tells :
      (((new.version ≡ row.version) × SameFacts new row)
        ⊎ ((new.version ≡ row.version + 1) × (¬ SameFacts new row)))
  version_tells = elim (is_changed_cases (unversioned row o) row) [
    | inl (e, same) ↦ subst Told (rw e at new-eq) (inl (version-unversioned, same))
    | inr (e, differ) ↦ subst Told (rw e at new-eq) (inr (refl, differ))
  ]

  abbrev LeaseLeft : RequestRow → Type 0
  LeaseLeft n =
      ((owns row o ≡ true) × (n.lease_owner ≡ none) × (n.lease_expires_at ≡ none))
      ⊎ ((owns row o ≡ false)
          × (n.lease_owner ≡ row.lease_owner)
          × (n.lease_expires_at ≡ row.lease_expires_at))
