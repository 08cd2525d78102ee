-- ===== src/Tenant/Semantics/Outcomes/Ledger.antt =====
-- `validate_ledger` decides that every entry of an outcome is about the outcome's own date.
use tee_time_booker.Prelude.{
  ℕ, ◌≡◌, ◌↔◌, refl, Option, none, some, List, [], ◌∷◌, All, Result, ok, err, ◌>>◌, arith,
}
use tee_time_booker.Tenant.Rows.{OwnedBooking}
use tee_time_booker.Tenant.Semantics.Outcomes.Writes.{
  RowOutcome, LedgerError, ledger_entries, check_entry, check_entries, validate_ledger,
}

abbrev pub IsCourse : Option ℕ → ℕ → Type 0
IsCourse none course_id = Unit
IsCourse (some c) course_id = course_id ≡ c

-- The entry is about the outcome's account and date, and its course where one is given.
abbrev pub IsAbout : RowOutcome → Option ℕ → OwnedBooking → Type 0
IsAbout o course_id entry =
    (entry.course_account_id ≡ o.course_account_id)
    × (entry.target_date ≡ o.target_date)
    × IsCourse course_id entry.course_id

check_entry_iff :
    (o : RowOutcome) (course_id : Option ℕ) (entry : OwnedBooking)
    → (check_entry o course_id entry ≡ ok tt) ↔ IsAbout o course_id entry
check_entry_iff o none entry = ((λ h. ground (arith, h)), (λ h. ground (arith, h)))
check_entry_iff o (some c) entry = ((λ h. ground (arith, h)), (λ h. ground (arith, h)))

both :
    (first second : Result LedgerError (Unit {0}))
    → ((first >> second) ≡ ok tt) ↔ ((first ≡ ok tt) × (second ≡ ok tt))
both (ok tt) second = ((λ h. (refl, h)), (λ h. h.1))
both (err e) second = ((λ h. absurd (cc h)), (λ h. absurd (cc h.0)))

check_entries_iff :
    (o : RowOutcome) (course_id : Option ℕ) (entries : List OwnedBooking)
    → (check_entries o course_id entries ≡ ok tt) ↔ All (IsAbout o course_id) entries
check_entries_iff o course_id [] = ((λ h. tt), (λ h. refl))
check_entries_iff o course_id (entry ∷ rest) =
    let pair = both (check_entry o course_id entry) (check_entries o course_id rest) in
    let here = check_entry_iff o course_id entry in
    let later = check_entries_iff o course_id rest in
    ((λ h. let (a, b) = pair.0 h in (here.0 a, later.0 b)), (λ h. pair.1 (here.1 h.0, later.1 h.1)))

-- The ledger entries of an outcome (its booking, the extras held and the extras cancelled) are
-- accepted exactly when each is about the account and the date of the outcome, and about the given
-- course where one is given.
pub validate_ledger_iff :
    (o : RowOutcome) (course_id : Option ℕ)
    → (validate_ledger o course_id ≡ ok tt) ↔ All (IsAbout o course_id) (ledger_entries o)
unfolding validate_ledger
validate_ledger_iff o course_id = check_entries_iff o course_id (ledger_entries o)
