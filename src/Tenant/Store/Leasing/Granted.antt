-- ===== src/Tenant/Store/Leasing/Granted.antt =====
-- What a granted row lease found, and left.
use tee_time_booker.Prelude.{
  Bool, Bool-cases, Option, Option-cases, Result, [], ap, arith, err, false, get_at-key, inl, inr,
  not, ok, refl, some, subst, sym, true, ℕ, ◌||◌, ◌∙◌, ◌∷◌, ◌≡◌,
}
use tee_time_booker.Tenant.Rows.{RequestRow}
use tee_time_booker.Tenant.Semantics.Outcomes.{RowFingerprint, fingerprint_matches}
use tee_time_booker.Tenant.Store.Batches.{put_rows-at}
use tee_time_booker.Tenant.Store.Commit.{Write, commit}
use tee_time_booker.Tenant.Store.Committed.{commit_parts}
use tee_time_booker.Tenant.Store.Plans.{committed, perform, replace}
use tee_time_booker.Tenant.Store.Running.{acquire_row_lease, held_by_other, is_leasable, leased_row}
use tee_time_booker.Tenant.Store.State.{Store, StoreError, missing, row_at}

abbrev pub Returned : {A : Type 0} → A → Store → Result StoreError A × Store
Returned a t = (ok a, t)

same_value : {s t : Store} → Returned false s ≡ Returned true t → ⊥
same_value p = cc p

same_after : {s t : Store} → Returned true s ≡ Returned true t → s ≡ t
same_after p = ap (λ r. r.1) p

raised_none :
    {s t : Store} (e : StoreError)
    → ◌≡◌ {A = Result StoreError Bool × Store} (err e, s) (Returned true t)
    → ⊥
raised_none e p = cc p

pub refusals :
    (row : RequestRow) (owner now : ℕ) (expected : Option RowFingerprint)
    → (not (is_leasable row.status)
        || (held_by_other row owner now || not (fingerprint_matches row expected)))
      ≡ false
    → (is_leasable row.status ≡ true)
      × (held_by_other row owner now ≡ false)
      × (fingerprint_matches row expected ≡ true)
refusals row owner now expected h =
    three (is_leasable row.status) (held_by_other row owner now) (fingerprint_matches row expected)
      h
  where
    three : (a b c : Bool) → (not a || (b || not c)) ≡ false → (a ≡ true) × (b ≡ false) × (c ≡ true)
    three a b c e = ground (arith, e)

-- An empty batch changes nothing.
pub perform-empty : {A : Type 0} (s : Store) (a : A) → perform s (ok ([], a)) ≡ Returned a s
unfolding commit
perform-empty s a = refl

committed_ok :
    (s : Store) (r : Result StoreError Store) {t : Store}
    → committed s true r ≡ Returned true t
    → r ≡ ok t
committed_ok s (ok u) h = ap ok (same_after h)
committed_ok s (err e) h = absurd (raised_none e h)

row_after : (s t : Store) (w : Write) → commit (w ∷ []) s ≡ ok t → row_at t w.new.id ≡ some w.new
row_after s t w done =
    let (_, _, (slots, claimed, eq)) = commit_parts (w ∷ []) s done in
    subst (λ u. row_at u w.new.id ≡ some w.new) eq
      (put_rows-at (w ∷ []) s.rows w ((λ m. m), tt) (inl refl))

abbrev pub refuses : RequestRow → ℕ → ℕ → Option RowFingerprint → Bool
refuses row owner now expected =
    not (is_leasable row.status)
    || (held_by_other row owner now || not (fingerprint_matches row expected))

module _ (s : Store) (row_id owner until now : ℕ) (expected : Option RowFingerprint)
    {t : Store} where
  -- What a granted lease found, and left.
  pub granted :
      perform s (acquire_row_lease s row_id owner until now expected) ≡ Returned true t
      → (row : RequestRow) × (row_at s row_id ≡ some row)
        × (is_leasable row.status ≡ true)
        × (held_by_other row owner now ≡ false)
        × (fingerprint_matches row expected ≡ true)
        × (row_at t row_id ≡ some (leased_row row owner until))
  unfolding acquire_row_lease
  granted h = elim (Option-cases (row_at s row_id)) [
    | inl e ↦ absurd (raised_none missing (rw (e, acquire_row_lease) at h))
    | inr (row, e) ↦ elim (Bool-cases (refuses row owner now expected)) [
      | inl f ↦
          absurd (same_value (sym (perform-empty s false) ∙ rw (e, f, acquire_row_lease) at h))
      | inr f ↦
          let done =
            committed_ok s (commit (replace row (leased_row row owner until) ∷ []) s)
              (rw (e, f, acquire_row_lease) at h) in
          let (a, b, c) = refusals row owner now expected f in
          (
            row,
            e,
            a,
            b,
            c,
            subst (λ i. row_at t i ≡ some (leased_row row owner until))
                (get_at-key (λ r. r.id) s.rows row_id e)
                (row_after s t (replace row (leased_row row owner until)) done),
          )
    ]
  ]
