-- ===== src/Tenant/Groups/Spares.antt =====
-- Which reservations a collapse cancels.
use tee_time_booker.Prelude.{
  Bool, Bool-cases, List, Member, Member-append_cases, Option, Option-cases, Result, [], err, false,
  inl, inr, none, ok, refl, same_option, some, subst, sym, true, ℕ, ◌+◌, ◌||◌, ◌∷◌, ◌≡◌, ◌⊎◌,
}
use tee_time_booker.Core.Models.{Code}
use tee_time_booker.Tenant.Groups.Collapse.{
  CancelAnswer, Downgrade, Setting, Step, World, after_cancel, after_step, and_release, cancel_done,
  cancel_failed, cancel_marked, cancel_throttled, double_held_outcome, downgrade, downgrade_leased,
  downgrade_with, entry_of, fingerprint_of, in_store, mark_double_held, sent, tick,
}
use tee_time_booker.Tenant.Groups.Report.{
  cancel_one, cancel_worse, collapse_group, held_in, notify_manual, plan_in,
}
use tee_time_booker.Tenant.Rows.{OwnedBooking, RequestRow}
use tee_time_booker.Tenant.Store.{
  perform, acquire_row_lease, release_row_lease, set_upgrade_marker, Store, StoreError,
}

-- Between the two worlds, only cancels with `P` were sent.
abbrev Only : (ℕ × Code → Type 0) → World → World → Type 0
Only P v w = (x : ℕ × Code) → Member x w.cancels → Member x v.cancels ⊎ P x

module _ (P : ℕ × Code → Type 0) where
  Only-refl : (v w : World) → v.cancels ≡ w.cancels → Only P v w
  Only-refl v w e x m = inl (subst (λ l. Member x l) (sym e) m)

  Only-trans : (u v w : World) → Only P u v → Only P v w → Only P u w
  Only-trans u v w f g x m = elim (g x m) [ inl n ↦ f x n | inr p ↦ inr p ]

  Only-after_step :
      {A B : Type 0} (v : World) (step : Step A) (next : A → World → Step B)
      → Only P v step.1
      → ((a : A) (w : World) → Only P w (next a w).1)
      → Only P v (after_step step next).1
  Only-after_step v (err e, w) next f g = f
  Only-after_step v (ok a, w) next f g = Only-trans v w (next a w).1 f (g a w)

  Only-in_store :
      {A : Type 0} (w : World) (r : Result StoreError A × Store) → Only P w (in_store w r).1
  Only-in_store w (ok a, s) = Only-refl w (record w { store = s }) refl
  Only-in_store w (err e, s) = Only-refl w (record w { store = s }) refl

  after_cancel-Only :
      (c : Setting) (row : RequestRow) (entry : OwnedBooking) (answer : CancelAnswer) (w : World)
      → Only P w (after_cancel c row entry answer w).1
  after_cancel-Only c row entry cancel_throttled w = Only-refl w w refl
  after_cancel-Only c row entry cancel_failed w = Only-refl w w refl
  after_cancel-Only c row entry cancel_done w =
      Only-refl w (after_cancel c row entry cancel_done w).1 refl

  sent-Only :
      (account : ℕ) (raw : Code) (w : World) → P (account, raw) → Only P w (sent account raw w)
  sent-Only account raw w p x m = elim (Member-append_cases x w.cancels ((account, raw) ∷ []) m) [
    | inl n ↦ inl n
    | inr n ↦ elim n [ inl e ↦ inr (subst P (sym e) p) | inr z ↦ absurd z ]
  ]

  module _ (c : Setting) (row : RequestRow) (entry : OwnedBooking)
      (answer : List (ℕ × Code) → Code → CancelAnswer) (raw : Code)
      (p : P (row.course_account_id, raw)) where
    cancel_marked-Only :
        (marked : Bool) (w : World) → Only P w (cancel_marked c row entry answer raw marked w).1
    cancel_marked-Only false w = Only-refl w w refl
    cancel_marked-Only true w =
        Only-trans w (sent row.course_account_id raw w)
          (after_cancel c row entry (answer w.cancels raw) (sent row.course_account_id raw w)).1
          (sent-Only row.course_account_id raw w p)
          (after_cancel-Only c row entry (answer w.cancels raw) (sent row.course_account_id raw w))

    and_release-Only :
        (v : World) (row_id : ℕ) (step : Step Downgrade)
        → Only P v step.1
        → Only P v (and_release c row_id step).1
    and_release-Only v row_id (result, w) f =
        Only-trans v w (and_release c row_id (result, w)).1 f (
          Only-after_step w
            (in_store w (perform w.store (release_row_lease w.store row_id c.owner))) _
            (Only-in_store w (perform w.store (release_row_lease w.store row_id c.owner)))
            (λ _ u. Only-refl u u refl))

    downgrade_leased-Only :
        (now : ℕ) (leased : Bool) (w : World)
        → Only P w (downgrade_leased c row entry answer raw now leased w).1
    downgrade_leased-Only now false w = Only-refl w w refl
    downgrade_leased-Only now true w =
        let mark = in_store w (
          perform w.store
            (set_upgrade_marker w.store row.id c.owner now (fingerprint_of row raw))) in
        and_release-Only w row.id (after_step mark (cancel_marked c row entry answer raw)) (
          Only-after_step w mark (cancel_marked c row entry answer raw)
            (Only-in_store w (
              perform w.store
                (set_upgrade_marker w.store row.id c.owner now (fingerprint_of row raw))))
            cancel_marked-Only)

  downgrade_with-Only :
      (c : Setting) (row : RequestRow) (entry : OwnedBooking)
      (session : Option (List (ℕ × Code) → Code → CancelAnswer)) (code : Option Code) (w : World)
      → ((raw : Code) → code ≡ some raw → P (row.course_account_id, raw))
      → Only P w (downgrade_with c row entry session code w).1
  downgrade_with-Only c row entry none code w p = Only-refl w w refl
  downgrade_with-Only c row entry (some answer) none w p = Only-refl w w refl
  downgrade_with-Only c row entry (some answer) (some raw) w p =
      let leasing = perform w.store (
        acquire_row_lease w.store row.id c.owner (c.clock w.reads + c.lease_us) (c.clock w.reads)
          (some (fingerprint_of row raw))) in
      Only-after_step w (in_store (tick w) leasing)
        (downgrade_leased c row entry answer raw (c.clock w.reads)) (Only-in_store (tick w) leasing)
        (downgrade_leased-Only c row entry answer raw (p raw refl) (c.clock w.reads))

  cancel_one-Only :
      (c : Setting) (entries : List (ℕ × OwnedBooking)) (row : RequestRow) (w : World)
      → (c.dry_run ≡ false
          → (raw : Code) → row.booked_raw_id ≡ some raw
          → P (row.course_account_id, raw))
      → Only P w (cancel_one c entries row w).1
  unfolding cancel_one downgrade
  cancel_one-Only c entries row w p = elim (Bool-cases c.dry_run) [
    | inl e ↦ rw e (Only-refl w w refl)
    | inr e ↦ elim (Option-cases (entry_of entries row)) [
      | inl f ↦ rw (e, f) (Only-refl w w refl)
      | inr (entry, f) ↦
          rw (e, f)
            (downgrade_with-Only c row entry (c.session row.course_account_id) row.booked_raw_id w
              (p e))
    ]
  ]

  cancel_worse-Only :
      (c : Setting) (entries : List (ℕ × OwnedBooking)) (rows : List RequestRow) (w : World)
      → ((row : RequestRow)
          → Member row rows
          → c.dry_run ≡ false
          → (raw : Code) → row.booked_raw_id ≡ some raw
          → P (row.course_account_id, raw))
      → Only P w (cancel_worse c entries rows w).1
  unfolding cancel_worse
  cancel_worse-Only c entries [] w p = Only-refl w w refl
  cancel_worse-Only c entries (row ∷ rows) w p =
      Only-after_step w (cancel_one c entries row w) _
        (cancel_one-Only c entries row w (p row (inl refl)))
        (λ d v.
          Only-after_step v (cancel_worse c entries rows v) _
            (cancel_worse-Only c entries rows v (λ r m. p r (inr m)))
            (λ later u. Only-refl u u refl))

notify_manual-cancels :
    (c : Setting) (rows : List RequestRow) (w : World)
    → w.cancels ≡ (notify_manual c rows w).1.cancels
unfolding notify_manual mark_double_held
notify_manual-cancels c [] w = refl
notify_manual-cancels c (row ∷ rows) w =
    elim (Bool-cases (c.dry_run || same_option row.last_outcome (some double_held_outcome))) [
      | inl e ↦ rw e (notify_manual-cancels c rows w)
      | inr e ↦ rw e (notify_manual-cancels c rows (mark_double_held c row w).1)
    ]

-- Every cancel that a collapse sends beyond those already sent is of a reservation that its plan
-- cancels, through the account that holds it, and no cancel is sent in a dry run.
pub collapse_group_cancels :
    (c : Setting) (group : List RequestRow) (w : World) (account : ℕ) (raw : Code)
    → Member (account, raw) (collapse_group c group w).1.cancels
    → Member (account, raw) w.cancels
      ⊎ ((c.dry_run ≡ false)
          × ((row : RequestRow) × Member row (plan_in c group w).cancel
              × (row.course_account_id ≡ account)
              × (row.booked_raw_id ≡ some raw)))
unfolding collapse_group
collapse_group_cancels c group w account raw m =
    Only-trans Sent w told (collapse_group c group w).1
      (Only-refl Sent w told (notify_manual-cancels c (plan_in c group w).leave_manual w))
      (Only-after_step Sent told
        (cancel_worse c (held_in c group w) (plan_in c group w).cancel told) _
        (cancel_worse-Only Sent c (held_in c group w) (plan_in c group w).cancel told
          (λ row n dry code e. (dry, (row, n, refl, e))))
        (λ noted u. Only-refl Sent u u refl))
      (account, raw) m
  where
    told : World
    told = (notify_manual c (plan_in c group w).leave_manual w).1

    Sent : ℕ × Code → Type 0
    Sent (a, code) =
        (c.dry_run ≡ false)
        × ((row : RequestRow) × Member row (plan_in c group w).cancel
            × (row.course_account_id ≡ a)
            × (row.booked_raw_id ≡ some code))
