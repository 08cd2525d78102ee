-- ===== src/Tenant/Store/Reach.antt =====
-- What holds of the store after any sequence of calls.
use tee_time_booker.Prelude.{
  Bool-cases, List, Option, ap, arith, inl, inr, none, refl, some, sym, true, ℕ, ◌↔◌, ◌∙◌, ◌≡◌, ◌≤◌,
}
use tee_time_booker.Tenant.Rows.{RequestRow, StandingRule}
use tee_time_booker.Tenant.Semantics.Outcomes.{is_active}
use tee_time_booker.Tenant.Store.Calls.{Call, run}
use tee_time_booker.Tenant.Store.Commit.{Slots}
use tee_time_booker.Tenant.Store.Commits.{SlotsAgree, active_place}
use tee_time_booker.Tenant.Store.Moves.{Moves-Grows, Moves-RuledaysAgree, Moves-SlotsAgree}
use tee_time_booker.Tenant.Store.Pointers.{Active, Agree, some_pair}
use tee_time_booker.Tenant.Store.Ruledays.{RuledaysAgree, rule_place}
use tee_time_booker.Tenant.Store.Sound.Calls.{run-Moves}
use tee_time_booker.Tenant.Store.State.{Site, Store, empty_store, row_at, rule_at}

pub empty_store-SlotsAgree : SlotsAgree empty_store
empty_store-SlotsAgree a d i = ((λ h. absurd (cc h)), (λ h. absurd (cc h)))

pub empty_store-RuledaysAgree : RuledaysAgree empty_store
empty_store-RuledaysAgree a w i = ((λ h. absurd (cc h)), (λ h. absurd (cc h)))

active_place_iff :
    (found : Option RequestRow) (a d : ℕ)
    → (active_place found ≡ some (a, d)) ↔ (
        (r : RequestRow) × (found ≡ some r)
        × (is_active r.status ≡ true)
        × (r.course_account_id ≡ a)
        × (r.target_date ≡ d))
active_place_iff none a d = ((λ h. absurd (cc h)), (λ (r, e, g, p, q). absurd (cc e)))
active_place_iff (some r) a d = (to, (λ (r', e, g, p, q). from r' e g p q))
  where
    to :
        active_place (some r) ≡ some (a, d)
        → (r' : RequestRow) × (some r ≡ some r')
          × (is_active r'.status ≡ true)
          × (r'.course_account_id ≡ a)
          × (r'.target_date ≡ d)
    to h = elim (Bool-cases (is_active r.status)) [
      | inl e ↦ let (p, q) = some_pair (rw e at h) in (r, refl, e, p, q)
      | inr e ↦ absurd (cc (rw e at h))
    ]

    from :
        (r' : RequestRow)
        → ◌≡◌ {A = Option RequestRow} (some r) (some r')
        → is_active r'.status ≡ true
        → r'.course_account_id ≡ a
        → r'.target_date ≡ d
        → active_place (some r) ≡ some (a, d)
    from r' e g p q = ap active_place e ∙ rw g (ground (arith, p, q))

rule_place-parts :
    (r : StandingRule) {a w : ℕ}
    → r.active ≡ true
    → r.course_account_id ≡ a
    → r.weekday_index ≡ w
    → rule_place (some r) ≡ some (a, w)
rule_place-parts r e p q = rw e (ground (arith, p, q))

same_holder : {i j : ℕ} → ◌≡◌ {A = Option ℕ} (some i) (some j) → i ≡ j
same_holder p = ground (arith, p)

-- Two ids that are active on one place are one.
one_holder :
    (slots : Slots) (act : Active) {a d i j : ℕ}
    → Agree slots act
    → act i ≡ some (a, d)
    → act j ≡ some (a, d)
    → i ≡ j
one_holder slots act {a} {d} {i} {j} h e f = same_holder (sym ((h a d i).1 e) ∙ (h a d j).1 f)

module _ (site : Site) (cs : List Call) where
  reached-SlotsAgree : SlotsAgree (run site cs empty_store)
  reached-SlotsAgree = Moves-SlotsAgree (run-Moves site cs empty_store) empty_store-SlotsAgree

  -- After any sequence of calls on a new store, whichever of them raise, an account's pointer for
  -- a date is set to a row's id exactly when the stored row with that id is active (pending,
  -- booked or skipped) on that account and date.
  pub slots_name_active_rows :
      (account_id day row_id : ℕ)
      → ((run site cs empty_store).slots account_id day ≡ some row_id) ↔ (
          (r : RequestRow) × (row_at (run site cs empty_store) row_id ≡ some r)
          × (is_active r.status ≡ true)
          × (r.course_account_id ≡ account_id)
          × (r.target_date ≡ day))
  slots_name_active_rows account_id day row_id =
      let agree = reached-SlotsAgree account_id day row_id in
      let place = active_place_iff (row_at (run site cs empty_store) row_id) account_id day in
      ((λ h. place.0 (agree.0 h)), (λ h. agree.1 (place.1 h)))

  -- After any sequence of calls on a new store, two stored rows that are active (pending, booked
  -- or skipped) on one account and date are one row: no account holds two on a date.
  pub one_active_row :
      (i j : ℕ) {r r' : RequestRow}
      → row_at (run site cs empty_store) i ≡ some r
      → row_at (run site cs empty_store) j ≡ some r'
      → is_active r.status ≡ true
      → is_active r'.status ≡ true
      → r.course_account_id ≡ r'.course_account_id
      → r.target_date ≡ r'.target_date
      → i ≡ j
  one_active_row i j {r} {r'} e f g k p q =
      one_holder (run site cs empty_store).slots _ reached-SlotsAgree
        ((active_place_iff _ r'.course_account_id r'.target_date).1 (r, e, g, p, q))
        ((active_place_iff _ r'.course_account_id r'.target_date).1 (r', f, k, refl, refl))

  -- After any sequence of calls on a new store, two stored rules that are active on one account
  -- and weekday are one rule.
  pub one_active_rule :
      (i j : ℕ) {r r' : StandingRule}
      → rule_at (run site cs empty_store) i ≡ some r
      → rule_at (run site cs empty_store) j ≡ some r'
      → r.active ≡ true
      → r'.active ≡ true
      → r.course_account_id ≡ r'.course_account_id
      → r.weekday_index ≡ r'.weekday_index
      → i ≡ j
  one_active_rule i j {r} {r'} e f g k p q =
      one_holder (run site cs empty_store).ruledays _
        (Moves-RuledaysAgree (run-Moves site cs empty_store) empty_store-RuledaysAgree)
        (ap rule_place e ∙ rule_place-parts r g p q)
        (ap rule_place f ∙ rule_place-parts r' k refl refl)

  -- Whatever is called, and whichever calls raise, a stored row stays stored under its id, on its
  -- account and its date, and its version never goes down.
  pub run-Grows :
      (s : Store) (i : ℕ) {r : RequestRow}
      → row_at s i ≡ some r
      → (r' : RequestRow) × (row_at (run site cs s) i ≡ some r')
        × (r'.course_account_id ≡ r.course_account_id)
        × (r'.target_date ≡ r.target_date)
        × (r.version ≤ r'.version)
  run-Grows s i {r} h = Moves-Grows (run-Moves site cs s) i r h
