-- ===== src/Tenant/Store/Sound/Web.antt =====
-- The plans of the web application, which may write two rows at once.
use tee_time_booker.Prelude.{
  >>=-eq-ok, All, Bool, Bool-cases, IsDistinct, List, Option, Result, [], ap, arith, false,
  get_at-key, guard, inl, inr, none, not, ok, some, subst, sym, true, ℕ, ◌&&◌, ◌∙◌, ◌∷◌, ◌≡◌, ◌≢◌,
  ◌⊎◌,
}
use tee_time_booker.Core.Policy.{BookingCutoffConfig}
use tee_time_booker.Tenant.Rows.{
  Actor, Reason, RequestRow, RowStatus, StandingRule, booked, check_transition, is_status,
  lease_held, rule, superseded, web, withdrawn,
}
use tee_time_booker.Tenant.Semantics.Intents.{RowIntent}
use tee_time_booker.Tenant.Semantics.Restored.{restorable_rule_row_place}
use tee_time_booker.Tenant.Semantics.Restoring.{is_rule_row, restorable_rule_row, unleased_write}
use tee_time_booker.Tenant.Store.Batches.{ids_of}
use tee_time_booker.Tenant.Store.Commit.{Write, check_stored, commit}
use tee_time_booker.Tenant.Store.Commits.{Continues}
use tee_time_booker.Tenant.Store.Committed.{commit_parts, write-cases}
use tee_time_booker.Tenant.Store.Moves.{IsSound, IsSound-one, IsSound-plan}
use tee_time_booker.Tenant.Store.Plans.{create, or_key_error, replace}
use tee_time_booker.Tenant.Store.Sound.Runs.{lift_write_ok}
use tee_time_booker.Tenant.Store.Sound.Steps.{
  IsSound-create, account-unleased_write, date-unleased_write, sound_rules,
}
use tee_time_booker.Tenant.Store.State.{
  Site, Store, StoreError, history, lift_check, lift_write, or_missing, row_at, row_leased, rule_at,
  transition_refused,
}
use tee_time_booker.Tenant.Store.Web.{
  create_explicit_row, explicit_writes, moved_row, restore_writes, superseded_row, transition_row,
}

IsDistinct-pair : (a b : Write) → a.new.id ≢ b.new.id → IsDistinct (ids_of (a ∷ b ∷ []))
IsDistinct-pair a b ne = ((λ m. elim m [ inl p ↦ ne p | inr q ↦ q ]), ((λ m. m), tt))

row_at-id : (s : Store) (id : ℕ) {row : RequestRow} → row_at s id ≡ some row → row.id ≡ id
row_at-id s id h = get_at-key (λ r. r.id) s.rows id h

same_some : {a b : RequestRow} → ◌≡◌ {A = Option RequestRow} (some a) (some b) → a ≡ b
same_some p = ground (arith, p)

same_check : {ws vs : List Write} (s t : Store) → ws ≡ vs → commit ws s ≡ ok t → commit vs s ≡ ok t
same_check s t e h = subst (λ ws. commit ws s ≡ ok t) e h

rule_row : (row : RequestRow) → row.source ≡ rule → is_rule_row row ≡ false → ⊥
rule_row row h e = ground (arith, h, e)

module _ (s : Store) (row_id : ℕ) {row : RequestRow} (moved : RequestRow)
    (stored : row_at s row_id ≡ some row) where
  -- A row that is stored, and a rule row where it is none, have two ids.
  other_source :
      (old new : RequestRow)
      → is_rule_row row ≡ false
      → old.source ≡ rule
      → moved.id ≡ row.id
      → check_stored s (replace old new) ≡ ok tt
      → moved.id ≢ new.id
  other_source old new e from m check p = elim (write-cases s (replace old new) check) [
    | inl (a, b) ↦ cc a
    | inr (o, st, a, b, same) ↦
        rule_row row
          (ap (λ r. r.source) (same_some (sym stored ∙ (ap (row_at s) at_row ∙ b)))
            ∙ (same.same_origin ∙ (ap (λ r. r.source) (sym (same_some a)) ∙ from)))
          e
  ]
    where
      at_row : row_id ≡ new.id
      at_row = sym (row_at-id s row_id stored) ∙ (sym m ∙ p)

  -- A row that is stored, and a row that is created, have two ids.
  other_created :
      (new : RequestRow)
      → moved.id ≡ row.id
      → check_stored s (create new) ≡ ok tt
      → moved.id ≢ new.id
  other_created new m check p = elim (write-cases s (create new) check) [
    | inl (a, b) ↦ cc (stored, ap (row_at s) at_row, b)
    | inr (o, st, a, b, same) ↦ cc a
  ]
    where
      at_row : row_id ≡ new.id
      at_row = sym (row_at-id s row_id stored) ∙ (sym m ∙ p)

restored_pair :
    (history : List RequestRow) (rules : ℕ → Option StandingRule) (now : ℕ) (ws : List Write)
    (restore : Option (RequestRow × RequestRow))
    → restorable_rule_row history rules now ≡ ok restore
    → elim restore [ none ↦ [] | some (old, new) ↦ replace old new ∷ [] ] ≡ ws
    → (ws ≡ [])
      ⊎ ((old : RequestRow) × (new : RequestRow) × (ws ≡ replace old new ∷ [])
          × (old.source ≡ rule)
          × Continues (replace old new))
restored_pair history rules now ws none h e = inl (sym e)
restored_pair history rules now ws (some (old, new)) h e =
    let (from, i, a, d, v) = restorable_rule_row_place history rules now h in
    inr (old, new, sym e, from, (a, d, omega (arith, v)))

same_list : {a b : List Write} → ◌≡◌ {A = Result StoreError (List Write)} (ok a) (ok b) → a ≡ b
same_list p = ground (arith, p)

some_stored :
    (found : Option RequestRow) {row : RequestRow} → or_missing found ≡ ok row → found ≡ some row
some_stored none h = absurd (cc h)
some_stored (some r) h = ground (arith, h)

key_stored :
    (found : Option RequestRow) {row : RequestRow} → or_key_error found ≡ ok row → found ≡ some row
key_stored none h = absurd (cc h)
key_stored (some r) h = ground (arith, h)

no_rule : (a b : Bool) → (not a && b) ≡ true → a ≡ false
no_rule a b h = ground (arith, h)

abbrev RestoresOne : RequestRow → List Write → Type 0
RestoresOne row ws =
    (is_rule_row row ≡ false)
    × ((old : RequestRow) × (new : RequestRow) × (ws ≡ replace old new ∷ [])
        × (old.source ≡ rule)
        × Continues (replace old new))

restore_writes-cases :
    (s : Store) (row : RequestRow) (to : RowStatus) (now : ℕ) {ws : List Write}
    → restore_writes s row to now ≡ ok ws
    → (ws ≡ []) ⊎ RestoresOne row ws
restore_writes-cases s row to now {ws} h =
    elim (Bool-cases (not (is_rule_row row) && is_status to withdrawn)) [
      | inr e ↦ inl (sym (same_list (rw (e, restore_writes) at h)))
      | inl e ↦
          let (restore, f, g) =
            >>=-eq-ok
              (lift_write (
                restorable_rule_row (history s row.course_account_id row.target_date) (rule_at s)
                  now))
              _ (rw (e, restore_writes) at h) in
          elim (restored_pair _ _ now ws restore (lift_write_ok _ f) (same_list g)) [
            | inl p ↦ inl p
            | inr p ↦ inr (no_rule _ _ e, p)
          ]
    ]

stored_checks :
    (s t : Store) (ws : List Write) → commit ws s ≡ ok t → All (λ w. check_stored s w ≡ ok tt) ws
stored_checks s t ws h = (commit_parts ws s h).0

moved-IsSound :
    (s : Store) (row_id : ℕ) (row : RequestRow) (to : RowStatus) (reason : Option Reason) (now : ℕ)
    (restore : List Write)
    → or_missing (row_at s row_id) ≡ ok row
    → restore_writes s row to now ≡ ok restore
    → IsSound s
        (ok (replace row (moved_row row to reason now) ∷ restore, moved_row row to reason now))
unfolding moved_row unleased_write
moved-IsSound s row_id row to reason now restore found h =
    elim (restore_writes-cases s row to now h) [
      | inl e ↦ rw e (IsSound-one s _ (moved_row row to reason now) step)
      | inr (e, (old, new, f, from, next)) ↦ rw f (
          IsSound-plan s _ (moved_row row to reason now) (λ t done.
            let (_, (check, _)) = stored_checks s t _ done in
            (
              IsDistinct-pair (replace row (moved_row row to reason now)) (replace old new) (
                  other_source s row_id (moved_row row to reason now) (some_stored _ found) old new
                    e from same_id check),
              (step, (next, tt)),
            )))
    ]
  where
    step : Continues (replace row (moved_row row to reason now))
    step = (account-unleased_write row now, date-unleased_write row now, omega arith)

    same_id : (moved_row row to reason now).id ≡ row.id
    same_id = ground arith

pub transition_row-IsSound :
    (s : Store) (row_id : ℕ) (user_id : Option ℕ) (to : RowStatus) (actor : Actor)
    (reason : Option Reason) (now : ℕ)
    → IsSound s (transition_row s row_id user_id to actor reason now)
unfolding transition_row
transition_row-IsSound s row_id user_id to actor reason now =
    search (sound_rules, moved-IsSound) depth 14

over_holder-IsSound :
    (s : Store) (holder_id : ℕ) (holder row : RequestRow) (now : ℕ)
    → or_key_error (row_at s holder_id) ≡ ok holder
    → IsSound s (ok (replace holder (superseded_row holder now) ∷ create row ∷ [], row))
unfolding superseded_row unleased_write
over_holder-IsSound s holder_id holder row now e = IsSound-plan s _ row (λ t done.
    let (_, (check, _)) = stored_checks s t _ done in
    (
      IsDistinct-pair (replace holder (superseded_row holder now)) (create row) (
          other_created s holder_id (superseded_row holder now) (key_stored _ e) row same_id check),
      ((account-unleased_write holder now, date-unleased_write holder now, omega arith), (tt, tt)),
    ))
  where
    same_id : (superseded_row holder now).id ≡ holder.id
    same_id = ground arith

created-IsSound :
    (s : Store) (row : RequestRow) (now : ℕ) (holder : Option ℕ) (ws : List Write)
    → explicit_writes s row now holder ≡ ok ws
    → IsSound s (ok (ws, row))
created-IsSound s row now none ws h =
    subst (λ vs. IsSound s (ok (vs, row))) (same_list h) (IsSound-create s row row)
created-IsSound s row now (some holder_id) ws h =
    let (holder, e, h1) = >>=-eq-ok (or_key_error (row_at s holder_id)) _ h in
    let (_, _, h2) =
      >>=-eq-ok
        (guard (is_rule_row holder && not (is_status holder.status booked)) transition_refused) _
        h1 in
    let (_, _, h3) =
      >>=-eq-ok (lift_check (check_transition holder superseded web now none false)) _ h2 in
    let (_, _, h4) = >>=-eq-ok (guard (not (lease_held holder now)) row_leased) _ h3 in
    subst (λ vs. IsSound s (ok (vs, row))) (same_list h4)
      (over_holder-IsSound s holder_id holder row now e)

pub create_explicit_row-IsSound :
    (site : Site) (s : Store) (row_id user_id account_id target_date : ℕ) (intent : RowIntent)
    (now : ℕ) (booking_cutoff : Option BookingCutoffConfig)
    → IsSound s
        (create_explicit_row site s row_id user_id account_id target_date intent now booking_cutoff)
unfolding create_explicit_row
create_explicit_row-IsSound site s row_id user_id account_id target_date intent now booking_cutoff =
    search (sound_rules, created-IsSound) depth 14
