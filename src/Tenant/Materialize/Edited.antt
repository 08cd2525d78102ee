-- ===== src/Tenant/Materialize/Edited.antt =====
-- What the edit of a standing rule writes to the tenant store.
use tee_time_booker.Prelude.{
  Bool, Bool-cases, List, Option, Result, [], err, false, if◌then◌else◌, inl, inr, none, not, ok,
  some, true, ℕ, ◌&&◌, ◌==◌, ◌||◌, ◌∷◌,
}
use tee_time_booker.Core.Policy.{BookingCutoffConfig, ReleasePolicy}
use tee_time_booker.Tenant.Materialize.{materialize_rule, own_row}
use tee_time_booker.Tenant.Materialize.Edits.{
  Touch, activate_or_move, apply_rule_edit, deactivate, each_own, edit_window, reset_watermark,
  rewrite_own, rewrite_pending_rows, saved, touched, withdraw_moved, withdraw_own,
  withdraw_rule_rows,
}
use tee_time_booker.Tenant.Materialize.Writes.{and_store-Moves, materialize_rule-Moves}
use tee_time_booker.Tenant.Rows.{
  Reason, RequestRow, StandingRule, is_status, materializer, pending, row_is_frozen,
  rule_deactivated, rule_weekday_changed, superseded, withdrawn,
}
use tee_time_booker.Tenant.Store.{
  call, moving, or_before_with, recutting, resetting_watermark, rewriting, saving_rule,
  rewrite_rule_cutoff, reset_materialized_through, rewrite_pending_rule_row, perform, Site, Store,
  StoreError, history, row_leased, transition_row, upsert_rule,
}
use tee_time_booker.Tenant.Store.Moves.{Moves, and_then-Moves, stays}
use tee_time_booker.Tenant.Store.Sound.Calls.{call-Moves}

touched-Moves :
    {A : Type 0} (id : ℕ) (s : Store) (r : Result StoreError A × Store)
    → Moves s r.1
    → Moves s (touched id r).1
touched-Moves id s (ok _, t) m = m
touched-Moves id s (err row_leased, t) m = m
touched-Moves id s (err _, t) m = m

withdraw_own-Moves :
    (site : Site) (reason : Reason) (now : ℕ) (own : Option RequestRow) (s : Store)
    → Moves s (withdraw_own reason now own s).1
unfolding call
withdraw_own-Moves site reason now none s = stays
withdraw_own-Moves site reason now (some own) s =
    elim (Bool-cases (is_status own.status pending || is_status own.status superseded)) [
      | inr e ↦ rw e stays
      | inl e ↦ rw e (
          touched-Moves own.id s
            (perform s (transition_row s own.id none withdrawn materializer (some reason) now))
            (call-Moves site (moving own.id none withdrawn materializer (some reason) now) s))
    ]

rewrite_own-Moves :
    (site : Site) (given : StandingRule) (now : ℕ) (own : Option RequestRow) (s : Store)
    → Moves s (rewrite_own given now own s).1
unfolding call
rewrite_own-Moves site given now none s = stays
rewrite_own-Moves site given now (some own) s =
    elim (Bool-cases (is_status own.status pending && not (row_is_frozen own now))) [
      | inr e ↦ rw e stays
      | inl e ↦ rw e (
          touched-Moves own.id s
            (perform s (rewrite_pending_rule_row s own.id given own.version now))
            (call-Moves site (rewriting own.id given own.version now) s))
    ]

each_own-Moves :
    (turn : Option RequestRow → Store → Result StoreError (List Touch) × Store)
    → ((own : Option RequestRow) (s : Store) → Moves s (turn own s).1)
    → (given : StandingRule) (days : List ℕ) (s : Store) → Moves s (each_own turn given days s).1
unfolding each_own
each_own-Moves turn moved given [] s = stays
each_own-Moves turn moved given (day ∷ days) s =
    and_then-Moves s (turn (own_row given (history s given.course_account_id day)) s) _ (moved _ s)
      (λ first t.
        and_then-Moves t (each_own turn given days t) _ (each_own-Moves turn moved given days t)
          (λ _ _. stays))

saved-Moves :
    {A : Type 0} (s : Store) (r : Result StoreError (A × Store))
    → Moves s (or_before_with s r)
    → Moves s (saved s r).1
saved-Moves s (ok (a, t)) m = m
saved-Moves s (err e) m = m

upsert-Moves :
    (site : Site) (s : Store) (given : StandingRule) (user_id : ℕ)
    → Moves s (saved s (upsert_rule s given user_id)).1
unfolding call
upsert-Moves site s given user_id =
    saved-Moves s (upsert_rule s given user_id) (call-Moves site (saving_rule given user_id) s)

reset-Moves : (site : Site) (id : ℕ) (s : Store) → Moves s (reset_watermark id s).1
unfolding call
reset-Moves site id s =
    and_store-Moves tt s (reset_materialized_through s id)
      (call-Moves site (resetting_watermark id) s)

withdraw_rule_rows-Moves :
    (site : Site) (given : StandingRule) (reason : Reason) (policy : ReleasePolicy) (now : ℕ)
    (s : Store)
    → Moves s (withdraw_rule_rows given reason policy now s).1
unfolding withdraw_rule_rows
withdraw_rule_rows-Moves site given reason policy now s =
    each_own-Moves (withdraw_own reason now) (withdraw_own-Moves site reason now) given _ s

withdraw_moved-Moves :
    (site : Site) (old new : StandingRule) (policy : ReleasePolicy) (now : ℕ) (s : Store)
    → Moves s (withdraw_moved old new policy now s).1
withdraw_moved-Moves site old new policy now s =
    elim (Bool-cases (old.active && not (old.weekday_index == new.weekday_index))) [
      | inl e ↦ rw e (withdraw_rule_rows-Moves site old rule_weekday_changed policy now s)
      | inr e ↦ rw e stays
    ]

deactivate-Moves :
    (site : Site) (old new : StandingRule) (policy : ReleasePolicy) (now user_id : ℕ) (s : Store)
    → Moves s (deactivate old new policy now user_id s).1
unfolding deactivate
deactivate-Moves site old new policy now user_id s =
    and_then-Moves s (reset_watermark old.id s) _ (reset-Moves site old.id s) (λ _ t.
      and_then-Moves t (withdraw_rule_rows old rule_deactivated policy now t) _
        (withdraw_rule_rows-Moves site old rule_deactivated policy now t)
        (λ touches u.
          and_then-Moves u (reset_watermark old.id u) _ (reset-Moves site old.id u) (λ _ v.
            and_then-Moves v (saved v (upsert_rule v new user_id)) _
              (upsert-Moves site v new user_id) (λ _ _. stays))))

activate_or_move-Moves :
    (site : Site) (old new : StandingRule) (policy : ReleasePolicy) (cutoff : BookingCutoffConfig)
    (now user_id : ℕ) (s : Store)
    → Moves s (activate_or_move site old new policy cutoff now user_id s).1
unfolding activate_or_move
activate_or_move-Moves site old new policy cutoff now user_id s =
    and_then-Moves s (saved s (upsert_rule s new user_id)) _ (upsert-Moves site s new user_id)
      (λ stored t.
        and_then-Moves t (withdraw_moved old new policy now t) _
          (withdraw_moved-Moves site old new policy now t)
          (λ touches u.
            and_then-Moves u (materialize_rule site stored policy cutoff now u) _
              (materialize_rule-Moves site stored policy cutoff now u) (λ _ _. stays)))

edit_window-Moves :
    (site : Site) (new : StandingRule) (policy : ReleasePolicy) (cutoff : BookingCutoffConfig)
    (now user_id : ℕ) (s : Store)
    → Moves s (edit_window site new policy cutoff now user_id s).1
unfolding edit_window rewrite_pending_rows call
edit_window-Moves site new policy cutoff now user_id s =
    and_then-Moves s (saved s (upsert_rule s new user_id)) _ (upsert-Moves site s new user_id)
      (λ stored t.
        and_then-Moves t (rewrite_rule_cutoff site stored now t) _
          (call-Moves site (recutting stored now) t)
          (λ moved u.
            and_then-Moves u (rewrite_pending_rows stored policy now u) _
              (each_own-Moves (rewrite_own stored now) (rewrite_own-Moves site stored now) stored _
                u)
              (λ touches v.
                and_then-Moves v (materialize_rule site stored policy cutoff now v) _
                  (materialize_rule-Moves site stored policy cutoff now v) (λ _ _. stays))))

if-Moves :
    {A : Type 0} (test : Bool) (s : Store) (chosen other : Result StoreError A × Store)
    → Moves s chosen.1
    → Moves s other.1
    → Moves s (if test then chosen else other).1
if-Moves true s chosen other m k = m
if-Moves false s chosen other m k = k

-- An edit of a standing rule, whether it returns or raises, moves the store only by the writes that
-- the store's methods may make.
pub apply_rule_edit-Moves :
    (site : Site) (old new : StandingRule) (policy : ReleasePolicy) (cutoff : BookingCutoffConfig)
    (now user_id : ℕ) (s : Store)
    → Moves s (apply_rule_edit site old new policy cutoff now user_id s).1
unfolding apply_rule_edit
apply_rule_edit-Moves site old new policy cutoff now user_id s =
    if-Moves (not (old.id == new.id)) s _ _ stays (
      if-Moves (old.active && not new.active) s _ _
        (deactivate-Moves site old new policy now user_id s)
        (if-Moves (not new.active) s _ _
          (and_then-Moves s (saved s (upsert_rule s new user_id)) _
            (upsert-Moves site s new user_id) (λ _ _. stays))
          (if-Moves (not old.active || not (old.weekday_index == new.weekday_index)) s _ _
            (activate_or_move-Moves site old new policy cutoff now user_id s)
            (edit_window-Moves site new policy cutoff now user_id s))))
