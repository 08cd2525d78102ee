-- ===== src/Tenant/Materialize/Writes.antt =====
-- What the materializer writes to the tenant store.
use tee_time_booker.Prelude.{
  Bool-cases, List, Option, Result, [], err, inl, inr, none, ok, some, ℕ, ◌∷◌,
}
use tee_time_booker.Core.Calendar.{Zone}
use tee_time_booker.Core.Policy.{BookingCutoffConfig, ReleasePolicy}
use tee_time_booker.Tenant.Materialize.{
  DateAction, MaterializeReport, act_on, and_store, create_row, create_superseded, dates_for_rule,
  horizon_days, is_date_frozen, materialize_date, materialize_dates, materialize_rule, note_created,
  nothing, reactivate, reactivate_own, skip_frozen, skip_user_terminal,
}
use tee_time_booker.Tenant.Materialize.Tick.{
  context_for, due_rules, horizon_end, materialize_tick, reported, sweep_rows, sweep_uncovered,
  swept_reason, tick_found, tick_rule, tick_rules, unless_moved,
}
use tee_time_booker.Tenant.Rows.{RequestRow, StandingRule, materializer, withdrawn}
use tee_time_booker.Tenant.Store.{
  call, inserting, moving, or_before, reactivating, recutting, setting_watermark,
  rewrite_rule_cutoff, insert_rule_row_if_absent, reaches, reactivate_rule_row,
  set_materialized_through, and_then, perform, Site, Store, StoreError, row_leased,
  rule_not_covering, stored_rule_of, transition_refused, transition_row,
}
use tee_time_booker.Tenant.Store.Moves.{Moves, Moves-trans, and_then-Moves, stays}
use tee_time_booker.Tenant.Store.Sound.Calls.{call-Moves}

reactivate_own-Moves :
    (site : Site) (given : StandingRule) (now : ℕ) (own : Option RequestRow) (s : Store)
    → Moves s (reactivate_own site given now own s).1
unfolding call
reactivate_own-Moves site given now none s = stays
reactivate_own-Moves site given now (some own) s =
    and_then-Moves s (perform s (reactivate_rule_row site s own given now)) _
      (call-Moves site (reactivating own given now) s) (λ _ _. stays)

inserted-Moves :
    (site : Site) (given : StandingRule) (day now : ℕ) (s : Store)
    → Moves s
        (and_then
          (perform s (insert_rule_row_if_absent site s given day now))
          (λ created t. (ok (note_created created), t))).1
unfolding call
inserted-Moves site given day now s =
    and_then-Moves s (perform s (insert_rule_row_if_absent site s given day now)) _
      (call-Moves site (inserting given day now) s) (λ _ _. stays)

act_on-Moves :
    (site : Site) (given : StandingRule) (day now : ℕ) (own : Option RequestRow)
    (action : DateAction) (s : Store)
    → Moves s (act_on site given day now own action s).1
act_on-Moves site given day now own skip_frozen s = stays
act_on-Moves site given day now own skip_user_terminal s = stays
act_on-Moves site given day now own nothing s = stays
act_on-Moves site given day now own reactivate s = reactivate_own-Moves site given now own s
act_on-Moves site given day now own create_row s = inserted-Moves site given day now s
act_on-Moves site given day now own create_superseded s = inserted-Moves site given day now s

materialize_dates-Moves :
    (site : Site) (given : StandingRule) (zone : Zone) (cutoff : BookingCutoffConfig) (now : ℕ)
    (days : List ℕ) (s : Store)
    → Moves s (materialize_dates site given zone cutoff now days s).1
unfolding materialize_dates materialize_date
materialize_dates-Moves site given zone cutoff now [] s = stays
materialize_dates-Moves site given zone cutoff now (day ∷ days) s =
    and_then-Moves s (materialize_date site given day (is_date_frozen day zone cutoff now) now s) _
      (act_on-Moves site given day now _ _ s)
      (λ noted t.
        and_then-Moves t (materialize_dates site given zone cutoff now days t) _
          (materialize_dates-Moves site given zone cutoff now days t) (λ _ _. stays))

pub and_store-Moves :
    {A : Type 0} (a : A) (s : Store) (r : Result StoreError Store)
    → Moves s (or_before s r)
    → Moves s (and_store a s r).1
and_store-Moves a s (ok t) m = m
and_store-Moves a s (err e) m = m

watermark-Moves :
    {A : Type 0} (site : Site) (a : A) (s : Store) (id through : ℕ)
    → Moves s (and_store a s (set_materialized_through s id through)).1
unfolding call
watermark-Moves site a s id through =
    and_store-Moves a s (set_materialized_through s id through)
      (call-Moves site (setting_watermark id through) s)

pub materialize_rule-Moves :
    (site : Site) (given : StandingRule) (policy : ReleasePolicy) (cutoff : BookingCutoffConfig)
    (now : ℕ) (s : Store)
    → Moves s (materialize_rule site given policy cutoff now s).1
unfolding materialize_rule call
materialize_rule-Moves site given policy cutoff now s =
    and_then-Moves s (rewrite_rule_cutoff site given now s) _
      (call-Moves site (recutting given now) s)
      (λ (stored, moved) t.
        and_then-Moves t
          (materialize_dates site given policy.timezone _ now
            (dates_for_rule given (policy.timezone.to_local now).day (horizon_days policy)) t)
          _ (materialize_dates-Moves site given policy.timezone _ now _ t)
          (λ dates u. watermark-Moves site _ u given.id _))

unless_moved-Moves :
    {A : Type 0} (s : Store) (r : Result StoreError A × Store)
    → Moves s r.1
    → Moves s (unless_moved r).1
unless_moved-Moves s (ok _, t) m = m
unless_moved-Moves s (err row_leased, t) m = m
unless_moved-Moves s (err transition_refused, t) m = m
unless_moved-Moves s (err rule_not_covering, t) m = m
unless_moved-Moves s (err _, t) m = m

sweep_rows-Moves :
    (site : Site) (now : ℕ) (rows : List RequestRow) (s : Store) → Moves s (sweep_rows now rows s).1
unfolding sweep_rows call
sweep_rows-Moves site now [] s = stays
sweep_rows-Moves site now (row ∷ rows) s =
    let reason = some (swept_reason row (stored_rule_of s row)) in
    and_then-Moves s
      (unless_moved (perform s (transition_row s row.id none withdrawn materializer reason now))) _
      (unless_moved-Moves s
        (perform s (transition_row s row.id none withdrawn materializer reason now))
        (call-Moves site (moving row.id none withdrawn materializer reason now) s))
      (λ _ t. sweep_rows-Moves site now rows t)

reported-Moves :
    (s : Store) (r : Result StoreError MaterializeReport × Store)
    → Moves s r.1
    → Moves s (reported r).1
reported-Moves s (ok _, t) m = m
reported-Moves s (err _, t) m = m

tick_found-Moves :
    (site : Site) (given : StandingRule) (now : ℕ) (s : Store)
    (found : Option (ReleasePolicy × BookingCutoffConfig))
    → Moves s (tick_found site given now s found).1
tick_found-Moves site given now s none = stays
tick_found-Moves site given now s (some (policy, own_cutoff)) =
    elim (Bool-cases (reaches given.materialized_through (horizon_end policy now))) [
      | inl e ↦ rw e stays
      | inr e ↦ rw e (
          reported-Moves s (materialize_rule site given policy own_cutoff now s)
            (materialize_rule-Moves site given policy own_cutoff now s))
    ]

tick_rules-Moves :
    (site : Site) (policies : List (ℕ × ReleasePolicy)) (cutoff : BookingCutoffConfig) (now : ℕ)
    (rules : List StandingRule) (s : Store)
    → Moves s (tick_rules site policies cutoff now rules s).1
unfolding tick_rules tick_rule
tick_rules-Moves site policies cutoff now [] s = stays
tick_rules-Moves site policies cutoff now (given ∷ rules) s =
    Moves-trans (tick_found-Moves site given now s (context_for policies cutoff given s))
      (tick_rules-Moves site policies cutoff now rules _)

-- A tick of the materializer, whether it returns or raises, moves the store only by the writes
-- that the store's methods may make.
pub materialize_tick-Moves :
    (site : Site) (policies : List (ℕ × ReleasePolicy)) (cutoff : BookingCutoffConfig) (now : ℕ)
    (s : Store)
    → Moves s (materialize_tick site policies cutoff now s).1
unfolding materialize_tick
materialize_tick-Moves site policies cutoff now s =
    Moves-trans (tick_rules-Moves site policies cutoff now (due_rules policies now s) s)
      (and_then-Moves _ (sweep_uncovered now _) _ (sweep_rows-Moves site now _ _) (λ _ _. stays))
