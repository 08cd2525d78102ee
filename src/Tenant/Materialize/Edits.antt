-- ===== src/Tenant/Materialize/Edits.antt =====
-- tenant/materialize.py: the edits of a standing rule.
use tee_time_booker.Prelude.{
  List, Option, Result, [], elem, err, if◌then◌else◌, none, not, ok, some, ℕ, ◌&&◌, ◌++◌, ◌==◌,
  ◌||◌, ◌∷◌,
}
use tee_time_booker.Core.Policy.{BookingCutoffConfig, ReleasePolicy}
use tee_time_booker.Tenant.Materialize.{
  MaterializeReport, and_store, dates_for_rule, horizon_days, materialize_rule, own_row,
}
use tee_time_booker.Tenant.Materialize.Tick.{local_today}
use tee_time_booker.Tenant.Rows.{
  Reason, RequestRow, StandingRule, is_status, materializer, pending, row_is_frozen,
  rule_deactivated, rule_weekday_changed, superseded, withdrawn,
}
use tee_time_booker.Tenant.Store.{
  CutoffNote, rewrite_rule_cutoff, rewritten, skipped_leased, reset_materialized_through,
  rewrite_pending_rule_row, and_then, perform, Site, Store, StoreError, bad_value, history,
  row_leased, transition_row, upsert_rule,
}

-- What a walk over a rule's rows did with a row: it changed it, or left it to its lease's owner.
pub data Touch : Type 0 where
  changed left_leased : ℕ → Touch

abbrev pub changed_ids : List Touch → List ℕ
changed_ids [] = []
changed_ids (changed id ∷ touches) = id ∷ changed_ids touches
changed_ids (left_leased id ∷ touches) = changed_ids touches

abbrev pub left_ids : List Touch → List ℕ
left_ids [] = []
left_ids (changed id ∷ touches) = left_ids touches
left_ids (left_leased id ∷ touches) = id ∷ left_ids touches

-- A row that is leased is skipped; other errors end the walk.
abbrev pub touched :
    {A : Type 0} → ℕ → Result StoreError A × Store → Result StoreError (List Touch) × Store
touched id (ok _, s) = (ok (changed id ∷ []), s)
touched id (err row_leased, s) = (ok (left_leased id ∷ []), s)
touched id (err e, s) = (err e, s)

abbrev pub withdraw_own :
    Reason → ℕ → Option RequestRow → Store → Result StoreError (List Touch) × Store
withdraw_own reason now none s = (ok [], s)
withdraw_own reason now (some own) s =
    if is_status own.status pending || is_status own.status superseded
    then touched own.id
        (perform s (transition_row s own.id none withdrawn materializer (some reason) now))
    else (ok [], s)

abbrev pub rewrite_own :
    StandingRule → ℕ → Option RequestRow → Store → Result StoreError (List Touch) × Store
rewrite_own given now none s = (ok [], s)
rewrite_own given now (some own) s =
    if is_status own.status pending && not (row_is_frozen own now)
    then touched own.id (perform s (rewrite_pending_rule_row s own.id given own.version now))
    else (ok [], s)

-- The walk over a rule's dates, with one turn for its own row of a date.
unfoldable pub each_own :
    (Option RequestRow → Store → Result StoreError (List Touch) × Store)
    → StandingRule
    → List ℕ
    → Store
    → Result StoreError (List Touch) × Store
each_own turn given [] s = (ok [], s)
each_own turn given (day ∷ days) s =
    and_then (turn (own_row given (history s given.course_account_id day)) s)
      (λ first t. and_then (each_own turn given days t) (λ later u. (ok (first ++ later), u)))

abbrev pub rule_dates : StandingRule → ReleasePolicy → ℕ → List ℕ
rule_dates given policy now = dates_for_rule given (local_today policy now) (horizon_days policy)

unfoldable pub withdraw_rule_rows :
    StandingRule → Reason → ReleasePolicy → ℕ → Store → Result StoreError (List Touch) × Store
withdraw_rule_rows given reason policy now s =
    each_own (withdraw_own reason now) given (rule_dates given policy now) s

unfoldable pub rewrite_pending_rows :
    StandingRule → ReleasePolicy → ℕ → Store → Result StoreError (List Touch) × Store
rewrite_pending_rows given policy now s =
    each_own (rewrite_own given now) given (rule_dates given policy now) s

-- `dict.fromkeys`: each id at its first place.
abbrev pub once : List ℕ → List ℕ → List ℕ
once seen [] = []
once seen (id ∷ ids) =
    let here = once seen ids in
    let later = once (id ∷ seen) ids in if elem id seen then here else id ∷ later

abbrev pub merged : List ℕ → List ℕ → List ℕ
merged earlier later = once [] (earlier ++ later)

abbrev pub rewritten_ids : List CutoffNote → List ℕ
rewritten_ids [] = []
rewritten_ids (rewritten id ∷ rest) = id ∷ rewritten_ids rest
rewritten_ids (_ ∷ rest) = rewritten_ids rest

abbrev pub skipped_ids : List CutoffNote → List ℕ
skipped_ids [] = []
skipped_ids (skipped_leased id ∷ rest) = id ∷ skipped_ids rest
skipped_ids (_ ∷ rest) = skipped_ids rest

-- The report of an edit: the fields it adds or replaces, and the walk's own report.
pub record EditReport : Type 0 where
  pub withdrawn_rows : List ℕ
  pub rewritten_rows : List ℕ
  pub cutoff_rewritten : List ℕ
  pub skipped_rows : List ℕ
  pub walked : Option MaterializeReport

-- `_empty_report`
abbrev pub empty_report : EditReport
empty_report = record {
  withdrawn_rows = [];
  rewritten_rows = [];
  cutoff_rewritten = [];
  skipped_rows = [];
  walked = none;
}

abbrev pub saved :
    {A : Type 0} → Store → Result StoreError (A × Store) → Result StoreError A × Store
saved s (ok (a, t)) = (ok a, t)
saved s (err e) = (err e, s)

abbrev pub reset_watermark : ℕ → Store → Result StoreError (Unit {0}) × Store
reset_watermark id s = and_store tt s (reset_materialized_through s id)

unfoldable pub deactivate :
    StandingRule
    → StandingRule
    → ReleasePolicy
    → ℕ
    → ℕ
    → Store
    → Result StoreError EditReport × Store
deactivate old new policy now user_id s = and_then (reset_watermark old.id s) (λ _ t.
    and_then (withdraw_rule_rows old rule_deactivated policy now t) (λ touches u.
      and_then (reset_watermark old.id u) (λ _ v.
        and_then (saved v (upsert_rule v new user_id)) (λ _ w. (
          ok (record empty_report {
            withdrawn_rows = changed_ids touches;
            skipped_rows = left_ids touches;
          }),
          w,
        )))))

abbrev pub withdraw_moved :
    StandingRule → StandingRule → ReleasePolicy → ℕ → Store → Result StoreError (List Touch) × Store
withdraw_moved old new policy now s =
    if old.active && not (old.weekday_index == new.weekday_index)
    then withdraw_rule_rows old rule_weekday_changed policy now s
    else (ok [], s)

unfoldable pub activate_or_move :
    Site
    → StandingRule
    → StandingRule
    → ReleasePolicy
    → BookingCutoffConfig
    → ℕ
    → ℕ
    → Store
    → Result StoreError EditReport × Store
activate_or_move site old new policy cutoff now user_id s =
    and_then (saved s (upsert_rule s new user_id)) (λ stored t.
      and_then (withdraw_moved old new policy now t) (λ touches u.
        and_then (materialize_rule site stored policy cutoff now u) (λ report v. (
          ok (record empty_report {
            withdrawn_rows = changed_ids touches;
            cutoff_rewritten = rewritten_ids report.cutoffs;
            skipped_rows = merged (left_ids touches) (skipped_ids report.cutoffs);
            walked = some report;
          }),
          v,
        ))))

unfoldable pub edit_window :
    Site
    → StandingRule
    → ReleasePolicy
    → BookingCutoffConfig
    → ℕ
    → ℕ
    → Store
    → Result StoreError EditReport × Store
edit_window site new policy cutoff now user_id s =
    and_then (saved s (upsert_rule s new user_id)) (λ stored t.
      and_then (rewrite_rule_cutoff site stored now t) (λ moved u.
        and_then (rewrite_pending_rows stored policy now u) (λ touches v.
          and_then (materialize_rule site stored policy cutoff now v) (λ report w. (
            ok (record empty_report {
              rewritten_rows = changed_ids touches;
              cutoff_rewritten = merged (rewritten_ids moved.1) (rewritten_ids report.cutoffs);
              skipped_rows =
                  merged (skipped_ids moved.1 ++ left_ids touches) (skipped_ids report.cutoffs);
              walked = some report;
            }),
            w,
          )))))

unfoldable pub apply_rule_edit :
    Site
    → StandingRule
    → StandingRule
    → ReleasePolicy
    → BookingCutoffConfig
    → ℕ
    → ℕ
    → Store
    → Result StoreError EditReport × Store
apply_rule_edit site old new policy cutoff now user_id s =
    if not (old.id == new.id)
    then (err bad_value, s)
    else if old.active && not new.active
    then deactivate old new policy now user_id s
    else if not new.active
    then and_then (saved s (upsert_rule s new user_id)) (λ _ t. (ok empty_report, t))
    else if not old.active || not (old.weekday_index == new.weekday_index)
    then activate_or_move site old new policy cutoff now user_id s
    else edit_window site new policy cutoff now user_id s
