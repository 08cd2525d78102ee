-- ===== src/Tenant/Store/Sound/Calls.antt =====
-- Every call moves the store by committed batches and by changes beside the rows.
use tee_time_booker.Prelude.{
  >>=-eq-ok, Bool-cases, List, Option, Result, Result-cases, [], arith, err, get_at-key,
  if◌then◌else◌, inl, inr, none, ok, refl, some, subst, sym, ℕ, ◌>>=◌, ◌∷◌, ◌≡◌,
}
use tee_time_booker.Core.Policy.{BookingCutoffConfig}
use tee_time_booker.Tenant.Rows.{StandingRule}
use tee_time_booker.Tenant.Semantics.Intents.{resolve_cutoff}
use tee_time_booker.Tenant.Semantics.Outcomes.{RowOutcome, validate_ledger}
use tee_time_booker.Tenant.Store.Calls.{
  Call, acquiring, binding, call, claiming, creating, deleting_user, failing_auth, finalizing,
  inserting, marking_upgrade, moving, or_before, or_before_with, reactivating, recording, recutting,
  releasing, resetting_watermark, rewriting, run, saving_account, saving_rule, saving_user,
  setting_cutoff, setting_watermark,
}
use tee_time_booker.Tenant.Store.Cutoffs.{
  accounts_of, recut_for_rule, recut_for_user, rewrite_rule_cutoff, rule_and_cutoff,
  set_booking_cutoff, with_user,
}
use tee_time_booker.Tenant.Store.Materializing.{
  put_rule, reaches, reset_materialized_through, set_materialized_through,
}
use tee_time_booker.Tenant.Store.Moves.{
  Moves, Moves-trans, and_then-Moves, beside, edits, for_each-Moves, marks, perform-Moves, stays,
}
use tee_time_booker.Tenant.Store.Plans.{for_each, perform}
use tee_time_booker.Tenant.Store.Reads.{
  bind_found, bind_invited_user, delete_invited_user, is_deletable, upsert_user,
}
use tee_time_booker.Tenant.Store.Running.{
  apply_outcome, claim_row, claim_rows, course_of, flag_active_row, is_row_moved, outcome_plan,
  record_outcomes, record_soft_auth_failure, settle_outcome, write_ledger,
}
use tee_time_booker.Tenant.Store.Sound.Rules.{
  finalize_row-IsSound, insert_rule_row_if_absent-IsSound, reactivate_rule_row-IsSound,
  recut_for_rule-IsSound, recut_for_user-IsSound, rewrite_pending_rule_row-IsSound,
}
use tee_time_booker.Tenant.Store.Sound.Runs.{
  acquire_row_lease-IsSound, claim_row-IsSound, flag_active_row-IsSound, outcome_plan-IsSound,
  release_row_lease-IsSound, set_upgrade_marker-IsSound,
}
use tee_time_booker.Tenant.Store.Sound.Web.{create_explicit_row-IsSound, transition_row-IsSound}
use tee_time_booker.Tenant.Store.State.{
  CourseAccount, Site, Store, StoreError, User, account_for_user, lift_ledger, or_missing, row_at,
  rule_at, sorted_rows, user_at,
}
use tee_time_booker.Tenant.Store.Watching.{finalize_lost, finalize_row}
use tee_time_booker.Tenant.Store.Web.{upsert_account}

settle_outcome-Moves :
    (s : Store) (o : RowOutcome) (course_id : Option ℕ) (r : Result StoreError (Unit {0}) × Store)
    → Moves s r.1
    → Moves s (settle_outcome s o course_id r).1
unfolding settle_outcome write_ledger
settle_outcome-Moves s o course_id (ok u, t) m = beside m refl refl refl refl
settle_outcome-Moves s o course_id (err e, t) m = elim (Bool-cases (is_row_moved e)) [
  | inr f ↦ rw f m
  | inl f ↦ rw f (
      and_then-Moves s
        (perform (write_ledger t o course_id)
          (flag_active_row (write_ledger t o course_id) o.course_account_id o.target_date))
        _
        (Moves-trans (beside m refl refl refl refl) (
          perform-Moves (write_ledger t o course_id) _ (
            flag_active_row-IsSound (write_ledger t o course_id) o.course_account_id
              o.target_date)))
        (λ _ u. stays))
]

apply_outcome-Moves : (s : Store) (o : RowOutcome) → Moves s (apply_outcome s o).1
unfolding apply_outcome
apply_outcome-Moves s o =
    elim (Result-cases (lift_ledger (validate_ledger o (course_of (row_at s o.row_id))))) [
      | inr (e, f) ↦ rw f stays
      | inl (u, f) ↦ rw f (
          settle_outcome-Moves s o (course_of (row_at s o.row_id)) (perform s (outcome_plan s o))
            (perform-Moves s (outcome_plan s o) (outcome_plan-IsSound s o)))
    ]

record_outcomes-Moves : (os : List RowOutcome) (s : Store) → Moves s (record_outcomes os s).1
unfolding record_outcomes
record_outcomes-Moves [] s = stays
record_outcomes-Moves (o ∷ os) s =
    Moves-trans (apply_outcome-Moves s o) (record_outcomes-Moves os (apply_outcome s o).1)

set_booking_cutoff-Moves :
    (site : Site) (user_id : ℕ) (cutoff : Option BookingCutoffConfig) (now : ℕ) (s : Store)
    → Moves s (set_booking_cutoff site user_id cutoff now s).1
unfolding set_booking_cutoff
set_booking_cutoff-Moves site user_id cutoff now s =
    and_then-Moves s (or_missing (user_at s user_id), s) _ stays
      (λ user t.
        let turn =
          recut_for_user (accounts_of t user_id) (resolve_cutoff none cutoff site.cutoff) now in
        and_then-Moves t
          (for_each turn (sorted_rows t) (with_user (record user { booking_cutoff = cutoff }) t)) _
          (Moves-trans (beside stays refl refl refl refl) (
            for_each-Moves turn (sorted_rows t)
              (recut_for_user-IsSound (accounts_of t user_id)
                (resolve_cutoff none cutoff site.cutoff) now)
              (with_user (record user { booking_cutoff = cutoff }) t)))
          (λ notes u. stays))

rewrite_rule_cutoff-Moves :
    (site : Site) (given : StandingRule) (now : ℕ) (s : Store)
    → Moves s (rewrite_rule_cutoff site given now s).1
unfolding rewrite_rule_cutoff
rewrite_rule_cutoff-Moves site given now s =
    and_then-Moves s (rule_and_cutoff site s given, s) _ stays
      (λ (stored, effective) t.
        and_then-Moves t (for_each (recut_for_rule stored.id effective now) (sorted_rows t) t) _
          (for_each-Moves (recut_for_rule stored.id effective now) (sorted_rows t)
            (recut_for_rule-IsSound stored.id effective now) t)
          (λ notes u. stays))

bind_found-Moves :
    (s : Store) (provider subject : ℕ) (existing pick : Option User)
    → Moves s (bind_found s provider subject existing pick).1
bind_found-Moves s provider subject (some existing) pick = stays
bind_found-Moves s provider subject none none = stays
bind_found-Moves s provider subject none (some user) = beside stays refl refl refl refl

delete_invited_user-Moves : (s : Store) (user_id : ℕ) → Moves s (delete_invited_user s user_id).1
unfolding delete_invited_user
delete_invited_user-Moves s user_id = elim (Bool-cases (is_deletable (user_at s user_id))) [
  | inl e ↦ rw e (beside stays refl refl refl refl)
  | inr e ↦ rw e stays
]

-- A method that returns the store it made, or raises before it writes.
record Edits (s : Store) (r : Result StoreError Store) : Type 0 where
  moved : (t : Store) → r ≡ ok t → Moves s t

Edits-ok : (s t : Store) → Moves s t → Edits s (ok t)
Edits-ok s t m = record { moved = λ u h. subst (λ v. Moves s v) (ground (arith, h)) m }

Edits-bind :
    {B : Type 0} (s : Store) (r : Result StoreError B) (f : B → Result StoreError Store)
    → ((b : B) → r ≡ ok b → Edits s (f b))
    → Edits s (r >>= f)
Edits-bind s r f g = record { moved = λ t h. let (b, e, k) = >>=-eq-ok r f h in (g b e).moved t k }

or_before-Moves : (s : Store) (r : Result StoreError Store) → Edits s r → Moves s (or_before s r)
or_before-Moves s (ok t) f = f.moved t refl
or_before-Moves s (err e) f = stays

or_before_with-Moves :
    {A : Type 0} (s : Store) (r : Result StoreError (A × Store))
    → ((a : A) (t : Store) → r ≡ ok (a, t) → Moves s t)
    → Moves s (or_before_with s r)
or_before_with-Moves s (ok (a, t)) f = f a t refl
or_before_with-Moves s (err e) f = stays

same_pair :
    {A : Type 0} {s t u : Store} {a b : A}
    → Moves s t
    → ◌≡◌ {A = Result StoreError (A × Store)} (ok (a, t)) (ok (b, u))
    → Moves s u
same_pair {s = s} m p = subst (λ v. Moves s v) (ground (arith, p)) m

-- A store that differs from `s` in its users and accounts only.
beside_people :
    (s : Store) (users : List User) (accounts : List CourseAccount)
    → Moves s (record s { users = users; accounts = accounts })
beside_people s users accounts = beside stays refl refl refl refl

upsert_user-Edits : (s : Store) (user : User) → Edits s (upsert_user s user)
unfolding upsert_user
upsert_user-Edits s user = search (Edits-ok, Edits-bind, beside_people)

upsert_account-Edits :
    (site : Site) (s : Store) (account : CourseAccount) → Edits s (upsert_account site s account)
unfolding upsert_account
upsert_account-Edits site s account = search (Edits-ok, Edits-bind, beside_people) depth 8

record_soft_auth_failure-Moves :
    (s : Store) (account_id : ℕ) {count : ℕ} {t : Store}
    → record_soft_auth_failure s account_id ≡ ok (count, t)
    → Moves s t
unfolding record_soft_auth_failure
record_soft_auth_failure-Moves s account_id h =
    let (account, _, k) = >>=-eq-ok (account_for_user s account_id none) _ h in
    same_pair (beside stays refl refl refl refl) k

rule_stored :
    (s : Store) (id : ℕ) {r : StandingRule}
    → or_missing (rule_at s id) ≡ ok r
    → rule_at s r.id ≡ some r
rule_stored s id {r} h =
    subst (λ i. rule_at s i ≡ some r) (sym (get_at-key (λ x. x.id) s.rules id (some_found _ h)))
      (some_found _ h)
  where
    some_found : (found : Option StandingRule) → or_missing found ≡ ok r → found ≡ some r
    some_found none p = absurd (cc p)
    some_found (some x) p = ground (arith, p)

reset_materialized_through-Edits :
    (s : Store) (rule_id : ℕ) → Edits s (reset_materialized_through s rule_id)
unfolding reset_materialized_through
reset_materialized_through-Edits s rule_id =
    Edits-bind s (or_missing (rule_at s rule_id)) _
      (λ r e. Edits-ok s _ (marks r none stays (rule_stored s rule_id e)))

set_materialized_through-Edits :
    (s : Store) (rule_id through : ℕ) → Edits s (set_materialized_through s rule_id through)
unfolding set_materialized_through
set_materialized_through-Edits s rule_id through =
    Edits-bind s (or_missing (rule_at s rule_id)) _ (λ r e. Edits-ok s _ (unless_reached r e))
  where
    unless_reached :
        (r : StandingRule)
        → or_missing (rule_at s rule_id) ≡ ok r
        → Moves s (
            if reaches r.materialized_through through
            then s
            else put_rule (record r { materialized_through = some through }) s)
    unless_reached r e = elim (Bool-cases (reaches r.materialized_through through)) [
      | inl f ↦ rw f stays
      | inr f ↦ rw f (marks r (some through) stays (rule_stored s rule_id e))
    ]

-- Whatever it returns or raises, a call moves the store.
pub call-Moves : (site : Site) (c : Call) (s : Store) → Moves s (call site c s)
unfolding call claim_rows finalize_lost bind_invited_user
call-Moves site (claiming row_ids owner until now) s =
    for_each-Moves (claim_row owner until now) row_ids (claim_row-IsSound owner until now) s
call-Moves site (recording outcomes) s = record_outcomes-Moves outcomes s
call-Moves site (acquiring row_id owner until now expected) s =
    perform-Moves s _ (acquire_row_lease-IsSound s row_id owner until now expected)
call-Moves site (releasing row_id owner) s =
    perform-Moves s _ (release_row_lease-IsSound s row_id owner)
call-Moves site (marking_upgrade row_id owner at expected) s =
    perform-Moves s _ (set_upgrade_marker-IsSound s row_id owner at expected)
call-Moves site (finalizing now) s =
    for_each-Moves (finalize_row now) (sorted_rows s) (finalize_row-IsSound now) s
call-Moves site (failing_auth account_id) s =
    or_before_with-Moves s _ (λ count t h. record_soft_auth_failure-Moves s account_id h)
call-Moves site (inserting given target_date now) s =
    perform-Moves s _ (insert_rule_row_if_absent-IsSound site s given target_date now)
call-Moves site (reactivating row given now) s =
    perform-Moves s _ (reactivate_rule_row-IsSound site s row given now)
call-Moves site (resetting_watermark rule_id) s =
    or_before-Moves s _ (reset_materialized_through-Edits s rule_id)
call-Moves site (rewriting row_id given expected_version now) s =
    perform-Moves s _ (rewrite_pending_rule_row-IsSound s row_id given expected_version now)
call-Moves site (setting_watermark rule_id through) s =
    or_before-Moves s _ (set_materialized_through-Edits s rule_id through)
call-Moves site (saving_user user) s = or_before-Moves s _ (upsert_user-Edits s user)
call-Moves site (setting_cutoff user_id cutoff now) s =
    set_booking_cutoff-Moves site user_id cutoff now s
call-Moves site (recutting given now) s = rewrite_rule_cutoff-Moves site given now s
call-Moves site (binding email provider subject) s = bind_found-Moves s provider subject _ _
call-Moves site (deleting_user user_id) s = delete_invited_user-Moves s user_id
call-Moves site (saving_account account) s =
    or_before-Moves s _ (upsert_account-Edits site s account)
call-Moves site (creating row_id user_id account_id target_date intent now own) s =
    perform-Moves s _
      (create_explicit_row-IsSound site s row_id user_id account_id target_date intent now own)
call-Moves site (moving row_id user_id to actor reason now) s =
    perform-Moves s _ (transition_row-IsSound s row_id user_id to actor reason now)
call-Moves site (saving_rule given user_id) s =
    or_before_with-Moves s _ (λ stored t h. edits given user_id stays h)

pub run-Moves : (site : Site) (cs : List Call) (s : Store) → Moves s (run site cs s)
unfolding run
run-Moves site [] s = stays
run-Moves site (c ∷ cs) s = Moves-trans (call-Moves site c s) (run-Moves site cs (call site c s))
