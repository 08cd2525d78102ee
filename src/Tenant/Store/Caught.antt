-- ===== src/Tenant/Store/Caught.antt =====
-- An outcome that is not applied raises an error that `_apply_outcome` catches.
use tee_time_booker.Prelude.{
  Bool, List, Option, Option-cases, Result, Result-cases, [], ap, arith, err, false, guard,
  if◌then◌else◌, inl, inr, none, ok, refl, some, subst, true, ◌&&◌, ◌>>=◌, ◌>>◌, ◌∷◌, ◌≡◌,
}
use tee_time_booker.Tenant.Rows.{Refusal, RequestRow, check_transition, has_actor, lease_held}
use tee_time_booker.Tenant.Semantics.Outcomes.{
  RowOutcome, check_outcome, leased_edge, outcome_row, owns,
}
use tee_time_booker.Tenant.Semantics.Restoring.{WriteError, leased, not_leased_edge, or_refused}
use tee_time_booker.Tenant.Store.Commit.{
  Slots, Write, check_bookable, check_stored, claim_slot, claim_slots, commit, each, release_slots,
}
use tee_time_booker.Tenant.Store.Plans.{Plan, perform}
use tee_time_booker.Tenant.Store.Running.{is_row_moved, outcome_plan}
use tee_time_booker.Tenant.Store.State.{
  Store, StoreError, guard_may_become_active, lift_write, missing, or_missing, raised_by,
  refuse_if_user_terminal, row_at, row_leased, transition_refused,
}

pub record OnlyMoved {A : Type 0} (r : Result StoreError A) : Type 0 where
  pub caught : (e : StoreError) → r ≡ err e → is_row_moved e ≡ true

OnlyMoved-ok : {A : Type 0} (a : A) → OnlyMoved (ok a)
OnlyMoved-ok a = record { caught = λ e h. absurd (cc h) }

OnlyMoved-err : {A : Type 0} (e : StoreError) → is_row_moved e ≡ true → OnlyMoved {A = A} (err e)
OnlyMoved-err e m = record {
  caught = λ f h. subst (λ x. is_row_moved x ≡ true) (ground (arith, h)) m;
}

OnlyMoved-guard : (b : Bool) (e : StoreError) → is_row_moved e ≡ true → OnlyMoved (guard b e)
OnlyMoved-guard true e m = OnlyMoved-ok tt
OnlyMoved-guard false e m = OnlyMoved-err e m

OnlyMoved-if :
    {A : Type 0} (b : Bool) (p q : Result StoreError A)
    → OnlyMoved p
    → OnlyMoved q
    → OnlyMoved (if b then p else q)
OnlyMoved-if true p q f g = f
OnlyMoved-if false p q f g = g

OnlyMoved-bind :
    {A B : Type 0} (r : Result StoreError B) (f : B → Result StoreError A)
    → OnlyMoved r
    → ((b : B) → OnlyMoved (f b))
    → OnlyMoved (r >>= f)
OnlyMoved-bind (ok b) f m g = g b
OnlyMoved-bind (err e) f m g = record { caught = λ x h. m.caught x (ap err (ground (arith, h))) }

OnlyMoved-or_missing : {A : Type 0} (found : Option A) → OnlyMoved (or_missing found)
OnlyMoved-or_missing none = OnlyMoved-err missing refl
OnlyMoved-or_missing (some a) = OnlyMoved-ok a

ruleset moved_rules = (
  OnlyMoved-ok, OnlyMoved-err, OnlyMoved-guard, OnlyMoved-if, OnlyMoved-bind, OnlyMoved-or_missing,
  refl,
)

each-OnlyMoved :
    {A : Type 0} (check : A → Result StoreError (Unit {0})) (xs : List A)
    → ((x : A) → OnlyMoved (check x))
    → OnlyMoved (each check xs)
each-OnlyMoved check [] f = OnlyMoved-ok tt
each-OnlyMoved check (x ∷ xs) f = OnlyMoved-bind (check x) _ (f x) (λ u. each-OnlyMoved check xs f)

check_bookable-OnlyMoved : (s : Store) (w : Write) → OnlyMoved (check_bookable s w)
unfolding guard_may_become_active refuse_if_user_terminal
check_bookable-OnlyMoved s w = search moved_rules

claim_slots-OnlyMoved : (ws : List Write) (slots : Slots) → OnlyMoved (claim_slots ws slots)
claim_slots-OnlyMoved [] slots = OnlyMoved-ok slots
claim_slots-OnlyMoved (w ∷ ws) slots =
    OnlyMoved-bind (claim_slot w slots) _ (search moved_rules) (claim_slots-OnlyMoved ws)

commit-OnlyMoved : (ws : List Write) (s : Store) → OnlyMoved (commit ws s)
unfolding commit
commit-OnlyMoved ws s =
    OnlyMoved-bind (each (check_stored s) ws) _
      (each-OnlyMoved (check_stored s) ws (λ w. search moved_rules))
      (λ _.
        OnlyMoved-bind (each (check_bookable s) ws) _
          (each-OnlyMoved (check_bookable s) ws (check_bookable-OnlyMoved s))
          (λ _.
            OnlyMoved-bind (claim_slots ws (release_slots ws s.slots)) _
              (claim_slots-OnlyMoved ws (release_slots ws s.slots)) (λ slots. OnlyMoved-ok _)))

-- The errors of the outcome guards, over the values that they read.
move_errors :
    (a l o : Bool) (t : Result Refusal (Unit {0}))
    → OnlyMoved (lift_write (guard a not_leased_edge >> (or_refused t >> guard (o && l) leased)))
move_errors false l o t = OnlyMoved-err transition_refused refl
move_errors true l o (err r) = OnlyMoved-err transition_refused refl
move_errors true true true (ok u) = OnlyMoved-ok tt
move_errors true false true (ok u) = OnlyMoved-err row_leased refl
move_errors true l false (ok u) = OnlyMoved-err row_leased refl

note_errors : (b : Bool) → OnlyMoved (lift_write (guard b leased))
note_errors true = OnlyMoved-ok tt
note_errors false = OnlyMoved-err row_leased refl

check_outcome-OnlyMoved :
    (row : RequestRow) (o : RowOutcome) → OnlyMoved (lift_write (check_outcome row o))
check_outcome-OnlyMoved row o = elim (Option-cases o.to_status) [
  | inl e ↦ rw e (note_errors _)
  | inr (to, e) ↦ rw e (
      move_errors (has_actor o.actor (leased_edge row.status to)) (lease_held row o.at) (owns row o)
        (check_transition row to o.actor o.at o.status_reason o.needs_reconcile))
]

lift_bind :
    {A B : Type 0} (r : Result WriteError B) (f : B → A)
    → OnlyMoved (lift_write r)
    → OnlyMoved (lift_write (r >>= λ b. ok (f b)))
lift_bind (ok b) f m = OnlyMoved-ok (f b)
lift_bind (err e) f m = OnlyMoved-err (raised_by e) (m.caught (raised_by e) refl)

outcome_row-OnlyMoved :
    (row : RequestRow) (o : RowOutcome) → OnlyMoved (lift_write (outcome_row row o))
unfolding outcome_row
outcome_row-OnlyMoved row o = lift_bind (check_outcome row o) _ (check_outcome-OnlyMoved row o)

pub outcome_plan-OnlyMoved : (s : Store) (o : RowOutcome) → OnlyMoved (outcome_plan s o)
unfolding outcome_plan
outcome_plan-OnlyMoved s o =
    OnlyMoved-bind (or_missing (row_at s o.row_id)) _ (OnlyMoved-or_missing (row_at s o.row_id))
      (λ row.
        OnlyMoved-bind (lift_write (outcome_row row o)) _ (outcome_row-OnlyMoved row o)
          (λ new. OnlyMoved-ok _))

pub perform-OnlyMoved :
    {A : Type 0} (s : Store) (plan : Plan A) → OnlyMoved plan → OnlyMoved (perform s plan).0
perform-OnlyMoved s (err e) m = OnlyMoved-err e (m.caught e refl)
perform-OnlyMoved s (ok (ws, a)) m = elim (Result-cases (commit ws s)) [
  | inl (t, e) ↦ rw e (OnlyMoved-ok a)
  | inr (x, e) ↦ rw e (OnlyMoved-err x ((commit-OnlyMoved ws s).caught x e))
]
