-- ===== src/Tenant/Store/Recorded.antt =====
-- The ledger keeps what the bot did, also where the row has moved and the outcome is refused.
use tee_time_booker.Prelude.{
  ==_iff, Bool, Bool-cases, List, Member, Option, Option-cases, Result, Result-cases, [], ap, arith,
  err, inl, inr, map, ok, refl, subst, sym, true, ℕ, ◌&&◌, ◌∙◌, ◌∷◌, ◌≡◌,
}
use tee_time_booker.Core.Models.{Code, same_code_iff}
use tee_time_booker.Tenant.Rows.{OwnedBooking}
use tee_time_booker.Tenant.Semantics.Outcomes.{RowOutcome, ledger_entries, validate_ledger}
use tee_time_booker.Tenant.Store.Caught.{OnlyMoved, outcome_plan-OnlyMoved, perform-OnlyMoved}
use tee_time_booker.Tenant.Store.Commit.{Write, commit}
use tee_time_booker.Tenant.Store.Committed.{commit_parts}
use tee_time_booker.Tenant.Store.Plans.{Plan, and_then, perform}
use tee_time_booker.Tenant.Store.Running.{
  apply_outcome, cancel_upgraded, course_of, flag_active_row, outcome_plan, put_entries, put_entry,
  same_key, settle_outcome, write_ledger,
}
use tee_time_booker.Tenant.Store.State.{Store, StoreError, row_at}

-- The ledger has an entry of this reservation.
abbrev pub Records : List OwnedBooking → OwnedBooking → Type 0
Records ledger e =
    (kept : OwnedBooking) × Member kept ledger
    × (kept.course_account_id ≡ e.course_account_id)
    × (kept.course_id ≡ e.course_id)
    × (kept.raw_reservation_id ≡ e.raw_reservation_id)

same_key-parts :
    (a b : OwnedBooking)
    → same_key a b ≡ true
    → (a.course_account_id ≡ b.course_account_id)
      × (a.course_id ≡ b.course_id)
      × (a.raw_reservation_id ≡ b.raw_reservation_id)
same_key-parts a b h =
    let (p, q, r) = three _ _ _ h in
    (
      (==_iff a.course_account_id b.course_account_id).0 p,
      (==_iff a.course_id b.course_id).0 q,
      (same_code_iff a.raw_reservation_id b.raw_reservation_id).0 r,
    )
  where
    three : (x y z : Bool) → (x && (y && z)) ≡ true → (x ≡ true) × (y ≡ true) × (z ≡ true)
    three x y z e = ground (arith, e)

put_entry-here : (e : OwnedBooking) (ledger : List OwnedBooking) → Member e (put_entry e ledger)
put_entry-here e [] = inl refl
put_entry-here e (x ∷ xs) = elim (Bool-cases (same_key x e)) [
  | inl h ↦ rw h (inl refl)
  | inr h ↦ rw h (inr (put_entry-here e xs))
]

further : (x e : OwnedBooking) (xs : List OwnedBooking) → Records xs e → Records (x ∷ xs) e
further x e xs (kept, m, p, q, r) = (kept, inr m, p, q, r)

put_entry-Records :
    (x e : OwnedBooking) (ledger : List OwnedBooking)
    → Records ledger e
    → Records (put_entry x ledger) e
put_entry-Records x e [] (kept, m, p, q, r) = absurd m
put_entry-Records x e (y ∷ ys) (kept, m, p, q, r) = elim (Bool-cases (same_key y x)) [
  | inl h ↦ rw h (elim m [
    | inl f ↦
        let (a, b, c) = same_key-parts y x h in
        (
          x,
          inl refl,
          sym a ∙ (ap (λ z. z.course_account_id) (sym f) ∙ p),
          sym b ∙ (ap (λ z. z.course_id) (sym f) ∙ q),
          sym c ∙ (ap (λ z. z.raw_reservation_id) (sym f) ∙ r),
        )
    | inr n ↦ (kept, inr n, p, q, r)
  ])
  | inr h ↦ rw h (elim m [
    | inl f ↦ (kept, inl f, p, q, r)
    | inr n ↦ further y e (put_entry x ys) (put_entry-Records x e ys (kept, n, p, q, r))
  ])
]

put_entries-Records :
    (es : List OwnedBooking) (e : OwnedBooking) (ledger : List OwnedBooking)
    → Records ledger e
    → Records (put_entries es ledger) e
put_entries-Records [] e ledger h = h
put_entries-Records (x ∷ xs) e ledger h =
    put_entries-Records xs e (put_entry x ledger) (put_entry-Records x e ledger h)

put_entries-all :
    (es : List OwnedBooking) (e : OwnedBooking) (ledger : List OwnedBooking)
    → Member e es
    → Records (put_entries es ledger) e
put_entries-all [] e ledger m = absurd m
put_entries-all (x ∷ xs) e ledger (inr m) = put_entries-all xs e (put_entry x ledger) m
put_entries-all (x ∷ xs) e ledger (inl f) = put_entries-Records xs e (put_entry x ledger) (
  x,
  put_entry-here x ledger,
  ap (λ z. z.course_account_id) (sym f),
  ap (λ z. z.course_id) (sym f),
  ap (λ z. z.raw_reservation_id) (sym f),
)

Member-map :
    {A B : Type 0} (f : A → B) (x : A) (xs : List A) → Member x xs → Member (f x) (map f xs)
Member-map f x [] m = absurd m
Member-map f x (y ∷ ys) (inl p) = inl (ap f p)
Member-map f x (y ∷ ys) (inr m) = inr (Member-map f x ys m)

cancel_upgraded-Records :
    (o : RowOutcome) (course_id : Option ℕ) (raw : Code) (e : OwnedBooking)
    (ledger : List OwnedBooking)
    → Records ledger e
    → Records (map (cancel_upgraded o course_id raw) ledger) e
cancel_upgraded-Records o course_id raw e ledger (kept, m, p, q, r) =
    let (a, b, c) = keeps in
    (
      cancel_upgraded o course_id raw kept,
      Member-map (cancel_upgraded o course_id raw) kept ledger m,
      a,
      b,
      c,
    )
  where
    keeps :
        ((cancel_upgraded o course_id raw kept).course_account_id ≡ e.course_account_id)
        × ((cancel_upgraded o course_id raw kept).course_id ≡ e.course_id)
        × ((cancel_upgraded o course_id raw kept).raw_reservation_id ≡ e.raw_reservation_id)
    keeps = ground (arith, p, q, r)

write_ledger-Records :
    (s : Store) (o : RowOutcome) (course_id : Option ℕ) (e : OwnedBooking)
    → Member e (ledger_entries o)
    → Records (write_ledger s o course_id).ledger e
unfolding write_ledger
write_ledger-Records s o course_id e m = elim (Option-cases o.cancelled_upgrade_raw_id) [
  | inl f ↦ rw f (put_entries-all (ledger_entries o) e s.ledger m)
  | inr (raw, f) ↦ rw f (
      cancel_upgraded-Records o course_id raw e (put_entries (ledger_entries o) s.ledger)
        (put_entries-all (ledger_entries o) e s.ledger m))
]

commit-ledger : (ws : List Write) (s : Store) {t : Store} → commit ws s ≡ ok t → s.ledger ≡ t.ledger
commit-ledger ws s h =
    let (_, _, (slots, claimed, eq)) = commit_parts ws s h in ap (λ u. u.ledger) eq

perform-ledger : {A : Type 0} (s : Store) (plan : Plan A) → s.ledger ≡ (perform s plan).1.ledger
perform-ledger s (err e) = refl
perform-ledger s (ok (ws, a)) = elim (Result-cases (commit ws s)) [
  | inl (t, e) ↦ rw e (commit-ledger ws s e)
  | inr (x, e) ↦ rw e refl
]

settle_outcome-Records :
    (s : Store) (o : RowOutcome) (course_id : Option ℕ) (r : Result StoreError (Unit {0}) × Store)
    (e : OwnedBooking)
    → OnlyMoved r.0
    → Member e (ledger_entries o)
    → Records (settle_outcome s o course_id r).1.ledger e
unfolding settle_outcome
settle_outcome-Records s o course_id (ok u, t) e moved m = write_ledger-Records t o course_id e m
settle_outcome-Records s o course_id (err x, t) e moved m =
    rw (moved.caught x refl)
      (subst (λ l. Records l e) kept (write_ledger-Records t o course_id e m))
  where
    v : Store
    v = write_ledger t o course_id

    raised : StoreError → Result StoreError (Unit {0})
    raised y = err y

    after : (q : Result StoreError (Unit {0}) × Store) → (and_then q (λ _ u. (raised x, u))).1 ≡ q.1
    after (ok u, w) = refl
    after (err y, w) = refl

    kept :
        v.ledger
        ≡ (and_then
            (perform v (flag_active_row v o.course_account_id o.target_date))
            (λ _ u. (raised x, u))).1.ledger
    kept =
        perform-ledger v (flag_active_row v o.course_account_id o.target_date)
        ∙ ap (λ w. w.ledger)
            (sym (after (perform v (flag_active_row v o.course_account_id o.target_date))))

-- Once its ledger entries are accepted for the course of the stored row (any course where no row is
-- stored), an outcome leaves an entry in the ledger for each of its reservations, with the same
-- account, course and reservation id, whether the row takes the outcome or has moved and raises.
pub apply_outcome-Records :
    (s : Store) (o : RowOutcome) (e : OwnedBooking)
    → validate_ledger o (course_of (row_at s o.row_id)) ≡ ok tt
    → Member e (ledger_entries o)
    → (kept : OwnedBooking) × Member kept (apply_outcome s o).1.ledger
      × (kept.course_account_id ≡ e.course_account_id)
      × (kept.course_id ≡ e.course_id)
      × (kept.raw_reservation_id ≡ e.raw_reservation_id)
unfolding apply_outcome
apply_outcome-Records s o e valid m = rw valid (
    settle_outcome-Records s o (course_of (row_at s o.row_id)) (perform s (outcome_plan s o)) e
      (perform-OnlyMoved s (outcome_plan s o) (outcome_plan-OnlyMoved s o)) m)
