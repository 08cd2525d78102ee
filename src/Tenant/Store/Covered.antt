-- ===== src/Tenant/Store/Covered.antt =====
-- Which rows a committed batch may open for booking.
use tee_time_booker.Prelude.{
  >>=-eq-ok, All→Member, Bool, List, Member, Option, Option-cases, Result, [], any_of, arith, false,
  guard, inl, inr, leb, none, not, ok, refl, select, select-Member, some, sort_by-Member, subst,
  sym, true, ℕ, ◌&&◌, ◌==◌, ◌||◌, ◌∙◌, ◌∷◌, ◌≡◌, ◌⊎◌,
}
use tee_time_booker.Core.Calendar.{weekday}
use tee_time_booker.Tenant.Rows.{
  RequestRow, RowStatus, StandingRule, already_gone, by_user, cancelled, external, is_status,
  is_user_terminal, lost, pending, rule, skipped, superseded, withdrawn,
}
use tee_time_booker.Tenant.Semantics.Outcomes.{becomes_bookable, is_active}
use tee_time_booker.Tenant.Semantics.Restoring.{is_rule_row, rule_covers_row}
use tee_time_booker.Tenant.Store.Commit.{Write, commit}
use tee_time_booker.Tenant.Store.Committed.{commit_parts, write-cases}
use tee_time_booker.Tenant.Store.Equality.{SameCore}
use tee_time_booker.Tenant.Store.State.{
  Store, StoreError, covers_row, guard_may_become_active, history, refuse_if_user_terminal, row_at,
  rule_at, rule_not_covering,
}

guard-passes : (b : Bool) (e : StoreError) → guard b e ≡ ok tt → b ≡ true
guard-passes true e h = refl
guard-passes false e h = absurd (cc h)

not-true : (b : Bool) → not b ≡ true → b ≡ false
not-true b h = ground (arith, h)

checked-covers :
    (ws : List Write) (s : Store) {t : Store} (w : Write)
    → commit ws s ≡ ok t
    → Member w ws
    → is_rule_row w.new ≡ true
    → becomes_bookable w.old w.new ≡ true
    → (covers_row s w.new ≡ true)
      × (any_of is_user_terminal (history s w.new.course_account_id w.new.target_date) ≡ false)
unfolding guard_may_become_active refuse_if_user_terminal
checked-covers ws s w done m e f =
    let check = All→Member _ w ws (commit_parts ws s done).1 m in
    let (_, first, rest) =
      >>=-eq-ok (guard (covers_row s w.new) rule_not_covering) _ (rw (e, f) at check) in
    (guard-passes _ _ (only_tt first), not-true _ (guard-passes _ _ rest))
  where
    only_tt : {u : Unit {0}} {r : Result StoreError (Unit {0})} → r ≡ ok u → r ≡ ok tt
    only_tt p = p

-- A write opens its row for booking: it is pending or skipped where it was not stored or stood
-- outside the active rows, or it is pending where it was skipped.
pub data Opens (stored : Option RequestRow) (new : RequestRow) : Type 0 where
  enters : stored ≡ none → (new.status ≡ pending) ⊎ (new.status ≡ skipped) → Opens stored new
  comes_back :
      {was : RequestRow}
      → stored ≡ some was
      → (was.status ≡ superseded)
        ⊎ ((was.status ≡ withdrawn) ⊎ ((was.status ≡ cancelled) ⊎ (was.status ≡ lost)))
      → (new.status ≡ pending) ⊎ (new.status ≡ skipped)
      → Opens stored new
  unskips :
      {was : RequestRow}
      → stored ≡ some was
      → was.status ≡ skipped
      → new.status ≡ pending
      → Opens stored new

-- The row of a rule is on the account and the weekday of that rule, which is stored and active.
abbrev pub IsCovered : Store → RequestRow → Type 0
IsCovered s row =
    (row.rule_id ≡ none)
    ⊎ ((id : ℕ) × (given : StandingRule) × (row.rule_id ≡ some id)
        × (rule_at s id ≡ some given)
        × (given.active ≡ true)
        × (given.course_account_id ≡ row.course_account_id)
        × (given.weekday_index ≡ weekday row.target_date))

-- The user gave the row's date up.
abbrev pub IsGivenUp : RequestRow → Type 0
IsGivenUp row =
    (row.status ≡ cancelled)
    × ((row.status_reason ≡ some by_user)
        ⊎ ((row.status_reason ≡ some external) ⊎ (row.status_reason ≡ some already_gone)))

opened :
    (a : RowStatus)
    → (a ≡ pending) ⊎ (a ≡ skipped)
    → (is_status a pending || is_status a skipped) ≡ true
opened a (inl p) = rw p refl
opened a (inr p) = rw p refl

inactive :
    (a : RowStatus)
    → (a ≡ superseded) ⊎ ((a ≡ withdrawn) ⊎ ((a ≡ cancelled) ⊎ (a ≡ lost)))
    → is_active a ≡ false
inactive a (inl p) = rw p refl
inactive a (inr (inl p)) = rw p refl
inactive a (inr (inr (inl p))) = rw p refl
inactive a (inr (inr (inr p))) = rw p refl

-- The write's own copy of the row has the status of the stored one.
Opens-becomes_bookable :
    (s : Store) (w : Write)
    → ((w.old ≡ none) × (row_at s w.new.id ≡ none))
      ⊎ ((o : RequestRow) × (st : RequestRow) × (w.old ≡ some o)
          × (row_at s w.new.id ≡ some st)
          × (st.status ≡ o.status))
    → Opens (row_at s w.new.id) w.new
    → becomes_bookable w.old w.new ≡ true
unfolding becomes_bookable
Opens-becomes_bookable s w (inl (e, f)) (enters g h) = rw (e, opened w.new.status h) refl
Opens-becomes_bookable s w (inl (e, f)) (comes_back g c h) = absurd (cc (f, g))
Opens-becomes_bookable s w (inl (e, f)) (unskips g c h) = absurd (cc (f, g))
Opens-becomes_bookable s w (inr (o, st, e, f, same)) (enters g h) = absurd (cc (f, g))
Opens-becomes_bookable s w (inr (o, st, e, f, same)) (comes_back {was} g c h) =
    rw (e, opened w.new.status h, inactive o.status (subst Left moved c)) refl
  where
    Left : RowStatus → Type 0
    Left a = (a ≡ superseded) ⊎ ((a ≡ withdrawn) ⊎ ((a ≡ cancelled) ⊎ (a ≡ lost)))

    moved : was.status ≡ o.status
    moved = ground (arith, f, g, same)
Opens-becomes_bookable s w (inr (o, st, e, f, same)) (unskips {was} g c h) =
    rw (e, h, sym moved ∙ c) refl
  where
    moved : was.status ≡ o.status
    moved = ground (arith, f, g, same)

covers_row-IsCovered : (s : Store) (row : RequestRow) → covers_row s row ≡ true → IsCovered s row
unfolding rule_covers_row
covers_row-IsCovered s row h = elim (Option-cases row.rule_id) [
  | inl e ↦ inl e
  | inr (id, e) ↦ elim (Option-cases (rule_at s id)) [
    | inl f ↦ absurd (cc (rw (e, f) at h))
    | inr (given, f) ↦
        let (a, b, c) =
          parts given.active given.course_account_id row.course_account_id given.weekday_index
            (weekday row.target_date) (rw (e, f) at h) in
        inr (id, given, e, f, a, b, c)
  ]
]
  where
    parts :
        (p : Bool) (a b c d : ℕ) → (p && (a == b && c == d)) ≡ true → (p ≡ true) × (a ≡ b) × (c ≡ d)
    parts p a b c d e = (ground (arith, e), ground (arith, e), ground (arith, e))

IsGivenUp-is_user_terminal : (row : RequestRow) → IsGivenUp row → is_user_terminal row ≡ true
IsGivenUp-is_user_terminal row (p, inl q) = rw (p, q) refl
IsGivenUp-is_user_terminal row (p, inr (inl q)) = rw (p, q) refl
IsGivenUp-is_user_terminal row (p, inr (inr q)) = rw (p, q) refl

any_of-none :
    (xs : List RequestRow) (r : RequestRow)
    → any_of is_user_terminal xs ≡ false
    → Member r xs
    → is_user_terminal r ≡ false
any_of-none [] r h m = absurd m
any_of-none (x ∷ xs) r h (inl e) = subst (λ y. is_user_terminal y ≡ false) (sym e) (first _ _ h)
  where
    first : (a b : Bool) → (a || b) ≡ false → a ≡ false
    first a b k = ground (arith, k)
any_of-none (x ∷ xs) r h (inr m) = any_of-none xs r (others _ _ h) m
  where
    others : (a b : Bool) → (a || b) ≡ false → b ≡ false
    others a b k = ground (arith, k)

not-IsGivenUp :
    (s : Store) (account day : ℕ)
    → any_of is_user_terminal (history s account day) ≡ false
    → (r : RequestRow) → Member r s.rows
    → r.course_account_id ≡ account
    → r.target_date ≡ day
    → ¬ IsGivenUp r
not-IsGivenUp s account day none_ends r m p q up =
    cc (any_of-none (history s account day) r none_ends listed, IsGivenUp-is_user_terminal r up)
  where
    listed : Member r (history s account day)
    listed =
        (sort_by-Member (λ a b. leb a.id b.id) r
            (select (λ x. x.course_account_id == account && x.target_date == day) s.rows)).1
          (select-Member (λ x. x.course_account_id == account && x.target_date == day) r s.rows m
            (ground (arith, p, q)))

-- A batch is committed only where each of its rule rows that it opens for booking (pending or
-- skipped where the stored row was not active or there was none, or pending where it was skipped)
-- names no rule or a stored active rule of the row's account and weekday, and where no stored row of
-- its account and date was given up: cancelled by the user, outside, or as already gone.
pub commit-covers :
    (ws : List Write) (s : Store) {t : Store} (w : Write)
    → commit ws s ≡ ok t
    → Member w ws
    → w.new.source ≡ rule
    → Opens (row_at s w.new.id) w.new
    → IsCovered s w.new
      × ((r : RequestRow)
          → Member r s.rows
          → r.course_account_id ≡ w.new.course_account_id
          → r.target_date ≡ w.new.target_date
          → ¬ IsGivenUp r)
commit-covers ws s w done m e opens =
    let (fits, kept) = checked-covers ws s w done m (rw e refl) (
      Opens-becomes_bookable s w
        (stands (write-cases s w (All→Member _ w ws (commit_parts ws s done).0 m))) opens) in
    (covers_row-IsCovered s w.new fits, not-IsGivenUp s _ _ kept)
  where
    stands :
        ((w.old ≡ none) × (row_at s w.new.id ≡ none))
          ⊎ ((o : RequestRow) × (st : RequestRow) × (w.old ≡ some o)
              × (row_at s w.new.id ≡ some st)
              × SameCore st o)
        → ((w.old ≡ none) × (row_at s w.new.id ≡ none))
          ⊎ ((o : RequestRow) × (st : RequestRow) × (w.old ≡ some o)
              × (row_at s w.new.id ≡ some st)
              × (st.status ≡ o.status))
    stands (inl h) = inl h
    stands (inr (o, st, f, g, same)) = inr (o, st, f, g, same.same_status)
