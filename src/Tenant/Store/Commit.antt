-- ===== src/Tenant/Store/Commit.antt =====
-- `_commit`: validate every write of the batch, then apply them all.
use tee_time_booker.Prelude.{
  ℕ, Bool, true, false, not, ◌&&◌, Option, none, some, List, [], ◌∷◌, ◌==◌, if◌then◌else◌, put_at,
  Result, ok, err, guard, ◌>>=◌, ◌>>◌,
}
use tee_time_booker.Tenant.Rows.{RequestRow}
use tee_time_booker.Tenant.Semantics.Restoring.{is_rule_row}
use tee_time_booker.Tenant.Semantics.Outcomes.{is_active, becomes_bookable}
use tee_time_booker.Tenant.Store.State.{
  Store, StoreError, transition_refused, row_at, guard_may_become_active,
}
use tee_time_booker.Tenant.Store.Equality.{same_row}

-- The row as it was read, or none for a create, and the row as it is to be.
pub record Write : Type 0 where
  pub old : Option RequestRow
  pub new : RequestRow

abbrev pub is_unchanged : Option RequestRow → Option RequestRow → Bool
is_unchanged none none = true
is_unchanged (some was) (some stored) = same_row stored was
is_unchanged _ _ = false

-- A create finds its id free, and a replaced row is as it was read.
abbrev pub check_stored : Store → Write → Result StoreError (Unit {0})
check_stored s w = guard (is_unchanged w.old (row_at s w.new.id)) transition_refused

abbrev pub check_bookable : Store → Write → Result StoreError (Unit {0})
check_bookable s w =
    if is_rule_row w.new && becomes_bookable w.old w.new
    then guard_may_become_active s w.new
    else ok tt

abbrev pub each :
    {A : Type 0} → (A → Result StoreError (Unit {0})) → List A → Result StoreError (Unit {0})
each check [] = ok tt
each check (w ∷ rest) = let later = each check rest in check w >> later

abbrev pub was_active : Option RequestRow → Bool
was_active none = false
was_active (some row) = is_active row.status

abbrev pub Slots : Type 0
Slots = ℕ → ℕ → Option ℕ

abbrev pub set_slot : Slots → ℕ → ℕ → Option ℕ → Slots
set_slot slots account day holder a d = if a == account && d == day then holder else slots a d

-- `slots.get(key) == id` and `slots.get(key, id) == id`
abbrev pub is_holder : Option ℕ → ℕ → Bool
is_holder none id = false
is_holder (some i) id = i == id

abbrev pub is_free_for : Option ℕ → ℕ → Bool
is_free_for none id = true
is_free_for (some i) id = i == id

abbrev pub release_slot : Write → Slots → Slots
release_slot w slots =
    if was_active w.old
      && (not (is_active w.new.status)
          && is_holder (slots w.new.course_account_id w.new.target_date) w.new.id)
    then set_slot slots w.new.course_account_id w.new.target_date none
    else slots

abbrev pub release_slots : List Write → Slots → Slots
release_slots [] slots = slots
release_slots (w ∷ rest) slots = release_slots rest (release_slot w slots)

abbrev pub claim_slot : Write → Slots → Result StoreError Slots
claim_slot w slots =
    if not (was_active w.old) && is_active w.new.status
    then if is_free_for (slots w.new.course_account_id w.new.target_date) w.new.id
      then ok (set_slot slots w.new.course_account_id w.new.target_date (some w.new.id))
      else err transition_refused
    else ok slots

abbrev pub claim_slots : List Write → Slots → Result StoreError Slots
claim_slots [] slots = ok slots
claim_slots (w ∷ rest) slots = claim_slot w slots >>= claim_slots rest

abbrev pub put_rows : List Write → List RequestRow → List RequestRow
put_rows [] rows = rows
put_rows (w ∷ rest) rows = put_rows rest (put_at (λ r. r.id) w.new rows)

unfoldable pub commit : List Write → Store → Result StoreError Store
commit writes s = do
  each (check_stored s) writes
  each (check_bookable s) writes
  slots ← claim_slots writes (release_slots writes s.slots)
  ok (record s { slots = slots; rows = put_rows writes s.rows })
