-- ===== src/Tenant/Store/Sound/Steps.antt =====
-- The rules for the steps of a plan, as a list that `search` walks it with.
use tee_time_booker.Prelude.{[], arith, ok, refl, ℕ, ◌+◌, ◌∷◌, ◌≡◌, ◌≤◌}
use tee_time_booker.Tenant.Rows.{RequestRow}
use tee_time_booker.Tenant.Semantics.Restoring.{unleased_write}
use tee_time_booker.Tenant.Store.Moves.{
  IsSound, IsSound-bind, IsSound-err, IsSound-if, IsSound-none, IsSound-one,
}
use tee_time_booker.Tenant.Store.Plans.{create, replace}
use tee_time_booker.Tenant.Store.State.{Store}

pub IsSound-replace :
    {A : Type 0} (s : Store) (row new : RequestRow) (a : A)
    → new.course_account_id ≡ row.course_account_id
    → new.target_date ≡ row.target_date
    → row.version ≤ new.version
    → IsSound s (ok (replace row new ∷ [], a))
IsSound-replace s row new a c d v = IsSound-one s (replace row new) a (c, d, v)

pub IsSound-create :
    {A : Type 0} (s : Store) (row : RequestRow) (a : A) → IsSound s (ok (create row ∷ [], a))
IsSound-create s row a = IsSound-one s (create row) a tt

pub account-unleased_write :
    (row : RequestRow) (now : ℕ)
    → (unleased_write row now).course_account_id ≡ row.course_account_id
unfolding unleased_write
account-unleased_write row now = ground arith

pub date-unleased_write :
    (row : RequestRow) (now : ℕ) → (unleased_write row now).target_date ≡ row.target_date
unfolding unleased_write
date-unleased_write row now = ground arith

pub same_version : (n : ℕ) → n ≤ n
same_version n = omega arith

pub next_version : (n : ℕ) → n ≤ n + 1
next_version n = omega arith

pub ruleset replaces_rules =
    (IsSound-replace, account-unleased_write, date-unleased_write, same_version, next_version, refl)

pub ruleset sound_rules =
    (replaces_rules, IsSound-create, IsSound-err, IsSound-none, IsSound-bind, IsSound-if)
