-- ===== src/Tenant/Store/Reads.antt =====
-- The users and the reads of the web application.
use tee_time_booker.Prelude.{
  Bool, List, Option, Result, any_of, elem, false, find, guard, if◌then◌else◌, is_none, leb, ltb,
  none, not, ok, same_option, select, some, sort_by, true, ℕ, ◌&&◌, ◌==◌, ◌>>◌, ◌||◌,
}
use tee_time_booker.Tenant.Rows.{RequestRow}
use tee_time_booker.Tenant.Store.Cutoffs.{accounts_of, with_user}
use tee_time_booker.Tenant.Store.State.{
  CourseAccount, Site, Store, StoreError, User, UserStatus, account_at, invited, row_at,
  uniqueness_conflict, user_active, user_at,
}

unfoldable pub get_user_by_subject : Store → ℕ → ℕ → Option User
get_user_by_subject s provider subject =
    find (λ u. u.oauth_provider == provider && same_option u.oauth_subject (some subject)) s.users

-- Bound to another user than this one.
abbrev pub is_bound_elsewhere : Option User → ℕ → Bool
is_bound_elsewhere none id = false
is_bound_elsewhere (some bound) id = not (bound.id == id)

unfoldable pub upsert_user : Store → User → Result StoreError Store
upsert_user s user = do
  guard
      (elim user.oauth_subject [
        | none ↦ true
        | some subject ↦
            not (is_bound_elsewhere (get_user_by_subject s user.oauth_provider subject) user.id)
      ])
      uniqueness_conflict
  ok (with_user user s)

abbrev pub is_invited : UserStatus → Bool
is_invited invited = true
is_invited _ = false

abbrev pub bound_to : ℕ → ℕ → User → User
bound_to provider subject user = record user {
  oauth_provider = provider;
  oauth_subject = some subject;
  status = user_active;
}

-- The user that the sign-in is bound to, or the invited one that it binds.
abbrev pub bind_found : Store → ℕ → ℕ → Option User → Option User → Option User × Store
bind_found s provider subject (some existing) pick = (some existing, s)
bind_found s provider subject none none = (none, s)
bind_found s provider subject none (some user) =
    (some (bound_to provider subject user), with_user (bound_to provider subject user) s)

unfoldable pub bind_invited_user : Site → Store → ℕ → ℕ → ℕ → Option User × Store
bind_invited_user site s email provider subject =
    bind_found s provider subject (get_user_by_subject s provider subject)
      (find (λ u. is_invited u.status && site.casefold u.email == site.casefold email) s.users)

abbrev pub is_deletable : Option User → Bool
is_deletable none = false
is_deletable (some user) = is_invited user.status && is_none user.oauth_subject

unfoldable pub delete_invited_user : Store → ℕ → Bool × Store
delete_invited_user s user_id =
    if is_deletable (user_at s user_id)
    then (true, record s { users = select (λ u. not (u.id == user_id)) s.users })
    else (false, s)

abbrev pub is_owner : Option CourseAccount → ℕ → Bool
is_owner none user_id = false
is_owner (some account) user_id = account.user_id == user_id

unfoldable pub get_account : Store → ℕ → ℕ → Option CourseAccount
get_account s account_id user_id =
    if is_owner (account_at s account_id) user_id then account_at s account_id else none

unfoldable pub get_row : Store → ℕ → ℕ → Option RequestRow
get_row s row_id user_id = elim (row_at s row_id) [
  | none ↦ none
  | some row ↦ if is_owner (account_at s row.course_account_id) user_id then some row else none
]

-- By date, then by id.
abbrev pub by_date : RequestRow → RequestRow → Bool
by_date a b = ltb a.target_date b.target_date || (a.target_date == b.target_date && leb a.id b.id)

unfoldable pub list_rows_for_user : Store → ℕ → ℕ → ℕ → List RequestRow
list_rows_for_user s user_id from_date to_date = sort_by by_date (
    select
      (λ r.
        elem r.course_account_id (accounts_of s user_id)
        && (leb from_date r.target_date && leb r.target_date to_date))
      s.rows)

unfoldable pub rows_in_groups : Store → List (ℕ × ℕ) → List RequestRow
rows_in_groups s keys =
    sort_by (λ a b. leb a.id b.id)
      (select
        (λ r. elim r.group_id [
          | none ↦ false
          | some group ↦ any_of (λ (g, day). g == group && day == r.target_date) keys
        ])
        s.rows)
