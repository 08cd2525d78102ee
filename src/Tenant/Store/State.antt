-- ===== src/Tenant/Store/State.antt =====
-- The state of the store: its documents, and what it is built with.
use tee_time_booker.Prelude.{
  ℕ, Bool, true, not, ◌&&◌, Option, none, some, List, [], select, sort_by, any_of, leb, ◌==◌,
  get_at, Result, ok, err, guard, ◌>>=◌, ◌>>◌,
}
use tee_time_booker.Core.Calendar.{Zone}
use tee_time_booker.Core.Policy.{BookingCutoffConfig}
use tee_time_booker.Tenant.Rows.{StandingRule, RequestRow, OwnedBooking, Refusal, is_user_terminal}
use tee_time_booker.Tenant.Semantics.Restoring.{
  WriteError, refused, leased, assertion_failed, not_leased_edge, rule_covers_row,
}
use tee_time_booker.Tenant.Semantics.Outcomes.{LedgerError}

pub data UserStatus : Type 0 where
  invited user_active user_disabled : UserStatus

pub data AccountStatus : Type 0 where
  account_active auth_failed account_disabled : AccountStatus

pub record User : Type 0 where
  pub id : ℕ
  pub oauth_provider : ℕ
  pub oauth_subject : Option ℕ
  pub email : ℕ
  pub status : UserStatus
  pub booking_cutoff : Option BookingCutoffConfig

pub record CourseAccount : Type 0 where
  pub id : ℕ
  pub user_id : ℕ
  pub course_id : ℕ
  pub username : ℕ
  pub status : AccountStatus
  pub consecutive_soft_auth_failures : ℕ
  pub default_max_price : ℕ

-- What the store is built with, and the hashes and the case folding of the standard library that
-- it calls.
pub record Site : Type 0 where
  pub course_timezone : ℕ → Option Zone
  pub cutoff : BookingCutoffConfig
  pub max_accounts_per_course : ℕ
  pub row_request_id : ℕ → ℕ
  pub rule_row_id : ℕ → ℕ → ℕ
  pub derive_account_id : ℕ → ℕ → ℕ
  pub casefold : ℕ → ℕ

-- The dictionaries, as lists of their values; a pointer document is a function of its key.
pub record Store : Type 0 where
  pub users : List User
  pub accounts : List CourseAccount
  pub rules : List StandingRule
  pub rows : List RequestRow
  pub slots : ℕ → ℕ → Option ℕ
  pub ruledays : ℕ → ℕ → Option ℕ
  pub ledger : List OwnedBooking

abbrev pub empty_store : Store
empty_store = record {
  users = [];
  accounts = [];
  rules = [];
  rows = [];
  slots = λ account day. none;
  ruledays = λ account weekday. none;
  ledger = [];
}

pub data StoreError : Type 0 where
  transition_refused rule_not_covering row_leased missing : StoreError
  version_conflict uniqueness_conflict rule_conflict : StoreError
  bad_ledger bad_value bad_assertion key_error : StoreError

abbrev pub raised_by : WriteError → StoreError
raised_by (refused r) = transition_refused
raised_by leased = row_leased
raised_by assertion_failed = bad_assertion
raised_by not_leased_edge = transition_refused

abbrev pub lift_write : {A : Type 0} → Result WriteError A → Result StoreError A
lift_write (ok a) = ok a
lift_write (err e) = err (raised_by e)

abbrev pub lift_check : Result Refusal (Unit {0}) → Result StoreError (Unit {0})
lift_check (ok u) = ok u
lift_check (err r) = err transition_refused

abbrev pub lift_ledger : Result LedgerError (Unit {0}) → Result StoreError (Unit {0})
lift_ledger (ok u) = ok u
lift_ledger (err e) = err bad_ledger

abbrev pub or_missing : {A : Type 0} → Option A → Result StoreError A
or_missing none = err missing
or_missing (some a) = ok a

-- `self._rows.get(id)` and the like.
abbrev pub row_at : Store → ℕ → Option RequestRow
row_at s id = get_at (λ r. r.id) s.rows id

abbrev pub rule_at : Store → ℕ → Option StandingRule
rule_at s id = get_at (λ r. r.id) s.rules id

abbrev pub account_at : Store → ℕ → Option CourseAccount
account_at s id = get_at (λ a. a.id) s.accounts id

abbrev pub user_at : Store → ℕ → Option User
user_at s id = get_at (λ u. u.id) s.users id

-- The rows, sorted by id.
abbrev pub sorted_rows : Store → List RequestRow
sorted_rows s = sort_by (λ a b. leb a.id b.id) s.rows

-- `_history`
abbrev pub history : Store → ℕ → ℕ → List RequestRow
history s account day =
    sort_by (λ a b. leb a.id b.id)
      (select (λ r. r.course_account_id == account && r.target_date == day) s.rows)

-- `_stored_rule` and `_rule_covers_row`
abbrev pub stored_rule_of : Store → RequestRow → Option StandingRule
stored_rule_of s row = elim row.rule_id [ none ↦ none | some id ↦ rule_at s id ]

abbrev pub covers_row : Store → RequestRow → Bool
covers_row s row = rule_covers_row row (stored_rule_of s row)

-- `_refuse_if_user_terminal`
unfoldable pub refuse_if_user_terminal : Store → ℕ → ℕ → Result StoreError (Unit {0})
refuse_if_user_terminal s account day =
    guard (not (any_of is_user_terminal (history s account day))) transition_refused

-- `_guard_rule_row_may_become_active`
unfoldable pub guard_may_become_active : Store → RequestRow → Result StoreError (Unit {0})
guard_may_become_active s row = do
  guard (covers_row s row) rule_not_covering
  refuse_if_user_terminal s row.course_account_id row.target_date

-- `_account_for_user`, for a given user and for none.
unfoldable pub account_for_user : Store → ℕ → Option ℕ → Result StoreError CourseAccount
account_for_user s account_id user_id = do
  account ← or_missing (account_at s account_id)
  guard (elim user_id [ none ↦ true | some u ↦ account.user_id == u ]) missing
  ok account
