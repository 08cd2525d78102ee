-- ===== src/Tenant/Store/Journal.antt =====
-- What the store keeps beside its rows: login probes, audit lines, reservation snapshots and
-- rejected sign-ins. No other method reads them. A record's free fields are left out: the names,
-- the mails and the details that are stored and shown as they are.
use tee_time_booker.Prelude.{
  Bool, List, Option, [], elem, find, if◌then◌else◌, leb, length, ltb, none, same_option, select,
  some, sort_by, take, true, ℕ, ◌&&◌, ◌*◌, ◌++◌, ◌+◌, ◌==◌, ◌||◌, ◌∷◌,
}
use tee_time_booker.Core.Calendar.{day_us}
use tee_time_booker.Tenant.Rows.{StandingRule}
use tee_time_booker.Tenant.Store.Cutoffs.{accounts_of}
use tee_time_booker.Tenant.Store.State.{CourseAccount, Site, Store, User}

pub record Probe : Type 0 where
  pub user_id : ℕ
  pub course_id : ℕ
  pub username_hash : ℕ
  pub is_ok : Bool
  pub at : ℕ

pub record AuditEntry : Type 0 where
  pub user_id : Option ℕ
  pub action : ℕ
  pub row_id : Option ℕ
  pub at : ℕ

pub record RejectedSignin : Type 0 where
  pub provider : ℕ
  pub subject : ℕ
  pub first_at : ℕ
  pub last_at : ℕ
  pub attempts : ℕ

-- A snapshot is a number here: it is stored and read back whole.
pub record Journal : Type 0 where
  pub probes : List Probe
  pub audit_log : List AuditEntry
  pub rejected : List RejectedSignin
  pub snapshots : ℕ → Option ℕ

-- A filter that is not given lets everything pass.
abbrev pub passes : Option ℕ → ℕ → Bool
passes none value = true
passes (some wanted) value = wanted == value

unfoldable pub count_login_probes : Journal → Option ℕ → Option ℕ → ℕ → ℕ
count_login_probes j user_id username_hash since = length (
    select
      (λ p. leb since p.at && (passes user_id p.user_id && passes username_hash p.username_hash))
      j.probes)

unfoldable pub record_login_probe : Probe → Journal → Journal
record_login_probe probe j = record j { probes = j.probes ++ (probe ∷ []) }

unfoldable pub append_audit : AuditEntry → Journal → Journal
append_audit entry j = record j { audit_log = j.audit_log ++ (entry ∷ []) }

-- The user's latest lines first.
unfoldable pub recent_audit : Journal → ℕ → ℕ → List AuditEntry
recent_audit j user_id limit = take limit (
    sort_by (λ a b. leb b.at a.at) (select (λ e. same_option e.user_id (some user_id)) j.audit_log))

abbrev pub is_signin_of : ℕ → ℕ → RejectedSignin → Bool
is_signin_of provider subject r = r.provider == provider && r.subject == subject

abbrev pub next_signin : ℕ → ℕ → ℕ → Option RejectedSignin → RejectedSignin
next_signin provider subject at none = record {
  provider = provider;
  subject = subject;
  first_at = at;
  last_at = at;
  attempts = 1;
}
next_signin provider subject at (some old) = record {
  provider = provider;
  subject = subject;
  first_at = old.first_at;
  last_at = at;
  attempts = old.attempts + 1;
}

abbrev pub put_signin : RejectedSignin → List RejectedSignin → List RejectedSignin
put_signin r [] = r ∷ []
put_signin r (x ∷ xs) =
    let rest = put_signin r xs in if is_signin_of r.provider r.subject x then r ∷ xs else x ∷ rest

unfoldable pub record_rejected_signin : ℕ → ℕ → ℕ → Journal → RejectedSignin × Journal
record_rejected_signin provider subject at j =
    let r = next_signin provider subject at (find (is_signin_of provider subject) j.rejected) in
    (r, record j { rejected = put_signin r j.rejected })

-- 90 days.
abbrev pub rejected_signin_retention : ℕ
rejected_signin_retention = 90 * day_us

-- The latest first, then by provider and subject, backwards.
abbrev pub signin_before : RejectedSignin → RejectedSignin → Bool
signin_before a b =
    ltb b.last_at a.last_at
    || (a.last_at == b.last_at
        && (ltb b.provider a.provider || (a.provider == b.provider && leb b.subject a.subject)))

unfoldable pub list_rejected_signins : Journal → ℕ → List RejectedSignin
list_rejected_signins j now =
    sort_by signin_before (select (λ r. ltb now (r.last_at + rejected_signin_retention)) j.rejected)

unfoldable pub save_snapshot : ℕ → ℕ → Journal → Journal
save_snapshot account_id snapshot j = record j {
  snapshots = λ a. if a == account_id then some snapshot else j.snapshots a;
}

-- The listings of the web pages. The orders of mails and of ids are those of their strings.
unfoldable pub list_users : Site → Store → List User
list_users site s =
    sort_by
      (λ a b.
        ltb (site.casefold a.email) (site.casefold b.email)
        || (site.casefold a.email == site.casefold b.email && leb a.id b.id))
      s.users

unfoldable pub list_accounts_for_user : Store → ℕ → List CourseAccount
list_accounts_for_user s user_id =
    sort_by (λ a b. leb a.course_id b.course_id) (select (λ a. a.user_id == user_id) s.accounts)

unfoldable pub list_rules_for_user : Store → ℕ → List StandingRule
list_rules_for_user s user_id =
    sort_by
      (λ a b.
        ltb a.weekday_index b.weekday_index
        || (a.weekday_index == b.weekday_index && leb a.id b.id))
      (select (λ r. elem r.course_account_id (accounts_of s user_id)) s.rules)
