-- ===== src/Tenant/Store/Cutoffs.antt =====
-- A changed cutoff, carried to the rows that follow it.
use tee_time_booker.Prelude.{
  Bool, List, Option, Result, [], elem, false, if◌then◌else◌, is_none, ltb, map, none, not, ok,
  put_at, same_option, select, some, true, ℕ, ◌+◌, ◌==◌, ◌>>=◌, ◌||◌, ◌∷◌,
}
use tee_time_booker.Core.Policy.{BookingCutoffConfig, cutoff_instant}
use tee_time_booker.Tenant.Rows.{
  RequestRow, RowStatus, StandingRule, booked, lease_held, pending, skipped, superseded,
}
use tee_time_booker.Tenant.Semantics.Intents.{resolve_cutoff}
use tee_time_booker.Tenant.Semantics.Restoring.{unleased_write}
use tee_time_booker.Tenant.Store.Plans.{
  Plan, and_then, cutoff_for, for_each, replace, stored_rule_matching,
}
use tee_time_booker.Tenant.Store.State.{
  Site, Store, StoreError, User, account_for_user, or_missing, rule_at, sorted_rows, user_at,
}

abbrev pub is_rewritable : RowStatus → Bool
is_rewritable pending = true
is_rewritable booked = true
is_rewritable skipped = true
is_rewritable superseded = true
is_rewritable _ = false

-- What the loop notes of a row.
pub data CutoffNote : Type 0 where
  rewritten skipped_leased kept_own : ℕ → CutoffNote

-- `_own_cutoff_of`
unfoldable pub own_cutoff_of : Store → RequestRow → Option BookingCutoffConfig
own_cutoff_of s row = elim row.rule_id [
  | none ↦ row.booking_cutoff
  | some id ↦ elim (rule_at s id) [ none ↦ none | some stored ↦ stored.booking_cutoff ]
]

unfoldable pub with_cutoff : RequestRow → ℕ → ℕ → RequestRow
with_cutoff row fresh now = record (unleased_write row now) {
  cutoff_at = fresh;
  version = row.version + 1;
}

abbrev pub is_over : RequestRow → ℕ → Bool
is_over row now = ltb row.target_date (row.timezone.to_local now).day

-- The end of a turn of either loop, where the row follows `effective`.
unfoldable pub recut : BookingCutoffConfig → ℕ → RequestRow → Plan (List CutoffNote)
recut effective now row =
    let fresh = cutoff_instant row.target_date row.timezone effective in
    if fresh == row.cutoff_at
    then ok ([], [])
    else if lease_held row now
    then ok ([], skipped_leased row.id ∷ [])
    else ok (replace row (with_cutoff row fresh now) ∷ [], rewritten row.id ∷ [])

abbrev pub accounts_of : Store → ℕ → List ℕ
accounts_of s user_id = map (λ a. a.id) (select (λ a. a.user_id == user_id) s.accounts)

unfoldable pub recut_for_user :
    List ℕ → BookingCutoffConfig → ℕ → RequestRow → Store → Plan (List CutoffNote)
recut_for_user mine effective now row s =
    if not (elem row.course_account_id mine) || (not (is_rewritable row.status) || is_over row now)
    then ok ([], [])
    else if not (is_none (own_cutoff_of s row))
    then ok ([], kept_own row.id ∷ [])
    else recut effective now row

abbrev pub with_user : User → Store → Store
with_user user s = record s { users = put_at (λ u. u.id) user s.users }

-- The saved user and the notes, in the order of the rows' ids.
unfoldable pub set_booking_cutoff :
    Site
    → ℕ
    → Option BookingCutoffConfig
    → ℕ
    → Store
    → Result StoreError (User × List CutoffNote) × Store
set_booking_cutoff site user_id cutoff now s =
    and_then (or_missing (user_at s user_id), s)
      (λ user t.
        let saved = record user { booking_cutoff = cutoff } in
        and_then
          (for_each
            (recut_for_user (accounts_of t user_id) (resolve_cutoff none cutoff site.cutoff) now)
            (sorted_rows t) (with_user saved t))
          (λ notes u. (ok (saved, notes), u)))

unfoldable pub recut_for_rule :
    ℕ → BookingCutoffConfig → ℕ → RequestRow → Store → Plan (List CutoffNote)
recut_for_rule rule_id effective now row s =
    if not (same_option row.rule_id (some rule_id))
      || (not (is_rewritable row.status) || is_over row now)
    then ok ([], [])
    else recut effective now row

abbrev pub rule_and_cutoff :
    Site → Store → StandingRule → Result StoreError (StandingRule × BookingCutoffConfig)
rule_and_cutoff site s given = do
  account ← account_for_user s given.course_account_id none
  stored ← stored_rule_matching s given
  ok (stored, cutoff_for site s account stored.booking_cutoff)

unfoldable pub rewrite_rule_cutoff :
    Site → StandingRule → ℕ → Store → Result StoreError (StandingRule × List CutoffNote) × Store
rewrite_rule_cutoff site given now s =
    and_then (rule_and_cutoff site s given, s)
      (λ (stored, effective) t.
        and_then (for_each (recut_for_rule stored.id effective now) (sorted_rows t) t)
          (λ notes u. (ok (stored, notes), u)))
