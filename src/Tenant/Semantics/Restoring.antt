-- ===== src/Tenant/Semantics/Restoring.antt =====
-- Coverage, expired leases, and the rule row that a withdrawn one-off gives its date back to.
use tee_time_booker.Prelude.{
  ℕ, ◌+◌, Bool, true, false, not, ◌&&◌, Option, none, some, List, [], ◌∷◌, ◌++◌, select, any_of,
  is_none, ◌==◌, if◌then◌else◌, Result, ok, err, ◌>>◌,
}
use tee_time_booker.Core.Calendar.{weekday}
use tee_time_booker.Tenant.Rows.{
  StandingRule, RequestRow, superseded, withdrawn, explicit, rule, Reason, rule_deleted,
  rule_deactivated, rule_weekday_changed, materializer, Refusal, is_status, is_system_reason,
  is_user_terminal, row_is_frozen, lease_held, prior, check_transition,
}

-- A refused write: by the state machine, by another owner's lease, or by an assertion.
pub data WriteError : Type 0 where
  refused : Refusal → WriteError
  leased : WriteError
  assertion_failed : WriteError
  not_leased_edge : WriteError

abbrev pub or_refused : Result Refusal (Unit {0}) → Result WriteError (Unit {0})
or_refused (ok u) = ok u
or_refused (err r) = err (refused r)

-- An unleased write clears a lease that has expired.
unfoldable pub unleased_write : RequestRow → ℕ → RequestRow
unleased_write row now =
    if not (is_none row.lease_owner) && not (lease_held row now)
    then record row { lease_owner = none; lease_expires_at = none }
    else row

abbrev pub rule_covers : RequestRow → StandingRule → Bool
rule_covers row stored =
    stored.active
    && (stored.course_account_id == row.course_account_id
        && stored.weekday_index == weekday row.target_date)

unfoldable pub rule_covers_row : RequestRow → Option StandingRule → Bool
rule_covers_row row stored =
    if is_none row.rule_id then true else elim stored [ none ↦ false | some r ↦ rule_covers row r ]

unfoldable pub uncovered_reason : RequestRow → Option StandingRule → Reason
uncovered_reason row none = rule_deleted
uncovered_reason row (some stored) =
    if not (stored.course_account_id == row.course_account_id)
    then rule_deleted
    else if not stored.active
    then rule_deactivated
    else rule_weekday_changed

abbrev pub is_rule_row : RequestRow → Bool
is_rule_row row = elim row.source [ explicit ↦ false | rule ↦ true ]

-- The row given back, with its new status; a withdrawn one is refreshed from its rule.
unfoldable pub restored : RequestRow → StandingRule → ℕ → RequestRow
restored row stored now =
    let base = unleased_write row now in
    let back = record base {
      status = prior row;
      status_reason = none;
      superseded_from = none;
      version = row.version + 1;
    } in
    if is_status row.status withdrawn
    then record back {
      options = stored.options;
      party_size = stored.party_size;
      max_price = stored.max_price;
      group_id = stored.group_id;
      group_rank = stored.group_rank;
    }
    else back

-- The write for one candidate: refused while it is leased, and where the machine refuses it.
abbrev pub restore_one :
    RequestRow → StandingRule → ℕ → Result WriteError (Option (RequestRow × RequestRow))
restore_one row stored now = if lease_held row now then err leased else (do
  (if is_status row.status withdrawn
      then or_refused (check_transition row (prior row) materializer now none false)
      else ok tt)
  ok (some (row, restored row stored now)))

-- `rules.get(row.rule_id) if row.rule_id is not None else None`
unfoldable pub stored_rule : (ℕ → Option StandingRule) → RequestRow → Option StandingRule
stored_rule rules row = elim row.rule_id [ none ↦ none | some id ↦ rules id ]

module _ (rules : ℕ → Option StandingRule) (now : ℕ) where
  -- The loop, with its two `continue`s and its assertion that a covered row has a stored rule.
  unfoldable pub restore_first :
      List RequestRow → Result WriteError (Option (RequestRow × RequestRow))
  restore_first [] = ok none
  restore_first (row ∷ rest) =
      let later = restore_first rest in
      elim (stored_rule rules row) [
        | none ↦ if is_rule_row row && rule_covers_row row none then err assertion_failed else later
        | some stored ↦
            if is_rule_row row && rule_covers_row row (some stored) && not (row_is_frozen row now)
            then restore_one row stored now
            else later
      ]

abbrev pub is_superseded : RequestRow → Bool
is_superseded r = is_status r.status superseded

abbrev pub is_system_withdrawn : RequestRow → Bool
is_system_withdrawn r = is_status r.status withdrawn && is_system_reason r.status_reason

abbrev pub candidates_in : List RequestRow → List RequestRow
candidates_in history = select is_superseded history ++ select is_system_withdrawn history

unfoldable pub restorable_rule_row :
    List RequestRow
    → (ℕ → Option StandingRule)
    → ℕ
    → Result WriteError (Option (RequestRow × RequestRow))
restorable_rule_row history rules now =
    if any_of is_user_terminal history
    then ok none
    else restore_first rules now (candidates_in history)
