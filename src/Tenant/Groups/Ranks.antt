-- ===== src/Tenant/Groups/Ranks.antt =====
-- `booked_rank`, `group_floor` and `plan_collapse`.
use tee_time_booker.Prelude.{
  Bool, List, Option, [], if◌then◌else◌, is_none, leb, ltb, min, none, not, same_option, select,
  some, sort_by, ℕ, ◌&&◌, ◌==◌, ◌||◌, ◌∷◌,
}
use tee_time_booker.Tenant.Rows.{RankedWindow, RequestRow, booked, is_status}

-- tenant/models.py: the first option in rank order whose window has the time.
abbrev pub achieved_rank : List RankedWindow → ℕ → Option ℕ
achieved_rank [] time = none
achieved_rank (o ∷ os) time =
    let rest = achieved_rank os time in
    if leb o.earliest time && leb time o.latest then some o.rank else rest

abbrev pub rank_at : RequestRow → Option ℕ → Option ℕ
rank_at row none = none
rank_at row (some tee) = achieved_rank row.options (row.timezone.to_local tee).time

unfoldable pub booked_rank : RequestRow → Option ℕ
booked_rank row = if is_status row.status booked then rank_at row row.booked_tee_time else none

-- `_UNRANKED`
abbrev pub unranked : ℕ
unranked = 1_000_000

abbrev pub effective_rank : RequestRow → ℕ
effective_rank row = elim (booked_rank row) [ none ↦ unranked | some rank ↦ rank ]

abbrev pub same_group : RequestRow → RequestRow → Bool
same_group a b =
    not (is_none a.group_id)
    && (same_option a.group_id b.group_id && a.target_date == b.target_date)

-- A booked row of the group at another account.
abbrev pub is_rival : RequestRow → RequestRow → Bool
is_rival row other =
    not (other.id == row.id || other.course_account_id == row.course_account_id)
    && (same_group row other && is_status other.status booked)

abbrev pub best_of : Option ℕ → ℕ → ℕ
best_of none rank = rank
best_of (some best) rank = min best rank

unfoldable pub best_rival : RequestRow → Option ℕ → List RequestRow → Option ℕ
best_rival row best [] = best
best_rival row best (other ∷ rows) =
    best_rival row (if is_rival row other then some (best_of best (effective_rank other)) else best)
      rows

abbrev pub options_below : Option ℕ → List RankedWindow → List RankedWindow
options_below none options = options
options_below (some best) options = select (λ o. ltb o.rank best) options

unfoldable pub group_floor : RequestRow → List RequestRow → List RankedWindow
group_floor row rows = options_below (best_rival row none rows) row.options

pub record CollapsePlan : Type 0 where
  pub keep : Option RequestRow
  pub cancel : List RequestRow
  pub leave_manual : List RequestRow

-- `_rank_key`, as a comparison.
abbrev pub rank_le : RequestRow → RequestRow → Bool
rank_le a b =
    ltb (effective_rank a) (effective_rank b)
    || (effective_rank a == effective_rank b && leb a.id b.id)

abbrev pub is_booked : RequestRow → Bool
is_booked row = is_status row.status booked

abbrev pub keep_first : (RequestRow → Bool) → List RequestRow → CollapsePlan
keep_first owned [] = record { keep = none; cancel = []; leave_manual = [] }
keep_first owned (best ∷ rest) = record {
  keep = some best;
  cancel = select owned rest;
  leave_manual = select (λ r. not (owned r)) rest;
}

unfoldable pub plan_collapse : List RequestRow → (RequestRow → Bool) → CollapsePlan
plan_collapse group owned = keep_first owned (sort_by rank_le (select is_booked group))
