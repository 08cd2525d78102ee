-- ===== src/Tenant/Store/Equality.antt =====
-- `stored != old` on rows: the field by field comparison of a dataclass.
use tee_time_booker.Prelude.{
  ◌+◌, ℕ, Bool, true, false, ◌&&◌, ◌≡◌, refl, Option, none, some, List, [], ◌∷◌, same_option, ◌==◌,
  ==_iff, arith,
}
use tee_time_booker.Core.Models.{same_code?}
use tee_time_booker.Core.Policy.{BookingCutoffConfig}
use tee_time_booker.Tenant.Rows.{
  RankedWindow, RequestRow, RowStatus, RowSource, explicit, rule, Reason, rule_weekday_changed,
  rule_deactivated, rule_deleted, user_withdrawn, by_user, external, already_gone, group_downgrade,
  past_cutoff, date_passed, other_reason, is_status,
}
use tee_time_booker.Tenant.Semantics.Outcomes.{same_flag}

abbrev reason_index : Reason → ℕ
reason_index rule_weekday_changed = 0
reason_index rule_deactivated = 1
reason_index rule_deleted = 2
reason_index user_withdrawn = 3
reason_index by_user = 4
reason_index external = 5
reason_index already_gone = 6
reason_index group_downgrade = 7
reason_index past_cutoff = 8
reason_index date_passed = 9
reason_index (other_reason n) = 10 + n

abbrev same_by : {A : Type 0} → (A → A → Bool) → Option A → Option A → Bool
same_by same none none = true
same_by same (some a) (some b) = same a b
same_by same _ _ = false

abbrev same_source : RowSource → RowSource → Bool
same_source explicit explicit = true
same_source rule rule = true
same_source _ _ = false

abbrev same_options : List RankedWindow → List RankedWindow → Bool
same_options [] [] = true
same_options (a ∷ rest) (b ∷ others) =
    (a.rank == b.rank && (a.earliest == b.earliest && a.latest == b.latest))
    && same_options rest others
same_options _ _ = false

abbrev same_cutoff : BookingCutoffConfig → BookingCutoffConfig → Bool
same_cutoff a b = a.days_before == b.days_before && a.time_of_day == b.time_of_day

-- The fields that no theorem asks about.
abbrev same_details : RequestRow → RequestRow → Bool
same_details a b =
    a.course_id == b.course_id
    && (a.timezone.name == b.timezone.name
        && (same_options a.options b.options
            && (a.party_size == b.party_size
                && (a.cutoff_at == b.cutoff_at
                    && (a.request_id == b.request_id
                        && (same_option a.rule_id b.rule_id
                            && (same_by (λ x y. reason_index x == reason_index y) a.status_reason
                                  b.status_reason
                                && (same_option a.booked_tee_time b.booked_tee_time
                                    && (same_code? a.booked_confirmation b.booked_confirmation
                                        && (same_code? a.booked_raw_id b.booked_raw_id
                                            && (same_option a.booked_at b.booked_at
                                                && (same_flag a.needs_reconcile b.needs_reconcile
                                                    && (same_option a.upgrade_started_at
                                                          b.upgrade_started_at
                                                        && (same_by same_cutoff a.booking_cutoff
                                                            b.booking_cutoff
                                                            && (same_by is_status a.superseded_from
                                                            b.superseded_from
                                                            && (same_option a.lease_owner
                                                            b.lease_owner
                                                            && (same_option a.lease_expires_at
                                                            b.lease_expires_at
                                                            && (same_option a.last_outcome
                                                            b.last_outcome
                                                            && (same_option a.last_outcome_at
                                                            b.last_outcome_at
                                                            && (same_option a.group_id b.group_id
                                                            && (same_option a.group_rank
                                                            b.group_rank
                                                            && same_option a.max_price
                                                            b.max_price)))))))))))))))))))))

unfoldable pub same_row : RequestRow → RequestRow → Bool
same_row a b =
    a.id == b.id
    && (a.course_account_id == b.course_account_id
        && (a.target_date == b.target_date
            && (is_status a.status b.status
                && (same_source a.source b.source
                    && (a.version == b.version && same_details a b)))))

-- What the transactions rely on of a row that is unchanged since it was read.
pub record SameCore (a b : RequestRow) : Type 0 where
  pub same_id : a.id ≡ b.id
  pub same_account : a.course_account_id ≡ b.course_account_id
  pub same_date : a.target_date ≡ b.target_date
  pub same_status : a.status ≡ b.status
  pub same_origin : a.source ≡ b.source
  pub same_version : a.version ≡ b.version

six_parts :
    (a b c d e f g : Bool)
    → (a && (b && (c && (d && (e && (f && g)))))) ≡ true
    → (a ≡ true) × (b ≡ true) × (c ≡ true) × (d ≡ true) × (e ≡ true) × (f ≡ true)
six_parts a b c d e f g h = ground (arith, h)

is_status→eq : (a b : RowStatus) → is_status a b ≡ true → a ≡ b
is_status→eq a b h = ground (arith, h)

same_source→eq : (a b : RowSource) → same_source a b ≡ true → a ≡ b
same_source→eq explicit explicit h = refl
same_source→eq rule rule h = refl
same_source→eq explicit rule h = cc
same_source→eq rule explicit h = cc

pub same_row-SameCore : (a b : RequestRow) → same_row a b ≡ true → SameCore a b
unfolding same_row
same_row-SameCore a b h =
    let (i, c, d, s, o, v) =
      six_parts (a.id == b.id) (a.course_account_id == b.course_account_id)
        (a.target_date == b.target_date) (is_status a.status b.status)
        (same_source a.source b.source) (a.version == b.version) (same_details a b) h in
    record {
      same_id = (==_iff a.id b.id).0 i;
      same_account = (==_iff a.course_account_id b.course_account_id).0 c;
      same_date = (==_iff a.target_date b.target_date).0 d;
      same_status = is_status→eq a.status b.status s;
      same_origin = same_source→eq a.source b.source o;
      same_version = (==_iff a.version b.version).0 v;
    }
