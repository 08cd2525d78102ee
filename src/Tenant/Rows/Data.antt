-- ===== src/Tenant/Rows/Data.antt =====
-- The enums and records of tenant/models.py.
use tee_time_booker.Prelude.{ℕ, Bool, true, false, Option, List, [], ◌∷◌, ◌==◌, ◌&&◌, ltb, leb}
use tee_time_booker.Core.Calendar.{Zone}
use tee_time_booker.Core.Models.{Code}
use tee_time_booker.Core.Policy.{BookingCutoffConfig}

pub data RowStatus : Type 0 where
  pending booked skipped superseded withdrawn cancelled lost : RowStatus

pub data RowSource : Type 0 where
  explicit rule : RowSource

pub data Actor : Type 0 where
  web materializer booking_runner watcher : Actor

pub data Reason : Type 0 where
  rule_weekday_changed rule_deactivated rule_deleted : Reason
  user_withdrawn by_user external already_gone group_downgrade : Reason
  past_cutoff date_passed : Reason
  other_reason : ℕ → Reason

pub record RankedWindow : Type 0 where
  pub rank : ℕ
  pub earliest : ℕ
  pub latest : ℕ

-- The check of `validate_options`, from the rank before: at least one option, ranks from 1 in
-- ascending order, and no window that ends before it starts. The rows and rules here are those whose
-- construction passed it; the operations copy the options that they are given.
abbrev pub are_ascending : ℕ → List RankedWindow → Bool
are_ascending previous [] = true
are_ascending previous (o ∷ os) =
    let later = are_ascending o.rank os in ltb previous o.rank && (leb o.earliest o.latest && later)

abbrev pub validate_options : List RankedWindow → Bool
validate_options [] = false
validate_options options = are_ascending 0 options

pub record StandingRule : Type 0 where
  pub id : ℕ
  pub course_account_id : ℕ
  pub weekday_index : ℕ
  pub options : List RankedWindow
  pub party_size : ℕ
  pub active : Bool
  pub materialized_through : Option ℕ
  pub version : ℕ
  pub max_price : Option ℕ
  pub group_id : Option ℕ
  pub group_rank : Option ℕ
  pub booking_cutoff : Option BookingCutoffConfig

pub record RequestRow : Type 0 where
  pub id : ℕ
  pub course_account_id : ℕ
  pub course_id : ℕ
  pub target_date : ℕ
  pub timezone : Zone
  pub options : List RankedWindow
  pub party_size : ℕ
  pub status : RowStatus
  pub source : RowSource
  pub cutoff_at : ℕ
  pub request_id : ℕ
  pub version : ℕ
  pub rule_id : Option ℕ
  pub status_reason : Option Reason
  pub booked_tee_time : Option ℕ
  pub booked_confirmation : Option Code
  pub booked_raw_id : Option Code
  pub booked_at : Option ℕ
  pub needs_reconcile : Bool
  pub upgrade_started_at : Option ℕ
  pub booking_cutoff : Option BookingCutoffConfig
  pub superseded_from : Option RowStatus
  pub lease_owner : Option ℕ
  pub lease_expires_at : Option ℕ
  pub last_outcome : Option ℕ
  pub last_outcome_at : Option ℕ
  pub group_id : Option ℕ
  pub group_rank : Option ℕ
  pub max_price : Option ℕ

pub data BookingState : Type 0 where
  held held_extra cancelled_extra cancelled_user cancelled_upgrade cancelled_group vanished :
      BookingState

-- The ledger entry of a reservation that the system made. Its `source` is left out.
pub record OwnedBooking : Type 0 where
  pub id : ℕ
  pub row_id : ℕ
  pub course_account_id : ℕ
  pub course_id : ℕ
  pub target_date : ℕ
  pub raw_reservation_id : Code
  pub tee_time : ℕ
  pub party_size : ℕ
  pub state : BookingState

abbrev status_index : RowStatus → ℕ
status_index pending = 0
status_index booked = 1
status_index skipped = 2
status_index superseded = 3
status_index withdrawn = 4
status_index cancelled = 5
status_index lost = 6

abbrev actor_index : Actor → ℕ
actor_index web = 0
actor_index materializer = 1
actor_index booking_runner = 2
actor_index watcher = 3

-- `a is b` on statuses and on actors.
abbrev pub is_status : RowStatus → RowStatus → Bool
is_status a b = status_index a == status_index b

abbrev pub is_actor : Actor → Actor → Bool
is_actor a b = actor_index a == actor_index b
