-- ===== src/Core/Models.antt =====
-- core/models.py: the shapes that flow between the engine's layers.
--
-- Identifiers are numbers, since the engine only compares them. Prices are in the currency's
-- smallest unit. The adapter's opaque `raw` and `diagnostics` fields are left out.
use tee_time_booker.Prelude.{
  none, some, true, false, ap, arith, ◌↔◌, true, ◌==◌, ◌≡◌, false, ℕ, Bool, List, Option,
}
use Prim.Native.String.{String}
use tee_time_booker.Core.Calendar.{DateTime}

-- A confirmation code or reservation id: a text that does not begin with the tag `TTB:`, behind
-- as many tags as it has. Every string is exactly one of these.
pub data Code : Type 0 where
  plain : ℕ → Code
  tagged : Code → Code

unfoldable pub same_code : Code → Code → Bool
same_code (plain a) (plain b) = a == b
same_code (plain a) (tagged d) = false
same_code (tagged c) (plain b) = false
same_code (tagged c) (tagged d) = same_code c d

pub same_code_iff : (a b : Code) → (same_code a b ≡ true) ↔ (a ≡ b)
unfolding same_code
same_code_iff (plain a) (plain b) = ground arith
same_code_iff (plain a) (tagged d) = ground arith
same_code_iff (tagged c) (plain b) = ground arith
same_code_iff (tagged c) (tagged d) =
    ((λ h. ap tagged ((same_code_iff c d).0 h)), (λ p. (same_code_iff c d).1 (cc)))

-- `code.removeprefix("TTB:")`
abbrev pub strip_tag : Code → Code
strip_tag (plain n) = plain n
strip_tag (tagged c) = c

-- `ExistingReservation.is_managed`
abbrev pub is_tagged : Code → Bool
is_tagged (plain n) = false
is_tagged (tagged c) = true

-- `a == b` on optional codes.
abbrev pub same_code? : Option Code → Option Code → Bool
same_code? none none = true
same_code? (some a) (some b) = same_code a b
same_code? _ _ = false

pub data BookingOutcome : Type 0 where
  booked no_inventory inventory_not_published price_rejected auth_failed : BookingOutcome
  captcha_blocked rate_limited already_booked dry_run error : BookingOutcome

pub record Player : Type 0 where
  pub first_name : String
  pub last_name : String
  pub email : String

pub record TimeWindow : Type 0 where
  pub earliest : ℕ
  pub latest : ℕ

pub record BookingRequest : Type 0 where
  pub request_id : ℕ
  pub target_dates : List ℕ
  pub time_windows : List TimeWindow
  pub players : List Player
  pub course_preferences : List ℕ
  pub holes : ℕ
  pub max_price_per_player : Option ℕ
  pub is_dry_run : Bool

pub record TeeTimeSlot : Type 0 where
  pub course_id : ℕ
  pub slot_id : ℕ
  pub tee_time : DateTime
  pub holes : ℕ
  pub available_spots : ℕ
  pub price_per_player : ℕ

pub record ExistingReservation : Type 0 where
  pub course_id : ℕ
  pub confirmation_code : Code
  pub tee_time : DateTime
  pub party_size : ℕ

pub record BookingResult : Type 0 where
  pub request_id : ℕ
  pub outcome : BookingOutcome
  pub course_id : Option ℕ
  pub slot : Option TeeTimeSlot
  pub confirmation_code : Option Code
  pub booked_at : Option ℕ
  pub attempts : ℕ
