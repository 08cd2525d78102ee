-- ===== src/Core/Orchestrator.antt =====
-- core/orchestrator.py: one course's turn in a booking run, from the reservation check to the
-- booking, by search or by the blind burst.
--
-- The course adapter and the clock are parameters, as functions on a world of their own. The
-- engine's own state is that world and the log of what it booked and cancelled. The POSTs of a burst
-- run at once, so the adapter answers them together, in the order of their slots; their stagger and
-- the log lines are left out.
pub mod Booking
pub mod Extras
pub mod Cancels
pub mod Search
pub mod Course
pub mod DryRun
mod Examples
use tee_time_booker.Prelude.{
  ℕ, zero, suc, ◌+◌, ◌*◌, min, Bool, true, false, not, ◌&&◌, ◌||◌, Option, none, some, List, [],
  ◌∷◌, ◌++◌, map, length, take, elem, find, is_empty, leb, ◌==◌, if◌then◌else◌, Result, ok, err,
}
use tee_time_booker.Core.Models.{
  Code, BookingOutcome, BookingRequest, TeeTimeSlot, ExistingReservation, BookingResult,
}
use tee_time_booker.Core.Slots.{rank_slots_for_request}

-- The exceptions that the engine tells apart.
pub data Trouble : Type 0 where
  slot_gone other_error base_error : ℕ → Trouble
  not_published no_inventory course_skipped out_of_fuel : Trouble

pub record Adapter (W : Type 0) : Type 0 where
  pub authenticate : W → Result Trouble (Unit {0}) × W
  pub refresh_reservations : Option (W → Result Trouble (Unit {0}) × W)
  pub list_reservations : W → Result Trouble (List ExistingReservation) × W
  pub search : Bool → W → Result Trouble (List TeeTimeSlot) × W
  pub book : TeeTimeSlot → W → Result Trouble BookingResult × W
  pub burst : List TeeTimeSlot → W → List (Result Trouble BookingResult) × W
  pub cancel_reservation : Code → W → Result Trouble (Unit {0}) × W
  pub has_blind_post : Bool
  pub synthesize_blind_slots : ℕ → W → List TeeTimeSlot × W
  pub captcha_pool_size : W → ℕ
  pub now : W → ℕ
  pub sleep : ℕ → W → W

pub record Scheduler : Type 0 where
  pub max_poll_seconds : ℕ
  pub poll_interval_ms : ℕ
  pub blind_post_max_count : ℕ

pub data Call : Type 0 where
  booked_slot : ℕ → Call
  cancelled_code : Code → Call

pub record Run (W : Type 0) : Type 0 where
  pub world : W
  pub calls : List Call

-- The first reservation on a wanted date with the party's size.
unfoldable pub first_matching_reservation :
    List ExistingReservation → BookingRequest → Option ExistingReservation
first_matching_reservation reservations request =
    find (λ r. elem r.tee_time.day request.target_dates && r.party_size == length request.players)
      reservations

abbrev pub already_booked_result : BookingRequest → ℕ → ExistingReservation → ℕ → BookingResult
already_booked_result request course_id match at = record {
  request_id = request.request_id;
  outcome = BookingOutcome.already_booked;
  course_id = some course_id;
  slot = none;
  confirmation_code = some match.confirmation_code;
  booked_at = some at;
  attempts = 0;
}

abbrev pub has_slot_id : ℕ → BookingResult → Bool
has_slot_id id r = elim r.slot [ none ↦ false | some s ↦ s.slot_id == id ]

abbrev pub put_back :
    BookingResult
    → Option (BookingResult × List BookingResult)
    → Option (BookingResult × List BookingResult)
put_back r none = none
put_back r (some (b, others)) = some (b, r ∷ others)

-- The first result that passes, and the others.
abbrev pub take_out :
    (BookingResult → Bool) → List BookingResult → Option (BookingResult × List BookingResult)
take_out test [] = none
take_out test (r ∷ rest) =
    let later = take_out test rest in if test r then some (r, rest) else put_back r later

abbrev pub add_slot : Option TeeTimeSlot → List TeeTimeSlot → List TeeTimeSlot
add_slot none slots = slots
add_slot (some s) slots = s ∷ slots

abbrev pub slots_of : List BookingResult → List TeeTimeSlot
slots_of [] = []
slots_of (r ∷ rest) = add_slot r.slot (slots_of rest)

abbrev pub result_or :
    BookingResult × List BookingResult
    → Option (BookingResult × List BookingResult)
    → BookingResult × List BookingResult
result_or default none = default
result_or default (some found) = found

-- The best of the results `first ∷ rest`, and those to cancel.
unfoldable pub keep_best :
    BookingResult → List BookingResult → BookingRequest → BookingResult × List BookingResult
keep_best first rest request = elim (rank_slots_for_request (slots_of (first ∷ rest)) request) [
  | [] ↦ (first, rest)
  | best ∷ others ↦ result_or (first, rest) (take_out (has_slot_id best.slot_id) (first ∷ rest))
]

abbrev pub is_booked : BookingResult → Bool
is_booked r = elim r.outcome [ BookingOutcome.booked ↦ true | _ ↦ false ]

abbrev pub booked_of : List (Result Trouble BookingResult) → List BookingResult
booked_of [] = []
booked_of (ok r ∷ rest) = let later = booked_of rest in if is_booked r then r ∷ later else later
booked_of (err e ∷ rest) = booked_of rest

-- The last `BaseException` among the answers.
abbrev pub pending_base : List (Result Trouble BookingResult) → Option Trouble → Option Trouble
pending_base [] found = found
pending_base (err (base_error n) ∷ rest) found = pending_base rest (some (base_error n))
pending_base (answer ∷ rest) found = pending_base rest found

-- One turn of the search loop: what it returns on the search's answer, or `next`, the turns after a
-- sleep, while the deadline is not past.
abbrev pub search_turn :
    {W : Type 0}
    → Result Trouble (List TeeTimeSlot)
    → Bool
    → W
    → Result Trouble (List TeeTimeSlot) × W
    → Result Trouble (List TeeTimeSlot) × W
search_turn (err not_published) true after next = (ok [], after)
search_turn (err not_published) false after next = next
search_turn (err no_inventory) is_past after next = (ok [], after)
search_turn (ok []) true after next = (ok [], after)
search_turn (ok []) false after next = next
search_turn answer is_past after next = (answer, after)

-- What the book loop does with one answer: only a gone slot leads to `later`, the next candidates.
abbrev pub book_turn :
    {W : Type 0}
    → Result Trouble BookingResult
    → Run W
    → Result Trouble BookingResult × Run W
    → Result Trouble BookingResult × Run W
book_turn (err (slot_gone reason)) after later = later
book_turn answer after later = (answer, after)

-- What the loop over the extras does with a cancel's answer.
abbrev pub cancel_turn :
    {W : Type 0}
    → Result Trouble (Unit {0})
    → Run W
    → Result Trouble (Unit {0}) × Run W
    → Result Trouble (Unit {0}) × Run W
cancel_turn (err (base_error n)) after later = (err (base_error n), after)
cancel_turn _ after later = later

module _ {W : Type 0} (adapter : Adapter W) (scheduler : Scheduler) (prefetch_book : Bool) where
  -- One POST, noted in the log.
  abbrev pub book_one : TeeTimeSlot → Run W → Result Trouble BookingResult × Run W
  book_one slot s =
      let (answer, world) = adapter.book slot s.world in
      (answer, record { world = world; calls = s.calls ++ (booked_slot slot.slot_id ∷ []) })

  unfoldable pub book_from_candidates :
      List TeeTimeSlot → Run W → Result Trouble BookingResult × Run W
  book_from_candidates [] s = (err course_skipped, s)
  book_from_candidates (candidate ∷ rest) s =
      let later = book_from_candidates rest (book_one candidate s).1 in
      book_turn (book_one candidate s).0 (book_one candidate s).1 later

  -- One cancel, noted in the log.
  abbrev pub cancel_code : Code → Run W → Result Trouble (Unit {0}) × Run W
  cancel_code code s =
      let (answer, world) = adapter.cancel_reservation code s.world in
      (answer, record { world = world; calls = s.calls ++ (cancelled_code code ∷ []) })

  -- A cancel that raises is logged and passed over, but for a `BaseException`, which ends the loop.
  -- An extra without a code cannot be cancelled.
  unfoldable pub cancel_extras : List BookingResult → Run W → Result Trouble (Unit {0}) × Run W
  cancel_extras [] s = (ok tt, s)
  cancel_extras (r ∷ rest) s = elim r.confirmation_code [
    | none ↦ cancel_extras rest s
    | some code ↦
        let later = cancel_extras rest (cancel_code code s).1 in
        cancel_turn (cancel_code code s).0 (cancel_code code s).1 later
  ]

  -- The search loop, until `deadline`.
  unfoldable pub poll_until : ℕ → ℕ → W → Result Trouble (List TeeTimeSlot) × W
  poll_until zero deadline w = (err out_of_fuel, w)
  poll_until (suc fuel) deadline w =
      let (answer, after) = adapter.search prefetch_book w in
      let next =
        poll_until fuel deadline (adapter.sleep (scheduler.poll_interval_ms * 1000) after) in
      search_turn answer (leb deadline (adapter.now after)) after next
