-- ===== src/Core/Slots.antt =====
-- core/slot_utils.py: which slots match a request, and in which order they are tried.
--
-- A distance is counted in half seconds, twice the seconds between the slot and the window's
-- midpoint, where the code has a float of minutes: 120 half seconds are its 1.0. Both are exact for
-- times of whole minutes, those of a tee sheet; how the floats round a time with seconds is left
-- out.
pub mod Windows
pub mod Ranking
pub mod Ranked
mod Examples
use tee_time_booker.Prelude.{
  ℕ, suc, ◌+◌, ◌-◌, ◌*◌, Bool, true, false, not, ◌&&◌, Option, none, some, List, [], ◌∷◌, map,
  length, sort_by, ltb, leb, ◌==◌, if◌then◌else◌,
}
use tee_time_booker.Core.Calendar.{hour, minute, second, wall_us}
use tee_time_booker.Core.Models.{TimeWindow, TeeTimeSlot, BookingRequest}

abbrev pub contains : TimeWindow → ℕ → Bool
contains w t = leb w.earliest t && leb t w.latest

-- The first window that contains the time, with its index counted from `index`.
unfoldable pub window_from : ℕ → List TimeWindow → ℕ → Option (ℕ × TimeWindow)
window_from index [] t = none
window_from index (w ∷ rest) t =
    let later = window_from (suc index) rest t in if contains w t then some (index, w) else later

abbrev pub matching_window : TeeTimeSlot → BookingRequest → Option (ℕ × TimeWindow)
matching_window slot request = window_from 0 request.time_windows slot.tee_time.time

-- `_time_to_minutes`, in seconds.
abbrev pub seconds_of : ℕ → ℕ
seconds_of t = hour t * 3600 + minute t * 60 + second t

abbrev pub distance : ℕ → ℕ → ℕ
distance a b = (a - b) + (b - a)

unfoldable pub midpoint_distance : TeeTimeSlot → TimeWindow → ℕ
midpoint_distance slot window =
    distance (2 * seconds_of slot.tee_time.time)
      (seconds_of window.earliest + seconds_of window.latest)

pub record Candidate : Type 0 where
  pub slot : TeeTimeSlot
  pub index : ℕ
  pub window : TimeWindow

abbrev pub within_cap : Option ℕ → ℕ → Bool
within_cap none price = true
within_cap (some cap) price = not (ltb cap price)

-- The guards before the window: seats, holes and price.
abbrev pub is_wanted : BookingRequest → TeeTimeSlot → Bool
is_wanted request s =
    not (ltb s.available_spots (length request.players))
    && ((if request.holes == s.holes then true else request.holes == 0)
        && within_cap request.max_price_per_player s.price_per_player)

unfoldable pub candidate_of : BookingRequest → TeeTimeSlot → Option Candidate
candidate_of request s =
    if is_wanted request s
    then elim (matching_window s request) [
      | none ↦ none
      | some (index, window) ↦ some (record { slot = s; index = index; window = window })
    ]
    else none

abbrev pub add_candidate : Option Candidate → List Candidate → List Candidate
add_candidate none later = later
add_candidate (some c) later = c ∷ later

abbrev pub candidates : BookingRequest → List TeeTimeSlot → List Candidate
candidates request [] = []
candidates request (s ∷ rest) = add_candidate (candidate_of request s) (candidates request rest)

-- `(index, distance, tee_time)` of two candidates, compared as tuples.
abbrev pub lex : ℕ → ℕ → Bool → Bool
lex a b rest = if ltb a b then true else if ltb b a then false else rest

unfoldable pub goes_before : Candidate → Candidate → Bool
goes_before a b = lex a.index b.index (
    lex (midpoint_distance a.slot a.window) (midpoint_distance b.slot b.window)
      (leb (wall_us a.slot.tee_time.wall) (wall_us b.slot.tee_time.wall)))

unfoldable pub rank_slots_for_request : List TeeTimeSlot → BookingRequest → List TeeTimeSlot
rank_slots_for_request slots request =
    map (λ c. c.slot) (sort_by goes_before (candidates request slots))
