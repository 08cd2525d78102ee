-- ===== src/Core/Slots/Examples.antt =====
-- Four slots ranked for a request with two windows, and the theorems at them.
use tee_time_booker.Prelude.{
  ℕ, ◌*◌, ◌≡◌, ◌↔◌, refl, false, some, List, [], ◌∷◌, map, Member, All→Member,
}
use tee_time_booker.Core.Calendar.{hour_us, minute_us}
use tee_time_booker.Core.Models.{TeeTimeSlot, BookingRequest}
use tee_time_booker.Core.Slots.{
  Candidate, candidate_of, goes_before, midpoint_distance, rank_slots_for_request, window_from,
}
use tee_time_booker.Core.Slots.Ranking.{Matches, StandsFor}
use tee_time_booker.Core.Slots.Ranked.{
  IsRanked, ranked_exact, rank_slots_for_request-IsRanked, IsWholeMinute,
}

abbrev slot_at : ℕ → ℕ → ℕ → TeeTimeSlot
slot_at id minutes price = record {
  course_id = 1;
  slot_id = id;
  tee_time = record { wall = record { day = 740_000; time = minutes * minute_us }; instant = 0 };
  holes = 18;
  available_spots = 4;
  price_per_player = price;
}

-- 07:00 to 08:00 first, then 09:00 to 10:00, at most 60.00 each.
abbrev request : BookingRequest
request = record {
  request_id = 1;
  target_dates = 740_000 ∷ [];
  time_windows =
      record { earliest = 7 * hour_us; latest = 8 * hour_us }
      ∷ record { earliest = 9 * hour_us; latest = 10 * hour_us }
      ∷ [];
  players = [];
  course_preferences = 1 ∷ [];
  holes = 18;
  max_price_per_player = some 6000;
  is_dry_run = false;
}

abbrev slots : List TeeTimeSlot
slots =
    slot_at 1 570 5000
    ∷ slot_at 2 425 5000
    ∷ slot_at 3 452 5000
    ∷ slot_at 4 450 9000
    ∷ slot_at 5 500 5000
    ∷ []

-- Slot 4 is too dear, and slot 5 lies between the windows.
ranks : map (λ s. s.slot_id) (rank_slots_for_request slots request) ≡ 3 ∷ 2 ∷ 1 ∷ []
unfolding rank_slots_for_request candidate_of goes_before midpoint_distance window_from
ranks = refl

ranked_exact_example :
    Member (slot_at 2 425 5000) (rank_slots_for_request slots request)
    ↔ (Member (slot_at 2 425 5000) slots × Matches request (slot_at 2 425 5000))
ranked_exact_example = ranked_exact slots request (slot_at 2 425 5000)

rank_slots_for_request-IsRanked_example :
    (cs : List Candidate) × (rank_slots_for_request slots request ≡ map (λ c. c.slot) cs)
    × ((c : Candidate) → Member c cs → StandsFor request slots c)
    × IsRanked cs
rank_slots_for_request-IsRanked_example =
    rank_slots_for_request-IsRanked slots request
      (λ s m.
        All→Member (λ s. IsWholeMinute s.tee_time.time) s slots
          (refl, (refl, (refl, (refl, (refl, tt))))) m)
      (λ w m.
        All→Member (λ w. IsWholeMinute w.earliest × IsWholeMinute w.latest) w request.time_windows
          ((refl, refl), ((refl, refl), tt)) m)
