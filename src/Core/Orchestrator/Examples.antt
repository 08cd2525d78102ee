-- ===== src/Core/Orchestrator/Examples.antt =====
-- A course on which the first slot is gone and the second can be booked, and the theorems at it.
use tee_time_booker.Prelude.{
  ℕ, ◌+◌, ◌*◌, ◌≡◌, refl, Bool, true, false, none, some, [], ◌∷◌, Result, ok, err, arith, ◌==◌, ◌≤◌,
}
use tee_time_booker.Core.Calendar.{hour_us, minute_us}
use tee_time_booker.Core.Models.{plain, BookingOutcome, BookingRequest, TeeTimeSlot, BookingResult}
use tee_time_booker.Core.Slots.{
  rank_slots_for_request, candidate_of, goes_before, midpoint_distance, window_from,
}
use tee_time_booker.Core.Orchestrator.{
  cancel_extras, Trouble, slot_gone, Adapter, Scheduler, Run, booked_slot, book_from_candidates,
  keep_best, slots_of,
}
use tee_time_booker.Core.Orchestrator.Cancels.{cancel_extras_calls, Cancelled}
use tee_time_booker.Core.Orchestrator.Booking.{Settles, book_from_candidates-Settles}
use tee_time_booker.Core.Orchestrator.Extras.{IsKept, keep_best_splits}
use tee_time_booker.Core.Orchestrator.Course.{poll_for_slots, run_course}
use tee_time_booker.Core.Orchestrator.Search.{Polled, poll_for_slots_ends}
use tee_time_booker.Core.Orchestrator.DryRun.{run_course_dry}

-- The world is the clock and the number of reservations that are held.
abbrev slot_at : ℕ → TeeTimeSlot
slot_at id = record {
  course_id = 1;
  slot_id = id;
  tee_time = record {
    wall = record { day = 740_000; time = 7 * hour_us + id * minute_us };
    instant = 0;
  };
  holes = 18;
  available_spots = 4;
  price_per_player = 5000;
}

abbrev request : BookingRequest
request = record {
  request_id = 1;
  target_dates = 740_000 ∷ [];
  time_windows = record { earliest = 7 * hour_us; latest = 8 * hour_us } ∷ [];
  players = [];
  course_preferences = 1 ∷ [];
  holes = 18;
  max_price_per_player = none;
  is_dry_run = true;
}

abbrev result_for : TeeTimeSlot → BookingResult
result_for slot = record {
  request_id = 1;
  outcome = BookingOutcome.booked;
  course_id = some 1;
  slot = some slot;
  confirmation_code = some (plain slot.slot_id);
  booked_at = none;
  attempts = 1;
}

-- Slot 1 is gone; any other is booked.
abbrev answer_for : Bool → TeeTimeSlot → ℕ × ℕ → Result Trouble BookingResult × (ℕ × ℕ)
answer_for true slot w = (err (slot_gone 0), w)
answer_for false slot w = (ok (result_for slot), (w.0, w.1 + 1))

-- The world is the clock and the number of reservations that are held.
abbrev course : Adapter (ℕ × ℕ)
course = record {
  authenticate = λ w. (ok tt, w);
  refresh_reservations = none;
  list_reservations = λ w. (ok [], w);
  search = λ skip w. (ok (slot_at 1 ∷ slot_at 2 ∷ []), w);
  book = λ slot w. answer_for (slot.slot_id == 1) slot w;
  burst = λ slots w. ([], w);
  cancel_reservation = λ code w. (ok tt, w);
  has_blind_post = false;
  synthesize_blind_slots = λ n w. ([], w);
  captcha_pool_size = λ w. 0;
  now = λ w. w.0;
  sleep = λ d w. (w.0 + d, w.1);
}

abbrev scheduler : Scheduler
scheduler = record { max_poll_seconds = 1; poll_interval_ms = 500; blind_post_max_count = 3 }

abbrev at_start : Run (ℕ × ℕ)
at_start = record { world = (0, 0); calls = [] }

books_second :
    book_from_candidates course scheduler false (slot_at 1 ∷ slot_at 2 ∷ slot_at 3 ∷ []) at_start
    ≡ (
      ok (result_for (slot_at 2)),
      record { world = (0, 1); calls = booked_slot 1 ∷ booked_slot 2 ∷ [] },
    )
unfolding book_from_candidates
books_second = refl

adds_one :
    (gone : Bool) (slot : TeeTimeSlot) (w : ℕ × ℕ) (r : BookingResult)
    → (answer_for gone slot w).0 ≡ ok r
    → (answer_for gone slot w).1.1 ≡ w.1 + 1
adds_one true slot w r h = absurd (cc h)
adds_one false slot w r h = refl

adds_none :
    (gone : Bool) (slot : TeeTimeSlot) (w : ℕ × ℕ) (reason : ℕ)
    → (answer_for gone slot w).0 ≡ err (slot_gone reason)
    → (answer_for gone slot w).1.1 ≡ w.1
adds_none true slot w reason h = refl
adds_none false slot w reason h = absurd (cc h)

book_from_candidates-Settles_example :
    Settles course scheduler false
      (λ w. w.1)
      (λ slot w r h. adds_one (slot.slot_id == 1) slot w r h)
      (λ slot w reason h. adds_none (slot.slot_id == 1) slot w reason h)
      (slot_at 1 ∷ slot_at 2 ∷ [])
      at_start
      (book_from_candidates course scheduler false (slot_at 1 ∷ slot_at 2 ∷ []) at_start)
book_from_candidates-Settles_example =
    book_from_candidates-Settles course scheduler false (λ w. w.1)
      (λ slot w r h. adds_one (slot.slot_id == 1) slot w r h)
      (λ slot w reason h. adds_none (slot.slot_id == 1) slot w reason h)
      (slot_at 1 ∷ slot_at 2 ∷ []) at_start

keep_best_splits_example :
    IsKept
      (result_for (slot_at 2))
      (result_for (slot_at 5) ∷ [])
      (rank_slots_for_request
        (slots_of (result_for (slot_at 2) ∷ result_for (slot_at 5) ∷ []))
        request)
      (keep_best (result_for (slot_at 2)) (result_for (slot_at 5) ∷ []) request)
keep_best_splits_example =
    keep_best_splits (result_for (slot_at 2)) (result_for (slot_at 5) ∷ []) request

-- Slot 5 is the closer one to 07:30.
keeps_closest :
    keep_best (result_for (slot_at 2)) (result_for (slot_at 5) ∷ []) request
    ≡ (result_for (slot_at 5), result_for (slot_at 2) ∷ [])
unfolding keep_best rank_slots_for_request candidate_of goes_before midpoint_distance window_from
keeps_closest = refl

poll_for_slots_ends_example :
    (n : ℕ) × Polled course scheduler false
      (course.now (0, 0) + scheduler.max_poll_seconds * 1_000_000)
      n
      (0, 0)
      (poll_for_slots course scheduler false true (λ id. true) 1 request (0, 0))
    × (n * (scheduler.poll_interval_ms * 1000)
        ≤ scheduler.max_poll_seconds * 1_000_000 + 2 * (scheduler.poll_interval_ms * 1000))
poll_for_slots_ends_example =
    poll_for_slots_ends course scheduler false (λ w. omega arith) (λ d w. omega arith) (omega arith)
      true (λ id. true) 1 request (0, 0)

run_course_dry_example :
    (run_course course scheduler false true (λ id. true) 1 request [] at_start).1.calls ≡ []
run_course_dry_example =
    run_course_dry course scheduler false true (λ id. true) 1 request refl [] at_start

cancel_extras_calls_example : Cancelled (plain 2 ∷ plain 3 ∷ []) [] (
    cancel_extras course scheduler false
      (result_for (slot_at 2) ∷ result_for (slot_at 3) ∷ [])
      at_start)
cancel_extras_calls_example =
    cancel_extras_calls course scheduler false
      (result_for (slot_at 2) ∷ result_for (slot_at 3) ∷ []) at_start
