-- ===== src/Core/Orchestrator/Course.antt =====
-- `_run_course` and `_blind_post_course`, over the parts of the parent module.
use tee_time_booker.Prelude.{
  ℕ, suc, ◌+◌, ◌*◌, min, Bool, true, false, not, ◌&&◌, ◌||◌, Option, none, some, List, [], ◌∷◌,
  ◌++◌, map, length, take, elem, find, leb, ◌==◌, if◌then◌else◌, Result, ok, err,
}
use tee_time_booker.Core.Models.{
  BookingOutcome, BookingRequest, TeeTimeSlot, ExistingReservation, BookingResult,
}
use tee_time_booker.Core.Slots.{rank_slots_for_request}
use tee_time_booker.Core.Orchestrator.{
  Trouble, base_error, course_skipped, Adapter, Scheduler, booked_slot, Run,
  first_matching_reservation, already_booked_result, keep_best, booked_of, pending_base,
  book_from_candidates, cancel_extras, poll_until,
}

-- What a re-guard raises where its forced login raised: only a `BaseException` passes through.
abbrev pub skipped_unless_base : Trouble → Trouble
skipped_unless_base (base_error n) = base_error n
skipped_unless_base _ = course_skipped

abbrev pub dry_run_result : BookingRequest → ℕ → TeeTimeSlot → BookingResult
dry_run_result request course_id slot = record {
  request_id = request.request_id;
  outcome = BookingOutcome.dry_run;
  course_id = some course_id;
  slot = some slot;
  confirmation_code = none;
  booked_at = none;
  attempts = 1;
}

-- The first preferred course with a registered adapter.
unfoldable pub primary_course : (ℕ → Bool) → BookingRequest → Option ℕ
primary_course is_registered request = find is_registered request.course_preferences

module _ {W : Type 0} (adapter : Adapter W) (scheduler : Scheduler) (prefetch_book : Bool)
    (has_creds : Bool) (is_registered : ℕ → Bool) (course_id : ℕ) (request : BookingRequest) where
  unfoldable pub should_blind_post : Bool
  should_blind_post =
      if request.is_dry_run || not prefetch_book
      then false
      else if leb scheduler.blind_post_max_count 0
      then false
      else if not adapter.has_blind_post
      then false
      else elim (primary_course is_registered request) [ none ↦ false | some id ↦ id == course_id ]

  -- The deadline is taken first. Each further search is a poll interval later, so one turn for each
  -- millisecond and two more are enough where the interval is not 0.
  unfoldable pub poll_for_slots : W → Result Trouble (List TeeTimeSlot) × W
  poll_for_slots w =
      poll_until adapter scheduler prefetch_book (suc (suc (scheduler.max_poll_seconds * 1000)))
        (adapter.now w + scheduler.max_poll_seconds * 1_000_000) w

  abbrev pub login : W → Result Trouble (Unit {0}) × W
  login w = elim adapter.refresh_reservations [
    | none ↦ adapter.authenticate w
    | some refresh ↦ refresh w
  ]

  abbrev pub list_and_match : Run W → Result Trouble (Option ExistingReservation) × Run W
  list_and_match s =
      let (answer, world) = adapter.list_reservations s.world in
      elim answer [
        | err e ↦ (err e, record s { world = world })
        | ok existing ↦
            (ok (first_matching_reservation existing request), record s { world = world })
      ]

  unfoldable pub reguard_before_fallback :
      Run W → Result Trouble (Option ExistingReservation) × Run W
  reguard_before_fallback s = elim has_creds [
    | false ↦ list_and_match s
    | true ↦ elim (login s.world).0 [
      | err e ↦ (err (skipped_unless_base e), record s { world = (login s.world).1 })
      | ok u ↦ list_and_match (record s { world = (login s.world).1 })
    ]
  ]

  -- The end of both paths: search, rank, and book one after the other; a dry run books nothing.
  abbrev pub book_ranked : Bool → List TeeTimeSlot → Run W → Result Trouble BookingResult × Run W
  book_ranked is_dry_run [] s = (err course_skipped, s)
  book_ranked true (best ∷ rest) s = (ok (dry_run_result request course_id best), s)
  book_ranked false (best ∷ rest) s =
      book_from_candidates adapter scheduler prefetch_book (best ∷ rest) s

  unfoldable pub search_and_book : Bool → Run W → Result Trouble BookingResult × Run W
  search_and_book is_dry_run s =
      let (answer, world) = poll_for_slots s.world in
      elim answer [
        | err e ↦ (err e, record s { world = world })
        | ok slots ↦
            book_ranked is_dry_run (rank_slots_for_request slots request)
              (record s { world = world })
      ]

  -- A matching reservation ends the course; otherwise `next` goes on.
  abbrev pub unless_matched :
      Result Trouble (Option ExistingReservation) × Run W
      → (Run W → Result Trouble BookingResult × Run W)
      → Result Trouble BookingResult × Run W
  unless_matched (err e, s) next = (err e, s)
  unless_matched (ok (some match), s) next =
      (ok (already_booked_result request course_id match (adapter.now s.world)), s)
  unless_matched (ok none, s) next = next s

  -- The slots that a burst fires: as many as there are pooled tokens, the best first.
  abbrev pub fired_slots : W → List TeeTimeSlot × W
  fired_slots w =
      let (slots, after) = adapter.synthesize_blind_slots scheduler.blind_post_max_count w in
      (
        rank_slots_for_request (take (min (length slots) (adapter.captcha_pool_size after)) slots)
            request,
        after,
      )

  -- The burst, with its POSTs in the log.
  abbrev pub fire_burst : Run W → List (Result Trouble BookingResult) × Run W
  fire_burst s =
      let (fire, after) = fired_slots s.world in
      let (answers, world) = adapter.burst fire after in
      (
        answers,
        record { world = world; calls = s.calls ++ map (λ slot. booked_slot slot.slot_id) fire },
      )

  abbrev pub with_best :
      BookingResult → Result Trouble (Unit {0}) × Run W → Result Trouble BookingResult × Run W
  with_best best (ok _, s) = (ok best, s)
  with_best best (err e, s) = (err e, s)

  abbrev pub settle_burst :
      List BookingResult → Option Trouble → Run W → Result Trouble BookingResult × Run W
  settle_burst (first ∷ rest) pending s =
      let (best, extras) = keep_best first rest request in
      with_best best (cancel_extras adapter scheduler prefetch_book extras s)
  settle_burst [] (some e) s = (err e, s)
  settle_burst [] none s = unless_matched (reguard_before_fallback s) (search_and_book false)

  unfoldable pub blind_post_course : Run W → Result Trouble BookingResult × Run W
  blind_post_course s =
      let (answers, after) = fire_burst s in
      settle_burst (booked_of answers) (pending_base answers none) after

  -- The course after its reservation check.
  abbrev pub after_guard : Run W → Result Trouble BookingResult × Run W
  after_guard s = elim should_blind_post [
    | true ↦ blind_post_course s
    | false ↦ search_and_book request.is_dry_run s
  ]

  -- The course after its login, whose error it passes on.
  abbrev pub after_login : Result Trouble (Unit {0}) → Run W → Result Trouble BookingResult × Run W
  after_login (err e) s = (err e, s)
  after_login (ok u) s = unless_matched (list_and_match s) after_guard

  unfoldable pub run_course : List ℕ → Run W → Result Trouble BookingResult × Run W
  run_course prewarmed s = elim (has_creds && not (elem course_id prewarmed)) [
    | true ↦
        let (answer, world) = adapter.authenticate s.world in
        after_login answer (record s { world = world })
    | false ↦ after_login (ok tt) s
  ]
