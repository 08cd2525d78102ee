-- ===== src/Core/Orchestrator/DryRun.antt =====
-- A dry run books and cancels nothing.
use tee_time_booker.Prelude.{
  subst, sym, Result-cases, ◌≡◌, refl, ◌∙◌, inl, inr, Bool, true, false, not, ◌&&◌, ℕ, Option, none,
  some, List, [], ◌∷◌, elem, Result, ok, err, Bool-cases,
}
use tee_time_booker.Core.Models.{BookingRequest, TeeTimeSlot, ExistingReservation, BookingResult}
use tee_time_booker.Core.Slots.{rank_slots_for_request}
use tee_time_booker.Core.Orchestrator.{Trouble, Adapter, Scheduler, Run}
use tee_time_booker.Core.Orchestrator.Course.{
  after_guard, after_login, should_blind_post, poll_for_slots, list_and_match, book_ranked,
  search_and_book, unless_matched, run_course,
}

module _ {W : Type 0} (adapter : Adapter W) (scheduler : Scheduler) (prefetch_book : Bool)
    (has_creds : Bool) (is_registered : ℕ → Bool) (course_id : ℕ) (request : BookingRequest) where
  book_ranked_dry :
      (slots : List TeeTimeSlot) (s : Run W)
      → (book_ranked adapter scheduler prefetch_book has_creds is_registered course_id request true
          slots s).1.calls
        ≡ s.calls
  book_ranked_dry [] s = refl
  book_ranked_dry (best ∷ rest) s = refl

  search_and_book_dry :
      (s : Run W)
      → (search_and_book adapter scheduler prefetch_book has_creds is_registered course_id request
          true s).1.calls
        ≡ s.calls
  unfolding search_and_book
  search_and_book_dry s =
      elim (Result-cases
        (poll_for_slots adapter scheduler prefetch_book has_creds is_registered course_id request
          s.world).0) [
            | inl (slots, e) ↦
                rw (e, search_and_book) (book_ranked_dry (rank_slots_for_request slots request) _)
            | inr (t, e) ↦ rw (e, search_and_book) refl
          ]

  unless_matched_dry :
      (m : Result Trouble (Option ExistingReservation) × Run W)
      (next : Run W → Result Trouble BookingResult × Run W)
      → ((t : Run W) → (next t).1.calls ≡ t.calls)
      → (unless_matched adapter scheduler prefetch_book has_creds is_registered course_id request m
          next).1.calls
        ≡ m.1.calls
  unless_matched_dry (err e, s) next h = refl
  unless_matched_dry (ok (some r), s) next h = refl
  unless_matched_dry (ok none, s) next h = h s

  list_and_match_dry :
      (s : Run W)
      → (list_and_match adapter scheduler prefetch_book has_creds is_registered course_id request
          s).1.calls
        ≡ s.calls
  list_and_match_dry s = elim (Result-cases (adapter.list_reservations s.world).0) [
    | inl (existing, e) ↦ rw (e, list_and_match) refl
    | inr (t, e) ↦ rw (e, list_and_match) refl
  ]

  should_blind_post_dry :
      request.is_dry_run ≡ true
      → should_blind_post adapter scheduler prefetch_book has_creds is_registered course_id request
        ≡ false
  unfolding should_blind_post
  should_blind_post_dry dry = rw dry refl

  after_guard_dry :
      request.is_dry_run ≡ true
      → (s : Run W)
      → (after_guard adapter scheduler prefetch_book has_creds is_registered course_id request
          s).1.calls
        ≡ s.calls
  after_guard_dry dry s =
      rw (should_blind_post_dry dry, after_guard)
        (subst
          (λ b.
            (search_and_book adapter scheduler prefetch_book has_creds is_registered course_id
              request b s).1.calls
            ≡ s.calls)
          (sym dry) (search_and_book_dry s))

  after_login_dry :
      request.is_dry_run ≡ true
      → (answer : Result Trouble (Unit {0})) (s : Run W)
      → (after_login adapter scheduler prefetch_book has_creds is_registered course_id request
          answer s).1.calls
        ≡ s.calls
  after_login_dry dry (err e) s = refl
  after_login_dry dry (ok u) s =
      unless_matched_dry
        (list_and_match adapter scheduler prefetch_book has_creds is_registered course_id request s)
        (after_guard adapter scheduler prefetch_book has_creds is_registered course_id request)
        (after_guard_dry dry)
      ∙ list_and_match_dry s

  -- A dry run of a course makes no booking call and no cancel call, on every path: its log of
  -- calls is as it was.
  pub run_course_dry :
      request.is_dry_run ≡ true
      → (prewarmed : List ℕ) (s : Run W)
      → (run_course adapter scheduler prefetch_book has_creds is_registered course_id request
          prewarmed s).1.calls
        ≡ s.calls
  unfolding run_course
  run_course_dry dry prewarmed s = elim (Bool-cases (has_creds && not (elem course_id prewarmed))) [
    | inl e ↦
        rw (e, run_course)
          (after_login_dry dry (adapter.authenticate s.world).0
            (record s { world = (adapter.authenticate s.world).1 }))
    | inr e ↦ rw (e, run_course) (after_login_dry dry (ok tt) s)
  ]
