-- ===== src/Core/Orchestrator/Search.antt =====
-- What the search loop returns, and after how many searches.
use tee_time_booker.Prelude.{
  ℕ, zero, suc, ◌+◌, ◌*◌, ◌≤◌, ◌≡◌, ◌≢◌, refl, Bool, true, false, List, [], ◌∷◌, Result, ok, err,
  leb, arith, ◌<◌, ◌⊎◌, ◌-◌, inl, inr, Bool-cases,
}
use tee_time_booker.Core.Models.{TeeTimeSlot, BookingRequest}
use tee_time_booker.Core.Orchestrator.{
  Trouble, slot_gone, other_error, base_error, not_published, no_inventory, course_skipped,
  out_of_fuel, Adapter, Scheduler, search_turn, poll_until,
}
use tee_time_booker.Core.Orchestrator.Course.{poll_for_slots}

-- The search listed nothing yet: no slots, or an inventory that is not published.
abbrev pub IsEmptyAnswer : Result Trouble (List TeeTimeSlot) → Type 0
IsEmptyAnswer answer = (answer ≡ ok []) ⊎ (answer ≡ err not_published)

module _ {W : Type 0} (adapter : Adapter W) (scheduler : Scheduler) (prefetch_book : Bool) where
  abbrev pub searched : W → Result Trouble (List TeeTimeSlot) × W
  searched w = adapter.search prefetch_book w

  -- The sleep between two searches, in microseconds.
  abbrev pub pause : ℕ
  pause = scheduler.poll_interval_ms * 1000

  -- What a run of so many searches against a deadline returns.
  pub data Polled (deadline : ℕ) : ℕ → W → Result Trouble (List TeeTimeSlot) × W → Type 0 where
    finds :
        {w : W} {slot : TeeTimeSlot} {slots : List TeeTimeSlot}
        → (searched w).0 ≡ ok (slot ∷ slots)
        → Polled deadline 1 w (ok (slot ∷ slots), (searched w).1)
    finds_none :
        {w : W} → (searched w).0 ≡ err no_inventory → Polled deadline 1 w (ok [], (searched w).1)
    gives_up :
        {w : W}
        → IsEmptyAnswer (searched w).0
        → deadline ≤ adapter.now (searched w).1
        → Polled deadline 1 w (ok [], (searched w).1)
    raises :
        {w : W} {e : Trouble}
        → (searched w).0 ≡ err e
        → e ≢ not_published
        → e ≢ no_inventory
        → Polled deadline 1 w (err e, (searched w).1)
    polls_again :
        {w : W} {n : ℕ} {r : Result Trouble (List TeeTimeSlot) × W}
        → IsEmptyAnswer (searched w).0
        → adapter.now (searched w).1 < deadline
        → Polled deadline n (adapter.sleep pause (searched w).1) r
        → Polled deadline (suc n) w r

module _ {W : Type 0} (adapter : Adapter W) (scheduler : Scheduler) (prefetch_book : Bool)
    (search_takes_time : (w : W) → adapter.now w ≤ adapter.now (adapter.search prefetch_book w).1)
    (sleep_takes_time : (d : ℕ) (w : W) → adapter.now w + d ≤ adapter.now (adapter.sleep d w))
    (interval_positive : 1 ≤ scheduler.poll_interval_ms) where
  abbrev look : W → Result Trouble (List TeeTimeSlot) × W
  look w = adapter.search prefetch_book w

  abbrev gap : ℕ
  gap = scheduler.poll_interval_ms * 1000

  abbrev next_turn : W → W
  next_turn w = adapter.sleep gap (look w).1

  later_turn : (w : W) → adapter.now (look w).1 + gap ≤ adapter.now (next_turn w)
  later_turn w = sleep_takes_time gap (look w).1

  -- A run of searches, with a bound on their number; past the deadline there is one.
  record Ends (deadline : ℕ) (w : W) (r : Result Trouble (List TeeTimeSlot) × W) : Type 0 where
    searches : ℕ
    polled : Polled adapter scheduler prefetch_book deadline searches w r
    late : deadline ≤ adapter.now w → searches ≡ 1
    few : searches * gap ≤ (deadline - adapter.now w) + 2 * gap

  one_search :
      (deadline : ℕ) (w : W) {r : Result Trouble (List TeeTimeSlot) × W}
      → Polled adapter scheduler prefetch_book deadline 1 w r
      → Ends deadline w r
  one_search deadline w p = record { searches = 1; polled = p; late = λ _. refl; few = omega arith }

  one_more :
      (deadline : ℕ) (w : W) {r : Result Trouble (List TeeTimeSlot) × W}
      → IsEmptyAnswer (look w).0
      → adapter.now (look w).1 < deadline
      → Ends deadline (next_turn w) r
      → Ends deadline w r
  one_more deadline w empty early rest = record {
    searches = suc rest.searches;
    polled = polls_again empty early rest.polled;
    late = λ h. absurd (omega (arith, h, early, search_takes_time w));
    few =
        counted rest.searches gap (adapter.now w) (adapter.now (look w).1)
          (adapter.now (next_turn w)) (search_takes_time w) (later_turn w) early rest.late rest.few;
  }
    where
      counted :
          (n step start after again : ℕ)
          → start ≤ after
          → after + step ≤ again
          → after < deadline
          → (deadline ≤ again → n ≡ 1)
          → n * step ≤ (deadline - again) + 2 * step
          → suc n * step ≤ (deadline - start) + 2 * step
      counted n step start after again a b c one few = elim (Bool-cases (leb deadline again)) [
        | inl e ↦ rw (one (ground (arith, e))) (omega arith)
        | inr e ↦
            let ahead : again < deadline = ground (arith, e) in omega (arith, a, b, ahead, few)
      ]

  turn-Ends :
      (deadline : ℕ) (w : W) (answer : Result Trouble (List TeeTimeSlot)) (is_past : Bool)
      (next : Result Trouble (List TeeTimeSlot) × W)
      → (look w).0 ≡ answer
      → leb deadline (adapter.now (look w).1) ≡ is_past
      → (is_past ≡ false → Ends deadline (next_turn w) next)
      → Ends deadline w (search_turn answer is_past (look w).1 next)
  turn-Ends deadline w (err not_published) true next e past k =
      one_search deadline w (gives_up (inr e) (ground (arith, past)))
  turn-Ends deadline w (err not_published) false next e past k =
      one_more deadline w (inr e) (ground (arith, past)) (k refl)
  turn-Ends deadline w (err no_inventory) is_past next e past k =
      one_search deadline w (finds_none e)
  turn-Ends deadline w (ok []) true next e past k =
      one_search deadline w (gives_up (inl e) (ground (arith, past)))
  turn-Ends deadline w (ok []) false next e past k =
      one_more deadline w (inl e) (ground (arith, past)) (k refl)
  turn-Ends deadline w (ok (slot ∷ slots)) is_past next e past k = one_search deadline w (finds e)
  turn-Ends deadline w (err (slot_gone n)) is_past next e past k =
      one_search deadline w (raises e (λ p. cc p) (λ p. cc p))
  turn-Ends deadline w (err (other_error n)) is_past next e past k =
      one_search deadline w (raises e (λ p. cc p) (λ p. cc p))
  turn-Ends deadline w (err (base_error n)) is_past next e past k =
      one_search deadline w (raises e (λ p. cc p) (λ p. cc p))
  turn-Ends deadline w (err course_skipped) is_past next e past k =
      one_search deadline w (raises e (λ p. cc p) (λ p. cc p))
  turn-Ends deadline w (err out_of_fuel) is_past next e past k =
      one_search deadline w (raises e (λ p. cc p) (λ p. cc p))

  poll_until-Ends :
      (fuel deadline : ℕ) (w : W)
      → deadline ≤ adapter.now w + fuel * 1000
      → Ends deadline w (poll_until adapter scheduler prefetch_book (suc fuel) deadline w)
  unfolding poll_until
  poll_until-Ends zero deadline w enough =
      turn-Ends deadline w (look w).0 (leb deadline (adapter.now (look w).1))
        (poll_until adapter scheduler prefetch_book zero deadline (next_turn w)) refl refl
        (λ e. absurd (ground (arith, e, enough, search_takes_time w)))
  poll_until-Ends (suc fuel) deadline w enough =
      turn-Ends deadline w (look w).0 (leb deadline (adapter.now (look w).1))
        (poll_until adapter scheduler prefetch_book (suc fuel) deadline (next_turn w)) refl refl
        (λ e.
          poll_until-Ends fuel deadline (next_turn w)
            (omega (arith, enough, later_turn w, search_takes_time w, interval_positive)))

  -- Where a search does not turn the clock back, a sleep moves the clock by at least its length, and
  -- the poll interval is not 0, the search loop returns or raises after a run of searches: the first
  -- slots found, none where the course reports none or where a search that listed nothing ended at
  -- the deadline or later, else what a search raised. It searches again, after a sleep, only where
  -- a search listed nothing before the deadline, and at most two searches more than poll intervals
  -- fit into the poll time.
  pub poll_for_slots_ends :
      (has_creds : Bool) (is_registered : ℕ → Bool) (course_id : ℕ) (request : BookingRequest)
      (w : W)
      → (n : ℕ) × Polled adapter scheduler prefetch_book
          (adapter.now w + scheduler.max_poll_seconds * 1_000_000)
          n
          w
          (poll_for_slots adapter scheduler prefetch_book has_creds is_registered course_id request
            w)
        × (n * (scheduler.poll_interval_ms * 1000)
            ≤ scheduler.max_poll_seconds * 1_000_000 + 2 * (scheduler.poll_interval_ms * 1000))
  unfolding poll_for_slots
  poll_for_slots_ends has_creds is_registered course_id request w =
      let ends =
        poll_until-Ends (suc (scheduler.max_poll_seconds * 1000))
          (adapter.now w + scheduler.max_poll_seconds * 1_000_000) w (omega arith) in
      (ends.searches, ends.polled, bound _ (adapter.now w) ends.few)
    where
      bound : {a : ℕ} (b s : ℕ) → a ≤ ((s + b) - s) + 2 * gap → a ≤ b + 2 * gap
      bound b s h = omega (arith, h)
