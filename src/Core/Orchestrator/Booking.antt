-- ===== src/Core/Orchestrator/Booking.antt =====
-- The sequential book loop makes at most one reservation.
use tee_time_booker.Prelude.{
  subst, sym, ℕ, ◌+◌, ◌≡◌, ◌≢◌, ◌⊎◌, refl, ap, ◌∙◌, inl, inr, Bool, List, [], ◌∷◌, Result, ok, err,
}
use tee_time_booker.Core.Models.{TeeTimeSlot, BookingResult}
use tee_time_booker.Core.Orchestrator.{
  book_turn, Trouble, slot_gone, other_error, base_error, not_published, no_inventory,
  course_skipped, out_of_fuel, Adapter, Scheduler, Run, book_one, book_from_candidates,
}

-- How an answer ends a turn of the loop: a gone slot goes on, anything else is returned.
Turn-cases :
    {W : Type 0} (answer : Result Trouble BookingResult) (after : Run W)
    (later : Result Trouble BookingResult × Run W)
    → (((r : BookingResult) × (answer ≡ ok r)) × (book_turn answer after later ≡ (answer, after)))
      ⊎ ((((reason : ℕ) × (answer ≡ err (slot_gone reason)))
            × (book_turn answer after later ≡ later))
          ⊎ (((e : Trouble) × (answer ≡ err e) × ((reason : ℕ) → e ≢ slot_gone reason))
              × (book_turn answer after later ≡ (answer, after))))
Turn-cases (ok r) after later = inl ((r, refl), refl)
Turn-cases (err (slot_gone reason)) after later = inr (inl ((reason, refl), refl))
Turn-cases (err (other_error n)) after later = inr (inr ((other_error n, refl, λ k p. cc), refl))
Turn-cases (err (base_error n)) after later = inr (inr ((base_error n, refl, λ k p. cc), refl))
Turn-cases (err not_published) after later = inr (inr ((not_published, refl, λ k p. cc), refl))
Turn-cases (err no_inventory) after later = inr (inr ((no_inventory, refl, λ k p. cc), refl))
Turn-cases (err course_skipped) after later = inr (inr ((course_skipped, refl, λ k p. cc), refl))
Turn-cases (err out_of_fuel) after later = inr (inr ((out_of_fuel, refl, λ k p. cc), refl))

module _ {W : Type 0} (adapter : Adapter W) (scheduler : Scheduler) (prefetch_book : Bool)
    (holdings : W → ℕ)
    (booking_adds_one : (slot : TeeTimeSlot) (w : W) (r : BookingResult)
      → (adapter.book slot w).0 ≡ ok r
      → holdings (adapter.book slot w).1 ≡ holdings w + 1)
    (gone_adds_none : (slot : TeeTimeSlot) (w : W) (reason : ℕ)
      → (adapter.book slot w).0 ≡ err (slot_gone reason)
      → holdings (adapter.book slot w).1 ≡ holdings w) where
  abbrev pub Settles : List TeeTimeSlot → Run W → Result Trouble BookingResult × Run W → Type 0
  Settles candidates s out =
      ((r : BookingResult) × (out.0 ≡ ok r) × (holdings out.1.world ≡ holdings s.world + 1))
      ⊎ (((out.0 ≡ err course_skipped) × (holdings out.1.world ≡ holdings s.world))
          ⊎ ((e : Trouble) × (slot : TeeTimeSlot) × (w : W) × (out.0 ≡ err e)
              × ((adapter.book slot w).0 ≡ err e)
              × ((reason : ℕ) → e ≢ slot_gone reason)))

  -- Where a booking adds one reservation and a gone slot adds none, the loop ends in one of three
  -- ways: it returns a result and holds one reservation more; it skips the course and holds as
  -- many as before; or it passes on what a POST raised that is not a gone slot.
  pub book_from_candidates-Settles :
      (candidates : List TeeTimeSlot) (s : Run W)
      → Settles candidates s (book_from_candidates adapter scheduler prefetch_book candidates s)
  unfolding book_from_candidates
  book_from_candidates-Settles [] s = inr (inl (refl, refl))
  book_from_candidates-Settles (slot ∷ rest) s =
      let here = book_one adapter scheduler prefetch_book slot s in
      elim (Turn-cases here.0 here.1
        (book_from_candidates adapter scheduler prefetch_book rest here.1)) [
          | inl ((r, e), turn) ↦
              subst (Settles (slot ∷ rest) s) (sym turn)
                (inl (r, e, booking_adds_one slot s.world r e))
          | inr (inr ((t, e, other), turn)) ↦
              subst (Settles (slot ∷ rest) s) (sym turn) (inr (inr (t, slot, s.world, e, e, other)))
          | inr (inl ((reason, e), turn)) ↦
              let same = gone_adds_none slot s.world reason e in
              subst (Settles (slot ∷ rest) s) (sym turn)
                (elim (book_from_candidates-Settles rest here.1) [
                  | inl (r, f, g) ↦ inl (r, f, g ∙ ap (λ n. n + 1) same)
                  | inr (inl (f, g)) ↦ inr (inl (f, g ∙ same))
                  | inr (inr d) ↦ inr (inr d)
                ])
        ]
