-- ===== src/Core/Orchestrator/Cancels.antt =====
-- Cancelling the extras goes through all of them, but for a `BaseException`.
use tee_time_booker.Prelude.{
  ◌≡◌, refl, sym, ap, ◌∙◌, inl, inr, Bool, Option, none, some, List, [], ◌∷◌, ◌++◌, map,
  Option-cases, ℕ, Result, ok, err, ◌⊎◌, subst,
}
use tee_time_booker.Core.Models.{Code, BookingResult}
use tee_time_booker.Core.Orchestrator.{
  Adapter, Scheduler, Run, Call, cancelled_code, cancel_extras, Trouble, slot_gone, other_error,
  base_error, not_published, no_inventory, course_skipped, out_of_fuel, cancel_turn, cancel_code,
}

abbrev add_code : Option Code → List Code → List Code
add_code none codes = codes
add_code (some code) codes = code ∷ codes

-- The confirmation codes of the results that have one.
abbrev pub codes_of : List BookingResult → List Code
codes_of [] = []
codes_of (r ∷ rest) = add_code r.confirmation_code (codes_of rest)

append_one : (xs : List Call) (y : Call) (ys : List Call) → (xs ++ (y ∷ [])) ++ ys ≡ xs ++ (y ∷ ys)
append_one [] y ys = refl
append_one (x ∷ xs) y ys = ap (λ l. x ∷ l) (append_one xs y ys)

append-[] : (xs : List Call) → xs ++ [] ≡ xs
append-[] [] = refl
append-[] (x ∷ xs) = ap (λ l. x ∷ l) (append-[] xs)

-- The loop goes on, or a `BaseException` ended it.
turn-cases :
    {W : Type 0} (answer : Result Trouble (Unit {0})) (after : Run W)
    (later : Result Trouble (Unit {0}) × Run W)
    → (cancel_turn answer after later ≡ later)
      ⊎ ((n : ℕ) × (cancel_turn answer after later ≡ (err (base_error n), after)))
turn-cases (ok u) after later = inl refl
turn-cases (err (base_error n)) after later = inr (n, refl)
turn-cases (err (slot_gone n)) after later = inl refl
turn-cases (err (other_error n)) after later = inl refl
turn-cases (err not_published) after later = inl refl
turn-cases (err no_inventory) after later = inl refl
turn-cases (err course_skipped) after later = inl refl
turn-cases (err out_of_fuel) after later = inl refl

-- The codes were cancelled by their own code, once and in order: all of them, or those up to the
-- cancel that raised a `BaseException`.
abbrev pub Cancelled :
    {W : Type 0} → List Code → List Call → Result Trouble (Unit {0}) × Run W → Type 0
Cancelled codes calls r =
    ((r.0 ≡ ok tt) × (r.1.calls ≡ calls ++ map cancelled_code codes))
    ⊎ ((n : ℕ) × (done : List Code) × (left : List Code) × (r.0 ≡ err (base_error n))
        × (codes ≡ done ++ left)
        × (r.1.calls ≡ calls ++ map cancelled_code done))

after_one :
    {W : Type 0} (code : Code) (codes : List Code) (calls : List Call)
    (r : Result Trouble (Unit {0}) × Run W)
    → Cancelled codes (calls ++ (cancelled_code code ∷ [])) r
    → Cancelled (code ∷ codes) calls r
after_one code codes calls r (inl (e, p)) =
    inl (e, p ∙ append_one calls (cancelled_code code) (map cancelled_code codes))
after_one code codes calls r (inr (n, done, left, e, q, p)) = inr (
  n,
  code ∷ done,
  left,
  e,
  ap (λ l. code ∷ l) q,
  p ∙ append_one calls (cancelled_code code) (map cancelled_code done),
)

cancel_turn-Cancelled :
    {W : Type 0} (code : Code) (codes : List Code) (calls : List Call)
    (answer : Result Trouble (Unit {0})) (after : Run W) (later : Result Trouble (Unit {0}) × Run W)
    → after.calls ≡ calls ++ (cancelled_code code ∷ [])
    → Cancelled codes after.calls later
    → Cancelled (code ∷ codes) calls (cancel_turn answer after later)
cancel_turn-Cancelled code codes calls answer after later noted h =
    elim (turn-cases answer after later) [
      | inl e ↦
          subst (Cancelled (code ∷ codes) calls) (sym e)
            (after_one code codes calls later (subst (λ l. Cancelled codes l later) noted h))
      | inr (n, e) ↦
          subst (Cancelled (code ∷ codes) calls) (sym e)
            (inr (n, code ∷ [], codes, refl, refl, noted))
    ]

module _ {W : Type 0} (adapter : Adapter W) (scheduler : Scheduler) (prefetch_book : Bool) where
  -- Every extra with a confirmation code is cancelled by its own code, once and in order, whatever
  -- `Exception` the cancels before it raised, and the loop returns. Only a cancel's `BaseException`
  -- ends it early: it passes on, after the cancels up to that one. Nothing is booked.
  pub cancel_extras_calls :
      (extras : List BookingResult) (s : Run W)
      → Cancelled (codes_of extras) s.calls (cancel_extras adapter scheduler prefetch_book extras s)
  unfolding cancel_extras
  cancel_extras_calls [] s = inl (refl, sym (append-[] s.calls))
  cancel_extras_calls (r ∷ rest) s = elim (Option-cases r.confirmation_code) [
    | inl e ↦ rw (e, cancel_extras) (cancel_extras_calls rest s)
    | inr (code, e) ↦
        rw (e, cancel_extras)
          (cancel_turn-Cancelled code (codes_of rest) s.calls
            (cancel_code adapter scheduler prefetch_book code s).0
            (cancel_code adapter scheduler prefetch_book code s).1
            (cancel_extras adapter scheduler prefetch_book rest
              (cancel_code adapter scheduler prefetch_book code s).1)
            refl (cancel_extras_calls rest (cancel_code adapter scheduler prefetch_book code s).1))
  ]
