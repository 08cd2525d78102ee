-- ===== src/Core/Orchestrator/Extras.antt =====
-- Of several booked results one is kept and the others are cancelled.
use tee_time_booker.Prelude.{
  ◌≢◌, ◌≡◌, ◌⊎◌, refl, sym, ap, subst, ◌∙◌, inl, inr, Bool, true, false, Option, none, some, List,
  [], ◌∷◌, Perm, Member, Bool-cases, Option-cases, ==_refl, arith,
}
use mathlib.Core.List.Perm
use tee_time_booker.Core.Models.{BookingRequest, TeeTimeSlot, BookingResult}
use tee_time_booker.Core.Slots.{rank_slots_for_request}
use tee_time_booker.Core.Slots.Ranked.{ranked_exact}
use tee_time_booker.Core.Orchestrator.{
  put_back, add_slot, result_or, has_slot_id, take_out, slots_of, keep_best,
}

put_back-eq-some :
    (r : BookingResult) (o : Option (BookingResult × List BookingResult))
    {found : BookingResult × List BookingResult}
    → put_back r o ≡ some found
    → (inner : BookingResult × List BookingResult) × (o ≡ some inner)
      × ((inner.0, r ∷ inner.1) ≡ found)
put_back-eq-some r none h = absurd (cc h)
put_back-eq-some r (some inner) h = (inner, refl, ground (arith, h))

put_back-eq-none :
    (r : BookingResult) (o : Option (BookingResult × List BookingResult))
    → put_back r o ≡ none
    → o ≡ none
put_back-eq-none r none h = refl
put_back-eq-none r (some inner) h = absurd (cc h)

take_out-perm :
    (test : BookingResult → Bool) (xs : List BookingResult)
    {found : BookingResult × List BookingResult}
    → take_out test xs ≡ some found
    → (test found.0 ≡ true) × Perm (found.0 ∷ found.1) xs
take_out-perm test [] h = absurd (cc h)
take_out-perm test (r ∷ rest) {found} h = elim (Bool-cases (test r)) [
  | inl e ↦ subst Taken (some_inj (rw (e, take_out) at h)) (e, Perm.rfl)
  | inr e ↦
      let (inner, f, p) = put_back-eq-some r (take_out test rest) (rw (e, take_out) at h) in
      let (t, q) = take_out-perm test rest f in
      subst Taken p (t, Perm.trans (Perm.swap r inner.0 inner.1) (Perm.cons r q))
]
  where
    Taken : BookingResult × List BookingResult → Type 0
    Taken found = (test found.0 ≡ true) × Perm (found.0 ∷ found.1) (r ∷ rest)

    some_inj :
        {a b : BookingResult × List BookingResult}
        → ◌≡◌ {A = Option (BookingResult × List BookingResult)} (some a) (some b)
        → a ≡ b
    some_inj p = ground (arith, p)

take_out-none :
    (test : BookingResult → Bool) (xs : List BookingResult)
    → take_out test xs ≡ none
    → (x : BookingResult) → Member x xs
    → test x ≡ false
take_out-none test [] h x m = absurd m
take_out-none test (r ∷ rest) h x m = elim (Bool-cases (test r)) [
  | inl e ↦ absurd (cc (rw (e, take_out) at h))
  | inr e ↦ elim m [
    | inl p ↦ ap test p ∙ e
    | inr n ↦
        take_out-none test rest (put_back-eq-none r (take_out test rest) (rw (e, take_out) at h)) x
          n
  ]
]

added :
    (s : TeeTimeSlot) (o : Option TeeTimeSlot) (slots : List TeeTimeSlot)
    → Member s (add_slot o slots)
    → (o ≡ some s) ⊎ Member s slots
added s none slots m = inr m
added s (some t) slots (inl p) = inl (ap some (sym p))
added s (some t) slots (inr m) = inr m

slots_of-Member :
    (s : TeeTimeSlot) (xs : List BookingResult)
    → Member s (slots_of xs)
    → (r : BookingResult) × Member r xs × (r.slot ≡ some s)
slots_of-Member s [] m = absurd m
slots_of-Member s (r ∷ rest) m = elim (added s r.slot (slots_of rest) m) [
  | inl e ↦ (r, inl refl, e)
  | inr n ↦ let (q, k, e) = slots_of-Member s rest n in (q, inr k, e)
]

-- What is kept and what is cancelled are together the booked results. The one that is kept has the
-- slot that ranks first among the booked ones, where one ranks at all.
abbrev pub IsKept :
    BookingResult
    → List BookingResult
    → List TeeTimeSlot
    → BookingResult × List BookingResult
    → Type 0
IsKept first rest [] found = found ≡ (first, rest)
IsKept first rest (best ∷ others) found =
    (has_slot_id best.slot_id found.0 ≡ true) × Perm (found.0 ∷ found.1) (first ∷ rest)

-- Of the booked results exactly one is kept, and the others are what is left to cancel. The one
-- that is kept has the slot that ranks first among the booked slots, and is the first result where
-- none of them ranks.
pub keep_best_splits :
    (first : BookingResult) (rest : List BookingResult) (request : BookingRequest)
    → IsKept first rest
        (rank_slots_for_request (slots_of (first ∷ rest)) request)
        (keep_best first rest request)
unfolding keep_best
keep_best_splits first rest request =
    split (rank_slots_for_request (slots_of (first ∷ rest)) request)
      (λ s m. ((ranked_exact (slots_of (first ∷ rest)) request s).0 m).0)
  where
    split :
        (ranked : List TeeTimeSlot)
        → ((s : TeeTimeSlot) → Member s ranked → Member s (slots_of (first ∷ rest)))
        → IsKept first rest ranked (elim ranked [
          | [] ↦ (first, rest)
          | best ∷ others ↦
              result_or (first, rest) (take_out (has_slot_id best.slot_id) (first ∷ rest))
        ])
    split [] within = refl
    split (best ∷ others) within =
        elim (Option-cases (take_out (has_slot_id best.slot_id) (first ∷ rest))) [
          | inr (found, e) ↦ rw e (take_out-perm (has_slot_id best.slot_id) (first ∷ rest) e)
          | inl e ↦
              let (r, m, p) = slots_of-Member best (first ∷ rest) (within best (inl refl)) in
              absurd (no_slot r p (take_out-none (has_slot_id best.slot_id) (first ∷ rest) e r m))
        ]
      where
        no_slot : (r : BookingResult) → r.slot ≡ some best → has_slot_id best.slot_id r ≢ false
        no_slot r p h = absurd (cc (rw (p, has_slot_id) at h, ==_refl best.slot_id))
