-- ===== src/Core/Policy/Gates.antt =====
-- What the booking gates admit.
use tee_time_booker.Prelude.{
  refl, ℕ, ◌+◌, ◌<◌, ◌≡◌, ◌↔◌, ◌⊎◌, inl, inr, true, false, Option, none, some, List, elem,
  elem→Member, Member→elem, Member, ok, arith, Bool-cases,
}
use tee_time_booker.Core.Calendar.{Zone, weekday, hour}
use tee_time_booker.Core.Policy.{
  leb, BookingCutoffConfig, cutoff_instant, frozen_reason, is_past, should_book_today,
  should_proceed, ReleasePolicy, fire_time_for,
}

-- The date may still be acted on: its cutoff, if there is one, lies ahead.
abbrev pub IsBeforeCutoff : ℕ → ℕ → Zone → Option BookingCutoffConfig → Type 0
IsBeforeCutoff now day zone none = Unit
IsBeforeCutoff now day zone (some cutoff) = now < cutoff_instant day zone cutoff

is_past_cases :
    (now day : ℕ) (zone : Zone) (cutoff : Option BookingCutoffConfig)
    → ((is_past now day zone cutoff ≡ false) × IsBeforeCutoff now day zone cutoff)
      ⊎ ((is_past now day zone cutoff ≡ true) × (¬ IsBeforeCutoff now day zone cutoff))
is_past_cases now day zone none = inl (refl, tt)
is_past_cases now day zone (some cutoff) =
    elim (Bool-cases (leb (cutoff_instant day zone cutoff) now)) [
      | inl e ↦ inr (e, λ lt. ground (arith, e, lt))
      | inr e ↦ inl (e, ground (arith, e))
    ]

elem_cases :
    (a : ℕ) (xs : List ℕ)
    → ((elem a xs ≡ true) × Member a xs) ⊎ ((elem a xs ≡ false) × (¬ Member a xs))
elem_cases a xs = elim (Bool-cases (elem a xs)) [
  | inl e ↦ inl (e, elem→Member a xs e)
  | inr e ↦ inr (e, λ m. cc (e, Member→elem a xs m))
]

-- The booker proceeds exactly when the date that it would book, counted from the first reading of
-- the clock, falls on a wanted weekday, its cutoff lies after the second reading, and the operator
-- does not skip it.
pub should_book_today_iff :
    (first now : ℕ) (zone : Zone) (offset : ℕ) (wanted skip : List ℕ)
    (cutoff : Option BookingCutoffConfig)
    → (should_book_today first now zone offset wanted skip cutoff ≡ true) ↔ (
        Member (weekday ((zone.to_local first).day + offset)) wanted
        × IsBeforeCutoff now ((zone.to_local first).day + offset) zone cutoff
        × (¬ Member ((zone.to_local first).day + offset) skip))
unfolding should_book_today frozen_reason
should_book_today_iff first now zone offset wanted skip cutoff =
    let day = (zone.to_local first).day + offset in
    elim (elem_cases (weekday day) wanted) [
      | inr (e, out) ↦ rw e ((λ h. cc), (λ (m, _, _). absurd (out m)))
      | inl (e, wants) ↦ elim (is_past_cases now day zone cutoff) [
        | inr (p, late) ↦ rw (e, p) ((λ h. cc), (λ (_, early, _). absurd (late early)))
        | inl (p, early) ↦ elim (elem_cases day skip) [
          | inl (f, skipped) ↦ rw (e, p, f) ((λ h. cc), (λ (_, _, ne). absurd (ne skipped)))
          | inr (f, kept) ↦ rw (e, p, f) ((λ _. (wants, early, kept)), (λ _. refl))
        ]
      ]
    ]

fire_time_hour :
    (policy : ReleasePolicy) (lead : ℕ) {t : ℕ}
    → fire_time_for policy lead ≡ ok t
    → hour t + 1 ≡ hour policy.release_time
unfolding fire_time_for
fire_time_hour policy lead h = ground arith

-- With a fire time computed from an accepted policy, the gate of that policy's release passes
-- exactly in the clock hour of the fire time. An hour earlier or later, where the other season's
-- cron lands, it does not.
pub fire_time_passes_gate :
    (policy : ReleasePolicy) (lead now : ℕ) {t : ℕ}
    → fire_time_for policy lead ≡ ok t
    → (should_proceed now policy.timezone policy.release_time ≡ true)
      ↔ (hour (policy.timezone.to_local now).time ≡ hour t)
unfolding should_proceed
fire_time_passes_gate policy lead now h =
    let e = fire_time_hour policy lead h in
    ((λ p. ground (arith, e, p)), (λ p. ground (arith, e, p)))
