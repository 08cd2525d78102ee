-- ===== src/Tenant/Materialize/Dates.antt =====
-- Which dates the materializer walks.
use tee_time_booker.Prelude.{
  List, Member, [], ap, arith, inl, inr, map, refl, suc, zero, ℕ, ◌*◌, ◌+◌, ◌-◌, ◌/◌, ◌<◌, ◌↔◌, ◌∙◌,
  ◌∷◌, ◌≡◌, ◌≤◌, ◌⊎◌,
}
use tee_time_booker.Core.Calendar.{weekday}
use tee_time_booker.Core.Policy.{days_until}
use tee_time_booker.Tenant.Materialize.{dates_for_rule, every_week, weeks_within}
use tee_time_booker.Tenant.Rows.{StandingRule}

zero_or : (k : ℕ) → (k ≡ 0) ⊎ ((j : ℕ) × (k ≡ suc j))
zero_or zero = inl refl
zero_or (suc j) = inr (j, refl)

every_week_iff :
    (x n first : ℕ) → Member x (every_week n first) ↔ ((k : ℕ) × (k < n) × (x ≡ first + 7 * k))
every_week_iff x zero first = ((λ m. absurd m), (λ (k, h, e). absurd (omega (arith, h))))
every_week_iff x (suc n) first =
    let later = every_week_iff x n (first + 7) in
    (
      (λ m. elim m [
        | inl p ↦ (0, omega arith, omega (arith, p))
        | inr r ↦ let (k, h, e) = later.0 r in (suc k, omega (arith, h), omega (arith, e))
      ]),
      (λ (k, h, e). elim (zero_or k) [
        | inl p ↦ inl (omega (arith, e, p))
        | inr (j, p) ↦ inr (later.1 (j, omega (arith, h, p), omega (arith, e, p)))
      ]),
    )

weeks_within_iff : (k first last : ℕ) → (k < weeks_within first last) ↔ (first + 7 * k ≤ last)
weeks_within_iff k first last = ground arith

Member-map_iff :
    (today d : ℕ) (xs : List ℕ)
    → Member d (map (λ x. today + x) xs) ↔ ((x : ℕ) × Member x xs × (d ≡ today + x))
Member-map_iff today d [] = ((λ m. absurd m), (λ (x, m, e). absurd m))
Member-map_iff today d (y ∷ ys) = (
  (λ m. elim m [
    | inl p ↦ (y, inl refl, p)
    | inr n ↦ let (x, k, e) = (Member-map_iff today d ys).0 n in (x, inr k, e)
  ]),
  (λ (x, m, e). elim m [
    | inl p ↦ inl (e ∙ ap (λ z. today + z) p)
    | inr n ↦ inr ((Member-map_iff today d ys).1 (x, n, e))
  ]),
)

on_weekday : (w today k : ℕ) → w < 7 → weekday (today + (days_until today w + 7 * k)) ≡ w
unfolding weekday
on_weekday w today k h = omega (arith, h)

weeks_after :
    (w today d : ℕ)
    → today ≤ d
    → weekday d ≡ w
    → (k : ℕ) × (d ≡ today + (days_until today w + 7 * k))
unfolding weekday
weeks_after w today d h e = ((d - today - days_until today w) / 7, omega (arith, h, e))

-- For a rule whose weekday is one of seven, the dates walked are exactly the dates of that weekday
-- from today to the horizon, both ends included.
pub dates_for_rule_exact :
    (given : StandingRule) (today horizon d : ℕ)
    → given.weekday_index < 7
    → Member d (dates_for_rule given today horizon)
      ↔ ((today ≤ d) × (d ≤ today + horizon) × (weekday d ≡ given.weekday_index))
unfolding dates_for_rule
dates_for_rule_exact given today horizon d small = (
  (λ m.
      let (x, n, e) = (Member-map_iff today d _).0 m in
      let (k, h, f) = (every_week_iff x (weeks_within first horizon) first).0 n in
      let bound = (weeks_within_iff k first horizon).0 h in
      (
        omega (arith, e),
        omega (arith, e, f, bound),
        ap weekday (e ∙ ap (λ z. today + z) f) ∙ on_weekday given.weekday_index today k small,
      )),
  (λ (h, b, e).
      let (k, f) = weeks_after given.weekday_index today d h e in
      (Member-map_iff today d _).1 (
        first + 7 * k,
        (every_week_iff (first + 7 * k) (weeks_within first horizon) first).1
            (k, (weeks_within_iff k first horizon).1 (omega (arith, b, f)), refl),
        f,
      )),
)
  where
    first : ℕ
    first = days_until today given.weekday_index
