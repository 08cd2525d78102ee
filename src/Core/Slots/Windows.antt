-- ===== src/Core/Slots/Windows.antt =====
-- What window_from finds.
use tee_time_booker.Prelude.{
  ℕ, ◌≤◌, ◌≡◌, ◌⊎◌, refl, subst, inl, inr, Option, some, List, [], ◌∷◌, Member, Bool-cases, arith,
  suc, ◌<◌, false,
}
use tee_time_booker.Core.Models.{TimeWindow}
use tee_time_booker.Core.Slots.{window_from, contains}

-- The first of the windows that has the time, both ends included, with its index counted from `i`.
pub data FirstWindow (t : ℕ) : ℕ → List TimeWindow → ℕ → TimeWindow → Type 0 where
  stands_first :
      {i : ℕ} {w : TimeWindow} {rest : List TimeWindow}
      → w.earliest ≤ t
      → t ≤ w.latest
      → FirstWindow t i (w ∷ rest) i w
  stands_later :
      {i j : ℕ} {w v : TimeWindow} {rest : List TimeWindow}
      → (t < w.earliest) ⊎ (w.latest < t)
      → FirstWindow t (suc i) rest j v
      → FirstWindow t i (w ∷ rest) j v

-- What window_from finds: the first window, which is a window that has the time.
pub record Found (t i : ℕ) (ws : List TimeWindow) (j : ℕ) (v : TimeWindow) : Type 0 where
  pub first : FirstWindow t i ws j v
  pub member : Member v ws
  pub since : v.earliest ≤ t
  pub until : t ≤ v.latest

same_window :
    {w v : TimeWindow} {i j : ℕ}
    → ◌≡◌ {A = Option (ℕ × TimeWindow)} (some (i, w)) (some (j, v))
    → (i ≡ j) × (w ≡ v)
same_window p = ground (arith, p)

pub window_from-Found :
    (t i : ℕ) (ws : List TimeWindow) {j : ℕ} {v : TimeWindow}
    → window_from i ws t ≡ some (j, v)
    → Found t i ws j v
unfolding window_from
window_from-Found t i [] h = absurd (cc h)
window_from-Found t i (w ∷ rest) {j} {v} h = elim (Bool-cases (contains w t)) [
  | inl e ↦
      let (p, q) = same_window (rw e at h) in
      subst (λ k. Found t i (w ∷ rest) k v) p
        (subst (λ u. Found t i (w ∷ rest) i u) q
          (record {
            first = stands_first (ground (arith, e)) (ground (arith, e));
            member = inl refl;
            since = ground (arith, e);
            until = ground (arith, e);
          }))
  | inr e ↦
      let found = window_from-Found t (suc i) rest (rw e at h) in
      record {
        first = stands_later (ground (arith, e)) found.first;
        member = inr found.member;
        since = found.since;
        until = found.until;
      }
]

pub window_found :
    (t i : ℕ) (ws : List TimeWindow) (w : TimeWindow)
    → Member w ws
    → w.earliest ≤ t
    → t ≤ w.latest
    → (j : ℕ) × (v : TimeWindow) × (window_from i ws t ≡ some (j, v))
unfolding window_from
window_found t i [] w m a b = absurd m
window_found t i (u ∷ rest) w m a b = elim (Bool-cases (contains u t)) [
  | inl e ↦ (i, u, rw e refl)
  | inr e ↦ elim m [
    | inl p ↦ absurd (missed p e)
    | inr n ↦ let (j, v, q) = window_found t (suc i) rest w n a b in (j, v, rw e q)
  ]
]
  where
    missed : w ≡ u → contains u t ≡ false → ⊥
    missed p e = ground (arith, e, subst (λ x. x.earliest ≤ t) p a, subst (λ x. t ≤ x.latest) p b)
