-- ===== src/Core/Policy/Horizon.antt =====
-- The dates that the watcher watches.
use tee_time_booker.Prelude.{
  ◌&&◌, refl, sym, ℕ, ◌+◌, ◌≤◌, ◌<◌, ◌≡◌, ◌↔◌, ◌⊎◌, inl, inr, Bool, true, false, List, [], ◌∷◌,
  elem, elem→Member, Member→elem, Member, All, IsDistinct, IsSortedBy, sort_by-IsSortedBy,
  sort_by-Member, sort_by-IsDistinct, arith, Bool-cases, leb, ◌==◌,
}
use tee_time_booker.Core.Calendar.{weekday}
use tee_time_booker.Core.Policy.{
  add_when, days_until, collect_weekday, collect_days, next_occurrences_within_horizon,
}

-- `day` is of weekday `w`, within the horizon, and at most a week ahead: the next such day, counting
-- today, or the day a week from now where today is one.
abbrev pub Watches : ℕ → ℕ → ℕ → ℕ → Type 0
Watches today horizon w day =
    (weekday day ≡ w)
    × (today ≤ day)
    × (day ≤ today + horizon)
    × ((day < today + 7) ⊎ (day ≡ today + 7))

add_when_iff :
    (test : Bool) (a day : ℕ) (out : List ℕ)
    → Member a (add_when test day out) ↔ (Member a out ⊎ ((test ≡ true) × (a ≡ day)))
add_when_iff false a day out = ((λ m. inl m), (λ h. elim h [ inl m ↦ m | inr p ↦ absurd (cc p.0) ]))
add_when_iff true a day out = elim (Bool-cases (elem day out)) [
  | inl e ↦
      rw e ((λ m. inl m), (λ h. elim h [ inl m ↦ m | inr p ↦ rw p.1 (elem→Member day out e) ]))
  | inr e ↦ rw e (
    (λ m. elim m [ inl p ↦ inr (refl, p) | inr n ↦ inl n ]),
    (λ h. elim h [ inl n ↦ inr n | inr p ↦ inl p.1 ]),
  )
]

add_when-IsDistinct :
    (test : Bool) (day : ℕ) (out : List ℕ) → IsDistinct out → IsDistinct (add_when test day out)
add_when-IsDistinct false day out h = h
add_when-IsDistinct true day out h = elim (Bool-cases (elem day out)) [
  | inl e ↦ rw e h
  | inr e ↦ rw e ((λ m. cc (e, Member→elem day out m)), h)
]

-- The two dates that a weekday may add are the ones watched for it.
added_iff :
    (today horizon w day : ℕ)
    → w < 7
    → (((leb (days_until today w) horizon ≡ true) × (day ≡ today + days_until today w))
        ⊎ (((days_until today w == 0 && leb 7 horizon) ≡ true) × (day ≡ today + 7)))
      ↔ Watches today horizon w day
unfolding weekday
added_iff today horizon w day small = (λ h. ground arith, λ h. ground arith)

collect_weekday_iff :
    (today horizon w day : ℕ) (out : List ℕ)
    → w < 7
    → Member day (collect_weekday today horizon w out)
      ↔ (Member day out ⊎ Watches today horizon w day)
collect_weekday_iff today horizon w day out small =
    let first : List ℕ =
      add_when (leb (days_until today w) horizon) (today + days_until today w) out in
    let outer = add_when_iff (days_until today w == 0 && leb 7 horizon) day (today + 7) first in
    let inner =
      add_when_iff (leb (days_until today w) horizon) day (today + days_until today w) out in
    let watched = added_iff today horizon w day small in
    (
      (λ m. elim (outer.0 m) [
        | inl n ↦ elim (inner.0 n) [ inl o ↦ inl o | inr p ↦ inr (watched.0 (inl p)) ]
        | inr p ↦ inr (watched.0 (inr p))
      ]),
      (λ h. outer.1 (elim h [
        | inl o ↦ inl (inner.1 (inl o))
        | inr v ↦ elim (watched.1 v) [ inl p ↦ inl (inner.1 (inr p)) | inr p ↦ inr p ]
      ])),
    )

collect_days_iff :
    (today horizon day : ℕ) (wanted out : List ℕ)
    → All (λ w. w < 7) wanted
    → Member day (collect_days today horizon wanted out)
      ↔ (Member day out ⊎ ((w : ℕ) × Member w wanted × Watches today horizon w day))
collect_days_iff today horizon day [] out small =
    ((λ m. inl m), (λ h. elim h [ inl m ↦ m | inr (w, n, v) ↦ absurd n ]))
collect_days_iff today horizon day (w ∷ rest) out small =
    let here = collect_weekday_iff today horizon w day out small.0 in
    let later =
      collect_days_iff today horizon day rest (collect_weekday today horizon w out) small.1 in
    (
      (λ m. elim (later.0 m) [
        | inl n ↦ elim (here.0 n) [ inl o ↦ inl o | inr v ↦ inr (w, inl refl, v) ]
        | inr (u, n, v) ↦ inr (u, inr n, v)
      ]),
      (λ h. later.1 (elim h [
        | inl o ↦ inl (here.1 (inl o))
        | inr (u, inl p, v) ↦ inl (here.1 (inr (rw (sym p) v)))
        | inr (u, inr n, v) ↦ inr (u, n, v)
      ])),
    )

collect_weekday-IsDistinct :
    (today horizon w : ℕ) (out : List ℕ)
    → IsDistinct out
    → IsDistinct (collect_weekday today horizon w out)
collect_weekday-IsDistinct today horizon w out h =
    let early = leb (days_until today w) horizon in
    let first : List ℕ = add_when early (today + days_until today w) out in
    add_when-IsDistinct (days_until today w == 0 && leb 7 horizon) (today + 7) first
      (add_when-IsDistinct early (today + days_until today w) out h)

collect_days-IsDistinct :
    (today horizon : ℕ) (wanted out : List ℕ)
    → IsDistinct out
    → IsDistinct (collect_days today horizon wanted out)
collect_days-IsDistinct today horizon [] out h = h
collect_days-IsDistinct today horizon (w ∷ rest) out h =
    collect_days-IsDistinct today horizon rest (collect_weekday today horizon w out)
      (collect_weekday-IsDistinct today horizon w out h)

-- For wanted weekdays that are indices below 7, the watched dates are, each once and in order: the
-- next day of each wanted weekday, counting today, where it lies within the horizon, and the day a
-- week from today where today is wanted and the horizon reaches it.
pub next_occurrences_exact :
    (today horizon : ℕ) (wanted : List ℕ)
    → All (λ w. w < 7) wanted
    → ((day : ℕ)
        → Member day (next_occurrences_within_horizon today wanted horizon)
          ↔ ((w : ℕ) × Member w wanted × Watches today horizon w day))
      × IsDistinct (next_occurrences_within_horizon today wanted horizon)
      × IsSortedBy leb (next_occurrences_within_horizon today wanted horizon)
unfolding next_occurrences_within_horizon
next_occurrences_exact today horizon wanted small = (
  (λ day.
      let found = collect_days_iff today horizon day wanted [] small in
      let moved = sort_by-Member leb day (collect_days today horizon wanted []) in
      (
        (λ m. elim (found.0 (moved.0 m)) [ inl n ↦ absurd n | inr v ↦ v ]),
        (λ v. moved.1 (found.1 (inr v))),
      )),
  sort_by-IsDistinct leb _ (collect_days-IsDistinct today horizon wanted [] tt),
  sort_by-IsSortedBy leb (λ x y h. ground arith) (λ x y z h k. ground arith)
      (collect_days today horizon wanted []),
)
