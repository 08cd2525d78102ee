-- ===== src/Tenant/Allocation/Termination.antt =====
-- The draft ends by its own test: with the fuel given, no row that drafts could pick again.
use tee_time_booker.Prelude.{
  ℕ, zero, suc, ◌+◌, ◌-◌, ◌*◌, ◌≤◌, ◌<◌, ◌≡◌, refl, sym, ◌⊎◌, inl, inr, Bool, true, false, not,
  none, List, [], ◌∷◌, reverse, length, length-append, Member, Member-reverse, reverse-Member, ◌==◌,
  ==_refl, if◌then◌else◌, Bool-cases, arith,
}
use tee_time_booker.Tenant.Allocation.{Draft, start, add_pick, pick, best_left, walk_round, draft}
use tee_time_booker.Tenant.Allocation.Invariant.{visit_cases}

module _ (candidates : ℕ → List ℕ) (burst_size : ℕ) where
  -- The picks that the rows may still make.
  pub room : List ℕ → Draft → ℕ
  room [] d = 0
  room (r ∷ rows) d = (burst_size - length (d.picks r)) + room rows d

  pub room-start : (rows : List ℕ) → room rows start ≡ burst_size * length rows
  unfolding room
  room-start [] = grind arith
  room-start (r ∷ rows) = grind (arith, room-start rows)

  -- The row has its burst, or every slot that it wants is drafted.
  abbrev pub IsSettled : Draft → ℕ → Type 0
  IsSettled d row = (burst_size ≤ length (d.picks row)) ⊎ (best_left candidates row d ≡ none)

  length-add_pick-ge :
      (d : Draft) (row best r : ℕ) → length (d.picks r) ≤ length (add_pick d.picks row best r)
  length-add_pick-ge d row best r = elim (Bool-cases (r == row)) [
    | inl e ↦ rw (e, length-append (d.picks r) (best ∷ [])) (omega arith)
    | inr e ↦ rw e (omega arith)
  ]

  length-add_pick_self :
      (d : Draft) (row best : ℕ) → length (add_pick d.picks row best row) ≡ length (d.picks row) + 1
  length-add_pick_self d row best = rw (==_refl row, length-append (d.picks row) (best ∷ []))

  room-pick-le :
      (rows : List ℕ) (d : Draft) (row best : ℕ) → room rows (pick d row best) ≤ room rows d
  unfolding room
  room-pick-le [] d row best = omega arith
  room-pick-le (r ∷ rows) d row best =
      omega (arith, length-add_pick-ge d row best r, room-pick-le rows d row best)

  room-pick-lt :
      (rows : List ℕ) (d : Draft) (row best : ℕ)
      → Member row rows
      → length (d.picks row) < burst_size
      → room rows (pick d row best) < room rows d
  unfolding room
  room-pick-lt [] d row best m h = absurd m
  room-pick-lt (r ∷ rows) d row best (inl e) h =
      rw (sym e) (omega (arith, length-add_pick_self d row best, room-pick-le rows d row best))
  room-pick-lt (r ∷ rows) d row best (inr m) h =
      omega (arith, length-add_pick-ge d row best r, room-pick-lt rows d row best m h)

  -- A round that progressed used up room; one that did not left everything as it was.
  walk_round_cases :
      (rows walk : List ℕ) (d : Draft)
      → ((row : ℕ) → Member row walk → Member row rows)
      → ((room rows (walk_round candidates burst_size walk d).0 < room rows d)
          × ((walk_round candidates burst_size walk d).1 ≡ true))
        ⊎ ((walk_round candidates burst_size walk d ≡ (d, false))
            × ((row : ℕ) → Member row walk → IsSettled d row))
  unfolding walk_round
  walk_round_cases rows [] d sub = inr (refl, λ row m. absurd m)
  walk_round_cases rows (row ∷ walk) d sub = elim (visit_cases candidates burst_size row d) [
    | inl (e, settled) ↦ rw e (elim (walk_round_cases rows walk d (λ r m. sub r (inr m))) [
      | inl (lt, p) ↦ inl (lt, p)
      | inr (same, all) ↦ inr (rw same, λ r m. elim m [ inl p ↦ rw p settled | inr n ↦ all r n ])
    ])
    | inr (best, free, _, e) ↦ rw e (
        let less = room-pick-lt rows d row best (sub row (inl refl)) free in
        elim (walk_round_cases rows walk (pick d row best) (λ r m. sub r (inr m))) [
          | inl (lt, p) ↦ inl (omega arith, refl)
          | inr (same, all) ↦ inl (rw same less, refl)
        ])
  ]

  pub draft-IsSettled :
      (fuel : ℕ) (drafting : List ℕ) (forward : Bool) (d : Draft)
      → room drafting d < fuel
      → (row : ℕ) → Member row drafting
      → IsSettled (draft candidates burst_size fuel drafting forward d) row
  unfolding draft
  draft-IsSettled zero drafting forward d h row m = absurd (omega arith)
  draft-IsSettled (suc fuel) drafting forward d h row m =
      let walk : List ℕ = if forward then drafting else reverse drafting in
      elim (walk_round_cases drafting walk d (within forward)) [
        | inl (lt, p) ↦ rw p (draft-IsSettled fuel drafting (not forward) _ (omega arith) row m)
        | inr (same, all) ↦ rw same (all row (covers forward))
      ]
    where
      within :
          (b : Bool) (r : ℕ)
          → Member r (if b then drafting else reverse drafting)
          → Member r drafting
      within true r n = n
      within false r n = reverse-Member r drafting n

      covers : (b : Bool) → Member row (if b then drafting else reverse drafting)
      covers true = m
      covers false = Member-reverse row drafting m
