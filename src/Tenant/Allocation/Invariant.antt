-- ===== src/Tenant/Allocation/Invariant.antt =====
-- What every step of the draft keeps: picks are disjoint, wanted, taken, and at most a burst.
use tee_time_booker.Prelude.{
  ℕ, zero, suc, ◌≤◌, ◌<◌, ◌≡◌, ◌≢◌, sym, ◌∙◌, ◌⊎◌, inl, inr, Bool, true, false, not, none, some,
  List, [], ◌∷◌, reverse, length, length-append, find, find-eq-some, Member, Member-append_cases,
  reverse-Member, ne→==_false, Member-append_left, Member-append_right, ==_refl, refl, Member→elem,
  elem, leb, ◌==◌, ==_iff, if◌then◌else◌, Bool-cases, Option-cases, arith,
}
use tee_time_booker.Tenant.Allocation.{
  Draft, start, add_pick, pick, best_left, visit, walk_round, draft,
}

add_pick_cases :
    (picks : ℕ → List ℕ) (row slot r s : ℕ)
    → Member s (add_pick picks row slot r)
    → Member s (picks r) ⊎ ((r ≡ row) × (s ≡ slot))
add_pick_cases picks row slot r s m = elim (Bool-cases (r == row)) [
  | inl e ↦ elim (Member-append_cases s (picks r) (slot ∷ []) (rw e at m)) [
    | inl old ↦ inl old
    | inr new ↦ inr ((==_iff r row).0 e, elim new [ inl p ↦ p | inr no_more ↦ absurd no_more ])
  ]
  | inr e ↦ inl (rw e at m)
]

add_pick-new : (picks : ℕ → List ℕ) (row slot : ℕ) → Member slot (add_pick picks row slot row)
add_pick-new picks row slot =
    rw (==_refl row) (Member-append_right slot (picks row) (slot ∷ []) (inl refl))

add_pick-old :
    (picks : ℕ → List ℕ) (row slot r s : ℕ)
    → Member s (picks r)
    → Member s (add_pick picks row slot r)
add_pick-old picks row slot r s m = elim (Bool-cases (r == row)) [
  | inl e ↦ rw e (Member-append_left s (picks r) (slot ∷ []) m)
  | inr e ↦ rw e m
]

length-add_pick :
    (picks : ℕ → List ℕ) (row slot r b : ℕ)
    → length (picks row) < b
    → length (picks r) ≤ b
    → length (add_pick picks row slot r) ≤ b
length-add_pick picks row slot r b room h = elim (Bool-cases (r == row)) [
  | inl e ↦ rw e (rw (length-append (picks r) (slot ∷ [])) (rw ((==_iff r row).0 e) (omega arith)))
  | inr e ↦ rw e h
]

module _ (candidates : ℕ → List ℕ) (burst_size : ℕ) where
  -- What a visit does: nothing, and then the row is full or has no candidate left; or one pick.
  pub visit_cases :
      (row : ℕ) (d : Draft)
      → ((visit candidates burst_size row d ≡ (d, false))
          × ((burst_size ≤ length (d.picks row)) ⊎ (best_left candidates row d ≡ none)))
        ⊎ ((best : ℕ) × (length (d.picks row) < burst_size)
            × (best_left candidates row d ≡ some best)
            × (visit candidates burst_size row d ≡ (pick d row best, true)))
  unfolding visit
  visit_cases row d = elim (Bool-cases (leb burst_size (length (d.picks row)))) [
    | inl full ↦ inl (rw full, inl (ground arith))
    | inr room ↦ elim (Option-cases (best_left candidates row d)) [
      | inl e ↦ inl (rw (room, e), inr e)
      | inr (best, e) ↦ inr (best, ground arith, e, rw (room, e))
    ]
  ]

  pub record IsFair (d : Draft) : Type 0 where
    pub wanted : (r s : ℕ) → Member s (d.picks r) → Member s (candidates r)
    pub owned : (s : ℕ) → Member s d.taken → (r : ℕ) × Member s (d.picks r)
    pub drafted : (r s : ℕ) → Member s (d.picks r) → Member s d.taken
    pub disjoint : (r q s : ℕ) → r ≢ q → Member s (d.picks r) → ¬ Member s (d.picks q)
    pub bounded : (r : ℕ) → length (d.picks r) ≤ burst_size

  pub start-IsFair : IsFair start
  start-IsFair = record {
    wanted = λ r s m. absurd m;
    owned = λ s m. absurd m;
    drafted = λ r s m. absurd m;
    disjoint = λ r q s ne m _. m;
    bounded = λ r. omega arith;
  }

  find-Member : (test : ℕ → Bool) (xs : List ℕ) {x : ℕ} → find test xs ≡ some x → Member x xs
  find-Member test [] h = cc
  find-Member test (y ∷ ys) {x} h = elim (Bool-cases (test y)) [
    | inl e ↦ inl (ground (arith, e, h))
    | inr e ↦ inr (find-Member test ys (ground (arith, e, h)))
  ]

  module _ (d : Draft) (h : IsFair d) (row best : ℕ) (room : length (d.picks row) < burst_size)
      (found : best_left candidates row d ≡ some best) where
    untaken : ¬ Member best d.taken
    untaken m =
        let t = find-eq-some (λ s. not (elem s d.taken)) (candidates row) found in
        cc (t, Member→elem best d.taken m)

    pub pick-IsFair : IsFair (pick d row best)
    pick-IsFair = record {
      wanted = λ r s m. elim (add_pick_cases d.picks row best r s m) [
        | inl old ↦ h.wanted r s old
        | inr (er, es) ↦ rw (er, es) (find-Member _ (candidates row) found)
      ];
      owned = λ s m. elim m [
        | inl e ↦ (row, rw e (add_pick-new d.picks row best))
        | inr old ↦ let (r, mine) = h.owned s old in (r, add_pick-old d.picks row best r s mine)
      ];
      drafted = λ r s m. elim (add_pick_cases d.picks row best r s m) [
        | inl old ↦ inr (h.drafted r s old)
        | inr (er, es) ↦ inl es
      ];
      disjoint = λ r q s ne m n. elim (add_pick_cases d.picks row best r s m) [
        | inl old ↦ elim (add_pick_cases d.picks row best q s n) [
          | inl old' ↦ h.disjoint r q s ne old old'
          | inr (eq, es) ↦ untaken (rw es at (h.drafted r s old))
        ]
        | inr (er, es) ↦ elim (add_pick_cases d.picks row best q s n) [
          | inl old' ↦ untaken (rw es at (h.drafted q s old'))
          | inr (eq, es') ↦ ne (er ∙ sym eq)
        ]
      ];
      bounded = λ r. length-add_pick d.picks row best r burst_size room (h.bounded r);
    }

  pub visit-IsFair : (row : ℕ) (d : Draft) → IsFair d → IsFair (visit candidates burst_size row d).0
  visit-IsFair row d h = elim (visit_cases row d) [
    | inl (e, _) ↦ rw e h
    | inr (best, room, found, e) ↦ rw e (pick-IsFair d h row best room found)
  ]

  walk_round-IsFair :
      (walk : List ℕ) (d : Draft) → IsFair d → IsFair (walk_round candidates burst_size walk d).0
  unfolding walk_round
  walk_round-IsFair [] d h = h
  walk_round-IsFair (row ∷ walk) d h =
      walk_round-IsFair walk (visit candidates burst_size row d).0 (visit-IsFair row d h)

  pub draft-IsFair :
      (fuel : ℕ) (drafting : List ℕ) (forward : Bool) (d : Draft)
      → IsFair d
      → IsFair (draft candidates burst_size fuel drafting forward d)
  unfolding draft
  draft-IsFair zero drafting forward d h = h
  draft-IsFair (suc fuel) drafting forward d h =
      let walk = if forward then drafting else reverse drafting in
      let next = walk_round-IsFair walk d h in
      elim (Bool-cases (walk_round candidates burst_size walk d).1) [
        | inl e ↦ rw e (draft-IsFair fuel drafting (not forward) _ next)
        | inr e ↦ rw e next
      ]

  walk_round-outside :
      (walk : List ℕ) (d : Draft) (r : ℕ)
      → ¬ Member r walk
      → (walk_round candidates burst_size walk d).0.picks r ≡ d.picks r
  unfolding walk_round
  walk_round-outside [] d r out = refl
  walk_round-outside (row ∷ walk) d r out =
      walk_round-outside walk (visit candidates burst_size row d).0 r (λ m. out (inr m))
      ∙ elim (visit_cases row d) [
        | inl (e, _) ↦ rw e
        | inr (best, _, _, e) ↦ rw (e, ne→==_false r row (λ p. out (inl p)))
      ]

  -- A row that does not draft keeps its picks.
  pub draft-outside :
      (fuel : ℕ) (drafting : List ℕ) (forward : Bool) (d : Draft) (r : ℕ)
      → ¬ Member r drafting
      → (draft candidates burst_size fuel drafting forward d).picks r ≡ d.picks r
  unfolding draft
  draft-outside zero drafting forward d r out = refl
  draft-outside (suc fuel) drafting forward d r out =
      let walk : List ℕ = if forward then drafting else reverse drafting in
      let once = walk_round-outside walk d r (outside forward) in
      elim (Bool-cases (walk_round candidates burst_size walk d).1) [
        | inl e ↦ rw e (draft-outside fuel drafting (not forward) _ r out ∙ once)
        | inr e ↦ rw e once
      ]
    where
      outside : (b : Bool) → ¬ Member r (if b then drafting else reverse drafting)
      outside true m = out m
      outside false m = out (reverse-Member r drafting m)
