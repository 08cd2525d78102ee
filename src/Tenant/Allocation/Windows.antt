-- ===== src/Tenant/Allocation/Windows.antt =====
-- A row whose window overlaps no other row's drafts its own best slots, in its own order.
use tee_time_booker.Prelude.{
  ℕ, zero, suc, ◌≡◌, ◌≢◌, refl, sym, ap, subst, inl, inr, Bool, true, false, not, some, List, [],
  ◌∷◌, ◌++◌, reverse, take, take-append_length, take-all, find, find-skip, Member, Member→All,
  Member→elem, elem→Member, Member-append_right, IsDistinct, IsDistinct-append, elem, ◌==◌, ==_iff,
  if◌then◌else◌, Bool-cases, arith,
}
use mathlib.Core.List.{append-nil, append_assoc}
use tee_time_booker.Tenant.Allocation.{Draft, pick, best_left, visit, walk_round, draft}
use tee_time_booker.Tenant.Allocation.Invariant.{visit_cases, IsFair, visit-IsFair}
use tee_time_booker.Tenant.Allocation.Termination.{IsSettled}

module _ (candidates : ℕ → List ℕ) (burst_size row : ℕ) (distinct : IsDistinct (candidates row))
    (alone : (q s : ℕ) → q ≢ row → Member s (candidates q) → ¬ Member s (candidates row)) where
  -- The picks are the first of the row's own candidates.
  abbrev pub IsPrefix : Draft → Type 0
  IsPrefix d = (rest : List ℕ) × (candidates row ≡ d.picks row ++ rest)

  module _ (d : Draft) (h : IsFair candidates burst_size d) (rest : List ℕ)
      (split : candidates row ≡ d.picks row ++ rest) where
    -- What the row has not picked yet, nobody has.
    rest_untaken : (s : ℕ) → Member s rest → elem s d.taken ≡ false
    rest_untaken s m = elim (Bool-cases (elem s d.taken)) [
      | inr e ↦ e
      | inl e ↦
          let (q, mine) = h.owned s (elem→Member s d.taken e) in
          let wanted : Member s (candidates row) =
            rw split (Member-append_right s (d.picks row) rest m) in
          absurd (elim (Bool-cases (q == row)) [
            | inl same ↦
                IsDistinct-append s (d.picks row) rest (rw split at distinct)
                  (subst (λ r. Member s (d.picks r)) ((==_iff q row).0 same) mine) m
            | inr other ↦ alone q s (λ p. cc (other, (==_iff q row).1 p)) (h.wanted q s mine) wanted
          ])
    ]

    best_left-eq : best_left candidates row d ≡ find (λ s. not (elem s d.taken)) rest
    best_left-eq = rw split (
        find-skip (λ s. not (elem s d.taken)) (d.picks row) rest
          (Member→All _ (d.picks row) (λ s m. ap not (Member→elem s d.taken (h.drafted row s m)))))

  visit-IsPrefix :
      (r : ℕ) (d : Draft)
      → IsFair candidates burst_size d
      → IsPrefix d
      → IsPrefix (visit candidates burst_size r d).0
  visit-IsPrefix r d h (rest, split) = elim (visit_cases candidates burst_size r d) [
    | inl (e, _) ↦ rw e (rest, split)
    | inr (best, room, found, e) ↦ rw e (elim (Bool-cases (row == r)) [
      | inr other ↦ (rest, rw other split)
      | inl same ↦ let p = (==_iff row r).0 same in next rest split best same (rw (sym p) at found)
    ])
  ]
    where
      next :
          (rest : List ℕ)
          → candidates row ≡ d.picks row ++ rest
          → (best : ℕ) → (row == r) ≡ true
          → best_left candidates row d ≡ some best
          → IsPrefix (pick d r best)
      next [] split best same found = absurd (cc (found, best_left-eq d h [] split))
      next (s ∷ rest) split best same found =
          let first = best_left-eq d h (s ∷ rest) split in
          let free = rest_untaken d h (s ∷ rest) split s (inl refl) in
          let e : best ≡ s = ground (arith, found, first, free) in
          (rest, rw (same, append_assoc, e) split)

  walk_round-IsPrefix :
      (walk : List ℕ) (d : Draft)
      → IsFair candidates burst_size d
      → IsPrefix d
      → IsFair candidates burst_size (walk_round candidates burst_size walk d).0
        × IsPrefix (walk_round candidates burst_size walk d).0
  unfolding walk_round
  walk_round-IsPrefix [] d h p = (h, p)
  walk_round-IsPrefix (r ∷ walk) d h p =
      walk_round-IsPrefix walk _ (visit-IsFair candidates burst_size r d h) (visit-IsPrefix r d h p)

  pub draft-IsPrefix :
      (fuel : ℕ) (drafting : List ℕ) (forward : Bool) (d : Draft)
      → IsFair candidates burst_size d
      → IsPrefix d
      → IsPrefix (draft candidates burst_size fuel drafting forward d)
  unfolding draft
  draft-IsPrefix zero drafting forward d h p = p
  draft-IsPrefix (suc fuel) drafting forward d h p =
      let walk : List ℕ = if forward then drafting else reverse drafting in
      let (h', p') = walk_round-IsPrefix walk d h p in
      elim (Bool-cases (walk_round candidates burst_size walk d).1) [
        | inl e ↦ rw e (draft-IsPrefix fuel drafting (not forward) _ h' p')
        | inr e ↦ rw e p'
      ]

  -- A settled prefix is the whole burst, or all that there is.
  pub picks-eq-take :
      (d : Draft)
      → IsFair candidates burst_size d
      → IsPrefix d
      → IsSettled candidates burst_size d row
      → d.picks row ≡ take burst_size (candidates row)
  picks-eq-take d h (rest, split) (inl full) = rw split (
      sym (take-append_length burst_size (d.picks row) rest (let b = h.bounded row in omega arith)))
  picks-eq-take d h ([], split) (inr none_left) =
      rw (split, append-nil) (sym (take-all burst_size (d.picks row) (h.bounded row)))
  picks-eq-take d h (s ∷ rest, split) (inr none_left) =
      let first = best_left-eq d h (s ∷ rest) split in
      let free = rest_untaken d h (s ∷ rest) split s (inl refl) in
      absurd (ground (arith, none_left, first, free))
