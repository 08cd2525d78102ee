-- ===== src/Tenant/Allocation/Allowlists.antt =====
-- What the allowlists of an allocation promise to the accounts.
use tee_time_booker.Prelude.{
  ◌∙◌, Bool-cases, Bool, all_of, ◌&&◌, elem, Member→elem, ℕ, suc, ◌*◌, ◌≤◌, ◌≡◌, ◌≢◌, ◌↔◌, refl, ap,
  ◌⊎◌, inl, inr, true, List, [], ◌∷◌, length, take, find-eq-none, is_empty, Member, Member-select,
  select-Member, All→Member, IsDistinct, elem→Member, ok, select, arith, ℤ, pos, negsuc,
  IsNonNegative,
}
use tee_time_booker.Core.Models.{TeeTimeSlot}
use tee_time_booker.Tenant.Allocation.{
  keys, Draft, start, draft, ranked_ids, is_distinct, same_set, BlindAllocation,
  allocate_blind_slots, allocate,
}
use tee_time_booker.Tenant.Allocation.Invariant.{IsFair, start-IsFair, draft-IsFair, draft-outside}
use tee_time_booker.Tenant.Allocation.Termination.{IsSettled, room-start, draft-IsSettled}
use tee_time_booker.Tenant.Allocation.Windows.{draft-IsPrefix, picks-eq-take}

module _ (ranked : List (ℕ × List TeeTimeSlot)) (order : List ℕ) (burst_size max_rows : ℕ) where
  abbrev drafting : List ℕ
  drafting = take max_rows order

  abbrev final : Draft
  final =
      draft (ranked_ids ranked) burst_size (suc (burst_size * length drafting)) drafting true start

  final-IsFair : IsFair (ranked_ids ranked) burst_size final
  final-IsFair =
      draft-IsFair (ranked_ids ranked) burst_size _ drafting true start
        (start-IsFair (ranked_ids ranked) burst_size)

  final-IsSettled :
      (row : ℕ) → Member row drafting → IsSettled (ranked_ids ranked) burst_size final row
  final-IsSettled =
      draft-IsSettled (ranked_ids ranked) burst_size _ drafting true start
        (omega (arith, room-start (ranked_ids ranked) burst_size drafting))

  module _ {a : BlindAllocation}
      (allocated : allocate_blind_slots ranked order (pos burst_size) (pos max_rows) ≡ ok a) where
    allowlists-eq :
        (a.allowlists ≡ final.picks)
        × (a.search_only ≡ select (λ row. is_empty (final.picks row)) order)
        × (is_distinct order ≡ true)
    unfolding allocate_blind_slots allocate
    allowlists-eq = ground arith

    -- In an allocation that was made, two rows' allowlists share no slot. Each holds only slots that its row ranked, and at most
    -- a burst of them.
    pub allowlists_disjoint :
        ((r q s : ℕ) → r ≢ q → Member s (a.allowlists r) → ¬ Member s (a.allowlists q))
        × ((r s : ℕ) → Member s (a.allowlists r) → Member s (ranked_ids ranked r))
        × ((r : ℕ) → length (a.allowlists r) ≤ burst_size)
    allowlists_disjoint =
        rw (allowlists-eq.0) (final-IsFair.disjoint, final-IsFair.wanted, final-IsFair.bounded)

    -- In an allocation that was made, nobody is starved: a row within the cap has a full burst, or every slot that it ranked is
    -- on some row's allowlist.
    pub allowlists_exhaustive :
        (row : ℕ)
        → Member row (take max_rows order)
        → (burst_size ≤ length (a.allowlists row))
          ⊎ ((s : ℕ) → Member s (ranked_ids ranked row) → (r : ℕ) × Member s (a.allowlists r))
    allowlists_exhaustive row m = rw (allowlists-eq.0) (elim (final-IsSettled row m) [
      | inl full ↦ inl full
      | inr nothing ↦ inr λ s wanted.
          let gone = All→Member _ s _ (find-eq-none _ (ranked_ids ranked row) nothing) wanted in
          final-IsFair.owned s (elem→Member s final.taken (ground (arith, gone)))
    ])

    -- In an allocation that was made, a row within the cap whose ranked slots are distinct, and ranked by no other row, is given
    -- exactly its own best ones, in its own order.
    pub allowlist_of_disjoint_window :
        (row : ℕ)
        → Member row (take max_rows order)
        → IsDistinct (ranked_ids ranked row)
        → ((q s : ℕ)
            → q ≢ row
            → Member s (ranked_ids ranked q)
            → ¬ Member s (ranked_ids ranked row))
        → a.allowlists row ≡ take burst_size (ranked_ids ranked row)
    allowlist_of_disjoint_window row m distinct alone = rw (allowlists-eq.0) (
        picks-eq-take (ranked_ids ranked) burst_size row distinct alone final final-IsFair
          (draft-IsPrefix (ranked_ids ranked) burst_size row distinct alone _ drafting true start
            (start-IsFair (ranked_ids ranked) burst_size) (ranked_ids ranked row, refl))
          (final-IsSettled row m))

    -- In an allocation that was made, `search_only` names exactly the rows of the order with an empty allowlist; a row that is not
    -- among the first `max_rows` of the order has one.
    pub search_only_exact :
        ((row : ℕ) → Member row a.search_only ↔ (Member row order × (a.allowlists row ≡ [])))
        × ((row : ℕ) → ¬ Member row (take max_rows order) → a.allowlists row ≡ [])
    search_only_exact =
        rw (allowlists-eq.0, allowlists-eq.1)
          (
            (λ row. (
              (λ m. let (o, e) = Member-select _ row order m in (o, emptied (final.picks row) e)),
              (λ (o, e). select-Member _ row order o (ap is_empty e)),
            )),
            (λ row out. draft-outside (ranked_ids ranked) burst_size _ drafting true start row out),
          )
      where
        emptied : (xs : List ℕ) → is_empty xs ≡ true → xs ≡ []
        emptied [] e = refl
        emptied (x ∷ xs) e = cc

is_distinct_iff : (xs : List ℕ) → (is_distinct xs ≡ true) ↔ IsDistinct xs
is_distinct_iff [] = ((λ _. tt), (λ _. refl))
is_distinct_iff (x ∷ xs) = elim (Bool-cases (elem x xs)) [
  | inl e ↦ ((λ h. absurd (cc (rw e at h))), (λ h. absurd (h.0 (elem→Member x xs e))))
  | inr e ↦ (
    (λ h. ((λ m. absurd (cc (e, Member→elem x xs m))), (is_distinct_iff xs).0 (rw e at h))),
    (λ h. rw e ((is_distinct_iff xs).1 h.1)),
  )
]

all_of_iff :
    (test : ℕ → Bool) (xs : List ℕ)
    → (all_of test xs ≡ true) ↔ ((x : ℕ) → Member x xs → test x ≡ true)
all_of_iff test [] = ((λ _ x m. absurd m), (λ _. refl))
all_of_iff test (y ∷ ys) = (
  (λ h x m. elim m [
    | inl e ↦ ap test e ∙ (and_parts (test y) (all_of test ys) h).0
    | inr n ↦ (all_of_iff test ys).0 (and_parts (test y) (all_of test ys) h).1 x n
  ]),
  (λ f. rw (f y (inl refl), (all_of_iff test ys).1 (λ x m. f x (inr m)))),
)
  where
    and_parts : (a b : Bool) → (a && b) ≡ true → (a ≡ true) × (b ≡ true)
    and_parts a b h = ground arith

same_set_iff : (xs ys : List ℕ) → (same_set xs ys ≡ true) ↔ ((x : ℕ) → Member x xs ↔ Member x ys)
same_set_iff xs ys = (
  (λ h x. (
    (λ m. elem→Member x ys ((all_of_iff (λ z. elem z ys) xs).0 (ground (arith, h)) x m)),
    (λ m. elem→Member x xs ((all_of_iff (λ z. elem z xs) ys).0 (ground (arith, h)) x m)),
  )),
  (λ f. rw (
    (all_of_iff (λ z. elem z ys) xs).1 (λ x m. Member→elem x ys ((f x).0 m)),
    (all_of_iff (λ z. elem z xs) ys).1 (λ x m. Member→elem x xs ((f x).1 m)),
  )),
)

allocate_iff :
    (ranked : List (ℕ × List TeeTimeSlot)) (order : List ℕ) (burst_size max_rows : ℕ)
    → ((a : BlindAllocation) × (allocate ranked order burst_size max_rows ≡ ok a))
      ↔ (IsDistinct order × ((row : ℕ) → Member row order ↔ Member row (keys ranked)))
unfolding allocate
allocate_iff ranked order burst_size max_rows = elim (Bool-cases (is_distinct order)) [
  | inr e ↦ (
    (λ (a, h). absurd (cc (rw e at h))),
    (λ (d, _). absurd (cc (e, (is_distinct_iff order).1 d))),
  )
  | inl e ↦ elim (Bool-cases (same_set order (keys ranked))) [
    | inr f ↦ (
      (λ (a, h). absurd (cc (rw (e, f) at h))),
      (λ (_, same). absurd (cc (f, (same_set_iff order (keys ranked)).1 same))),
    )
    | inl f ↦ (
      (λ _. ((is_distinct_iff order).0 e, (same_set_iff order (keys ranked)).0 f)),
      (λ _. rw (e, f) (_, refl)),
    )
  ]
]

-- An allocation is made exactly when the burst size and the cap on rows are not negative and the
-- order names each key of the mapping once and no other row; otherwise the call raises.
pub allocates_permutations :
    (ranked : List (ℕ × List TeeTimeSlot)) (order : List ℕ) (burst_size max_rows : ℤ)
    → ((a : BlindAllocation) × (allocate_blind_slots ranked order burst_size max_rows ≡ ok a)) ↔ (
        IsNonNegative burst_size
        × IsNonNegative max_rows
        × IsDistinct order
        × ((row : ℕ) → Member row order ↔ Member row (keys ranked)))
unfolding allocate_blind_slots
allocates_permutations ranked order (negsuc n) max_rows =
    ((λ (a, h). absurd (cc h)), (λ (no_size, _, _, _). absurd no_size))
allocates_permutations ranked order (pos b) (negsuc n) =
    ((λ (a, h). absurd (cc h)), (λ (_, no_cap, _, _). absurd no_cap))
allocates_permutations ranked order (pos b) (pos m) =
    let made = allocate_iff ranked order b m in
    ((λ h. let (d, same) = made.0 h in (tt, tt, d, same)), (λ (_, _, d, same). made.1 (d, same)))
