-- ===== src/Tenant/Allocation/Examples.antt =====
-- Three accounts on one grid, and the theorems at that input.
use tee_time_booker.Prelude.{
  ℕ, ◌≤◌, ◌≡◌, ◌≢◌, ◌↔◌, ◌⊎◌, refl, inl, inr, Result, ok, err, List, [], ◌∷◌, Perm, take, length,
  Member, IsDistinct, arith, pos, IsNonNegative,
}
use tee_time_booker.Core.Models.{TeeTimeSlot}
use tee_time_booker.Tenant.Allocation.{
  BlindAllocation, AllocationError, allocate_blind_slots, draft, walk_round, visit, ranked_ids,
  keys, draft_order, allocate,
}
use tee_time_booker.Tenant.Allocation.Order.{first_to_back, draft_order_rotates}
use tee_time_booker.Tenant.Allocation.Allowlists.{
  allowlists_disjoint, allowlists_exhaustive, allowlist_of_disjoint_window, search_only_exact,
  allocates_permutations,
}

abbrev slot : ℕ → TeeTimeSlot
slot id = record {
  course_id = 1;
  slot_id = id;
  tee_time = record { wall = record { day = 740_000; time = id }; instant = id };
  holes = 18;
  available_spots = 4;
  price_per_player = 5000;
}

-- Accounts 1 and 2 rank the same four slots, and account 3 a window of its own.
abbrev ranked : List (ℕ × List TeeTimeSlot)
ranked =
    (1, slot 10 ∷ slot 11 ∷ slot 12 ∷ slot 13 ∷ [])
    ∷ (2, slot 10 ∷ slot 11 ∷ slot 12 ∷ slot 13 ∷ [])
    ∷ (3, slot 20 ∷ slot 21 ∷ slot 22 ∷ [])
    ∷ []

abbrev order : List ℕ
order = 2 ∷ 3 ∷ 1 ∷ []

abbrev from_ok : Result AllocationError BlindAllocation → BlindAllocation
from_ok (ok a) = a
from_ok (err e) = record { allowlists = λ r. []; order = []; search_only = [] }

granted : BlindAllocation
unfolding allocate_blind_slots allocate draft walk_round visit
granted = from_ok (allocate_blind_slots ranked order (pos 2) (pos 3))

allocated : allocate_blind_slots ranked order (pos 2) (pos 3) ≡ ok granted
unfolding granted
allocated = refl

-- The snake: row 2 picks first and last.
granted_slots :
    (granted.allowlists 2 ≡ 10 ∷ 13 ∷ [])
    × (granted.allowlists 1 ≡ 11 ∷ 12 ∷ [])
    × (granted.allowlists 3 ≡ 20 ∷ 21 ∷ [])
unfolding granted
granted_slots = (refl, refl, refl)

allowlists_disjoint_example :
    ((r q s : ℕ) → r ≢ q → Member s (granted.allowlists r) → ¬ Member s (granted.allowlists q))
    × ((r s : ℕ) → Member s (granted.allowlists r) → Member s (ranked_ids ranked r))
    × ((r : ℕ) → length (granted.allowlists r) ≤ 2)
allowlists_disjoint_example = allowlists_disjoint ranked order 2 3 allocated

allowlists_exhaustive_example :
    (2 ≤ length (granted.allowlists 1))
    ⊎ ((s : ℕ) → Member s (ranked_ids ranked 1) → (r : ℕ) × Member s (granted.allowlists r))
allowlists_exhaustive_example =
    allowlists_exhaustive ranked order 2 3 allocated 1 (inr (inr (inl refl)))

own_window : (q s : ℕ) → q ≢ 3 → Member s (ranked_ids ranked q) → ¬ Member s (ranked_ids ranked 3)
own_window q s other m n = ground arith

allowlist_of_disjoint_window_example : granted.allowlists 3 ≡ 20 ∷ 21 ∷ []
allowlist_of_disjoint_window_example =
    allowlist_of_disjoint_window ranked order 2 3 allocated 3 (inr (inl refl)) (omega arith)
      own_window

search_only_exact_example :
    ((row : ℕ)
      → Member row granted.search_only ↔ (Member row order × (granted.allowlists row ≡ [])))
    × ((row : ℕ) → ¬ Member row (take 3 order) → granted.allowlists row ≡ [])
search_only_exact_example = search_only_exact ranked order 2 3 allocated

allocates_permutations_example :
    ((a : BlindAllocation) × (allocate_blind_slots ranked order (pos 2) (pos 3) ≡ ok a)) ↔ (
      IsNonNegative (pos 2)
      × IsNonNegative (pos 3)
      × IsDistinct order
      × ((row : ℕ) → Member row order ↔ Member row (keys ranked)))
allocates_permutations_example = allocates_permutations ranked order (pos 2) (pos 3)

draft_order_rotates_example :
    (draft_order (5 ∷ 3 ∷ 4 ∷ []) 740_007 ≡ first_to_back (draft_order (5 ∷ 3 ∷ 4 ∷ []) 740_000))
    × Perm (draft_order (5 ∷ 3 ∷ 4 ∷ []) 740_000) (5 ∷ 3 ∷ 4 ∷ [])
draft_order_rotates_example = draft_order_rotates (5 ∷ 3 ∷ 4 ∷ []) 740_000
