-- ===== src/Tenant/Allocation.antt =====
-- tenant/allocation.py: disjoint blind-POST allowlists, by a snake draft over a rotating order.
--
-- The dict `picks` is a function from a row to its picks, empty for a row that is no key. An
-- allowlist keeps the order of its picks, where the code makes a frozenset of them.
pub mod Invariant
pub mod Order
pub mod Termination
pub mod Windows
pub mod Allowlists
mod Examples
use tee_time_booker.Prelude.{
  ℕ, zero, suc, ◌*◌, ◌/◌, ◌%◌, Bool, true, false, not, ◌||◌, Option, none, some, List, [], ◌∷◌,
  ◌++◌, map, reverse, length, take, drop, find, select, elem, leb, ◌==◌, if◌then◌else◌, Result, ok,
  err, sort_by, is_empty, all_of, ℤ, pos, negsuc,
}
use tee_time_booker.Core.Models.{TeeTimeSlot}

-- Rows sorted by id, rotated by the week index of the target date.
pub draft_order : List ℕ → ℕ → List ℕ
draft_order row_ids target_date =
    let ordered = sort_by leb row_ids in
    let k = target_date / 7 % length ordered in
    if is_empty ordered then [] else drop k ordered ++ take k ordered

pub record Draft : Type 0 where
  pub picks : ℕ → List ℕ
  pub taken : List ℕ

abbrev pub start : Draft
start = record { picks = λ row. []; taken = [] }

abbrev pub add_pick : (ℕ → List ℕ) → ℕ → ℕ → ℕ → List ℕ
add_pick picks row slot r = if r == row then picks r ++ slot ∷ [] else picks r

abbrev pub slot_ids : List TeeTimeSlot → List ℕ
slot_ids slots = map (λ s. s.slot_id) slots

-- `taken.add(best)` and `picks[row].append(best)`.
abbrev pub pick : Draft → ℕ → ℕ → Draft
pick d row best = record { picks = add_pick d.picks row best; taken = best ∷ d.taken }

-- The row's highest-ranked slot that nobody has drafted yet.
abbrev pub best_left : (ℕ → List ℕ) → ℕ → Draft → Option ℕ
best_left candidates row d = find (λ s. not (elem s d.taken)) (candidates row)

module _ (candidates : ℕ → List ℕ) (burst_size : ℕ) where
  -- The body of `for row in walk`: the state after it, and whether it picked a slot.
  pub visit : ℕ → Draft → Draft × Bool
  visit row d =
      if leb burst_size (length (d.picks row))
      then (d, false)
      else elim (best_left candidates row d) [
        | none ↦ (d, false)
        | some best ↦ (pick d row best, true)
      ]

  -- One round: every row of the walk in turn; `progressed` if one of them picked.
  pub walk_round : List ℕ → Draft → Draft × Bool
  walk_round [] d = (d, false)
  walk_round (row ∷ walk) d =
      let (d', picked) = visit row d in
      let (d'', progressed) = walk_round walk d' in (d'', picked || progressed)

  -- The `while True` loop. Even rounds walk the order, odd rounds walk it reversed.
  pub draft : ℕ → List ℕ → Bool → Draft → Draft
  draft zero drafting forward d = d
  draft (suc fuel) drafting forward d =
      let (d', progressed) = walk_round (if forward then drafting else reverse drafting) d in
      let rest = draft fuel drafting (not forward) d' in if progressed then rest else d'

pub data AllocationError : Type 0 where
  negative_burst_size negative_max_blind_rows not_a_permutation : AllocationError

pub record BlindAllocation : Type 0 where
  pub allowlists : ℕ → List ℕ
  pub order : List ℕ
  pub search_only : List ℕ

-- `len(set(order)) == len(order)`.
abbrev pub is_distinct : List ℕ → Bool
is_distinct [] = true
is_distinct (x ∷ xs) = if elem x xs then false else is_distinct xs

-- `set(order) == set(ranked_candidates)`.
abbrev pub same_set : List ℕ → List ℕ → Bool
same_set xs ys = if all_of (λ x. elem x ys) xs then all_of (λ y. elem y xs) ys else false

-- `ranked_candidates[row]`, and the keys of the mapping.
abbrev pub ranked_ids : List (ℕ × List TeeTimeSlot) → ℕ → List ℕ
ranked_ids [] row = []
ranked_ids ((key, slots) ∷ rest) row = if key == row then slot_ids slots else ranked_ids rest row

abbrev pub keys : List (ℕ × List TeeTimeSlot) → List ℕ
keys ranked = map (λ entry. entry.0) ranked

-- What follows the checks of the two sizes. The fuel is one round for each pick that the cap leaves, and one more.
pub allocate : List (ℕ × List TeeTimeSlot) → List ℕ → ℕ → ℕ → Result AllocationError BlindAllocation
allocate ranked_candidates order burst_size max_blind_rows =
    if (if is_distinct order then same_set order (keys ranked_candidates) else false)
    then (let drafting = take max_blind_rows order in
        let d =
          draft (ranked_ids ranked_candidates) burst_size (suc (burst_size * length drafting))
            drafting true start in
        ok (record {
          allowlists = d.picks;
          order = order;
          search_only = select (λ row. is_empty (d.picks row)) order;
        }))
    else err not_a_permutation

pub allocate_blind_slots :
    List (ℕ × List TeeTimeSlot) → List ℕ → ℤ → ℤ → Result AllocationError BlindAllocation
allocate_blind_slots ranked_candidates order (negsuc n) max_blind_rows = err negative_burst_size
allocate_blind_slots ranked_candidates order (pos burst_size) (negsuc n) =
    err negative_max_blind_rows
allocate_blind_slots ranked_candidates order (pos burst_size) (pos max_blind_rows) =
    allocate ranked_candidates order burst_size max_blind_rows
