-- ===== src/Tenant/Allocation/Order.antt =====
-- The rotation of `draft_order`: fair over the weeks.
use tee_time_booker.Prelude.{
  ℕ, zero, suc, ◌+◌, ◌/◌, ◌%◌, ◌≤◌, ◌<◌, ◌≡◌, refl, sym, ap, ◌∙◌, ◌⊎◌, inl, inr, List, [], ◌∷◌,
  ◌++◌, Perm, length, take, drop, take-append-drop, take-all, is_empty, leb, sort_by, sort_by-perm,
  if◌then◌else◌, arith,
}
use mathlib.Core.List.{append-nil, append_assoc, perm_append_comm}
use mathlib.Core.List.Perm
use native.Mathlib.Decide.{dec_lt}
use native.Mathlib.Nat.{mod-lt, mod-eq_of_lt, mod-add-mod, mod_self}
use tee_time_booker.Tenant.Allocation.{draft_order}

abbrev pub first_to_back : List ℕ → List ℕ
first_to_back [] = []
first_to_back (x ∷ xs) = xs ++ x ∷ []

abbrev rotate : ℕ → List ℕ → List ℕ
rotate k xs = drop k xs ++ take k xs

drop-length : (k : ℕ) (xs : List ℕ) → length xs ≤ k → drop k xs ≡ []
drop-length zero [] h = refl
drop-length zero (x ∷ xs) h = absurd (omega arith)
drop-length (suc k) [] h = refl
drop-length (suc k) (x ∷ xs) h = drop-length k xs (omega arith)

split_at :
    (k : ℕ) (xs : List ℕ)
    → k < length xs
    → (y : ℕ) × (drop k xs ≡ y ∷ drop (suc k) xs) × (take (suc k) xs ≡ take k xs ++ y ∷ [])
split_at k [] h = absurd (omega arith)
split_at zero (x ∷ xs) h = (x, refl, refl)
split_at (suc k) (x ∷ xs) h = let (y, d, t) = split_at k xs (omega arith) in (y, d, rw t)

first_to_back-rotate :
    (k : ℕ) (xs : List ℕ) → k < length xs → first_to_back (rotate k xs) ≡ rotate (suc k) xs
first_to_back-rotate k xs h =
    let (y, d, t) = split_at k xs h in
    rw (d, t) (append_assoc (drop (suc k) xs) (take k xs) (y ∷ []))

rotate-length : (xs : List ℕ) → rotate (length xs) xs ≡ rotate 0 xs
rotate-length xs =
    rw (drop-length (length xs) xs (omega arith), take-all (length xs) xs (omega arith))
      (sym (append-nil xs))

week_later :
    (t n : ℕ)
    → 0 < n
    → ((suc (t / 7 % n) < n) × ((t + 7) / 7 % n ≡ suc (t / 7 % n)))
      ⊎ ((suc (t / 7 % n) ≡ n) × ((t + 7) / 7 % n ≡ 0))
week_later t n h = elim (dec_lt (suc (t / 7 % n)) n) [
  | yes lt ↦ inl (lt, week ∙ mod-eq_of_lt (omega arith) ∙ omega arith)
  | no ge ↦
      let last : suc (t / 7 % n) ≡ n = omega (arith, mod-lt (t / 7) h) in
      inr (last, week ∙ ap (λ m. m % n) (omega arith) ∙ mod_self n)
]
  where
    week : (t + 7) / 7 % n ≡ (t / 7 % n + 1) % n
    week = ap (λ m. m % n) (omega arith) ∙ sym (mod-add-mod (t / 7) n 1)

draft_order_rotated :
    (rows : List ℕ) (t : ℕ) → draft_order rows (t + 7) ≡ first_to_back (draft_order rows t)
unfolding draft_order
draft_order_rotated rows t = next (sort_by leb rows)
  where
    next :
        (xs : List ℕ)
        → (if is_empty xs then [] else rotate ((t + 7) / 7 % length xs) xs)
          ≡ first_to_back (if is_empty xs then [] else rotate (t / 7 % length xs) xs)
    next [] = refl
    next (x ∷ xs) = elim (week_later t (suc (length xs)) (omega arith)) [
      | inl (lt, e) ↦ rw e (sym (first_to_back-rotate _ (x ∷ xs) (omega arith)))
      | inr (last, e) ↦ rw e (
          sym (rotate-length (x ∷ xs))
          ∙ ap (λ k. rotate k (x ∷ xs)) (sym last)
          ∙ sym (first_to_back-rotate _ (x ∷ xs) (omega arith)))
    ]

rotate-perm : (k : ℕ) (xs : List ℕ) → Perm (rotate k xs) xs
rotate-perm k xs =
    Perm.trans (perm_append_comm (drop k xs) (take k xs)) (rw take-append-drop Perm.rfl)

draft_order-perm : (rows : List ℕ) (t : ℕ) → Perm (draft_order rows t) rows
unfolding draft_order
draft_order-perm rows t = Perm.trans (rotated (sort_by leb rows)) (sort_by-perm leb rows)
  where
    rotated : (xs : List ℕ) → Perm (if is_empty xs then [] else rotate (t / 7 % length xs) xs) xs
    rotated [] = Perm.rfl
    rotated (x ∷ xs) = rotate-perm _ (x ∷ xs)

-- A week later the same rows draft in the same order but for the first, who is now the last.
-- Every order holds exactly the given rows.
pub draft_order_rotates :
    (rows : List ℕ) (target_date : ℕ)
    → (draft_order rows (target_date + 7) ≡ first_to_back (draft_order rows target_date))
      × Perm (draft_order rows target_date) rows
draft_order_rotates rows target_date =
    (draft_order_rotated rows target_date, draft_order-perm rows target_date)
