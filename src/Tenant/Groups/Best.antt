-- ===== src/Tenant/Groups/Best.antt =====
-- What the collapse keeps, and which options of a row stay worth trying.
use mathlib.Core.List.Perm
use tee_time_booker.Prelude.{
  All, All→Member, Bool, Bool-cases, IsSortedBy, List, Member, Perm, [], arith, false, inl, inr,
  leb, ltb, none, not, refl, select, some, sort_by, sort_by-IsSortedBy, sort_by-Member,
  sort_by-perm, subst, sym, true, ℕ, ◌&&◌, ◌++◌, ◌<◌, ◌==◌, ◌||◌, ◌∷◌, ◌≡◌, ◌≤◌, ◌⊎◌,
}
use tee_time_booker.Tenant.Groups.Ranks.{
  CollapsePlan, effective_rank, is_booked, keep_first, plan_collapse, rank_le,
}
use tee_time_booker.Tenant.Groups.Standing.{
  HasRank, IsBetter, effective_rank-HasRank, is_booked-status, ranked_lower, ranked_same,
}
use tee_time_booker.Tenant.Rows.{RequestRow}

rank_le_total : (a b : RequestRow) → rank_le a b ≡ false → rank_le b a ≡ true
rank_le_total a b h = ground (arith, h)

rank_le_trans : (a b c : RequestRow) → rank_le a b ≡ true → rank_le b c ≡ true → rank_le a c ≡ true
rank_le_trans a b c h k = ground (arith, h, k)

middle : {A : Type 0} (a : A) (ys zs : List A) → Perm (ys ++ (a ∷ zs)) (a ∷ (ys ++ zs))
middle a [] zs = Perm.rfl
middle a (y ∷ ys) zs = Perm.trans (Perm.cons y (middle a ys zs)) (Perm.swap a y (ys ++ zs))

-- The rows that pass and the rows that do not are all the rows.
select-Perm :
    {A : Type 0} (test : A → Bool) (xs : List A)
    → Perm (select test xs ++ select (λ x. not (test x)) xs) xs
select-Perm test [] = Perm.rfl
select-Perm test (x ∷ xs) = elim (Bool-cases (test x)) [
  | inl e ↦ rw e (Perm.cons x (select-Perm test xs))
  | inr e ↦ rw e (
      Perm.trans (middle x (select test xs) (select (λ y. not (test y)) xs))
        (Perm.cons x (select-Perm test xs)))
]

All-select :
    {A : Type 0} (P : A → Type 0) (test : A → Bool) (xs : List A)
    → All P xs
    → All P (select test xs)
All-select P test [] h = tt
All-select P test (x ∷ xs) h = elim (Bool-cases (test x)) [
  | inl e ↦ rw e (h.0, All-select P test xs h.1)
  | inr e ↦ rw e (All-select P test xs h.1)
]

select-passes :
    {A : Type 0} (test : A → Bool) (xs : List A) → All (λ x. test x ≡ true) (select test xs)
select-passes test [] = tt
select-passes test (x ∷ xs) = elim (Bool-cases (test x)) [
  | inl e ↦ rw e (e, select-passes test xs)
  | inr e ↦ rw e (select-passes test xs)
]

IsBetter-rank_le :
    (a b : RequestRow)
    → HasRank a (effective_rank a)
    → HasRank b (effective_rank b)
    → rank_le a b ≡ true
    → IsBetter a b
IsBetter-rank_le a b h k e = elim (compared (effective_rank a) (effective_rank b) a.id b.id e) [
  | inl lt ↦ ranked_lower h k lt
  | inr (p, le) ↦ ranked_same h (subst (HasRank b) (sym p) k) le
]
  where
    compared :
        (m n i j : ℕ) → (ltb m n || (m == n && leb i j)) ≡ true → (m < n) ⊎ ((m ≡ n) × (i ≤ j))
    compared m n i j e = ground (arith, e)

-- The booked rows are the one kept, which is better than every other, the owned ones to cancel and the others,
-- to leave.
abbrev pub Keeps : List RequestRow → (RequestRow → Bool) → CollapsePlan → RequestRow → Type 0
Keeps booked_rows owned plan best =
    (plan.keep ≡ some best)
    × Perm (best ∷ (plan.cancel ++ plan.leave_manual)) booked_rows
    × All (λ r. IsBetter best r) plan.cancel
    × All (λ r. IsBetter best r) plan.leave_manual
    × All (λ r. owned r ≡ true) plan.cancel
    × All (λ r. not (owned r) ≡ true) plan.leave_manual

keep_first-Keeps :
    (owned : RequestRow → Bool) (best : RequestRow) (rest booked_rows : List RequestRow)
    → All (λ r. IsBetter best r) rest
    → Perm (best ∷ rest) booked_rows
    → Keeps booked_rows owned (keep_first owned (best ∷ rest)) best
keep_first-Keeps owned best rest booked_rows better perm = (
  refl,
  Perm.trans (Perm.cons best (select-Perm owned rest)) perm,
  All-select _ owned rest better,
  All-select _ (λ r. not (owned r)) rest better,
  select-passes owned rest,
  select-passes (λ r. not (owned r)) rest,
)

-- A group without a booked row has nothing to keep, to cancel or to leave. Otherwise the plan keeps
-- one booked row, and the booked rows are that one, those to cancel and those to leave. The kept row
-- has the lowest rank: that of the first of its options whose window has its tee time, or 1,000,000
-- without one; the lower id wins a tie. The rows to cancel are owned, and those to leave are not.
pub plan_collapse_splits :
    (group : List RequestRow) (owned : RequestRow → Bool)
    → ((select is_booked group ≡ [])
        × ((plan_collapse group owned).keep ≡ none)
        × ((plan_collapse group owned).cancel ≡ [])
        × ((plan_collapse group owned).leave_manual ≡ []))
      ⊎ ((best : RequestRow) × Keeps
            (select is_booked group)
            owned
            (plan_collapse group owned)
            best)
unfolding plan_collapse
plan_collapse_splits group owned =
    split (select is_booked group) (sort_by rank_le (select is_booked group))
      (sort_by-IsSortedBy rank_le rank_le_total rank_le_trans (select is_booked group))
      (λ r m.
        All→Member (λ x. is_booked x ≡ true) r (select is_booked group)
          (select-passes is_booked group) ((sort_by-Member rank_le r (select is_booked group)).0 m))
      (sort_by-perm rank_le (select is_booked group))
  where
    better :
        (best : RequestRow) (rest : List RequestRow)
        → is_booked best ≡ true
        → ((r : RequestRow) → Member r rest → is_booked r ≡ true)
        → All (λ r. rank_le best r ≡ true) rest
        → All (λ r. IsBetter best r) rest
    better best [] b bs h = tt
    better best (r ∷ rest) b bs h = (
      IsBetter-rank_le best r (effective_rank-HasRank best (is_booked-status best b))
          (effective_rank-HasRank r (is_booked-status r (bs r (inl refl)))) h.0,
      better best rest b (λ x m. bs x (inr m)) h.1,
    )

    split :
        (rows sorted : List RequestRow)
        → IsSortedBy rank_le sorted
        → ((r : RequestRow) → Member r sorted → is_booked r ≡ true)
        → Perm sorted rows
        → ((rows ≡ [])
            × ((keep_first owned sorted).keep ≡ none)
            × ((keep_first owned sorted).cancel ≡ [])
            × ((keep_first owned sorted).leave_manual ≡ []))
          ⊎ ((best : RequestRow) × Keeps rows owned (keep_first owned sorted) best)
    split rows [] s b p = inl (sym (Perm.nil-eq p), refl, refl, refl)
    split rows (best ∷ rest) s b p = inr (
      best,
      keep_first-Keeps owned best rest rows
          (better best rest (b best (inl refl)) (λ x m. b x (inr m)) s.0) p,
    )
