-- ===== src/Tenant/Groups/Standing.antt =====
-- What rank a row's booking has, and which rows are its rivals, in terms of the rows alone.
use tee_time_booker.Prelude.{
  Bool-cases, List, Option, Option-cases, [], arith, false, inl, inr, leb, none, refl, some, subst,
  true, ℕ, ◌&&◌, ◌<◌, ◌∷◌, ◌≡◌, ◌≤◌, ◌⊎◌,
}
use tee_time_booker.Tenant.Groups.Ranks.{achieved_rank, booked_rank, effective_rank, unranked}
use tee_time_booker.Tenant.Rows.{RankedWindow, RequestRow, RowStatus, booked, is_status}

-- The rank of the first option that has the time, both ends included; 1,000,000 where none has it.
pub data Achieves (time : ℕ) : List RankedWindow → ℕ → Type 0 where
  nowhere : Achieves time [] 1_000_000
  in_first :
      {o : RankedWindow} {os : List RankedWindow}
      → o.earliest ≤ time
      → time ≤ o.latest
      → Achieves time (o ∷ os) o.rank
  in_later :
      {o : RankedWindow} {os : List RankedWindow} {n : ℕ}
      → (time < o.earliest) ⊎ (o.latest < time)
      → Achieves time os n
      → Achieves time (o ∷ os) n

-- The rank that a booking has: that of its tee time in the row's own zone, 1,000,000 without one.
pub data HasRank (row : RequestRow) : ℕ → Type 0 where
  timed :
      {tee n : ℕ}
      → row.status ≡ booked
      → row.booked_tee_time ≡ some tee
      → Achieves (row.timezone.to_local tee).time row.options n
      → HasRank row n
  untimed : row.status ≡ booked → row.booked_tee_time ≡ none → HasRank row 1_000_000

-- A booking is better than another: a smaller rank, or the same rank and no larger id.
pub data IsBetter (a b : RequestRow) : Type 0 where
  ranked_lower : {m n : ℕ} → HasRank a m → HasRank b n → m < n → IsBetter a b
  ranked_same : {n : ℕ} → HasRank a n → HasRank b n → a.id ≤ b.id → IsBetter a b

abbrev rank_or_last : Option ℕ → ℕ
rank_or_last rank = elim rank [ none ↦ unranked | some r ↦ r ]

Achieves-achieved :
    (time : ℕ) (os : List RankedWindow) → Achieves time os (rank_or_last (achieved_rank os time))
Achieves-achieved time [] = nowhere
Achieves-achieved time (o ∷ os) = elim (Bool-cases (leb o.earliest time && leb time o.latest)) [
  | inl e ↦ rw e (in_first (ground (arith, e)) (ground (arith, e)))
  | inr e ↦ rw e (in_later (ground (arith, e)) (Achieves-achieved time os))
]

achieved_unique :
    {time n : ℕ} {os : List RankedWindow}
    → Achieves time os n
    → n ≡ rank_or_last (achieved_rank os time)
achieved_unique nowhere = refl
achieved_unique {time} (in_first {o} {os} a b) = rw (both o time a b) refl
  where
    both :
        (o : RankedWindow) (time : ℕ)
        → o.earliest ≤ time
        → time ≤ o.latest
        → (leb o.earliest time && leb time o.latest) ≡ true
    both o time a b = ground (arith, a, b)
achieved_unique {time} (in_later {o} {os} out later) =
    rw (not_both o time out) (achieved_unique later)
  where
    not_both :
        (o : RankedWindow) (time : ℕ)
        → (time < o.earliest) ⊎ (o.latest < time)
        → (leb o.earliest time && leb time o.latest) ≡ false
    not_both o time out = ground (arith, out)

pub is_booked-status : (row : RequestRow) → is_status row.status booked ≡ true → row.status ≡ booked
is_booked-status row e = status row.status e
  where
    status : (a : RowStatus) → is_status a booked ≡ true → a ≡ booked
    status a h = ground (arith, h)

pub effective_rank_unique : (row : RequestRow) {n : ℕ} → HasRank row n → n ≡ effective_rank row
unfolding booked_rank
effective_rank_unique row (timed b e a) = rw (b, e) (achieved_unique a)
effective_rank_unique row (untimed b e) = rw (b, e) refl

pub effective_rank-HasRank :
    (row : RequestRow) → row.status ≡ booked → HasRank row (effective_rank row)
effective_rank-HasRank row b = elim (Option-cases row.booked_tee_time) [
  | inl e ↦ of_its_own (untimed b e)
  | inr (tee, e) ↦ of_its_own (timed b e (Achieves-achieved _ row.options))
]
  where
    of_its_own : {n : ℕ} → HasRank row n → HasRank row (effective_rank row)
    of_its_own h = subst (HasRank row) (effective_rank_unique row h) h
