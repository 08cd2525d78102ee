-- ===== src/Courses/TokenPool/Rounds.antt =====
-- The grant order: each key as often as it asked, and nobody a round ahead.
use tee_time_booker.Prelude.{
  length-append, ltb→lt, ==_iff, subst, ℕ, zero, suc, ◌+◌, ◌-◌, ◌≤◌, ◌<◌, ◌≡◌, ◌⊎◌, refl, sym, ap,
  ◌∙◌, inl, inr, true, min, List, [], ◌∷◌, ◌++◌, take, length, Member, IsDistinct, ltb, ◌==◌,
  Bool-cases, if◌then◌else◌, ne→==_false, arith,
}
use tee_time_booker.Courses.TokenPool.{most, leb, keys_of, round, rounds_from}

abbrev pub count_of : ℕ → List ℕ → ℕ
count_of k [] = 0
count_of k (x ∷ xs) = let rest = count_of k xs in if x == k then suc rest else rest

-- What the key asked for, and 0 where it did not register.
abbrev pub demand_for : List (ℕ × ℕ) → ℕ → ℕ
demand_for [] k = 0
demand_for (d ∷ demand) k = let rest = demand_for demand k in if d.0 == k then d.1 else rest

abbrev pub total_from : List (ℕ × ℕ) → ℕ → ℕ
total_from [] r = 0
total_from (d ∷ demand) r = (d.1 - r) + total_from demand r

pub count-append : (k : ℕ) (xs ys : List ℕ) → count_of k (xs ++ ys) ≡ count_of k xs + count_of k ys
count-append k [] ys = omega arith
count-append k (x ∷ xs) ys = ground (arith, count-append k xs ys)

pub take-append :
    (m : ℕ) (xs ys : List ℕ) → take m (xs ++ ys) ≡ take m xs ++ take (m - length xs) ys
take-append zero xs ys = ap (λ m. take m ys) (zero_minus (length xs))
  where
    zero_minus : (n : ℕ) → 0 ≡ 0 - n
    zero_minus n = omega arith
take-append (suc m) [] ys = ap (λ n. take n ys) (minus_zero (suc m))
  where
    minus_zero : (n : ℕ) → n ≡ n - 0
    minus_zero n = omega arith
take-append (suc m) (x ∷ xs) ys =
    ap (λ l. x ∷ l)
      (take-append m xs ys ∙ ap (λ n. take m xs ++ take n ys) (both_less m (length xs)))
  where
    both_less : (a b : ℕ) → a - b ≡ suc a - suc b
    both_less a b = omega arith

count-take-le : (k m : ℕ) (xs : List ℕ) → count_of k (take m xs) ≤ count_of k xs
count-take-le k zero xs = ground arith
count-take-le k (suc m) [] = omega arith
count-take-le k (suc m) (x ∷ xs) = ground (arith, count-take-le k m xs)

pub take-all-of : (m : ℕ) (xs : List ℕ) → length xs ≤ m → take m xs ≡ xs
take-all-of zero [] h = refl
take-all-of zero (x ∷ xs) h = absurd (omega arith)
take-all-of (suc m) [] h = refl
take-all-of (suc m) (x ∷ xs) h = ap (λ l. x ∷ l) (take-all-of m xs (omega arith))

absent :
    (demand : List (ℕ × ℕ)) (k r : ℕ)
    → (¬ Member k (keys_of demand))
    → (demand_for demand k ≡ 0) × (count_of k (round demand r) ≡ 0)
absent [] k r out = (refl, refl)
absent (d ∷ demand) k r out =
    let (e, f) = absent demand k r (λ m. out (inr m)) in
    let g = ne→==_false d.0 k (λ p. out (inl (sym p))) in
    elim (Bool-cases (ltb r d.1)) [ inl h ↦ rw (g, h) (e, rw g f) | inr h ↦ rw (g, h) (e, f) ]

-- A round names a key at most once, and exactly while it asks for more.
count-round :
    (demand : List (ℕ × ℕ)) (k r : ℕ)
    → IsDistinct (keys_of demand)
    → ((demand_for demand k ≤ r) × (count_of k (round demand r) ≡ 0))
      ⊎ ((r < demand_for demand k) × (count_of k (round demand r) ≡ 1))
count-round [] k r h = inl (omega arith, refl)
count-round (d ∷ demand) k r h = elim (Bool-cases (d.0 == k)) [
  | inl same ↦
      let (e, f) =
        absent demand k r (subst (λ j. ¬ Member j (keys_of demand)) ((==_iff d.0 k).0 same) h.0) in
      elim (Bool-cases (ltb r d.1)) [
        | inl g ↦ rw (same, g) (inr (ltb→lt r d.1 g, rw (same, f)))
        | inr g ↦ rw (same, g) (inl (ground (arith, g), f))
      ]
  | inr other ↦ elim (Bool-cases (ltb r d.1)) [
    | inl g ↦ rw (other, g) (rw other (count-round demand k r h.1))
    | inr g ↦ rw (other, g) (count-round demand k r h.1)
  ]
]

count-rounds :
    (demand : List (ℕ × ℕ)) (k r n : ℕ)
    → IsDistinct (keys_of demand)
    → count_of k (rounds_from demand r n) ≡ min n (demand_for demand k - r)
count-rounds demand k r zero h = omega arith
count-rounds demand k r (suc n) h = ground (
  arith,
  count-append k (round demand r) (rounds_from demand (suc r) n),
  count-rounds demand k (suc r) n h,
  count-round demand k r h,
)

nothing_left : (m l : ℕ) → leb m l ≡ true → m - l ≡ 0
nothing_left m l e = ground (arith, e)

at_most_one :
    (z : ℕ) {x y d r : ℕ} → x ≤ y → ((d ≤ r) × (y ≡ 0)) ⊎ ((r < d) × (y ≡ 1)) → x + 0 ≤ suc (z + 0)
at_most_one z le c = ground (arith, le, c)

-- One whole round before a fair rest.
combine :
    {da db ra rb r : ℕ} (x y : ℕ)
    → ((da ≤ r) × (ra ≡ 0)) ⊎ ((r < da) × (ra ≡ 1))
    → ((db ≤ r) × (rb ≡ 0)) ⊎ ((r < db) × (rb ≡ 1))
    → (y ≤ suc x) ⊎ (x ≡ da - suc r)
    → x ≤ da - suc r
    → (rb + y ≤ suc (ra + x)) ⊎ (ra + x ≡ da - r)
combine x y p q ih bound = ground (arith, p, q, ih, bound)

-- In every beginning of the rounds, `b` is at most one grant ahead of `a`, unless `a` has all.
pub prefix_fair :
    (demand : List (ℕ × ℕ)) (a b r n m : ℕ)
    → IsDistinct (keys_of demand)
    → (count_of b (take m (rounds_from demand r n))
        ≤ suc (count_of a (take m (rounds_from demand r n))))
      ⊎ (count_of a (take m (rounds_from demand r n)) ≡ demand_for demand a - r)
prefix_fair demand a b r zero zero h = inl (omega arith)
prefix_fair demand a b r zero (suc m) h = inl (omega arith)
prefix_fair demand a b r (suc n) m h =
    rw (take-append m (round demand r) (rounds_from demand (suc r) n)) (
      rw
        (
          count-append b (take m (round demand r))
              (take (m - length (round demand r)) (rounds_from demand (suc r) n)),
          count-append a (take m (round demand r))
              (take (m - length (round demand r)) (rounds_from demand (suc r) n)),
        )
        (elim (Bool-cases (leb m (length (round demand r)))) [
          | inl e ↦ inl (within e)
          | inr e ↦ rw (take-all-of m (round demand r) (ground (arith, e))) (
              combine
                (count_of a (take (m - length (round demand r)) (rounds_from demand (suc r) n)))
                (count_of b (take (m - length (round demand r)) (rounds_from demand (suc r) n)))
                (count-round demand a r h) (count-round demand b r h)
                (prefix_fair demand a b (suc r) n (m - length (round demand r)) h)
                (rest_bound
                  (count-take-le a (m - length (round demand r)) (rounds_from demand (suc r) n))))
        ]))
  where
    within :
        leb m (length (round demand r)) ≡ true
        → count_of b (take m (round demand r))
            + count_of b (take (m - length (round demand r)) (rounds_from demand (suc r) n))
          ≤ suc (
              count_of a (take m (round demand r))
              + count_of a (take (m - length (round demand r)) (rounds_from demand (suc r) n)))
    within e = rw (nothing_left m (length (round demand r)) e) (
        at_most_one (count_of a (take m (round demand r))) (count-take-le b m (round demand r))
          (count-round demand b r h))

    rest_bound :
        count_of a (take (m - length (round demand r)) (rounds_from demand (suc r) n))
          ≤ count_of a (rounds_from demand (suc r) n)
        → count_of a (take (m - length (round demand r)) (rounds_from demand (suc r) n))
          ≤ demand_for demand a - suc r
    rest_bound le = omega (arith, le, count-rounds demand a (suc r) n h)

demand_for-most : (demand : List (ℕ × ℕ)) (k : ℕ) → demand_for demand k ≤ most demand
demand_for-most [] k = omega arith
demand_for-most (d ∷ demand) k = ground (arith, demand_for-most demand k)

-- The whole grant order names a key as often as the key asked.
pub count-order :
    (demand : List (ℕ × ℕ)) (k : ℕ)
    → IsDistinct (keys_of demand)
    → count_of k (rounds_from demand 0 (most demand)) ≡ demand_for demand k
count-order demand k h =
    omega (arith, count-rounds demand k 0 (most demand) h, demand_for-most demand k)

pub count-taken :
    (demand : List (ℕ × ℕ)) (k m : ℕ)
    → IsDistinct (keys_of demand)
    → count_of k (take m (rounds_from demand 0 (most demand))) ≤ demand_for demand k
count-taken demand k m h =
    omega (arith, count-order demand k h, count-take-le k m (rounds_from demand 0 (most demand)))

length-round :
    (demand : List (ℕ × ℕ)) (r : ℕ)
    → total_from demand r ≡ length (round demand r) + total_from demand (suc r)
length-round [] r = omega arith
length-round (d ∷ demand) r = elim (Bool-cases (ltb r d.1)) [
  | inl e ↦ rw e (ground (arith, e, length-round demand r))
  | inr e ↦ rw e (ground (arith, e, length-round demand r))
]

total_past : (demand : List (ℕ × ℕ)) (r : ℕ) → most demand ≤ r → total_from demand r ≡ 0
total_past [] r h = refl
total_past (d ∷ demand) r h = ground (arith, h, total_past demand r)

length-rounds :
    (demand : List (ℕ × ℕ)) (r n : ℕ)
    → most demand ≤ r + n
    → length (rounds_from demand r n) ≡ total_from demand r
length-rounds demand r zero h = sym (total_past demand r (omega arith))
length-rounds demand r (suc n) h = ground (
  arith,
  length-append (round demand r) (rounds_from demand (suc r) n),
  length-round demand r,
  length-rounds demand (suc r) n (omega arith),
)

pub length-order :
    (demand : List (ℕ × ℕ)) → length (rounds_from demand 0 (most demand)) ≡ total_from demand 0
length-order demand = length-rounds demand 0 (most demand) (omega arith)
