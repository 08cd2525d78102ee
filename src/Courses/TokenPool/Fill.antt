-- ===== src/Courses/TokenPool/Fill.antt =====
-- The coordinated fill hands the tokens out in the grant order, and the surplus to the reserve.
use tee_time_booker.Prelude.{
  zero, ◌⊎◌, ◌≤◌, ◌+◌, take, ℕ, suc, ◌≡◌, refl, sym, ap, ◌∙◌, Option, none, some, List, [], ◌∷◌,
  ◌++◌, drop, length, length-append, IsDistinct, arith, if◌then◌else◌, ◌==◌, Bool-cases, inl, inr,
}
use tee_time_booker.Courses.TokenPool.{
  most, start_fill, rounds_from, maybe_wave1_done, one, fill, Pool, keys_of, next_key, hand_to,
  grant, set_at,
}
use tee_time_booker.Courses.TokenPool.Rounds.{
  count-order, length-order, take-all-of, total_from, prefix_fair, count-taken, demand_for,
  count_of, count-append,
}

-- The tokens that arrived.
abbrev pub oks : List (Option ℕ) → List ℕ
oks [] = []
oks (none ∷ rest) = oks rest
oks (some token ∷ rest) = token ∷ oks rest

-- A pool that holds no leased token, and whose keys registered once each.
pub record IsFresh (p : Pool) : Type 0 where
  pub none_released : p.released ≡ []
  pub at_start : p.next_grant ≡ 0
  pub none_leased : (k : ℕ) → p.leases k ≡ []
  pub keys_distinct : IsDistinct (keys_of p.demand)

-- The pool has handed out the grants of `done`, and those of `todo` are ahead.
record Progress (q : Pool) (done todo : List ℕ) : Type 0 where
  order : q.grant_order ≡ done ++ todo
  index : q.next_grant ≡ length done
  nobody : q.released ≡ []
  counts : (k : ℕ) → length (q.leases k) ≡ count_of k done

drop-append : (xs ys : List ℕ) → drop (length xs) (xs ++ ys) ≡ ys
drop-append [] ys = refl
drop-append (x ∷ xs) ys = drop-append xs ys

append_one : (xs : List ℕ) (y : ℕ) (ys : List ℕ) → (xs ++ (y ∷ [])) ++ ys ≡ xs ++ (y ∷ ys)
append_one [] y ys = refl
append_one (x ∷ xs) y ys = ap (λ l. x ∷ l) (append_one xs y ys)

append-[] : (xs : List ℕ) → xs ++ [] ≡ xs
append-[] [] = refl
append-[] (x ∷ xs) = ap (λ l. x ∷ l) (append-[] xs)

module _ (q : Pool) (done todo : List ℕ) (pr : Progress q done todo) where
  remaining : drop q.next_grant q.grant_order ≡ todo
  remaining = rw (pr.index, pr.order) (drop-append done todo)

  grant_value :
      (token : ℕ) (next : ℕ × Option ℕ)
      → next_key [] todo q.next_grant ≡ next
      → grant token q ≡ hand_to next.1 token (record q { next_grant = next.0 })
  unfolding grant
  grant_value token next e =
      ap {A = ℕ × Option ℕ} (λ n. hand_to n.1 token (record q { next_grant = n.0 }))
        (rw (pr.nobody, remaining) e)

-- A token handed to a key makes that key's lease longer by one, and no other.
length_handed :
    (leases : ℕ → List ℕ) (key token k : ℕ)
    → length (set_at leases key (leases key ++ (token ∷ [])) k)
      ≡ (if k == key then length (leases key) + 1 else length (leases k))
length_handed leases key token k = elim (Bool-cases (k == key)) [
  | inl e ↦ rw e (length-append (leases key) (token ∷ []))
  | inr e ↦ rw e refl
]

grant_next :
    (q : Pool) (done : List ℕ) (key : ℕ) (todo : List ℕ) (token : ℕ)
    → Progress q done (key ∷ todo)
    → Progress (grant token q) (done ++ (key ∷ [])) todo × ((grant token q).reserve ≡ q.reserve)
grant_next q done key todo token pr =
    rw (grant_value q done (key ∷ todo) pr token (suc q.next_grant, some key) refl) (
      record {
        order = pr.order ∙ sym (append_one done key todo);
        index = ground (arith, pr.index, length-append done (key ∷ []));
        nobody = pr.nobody;
        counts = λ k. ground (
          arith,
          length_handed q.leases key token k,
          pr.counts k,
          pr.counts key,
          count-append k done (key ∷ []),
        );
      },
      refl,
    )

grant_spare :
    (q : Pool) (done : List ℕ) (token : ℕ)
    → Progress q done []
    → Progress (grant token q) done [] × ((grant token q).reserve ≡ q.reserve ++ (token ∷ []))
grant_spare q done token pr =
    rw (grant_value q done [] pr token (q.next_grant, none) refl)
      (record { order = pr.order; index = pr.index; nobody = pr.nobody; counts = pr.counts }, refl)

drop-[] : (n : ℕ) → drop {A = ℕ} n [] ≡ []
drop-[] zero = refl
drop-[] (suc n) = refl

take-[] : (n : ℕ) → take {A = ℕ} n [] ≡ []
take-[] zero = refl
take-[] (suc n) = refl

abbrev solved_one : Pool → Pool
solved_one q = record q { solved = q.solved + 1 }

after_solve :
    (q : Pool) (done todo : List ℕ) → Progress q done todo → Progress (solved_one q) done todo
after_solve q done todo pr = record {
  order = pr.order;
  index = pr.index;
  nobody = pr.nobody;
  counts = pr.counts;
}

-- After the arrivals, as many grants are handed out as tokens came, and the rest is spare.
filled :
    (arrivals : List (Option ℕ)) (q : Pool) (done todo : List ℕ)
    → Progress q done todo
    → ((k : ℕ)
        → length ((fill arrivals q).leases k)
          ≡ count_of k (done ++ take (length (oks arrivals)) todo))
      × ((fill arrivals q).reserve ≡ q.reserve ++ drop (length todo) (oks arrivals))
unfolding fill one maybe_wave1_done
filled [] q done todo pr = (
  (λ k. pr.counts k ∙ ap (count_of k) (sym (append-[] done))),
  sym (ap (λ l. q.reserve ++ l) (drop-[] (length todo)) ∙ append-[] q.reserve),
)
filled (none ∷ rest) q done todo pr =
    filled rest (one none q) done todo
      (record { order = pr.order; index = pr.index; nobody = pr.nobody; counts = pr.counts })
filled (some token ∷ rest) q done [] pr =
    let (pr', same) = grant_spare (solved_one q) done token (after_solve q done [] pr) in
    let (counts, spare) =
      filled rest (maybe_wave1_done (grant token (solved_one q))) done [] (record {
        order = pr'.order;
        index = pr'.index;
        nobody = pr'.nobody;
        counts = pr'.counts;
      }) in
    (
      (λ k. counts k ∙ ap (λ l. count_of k (done ++ l)) (take-[] (length (oks rest)))),
      spare ∙ (ap (λ l. l ++ oks rest) same ∙ append_one q.reserve token (oks rest)),
    )
filled (some token ∷ rest) q done (key ∷ todo) pr =
    let (pr', same) =
      grant_next (solved_one q) done key todo token (after_solve q done (key ∷ todo) pr) in
    let (counts, spare) =
      filled rest (maybe_wave1_done (grant token (solved_one q))) (done ++ (key ∷ [])) todo
        (record {
          order = pr'.order;
          index = pr'.index;
          nobody = pr'.nobody;
          counts = pr'.counts;
        }) in
    (
      (λ k. counts k ∙ ap (count_of k) (append_one done key (take (length (oks rest)) todo))),
      spare ∙ ap (λ l. l ++ drop (length todo) (oks rest)) same,
    )

module _ (p : Pool) (arrivals : List (Option ℕ)) (fresh : IsFresh p) where
  abbrev filled_pool : Pool
  filled_pool = fill arrivals (start_fill p)

  start-Progress : Progress (start_fill p) [] (rounds_from p.demand 0 (most p.demand))
  unfolding start_fill
  start-Progress = record {
    order = refl;
    index = fresh.at_start;
    nobody = fresh.none_released;
    counts = λ k. ap (λ l. length l) (fresh.none_leased k);
  }

  leased-eq :
      (k : ℕ)
      → length (filled_pool.leases k)
        ≡ count_of k (take (length (oks arrivals)) (rounds_from p.demand 0 (most p.demand)))
  leased-eq =
      (filled arrivals (start_fill p) [] (rounds_from p.demand 0 (most p.demand)) start-Progress).0

  -- In a pool with no leased token, no key that left, and keys that registered once each: whatever
  -- order and number the solves end in, no key's lease holds more tokens than it asked for, and a
  -- lease is at most one token ahead of another, unless that other one has all that it asked for.
  pub fill_fair :
      (a b : ℕ)
      → (length (filled_pool.leases a) ≤ demand_for p.demand a)
        × ((length (filled_pool.leases b) ≤ suc (length (filled_pool.leases a)))
            ⊎ (length (filled_pool.leases a) ≡ demand_for p.demand a))
  fill_fair a b =
      rw (leased-eq a, leased-eq b)
        (
          count-taken p.demand a (length (oks arrivals)) fresh.keys_distinct,
          ground (
            arith,
            prefix_fair p.demand a b 0 (most p.demand) (length (oks arrivals)) fresh.keys_distinct,
          ),
        )

  -- In a pool with no leased token, no key that left, and keys that registered once each: where at
  -- least as many solves succeed as the keys asked for together, every key's lease holds as many
  -- tokens as it asked for, and the later tokens go to the back of the reserve, in the order of arrival.
  pub fill_serves :
      total_from p.demand 0 ≤ length (oks arrivals)
      → ((k : ℕ) → length (filled_pool.leases k) ≡ demand_for p.demand k)
        × (filled_pool.reserve ≡ p.reserve ++ drop (total_from p.demand 0) (oks arrivals))
  unfolding start_fill
  fill_serves enough = (
    (λ k.
        leased-eq k
        ∙ (ap (count_of k) (
              take-all-of (length (oks arrivals)) (rounds_from p.demand 0 (most p.demand))
                (omega (arith, enough, length-order p.demand)))
            ∙ count-order p.demand k fresh.keys_distinct)),
    (filled arrivals (start_fill p) [] (rounds_from p.demand 0 (most p.demand)) start-Progress).1
        ∙ ap (λ n. p.reserve ++ drop n (oks arrivals)) (length-order p.demand),
  )
