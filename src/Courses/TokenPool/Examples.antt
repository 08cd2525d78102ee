-- ===== src/Courses/TokenPool/Examples.antt =====
-- Two accounts that ask for two tokens and one, and a drop in which one of them leaves.
use tee_time_booker.Prelude.{
  ℕ, suc, ◌+◌, ◌≤◌, ◌≡◌, ◌⊎◌, refl, inl, inr, Option, none, some, List, [], ◌∷◌, ◌++◌, drop, Result,
  ok, err, ◌>>=◌, arith, length,
}
use tee_time_booker.Courses.TokenPool.{
  Pool, PoolError, new_pool, register, set_reserve, arm, start_fill, fill, one, grant,
  maybe_wave1_done, pop, release,
}
use tee_time_booker.Courses.TokenPool.Rounds.{count_of, demand_for}
use tee_time_booker.Courses.TokenPool.Fill.{IsFresh, fill_fair, fill_serves}
use tee_time_booker.Courses.TokenPool.Custody.{
  Event, solve_ends, takes, leaves, run, arrived, held_count,
}
use tee_time_booker.Courses.TokenPool.Drops.{run_conserves}

abbrev or_new : Result PoolError Pool → Pool
or_new (ok p) = p
or_new (err e) = new_pool

-- Key 7 asks for two tokens and key 8 for one, with a reserve of one.
abbrev registered : Result PoolError Pool
registered = do p ← register 7 2 new_pool; q ← register 8 1 p; set_reserve 1 q

two_keys : Pool
unfolding register set_reserve arm
two_keys = arm 1000 (or_new registered)

two_keys-IsFresh : IsFresh two_keys
unfolding two_keys
two_keys-IsFresh = record {
  none_released = refl;
  at_start = refl;
  none_leased = λ k. refl;
  keys_distinct = ((λ m. ground arith), ((λ m. m), tt));
}

abbrev arrivals : List (Option ℕ)
arrivals = some 101 ∷ none ∷ some 102 ∷ some 103 ∷ some 104 ∷ []

fills :
    ((fill arrivals (start_fill two_keys)).leases 7 ≡ 101 ∷ 103 ∷ [])
    × ((fill arrivals (start_fill two_keys)).leases 8 ≡ 102 ∷ [])
    × ((fill arrivals (start_fill two_keys)).reserve ≡ 104 ∷ [])
unfolding two_keys fill start_fill one grant maybe_wave1_done
fills = (refl, refl, refl)

fill_fair_example :
    (length ((fill (some 101 ∷ []) (start_fill two_keys)).leases 8) ≤ demand_for two_keys.demand 8)
    × ((length ((fill (some 101 ∷ []) (start_fill two_keys)).leases 7)
          ≤ suc (length ((fill (some 101 ∷ []) (start_fill two_keys)).leases 8)))
        ⊎ (length ((fill (some 101 ∷ []) (start_fill two_keys)).leases 8)
            ≡ demand_for two_keys.demand 8))
fill_fair_example = fill_fair two_keys (some 101 ∷ []) two_keys-IsFresh 8 7

fill_serves_example :
    ((k : ℕ)
      → length ((fill arrivals (start_fill two_keys)).leases k) ≡ demand_for two_keys.demand k)
    × ((fill arrivals (start_fill two_keys)).reserve
        ≡ two_keys.reserve ++ drop 3 (101 ∷ 102 ∷ 103 ∷ 104 ∷ []))
unfolding two_keys
fill_serves_example = fill_serves two_keys arrivals two_keys-IsFresh (omega arith)

-- Key 8 leaves with its token unused, and key 7 pops it from the reserve at last.
abbrev events : List Event
events =
    solve_ends (some 101)
    ∷ solve_ends (some 102)
    ∷ takes 7
    ∷ leaves 8
    ∷ takes 7
    ∷ solve_ends none
    ∷ []

uses_both : (run events (start_fill two_keys)).0 ≡ 101 ∷ 102 ∷ []
unfolding two_keys run start_fill one grant maybe_wave1_done pop release
uses_both = refl

run_conserves_example :
    count_of 102 (run events (start_fill two_keys)).0
      + held_count 102 (7 ∷ 8 ∷ []) (run events (start_fill two_keys)).1
    ≡ held_count 102 (7 ∷ 8 ∷ []) (start_fill two_keys) + count_of 102 (arrived events)
unfolding two_keys start_fill
run_conserves_example =
    run_conserves 102 (7 ∷ 8 ∷ []) ((λ m. ground arith), ((λ m. m), tt)) events
      (start_fill two_keys) (λ k m. ground arith)
      (tt, (tt, (inl refl, (inr (inl refl), (inl refl, (tt, tt))))))
