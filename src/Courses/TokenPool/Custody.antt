-- ===== src/Courses/TokenPool/Custody.antt =====
-- No token is lost or used twice, in whatever order solves end, posts pop and accounts leave.
use tee_time_booker.Prelude.{
  ◌++◌, Option-cases, ◌⊎◌, ==_refl, ne→==_false, ℕ, zero, suc, ◌+◌, ◌≡◌, refl, sym, subst, inl, inr,
  Option, none, some, List, [], ◌∷◌, drop, elem, Member, IsDistinct, Bool-cases, arith,
}
use tee_time_booker.Courses.TokenPool.{
  pop_reserve, hand_to, pop_lease, grant, maybe_wave1_done, Pool, next_key, one, set_at, pop,
  release,
}
use tee_time_booker.Courses.TokenPool.Rounds.{count-append, count_of}

-- What the fill, the posts and the runner do to a pool while the drop runs.
pub data Event : Type 0 where
  solve_ends : Option ℕ → Event
  takes leaves : ℕ → Event

abbrev pub with_popped : Option ℕ → List ℕ → List ℕ
with_popped none tokens = tokens
with_popped (some token) tokens = token ∷ tokens

-- The tokens that were popped, in order, and the pool at the end.
unfoldable pub run : List Event → Pool → List ℕ × Pool
run [] p = ([], p)
run (solve_ends arrival ∷ rest) p = run rest (one arrival p)
run (takes key ∷ rest) p =
    let (token, q) = pop key p in
    let (tokens, last) = run rest q in (with_popped token tokens, last)
run (leaves key ∷ rest) p = run rest (release key p)

abbrev pub arrived : List Event → List ℕ
arrived [] = []
arrived (solve_ends arrival ∷ rest) = with_popped arrival (arrived rest)
arrived (takes key ∷ rest) = arrived rest
arrived (leaves key ∷ rest) = arrived rest

abbrev pub Uses : List ℕ → Event → Type 0
Uses keys (solve_ends arrival) = Unit
Uses keys (takes key) = Member key keys
Uses keys (leaves key) = Member key keys

abbrev pub lease_total : ℕ → List ℕ → (ℕ → List ℕ) → ℕ
lease_total t [] leases = 0
lease_total t (key ∷ keys) leases = count_of t (leases key) + lease_total t keys leases

-- How often the pool holds the token, in the leases of `keys` and in the reserve.
abbrev pub held_count : ℕ → List ℕ → Pool → ℕ
held_count t keys p = lease_total t keys p.leases + count_of t p.reserve

outside :
    (t : ℕ) (keys : List ℕ) (leases : ℕ → List ℕ) (key : ℕ) (value : List ℕ)
    → (¬ Member key keys)
    → lease_total t keys (set_at leases key value) ≡ lease_total t keys leases
outside t [] leases key value out = refl
outside t (k ∷ keys) leases key value out =
    rw (
      ne→==_false k key (λ e. out (inl (sym e))),
      outside t keys leases key value (λ m. out (inr m)),
    )

inside :
    (t : ℕ) (keys : List ℕ) (leases : ℕ → List ℕ) (key : ℕ) (value : List ℕ)
    → IsDistinct keys
    → Member key keys
    → lease_total t keys (set_at leases key value) + count_of t (leases key)
      ≡ lease_total t keys leases + count_of t value
inside t [] leases key value h m = absurd m
inside t (k ∷ keys) leases key value h (inl e) =
    subst
      (λ j.
        lease_total t (k ∷ keys) (set_at leases j value) + count_of t (leases j)
        ≡ lease_total t (k ∷ keys) leases + count_of t value)
      (sym e) (rw (==_refl k, outside t keys leases k value h.0) (omega arith))
inside t (k ∷ keys) leases key value h (inr m) =
    rw (ne→==_false k key (λ e. h.0 (subst (λ j. Member j keys) (sym e) m)))
      (omega (arith, inside t keys leases key value h.1 m))

Member-drop : (k n : ℕ) (xs : List ℕ) → Member k (drop n xs) → Member k xs
Member-drop k zero xs m = m
Member-drop k (suc n) [] m = m
Member-drop k (suc n) (x ∷ xs) m = inr (Member-drop k n xs m)

next_key-Member :
    (released xs : List ℕ) (index key : ℕ)
    → (next_key released xs index).1 ≡ some key
    → Member key xs
next_key-Member released [] index key h = absurd (cc h)
next_key-Member released (x ∷ xs) index key h = elim (Bool-cases (elem x released)) [
  | inl e ↦ inr (next_key-Member released xs (suc index) key (rw e at h))
  | inr e ↦ let p = rw e at h in inl (ground (arith, p))
]

module _ (t : ℕ) (keys : List ℕ) (keys_distinct : IsDistinct keys) where
  hand_to_held :
      (key : Option ℕ) (token : ℕ) (p : Pool)
      → (key ≡ none) ⊎ ((k : ℕ) × (key ≡ some k) × Member k keys)
      → held_count t keys (hand_to key token p) ≡ held_count t keys p + count_of t (token ∷ [])
  hand_to_held key token p (inl e) = rw e (omega (arith, count-append t p.reserve (token ∷ [])))
  hand_to_held key token p (inr (k, e, m)) = rw e (
      omega (
        arith,
        inside t keys p.leases k (p.leases k ++ (token ∷ [])) keys_distinct m,
        count-append t (p.leases k) (token ∷ []),
      ))

  grant_held :
      (token : ℕ) (p : Pool)
      → ((k : ℕ) → Member k p.grant_order → Member k keys)
      → held_count t keys (grant token p) ≡ held_count t keys p + count_of t (token ∷ [])
  unfolding grant
  grant_held token p within =
      hand_to_held (next_key p.released (drop p.next_grant p.grant_order) p.next_grant).1 token
        (record p {
          next_grant = (next_key p.released (drop p.next_grant p.grant_order) p.next_grant).0;
        })
        (elim (Option-cases
          (next_key p.released (drop p.next_grant p.grant_order) p.next_grant).1) [
            | inl e ↦ inl e
            | inr (k, e) ↦ inr (
              k,
              e,
              within k (
                  Member-drop k p.next_grant p.grant_order (
                    next_key-Member p.released (drop p.next_grant p.grant_order) p.next_grant k e)),
            )
          ])

  pub one_held :
      (arrival : Option ℕ) (p : Pool)
      → ((k : ℕ) → Member k p.grant_order → Member k keys)
      → held_count t keys (one arrival p)
        ≡ held_count t keys p + count_of t (with_popped arrival [])
  unfolding one maybe_wave1_done
  one_held none p within = omega arith
  one_held (some token) p within = grant_held token (record p { solved = p.solved + 1 }) within

  pop_lease_held :
      (key : ℕ) (lease : List ℕ) (p : Pool)
      → p.leases key ≡ lease
      → Member key keys
      → held_count t keys (pop_lease key lease p).1
          + count_of t (with_popped (pop_lease key lease p).0 [])
        ≡ held_count t keys p
  pop_lease_held key [] p e m = from_reserve p.reserve refl
    where
      from_reserve :
          (reserve : List ℕ)
          → p.reserve ≡ reserve
          → held_count t keys (pop_reserve reserve p).1
              + count_of t (with_popped (pop_reserve reserve p).0 [])
            ≡ held_count t keys p
      from_reserve [] f = omega arith
      from_reserve (token ∷ rest) f = rw f (ground arith)
  pop_lease_held key (token ∷ rest) p e m =
      let moved = inside t keys p.leases key rest keys_distinct m in ground (arith, rw e at moved)

  pub pop_held :
      (key : ℕ) (p : Pool)
      → Member key keys
      → held_count t keys (pop key p).1 + count_of t (with_popped (pop key p).0 [])
        ≡ held_count t keys p
  unfolding pop
  pop_held key p m = pop_lease_held key (p.leases key) p refl m

  pub release_held :
      (key : ℕ) (p : Pool)
      → Member key keys
      → held_count t keys (release key p) ≡ held_count t keys p
  unfolding release
  release_held key p m = omega (
    arith,
    inside t keys p.leases key [] keys_distinct m,
    count-append t (p.leases key) p.reserve,
  )
