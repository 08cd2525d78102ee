-- ===== src/Courses/TokenPool/Drops.antt =====
-- A whole drop: the tokens that came are the tokens that were used and those that are left.
use tee_time_booker.Prelude.{
  ℕ, ◌+◌, ◌≡◌, refl, subst, Option, none, some, List, [], ◌∷◌, Member, All, IsDistinct, arith,
}
use tee_time_booker.Courses.TokenPool.{
  Pool, hand_to, grant, maybe_wave1_done, one, pop, pop_lease, pop_reserve, release,
}
use tee_time_booker.Courses.TokenPool.Rounds.{count_of}
use tee_time_booker.Courses.TokenPool.Custody.{
  Event, solve_ends, takes, leaves, run, arrived, Uses, with_popped, held_count, one_held, pop_held,
  release_held,
}

order-hand_to :
    (key : Option ℕ) (token : ℕ) (p : Pool) → (hand_to key token p).grant_order ≡ p.grant_order
order-hand_to none token p = refl
order-hand_to (some key) token p = refl

order-one : (arrival : Option ℕ) (p : Pool) → (one arrival p).grant_order ≡ p.grant_order
unfolding one maybe_wave1_done grant
order-one none p = refl
order-one (some token) p = order-hand_to _ token _

order-pop_reserve :
    (reserve : List ℕ) (p : Pool) → (pop_reserve reserve p).1.grant_order ≡ p.grant_order
order-pop_reserve [] p = refl
order-pop_reserve (token ∷ rest) p = refl

order-pop_lease :
    (key : ℕ) (lease : List ℕ) (p : Pool) → (pop_lease key lease p).1.grant_order ≡ p.grant_order
order-pop_lease key [] p = order-pop_reserve p.reserve p
order-pop_lease key (token ∷ rest) p = refl

order-pop : (key : ℕ) (p : Pool) → (pop key p).1.grant_order ≡ p.grant_order
unfolding pop
order-pop key p = order-pop_lease key (p.leases key) p

order-release : (key : ℕ) (p : Pool) → (release key p).grant_order ≡ p.grant_order
unfolding release
order-release key p = refl

count-with_popped :
    (t : ℕ) (token : Option ℕ) (tokens : List ℕ)
    → count_of t (with_popped token tokens) ≡ count_of t (with_popped token []) + count_of t tokens
count-with_popped t none tokens = omega arith
count-with_popped t (some token) tokens = ground arith

-- Whatever the events and their order, each token was used or is still held exactly as often as it
-- was held at first or came: a token that came once is used at most once, and none is lost. The
-- keys are distinct, and the grant order and the events name no other one.
pub run_conserves :
    (t : ℕ) (keys : List ℕ)
    → IsDistinct keys
    → (events : List Event) (p : Pool) → ((k : ℕ) → Member k p.grant_order → Member k keys)
    → All (Uses keys) events
    → count_of t (run events p).0 + held_count t keys (run events p).1
      ≡ held_count t keys p + count_of t (arrived events)
unfolding run
run_conserves t keys distinct [] p within uses = omega arith
run_conserves t keys distinct (solve_ends arrival ∷ rest) p within uses = omega (
  arith,
  run_conserves t keys distinct rest (one arrival p)
      (λ k m. within k (subst (Member k) (order-one arrival p) m)) uses.1,
  one_held t keys distinct arrival p within,
  count-with_popped t arrival (arrived rest),
)
run_conserves t keys distinct (takes key ∷ rest) p within uses = omega (
  arith,
  run_conserves t keys distinct rest (pop key p).1
      (λ k m. within k (subst (Member k) (order-pop key p) m)) uses.1,
  pop_held t keys distinct key p uses.0,
  count-with_popped t (pop key p).0 (run rest (pop key p).1).0,
)
run_conserves t keys distinct (leaves key ∷ rest) p within uses = omega (
  arith,
  run_conserves t keys distinct rest (release key p)
      (λ k m. within k (subst (Member k) (order-release key p) m)) uses.1,
  release_held t keys distinct key p uses.0,
)
