-- ===== src/Courses/TokenPool.antt =====
-- courses/foreup/token_pool.py: the CAPTCHA tokens that the accounts of one course share.
--
-- Lease keys and tokens are numbers. A lease that was never made reads as an empty one, which the
-- code does not tell apart. A solve of the fill is one step, taken when its provider call ends, so
-- a fill is the sequence of its arrivals in the order in which they land; the bound on concurrent
-- solves decides only when that is. Waiting, deadlines and log lines are left out.
pub mod Rounds
pub mod Fill
pub mod Custody
pub mod Drops
mod Examples
use tee_time_booker.Prelude.{
  ℕ, zero, suc, ◌+◌, max, Bool, true, false, not, ◌&&◌, ◌||◌, Option, none, some, List, [], ◌∷◌,
  ◌++◌, map, select, drop, length, elem, is_empty, ltb, leb, ◌==◌, is_none, if◌then◌else◌, Result,
  ok, err, guard, ◌>>=◌, ◌>>◌,
}

pub record Pool : Type 0 where
  pub leases : ℕ → List ℕ
  pub reserve : List ℕ
  pub demand : List (ℕ × ℕ)
  pub reserve_target : ℕ
  pub t0 : Option ℕ
  pub released : List ℕ
  pub is_filling : Bool
  pub wave1_done : Bool
  pub grant_order : List ℕ
  pub next_grant : ℕ
  pub granted : ℕ → ℕ
  pub solved : ℕ
  pub failures : ℕ

abbrev pub new_pool : Pool
new_pool = record {
  leases = λ key. [];
  reserve = [];
  demand = [];
  reserve_target = 0;
  t0 = none;
  released = [];
  is_filling = false;
  wave1_done = false;
  grant_order = [];
  next_grant = 0;
  granted = λ key. 0;
  solved = 0;
  failures = 0;
}

pub data PoolError : Type 0 where
  after_fill already_registered not_registered not_armed captcha_error : PoolError
  provider_raised : ℕ → PoolError

abbrev pub set_at {ℓ} : {A : Type ℓ} → (ℕ → A) → ℕ → A → ℕ → A
set_at f key value k = if k == key then value else f k

abbrev pub keys_of : List (ℕ × ℕ) → List ℕ
keys_of demand = map (λ d. d.0) demand

unfoldable pub register : ℕ → ℕ → Pool → Result PoolError Pool
register key count p = do
  guard (not p.is_filling) after_fill
  guard (not (elem key (keys_of p.demand))) already_registered
  ok (record p { demand = p.demand ++ ((key, count) ∷ []) })

unfoldable pub set_reserve : ℕ → Pool → Result PoolError Pool
set_reserve count p = do
  guard (not p.is_filling) after_fill
  ok (record p { reserve_target = count })

unfoldable pub arm : ℕ → Pool → Pool
arm t0 p = record p { t0 = some t0 }

-- The keys whose demand exceeds `r`, in draft order.
abbrev pub round : List (ℕ × ℕ) → ℕ → List ℕ
round demand r = keys_of (select (λ d. ltb r d.1) demand)

-- The rounds from `r`, as many as `rounds`.
abbrev pub rounds_from : List (ℕ × ℕ) → ℕ → ℕ → List ℕ
rounds_from demand r zero = []
rounds_from demand r (suc rounds) = round demand r ++ rounds_from demand (suc r) rounds

-- `max(self._demand.values(), default=0)`
abbrev pub most : List (ℕ × ℕ) → ℕ
most [] = 0
most (d ∷ demand) = max d.1 (most demand)

abbrev pub demanded : Pool → ℕ
demanded p = length p.grant_order + p.reserve_target

unfoldable pub start_fill : Pool → Pool
start_fill p =
    let order = rounds_from p.demand 0 (most p.demand) in
    record p { grant_order = order; wave1_done = p.wave1_done || is_empty order; is_filling = true }

-- The loop of `_grant`: the index after the first key that is not released, and that key.
abbrev pub next_key : List ℕ → List ℕ → ℕ → ℕ × Option ℕ
next_key released [] index = (index, none)
next_key released (key ∷ rest) index =
    let later = next_key released rest (suc index) in
    if elem key released then later else (suc index, some key)

abbrev pub hand_to : Option ℕ → ℕ → Pool → Pool
hand_to none token p = record p { reserve = p.reserve ++ (token ∷ []) }
hand_to (some key) token p = record p {
  leases = set_at p.leases key (p.leases key ++ (token ∷ []));
  granted = set_at p.granted key (p.granted key + 1);
}

unfoldable pub grant : ℕ → Pool → Pool
grant token p =
    let (index, key) = next_key p.released (drop p.next_grant p.grant_order) p.next_grant in
    hand_to key token (record p { next_grant = index })

unfoldable pub maybe_wave1_done : Pool → Pool
maybe_wave1_done p = record p {
  wave1_done =
      p.wave1_done
      || (leb (length p.grant_order) p.next_grant || leb (demanded p) (p.solved + p.failures));
}

-- One solve of the fill, with the token that its provider call gave, or `none` where it raised.
unfoldable pub one : Option ℕ → Pool → Pool
one none p = maybe_wave1_done (record p { failures = p.failures + 1 })
one (some token) p = maybe_wave1_done (grant token (record p { solved = p.solved + 1 }))

-- The solves of the fill, in the order in which they end; then it sets its event.
unfoldable pub fill : List (Option ℕ) → Pool → Pool
fill [] p = record p { wave1_done = true }
fill (arrival ∷ rest) p = fill rest (one arrival p)

-- What one provider call gave: a token, a `TimeoutError`, or another exception.
pub data Solve : Type 0 where
  solved_token raised_other : ℕ → Solve
  timed_out : Solve

abbrev pub tokens_of : List Solve → List ℕ
tokens_of [] = []
tokens_of (solved_token token ∷ rest) = token ∷ tokens_of rest
tokens_of (_ ∷ rest) = tokens_of rest

-- Nothing was solved: a lone call's exception is raised, that of several is only logged.
abbrev pub none_solved : List Solve → Pool → Result PoolError Pool
none_solved (timed_out ∷ []) p = err captcha_error
none_solved (raised_other n ∷ []) p = err (provider_raised n)
none_solved _ p = ok p

-- `results` are those of the provider calls; there are `count` of them.
unfoldable pub prefetch_uncoordinated : ℕ → List Solve → Pool → Result PoolError Pool
prefetch_uncoordinated key results p =
    let tokens = tokens_of results in
    if is_empty tokens
    then none_solved results p
    else ok (record p { leases = set_at p.leases key (p.leases key ++ tokens) })

-- `prefetch`, up to its wait.
unfoldable pub prefetch : ℕ → List Solve → Pool → Result PoolError Pool
prefetch key results p =
    if not (elem key (keys_of p.demand))
    then if is_empty p.demand then prefetch_uncoordinated key results p else err not_registered
    else if is_none p.t0
    then err not_armed
    else if p.is_filling
    then ok p
    else ok (start_fill p)

unfoldable pub lease_size : ℕ → Pool → ℕ
lease_size key p = length (p.leases key)

abbrev pub pop_reserve : List ℕ → Pool → Option ℕ × Pool
pop_reserve [] p = (none, p)
pop_reserve (token ∷ rest) p = (some token, record p { reserve = rest })

abbrev pub pop_lease : ℕ → List ℕ → Pool → Option ℕ × Pool
pop_lease key [] p = pop_reserve p.reserve p
pop_lease key (token ∷ rest) p = (some token, record p { leases = set_at p.leases key rest })

unfoldable pub pop : ℕ → Pool → Option ℕ × Pool
pop key p = pop_lease key (p.leases key) p

-- The unused tokens of a lease go to the front of the reserve, the oldest first.
unfoldable pub release : ℕ → Pool → Pool
release key p = record p {
  released = key ∷ p.released;
  reserve = p.leases key ++ p.reserve;
  leases = set_at p.leases key [];
}
