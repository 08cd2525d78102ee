-- ===== src/Tenant/Retry/Ends.antt =====
-- The fuel of the retry loop of tenant/retry.py.
use tee_time_booker.Tenant.Retry.{
  Failure, RetryPolicy, retry_turn, retry_from, retry_transient, is_final_try, delay_after,
  retry_after,
}
use tee_time_booker.Prelude.{
  Bool, Bool-cases, ◌<◌, Option, Result, arith, err, false, inl, inr, is_none, ok, refl, suc, zero,
  ℕ, ◌+◌, ◌≡◌, ◌≤◌,
}

module _ {A W : Type 0} (make_call : W → Result Failure A × W) (now : W → ℕ) (sleep : ℕ → W → W)
    (policy : RetryPolicy) (not_after : Option ℕ) where
  turn_answers :
      (answer : Result Failure A) (is_last : Failure → Bool) (after : W)
      (next : Failure → Option (Result Failure A × W))
      → ((exc : Failure) → is_last exc ≡ false → is_none (next exc) ≡ false)
      → is_none (retry_turn answer is_last after next) ≡ false
  turn_answers (ok a) is_last after next h = refl
  turn_answers (err exc) is_last after next h = elim (Bool-cases (is_last exc)) [
    | inl e ↦ rw e
    | inr e ↦ rw e (h exc e)
  ]

  early_try :
      (attempt ends : ℕ) (exc : Failure)
      → is_final_try policy not_after attempt ends exc ≡ false
      → attempt < policy.attempts
  early_try attempt ends exc e = ground (arith, e)

  -- With fuel for the attempts left the loop gives an answer.
  attempts_suffice :
      (fuel attempt : ℕ) (w : W)
      → policy.attempts + 1 ≤ fuel + attempt
      → 1 ≤ fuel
      → is_none (retry_from make_call now sleep policy not_after fuel attempt w) ≡ false
  unfolding retry_from
  attempts_suffice zero attempt w enough more = absurd (omega (arith, more))
  attempts_suffice (suc fuel) attempt w enough more =
      turn_answers (make_call w).0
        (λ exc. is_final_try policy not_after attempt (now (make_call w).1) exc) (make_call w).1
        (λ exc.
          retry_from make_call now sleep policy not_after fuel (suc attempt)
            (sleep (delay_after policy attempt (retry_after exc)) (make_call w).1))
        (λ exc going.
          let early = early_try attempt (now (make_call w).1) exc going in
          attempts_suffice fuel (suc attempt) _ (omega (arith, early, enough))
            (omega (arith, early, enough)))

  -- A policy of at least one attempt always gives an answer, within its attempts.
  retry_transient_ends :
      1 ≤ policy.attempts
      → (w : W) → is_none (retry_transient make_call now sleep policy not_after w) ≡ false
  unfolding retry_transient
  retry_transient_ends valid w = attempts_suffice policy.attempts 1 w (omega arith) valid
