-- ===== src/Tenant/Retry.antt =====
-- tenant/retry.py: the bounded retry of the store's transient failures. Times are in milliseconds.
-- An answer's leaf is what azure raised: a response with its status and retry-after hint, a lost
-- request or response, a client timeout, or any other exception.
use tee_time_booker.Prelude.{
  Bool, Option, Result, err, false, if◌then◌else◌, leb, min, none, not, ok, some, suc, true, zero,
  ℕ, ◌&&◌, ◌*◌, ◌+◌, ◌==◌, ◌||◌,
}
pub mod Ends

pub data Leaf : Type 0 where
  http_response : (status : ℕ) (retry_after : Option ℕ) → Leaf
  request_error response_error client_timeout other_leaf : Leaf

mutual
  pub data Failure : Type 0 where
    single : Leaf → Failure
    group : Failures → Failure

  pub data Failures : Type 0 where
    no_more : Failures
    more : Failure → Failures → Failures

-- `TRANSIENT_STATUSES`
abbrev pub is_transient_status : ℕ → Bool
is_transient_status n =
    n == 408 || (n == 429 || (n == 449 || (n == 500 || (n == 502 || (n == 503 || n == 504)))))

abbrev pub is_transient_leaf : Leaf → Bool
is_transient_leaf (http_response status _) = is_transient_status status
is_transient_leaf request_error = true
is_transient_leaf response_error = true
is_transient_leaf client_timeout = true
is_transient_leaf other_leaf = false

abbrev pub has_leaves : Failures → Bool
has_leaves no_more = false
has_leaves (more _ _) = true

mutual
  pub is_transient_store_error : Failure → Bool
  is_transient_store_error (single leaf) = is_transient_leaf leaf
  is_transient_store_error (group failures) = has_leaves failures && all_transient failures

  pub all_transient : Failures → Bool
  all_transient no_more = true
  all_transient (more failure rest) = is_transient_store_error failure && all_transient rest

-- `_retry_after_s`; a group has no headers.
abbrev pub retry_after : Failure → Option ℕ
retry_after (single (http_response _ hint)) = hint
retry_after _ = none

pub record RetryPolicy : Type 0 where
  attempts : ℕ
  backoff_ms : ℕ
  max_delay_ms : ℕ

abbrev pub default_store_retry : RetryPolicy
default_store_retry = record { attempts = 3; backoff_ms = 1000; max_delay_ms = 10_000 }

abbrev pub delay_after : RetryPolicy → ℕ → Option ℕ → ℕ
delay_after policy attempt (some hint) = min policy.max_delay_ms hint
delay_after policy attempt none = min policy.max_delay_ms (policy.backoff_ms * attempt)

-- `not_after is not None and now + delay >= not_after`
abbrev pub is_too_late : Option ℕ → ℕ → Bool
is_too_late none _ = false
is_too_late (some last) ends = leb last ends

-- Whether the failure of an attempt, with the clock at `time`, is raised and not retried.
abbrev pub is_final_try : RetryPolicy → Option ℕ → (attempt time : ℕ) → Failure → Bool
is_final_try policy not_after attempt time exc =
    not (is_transient_store_error exc)
    || (leb policy.attempts attempt
        || is_too_late not_after (time + delay_after policy attempt (retry_after exc)))

-- What the loop does with one attempt's answer; the outer `none` is fuel that ran out.
abbrev pub retry_turn :
    {A W : Type 0}
    → Result Failure A
    → (is_last : Failure → Bool) → (after : W) → (next : Failure → Option (Result Failure A × W))
    → Option (Result Failure A × W)
retry_turn (ok a) is_last after next = some (ok a, after)
retry_turn (err exc) is_last after next = if is_last exc then some (err exc, after) else next exc

module _ {A W : Type 0} (make_call : W → Result Failure A × W) (now : W → ℕ) (sleep : ℕ → W → W)
    (policy : RetryPolicy) (not_after : Option ℕ) where
  -- `retry_transient`'s loop from one attempt.
  unfoldable pub retry_from : (fuel attempt : ℕ) → W → Option (Result Failure A × W)
  retry_from zero attempt w = none
  retry_from (suc fuel) attempt w =
      let (answer, after) = make_call w in
      retry_turn answer (is_final_try policy not_after attempt (now after)) after (λ exc.
        retry_from fuel (suc attempt) (sleep (delay_after policy attempt (retry_after exc)) after))

  unfoldable pub retry_transient : W → Option (Result Failure A × W)
  retry_transient w = retry_from policy.attempts 1 w
