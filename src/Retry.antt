-- ===== src/Retry.antt =====
-- packages/circuit-breaker/src/retry.ts, the class `RetryPolicy`. What the function gives at each
-- attempt, the time of the attempt, and whether the circuit breaker of the policy is open then, are
-- arguments, and so is whether the text of an error holds one of the patterns. The delays only wait:
-- `calculateDelay` and its random jitter are left out, as are listeners, `onRetry`, and the success
-- that is recorded in the breaker. Nothing else uses the policy while it executes.
use edge_cloud_orchestrator.Prelude.{
  ℕ, suc, zero, ◌+◌, Bool, true, false, List, [], ◌∷◌, ◌++◌, Option, none, some, ltb, leb,
  if◌then◌else◌, ◌&&◌, not,
}
pub mod Budget
pub mod Attempts
mod Examples

pub record RetryBudget : Type 0 where
  pub max_retries_per_window : ℕ
  pub window : ℕ

pub record RetryPolicy : Type 0 where
  pub max_attempts : ℕ
  pub retry_budget : Option RetryBudget
  pub retry_count : ℕ
  pub window_start_time : ℕ

pub data Reply : Type 0 where
  resolves : ℕ → Reply
  rejects : ℕ → Reply

-- What `execute` gives: the value, or one of its errors, with the number of the last attempt.
pub data Result : Type 0 where
  returned : ℕ → ℕ → Result
  retry_exhausted : List ℕ → ℕ → Result
  circuit_open : ℕ → Result
  budget_exhausted : ℕ → Result

-- The window of a budget begins anew if it is over.
abbrev pub renew_window : RetryPolicy → RetryBudget → ℕ → RetryPolicy
renew_window p b now =
    if leb (p.window_start_time + b.window) now
    then record p { window_start_time = now; retry_count = 0 }
    else p

abbrev pub check_budget : RetryPolicy → Option RetryBudget → ℕ → RetryPolicy × Bool
check_budget p none now = (p, true)
check_budget p (some b) now =
    let p' = renew_window p b now in (p', ltb p'.retry_count b.max_retries_per_window)

unfoldable pub check_retry_budget : RetryPolicy → ℕ → RetryPolicy × Bool
check_retry_budget p now = check_budget p p.retry_budget now

module _ (is_retryable : ℕ → Bool) (fn : ℕ → Reply) (is_cut_off : ℕ → Bool) (now : ℕ → ℕ) where
  unfoldable pub should_retry : RetryPolicy → ℕ → ℕ → Bool
  should_retry p e attempt = not (leb p.max_attempts attempt) && is_retryable e

  -- An attempt once it is made, where `next` is the execution from the next attempt on.
  abbrev pub after_reply :
      RetryPolicy
      → ℕ
      → List ℕ
      → (RetryPolicy → List ℕ → RetryPolicy × Option Result)
      → Reply
      → RetryPolicy × Option Result
  after_reply p attempt errors next (resolves v) = (p, some (returned v attempt))
  after_reply p attempt errors next (rejects e) =
      let errors' = errors ++ e ∷ [] in
      let retried = next (record p { retry_count = suc p.retry_count }) errors' in
      if should_retry p e attempt then retried else (p, some (retry_exhausted errors' attempt))

  -- `execute` where some attempts have failed; it is none where the fuel is used up.
  unfoldable pub execute_from : ℕ → RetryPolicy → ℕ → List ℕ → RetryPolicy × Option Result
  execute_from zero p failed errors = (p, none)
  execute_from (suc fuel) p failed errors =
      let attempt = suc failed in
      let (p', allowed) = check_retry_budget p (now attempt) in
      let made =
        after_reply p' attempt errors (λ q es. execute_from fuel q attempt es) (fn attempt) in
      if is_cut_off attempt
      then (p, some (circuit_open attempt))
      else if allowed
      then made
      else (p', some (budget_exhausted attempt))

  unfoldable pub execute : RetryPolicy → RetryPolicy × Option Result
  execute p = execute_from (suc p.max_attempts) p 0 []
