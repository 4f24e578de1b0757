-- ===== src/Retry/Examples.antt =====
-- A concrete run of packages/circuit-breaker/src/retry.ts.
use edge_cloud_orchestrator.Prelude.{ℕ, ◌*◌, ◌≡◌, refl, Bool, false, some, ◌==◌, ltb, if◌then◌else◌}
use edge_cloud_orchestrator.Retry.{
  RetryPolicy, Reply, resolves, rejects, returned, check_retry_budget, should_retry, execute_from,
  execute,
}
use edge_cloud_orchestrator.Retry.Attempts.{Ends, execute-Ends}

abbrev policy : RetryPolicy
policy = record {
  max_attempts = 3;
  retry_budget = some (record { max_retries_per_window = 10; window = 60000 });
  retry_count = 0;
  window_start_time = 0;
}

abbrev is_timeout : ℕ → Bool
is_timeout e = e == 1

-- Two timeouts, then a value.
abbrev reply : ℕ → Reply
reply attempt = if ltb attempt 3 then rejects 1 else resolves 9

third_test : (execute is_timeout reply (λ n. false) (λ n. n * 1000) policy).1 ≡ some (returned 9 3)
unfolding execute execute_from check_retry_budget should_retry
third_test = refl

execute-Ends_example :
    Ends is_timeout reply
      (λ n. false)
      (λ n. n * 1000)
      policy
      (execute is_timeout reply (λ n. false) (λ n. n * 1000) policy)
execute-Ends_example = execute-Ends is_timeout reply (λ n. false) (λ n. n * 1000) policy
