-- ===== src/Retry/Budget.antt =====
-- What the budget of retries counts (packages/circuit-breaker/src/retry.ts).
use edge_cloud_orchestrator.Prelude.{
  ℕ, suc, ◌+◌, ◌<◌, ◌≤◌, ◌≡◌, ◌⊎◌, inl, inr, refl, true, false, Option, none, some, leb, if_cases,
  arith,
}
use edge_cloud_orchestrator.Retry.{RetryBudget, RetryPolicy, check_budget, check_retry_budget}

-- Less than the budget has been used.
abbrev pub Allows : RetryPolicy → Option RetryBudget → Type 0
Allows q none = Unit
Allows q (some b) = q.retry_count < b.max_retries_per_window

-- All of the budget has been used, in a window that is not over at the time, or it is nothing.
abbrev pub Refuses : RetryPolicy → Option RetryBudget → ℕ → Type 0
Refuses q none t = true ≡ false
Refuses q (some b) t =
    (b.max_retries_per_window ≤ q.retry_count)
    × ((t < q.window_start_time + b.window) ⊎ (b.max_retries_per_window ≡ 0))

check_budget-Allows :
    (p : RetryPolicy) (o : Option RetryBudget) (t : ℕ)
    → (check_budget p o t).1 ≡ true
    → Allows (check_budget p o t).0 o
check_budget-Allows p none t e = _
check_budget-Allows p (some b) t e = ground (arith, e)

check_budget-Refuses :
    (p : RetryPolicy) (o : Option RetryBudget) (t : ℕ)
    → (check_budget p o t).1 ≡ false
    → Refuses (check_budget p o t).0 o t
check_budget-Refuses p none t e = e
check_budget-Refuses p (some b) t e = ground (arith, e)

same_budget : (P : Option RetryBudget → Type 0) {o b : Option RetryBudget} → o ≡ b → P o → P b
same_budget P e h = rw (← e) h

module _ (now : ℕ → ℕ) where
  -- What the policy has counted after so many retries of an execution that began with p: these and those
  -- before, or those since the attempt at which its window began.
  abbrev pub Tracks : RetryPolicy → ℕ → RetryPolicy → Type 0
  Tracks p failed q =
      (q.retry_budget ≡ p.retry_budget)
      × (((q.window_start_time ≡ p.window_start_time) × (q.retry_count ≡ p.retry_count + failed))
          ⊎ ((k : ℕ) × (k ≤ failed)
              × (q.window_start_time ≡ now (suc k))
              × (q.retry_count + k ≡ failed)))

  check_budget-Tracks :
      (p q : RetryPolicy) (o : Option RetryBudget) (failed : ℕ)
      → Tracks p failed q
      → Tracks p failed (check_budget q o (now (suc failed))).0
  check_budget-Tracks p q none failed h = h
  check_budget-Tracks p q (some b) failed h =
      let t = now (suc failed) in
      if_cases (Tracks p failed) (leb (q.window_start_time + b.window) t)
        (record q { window_start_time = t; retry_count = 0 }) q
        (λ e. (h.0, inr (failed, omega arith, refl, omega arith))) (λ e. h)

  -- What holds once the budget is asked before an attempt.
  pub check_retry_budget-Tracks :
      (p q : RetryPolicy) (failed : ℕ)
      → Tracks p failed q
      → let c = check_retry_budget q (now (suc failed)) in
        Tracks p failed c.0
        × (c.1 ≡ true → Allows c.0 p.retry_budget)
        × (c.1 ≡ false → Refuses c.0 p.retry_budget (now (suc failed)))
  unfolding check_retry_budget
  check_retry_budget-Tracks p q failed h =
      let t = now (suc failed) in
      (
        check_budget-Tracks p q q.retry_budget failed h,
        λ e.
            same_budget (Allows (check_budget q q.retry_budget t).0) h.0
              (check_budget-Allows q q.retry_budget t e),
        λ e.
            same_budget (λ o. Refuses (check_budget q q.retry_budget t).0 o t) h.0
              (check_budget-Refuses q q.retry_budget t e),
      )

  pub retry-Tracks :
      (p q : RetryPolicy) (failed : ℕ)
      → Tracks p failed q
      → Tracks p (suc failed) (record q { retry_count = suc q.retry_count })
  retry-Tracks p q failed (b, inl (s, c)) = (b, inl (s, omega (arith, c)))
  retry-Tracks p q failed (b, inr (k, l, s, c)) =
      (b, inr (k, omega (arith, l), s, omega (arith, c)))
