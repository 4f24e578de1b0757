-- ===== src/Retry/Attempts.antt =====
-- How an execution with retries ends (packages/circuit-breaker/src/retry.ts).
use edge_cloud_orchestrator.Prelude.{
  ℕ, suc, zero, ◌+◌, ◌<◌, ◌≡◌, ◌⊎◌, inl, inr, refl, ap, sym, ◌∙◌, Bool, true, false, List, [], ◌∷◌,
  ◌++◌, Option, none, some, leb, ◌&&◌, ◌||◌, not, Bool-cases, arith,
}
use edge_cloud_orchestrator.Retry.{
  RetryBudget, RetryPolicy, Reply, resolves, rejects, Result, returned, retry_exhausted,
  circuit_open, budget_exhausted, check_budget, check_retry_budget, should_retry, execute_from,
  execute,
}
use edge_cloud_orchestrator.Retry.Budget.{
  Allows, Refuses, Tracks, check_retry_budget-Tracks, retry-Tracks,
}

check_budget_max :
    (p : RetryPolicy) (b : Option RetryBudget) (t : ℕ)
    → (check_budget p b t).0.max_attempts ≡ p.max_attempts
check_budget_max p none t = refl
check_budget_max p (some b) t = ground arith

check_retry_budget_max :
    (p : RetryPolicy) (t : ℕ) → (check_retry_budget p t).0.max_attempts ≡ p.max_attempts
unfolding check_retry_budget
check_retry_budget_max p t = check_budget_max p p.retry_budget t

Reply-cases : (r : Reply) → ((v : ℕ) × (r ≡ resolves v)) ⊎ ((e : ℕ) × (r ≡ rejects e))
Reply-cases (resolves v) = inl (v, refl)
Reply-cases (rejects e) = inr (e, refl)

module _ (is_retryable : ℕ → Bool) (fn : ℕ → Reply) (is_cut_off : ℕ → Bool) (now : ℕ → ℕ) where
  abbrev pub error_in : Reply → List ℕ
  error_in (resolves v) = []
  error_in (rejects e) = e ∷ []

  abbrev pub may_retry : Reply → Bool
  may_retry (resolves v) = false
  may_retry (rejects e) = is_retryable e

  -- The errors of the first attempts, and whether they all failed with an error worth a retry.
  abbrev pub errors_of : ℕ → List ℕ
  errors_of zero = []
  errors_of (suc k) = errors_of k ++ error_in (fn (suc k))

  abbrev pub all_retryable : ℕ → Bool
  all_retryable zero = true
  all_retryable (suc k) = all_retryable k && may_retry (fn (suc k))

  -- What a result says of the attempt after the failed ones, where m attempts are allowed and b is the
  -- budget of the policy, which is q in the end.
  abbrev pub EndsAfter : ℕ → Option RetryBudget → RetryPolicy → ℕ → Result → Type 0
  EndsAfter m b q failed (returned v n) = (n ≡ suc failed) × (fn n ≡ resolves v) × Allows q b
  EndsAfter m b q failed (retry_exhausted es n) =
      (n ≡ suc failed)
      × (es ≡ errors_of n)
      × ((e : ℕ) × (fn n ≡ rejects e) × ((leb m n || not (is_retryable e)) ≡ true))
      × Allows q b
  EndsAfter m b q failed (circuit_open n) = (n ≡ suc failed) × (is_cut_off n ≡ true)
  EndsAfter m b q failed (budget_exhausted n) = (n ≡ suc failed) × Refuses q b (now n)

  abbrev pub Ends : RetryPolicy → RetryPolicy × Option Result → Type 0
  Ends p w =
      (r : Result) × (failed : ℕ) × (w.1 ≡ some r)
      × (all_retryable failed ≡ true)
      × ((failed ≡ 0) ⊎ (failed < p.max_attempts))
      × Tracks now p failed w.0
      × EndsAfter p.max_attempts p.retry_budget w.0 failed r

  execute_from-Ends :
      (p : RetryPolicy) (fuel : ℕ) (q : RetryPolicy) (failed : ℕ)
      → q.max_attempts ≡ p.max_attempts
      → p.max_attempts < failed + fuel
      → (failed ≡ 0) ⊎ (failed < p.max_attempts)
      → all_retryable failed ≡ true
      → Tracks now p failed q
      → Ends p (execute_from is_retryable fn is_cut_off now fuel q failed (errors_of failed))
  unfolding execute_from should_retry
  execute_from-Ends p zero q failed x l f a k = let no : true ≡ false = ground arith in cc
  execute_from-Ends p (suc fuel) q failed x l f a k =
      let n = suc failed in
      let c = check_retry_budget q (now n) in
      let (k', allows, refuses) = check_retry_budget-Tracks now p q failed k in
      elim (Bool-cases (is_cut_off n)) [
        | inl e ↦ rw e (circuit_open n, failed, refl, a, f, k, (refl, e))
        | inr e ↦ elim (Bool-cases c.1) [
          | inr g ↦ rw (e, g) (budget_exhausted n, failed, refl, a, f, k', (refl, refuses g))
          | inl g ↦ elim (Reply-cases (fn n)) [
            | inl (v, h) ↦ rw (e, g, h) (returned v n, failed, refl, a, f, k', (refl, h, allows g))
            | inr (err, h) ↦
                let s = should_retry is_retryable fn is_cut_off now c.0 err n in
                let x' : c.0.max_attempts ≡ p.max_attempts = check_retry_budget_max q (now n) ∙ x in
                let same = ap (λ r. errors_of failed ++ error_in r) h in
                elim (Bool-cases s) [
                  | inl w ↦
                      let q' = record c.0 { retry_count = suc c.0.retry_count } in
                      let below : n < p.max_attempts = ground arith in
                      let a' : all_retryable n ≡ true = rw h (ground arith) in
                      rw (e, g, h, w, ← same)
                        (execute_from-Ends p fuel q' n x' (omega (arith, l)) (inr below) a'
                          (retry-Tracks now p c.0 failed k'))
                  | inr w ↦
                      let es = errors_of failed ++ err ∷ [] in
                      let no_retry : (leb p.max_attempts n || not (is_retryable err)) ≡ true =
                        ground arith in
                      rw (e, g, h, w)
                        (
                          retry_exhausted es n,
                          failed,
                          refl,
                          a,
                          f,
                          k',
                          (refl, sym same, (err, h, no_retry), allows g),
                        )
                ]
          ]
        ]
      ]

  -- With the fuel given, an execution always ends. All attempts before its last were made, within the
  -- limit, and failed with errors worth a retry; it returns what the last attempt gave, or that
  -- attempt failed too, with the limit reached or an error not worth a retry, and the errors of all
  -- are reported; or the last was not made, since the breaker was open or the budget used up. The
  -- policy counts the retries since its window began, which are those of this execution and those
  -- before, or those since the attempt at which the window was renewed; where the last attempt was
  -- made, they are fewer than the budget, if there is one, and where the budget stopped it, they are
  -- as many, in a window that was not over, or the budget is nothing.
  pub execute-Ends : (p : RetryPolicy) → Ends p (execute is_retryable fn is_cut_off now p)
  unfolding execute
  execute-Ends p =
      execute_from-Ends p (suc p.max_attempts) p 0 refl (omega arith) (inl refl) refl
        (refl, inl (refl, omega arith))
