-- ===== src/CircuitBreaker/Invariant.antt =====
-- What holds of a circuit breaker (packages/circuit-breaker/src/circuit-breaker.ts) between two
-- events.
use edge_cloud_orchestrator.Prelude.{ℕ, ◌≤◌, ◌<◌, ◌≡◌, ◌⊎◌, List, [], ◌∷◌, Option, some, arith}
use edge_cloud_orchestrator.CircuitBreaker.{
  Config, State, closed, open_, half_open, Breaker, new, Event, enters, succeeds, fails, fires,
  forces_open, forces_close, step, run,
}

-- The pending timers of a breaker in the given state: one, the one that it holds, while it is open.
abbrev pub TimersOf : State → Option ℕ → List (ℕ × ℕ) → Type 0
TimersOf open_ held ts = (h : ℕ) × (due : ℕ) × (held ≡ some h) × (ts ≡ (h, due) ∷ [])
TimersOf _ held ts = ts ≡ []

pub record IsSound (b : Breaker) : Type 0 where
  pub timers : TimersOf b.state b.reset_timer b.scheduled
  pub probes : b.half_open_calls ≤ b.half_open_max_calls
  pub untripped : b.state ≡ closed → (b.failures < b.failure_threshold) ⊎ (b.failures ≡ 0)
  pub unproven :
      b.state ≡ half_open
      → (b.consecutive_successes < b.success_threshold) ⊎ (b.consecutive_successes ≡ 0)
  pub rejections : b.rejected_calls ≤ b.total_calls

pub new-IsSound : (c : Config) → IsSound (new c)
new-IsSound c = ground arith

pub step-IsSound : (b : Breaker) (e : Event) → IsSound b → IsSound (step b e)
unfolding step
step-IsSound b enters v = ground arith
step-IsSound b succeeds v = ground arith
step-IsSound b (fails now) v = ground arith
step-IsSound b (fires handle) v = ground arith
step-IsSound b (forces_open now) v = ground arith
step-IsSound b forces_close v = ground arith

run-IsSound : (b : Breaker) (es : List Event) → IsSound b → IsSound (run b es)
unfolding run
run-IsSound b [] v = v
run-IsSound b (e ∷ es) v = run-IsSound (step b e) es (step-IsSound b e v)

-- After any sequence of calls, settlements, timers and forced transitions, a breaker that was made
-- by the constructor has exactly one pending reset timer while it is open, the one that it holds,
-- and none otherwise; it has let in no more probes than its limit; while it is closed its failures
-- are below the threshold (or there are none), while it is half open its consecutive successes are;
-- and it has rejected no more calls than it was given.
pub run-new-IsSound : (c : Config) (es : List Event) → IsSound (run (new c) es)
run-new-IsSound c es = run-IsSound (new c) es (new-IsSound c)
