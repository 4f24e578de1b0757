-- ===== src/CircuitBreaker/Trips.antt =====
-- When a closed breaker trips (packages/circuit-breaker/src/circuit-breaker.ts, `onFailure`), and
-- what `execute` answers.
use edge_cloud_orchestrator.Prelude.{
  ℕ, suc, ◌+◌, ◌≤◌, ◌<◌, ◌≡◌, ◌≢◌, ◌⊎◌, ◌↔◌, Bool, true, false, List, [], ◌∷◌, Option, some, leb,
  ltb, if◌then◌else◌, arith, ◌&&◌, all,
}
use edge_cloud_orchestrator.CircuitBreaker.{
  closed, open_, half_open, Breaker, Event, enters, succeeds, fails, fires, forces_open,
  forces_close, step, run, enter, execute, admitted, rejected_half_open, Outcome, fulfilled, threw,
  circuit_breaker_open,
}

-- Events of calls alone: no timer fires and nothing is forced.
abbrev pub is_call : Event → Bool
is_call enters = true
is_call succeeds = true
is_call (fails now) = true
is_call _ = false

abbrev pub failure_count : List Event → ℕ
failure_count [] = 0
failure_count (fails now ∷ es) = suc (failure_count es)
failure_count (_ ∷ es) = failure_count es

step_open :
    (b : Breaker) (e : Event) → b.state ≡ open_ → is_call e ≡ true → (step b e).state ≡ open_
unfolding step
step_open b enters o h = ground arith
step_open b succeeds o h = ground arith
step_open b (fails now) o h = ground arith
step_open b (fires n) o h = cc
step_open b (forces_open n) o h = cc
step_open b forces_close o h = cc

run_open :
    (b : Breaker) (es : List Event)
    → b.state ≡ open_
    → all is_call es ≡ true
    → (run b es).state ≡ open_
unfolding run
run_open b [] o h = o
run_open b (e ∷ es) o h = ground (arith, step_open b e, run_open (step b e) es)

-- One event of a call at a closed breaker: a failure that reaches the threshold opens it.
step_closed :
    (b : Breaker) (e : Event)
    → b.state ≡ closed
    → is_call e ≡ true
    → let k = b.failures + failure_count (e ∷ []) in
      ((step b e).config ≡ b.config)
      × ((step b e).failures ≡ k)
      × ((step b e).state
          ≡ (if ltb b.failures k && leb b.failure_threshold k then open_ else closed))
unfolding step
step_closed b enters o h = ground arith
step_closed b succeeds o h = ground arith
step_closed b (fails now) o h = ground arith
step_closed b (fires n) o h = cc
step_closed b (forces_open n) o h = cc
step_closed b forces_close o h = cc

failure_count_cons :
    (e : Event) (es : List Event)
    → failure_count (e ∷ es) ≡ failure_count (e ∷ []) + failure_count es
failure_count_cons enters es = omega arith
failure_count_cons _ es = omega arith

-- A closed breaker whose failures are below the threshold is still closed after any sequence of
-- calls and settlements, with no timer and no forced transition among them, exactly if its failures
-- and the failures of the sequence together stay below the threshold: successes in between make no
-- difference.
pub run_closed :
    (b : Breaker) (es : List Event)
    → b.state ≡ closed
    → b.failures < b.failure_threshold
    → all is_call es ≡ true
    → ((run b es).state ≡ closed) ↔ (b.failures + failure_count es < b.failure_threshold)
unfolding run
run_closed b [] o f h = ground arith
run_closed b (e ∷ es) o f h = ground (
  arith,
  step_closed b e,
  run_closed (step b e) es,
  run_open (step b e) es,
  failure_count_cons e es,
)

-- A call that is rejected does not depend on its function: whatever that would answer, and
-- whenever, the answer and the breaker are the same, and the breaker has counted one call and one
-- rejection and has changed in nothing else.
execute_rejected :
    {A : Type 0} (b : Breaker) (now later : ℕ) (o o' : Outcome A) (fallback : Option A)
    → (enter b).1 ≢ admitted
    → (execute b now o fallback ≡ execute b later o' fallback)
      × ((execute b now o fallback).0
          ≡ record b { total_calls = b.total_calls + 1; rejected_calls = b.rejected_calls + 1 })
unfolding execute
execute_rejected b now later o o' fallback h = ground arith

abbrev pub is_fulfilled : {A : Type 0} → Outcome A → Bool
is_fulfilled (fulfilled a) = true
is_fulfilled _ = false

-- With a fallback a call is answered by a value, unless the breaker is half open with no probe left:
-- then, and only then, it is answered by the breaker's own error, fallback or not.
execute_fallback :
    {A : Type 0} (b : Breaker) (now : ℕ) (o : Outcome A) (a : A)
    → ((is_fulfilled (execute b now o (some a)).1 ≡ true) × ((enter b).1 ≢ rejected_half_open))
      ⊎ ((b.state ≡ half_open)
          × (b.half_open_max_calls ≤ b.half_open_calls)
          × ((execute b now o (some a)).1 ≡ circuit_breaker_open b.name))
unfolding execute
execute_fallback b now (fulfilled x) a = ground arith
execute_fallback b now (threw x) a = ground arith
execute_fallback b now (circuit_breaker_open x) a = ground arith
