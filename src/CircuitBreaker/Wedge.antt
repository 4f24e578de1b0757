-- ===== src/CircuitBreaker/Wedge.antt =====
-- A half-open breaker that has used up its probes (packages/circuit-breaker/src/circuit-breaker.ts:
-- `execute` counts `halfOpenCalls` up and nothing counts them down).
use edge_cloud_orchestrator.Prelude.{◌≤◌, ◌≡◌, Bool, true, false, List, [], ◌∷◌, arith, all}
use edge_cloud_orchestrator.CircuitBreaker.{
  half_open, Breaker, Event, enters, succeeds, fails, fires, forces_open, forces_close, step, run,
  enter, rejected_half_open,
}

-- Events while no admitted call is in flight and nobody forces a transition.
abbrev pub is_idle : Event → Bool
is_idle enters = true
is_idle (fires handle) = true
is_idle _ = false

pub record IsWedged (b : Breaker) : Type 0 where
  pub stays : b.state ≡ half_open
  pub used_up : b.half_open_max_calls ≤ b.half_open_calls
  pub timerless : b.scheduled ≡ []

step-IsWedged : (b : Breaker) (e : Event) → is_idle e ≡ true → IsWedged b → IsWedged (step b e)
unfolding step
step-IsWedged b enters i w = ground arith
step-IsWedged b (fires handle) i w = ground arith
step-IsWedged b succeeds i w = cc
step-IsWedged b (fails n) i w = cc
step-IsWedged b (forces_open n) i w = cc
step-IsWedged b forces_close i w = cc

pub run-IsWedged :
    (b : Breaker) (es : List Event) → all is_idle es ≡ true → IsWedged b → IsWedged (run b es)
unfolding run
run-IsWedged b [] i w = w
run-IsWedged b (e ∷ es) i w = ground (arith, step-IsWedged b e, run-IsWedged (step b e) es)

pub IsWedged-rejects : (b : Breaker) → IsWedged b → (enter b).1 ≡ rejected_half_open
unfolding enter
IsWedged-rejects b w = ground arith
