-- ===== src/CircuitBreaker/Examples.antt =====
-- Runs of a circuit breaker (packages/circuit-breaker/src/circuit-breaker.ts): the theorems at
-- concrete inputs.
use edge_cloud_orchestrator.Prelude.{◌+◌, ◌<◌, ◌≡◌, ◌↔◌, refl, List, [], ◌∷◌, arith}
use edge_cloud_orchestrator.CircuitBreaker.{
  Config, closed, open_, half_open, Breaker, new, default_config, Event, enters, succeeds, fails,
  fires, step, run, enter, rejected_half_open,
}
use edge_cloud_orchestrator.CircuitBreaker.Invariant.{IsSound, run-new-IsSound}
use edge_cloud_orchestrator.CircuitBreaker.Trips.{failure_count, run_closed}
use edge_cloud_orchestrator.CircuitBreaker.Recovery.{probes, open_recovers, open_wedges}

abbrev trip : List Event
trip = fails 1 ∷ succeeds ∷ fails 2 ∷ fails 3 ∷ fails 4 ∷ fails 5 ∷ []

-- One probe at most, and two successes needed.
abbrev strict_config : Config
strict_config = record default_config { half_open_max_calls = 1 }

run-new-IsSound_example : IsSound (run (new default_config) trip)
run-new-IsSound_example = run-new-IsSound default_config trip

run_closed_example : ((run (new default_config) trip).state ≡ closed) ↔ (0 + failure_count trip < 5)
run_closed_example = run_closed (new default_config) trip refl (omega arith) refl

tripped : (run (new default_config) trip).state ≡ open_
unfolding run step
tripped = refl

open_recovers_example :
    let b = run (step (run (new default_config) trip) (fires 0)) (probes 2) in
    (b.state ≡ closed) × (b.failures ≡ 0) × (b.scheduled ≡ [])
unfolding run step
open_recovers_example = open_recovers default_config trip 0 refl refl (omega arith) (omega arith)

open_wedges_example :
    let b =
      run
        (run (step (run (new strict_config) trip) (fires 0)) (probes 1))
        (enters ∷ fires 0 ∷ []) in
    (b.state ≡ half_open) × ((enter b).1 ≡ rejected_half_open)
unfolding run step
open_wedges_example =
    open_wedges strict_config trip 0 (enters ∷ fires 0 ∷ []) refl refl (omega arith) refl

abbrev opened : Breaker
opened = record (new default_config) { state = open_ }
