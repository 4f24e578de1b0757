-- ===== src/MessageQueue/Examples.antt =====
-- Concrete runs of src/lib/queue/TaskQueueManager.ts.
use edge_cloud_orchestrator.Prelude.{ℕ, ◌≡◌, refl, true, false, List, [], ◌∷◌, map}
use edge_cloud_orchestrator.Prelude.Dict.{get, put, delete}
use edge_cloud_orchestrator.MessageQueue.{
  critical, high, low, new, produce, get_next_message, process_next, ack, nack, enqueue, Event,
  initializes, enqueues, processes, acks, nacks, step, run,
}
use edge_cloud_orchestrator.MessageQueue.Balance.{IsBalanced, count_enqueued, run-new-IsBalanced}

-- A message is put back once and then acknowledged, one is given up, one is processed, one waits.
abbrev busy : List Event
busy =
    initializes
    ∷ enqueues 1 low 10
    ∷ enqueues 2 high 11
    ∷ processes
    ∷ nacks 2 true
    ∷ processes
    ∷ acks 2
    ∷ processes
    ∷ nacks 1 false
    ∷ enqueues 3 low 12
    ∷ enqueues 4 critical 13
    ∷ processes
    ∷ []

busy_test :
    (run new busy).stats
    ≡ record { pending = 1; processing = 1; completed = 1; failed = 1; total_processed = 1 }
unfolding run step enqueue produce process_next get_next_message ack nack get put delete
busy_test = refl

run-new-IsBalanced_example : IsBalanced (run new busy) (count_enqueued busy)
run-new-IsBalanced_example = run-new-IsBalanced busy

-- Of two critical messages the later one is processed first; of two others, the earlier one.
abbrev first_processed : List Event → List ℕ
first_processed es = map (λ e. e.0) (run new es).processing

later_test :
    (first_processed
        (initializes ∷ enqueues 1 critical 10 ∷ enqueues 2 critical 11 ∷ processes ∷ [])
      ≡ 2 ∷ [])
    × (first_processed (initializes ∷ enqueues 1 high 10 ∷ enqueues 2 high 11 ∷ processes ∷ [])
        ≡ 1 ∷ [])
unfolding run step enqueue produce process_next get_next_message put
later_test = (refl, refl)
