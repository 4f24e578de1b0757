-- ===== src/TaskQueue/Examples.antt =====
-- Concrete runs of src/lib/task-queue.ts.
use edge_cloud_orchestrator.Prelude.{ℕ, ◌≡◌, refl, false, List, [], ◌∷◌, map, length, arith}
use edge_cloud_orchestrator.TaskQueue.{
  TaskPriority, critical, medium, low, Task, QueuedTask, PriorityTaskQueue, new_queue,
  calculate_priority, insert_task, sort_into, sort_tasks, reorder_queue, update_task, is_queued,
  process_queue, enqueue, settle, fire, set_processor, set_max_concurrent, clear, add, without,
  Event, enqueues, settles, fires, sets_processor, sets_max_concurrent, clears, step, run,
}
use edge_cloud_orchestrator.TaskQueue.Sorted.{IsSorted, run-new_queue-IsSorted}
use edge_cloud_orchestrator.TaskQueue.Timers.{IsMoved, firings_start_nothing}

abbrev task : ℕ → TaskPriority → Task
task i p = record { id = i; priority = p; submitted_at = 1000; max_retries = 0 }

-- The first task runs and throws; those that wait are ordered by priority; its retry comes in behind.
abbrev busy : List Event
busy =
    sets_processor
    ∷ enqueues 1000 (task 1 medium)
    ∷ enqueues 1000 (task 2 low)
    ∷ enqueues 2000 (task 3 medium)
    ∷ enqueues 2000 (task 4 critical)
    ∷ settles 0 false
    ∷ fires 4000 0
    ∷ []

abbrev ids : List QueuedTask → List ℕ
ids = map (λ q. q.id)

busy_test : ids (run (new_queue 1) busy).queue ≡ 3 ∷ 1 ∷ 2 ∷ []
unfolding run step enqueue settle fire set_processor process_queue insert_task reorder_queue
    sort_tasks sort_into update_task is_queued calculate_priority add without
busy_test = refl

run-new_queue-IsSorted_example : IsSorted (run (new_queue 1) busy).queue
run-new_queue-IsSorted_example = run-new_queue-IsSorted 1 busy

-- One task that has thrown and waits for its retry, with nothing else to do.
abbrev idle : PriorityTaskQueue
idle = run (new_queue 1) (sets_processor ∷ enqueues 1000 (task 1 medium) ∷ settles 0 false ∷ [])

abbrev fired : PriorityTaskQueue
fired = run idle (fires 3000 0 ∷ [])

firings_start_nothing_example :
    (fired.started ≡ idle.started)
    × (fired.processing ≡ idle.processing)
    × ((id : ℕ) → IsMoved 1 id idle fired)
unfolding run step enqueue settle fire set_processor process_queue insert_task reorder_queue
    sort_tasks sort_into update_task is_queued calculate_priority add without
firings_start_nothing_example = firings_start_nothing idle ((3000, 0) ∷ []) (omega arith, _)

idle_test : (length fired.queue ≡ 1) × (fired.started ≡ [])
unfolding run step enqueue settle fire set_processor process_queue insert_task reorder_queue
    sort_tasks sort_into update_task is_queued calculate_priority add without
idle_test = (refl, refl)

-- With a limit of one, a second task runs beside the first after `clear`, and so does the task of the
-- same id that is added while the first runs, under a limit of two, beside a third.
cleared_test :
    length
      (run (new_queue 1) (
        sets_processor
        ∷ enqueues 1000 (task 1 medium)
        ∷ clears
        ∷ enqueues 1000 (task 2 low)
        ∷ [])).started
    ≡ 2
unfolding run step enqueue clear set_processor process_queue insert_task is_queued
    calculate_priority add
cleared_test = refl

twice_test :
    length
      (run (new_queue 2) (
        sets_processor
        ∷ enqueues 1000 (task 1 medium)
        ∷ enqueues 1000 (task 1 medium)
        ∷ enqueues 1000 (task 2 low)
        ∷ [])).started
    ≡ 3
unfolding run step enqueue set_processor process_queue insert_task is_queued calculate_priority add
twice_test = refl

-- Of two tasks that wait when the limit is raised by two, one is started.
raised_test :
    let s = run (new_queue 1) (
      sets_processor
      ∷ enqueues 1000 (task 1 medium)
      ∷ enqueues 1000 (task 2 low)
      ∷ enqueues 1000 (task 3 low)
      ∷ sets_max_concurrent 3
      ∷ []) in
    (length s.started ≡ 2) × (ids s.queue ≡ 3 ∷ [])
unfolding run step enqueue set_processor set_max_concurrent process_queue insert_task is_queued
    calculate_priority add
raised_test = (refl, refl)
