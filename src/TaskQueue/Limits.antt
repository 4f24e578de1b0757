-- ===== src/TaskQueue/Limits.antt =====
-- How many tasks are processed at once (src/lib/task-queue.ts).
use edge_cloud_orchestrator.Prelude.{
  ℕ, suc, ◌<◌, ◌≤◌, Bool, true, false, List, [], ◌∷◌, Option, none, some, ltb, ltb→lt, ◌==◌, any,
  length, length-append, get_elem?, All, arith, inl, inr, Bool-cases,
}
use edge_cloud_orchestrator.TaskQueue.{
  Task, QueuedTask, PriorityTaskQueue, new_queue, insert_task, start_first, process_queue, queued,
  enqueue, without_at, retry_later, settle_task, settle, requeue, fire, dequeue, remove,
  set_processor, set_max_concurrent, clear, Event, enqueues, settles, fires, dequeues, removes,
  sets_processor, sets_max_concurrent, clears, step, run, is_queued, without, add,
}
use edge_cloud_orchestrator.TaskQueue.Sorted.{process_queue_cases}

abbrev IsLimited : ℕ → PriorityTaskQueue → Type 0
IsLimited k s = (length s.processing ≤ k) × (s.max_concurrent ≤ k)

length-add : (id : ℕ) (ids : List ℕ) → length (add id ids) ≤ suc (length ids)
unfolding add
length-add id ids = elim (Bool-cases (any (λ i. i == id) ids)) [
  | inl e ↦ rw (e, add) (omega arith)
  | inr e ↦ rw (e, add) (omega (arith, length-append ids (id ∷ [])))
]

length-without : (id : ℕ) (ids : List ℕ) → length (without id ids) ≤ length ids
unfolding without
length-without id [] = omega arith
length-without id (i ∷ is) = ground (arith, length-without id is)

start_first-IsLimited :
    (k : ℕ) (s : PriorityTaskQueue) (qs : List QueuedTask)
    → length s.processing < s.max_concurrent
    → IsLimited k s
    → IsLimited k (start_first s qs)
start_first-IsLimited k s [] l h = h
start_first-IsLimited k s (q ∷ qs) l (a, b) = (omega (arith, length-add q.id s.processing), b)

process_queue-IsLimited :
    (k : ℕ) (s : PriorityTaskQueue) → IsLimited k s → IsLimited k (process_queue s)
process_queue-IsLimited k s h =
    process_queue_cases (IsLimited k) s h
      (λ e. start_first-IsLimited k s s.queue (ltb→lt (length s.processing) s.max_concurrent e) h)

enqueue-IsLimited :
    (k : ℕ) (s : PriorityTaskQueue) (now : ℕ) (t : Task)
    → IsLimited k s
    → IsLimited k (enqueue s now t)
unfolding enqueue
enqueue-IsLimited k s now t h = elim (Bool-cases (is_queued t.id s.queue)) [
  | inl e ↦ rw (e, enqueue) h
  | inr e ↦
      rw (e, enqueue)
        (process_queue-IsLimited k (record s { queue = insert_task (queued now t) s.queue }) h)
]

retry_later-IsLimited :
    (k : ℕ) (s : PriorityTaskQueue) (q : QueuedTask) → IsLimited k s → IsLimited k (retry_later s q)
retry_later-IsLimited k s q h = elim (Bool-cases (ltb q.retry_count q.max_retries)) [
  | inl e ↦ rw e h
  | inr e ↦ rw e h
]

ended-IsLimited :
    (k id : ℕ) (s : PriorityTaskQueue)
    → IsLimited k s
    → IsLimited k (process_queue (record s { processing = without id s.processing }))
ended-IsLimited k id s (a, b) =
    process_queue-IsLimited k (record s { processing = without id s.processing })
      (omega (arith, length-without id s.processing), b)

settle_task-IsLimited :
    (k : ℕ) (s : PriorityTaskQueue) (i : ℕ) (succeeds : Bool) (o : Option QueuedTask)
    → IsLimited k s
    → IsLimited k (settle_task s i succeeds o)
settle_task-IsLimited k s i succeeds none h = h
settle_task-IsLimited k s i true (some q) h =
    ended-IsLimited k q.id (record s { started = without_at i s.started }) h
settle_task-IsLimited k s i false (some q) h =
    let ended : PriorityTaskQueue = record s { started = without_at i s.started } in
    ended-IsLimited k q.id (retry_later ended q) (retry_later-IsLimited k ended q h)

-- The limit is set to this much at most.
abbrev Caps : ℕ → Event → Type 0
Caps k (sets_max_concurrent j) = j ≤ k
Caps k _ = Unit

requeue-IsLimited :
    (k : ℕ) (s : PriorityTaskQueue) (now i : ℕ) (o : Option (ℕ × QueuedTask))
    → IsLimited k s
    → IsLimited k (requeue s now i o)
requeue-IsLimited k s now i none h = h
requeue-IsLimited k s now i (some t) h = h

step-IsLimited :
    (k : ℕ) (s : PriorityTaskQueue) (e : Event) → Caps k e → IsLimited k s → IsLimited k (step s e)
unfolding step settle fire dequeue remove set_processor set_max_concurrent clear
step-IsLimited k s (enqueues now t) c h = enqueue-IsLimited k s now t h
step-IsLimited k s (settles i succeeds) c h =
    settle_task-IsLimited k s i succeeds (get_elem? s.started i) h
step-IsLimited k s (fires now i) c h = requeue-IsLimited k s now i (get_elem? s.timers i) h
step-IsLimited k s dequeues c h = h
step-IsLimited k s (removes id) c h = h
step-IsLimited k s sets_processor c h =
    process_queue-IsLimited k (record s { has_processor = true }) h
step-IsLimited k s (sets_max_concurrent j) c (a, b) =
    process_queue-IsLimited k (record s { max_concurrent = j }) (a, c)
step-IsLimited k s clears c (a, b) = (omega arith, b)

run-IsLimited :
    (k : ℕ) (s : PriorityTaskQueue) (es : List Event)
    → All (Caps k) es
    → IsLimited k s
    → IsLimited k (run s es)
unfolding run
run-IsLimited k s [] c h = h
run-IsLimited k s (e ∷ es) (c, cs) h = run-IsLimited k (step s e) es cs (step-IsLimited k s e c h)

-- After any events that do not set the limit above a number, on a new queue whose limit is not above it,
-- no more tasks than that are counted as being processed.
run-new_queue-IsLimited :
    (j k : ℕ) (es : List Event)
    → j ≤ k
    → All (Caps k) es
    → length (run (new_queue j) es).processing ≤ k
run-new_queue-IsLimited j k es l c = (run-IsLimited k (new_queue j) es c (omega arith, l)).0
