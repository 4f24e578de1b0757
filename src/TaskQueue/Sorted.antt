-- ===== src/TaskQueue/Sorted.antt =====
-- The order of the tasks that wait (src/lib/task-queue.ts).
use edge_cloud_orchestrator.Prelude.{
  ℕ, ◌≤◌, ◌≡◌, Bool, true, false, List, [], ◌∷◌, ◌++◌, Option, none, some, ltb, ◌==◌, ◌&&◌, length,
  map, get_elem?, drop, All, All-map, arith, inl, inr, Bool-cases, if_cases,
}
use edge_cloud_orchestrator.TaskQueue.{
  Task, QueuedTask, PriorityTaskQueue, new_queue, insert_task, sort_into, sort_tasks, reorder_queue,
  recalculate, update_task, start_first, process_queue, queued, enqueue, without_at, retry_later,
  settle_task, settle, requeue, fire, dequeue, remove_first, remove, set_processor,
  set_max_concurrent, clear, Event, enqueues, settles, fires, dequeues, removes, sets_processor,
  sets_max_concurrent, clears, step, run, is_queued, without,
}

abbrev pub AtMost : ℕ → List QueuedTask → Type 0
AtMost n = All (λ q. q.priority ≤ n)

-- No task waits behind one of lower priority.
abbrev pub IsSorted : List QueuedTask → Type 0
IsSorted [] = Unit
IsSorted (q ∷ qs) = AtMost q.priority qs × IsSorted qs

AtMost-insert_task :
    (n : ℕ) (q : QueuedTask) (qs : List QueuedTask)
    → q.priority ≤ n
    → AtMost n qs
    → AtMost n (insert_task q qs)
unfolding insert_task
AtMost-insert_task n q [] l h = (l, _)
AtMost-insert_task n q (p ∷ ps) l (k, h) = elim (Bool-cases (ltb p.priority q.priority)) [
  | inl e ↦ rw e (l, (k, h))
  | inr e ↦ rw e (k, AtMost-insert_task n q ps l h)
]

AtMost-weaken : (m n : ℕ) (qs : List QueuedTask) → m ≤ n → AtMost m qs → AtMost n qs
AtMost-weaken m n qs l h = All-map (λ q k. omega (arith, k, l)) qs h

insert_task-IsSorted :
    (q : QueuedTask) (qs : List QueuedTask) → IsSorted qs → IsSorted (insert_task q qs)
unfolding insert_task
insert_task-IsSorted q [] h = (_, _)
insert_task-IsSorted q (p ∷ ps) (k, h) = elim (Bool-cases (ltb p.priority q.priority)) [
  | inl e ↦
      let less : p.priority ≤ q.priority = ground arith in
      rw e ((less, AtMost-weaken p.priority q.priority ps less k), (k, h))
  | inr e ↦ rw e (AtMost-insert_task p.priority q ps (ground arith) k, insert_task-IsSorted q ps h)
]

AtMost-sort_into :
    (n : ℕ) (q : QueuedTask) (qs : List QueuedTask)
    → q.priority ≤ n
    → AtMost n qs
    → AtMost n (sort_into q qs)
unfolding sort_into
AtMost-sort_into n q [] l h = (l, _)
AtMost-sort_into n q (p ∷ ps) l (k, h) = elim (Bool-cases (ltb q.priority p.priority)) [
  | inl e ↦ rw e (k, AtMost-sort_into n q ps l h)
  | inr e ↦ rw e (l, (k, h))
]

sort_into-IsSorted :
    (q : QueuedTask) (qs : List QueuedTask) → IsSorted qs → IsSorted (sort_into q qs)
unfolding sort_into
sort_into-IsSorted q [] h = (_, _)
sort_into-IsSorted q (p ∷ ps) (k, h) = elim (Bool-cases (ltb q.priority p.priority)) [
  | inl e ↦ rw e (AtMost-sort_into p.priority q ps (ground arith) k, sort_into-IsSorted q ps h)
  | inr e ↦
      let less : p.priority ≤ q.priority = ground arith in
      rw e ((less, AtMost-weaken p.priority q.priority ps less k), (k, h))
]

sort_tasks-IsSorted : (qs : List QueuedTask) → IsSorted (sort_tasks qs)
unfolding sort_tasks
sort_tasks-IsSorted [] = _
sort_tasks-IsSorted (q ∷ qs) = sort_into-IsSorted q (sort_tasks qs) (sort_tasks-IsSorted qs)

AtMost-remove_first :
    (n id : ℕ) (qs : List QueuedTask) → AtMost n qs → AtMost n (remove_first id qs)
AtMost-remove_first n id [] h = _
AtMost-remove_first n id (q ∷ qs) (k, h) = elim (Bool-cases (q.id == id)) [
  | inl e ↦ rw e h
  | inr e ↦ rw e (k, AtMost-remove_first n id qs h)
]

remove_first-IsSorted :
    (id : ℕ) (qs : List QueuedTask) → IsSorted qs → IsSorted (remove_first id qs)
remove_first-IsSorted id [] h = _
remove_first-IsSorted id (q ∷ qs) (k, h) = elim (Bool-cases (q.id == id)) [
  | inl e ↦ rw e h
  | inr e ↦ rw e (AtMost-remove_first q.priority id qs k, remove_first-IsSorted id qs h)
]

start_first-IsSorted :
    (s : PriorityTaskQueue) (qs : List QueuedTask)
    → IsSorted s.queue
    → IsSorted qs
    → IsSorted (start_first s qs).queue
start_first-IsSorted s [] h k = h
start_first-IsSorted s (q ∷ qs) h k = k.1

pub process_queue_cases :
    (P : PriorityTaskQueue → Type 0) (s : PriorityTaskQueue)
    → P s
    → (ltb (length s.processing) s.max_concurrent ≡ true → P (start_first s s.queue))
    → P (process_queue s)
unfolding process_queue
process_queue_cases P s h k =
    if_cases P (s.has_processor && ltb (length s.processing) s.max_concurrent)
      (start_first s s.queue) s (λ e. k (ground arith)) (λ e. h)

process_queue-IsSorted :
    (s : PriorityTaskQueue) → IsSorted s.queue → IsSorted (process_queue s).queue
process_queue-IsSorted s h =
    process_queue_cases (λ t. IsSorted t.queue) s h (λ e. start_first-IsSorted s s.queue h h)

enqueue-IsSorted :
    (s : PriorityTaskQueue) (now : ℕ) (t : Task)
    → IsSorted s.queue
    → IsSorted (enqueue s now t).queue
unfolding enqueue reorder_queue
enqueue-IsSorted s now t h = elim (Bool-cases (is_queued t.id s.queue)) [
  | inl e ↦ rw (e, enqueue) (sort_tasks-IsSorted (map (recalculate now) (update_task t s.queue)))
  | inr e ↦
      rw (e, enqueue)
        (process_queue-IsSorted (record s { queue = insert_task (queued now t) s.queue })
          (insert_task-IsSorted (queued now t) s.queue h))
]

retry_later-queue : (s : PriorityTaskQueue) (q : QueuedTask) → (retry_later s q).queue ≡ s.queue
retry_later-queue s q = ground arith

settle_task-IsSorted :
    (s : PriorityTaskQueue) (i : ℕ) (succeeds : Bool) (o : Option QueuedTask)
    → IsSorted s.queue
    → IsSorted (settle_task s i succeeds o).queue
settle_task-IsSorted s i succeeds none h = h
settle_task-IsSorted s i true (some q) h =
    let ended : PriorityTaskQueue = record s { started = without_at i s.started } in
    process_queue-IsSorted (record ended { processing = without q.id ended.processing }) h
settle_task-IsSorted s i false (some q) h =
    let ended : PriorityTaskQueue = record s { started = without_at i s.started } in
    let caught = retry_later ended q in
    let same : caught.queue ≡ s.queue = retry_later-queue ended q in
    process_queue-IsSorted (record caught { processing = without q.id caught.processing })
      (rw same h)

requeue-IsSorted :
    (s : PriorityTaskQueue) (now i : ℕ) (o : Option (ℕ × QueuedTask))
    → IsSorted s.queue
    → IsSorted (requeue s now i o).queue
unfolding reorder_queue
requeue-IsSorted s now i none h = h
requeue-IsSorted s now i (some t) h =
    sort_tasks-IsSorted (map (recalculate now) (s.queue ++ t.1 ∷ []))

drop-IsSorted : (qs : List QueuedTask) → IsSorted qs → IsSorted (drop 1 qs)
drop-IsSorted [] h = _
drop-IsSorted (q ∷ qs) h = h.1

step-IsSorted : (s : PriorityTaskQueue) (e : Event) → IsSorted s.queue → IsSorted (step s e).queue
unfolding step settle fire dequeue remove set_processor set_max_concurrent clear
step-IsSorted s (enqueues now t) h = enqueue-IsSorted s now t h
step-IsSorted s (settles i succeeds) h = settle_task-IsSorted s i succeeds (get_elem? s.started i) h
step-IsSorted s (fires now i) h = requeue-IsSorted s now i (get_elem? s.timers i) h
step-IsSorted s dequeues h = drop-IsSorted s.queue h
step-IsSorted s (removes id) h = remove_first-IsSorted id s.queue h
step-IsSorted s sets_processor h = process_queue-IsSorted (record s { has_processor = true }) h
step-IsSorted s (sets_max_concurrent k) h =
    process_queue-IsSorted (record s { max_concurrent = k }) h
step-IsSorted s clears h = _

run-IsSorted :
    (s : PriorityTaskQueue) (es : List Event) → IsSorted s.queue → IsSorted (run s es).queue
unfolding run
run-IsSorted s [] h = h
run-IsSorted s (e ∷ es) h = run-IsSorted (step s e) es (step-IsSorted s e h)

-- After any events on a new queue no task waits behind one whose priority, as it was last computed, is
-- lower: the task that is taken next has the highest.
pub run-new_queue-IsSorted : (k : ℕ) (es : List Event) → IsSorted (run (new_queue k) es).queue
run-new_queue-IsSorted k es = run-IsSorted (new_queue k) es _
