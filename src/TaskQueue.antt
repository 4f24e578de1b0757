-- ===== src/TaskQueue.antt =====
-- src/lib/task-queue.ts, the class `PriorityTaskQueue`. Ids are numbers. Times are in milliseconds, and
-- priorities in the 60000th part of the source's, so that the bonus for the age of a task, which is
-- counted in minutes and may be a fraction, is a whole number. No task is submitted in the future.
-- The calls of the processor that have not ended, and the timers of retries, belong to the event loop;
-- which of them goes on is an argument. Statistics and the accessors that only read are left out.
use edge_cloud_orchestrator.Prelude.{
  ℕ, suc, zero, ◌+◌, ◌-◌, ◌*◌, ◌^◌, min, Bool, true, false, List, [], ◌∷◌, ◌++◌, Option, none, some,
  ltb, leb, ◌==◌, if◌then◌else◌, ◌&&◌, any, length, map, get_elem?, take, drop,
}
pub mod Sorted
pub mod Limits
pub mod Timers
mod Examples

pub data TaskPriority : Type 0 where
  critical high medium low : TaskPriority

pub record Task : Type 0 where
  pub id : ℕ
  pub priority : TaskPriority
  pub submitted_at : ℕ
  pub max_retries : ℕ

pub record QueuedTask : Type 0 where
  pub id : ℕ
  pub task : Task
  pub priority : ℕ
  pub submitted_at : ℕ
  pub retry_count : ℕ
  pub max_retries : ℕ

-- `started` are the calls of the processor that have not ended, `timers` the retries that wait, each with
-- its delay.
pub record PriorityTaskQueue : Type 0 where
  pub queue : List QueuedTask
  pub processing : List ℕ
  pub max_concurrent : ℕ
  pub has_processor : Bool
  pub started : List QueuedTask
  pub timers : List (ℕ × QueuedTask)

abbrev pub new_queue : ℕ → PriorityTaskQueue
new_queue k = record {
  queue = [];
  processing = [];
  max_concurrent = k;
  has_processor = false;
  started = [];
  timers = [];
}

abbrev pub weight : TaskPriority → ℕ
weight critical = 100
weight high = 75
weight medium = 50
weight low = 25

unfoldable pub calculate_priority : ℕ → Task → ℕ
calculate_priority now t = weight t.priority * 60000 + min (now - t.submitted_at) 600000

-- The insertion of `enqueue`: before the first task of lower priority, or last.
unfoldable pub insert_task : QueuedTask → List QueuedTask → List QueuedTask
insert_task q [] = q ∷ []
insert_task q (p ∷ ps) =
    let rest = insert_task q ps in if ltb p.priority q.priority then q ∷ p ∷ ps else p ∷ rest

-- The stable sort by falling priority.
unfoldable pub sort_into : QueuedTask → List QueuedTask → List QueuedTask
sort_into q [] = q ∷ []
sort_into q (p ∷ ps) =
    let rest = sort_into q ps in if ltb q.priority p.priority then p ∷ rest else q ∷ p ∷ ps

unfoldable pub sort_tasks : List QueuedTask → List QueuedTask
sort_tasks [] = []
sort_tasks (q ∷ qs) = sort_into q (sort_tasks qs)

abbrev pub recalculate : ℕ → QueuedTask → QueuedTask
recalculate now q = record q { priority = calculate_priority now q.task }

unfoldable pub reorder_queue : ℕ → List QueuedTask → List QueuedTask
reorder_queue now qs = sort_tasks (map (recalculate now) qs)

-- The replacement of the task with the same id, if there is one.
unfoldable pub update_task : Task → List QueuedTask → List QueuedTask
update_task t [] = []
update_task t (q ∷ qs) = if q.id == t.id then record q { task = t } ∷ qs else q ∷ update_task t qs

unfoldable pub is_queued : ℕ → List QueuedTask → Bool
is_queued id = any (λ q. q.id == id)

-- A set of ids.
unfoldable pub add : ℕ → List ℕ → List ℕ
add id ids = if any (λ i. i == id) ids then ids else ids ++ id ∷ []

unfoldable pub without : ℕ → List ℕ → List ℕ
without id [] = []
without id (i ∷ is) = let rest = without id is in if i == id then rest else i ∷ rest

abbrev pub start_first : PriorityTaskQueue → List QueuedTask → PriorityTaskQueue
start_first s [] = s
start_first s (q ∷ qs) = record s {
  queue = qs;
  processing = add q.id s.processing;
  started = q ∷ s.started;
}

-- `processQueue`, up to where it waits for the processor.
unfoldable pub process_queue : PriorityTaskQueue → PriorityTaskQueue
process_queue s =
    if s.has_processor && ltb (length s.processing) s.max_concurrent
    then start_first s s.queue
    else s

abbrev pub queued : ℕ → Task → QueuedTask
queued now t = record {
  id = t.id;
  task = t;
  priority = calculate_priority now t;
  submitted_at = now;
  retry_count = 0;
  max_retries = if t.max_retries == 0 then 3 else t.max_retries;
}

unfoldable pub enqueue : PriorityTaskQueue → ℕ → Task → PriorityTaskQueue
enqueue s now t =
    if is_queued t.id s.queue
    then record s { queue = reorder_queue now (update_task t s.queue) }
    else process_queue (record s { queue = insert_task (queued now t) s.queue })

abbrev pub without_at {ℓ} : {A : Type ℓ} → ℕ → List A → List A
without_at i xs = take i xs ++ drop (suc i) xs

-- The catch of `processQueue`.
abbrev pub retry_later : PriorityTaskQueue → QueuedTask → PriorityTaskQueue
retry_later s q =
    if ltb q.retry_count q.max_retries
    then record s {
      timers =
          s.timers
          ++ (2 ^ suc q.retry_count * 1000, record q { retry_count = suc q.retry_count }) ∷ [];
    }
    else s

-- How `processQueue` goes on after the processor: the call at a position has ended, or thrown.
abbrev pub settle_task : PriorityTaskQueue → ℕ → Bool → Option QueuedTask → PriorityTaskQueue
settle_task s i succeeds none = s
settle_task s i succeeds (some q) =
    let ended = record s { started = without_at i s.started } in
    let caught = if succeeds then ended else retry_later ended q in
    process_queue (record caught { processing = without q.id caught.processing })

unfoldable pub settle : PriorityTaskQueue → ℕ → Bool → PriorityTaskQueue
settle s i succeeds = settle_task s i succeeds (get_elem? s.started i)

-- The callback of a retry's timer.
abbrev pub requeue : PriorityTaskQueue → ℕ → ℕ → Option (ℕ × QueuedTask) → PriorityTaskQueue
requeue s now i none = s
requeue s now i (some t) = record s {
  timers = without_at i s.timers;
  queue = reorder_queue now (s.queue ++ t.1 ∷ []);
}

unfoldable pub fire : PriorityTaskQueue → ℕ → ℕ → PriorityTaskQueue
fire s now i = requeue s now i (get_elem? s.timers i)

unfoldable pub dequeue : PriorityTaskQueue → PriorityTaskQueue × Option QueuedTask
dequeue s = (record s { queue = drop 1 s.queue }, get_elem? s.queue 0)

abbrev pub remove_first : ℕ → List QueuedTask → List QueuedTask
remove_first id [] = []
remove_first id (q ∷ qs) = if q.id == id then qs else q ∷ remove_first id qs

unfoldable pub remove : PriorityTaskQueue → ℕ → PriorityTaskQueue × Bool
remove s id = (record s { queue = remove_first id s.queue }, is_queued id s.queue)

unfoldable pub set_processor : PriorityTaskQueue → PriorityTaskQueue
set_processor s = process_queue (record s { has_processor = true })

unfoldable pub set_max_concurrent : PriorityTaskQueue → ℕ → PriorityTaskQueue
set_max_concurrent s k = process_queue (record s { max_concurrent = k })

-- The calls of the processor that run are not stopped, and the retries' timers stay.
unfoldable pub clear : PriorityTaskQueue → PriorityTaskQueue
clear s = record s { queue = []; processing = [] }

-- What can happen to a queue.
pub data Event : Type 0 where
  enqueues : ℕ → Task → Event
  settles : ℕ → Bool → Event
  fires : ℕ → ℕ → Event
  dequeues : Event
  removes : ℕ → Event
  sets_processor : Event
  sets_max_concurrent : ℕ → Event
  clears : Event

unfoldable pub step : PriorityTaskQueue → Event → PriorityTaskQueue
step s (enqueues now t) = enqueue s now t
step s (settles i succeeds) = settle s i succeeds
step s (fires now i) = fire s now i
step s dequeues = (dequeue s).0
step s (removes id) = (remove s id).0
step s sets_processor = set_processor s
step s (sets_max_concurrent k) = set_max_concurrent s k
step s clears = clear s

unfoldable pub run : PriorityTaskQueue → List Event → PriorityTaskQueue
run s [] = s
run s (e ∷ es) = run (step s e) es
