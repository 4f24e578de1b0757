-- ===== src/MessageQueue.antt =====
-- src/lib/queue/TaskQueueManager.ts: the manager over its adapter in memory, `MemoryQueueAdapter`. Ids
-- are numbers, and a message keeps of its task the priority only. A handler of the adapter does not
-- change it, and what it throws is caught. Latencies and throughput are left out.
use edge_cloud_orchestrator.Prelude.{
  ℕ, suc, zero, ◌+◌, ◌-◌, Bool, true, false, List, [], ◌∷◌, ◌++◌, Option, none, some, ltb,
  if◌then◌else◌, ◌&&◌,
}
use edge_cloud_orchestrator.Prelude.Dict.{get, put, delete}
pub mod Balance
mod Examples

pub data TaskPriority : Type 0 where
  critical high medium low : TaskPriority

pub record QueueMessage : Type 0 where
  pub id : ℕ
  pub priority : TaskPriority
  pub created_at : ℕ
  pub retry_count : ℕ

pub record QueueStats : Type 0 where
  pub pending : ℕ
  pub processing : ℕ
  pub completed : ℕ
  pub failed : ℕ
  pub total_processed : ℕ

-- The queues, one for each priority.
pub record Queues : Type 0 where
  pub critical_queue : List QueueMessage
  pub high_queue : List QueueMessage
  pub medium_queue : List QueueMessage
  pub low_queue : List QueueMessage

pub record MemoryQueue : Type 0 where
  pub queues : Queues
  pub processing : List (ℕ × QueueMessage)
  pub stats : QueueStats
  pub is_consuming : Bool

abbrev pub no_stats : QueueStats
no_stats = record { pending = 0; processing = 0; completed = 0; failed = 0; total_processed = 0 }

abbrev pub no_queues : Queues
no_queues = record { critical_queue = []; high_queue = []; medium_queue = []; low_queue = [] }

abbrev pub new : MemoryQueue
new = record { queues = no_queues; processing = []; stats = no_stats; is_consuming = false }

-- A critical message goes before those that wait, another one behind.
abbrev pub insert_message : TaskPriority → QueueMessage → Queues → Queues
insert_message critical m q = record q { critical_queue = m ∷ q.critical_queue }
insert_message high m q = record q { high_queue = q.high_queue ++ m ∷ [] }
insert_message medium m q = record q { medium_queue = q.medium_queue ++ m ∷ [] }
insert_message low m q = record q { low_queue = q.low_queue ++ m ∷ [] }

unfoldable pub produce : MemoryQueue → QueueMessage → MemoryQueue
produce s m = record s {
  queues = insert_message m.priority m s.queues;
  stats = record s.stats { pending = suc s.stats.pending };
}

abbrev pub take_low : Queues → List QueueMessage → Queues × Option QueueMessage
take_low q [] = (q, none)
take_low q (m ∷ ms) = (record q { low_queue = ms }, some m)

abbrev pub take_medium : Queues → List QueueMessage → Queues × Option QueueMessage
take_medium q [] = take_low q q.low_queue
take_medium q (m ∷ ms) = (record q { medium_queue = ms }, some m)

abbrev pub take_high : Queues → List QueueMessage → Queues × Option QueueMessage
take_high q [] = take_medium q q.medium_queue
take_high q (m ∷ ms) = (record q { high_queue = ms }, some m)

abbrev pub take_critical : Queues → List QueueMessage → Queues × Option QueueMessage
take_critical q [] = take_high q q.high_queue
take_critical q (m ∷ ms) = (record q { critical_queue = ms }, some m)

unfoldable pub get_next_message : Queues → Queues × Option QueueMessage
get_next_message q = take_critical q q.critical_queue

abbrev pub begin_message : MemoryQueue → Queues × Option QueueMessage → MemoryQueue
begin_message s (q, none) = s
begin_message s (q, some m) = record s {
  queues = q;
  processing = put m.id m s.processing;
  stats = record s.stats { pending = s.stats.pending - 1; processing = suc s.stats.processing };
}

-- One round of the loop of `processQueue`.
unfoldable pub process_next : MemoryQueue → MemoryQueue
process_next s = if s.is_consuming then begin_message s (get_next_message s.queues) else s

unfoldable pub ack : MemoryQueue → ℕ → MemoryQueue
ack s id = elim (get id s.processing) [
  | none ↦ s
  | some m ↦ record s {
    processing = delete id s.processing;
    stats = record s.stats {
      processing = s.stats.processing - 1;
      completed = suc s.stats.completed;
      total_processed = suc s.stats.total_processed;
    };
  }
]

-- A message that is given up, or put back.
abbrev pub requeue : MemoryQueue → QueueMessage → Bool → MemoryQueue
requeue s m true = produce s (record m { retry_count = suc m.retry_count })
requeue s m false = record s { stats = record s.stats { failed = suc s.stats.failed } }

unfoldable pub nack : MemoryQueue → ℕ → Bool → MemoryQueue
nack s id again = elim (get id s.processing) [
  | none ↦ s
  | some m ↦
      let taken : MemoryQueue = record s {
        processing = delete id s.processing;
        stats = record s.stats { processing = s.stats.processing - 1 };
      } in
      requeue taken m (again && ltb m.retry_count 3)
]

-- `enqueue` of the manager, by which all messages come in.
unfoldable pub enqueue : MemoryQueue → ℕ → TaskPriority → ℕ → MemoryQueue
enqueue s id p now = produce s (record { id = id; priority = p; created_at = now; retry_count = 0 })

-- What can happen to a queue: the calls of the manager, and the rounds of the adapter's loop.
pub data Event : Type 0 where
  initializes : Event
  shuts_down : Event
  enqueues : ℕ → TaskPriority → ℕ → Event
  processes : Event
  acks : ℕ → Event
  nacks : ℕ → Bool → Event

unfoldable pub step : MemoryQueue → Event → MemoryQueue
step s initializes = record s { is_consuming = true }
step s shuts_down = record s { is_consuming = false }
step s (enqueues id p now) = enqueue s id p now
step s processes = process_next s
step s (acks id) = ack s id
step s (nacks id again) = nack s id again

unfoldable pub run : MemoryQueue → List Event → MemoryQueue
run s [] = s
run s (e ∷ es) = run (step s e) es
