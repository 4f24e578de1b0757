-- ===== src/MessageQueue/Balance.antt =====
-- No message is lost from the counts (src/lib/queue/TaskQueueManager.ts).
use edge_cloud_orchestrator.Prelude.{
  ℕ, suc, ◌+◌, ◌-◌, ◌≤◌, ◌≡◌, refl, Bool, true, false, List, [], ◌∷◌, Option, none, some, ltb, ◌&&◌,
  length, length-append, arith, inl, inr, Option-cases, if_cases,
}
use edge_cloud_orchestrator.Prelude.Dict.{get, delete, length-put, length-delete}
use native.Mathlib.Nat.{zero-add}
use edge_cloud_orchestrator.MessageQueue.{
  TaskPriority, critical, high, medium, low, QueueMessage, Queues, MemoryQueue, new, insert_message,
  produce, take_low, take_medium, take_high, take_critical, get_next_message, begin_message,
  process_next, ack, requeue, nack, enqueue, Event, initializes, shuts_down, enqueues, processes,
  acks, nacks, step, run,
}

abbrev pub waiting : Queues → ℕ
waiting q =
    length q.critical_queue + length q.high_queue + length q.medium_queue + length q.low_queue

-- The counts, after so many messages: those that wait are counted, those that are processed are counted,
-- and each message is counted once.
pub record IsBalanced (s : MemoryQueue) (total : ℕ) : Type 0 where
  pub waits : s.stats.pending ≡ waiting s.queues
  pub processed : length s.processing ≤ s.stats.processing
  pub counted : s.stats.pending + s.stats.processing + s.stats.completed + s.stats.failed ≡ total
  pub acknowledged : s.stats.total_processed ≡ s.stats.completed

waiting-insert_message :
    (p : TaskPriority) (m : QueueMessage) (q : Queues)
    → waiting (insert_message p m q) ≡ suc (waiting q)
waiting-insert_message critical m q = omega arith
waiting-insert_message high m q = omega (arith, length-append q.high_queue (m ∷ []))
waiting-insert_message medium m q = omega (arith, length-append q.medium_queue (m ∷ []))
waiting-insert_message low m q = omega (arith, length-append q.low_queue (m ∷ []))

produce-IsBalanced :
    (s : MemoryQueue) (m : QueueMessage) (n : ℕ) → IsBalanced s n → IsBalanced (produce s m) (suc n)
unfolding produce
produce-IsBalanced s m n h =
    let w = h.waits in
    let c = h.counted in
    record {
      waits = omega (arith, w, waiting-insert_message m.priority m s.queues);
      processed = h.processed;
      counted = omega (arith, c);
      acknowledged = h.acknowledged;
    }

-- What a queue gives is taken out of it.
abbrev Takes : Queues → Queues × Option QueueMessage → Type 0
Takes q (r, none) = Unit
Takes q (r, some m) = waiting q ≡ suc (waiting r)

take_low-Takes : (q : Queues) (l : List QueueMessage) → q.low_queue ≡ l → Takes q (take_low q l)
take_low-Takes q [] e = _
take_low-Takes q (m ∷ ms) e = rw e (omega arith)

take_medium-Takes :
    (q : Queues) (l : List QueueMessage) → q.medium_queue ≡ l → Takes q (take_medium q l)
take_medium-Takes q [] e = take_low-Takes q q.low_queue refl
take_medium-Takes q (m ∷ ms) e = rw e (omega arith)

take_high-Takes : (q : Queues) (l : List QueueMessage) → q.high_queue ≡ l → Takes q (take_high q l)
take_high-Takes q [] e = take_medium-Takes q q.medium_queue refl
take_high-Takes q (m ∷ ms) e = rw e (omega arith)

take_critical-Takes :
    (q : Queues) (l : List QueueMessage) → q.critical_queue ≡ l → Takes q (take_critical q l)
take_critical-Takes q [] e = take_high-Takes q q.high_queue refl
take_critical-Takes q (m ∷ ms) e = rw e (omega arith)

begin_message-IsBalanced :
    (s : MemoryQueue) (p : Queues × Option QueueMessage) (n : ℕ)
    → Takes s.queues p
    → IsBalanced s n
    → IsBalanced (begin_message s p) n
begin_message-IsBalanced s (q, none) n t h = h
begin_message-IsBalanced s (q, some m) n t h =
    let w = h.waits in
    let c = h.counted in
    let p = h.processed in
    record {
      waits = omega (arith, w, t);
      processed = omega (arith, p, length-put m.id m s.processing);
      counted = omega (arith, c, w, t);
      acknowledged = h.acknowledged;
    }

process_next-IsBalanced : (s : MemoryQueue) (n : ℕ) → IsBalanced s n → IsBalanced (process_next s) n
unfolding process_next get_next_message
process_next-IsBalanced s n h =
    let p = get_next_message s.queues in
    let t = take_critical-Takes s.queues s.queues.critical_queue refl in
    if_cases (λ r. IsBalanced r n) s.is_consuming (begin_message s p) s
      (λ e. begin_message-IsBalanced s p n t h) (λ e. h)

ack-IsBalanced : (s : MemoryQueue) (id n : ℕ) → IsBalanced s n → IsBalanced (ack s id) n
unfolding ack
ack-IsBalanced s id n h = elim (Option-cases (get id s.processing)) [
  | inl e ↦ rw (e, ack) h
  | inr (m, e) ↦
      let c = h.counted in
      let p = h.processed in
      let a = h.acknowledged in
      let l = length-delete id m s.processing e in
      rw (e, ack)
        (record {
          waits = h.waits;
          processed = omega (arith, p, l);
          counted = omega (arith, c, p, l);
          acknowledged = omega (arith, a);
        })
]

requeue-IsBalanced :
    (s : MemoryQueue) (m : QueueMessage) (again : Bool) (n : ℕ)
    → IsBalanced s n
    → IsBalanced (requeue s m again) (suc n)
requeue-IsBalanced s m true n h =
    produce-IsBalanced s (record m { retry_count = suc m.retry_count }) n h
requeue-IsBalanced s m false n h =
    let c = h.counted in
    record {
      waits = h.waits;
      processed = h.processed;
      counted = omega (arith, c);
      acknowledged = h.acknowledged;
    }

abbrev taken : MemoryQueue → ℕ → MemoryQueue
taken s id = record s {
  processing = delete id s.processing;
  stats = record s.stats { processing = s.stats.processing - 1 };
}

taken-IsBalanced :
    (s : MemoryQueue) (id n : ℕ) (m : QueueMessage)
    → get id s.processing ≡ some m
    → IsBalanced s n
    → IsBalanced (taken s id) (n - 1) × (suc (n - 1) ≡ n)
taken-IsBalanced s id n m e h =
    let c = h.counted in
    let p = h.processed in
    let l = length-delete id m s.processing e in
    (
      record {
        waits = h.waits;
        processed = omega (arith, p, l);
        counted = omega (arith, c, p, l);
        acknowledged = h.acknowledged;
      },
      omega (arith, c, p, l),
    )

nack-IsBalanced :
    (s : MemoryQueue) (id : ℕ) (again : Bool) (n : ℕ)
    → IsBalanced s n
    → IsBalanced (nack s id again) n
unfolding nack
nack-IsBalanced s id again n h = elim (Option-cases (get id s.processing)) [
  | inl e ↦ rw (e, nack) h
  | inr (m, e) ↦
      let (t, same) = taken-IsBalanced s id n m e h in
      let done = requeue-IsBalanced (taken s id) m (again && ltb m.retry_count 3) (n - 1) t in
      rw (e, nack) (rw same at done)
]

-- The number of messages that come in.
abbrev pub count_enqueued : List Event → ℕ
count_enqueued [] = 0
count_enqueued (enqueues id p now ∷ es) = suc (count_enqueued es)
count_enqueued (_ ∷ es) = count_enqueued es

run-IsBalanced :
    (s : MemoryQueue) (es : List Event) (n : ℕ)
    → IsBalanced s n
    → IsBalanced (run s es) (count_enqueued es + n)
unfolding run step enqueue
run-IsBalanced s [] n h = rw zero-add h
run-IsBalanced s (initializes ∷ es) n h =
    let t : MemoryQueue = record s { is_consuming = true } in
    run-IsBalanced t es n (record {
      waits = h.waits;
      processed = h.processed;
      counted = h.counted;
      acknowledged = h.acknowledged;
    })
run-IsBalanced s (shuts_down ∷ es) n h =
    let t : MemoryQueue = record s { is_consuming = false } in
    run-IsBalanced t es n (record {
      waits = h.waits;
      processed = h.processed;
      counted = h.counted;
      acknowledged = h.acknowledged;
    })
run-IsBalanced s (enqueues id p now ∷ es) n h =
    let m : QueueMessage = record { id = id; priority = p; created_at = now; retry_count = 0 } in
    let later = run-IsBalanced (produce s m) es (suc n) (produce-IsBalanced s m n h) in
    let same : count_enqueued es + suc n ≡ suc (count_enqueued es) + n = omega arith in
    rw same at later
run-IsBalanced s (processes ∷ es) n h =
    run-IsBalanced (process_next s) es n (process_next-IsBalanced s n h)
run-IsBalanced s (acks id ∷ es) n h = run-IsBalanced (ack s id) es n (ack-IsBalanced s id n h)
run-IsBalanced s (nacks id again ∷ es) n h =
    run-IsBalanced (nack s id again) es n (nack-IsBalanced s id again n h)

-- After any events on a new queue each message that came in is counted exactly once, as waiting,
-- processed, completed or failed, however often it is put back or its id occurs again; those that
-- wait are as many as are counted, and of those that are processed no more are kept than are counted.
pub run-new-IsBalanced : (es : List Event) → IsBalanced (run new es) (count_enqueued es)
run-new-IsBalanced es =
    let start : IsBalanced new 0 = record {
      waits = refl;
      processed = omega arith;
      counted = omega arith;
      acknowledged = refl;
    } in
    let whole : count_enqueued es + 0 ≡ count_enqueued es = omega arith in
    rw whole at (run-IsBalanced new es 0 start)
