-- ===== src/EventStore/Log.antt =====
-- `EventStore` against a log that keeps every event (src/lib/events/EventStore.ts).
use edge_cloud_orchestrator.Prelude.{
  ℕ, suc, zero, ◌+◌, ◌-◌, ◌≡◌, refl, sym, ap, ◌∙◌, List, [], ◌∷◌, ◌++◌, ltb, ◌==◌, if◌then◌else◌,
  length, drop, keep_last, length-append, length-drop, drop-append, drop-drop, arith, inl, inr,
  Bool-cases,
}
use edge_cloud_orchestrator.Prelude.Dict.{get, put, get-put}
use edge_cloud_orchestrator.EventStore.{
  Event, EventStore, new_store, Append, or_zero, current_version, event_of, rebuild_index, trim,
  store_event, append, subscribe, unsubscribe, Call, appends, subscribes, unsubscribes,
  sets_publisher, step, run,
}

-- How many events of an aggregate a log holds.
unfoldable pub count_of : ℕ → List Event → ℕ
count_of a [] = 0
count_of a (e ∷ es) = (if e.aggregate_id == a then 1 else 0) + count_of a es

-- The log that is promised: each event is put last, with the next version of its aggregate, and stays.
abbrev pub log_event : List Event → Append → List Event
log_event log r = log ++ event_of r (count_of r.aggregate_id log + 1) ∷ []

abbrev pub log_step : List Event → Call → List Event
log_step log (appends r) = log_event log r
log_step log (subscribes id sub) = log
log_step log (unsubscribes id) = log
log_step log sets_publisher = log

unfoldable pub log_run : List Event → List Call → List Event
log_run log [] = log
log_run log (c ∷ cs) = log_run (log_step log c) cs

-- The store holds the last events of the log, and the versions that it counts.
pub record Refines (s : EventStore) (log : List Event) : Type 0 where
  pub keeps_last : s.events ≡ keep_last s.max_events_in_memory log
  pub counts : (a : ℕ) → or_zero (get a s.aggregate_versions) ≡ count_of a log

pub count_of-append :
    (a : ℕ) (es : List Event) (e : Event)
    → count_of a (es ++ e ∷ []) ≡ count_of a es + (if e.aggregate_id == a then 1 else 0)
unfolding count_of
count_of-append a [] e = omega arith
count_of-append a (f ∷ es) e = omega (arith, count_of-append a es e)

-- Dropping what is too much after each event is dropping it at the end.
keep_last-append :
    (k : ℕ) (log : List Event) (e : Event)
    → let es = keep_last k log ++ e ∷ [] in
      (if ltb k (length es) then drop (length es - k) es else es) ≡ keep_last k (log ++ e ∷ [])
keep_last-append k log e =
    let m = length log - k in
    let joined : drop m (log ++ e ∷ []) ≡ keep_last k log ++ e ∷ [] =
      drop-append m log (e ∷ []) (omega arith) in
    let len : length (keep_last k log ++ e ∷ []) ≡ length log - m + 1 =
      omega (arith, length-append (keep_last k log) (e ∷ []), length-drop m log) in
    let all = log ++ e ∷ [] in
    let size : length all ≡ length log + 1 = omega (arith, length-append log (e ∷ [])) in
    rw (len, ← joined)
      (elim (Bool-cases (ltb k (length log - m + 1))) [
        | inl t ↦
            rw t (
              drop-drop (length log - m + 1 - k) m all
              ∙ ap (λ i. drop i all) (ground (arith, size)))
        | inr t ↦ rw t (ap (λ i. drop i all) (ground (arith, size)))
      ])

trim_events :
    (s : EventStore)
    → let k = s.max_events_in_memory in
      ((trim s).events
        ≡ (if ltb k (length s.events) then drop (length s.events - k) s.events else s.events))
      × ((trim s).aggregate_versions ≡ s.aggregate_versions)
      × ((trim s).max_events_in_memory ≡ k)
unfolding trim rebuild_index
trim_events s = ground arith

counted :
    (r : Append) (v : ℕ) (m : List (ℕ × ℕ)) (log : List Event) (b : ℕ)
    → v ≡ count_of r.aggregate_id log + 1
    → or_zero (get b m) ≡ count_of b log
    → or_zero (get b (put r.aggregate_id v m)) ≡ count_of b (log_event log r)
counted r v m log b h k =
    let e = event_of r (count_of r.aggregate_id log + 1) in
    ground (arith, get-put r.aggregate_id b v m, count_of-append b log e)

abbrev no_events : List Event
no_events = []

drop-nil : (n : ℕ) → drop n no_events ≡ no_events
drop-nil zero = refl
drop-nil (suc n) = refl

store_event-Refines :
    (s : EventStore) (log : List Event) (r : Append)
    → Refines s log
    → Refines (store_event s r) (log_event log r)
unfolding store_event current_version
store_event-Refines s log r f =
    let k = s.max_events_in_memory in
    let a = r.aggregate_id in
    let v = or_zero (get a s.aggregate_versions) + 1 in
    let s1 = record s {
      events = s.events ++ event_of r v ∷ [];
      event_index = put r.id (length s.events) s.event_index;
      aggregate_versions = put a v s.aggregate_versions;
    } in
    let t = trim_events s1 in
    let e = event_of r (count_of a log + 1) in
    let next : event_of r v ≡ e = ap (λ n. event_of r (n + 1)) (f.counts a) in
    let joined : s.events ++ event_of r v ∷ [] ≡ keep_last k log ++ e ∷ [] =
      rw (f.keeps_last, next) refl in
    record {
      keeps_last =
          t.0
          ∙ (ap (λ es. if ltb k (length es) then drop (length es - k) es else es) joined
              ∙ (keep_last-append k log e ∙ ap (λ n. keep_last n (log ++ e ∷ [])) (sym t.2)));
      counts = λ b.
          ap (λ m. or_zero (get b m)) t.1
          ∙ counted r v s.aggregate_versions log b (ap (λ n. n + 1) (f.counts a)) (f.counts b);
    }

step-Refines :
    (s : EventStore) (log : List Event) (c : Call)
    → Refines s log
    → Refines (step s c) (log_step log c)
unfolding step append subscribe unsubscribe
step-Refines s log (appends r) f = store_event-Refines s log r f
step-Refines s log (subscribes id sub) f = record { keeps_last = f.keeps_last; counts = f.counts }
step-Refines s log (unsubscribes id) f = record { keeps_last = f.keeps_last; counts = f.counts }
step-Refines s log sets_publisher f = record { keeps_last = f.keeps_last; counts = f.counts }

run-Refines :
    (s : EventStore) (log : List Event) (cs : List Call)
    → Refines s log
    → Refines (run s cs) (log_run log cs)
unfolding run log_run
run-Refines s log [] f = f
run-Refines s log (c ∷ cs) f = run-Refines (step s c) (log_step log c) cs (step-Refines s log c f)

-- After any calls the store holds the last events, as many as its memory may hold, of a log that
-- keeps every event with the next version of its aggregate, and counts the versions of that log, which
-- does not depend on what the publisher and the subscribers do.
pub run-new-Refines : (k : ℕ) (cs : List Call) → Refines (run (new_store k) cs) (log_run [] cs)
unfolding count_of get
run-new-Refines k cs =
    run-Refines (new_store k) [] cs
      (record { keeps_last = sym (drop-nil (0 - k)); counts = λ a. refl })
