-- ===== src/Outbox/Run.antt =====
-- What any events leave true of an outbox (packages/outbox/src/outbox-manager.ts).
use edge_cloud_orchestrator.Prelude.{
  ℕ, ◌+◌, ◌<◌, ◌≡◌, refl, true, List, [], ◌∷◌, ◌++◌, Option, ltb, ◌&&◌, map, All, All-map, arith,
  Bool-cases, inl, inr,
}
use edge_cloud_orchestrator.Outbox.Table.{OutboxConfig, OutboxEvent, is_failed, select_due}
use edge_cloud_orchestrator.Outbox.Manager.{
  Outbox, Message, new_outbox, Outcome, accepts, refuses, unrecorded, unmarked, dies, dies_sent,
  store_event, fetch_pending_events, update, mark, publish, after_error, handle_publish_error, send,
  process_event, process_loop, process_pending_events, reset, is_asked_for, retry_failed, Event,
  stores, maps_topic, polls, retries, step, run, message_of,
}
use edge_cloud_orchestrator.Outbox.Soundness.{
  has_sent, IsSound, IsFetched, send-IsSound, update_row-All, take-All, select_due-IsFetched,
}

abbrev Keeps : ℕ → Outbox → Type 0
Keeps k o = (o.config.max_attempts ≡ k) × All (IsSound k o.sent) o.rows

update-Keeps :
    (k : ℕ) (f : OutboxEvent → OutboxEvent) (id : ℕ) (o : Outbox)
    → ((e : OutboxEvent) → e.id ≡ id → IsSound k o.sent e → IsSound k o.sent (f e))
    → Keeps k o
    → Keeps k (update f id o)
unfolding update
update-Keeps k f id o h (c, s) = (c, update_row-All (IsSound k o.sent) f id o.rows h s)

mark-IsSound :
    (k : ℕ) (sent : List Message) (e : OutboxEvent) → IsSound k sent e → IsSound k sent (mark e)
mark-IsSound k sent e (x, a, h) = (x, ground arith, refl)

publish-IsSound :
    (k : ℕ) (sent : List Message) (now : ℕ) (e : OutboxEvent)
    → has_sent e.id sent ≡ true
    → IsSound k sent e
    → IsSound k sent (publish now e)
publish-IsSound k sent now e s (x, a, h) = (x, ground arith, s)

after_error-IsSound :
    (k : ℕ) (sent : List Message) (c : OutboxConfig) (fetched : OutboxEvent) (now jitter : ℕ)
    (e : OutboxEvent)
    → IsFetched k fetched
    → IsSound k sent e
    → IsSound k sent (after_error c fetched now jitter e)
unfolding after_error
after_error-IsSound k sent c fetched now jitter e (y, l) (x, a, h) =
    elim (Bool-cases (ltb (fetched.attempts + 1) fetched.max_attempts)) [
      | inl b ↦ rw b (x, ground arith, refl)
      | inr b ↦ rw b (x, ground arith, refl)
    ]

handle_publish_error-Keeps :
    (k : ℕ) (o : Outbox) (fetched : OutboxEvent) (now jitter : ℕ)
    → IsFetched k fetched
    → Keeps k o
    → Keeps k (handle_publish_error o fetched now jitter)
unfolding handle_publish_error
handle_publish_error-Keeps k o fetched now jitter f =
    update-Keeps k (after_error o.config fetched now jitter) fetched.id o
      (λ e i. after_error-IsSound k o.sent o.config fetched now jitter e f)

mark-Keeps : (k id : ℕ) (o : Outbox) → Keeps k o → Keeps k (update mark id o)
mark-Keeps k id o = update-Keeps k mark id o (λ e i. mark-IsSound k o.sent e)

module _ (infer_topic : ℕ → ℕ) where
  send-Keeps : (k : ℕ) (o : Outbox) (e : OutboxEvent) → Keeps k o → Keeps k (send infer_topic o e)
  unfolding send
  send-Keeps k o e (c, s) =
      (c, All-map (λ f. send-IsSound k (message_of infer_topic o e) o.sent f) o.rows s)

  send-has_sent :
      (o : Outbox) (e : OutboxEvent) (id : ℕ)
      → id ≡ e.id
      → has_sent id (send infer_topic o e).sent ≡ true
  unfolding send
  send-has_sent o e id i = ground arith

  publish-Keeps :
      (k : ℕ) (o : Outbox) (fetched : OutboxEvent) (now : ℕ)
      → Keeps k o
      → Keeps k (update (publish now) fetched.id (send infer_topic o fetched))
  publish-Keeps k o fetched now h =
      let o' = send infer_topic o fetched in
      update-Keeps k (publish now) fetched.id o'
        (λ e i. publish-IsSound k o'.sent now e (send-has_sent o fetched e.id i))
        (send-Keeps k o fetched h)

  process_event-Keeps :
      (k : ℕ) (o : Outbox) (e : OutboxEvent) (x : Outcome)
      → IsFetched k e
      → Keeps k o
      → Keeps k (process_event infer_topic o e x).0
  unfolding process_event
  process_event-Keeps k o e (accepts now) f h =
      publish-Keeps k (update mark e.id o) e now (mark-Keeps k e.id o h)
  process_event-Keeps k o e (refuses now jitter) f h =
      handle_publish_error-Keeps k (update mark e.id o) e now jitter f (mark-Keeps k e.id o h)
  process_event-Keeps k o e (unrecorded now jitter) f h =
      let marked = update mark e.id o in
      handle_publish_error-Keeps k (send infer_topic marked e) e now jitter f
        (send-Keeps k marked e (mark-Keeps k e.id o h))
  process_event-Keeps k o e unmarked f h = h
  process_event-Keeps k o e dies f h = mark-Keeps k e.id o h
  process_event-Keeps k o e dies_sent f h =
      send-Keeps k (update mark e.id o) e (mark-Keeps k e.id o h)

  process_loop-Keeps :
      (k : ℕ) (outcome : ℕ → Outcome) (es : List OutboxEvent) (o : Outbox)
      → All (IsFetched k) es
      → Keeps k o
      → Keeps k (process_loop infer_topic outcome es o)
  unfolding process_loop
  process_loop-Keeps k outcome [] o f h = h
  process_loop-Keeps k outcome (e ∷ es) o (f, fs) h =
      let p = process_event infer_topic o e (outcome e.id) in
      let h' = process_event-Keeps k o e (outcome e.id) f h in
      elim (Bool-cases p.1) [
        | inl x ↦ rw x (process_loop-Keeps k outcome es p.0 fs h')
        | inr x ↦ rw x h'
      ]

  process_pending_events-Keeps :
      (k : ℕ) (o : Outbox) (now : ℕ) (outcome : ℕ → Outcome)
      → Keeps k o
      → Keeps k (process_pending_events infer_topic o now outcome)
  unfolding process_pending_events fetch_pending_events
  process_pending_events-Keeps k o now outcome h =
      process_loop-Keeps k outcome (fetch_pending_events o now) o
        (take-All (IsFetched k) o.config.batch_size (select_due now o.rows)
          (select_due-IsFetched k o.sent now o.rows h.1))
        h

append-All :
    (P : OutboxEvent → Type 0) (es : List OutboxEvent) (e : OutboxEvent)
    → All P es
    → P e
    → All P (es ++ e ∷ [])
append-All P [] e ps p = (p, _)
append-All P (f ∷ es) e (q, ps) p = (q, append-All P es e ps p)

reset-IsSound :
    (k : ℕ) (sent : List Message) (ids : Option (List ℕ)) (e : OutboxEvent)
    → 0 < k
    → IsSound k sent e
    → IsSound k sent (reset ids e)
reset-IsSound k sent ids e l (x, a, h) =
    elim (Bool-cases (is_failed e.status && is_asked_for ids e.id)) [
      | inl b ↦ rw b (x, ground arith, refl)
      | inr b ↦ rw b (x, a, h)
    ]

map-All :
    (P : OutboxEvent → Type 0) (f : OutboxEvent → OutboxEvent) (es : List OutboxEvent)
    → ((e : OutboxEvent) → P e → P (f e))
    → All P es
    → All P (map f es)
map-All P f [] h ps = _
map-All P f (e ∷ es) h (p, ps) = (h e p, map-All P f es h ps)

module _ (infer_topic : ℕ → ℕ) where
  step-Keeps : (k : ℕ) (o : Outbox) (e : Event) → 0 < k → Keeps k o → Keeps k (step infer_topic o e)
  unfolding step store_event retry_failed
  step-Keeps k o (stores id now aggregate_id event_type payload) l (c, s) =
      (c, append-All (IsSound k o.sent) o.rows _ s (c, ground arith, refl))
  step-Keeps k o (maps_topic event_type topic) l h = h
  step-Keeps k o (polls now outcome) l h =
      process_pending_events-Keeps infer_topic k o now outcome h
  step-Keeps k o (retries ids) l (c, s) =
      (c, map-All (IsSound k o.sent) (reset ids) o.rows (λ e. reset-IsSound k o.sent ids e l) s)

  run-Keeps :
      (k : ℕ) (o : Outbox) (es : List Event) → 0 < k → Keeps k o → Keeps k (run infer_topic o es)
  unfolding run
  run-Keeps k o [] l h = h
  run-Keeps k o (e ∷ es) l h = run-Keeps k (step infer_topic o e) es l (step-Keeps k o e l h)

  -- With at least one attempt allowed, after any events an event that is marked as published has been
  -- accepted by the producer, one that is marked as failed has had all its attempts, one that is
  -- pending has had fewer, and none has had more.
  pub run-new_outbox-IsSound :
      (c : OutboxConfig) (es : List Event)
      → 0 < c.max_attempts
      → let o = run infer_topic (new_outbox c) es in All (IsSound c.max_attempts o.sent) o.rows
  run-new_outbox-IsSound c es l = (run-Keeps c.max_attempts (new_outbox c) es l (refl, _)).1
