-- ===== src/Outbox/Stuck.antt =====
-- What becomes of an event that is left as processing (packages/outbox/src/outbox-manager.ts).
use edge_cloud_orchestrator.Prelude.{
  ℕ, ◌≡◌, refl, ◌∙◌, Bool, true, false, List, [], ◌∷◌, ◌++◌, Option, ◌==◌, if◌then◌else◌, ◌&&◌, not,
  all, map, All, arith, Bool-cases, inl, inr,
}
use edge_cloud_orchestrator.Outbox.Table.{
  processing, OutboxStatus, OutboxConfig, OutboxEvent, is_pending, is_due, select_due, update_row,
}
use edge_cloud_orchestrator.Outbox.Manager.{
  Outbox, Outcome, accepts, refuses, unrecorded, unmarked, dies, dies_sent, store_event,
  fetch_pending_events, update, mark, publish, after_error, handle_publish_error, send,
  process_event, process_loop, process_pending_events, reset, retry_failed, Event, stores,
  maps_topic, polls, retries, step, run,
}
use edge_cloud_orchestrator.Outbox.Soundness.{has_sent, take-All, insert_by_creation-All}

abbrev pub is_processing : OutboxStatus → Bool
is_processing processing = true
is_processing _ = false

-- The rows with an id.
unfoldable pub rows_of : ℕ → List OutboxEvent → List OutboxEvent
rows_of id [] = []
rows_of id (e ∷ es) = let rest = rows_of id es in if e.id == id then e ∷ rest else rest

abbrev pub all_processing : List OutboxEvent → Bool
all_processing = all (λ e. is_processing e.status)

-- An operation that leaves the rows of an id, and whether it was sent.
abbrev Leaves : ℕ → Outbox → Outbox → Type 0
Leaves id o o' =
    (rows_of id o'.rows ≡ rows_of id o.rows) × (has_sent id o'.sent ≡ has_sent id o.sent)

abbrev IsOther : ℕ → OutboxEvent → Type 0
IsOther id e = (e.id == id) ≡ false

Leaves-trans : (id : ℕ) (o p q : Outbox) → Leaves id o p → Leaves id p q → Leaves id o q
Leaves-trans id o p q (a, b) (c, d) = (c ∙ a, d ∙ b)

rows_of-update_row :
    (f : OutboxEvent → OutboxEvent) (id other : ℕ) (es : List OutboxEvent)
    → ((e : OutboxEvent) → (f e).id ≡ e.id)
    → (other == id) ≡ false
    → rows_of id (update_row f other es) ≡ rows_of id es
unfolding rows_of update_row
rows_of-update_row f id other [] h n = refl
rows_of-update_row f id other (e ∷ es) h n =
    ground (arith, h e, rows_of-update_row f id other es h n)

select_due-IsOther :
    (id now : ℕ) (es : List OutboxEvent)
    → all_processing (rows_of id es) ≡ true
    → All (IsOther id) (select_due now es)
unfolding select_due rows_of
select_due-IsOther id now [] p = _
select_due-IsOther id now (e ∷ es) p =
    let p' : all_processing (rows_of id es) ≡ true = ground arith in
    let rest = select_due-IsOther id now es p' in
    elim (Bool-cases (is_pending e.status && is_due now e.next_retry_at)) [
      | inl x ↦
          let other : IsOther id e = ground arith in
          rw x (insert_by_creation-All (IsOther id) e (select_due now es) other rest)
      | inr x ↦ rw x rest
    ]

update-Leaves :
    (f : OutboxEvent → OutboxEvent) (id other : ℕ) (o : Outbox)
    → ((e : OutboxEvent) → (f e).id ≡ e.id)
    → (other == id) ≡ false
    → Leaves id o (update f other o)
unfolding update
update-Leaves f id other o h n = (rows_of-update_row f id other o.rows h n, refl)

after_error-id :
    (c : OutboxConfig) (fetched : OutboxEvent) (now jitter : ℕ) (e : OutboxEvent)
    → (after_error c fetched now jitter e).id ≡ e.id
unfolding after_error
after_error-id c fetched now jitter e = ground arith

handle_publish_error-Leaves :
    (id : ℕ) (o : Outbox) (e : OutboxEvent) (now jitter : ℕ)
    → IsOther id e
    → Leaves id o (handle_publish_error o e now jitter)
unfolding handle_publish_error
handle_publish_error-Leaves id o e now jitter =
    update-Leaves (after_error o.config e now jitter) id e.id o
      (after_error-id o.config e now jitter)

reset-id : (ids : Option (List ℕ)) (e : OutboxEvent) → (reset ids e).id ≡ e.id
reset-id ids e = ground arith

rows_of-append :
    (id : ℕ) (es : List OutboxEvent) (e : OutboxEvent)
    → IsOther id e
    → rows_of id (es ++ e ∷ []) ≡ rows_of id es
unfolding rows_of
rows_of-append id [] e n = rw n refl
rows_of-append id (f ∷ es) e n = ground (arith, rows_of-append id es e n)

rows_of-reset :
    (id : ℕ) (ids : Option (List ℕ)) (es : List OutboxEvent)
    → all_processing (rows_of id es) ≡ true
    → rows_of id (map (reset ids) es) ≡ rows_of id es
unfolding rows_of
rows_of-reset id ids [] p = refl
rows_of-reset id ids (e ∷ es) p = ground (arith, rows_of-reset id ids es)

-- The event does not store another row with the id.
abbrev pub stores_other : ℕ → Event → Bool
stores_other id (stores i now aggregate_id event_type payload) = not (i == id)
stores_other id _ = true

mark-Leaves :
    (id : ℕ) (o : Outbox) (e : OutboxEvent) → IsOther id e → Leaves id o (update mark e.id o)
mark-Leaves id o e n = update-Leaves mark id e.id o (λ f. refl) n

module _ (infer_topic : ℕ → ℕ) where
  send-Leaves :
      (id : ℕ) (o : Outbox) (e : OutboxEvent) → IsOther id e → Leaves id o (send infer_topic o e)
  unfolding send
  send-Leaves id o e n = (refl, rw n refl)

  marked_sent-Leaves :
      (id : ℕ) (o : Outbox) (e : OutboxEvent)
      → IsOther id e
      → Leaves id o (send infer_topic (update mark e.id o) e)
  marked_sent-Leaves id o e n =
      let marked = update mark e.id o in
      Leaves-trans id o marked (send infer_topic marked e) (mark-Leaves id o e n)
        (send-Leaves id marked e n)

  process_event-Leaves :
      (id : ℕ) (o : Outbox) (e : OutboxEvent) (x : Outcome)
      → IsOther id e
      → Leaves id o (process_event infer_topic o e x).0
  unfolding process_event
  process_event-Leaves id o e (accepts now) n =
      let marked = update mark e.id o in
      let sent = send infer_topic marked e in
      Leaves-trans id o sent (update (publish now) e.id sent) (marked_sent-Leaves id o e n)
        (update-Leaves (publish now) id e.id sent (λ f. refl) n)
  process_event-Leaves id o e (refuses now jitter) n =
      let marked = update mark e.id o in
      Leaves-trans id o marked (handle_publish_error marked e now jitter) (mark-Leaves id o e n)
        (handle_publish_error-Leaves id marked e now jitter n)
  process_event-Leaves id o e (unrecorded now jitter) n =
      let sent = send infer_topic (update mark e.id o) e in
      Leaves-trans id o sent (handle_publish_error sent e now jitter) (marked_sent-Leaves id o e n)
        (handle_publish_error-Leaves id sent e now jitter n)
  process_event-Leaves id o e unmarked n = (refl, refl)
  process_event-Leaves id o e dies n = mark-Leaves id o e n
  process_event-Leaves id o e dies_sent n = marked_sent-Leaves id o e n

  process_loop-Leaves :
      (id : ℕ) (outcome : ℕ → Outcome) (es : List OutboxEvent) (o : Outbox)
      → All (IsOther id) es
      → Leaves id o (process_loop infer_topic outcome es o)
  unfolding process_loop
  process_loop-Leaves id outcome [] o n = (refl, refl)
  process_loop-Leaves id outcome (e ∷ es) o (n, ns) =
      let p = process_event infer_topic o e (outcome e.id) in
      let h = process_event-Leaves id o e (outcome e.id) n in
      elim (Bool-cases p.1) [
        | inl x ↦ rw x (
            Leaves-trans id o p.0 (process_loop infer_topic outcome es p.0) h
              (process_loop-Leaves id outcome es p.0 ns))
        | inr x ↦ rw x h
      ]

  step-Leaves :
      (id : ℕ) (o : Outbox) (e : Event)
      → all_processing (rows_of id o.rows) ≡ true
      → stores_other id e ≡ true
      → Leaves id o (step infer_topic o e)
  unfolding step store_event retry_failed process_pending_events fetch_pending_events
  step-Leaves id o (stores i now aggregate_id event_type payload) p s =
      (rows_of-append id o.rows _ (ground arith), refl)
  step-Leaves id o (maps_topic event_type topic) p s = (refl, refl)
  step-Leaves id o (polls now outcome) p s =
      process_loop-Leaves id outcome (fetch_pending_events o now) o (
        take-All (IsOther id) o.config.batch_size (select_due now o.rows)
          (select_due-IsOther id now o.rows p))
  step-Leaves id o (retries ids) p s = (rows_of-reset id ids o.rows p, refl)

  -- An event whose row is left as processing stays so, and is never sent again: whatever polls and
  -- retries follow, as long as its id is not stored again, its rows are unchanged, and it has been
  -- sent exactly if it had been sent before.
  pub processing_stuck :
      (id : ℕ) (o : Outbox) (es : List Event)
      → all_processing (rows_of id o.rows) ≡ true
      → all (stores_other id) es ≡ true
      → let o' = run infer_topic o es in
        (rows_of id o'.rows ≡ rows_of id o.rows) × (has_sent id o'.sent ≡ has_sent id o.sent)
  unfolding run
  processing_stuck id o [] p s = (refl, refl)
  processing_stuck id o (e ∷ es) p s =
      let o' = step infer_topic o e in
      let s0 : stores_other id e ≡ true = ground arith in
      let s1 : all (stores_other id) es ≡ true = ground arith in
      let h = step-Leaves id o e p s0 in
      let p' : all_processing (rows_of id o'.rows) ≡ true = rw h.0 p in
      Leaves-trans id o o' (run infer_topic o' es) h (processing_stuck id o' es p' s1)
