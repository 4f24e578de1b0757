-- ===== src/Outbox/Delivery.antt =====
-- What a poll without errors delivers (packages/outbox/src/outbox-manager.ts).
use edge_cloud_orchestrator.Prelude.{
  ℕ, ◌≡◌, refl, Bool, true, List, [], ◌∷◌, ◌==◌, ◌||◌, not, all, All, arith,
}
use edge_cloud_orchestrator.Outbox.Table.{OutboxEvent, update_row}
use edge_cloud_orchestrator.Outbox.Manager.{
  Outbox, accepts, fetch_pending_events, update, mark, publish, send, process_event, process_loop,
  process_pending_events,
}
use edge_cloud_orchestrator.Outbox.Soundness.{is_published, has_sent}

-- All rows with an id are published.
abbrev pub all_published : ℕ → List OutboxEvent → Bool
all_published id = all (λ e. not (e.id == id) || is_published e.status)

-- The event is sent, and its rows are marked as published.
abbrev pub IsDelivered : Outbox → ℕ → Type 0
IsDelivered o id = (has_sent id o.sent ≡ true) × (all_published id o.rows ≡ true)

publish_rows :
    (id now : ℕ) (es : List OutboxEvent)
    → all_published id (update_row (publish now) id (update_row mark id es)) ≡ true
unfolding update_row
publish_rows id now [] = refl
publish_rows id now (e ∷ es) = ground (arith, publish_rows id now es)

keep_rows :
    (id other now : ℕ) (es : List OutboxEvent)
    → all_published id es ≡ true
    → all_published id (update_row (publish now) other (update_row mark other es)) ≡ true
unfolding update_row
keep_rows id other now [] h = refl
keep_rows id other now (e ∷ es) h = ground (arith, keep_rows id other now es)

module _ (infer_topic : ℕ → ℕ) where
  accepted-IsDelivered :
      (o : Outbox) (e : OutboxEvent) (now : ℕ)
      → IsDelivered (process_event infer_topic o e (accepts now)).0 e.id
  unfolding process_event update send
  accepted-IsDelivered o e now = (ground arith, publish_rows e.id now o.rows)

  accepted_keeps :
      (o : Outbox) (e : OutboxEvent) (now id : ℕ)
      → IsDelivered o id
      → IsDelivered (process_event infer_topic o e (accepts now)).0 id
  unfolding process_event update send
  accepted_keeps o e now id (s, p) = (ground arith, keep_rows id e.id now o.rows p)

  loop_keeps :
      (at : ℕ → ℕ) (es : List OutboxEvent) (o : Outbox) (id : ℕ)
      → IsDelivered o id
      → IsDelivered (process_loop infer_topic (λ i. accepts (at i)) es o) id
  unfolding process_loop process_event
  loop_keeps at [] o id d = d
  loop_keeps at (e ∷ es) o id d =
      let o' = (process_event infer_topic o e (accepts (at e.id))).0 in
      loop_keeps at es o' id (accepted_keeps o e (at e.id) id d)

  loop-IsDelivered :
      (at : ℕ → ℕ) (es : List OutboxEvent) (o : Outbox)
      → All (λ e. IsDelivered (process_loop infer_topic (λ i. accepts (at i)) es o) e.id) es
  unfolding process_loop process_event
  loop-IsDelivered at [] o = _
  loop-IsDelivered at (e ∷ es) o =
      let o' = (process_event infer_topic o e (accepts (at e.id))).0 in
      (loop_keeps at es o' e.id (accepted-IsDelivered o e (at e.id)), loop-IsDelivered at es o')

  -- After a poll in which every message is accepted, each event that the poll fetched has been sent
  -- and its rows are marked as published.
  pub poll-IsDelivered :
      (o : Outbox) (now : ℕ) (at : ℕ → ℕ)
      → let o' = process_pending_events infer_topic o now (λ i. accepts (at i)) in
        All (λ e. IsDelivered o' e.id) (fetch_pending_events o now)
  unfolding process_pending_events
  poll-IsDelivered o now at = loop-IsDelivered at (fetch_pending_events o now) o
