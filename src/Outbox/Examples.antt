-- ===== src/Outbox/Examples.antt =====
-- Concrete runs of packages/outbox/src/outbox-manager.ts.
use edge_cloud_orchestrator.Prelude.{
  ℕ, ◌+◌, ◌≡◌, refl, List, [], ◌∷◌, none, arith, All, map, ◌==◌, if◌then◌else◌,
}
use edge_cloud_orchestrator.Outbox.Table.{
  pending, processing, published, default_outbox_config, select_due, insert_by_creation, update_row,
}
use edge_cloud_orchestrator.Outbox.Manager.{
  Outbox, new_outbox, Outcome, accepts, refuses, dies, store_event, fetch_pending_events, update,
  after_error, handle_publish_error, send, process_event, process_loop, process_pending_events,
  Event, stores, polls, retries, step, run,
}
use edge_cloud_orchestrator.Outbox.Soundness.{IsSound, has_sent}
use edge_cloud_orchestrator.Outbox.Run.{run-new_outbox-IsSound}
use edge_cloud_orchestrator.Outbox.Delivery.{IsDelivered, poll-IsDelivered}
use edge_cloud_orchestrator.Outbox.Stuck.{rows_of, processing_stuck}

abbrev topic : ℕ → ℕ
topic event_type = event_type + 100

-- Of three events the first is accepted, the second refused, and the process ends at the third.
abbrev outcomes : ℕ → Outcome
outcomes id = if id == 1 then accepts 30 else if id == 2 then refuses 31 5 else dies

abbrev events : List Event
events = stores 1 10 7 1 50 ∷ stores 2 11 7 2 51 ∷ stores 3 12 8 1 52 ∷ polls 30 outcomes ∷ []

abbrev left : Outbox
left = run topic (new_outbox default_outbox_config) events

statuses_test : map (λ e. e.status) left.rows ≡ published ∷ pending ∷ processing ∷ []
unfolding run step store_event process_pending_events fetch_pending_events process_loop
    process_event select_due insert_by_creation update update_row handle_publish_error after_error
    send
statuses_test = refl

run-new_outbox-IsSound_example : All (IsSound 5 left.sent) left.rows
run-new_outbox-IsSound_example =
    run-new_outbox-IsSound topic default_outbox_config events (omega arith)

abbrev stored : Outbox
stored =
    run topic (new_outbox default_outbox_config)
      (stores 1 10 7 1 50 ∷ stores 2 11 7 2 51 ∷ stores 3 12 8 1 52 ∷ [])

fetched_test : map (λ e. e.id) (fetch_pending_events stored 30) ≡ 1 ∷ 2 ∷ 3 ∷ []
unfolding run step store_event fetch_pending_events select_due insert_by_creation
fetched_test = refl

poll-IsDelivered_example :
    let o = process_pending_events topic stored 30 (λ id. accepts (id + 30)) in
    All (λ e. IsDelivered o e.id) (fetch_pending_events stored 30)
poll-IsDelivered_example = poll-IsDelivered topic stored 30 (λ id. id + 30)

processing_stuck_example :
    let o = run topic left (retries none ∷ polls 9999 outcomes ∷ []) in
    (rows_of 3 o.rows ≡ rows_of 3 left.rows) × (has_sent 3 o.sent ≡ has_sent 3 left.sent)
unfolding run step store_event process_pending_events fetch_pending_events process_loop
    process_event select_due insert_by_creation update update_row handle_publish_error after_error
    send rows_of
processing_stuck_example =
    processing_stuck topic 3 left (retries none ∷ polls 9999 outcomes ∷ []) refl refl
