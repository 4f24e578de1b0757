-- ===== src/DeadLetters/Examples.antt =====
-- Concrete runs of packages/event-bus/src/dead-letter-queue.ts.
use edge_cloud_orchestrator.Prelude.{◌≡◌, refl, true, false, List, [], ◌∷◌}
use edge_cloud_orchestrator.Prelude.Dict.{get, put}
use edge_cloud_orchestrator.DeadLetters.{
  Replies, catch_retry, pending, permanently_failed, DeadLetterEvent, DeadLetterQueue, new,
  send_to_dlq, begin_retry, end_retry, retry_event, retry_events, purge_old_events, Event, sends,
  retries, purges, step, run,
}
use edge_cloud_orchestrator.DeadLetters.Once.{times_published, IsCounted}
use edge_cloud_orchestrator.DeadLetters.Lifetime.{losses, run-new-IsCounted}

-- The update after the producer fails only in the last of these.
abbrev accepts : Replies
accepts = record { begun = true; accepted = true; recorded = true; caught = true }

abbrev rejects : Replies
rejects = record accepts { accepted = false }

abbrev loses : Replies
loses = record accepts { recorded = false }

-- Of two dead letters one is published again at its second attempt, the other one fails for good.
abbrev busy : List Event
busy =
    sends 7 70 1
    ∷ sends 8 80 2
    ∷ retries ((0, rejects) ∷ (1, rejects) ∷ [])
    ∷ retries ((0, accepts) ∷ (1, rejects) ∷ [])
    ∷ retries ((0, accepts) ∷ [])
    ∷ purges 2
    ∷ []

run-new-IsCounted_example :
    let s = run (new true 2) busy in
    IsCounted (times_published 0 s.published) (losses 0 busy) (get 0 s.rows)
run-new-IsCounted_example = run-new-IsCounted true 2 0 busy

abbrev failed_row : DeadLetterEvent
failed_row = record {
  original_topic = 8;
  payload = 80;
  attempts = 2;
  status = permanently_failed;
  created_at = 2;
}

busy_test :
    let s = run (new true 2) busy in (s.published ≡ 0 ∷ []) × (s.rows ≡ (1, failed_row) ∷ [])
unfolding run step send_to_dlq retry_events retry_event begin_retry end_retry catch_retry
    purge_old_events get put
busy_test = (refl, refl)

-- A dead letter that has failed for good is retried all the same, above the limit of attempts.
again_test :
    let s = (retry_event (run (new true 2) busy) 1 rejects).0 in
    s.rows ≡ (1, record failed_row { attempts = 3 }) ∷ []
unfolding run step send_to_dlq retry_events retry_event begin_retry end_retry catch_retry
    purge_old_events get put
again_test = refl

abbrev row : DeadLetterEvent
row = record { original_topic = 7; payload = 70; attempts = 0; status = pending; created_at = 1 }

-- A message is accepted and the row goes back to PENDING, since the update to REPROCESSED fails; the next
-- retry publishes it again.
lost_test :
    let s = run (new true 2) (sends 7 70 1 ∷ retries ((0, loses) ∷ []) ∷ []) in
    (s.published ≡ 0 ∷ [])
    × (s.rows ≡ (0, record row { attempts = 1 }) ∷ [])
    × ((retry_event s 0 accepts).0.published ≡ 0 ∷ 0 ∷ [])
unfolding run step send_to_dlq retry_events retry_event begin_retry end_retry catch_retry get put
lost_test = (refl, refl, refl)

-- Two retries of one dead letter at the same time publish it twice.
abbrev twice : DeadLetterQueue
twice =
    let s = run (new true 2) (sends 7 70 1 ∷ []) in
    let begun = (begin_retry (begin_retry s 0 true).0 0 true).0 in
    end_retry (end_retry begun 0 row accepts) 0 row accepts

twice_test : times_published 0 twice.published ≡ 2
unfolding run step send_to_dlq begin_retry end_retry catch_retry times_published get put
twice_test = refl
