-- ===== src/Outbox/Manager.antt =====
-- packages/outbox/src/outbox-manager.ts, the class `OutboxManager`.
use edge_cloud_orchestrator.Prelude.{
  ℕ, ◌+◌, ◌*◌, ◌^◌, min, Bool, true, false, List, [], ◌∷◌, ◌++◌, Option, none, some, ltb, ◌==◌,
  if◌then◌else◌, ◌&&◌, any, map, take,
}
use edge_cloud_orchestrator.Prelude.Dict.{get, put}
use edge_cloud_orchestrator.Outbox.Table.{
  pending, processing, published, failed, OutboxConfig, OutboxEvent, is_failed, select_due,
  update_row,
}

pub record Message : Type 0 where
  pub topic : ℕ
  pub key : ℕ
  pub value : ℕ
  pub event_id : ℕ

-- `sent` is what the producer has accepted, the last first.
pub record Outbox : Type 0 where
  pub config : OutboxConfig
  pub topic_mapping : List (ℕ × ℕ)
  pub rows : List OutboxEvent
  pub sent : List Message

abbrev pub new_outbox : OutboxConfig → Outbox
new_outbox k = record { config = k; topic_mapping = []; rows = []; sent = [] }

-- What comes of one event of a batch: the message is accepted; it is refused; it is accepted, but
-- the update that records it fails; the row cannot be marked; the process ends, or can write no more,
-- after marking it, before or after the message is accepted. The jitter is that of the error's handling.
pub data Outcome : Type 0 where
  accepts : ℕ → Outcome
  refuses unrecorded : ℕ → ℕ → Outcome
  unmarked dies dies_sent : Outcome

-- `storeEvent`; the database gives the id and the time.
unfoldable pub store_event : Outbox → ℕ → ℕ → ℕ → ℕ → ℕ → Outbox
store_event o id now aggregate_id event_type payload = record o {
  rows =
      o.rows
      ++ record {
        id = id;
        aggregate_id = aggregate_id;
        event_type = event_type;
        payload = payload;
        status = pending;
        attempts = 0;
        max_attempts = o.config.max_attempts;
        next_retry_at = none;
        processed_at = none;
        created_at = now;
      }
        ∷ [];
}

unfoldable pub fetch_pending_events : Outbox → ℕ → List OutboxEvent
fetch_pending_events o now = take o.config.batch_size (select_due now o.rows)

unfoldable pub update : (OutboxEvent → OutboxEvent) → ℕ → Outbox → Outbox
update f id o = record o { rows = update_row f id o.rows }

-- `calculateBackoff`, where the jitter is the part below a tenth that `Math.random` picks.
unfoldable pub calculate_backoff : OutboxConfig → ℕ → ℕ → ℕ
calculate_backoff k attempt jitter =
    min (k.retry_base_delay * 2 ^ attempt) k.retry_max_delay + jitter

abbrev pub mark : OutboxEvent → OutboxEvent
mark e = record e { status = processing }

abbrev pub publish : ℕ → OutboxEvent → OutboxEvent
publish now e = record e { status = published; processed_at = some now }

abbrev pub retry_later : ℕ → ℕ → OutboxEvent → OutboxEvent
retry_later attempts at e = record e {
  status = pending;
  attempts = attempts;
  next_retry_at = some at;
}

abbrev pub give_up : ℕ → OutboxEvent → OutboxEvent
give_up attempts e = record e { status = failed; attempts = attempts }

-- What `handlePublishError` writes, for the event as it was fetched.
unfoldable pub after_error : OutboxConfig → OutboxEvent → ℕ → ℕ → OutboxEvent → OutboxEvent
after_error k fetched now jitter e =
    let attempts = fetched.attempts + 1 in
    if ltb attempts fetched.max_attempts
    then retry_later attempts (now + calculate_backoff k attempts jitter) e
    else give_up attempts e

unfoldable pub handle_publish_error : Outbox → OutboxEvent → ℕ → ℕ → Outbox
handle_publish_error o e now jitter = update (after_error o.config e now jitter) e.id o

module _ (infer_topic : ℕ → ℕ) where
  abbrev pub topic_of : Outbox → OutboxEvent → ℕ
  topic_of o e = elim (get e.event_type o.topic_mapping) [
    | none ↦ infer_topic e.event_type
    | some t ↦ t
  ]

  abbrev pub message_of : Outbox → OutboxEvent → Message
  message_of o e = record {
    topic = topic_of o e;
    key = e.aggregate_id;
    value = e.payload;
    event_id = e.id;
  }

  -- `producer.send`, where it is accepted.
  unfoldable pub send : Outbox → OutboxEvent → Outbox
  send o e = record o { sent = message_of o e ∷ o.sent }

  -- `processEvent`; the flag says whether the batch goes on.
  unfoldable pub process_event : Outbox → OutboxEvent → Outcome → Outbox × Bool
  process_event o e (accepts now) = (update (publish now) e.id (send (update mark e.id o) e), true)
  process_event o e (refuses now jitter) =
      (handle_publish_error (update mark e.id o) e now jitter, true)
  process_event o e (unrecorded now jitter) =
      (handle_publish_error (send (update mark e.id o) e) e now jitter, true)
  process_event o e unmarked = (o, false)
  process_event o e dies = (update mark e.id o, false)
  process_event o e dies_sent = (send (update mark e.id o) e, false)

  -- The loop of `processPendingEvents`, given what comes of each event by its id.
  unfoldable pub process_loop : (ℕ → Outcome) → List OutboxEvent → Outbox → Outbox
  process_loop outcome [] o = o
  process_loop outcome (e ∷ es) o =
      let (o', goes_on) = process_event o e (outcome e.id) in
      let rest = process_loop outcome es o' in if goes_on then rest else o'

  unfoldable pub process_pending_events : Outbox → ℕ → (ℕ → Outcome) → Outbox
  process_pending_events o now outcome = process_loop outcome (fetch_pending_events o now) o

-- `retryFailed`, of the given ids or of all.
abbrev pub is_asked_for : Option (List ℕ) → ℕ → Bool
is_asked_for none id = true
is_asked_for (some ids) id = any (λ i. i == id) ids

abbrev pub reset : Option (List ℕ) → OutboxEvent → OutboxEvent
reset ids e =
    if is_failed e.status && is_asked_for ids e.id
    then record e { status = pending; attempts = 0; next_retry_at = none }
    else e

unfoldable pub retry_failed : Outbox → Option (List ℕ) → Outbox
retry_failed o ids = record o { rows = map (reset ids) o.rows }

-- What can happen to an outbox.
pub data Event : Type 0 where
  stores : ℕ → ℕ → ℕ → ℕ → ℕ → Event
  maps_topic : ℕ → ℕ → Event
  polls : ℕ → (ℕ → Outcome) → Event
  retries : Option (List ℕ) → Event

module _ (infer_topic : ℕ → ℕ) where
  unfoldable pub step : Outbox → Event → Outbox
  step o (stores id now aggregate_id event_type payload) =
      store_event o id now aggregate_id event_type payload
  step o (maps_topic event_type topic) = record o {
    topic_mapping = put event_type topic o.topic_mapping;
  }
  step o (polls now outcome) = process_pending_events infer_topic o now outcome
  step o (retries ids) = retry_failed o ids

  unfoldable pub run : Outbox → List Event → Outbox
  run o [] = o
  run o (e ∷ es) = run (step o e) es
