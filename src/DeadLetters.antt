-- ===== src/DeadLetters.antt =====
-- packages/event-bus/src/dead-letter-queue.ts, the class `DeadLetterQueue`. The database gives each row
-- the next number as its id; topics and payloads are numbers. Whether the producer accepts a message, and
-- which updates of the database succeed, are arguments of a retry; where the database fails elsewhere,
-- nothing is changed by the call. `published` are the ids of the rows that the producer accepted for
-- their original topic, the last first. A retry waits for the producer between `begin_retry` and
-- `end_retry`. Headers, the creation of topics and the queries that only read are left out.
use edge_cloud_orchestrator.Prelude.{
  ℕ, suc, zero, ◌+◌, Bool, true, false, List, [], ◌∷◌, ◌++◌, Option, none, some, ltb, leb, ◌==◌,
  if◌then◌else◌, ◌&&◌,
}
use edge_cloud_orchestrator.Prelude.Dict.{get, put}
pub mod Once
pub mod Retries
pub mod Lifetime
mod Examples

pub data Status : Type 0 where
  pending retrying reprocessed permanently_failed : Status

pub record DeadLetterEvent : Type 0 where
  pub original_topic : ℕ
  pub payload : ℕ
  pub attempts : ℕ
  pub status : Status
  pub created_at : ℕ

pub record DeadLetterQueue : Type 0 where
  pub enabled : Bool
  pub max_retries : ℕ
  pub rows : List (ℕ × DeadLetterEvent)
  pub next_id : ℕ
  pub published : List ℕ

abbrev pub new : Bool → ℕ → DeadLetterQueue
new b k = record { enabled = b; max_retries = k; rows = []; next_id = 0; published = [] }

-- The row is created before the message is sent to the queue's own topic, whatever becomes of that.
unfoldable pub send_to_dlq : DeadLetterQueue → ℕ → ℕ → ℕ → DeadLetterQueue
send_to_dlq s topic payload now =
    let row : DeadLetterEvent = record {
      original_topic = topic;
      payload = payload;
      attempts = 0;
      status = pending;
      created_at = now;
    } in
    if s.enabled then record s { rows = put s.next_id row s.rows; next_id = suc s.next_id } else s

abbrev pub is_reprocessed : Status → Bool
is_reprocessed reprocessed = true
is_reprocessed _ = false

abbrev pub set_row : DeadLetterQueue → ℕ → DeadLetterEvent → DeadLetterQueue
set_row s id e = record s { rows = put id e s.rows }

-- What a retry is answered: whether the row is found and updated to RETRYING, the producer accepts the
-- message, the update to REPROCESSED succeeds, and so does the one in the catch.
pub record Replies : Type 0 where
  pub begun : Bool
  pub accepted : Bool
  pub recorded : Bool
  pub caught : Bool

-- What a retry goes on with: the row as it was found, or the error that is thrown.
pub data Found : Type 0 where
  found : DeadLetterEvent → Found
  not_found already_reprocessed not_begun : Found

abbrev pub begin_found :
    DeadLetterQueue → ℕ → Bool → Option DeadLetterEvent → DeadLetterQueue × Found
begin_found s id begun none = (s, not_found)
begin_found s id begun (some e) =
    if is_reprocessed e.status
    then (s, already_reprocessed)
    else (if begun
        then (set_row s id (record e { status = retrying; attempts = suc e.attempts }), found e)
        else (s, not_begun))

unfoldable pub begin_retry : DeadLetterQueue → ℕ → Bool → DeadLetterQueue × Found
begin_retry s id begun = begin_found s id begun (get id s.rows)

abbrev pub set_status : Status → Option DeadLetterEvent → ℕ → DeadLetterQueue → DeadLetterQueue
set_status t none id s = s
set_status t (some e) id s = set_row s id (record e { status = t })

-- The catch of `retryEvent`, where `e` is the row as it was found, and the update may fail.
unfoldable pub catch_retry : DeadLetterQueue → ℕ → DeadLetterEvent → Bool → DeadLetterQueue
catch_retry s id e caught =
    let row = get id s.rows in
    if caught
    then (if leb s.max_retries (suc e.attempts)
        then set_status permanently_failed row id s
        else set_status pending row id s)
    else s

-- What `retryEvent` does from the producer on. An update that fails goes to the catch, whether or not
-- the message has been accepted.
unfoldable pub end_retry : DeadLetterQueue → ℕ → DeadLetterEvent → Replies → DeadLetterQueue
end_retry s id e r =
    let row = get id s.rows in
    let sent = record s { published = id ∷ s.published } in
    if r.accepted
    then (if r.recorded then set_status reprocessed row id sent else catch_retry sent id e r.caught)
    else catch_retry s id e r.caught

abbrev pub retry_found : DeadLetterQueue × Found → ℕ → Replies → DeadLetterQueue × Bool
retry_found (s, found e) id r = (end_retry s id e r, r.accepted && r.recorded)
retry_found (s, _) id r = (s, false)

-- `retryEvent` with nothing between, and whether it does not throw.
unfoldable pub retry_event : DeadLetterQueue → ℕ → Replies → DeadLetterQueue × Bool
retry_event s id r = retry_found (begin_retry s id r.begun) id r

pub record RetryResult : Type 0 where
  pub succeeded : List ℕ
  pub failed : List ℕ

abbrev pub note_result : ℕ → Bool → RetryResult → RetryResult
note_result id true r = record r { succeeded = id ∷ r.succeeded }
note_result id false r = record r { failed = id ∷ r.failed }

-- `retryEvents`, each id with what it is answered.
unfoldable pub retry_events : DeadLetterQueue → List (ℕ × Replies) → DeadLetterQueue × RetryResult
retry_events s [] = (s, record { succeeded = []; failed = [] })
retry_events s ((id, replies) ∷ ids) =
    let (t, ok) = retry_event s id replies in
    let (u, r) = retry_events t ids in (u, note_result id ok r)

abbrev pub is_finished : Status → Bool
is_finished reprocessed = true
is_finished permanently_failed = true
is_finished _ = false

abbrev pub purge : ℕ → List (ℕ × DeadLetterEvent) → List (ℕ × DeadLetterEvent)
purge cutoff [] = []
purge cutoff (r ∷ rs) =
    let rest = purge cutoff rs in
    if is_finished r.1.status && ltb r.1.created_at cutoff then rest else r ∷ rest

unfoldable pub purge_old_events : DeadLetterQueue → ℕ → DeadLetterQueue
purge_old_events s cutoff = record s { rows = purge cutoff s.rows }

pub data Event : Type 0 where
  sends : ℕ → ℕ → ℕ → Event
  retries : List (ℕ × Replies) → Event
  purges : ℕ → Event

unfoldable pub step : DeadLetterQueue → Event → DeadLetterQueue
step s (sends topic payload now) = send_to_dlq s topic payload now
step s (retries ids) = (retry_events s ids).0
step s (purges cutoff) = purge_old_events s cutoff

unfoldable pub run : DeadLetterQueue → List Event → DeadLetterQueue
run s [] = s
run s (e ∷ es) = run (step s e) es
