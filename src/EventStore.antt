-- ===== src/EventStore.antt =====
-- src/lib/events/EventStore.ts, the class `EventStore`. Types, ids and payloads are only compared or
-- handed on and are numbers. The id of an event and the time are arguments of `append`, and so is
-- whether the external publisher, where there is one, accepts the event. A regular expression of a
-- subscription, and its filter, are functions. Callbacks and logging are left out.
use edge_cloud_orchestrator.Prelude.{
  ℕ, suc, zero, ◌+◌, ◌-◌, Bool, true, false, List, [], ◌∷◌, ◌++◌, Option, none, some, ltb, leb,
  ◌==◌, if◌then◌else◌, ◌&&◌, map, length, drop,
}
use edge_cloud_orchestrator.Prelude.Dict.{get, put, delete}
pub mod Log
pub mod Versions
mod Examples

pub record Event : Type 0 where
  pub id : ℕ
  pub type : ℕ
  pub aggregate_id : ℕ
  pub aggregate_type : ℕ
  pub version : ℕ
  pub timestamp : ℕ
  pub payload : ℕ

pub data EventType : Type 0 where
  text : ℕ → EventType
  pattern_of : (ℕ → Bool) → EventType

pub record EventSubscription : Type 0 where
  pub event_type : EventType
  pub filter : Event → Bool
  pub active : Bool

pub record EventStore : Type 0 where
  pub max_events_in_memory : ℕ
  pub events : List Event
  pub event_index : List (ℕ × ℕ)
  pub aggregate_versions : List (ℕ × ℕ)
  pub subscriptions : List (ℕ × EventSubscription)
  pub has_publisher : Bool

abbrev pub new_store : ℕ → EventStore
new_store k = record {
  max_events_in_memory = k;
  events = [];
  event_index = [];
  aggregate_versions = [];
  subscriptions = [];
  has_publisher = false;
}

-- The arguments of `append`, the event's id, the time, and what the publisher says.
pub record Append : Type 0 where
  pub id : ℕ
  pub now : ℕ
  pub type : ℕ
  pub aggregate_id : ℕ
  pub aggregate_type : ℕ
  pub payload : ℕ
  pub is_accepted : Bool

abbrev pub or_zero : Option ℕ → ℕ
or_zero none = 0
or_zero (some v) = v

unfoldable pub current_version : EventStore → ℕ → ℕ
current_version s a = or_zero (get a s.aggregate_versions)

abbrev pub event_of : Append → ℕ → Event
event_of r version = record {
  id = r.id;
  type = r.type;
  aggregate_id = r.aggregate_id;
  aggregate_type = r.aggregate_type;
  version = version;
  timestamp = r.now;
  payload = r.payload;
}

-- `rebuildIndex`, from a position on.
unfoldable pub index_from : ℕ → List Event → List (ℕ × ℕ) → List (ℕ × ℕ)
index_from i [] m = m
index_from i (e ∷ es) m = index_from (suc i) es (put e.id i m)

unfoldable pub rebuild_index : EventStore → EventStore
rebuild_index s = record s { event_index = index_from 0 s.events [] }

-- The older events are dropped where there are more than the memory may hold.
unfoldable pub trim : EventStore → EventStore
trim s =
    if ltb s.max_events_in_memory (length s.events)
    then rebuild_index
        (record s { events = drop (length s.events - s.max_events_in_memory) s.events })
    else s

unfoldable pub store_event : EventStore → Append → EventStore
store_event s r =
    let version = current_version s r.aggregate_id + 1 in
    trim (record s {
      events = s.events ++ event_of r version ∷ [];
      event_index = put r.id (length s.events) s.event_index;
      aggregate_versions = put r.aggregate_id version s.aggregate_versions;
    })

abbrev pub type_matches : EventType → ℕ → Bool
type_matches (text t) u = t == u
type_matches (pattern_of p) u = p u

-- The subscriptions whose callbacks `publish` calls.
unfoldable pub called : List (ℕ × EventSubscription) → Event → List ℕ
called [] e = []
called ((id, s) ∷ ss) e =
    let rest = called ss e in
    if s.active && (type_matches s.event_type e.type && s.filter e) then id ∷ rest else rest

-- What `append` gives: the event and the subscriptions called, or the publisher's error.
pub data Appended : Type 0 where
  appended : Event → List ℕ → Appended
  publisher_failed : Appended

unfoldable pub append : EventStore → Append → EventStore × Appended
append s r =
    let e = event_of r (current_version s r.aggregate_id + 1) in
    (
      store_event s r,
      if s.has_publisher
          then (if r.is_accepted then appended e (called s.subscriptions e) else publisher_failed)
          else appended e (called s.subscriptions e),
    )

unfoldable pub subscribe : EventStore → ℕ → EventSubscription → EventStore
subscribe s id sub = record s { subscriptions = put id sub s.subscriptions }

unfoldable pub unsubscribe : EventStore → ℕ → EventStore
unsubscribe s id = record s { subscriptions = delete id s.subscriptions }

-- `getEvents`.
unfoldable pub select_events : ℕ → ℕ → List Event → List Event
select_events a from_version [] = []
select_events a from_version (e ∷ es) =
    let rest = select_events a from_version es in
    if e.aggregate_id == a && ltb from_version e.version then e ∷ rest else rest

unfoldable pub get_events : EventStore → ℕ → ℕ → List Event
get_events s a from_version = select_events a from_version s.events

abbrev pub allows_type : Option ℕ → ℕ → Bool
allows_type none t = true
allows_type (some a) t = t == a

-- The events of `replay`.
unfoldable pub replayed : ℕ → ℕ → Option ℕ → List Event → List Event
replayed from_version to_version t [] = []
replayed from_version to_version t (e ∷ es) =
    let rest = replayed from_version to_version t es in
    if leb from_version e.version && (leb e.version to_version && allows_type t e.aggregate_type)
    then e ∷ rest
    else rest

-- What can happen to a store.
pub data Call : Type 0 where
  appends : Append → Call
  subscribes : ℕ → EventSubscription → Call
  unsubscribes : ℕ → Call
  sets_publisher : Call

unfoldable pub step : EventStore → Call → EventStore
step s (appends r) = (append s r).0
step s (subscribes id sub) = subscribe s id sub
step s (unsubscribes id) = unsubscribe s id
step s sets_publisher = record s { has_publisher = true }

unfoldable pub run : EventStore → List Call → EventStore
run s [] = s
run s (e ∷ es) = run (step s e) es
