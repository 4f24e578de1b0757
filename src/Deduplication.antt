-- ===== src/Deduplication.antt =====
-- src/lib/deduplication.ts, the class `RequestDeduplicator`. The key that is made of a request is a
-- number, and so is a result; a promise is the number of its call of `executeRequest`. `running` are
-- the calls of `executeRequest` that wait for their factory, which belong to the event loop: which of
-- them goes on, and with what, is an argument. Patterns and statistics are left out.
use edge_cloud_orchestrator.Prelude.{
  ℕ, suc, zero, ◌+◌, ◌-◌, ◌*◌, Bool, true, false, List, [], ◌∷◌, ◌++◌, Option, none, some, ltb, leb,
  ◌==◌, if◌then◌else◌, length, get_elem?, take, drop,
}
use edge_cloud_orchestrator.Prelude.Dict.{get, put, delete}
pub mod Single
mod Examples

pub record InFlightRequest : Type 0 where
  pub promise : ℕ
  pub timestamp : ℕ
  pub subscribers : ℕ

pub record CompletedRequest : Type 0 where
  pub result : ℕ
  pub timestamp : ℕ

pub record Deduplicator : Type 0 where
  pub in_flight : List (ℕ × InFlightRequest)
  pub completed : List (ℕ × CompletedRequest)
  pub ttl : ℕ
  pub max_in_flight : ℕ
  pub running : List (ℕ × ℕ)
  pub next_promise : ℕ

abbrev pub new : ℕ → ℕ → Deduplicator
new ttl k = record {
  in_flight = [];
  completed = [];
  ttl = ttl;
  max_in_flight = k;
  running = [];
  next_promise = 0;
}

-- What `deduplicate` gives: a result that is kept, or a promise.
pub data Answer : Type 0 where
  cached : ℕ → Answer
  promised : ℕ → Answer

-- The entry with the smallest time, the first of several.
abbrev pub older : ℕ × InFlightRequest → Option (ℕ × InFlightRequest) → ℕ × InFlightRequest
older e none = e
older e (some f) = if ltb f.1.timestamp e.1.timestamp then f else e

unfoldable pub oldest : List (ℕ × InFlightRequest) → Option (ℕ × InFlightRequest)
oldest [] = none
oldest (e ∷ es) = some (older e (oldest es))

abbrev pub without_oldest :
    List (ℕ × InFlightRequest) → Option (ℕ × InFlightRequest) → List (ℕ × InFlightRequest)
without_oldest m none = m
without_oldest m (some e) = delete e.0 m

unfoldable pub make_room : ℕ → List (ℕ × InFlightRequest) → List (ℕ × InFlightRequest)
make_room k m = if leb k (length m) then without_oldest m (oldest m) else m

-- A new request: `executeRequest` is called and runs until its factory is waited for.
abbrev pub send : Deduplicator → ℕ → ℕ → Deduplicator
send s key now = record s {
  in_flight =
      put key (record { promise = s.next_promise; timestamp = now; subscribers = 1 })
        (make_room s.max_in_flight s.in_flight);
  running = (s.next_promise, key) ∷ s.running;
  next_promise = suc s.next_promise;
}

abbrev pub join_or_send : Deduplicator → ℕ → ℕ → Option InFlightRequest → Deduplicator × Answer
join_or_send s key now none = (send s key now, promised s.next_promise)
join_or_send s key now (some r) = (
  record s { in_flight = put key (record r { subscribers = suc r.subscribers }) s.in_flight },
  promised r.promise,
)

-- A result that is too old is deleted.
abbrev pub after_lookup : Deduplicator → ℕ → ℕ → Option CompletedRequest → Deduplicator × Answer
after_lookup s key now none = join_or_send s key now (get key s.in_flight)
after_lookup s key now (some c) =
    if ltb (now - c.timestamp) s.ttl
    then (s, cached c.result)
    else join_or_send (record s { completed = delete key s.completed }) key now
        (get key s.in_flight)

unfoldable pub deduplicate : Deduplicator → ℕ → ℕ → Deduplicator × Answer
deduplicate s key now = after_lookup s key now (get key s.completed)

-- How `executeRequest` goes on: the factory has given a result, or thrown.
abbrev pub finish : Deduplicator → ℕ → ℕ → Option ℕ → Deduplicator
finish s key now none = record s { in_flight = delete key s.in_flight }
finish s key now (some r) = record s {
  completed = put key (record { result = r; timestamp = now }) s.completed;
  in_flight = delete key s.in_flight;
}

abbrev pub settle_call : Deduplicator → ℕ → ℕ → Option ℕ → Option (ℕ × ℕ) → Deduplicator
settle_call s i now o none = s
settle_call s i now o (some c) =
    finish (record s { running = take i s.running ++ drop (suc i) s.running }) c.1 now o

unfoldable pub settle : Deduplicator → ℕ → ℕ → Option ℕ → Deduplicator
settle s i now o = settle_call s i now o (get_elem? s.running i)

abbrev pub keep_fresh : ℕ → ℕ → List (ℕ × CompletedRequest) → List (ℕ × CompletedRequest)
keep_fresh now ttl [] = []
keep_fresh now ttl (e ∷ m) =
    let rest = keep_fresh now ttl m in if ltb ttl (now - e.1.timestamp) then rest else e ∷ rest

abbrev pub keep_young : ℕ → ℕ → List (ℕ × InFlightRequest) → List (ℕ × InFlightRequest)
keep_young now ttl [] = []
keep_young now ttl (e ∷ m) =
    let rest = keep_young now ttl m in
    if ltb (ttl * 2) (now - e.1.timestamp) then rest else e ∷ rest

unfoldable pub cleanup : Deduplicator → ℕ → Deduplicator
cleanup s now = record s {
  completed = keep_fresh now s.ttl s.completed;
  in_flight = keep_young now s.ttl s.in_flight;
}

unfoldable pub invalidate : Deduplicator → ℕ → Deduplicator
invalidate s key = record s {
  completed = delete key s.completed;
  in_flight = delete key s.in_flight;
}

unfoldable pub clear : Deduplicator → Deduplicator
clear s = record s { in_flight = []; completed = [] }

-- What can happen to a deduplicator.
pub data Event : Type 0 where
  requests : ℕ → ℕ → Event
  settles : ℕ → ℕ → Option ℕ → Event
  cleans : ℕ → Event
  invalidates : ℕ → Event
  clears : Event

unfoldable pub step : Deduplicator → Event → Deduplicator
step s (requests key now) = (deduplicate s key now).0
step s (settles i now o) = settle s i now o
step s (cleans now) = cleanup s now
step s (invalidates key) = invalidate s key
step s clears = clear s

unfoldable pub run : Deduplicator → List Event → Deduplicator
run s [] = s
run s (e ∷ es) = run (step s e) es
