-- ===== src/CircuitBreaker.antt =====
-- packages/circuit-breaker/src/circuit-breaker.ts, the class `CircuitBreaker`. `execute` is in two
-- parts, what runs before the awaited call and what runs when it settles, since other calls and the
-- reset timer can run in between. `setTimeout` and `clearTimeout` act on the event loop's list of
-- timers, each a handle and the time at which it is due. Counters are unbounded numbers (a JavaScript number
-- counts exactly up to 2 ^ 53). Events are emitted to observers only and are left out.

pub mod Invariant
pub mod Trips
pub mod Recovery
pub mod Wedge
mod Examples
use Prim.Native.String.{String}
use edge_cloud_orchestrator.Prelude.{
  ℕ, suc, ◌+◌, Bool, true, false, List, [], ◌∷◌, Option, none, some, leb, ◌==◌, if◌then◌else◌,
}

pub record Config : Type 0 where
  pub failure_threshold : ℕ
  pub reset_timeout : ℕ
  pub half_open_max_calls : ℕ
  pub success_threshold : ℕ
  pub name : String

pub data State : Type 0 where
  closed open_ half_open : State

pub record Breaker : Type 0 where
  pub config : Config
  pub open config use *
  pub state : State
  pub failures : ℕ
  pub successes : ℕ
  pub consecutive_successes : ℕ
  pub total_calls : ℕ
  pub rejected_calls : ℕ
  pub last_failure_time : Option ℕ
  pub half_open_calls : ℕ
  pub reset_timer : Option ℕ
  -- The event loop: the timers that have neither fired nor been cleared, and the next free handle.
  pub scheduled : List (ℕ × ℕ)
  pub next_handle : ℕ

-- What the constructor takes where the caller's `config` has no such field.
abbrev pub default_config : Config
default_config = record {
  failure_threshold = 5;
  reset_timeout = 30000;
  half_open_max_calls = 3;
  success_threshold = 2;
  name = "default";
}

abbrev pub new : Config → Breaker
new c = record {
  config = c;
  state = closed;
  failures = 0;
  successes = 0;
  consecutive_successes = 0;
  total_calls = 0;
  rejected_calls = 0;
  last_failure_time = none;
  half_open_calls = 0;
  reset_timer = none;
  scheduled = [];
  next_handle = 0;
}

abbrev clear_timeout : ℕ → List (ℕ × ℕ) → List (ℕ × ℕ)
clear_timeout handle [] = []
clear_timeout handle ((h, due) ∷ ts) =
    let rest = clear_timeout handle ts in if h == handle then rest else (h, due) ∷ rest

abbrev clear_held : Option ℕ → List (ℕ × ℕ) → List (ℕ × ℕ)
clear_held none ts = ts
clear_held (some handle) ts = clear_timeout handle ts

open_from : State → Breaker → ℕ → Breaker
open_from open_ b now = b
open_from _ b now = record b {
  state = open_;
  reset_timer = some b.next_handle;
  scheduled = (b.next_handle, now + b.reset_timeout) ∷ b.scheduled;
  next_handle = suc b.next_handle;
}

pub open_circuit : Breaker → ℕ → Breaker
unfolding open_from
open_circuit b now = open_from b.state b now

half_open_from : State → Breaker → Breaker
half_open_from open_ b = record b {
  state = half_open;
  half_open_calls = 0;
  consecutive_successes = 0;
}
half_open_from _ b = b

pub half_open_circuit : Breaker → Breaker
unfolding half_open_from
half_open_circuit b = half_open_from b.state b

close_from : State → Breaker → Breaker
close_from closed b = b
close_from _ b = record b {
  state = closed;
  failures = 0;
  half_open_calls = 0;
  consecutive_successes = 0;
  scheduled = clear_held b.reset_timer b.scheduled;
  reset_timer = none;
}

pub close_circuit : Breaker → Breaker
unfolding close_from
close_circuit b = close_from b.state b

success_in : State → Breaker → Breaker
unfolding close_circuit
success_in half_open b =
    if leb b.success_threshold b.consecutive_successes then close_circuit b else b
success_in _ b = b

pub on_success : Breaker → Breaker
unfolding success_in
on_success b =
    success_in b.state (record b {
      successes = b.successes + 1;
      consecutive_successes = b.consecutive_successes + 1;
    })

failure_in : State → Breaker → ℕ → Breaker
unfolding open_circuit
failure_in half_open b now = open_circuit b now
failure_in _ b now = if leb b.failure_threshold b.failures then open_circuit b now else b

pub on_failure : Breaker → ℕ → Breaker
unfolding failure_in
on_failure b now =
    failure_in b.state
      (record b {
        failures = b.failures + 1;
        consecutive_successes = 0;
        last_failure_time = some now;
      })
      now

-- How `execute` goes on: it calls `fn`, or it rejects. Only the rejection of an open breaker looks
-- at the fallback.
pub data Admission : Type 0 where
  admitted : Admission
  rejected_open : Admission
  rejected_half_open : Admission

enter_in : State → Breaker → Breaker × Admission
enter_in open_ b = (record b { rejected_calls = b.rejected_calls + 1 }, rejected_open)
enter_in half_open b =
    if leb b.half_open_max_calls b.half_open_calls
    then (record b { rejected_calls = b.rejected_calls + 1 }, rejected_half_open)
    else (record b { half_open_calls = b.half_open_calls + 1 }, admitted)
enter_in closed b = (b, admitted)

-- `execute` up to the call of `fn`.
pub enter : Breaker → Breaker × Admission
unfolding enter_in
enter b = enter_in b.state (record b { total_calls = b.total_calls + 1 })

-- `execute` from the moment when the promise of `fn` settles.
pub data Outcome (A : Type 0) : Type 0 where
  fulfilled : A → Outcome A
  threw : ℕ → Outcome A
  circuit_breaker_open : String → Outcome A

abbrev fall_back : {A : Type 0} → Option A → Outcome A → Outcome A
fall_back none o = o
fall_back (some a) o = fulfilled a

pub settle : {A : Type 0} → Breaker → ℕ → Outcome A → Option A → Breaker × Outcome A
unfolding on_success on_failure
settle b now (fulfilled a) fallback = (on_success b, fulfilled a)
settle b now (threw e) fallback = (on_failure b now, fall_back fallback (threw e))
settle b now (circuit_breaker_open n) fallback =
    (on_failure b now, fall_back fallback (circuit_breaker_open n))

finish : {A : Type 0} → Admission → Breaker → ℕ → Outcome A → Option A → Breaker × Outcome A
unfolding settle
finish admitted b now o fallback = settle b now o fallback
finish rejected_open b now o fallback = (b, fall_back fallback (circuit_breaker_open b.name))
finish rejected_half_open b now o fallback = (b, circuit_breaker_open b.name)

-- `execute` where nothing else runs while `fn` is awaited; `now` is the time when it settles.
pub execute : {A : Type 0} → Breaker → ℕ → Outcome A → Option A → Breaker × Outcome A
unfolding enter finish
execute b now o fallback = let (b', a) = enter b in finish a b' now o fallback

pub force_open : Breaker → ℕ → Breaker
unfolding open_circuit
force_open b now = open_circuit b now

pub force_close : Breaker → Breaker
unfolding close_circuit
force_close b = close_circuit b

-- A timer fires: it leaves the list, and its callback runs.
abbrev is_scheduled : ℕ → List (ℕ × ℕ) → Bool
is_scheduled handle [] = false
is_scheduled handle ((h, due) ∷ ts) = if h == handle then true else is_scheduled handle ts

pub fire : Breaker → ℕ → Breaker
unfolding half_open_circuit
fire b handle =
    if is_scheduled handle b.scheduled
    then half_open_circuit (record b { scheduled = clear_timeout handle b.scheduled })
    else b

-- What can happen to a breaker, in any order and interleaving. A call that settles was admitted.
pub data Event : Type 0 where
  enters : Event
  succeeds : Event
  fails : ℕ → Event
  fires : ℕ → Event
  forces_open : ℕ → Event
  forces_close : Event

pub step : Breaker → Event → Breaker
unfolding enter on_success on_failure fire force_open force_close
step b enters = (enter b).0
step b succeeds = on_success b
step b (fails now) = on_failure b now
step b (fires handle) = fire b handle
step b (forces_open now) = force_open b now
step b forces_close = force_close b

pub run : Breaker → List Event → Breaker
run b [] = b
run b (e ∷ es) = run (step b e) es

pub State-discrete : Discrete State
State-discrete = hlevel
