-- ===== src/Deduplication/Single.antt =====
-- One call for each key at a time (src/lib/deduplication.ts).
use edge_cloud_orchestrator.Prelude.{
  ℕ, suc, zero, ◌+◌, ◌-◌, ◌<◌, ◌≤◌, ◌≡◌, refl, true, false, List, [], ◌∷◌, ◌++◌, Option, none, some,
  ltb, ◌==◌, if◌then◌else◌, length, get_elem?, take, drop, All, arith, inl, inr, Bool-cases,
  Option-cases, if_cases,
}
use edge_cloud_orchestrator.Prelude.Dict.{
  get, put, delete, get-put, get-delete, length-put, delete_most,
}
use edge_cloud_orchestrator.Deduplication.{
  InFlightRequest, CompletedRequest, Deduplicator, new, Answer, make_room, send, join_or_send,
  after_lookup, deduplicate, settle_call, settle, cleanup, invalidate, clear, Event, requests,
  settles, cleans, invalidates, clears, step, run,
}

-- How many calls run for a key.
abbrev pub calls_of : ℕ → List (ℕ × ℕ) → ℕ
calls_of key [] = 0
calls_of key (c ∷ cs) = (if c.1 == key then 1 else 0) + calls_of key cs

abbrev present : Option InFlightRequest → ℕ
present none = 0
present (some r) = 1

-- Each key in flight has one call that runs, no other key has any; there are few in flight.
pub record IsSingle (s : Deduplicator) (n : ℕ) : Type 0 where
  pub one : (key : ℕ) → calls_of key s.running ≡ present (get key s.in_flight)
  pub few : length s.in_flight ≤ n
  pub room : n < s.max_in_flight

calls_of-settled :
    (i : ℕ) (cs : List (ℕ × ℕ)) (c : ℕ × ℕ) (key : ℕ)
    → get_elem? cs i ≡ some c
    → calls_of key cs ≡ (if c.1 == key then 1 else 0) + calls_of key (take i cs ++ drop (suc i) cs)
calls_of-settled i [] c key g = cc
calls_of-settled zero (d ∷ cs) c key g = let same : d ≡ c = cc in rw same refl
calls_of-settled (suc i) (d ∷ cs) c key g = omega (arith, calls_of-settled i cs c key g)

make_room_free : (k : ℕ) (m : List (ℕ × InFlightRequest)) → length m < k → make_room k m ≡ m
unfolding make_room
make_room_free k m h = ground arith

one_left :
    (o : Option InFlightRequest) (before after : ℕ)
    → before ≡ present o
    → before ≡ 1 + after
    → after ≡ 0
one_left none before after p b = absurd (omega (arith, p, b))
one_left (some r) before after p b = omega (arith, p, b)

send-IsSingle :
    (s : Deduplicator) (key now n : ℕ)
    → get key s.in_flight ≡ none
    → IsSingle s n
    → suc n < s.max_in_flight
    → IsSingle (send s key now) (suc n)
send-IsSingle s key now n g h l =
    let r : InFlightRequest = record {
      promise = s.next_promise;
      timestamp = now;
      subscribers = 1;
    } in
    let few = h.few in
    let free = make_room_free s.max_in_flight s.in_flight (omega (arith, few, l)) in
    record {
      one = λ j.
          rw (free, get-put key j r s.in_flight)
            (elim (Bool-cases (key == j)) [
              | inl e ↦
                  let same : key ≡ j = ground arith in
                  let none_yet : get j s.in_flight ≡ none = rw (← same) g in
                  let was = h.one j in
                  let now_one = rw none_yet at was in rw e (omega (arith, now_one))
              | inr e ↦ rw e (omega (arith, h.one j))
            ]);
      few = rw free (omega (arith, few, length-put key r s.in_flight));
      room = l;
    }

join-IsSingle :
    (s : Deduplicator) (key n : ℕ) (r r' : InFlightRequest)
    → get key s.in_flight ≡ some r
    → IsSingle s n
    → suc n < s.max_in_flight
    → IsSingle (record s { in_flight = put key r' s.in_flight }) (suc n)
join-IsSingle s key n r r' g h l =
    let few = h.few in
    record {
      one = λ j. rw (get-put key j r' s.in_flight) (elim (Bool-cases (key == j)) [
        | inl e ↦
            let same : key ≡ j = ground arith in
            let there : get j s.in_flight ≡ some r = rw (← same) g in
            let was = h.one j in rw e (rw there at was)
        | inr e ↦ rw e (h.one j)
      ]);
      few = omega (arith, few, length-put key r' s.in_flight);
      room = l;
    }

join_or_send-IsSingle :
    (s : Deduplicator) (key now n : ℕ)
    → IsSingle s n
    → suc n < s.max_in_flight
    → IsSingle (join_or_send s key now (get key s.in_flight)).0 (suc n)
join_or_send-IsSingle s key now n h l = elim (Option-cases (get key s.in_flight)) [
  | inl g ↦ rw g (send-IsSingle s key now n g h l)
  | inr (r, g) ↦ rw g (join-IsSingle s key n r (record r { subscribers = suc r.subscribers }) g h l)
]

-- Only what is kept of the running calls matters.
other_completed-IsSingle :
    (s : Deduplicator) (m : List (ℕ × CompletedRequest)) (n : ℕ)
    → IsSingle s n
    → IsSingle (record s { completed = m }) n
other_completed-IsSingle s m n h = record { one = h.one; few = h.few; room = h.room }

after_lookup-IsSingle :
    (s : Deduplicator) (key now n : ℕ) (o : Option CompletedRequest)
    → IsSingle s n
    → suc n < s.max_in_flight
    → IsSingle (after_lookup s key now o).0 (suc n)
after_lookup-IsSingle s key now n none h l = join_or_send-IsSingle s key now n h l
after_lookup-IsSingle s key now n (some c) h l =
    let few = h.few in
    let t : Deduplicator = record s { completed = delete key s.completed } in
    if_cases {A = Deduplicator × Answer} (λ p. IsSingle p.0 (suc n)) (ltb (now - c.timestamp) s.ttl)
      (s, Answer.cached c.result) (join_or_send t key now (get key s.in_flight))
      (λ e. record { one = h.one; few = omega (arith, few); room = l })
      (λ e.
        join_or_send-IsSingle t key now n (other_completed-IsSingle s (delete key s.completed) n h)
          l)

ended-IsSingle :
    (s : Deduplicator) (i n : ℕ) (c : ℕ × ℕ)
    → get_elem? s.running i ≡ some c
    → IsSingle s n
    → suc n < s.max_in_flight
    → IsSingle
        (record s {
          running = take i s.running ++ drop (suc i) s.running;
          in_flight = delete c.1 s.in_flight;
        })
        (suc n)
ended-IsSingle s i n c g h l =
    let few = h.few in
    record {
      one = λ j. rw (get-delete c.1 j s.in_flight) (
          let before = calls_of-settled i s.running c j g in
          let was = h.one j in
          elim (Bool-cases (c.1 == j)) [
            | inl e ↦ rw e (let b = rw e at before in one_left (get j s.in_flight) _ _ was b)
            | inr e ↦ rw e (let b = rw e at before in omega (arith, was, b))
          ]);
      few = omega (arith, few, delete_most c.1 s.in_flight);
      room = l;
    }

fewer-IsSingle :
    (s : Deduplicator) (n : ℕ) → IsSingle s n → suc n < s.max_in_flight → IsSingle s (suc n)
fewer-IsSingle s n h l =
    let few = h.few in record { one = h.one; few = omega (arith, few); room = l }

finish-IsSingle :
    (s : Deduplicator) (i now n : ℕ) (o : Option ℕ) (c : ℕ × ℕ)
    → get_elem? s.running i ≡ some c
    → IsSingle s n
    → suc n < s.max_in_flight
    → IsSingle (settle_call s i now o (some c)) (suc n)
finish-IsSingle s i now n none c g h l = ended-IsSingle s i n c g h l
finish-IsSingle s i now n (some r) c g h l =
    let e = ended-IsSingle s i n c g h l in record { one = e.one; few = e.few; room = e.room }

settle-IsSingle :
    (s : Deduplicator) (i now n : ℕ) (o : Option ℕ)
    → IsSingle s n
    → suc n < s.max_in_flight
    → IsSingle (settle s i now o) (suc n)
unfolding settle
settle-IsSingle s i now n o h l = elim (Option-cases (get_elem? s.running i)) [
  | inl g ↦ rw (g, settle) (fewer-IsSingle s n h l)
  | inr (c, g) ↦ rw (g, settle) (finish-IsSingle s i now n o c g h l)
]

-- A request, or the end of a call: nothing is cleaned, invalidated or cleared.
abbrev pub IsPlain : Event → Type 0
IsPlain (requests key now) = Unit
IsPlain (settles i now o) = Unit
IsPlain _ = true ≡ false

step-IsSingle :
    (s : Deduplicator) (e : Event) (n : ℕ)
    → IsPlain e
    → IsSingle s n
    → suc n < s.max_in_flight
    → IsSingle (step s e) (suc n)
unfolding step deduplicate
step-IsSingle s (requests key now) n p h l =
    after_lookup-IsSingle s key now n (get key s.completed) h l
step-IsSingle s (settles i now o) n p h l = settle-IsSingle s i now n o h l
step-IsSingle s (cleans now) n p h l = absurd (cc)
step-IsSingle s (invalidates key) n p h l = absurd (cc)
step-IsSingle s clears n p h l = absurd (cc)

-- The limit stays.
join_or_send_limit :
    (s : Deduplicator) (key now : ℕ) (o : Option InFlightRequest)
    → (join_or_send s key now o).0.max_in_flight ≡ s.max_in_flight
join_or_send_limit s key now none = refl
join_or_send_limit s key now (some r) = refl

after_lookup_limit :
    (s : Deduplicator) (key now : ℕ) (o : Option CompletedRequest)
    → (after_lookup s key now o).0.max_in_flight ≡ s.max_in_flight
after_lookup_limit s key now none = join_or_send_limit s key now (get key s.in_flight)
after_lookup_limit s key now (some c) =
    let t : Deduplicator = record s { completed = delete key s.completed } in
    if_cases {A = Deduplicator × Answer} (λ p. p.0.max_in_flight ≡ s.max_in_flight)
      (ltb (now - c.timestamp) s.ttl) (s, Answer.cached c.result)
      (join_or_send t key now (get key s.in_flight)) (λ e. refl)
      (λ e. join_or_send_limit t key now (get key s.in_flight))

settle_call_limit :
    (s : Deduplicator) (i now : ℕ) (o : Option ℕ) (c : Option (ℕ × ℕ))
    → (settle_call s i now o c).max_in_flight ≡ s.max_in_flight
settle_call_limit s i now o none = refl
settle_call_limit s i now none (some c) = refl
settle_call_limit s i now (some r) (some c) = refl

step_limit : (s : Deduplicator) (e : Event) → IsPlain e → (step s e).max_in_flight ≡ s.max_in_flight
unfolding step deduplicate settle cleanup invalidate clear
step_limit s (requests key now) p = after_lookup_limit s key now (get key s.completed)
step_limit s (settles i now o) p = settle_call_limit s i now o (get_elem? s.running i)
step_limit s (cleans now) p = refl
step_limit s (invalidates key) p = refl
step_limit s clears p = refl

run-IsSingle :
    (s : Deduplicator) (es : List Event) (n : ℕ)
    → All IsPlain es
    → IsSingle s n
    → n + length es < s.max_in_flight
    → IsSingle (run s es) (n + length es)
unfolding run
run-IsSingle s [] n p h l = let same : n + 0 ≡ n = omega arith in rw same h
run-IsSingle s (e ∷ es) n (p, ps) h l =
    let t = step s e in
    let limit = step_limit s e p in
    let next = step-IsSingle s e n p h (omega (arith, l)) in
    let same : suc n + length es ≡ n + suc (length es) = omega arith in
    rw same at (run-IsSingle t es (suc n) ps next (omega (arith, l, limit)))

present_most : (o : Option InFlightRequest) → present o ≤ 1
present_most none = omega arith
present_most (some r) = omega arith

-- While there are fewer events than requests may be in flight, and nothing is cleaned, invalidated or
-- cleared, at most one call of the factory of a request runs at any time, however many ask for it.
pub run-new-calls_of :
    (ttl k key : ℕ) (es : List Event)
    → All IsPlain es
    → length es < k
    → calls_of key (run (new ttl k) es).running ≤ 1
unfolding get
run-new-calls_of ttl k key es p l =
    let start : IsSingle (new ttl k) 0 = record {
      one = λ j. refl;
      few = omega arith;
      room = omega (arith, l);
    } in
    let single = run-IsSingle (new ttl k) es 0 p start (omega (arith, l)) in
    let one = single.one key in
    omega (arith, one, present_most (get key (run (new ttl k) es).in_flight))
