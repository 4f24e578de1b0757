-- ===== src/DeadLetters/Lifetime.antt =====
-- The life of dead letters: they come in, are retried and purged
-- (packages/event-bus/src/dead-letter-queue.ts).
use edge_cloud_orchestrator.Prelude.{
  ℕ, suc, ◌≤◌, ◌≡◌, refl, Bool, false, List, [], ◌∷◌, Option, none, some, ltb, ◌==◌, ==_iff, ◌&&◌,
  arith, inl, inr, Bool-cases, if_cases, ◌+◌,
}
use edge_cloud_orchestrator.Prelude.Dict.{get, put, get-put, IsMap, put-IsMap}
use edge_cloud_orchestrator.DeadLetters.{
  pending, DeadLetterEvent, DeadLetterQueue, new, send_to_dlq, is_finished, purge, purge_old_events,
  Event, sends, retries, purges, step, run, retry_events,
}
use edge_cloud_orchestrator.DeadLetters.Once.{
  times_published, IsCounted, IsOnce, IsCounted-weaken, IsOnce-weaken,
}
use edge_cloud_orchestrator.DeadLetters.Retries.{lost_in, retry_events-IsOnce}

send_to_dlq-IsOnce :
    (lost : ℕ → ℕ) (s : DeadLetterQueue) (topic payload now : ℕ)
    → IsOnce lost s
    → IsOnce lost (send_to_dlq s topic payload now)
unfolding send_to_dlq
send_to_dlq-IsOnce lost s topic payload now h =
    let row : DeadLetterEvent = record {
      original_topic = topic;
      payload = payload;
      attempts = 0;
      status = pending;
      created_at = now;
    } in
    if_cases (IsOnce lost) s.enabled
      (record s { rows = put s.next_id row s.rows; next_id = suc s.next_id }) s
      (λ y. record {
        counted = λ j. rw (get-put s.next_id j row s.rows) (elim (Bool-cases (s.next_id == j)) [
          | inl z ↦
              let same : s.next_id ≡ j = (==_iff s.next_id j).0 z in
              let never = h.not_published j (omega (arith, same)) in rw z (ground (arith, never))
          | inr z ↦ rw z (h.counted j)
        ]);
        no_row = λ j l. rw (get-put s.next_id j row s.rows) (
            let other : (s.next_id == j) ≡ false = ground (arith, l) in
            rw other (h.no_row j (omega (arith, l))));
        not_published = λ j l. h.not_published j (omega (arith, l));
        is_map = put-IsMap s.next_id row s.rows h.is_map;
      })
      (λ y. h)

purge-none :
    (cutoff k : ℕ) (m : List (ℕ × DeadLetterEvent)) → get k m ≡ none → get k (purge cutoff m) ≡ none
unfolding get
purge-none cutoff k [] n = refl
purge-none cutoff k ((j, e) ∷ m) n = elim (Bool-cases (j == k)) [
  | inl y ↦ let gone : some e ≡ none = rw y at n in absurd (cc)
  | inr y ↦ let rest = purge-none cutoff k m (rw y at n) in ground (arith, y, rest)
]

purge-IsMap : (cutoff : ℕ) (m : List (ℕ × DeadLetterEvent)) → IsMap m → IsMap (purge cutoff m)
purge-IsMap cutoff [] u = _
purge-IsMap cutoff ((j, e) ∷ m) (n, u) =
    let rest = purge-IsMap cutoff m u in
    if_cases IsMap (is_finished e.status && ltb e.created_at cutoff) (purge cutoff m)
      ((j, e) ∷ purge cutoff m) (λ y. rest) (λ y. (purge-none cutoff j m n, rest))

counted_once : (n lost : ℕ) (o : Option DeadLetterEvent) → IsCounted n lost o → n ≤ 1 + lost
counted_once n lost none h = h
counted_once n lost (some e) h = ground (arith, h.1)

purge-IsCounted :
    (cutoff k n lost : ℕ) (m : List (ℕ × DeadLetterEvent))
    → IsMap m
    → IsCounted n lost (get k m)
    → IsCounted n lost (get k (purge cutoff m))
unfolding get
purge-IsCounted cutoff k n lost [] u h = h
purge-IsCounted cutoff k n lost ((j, e) ∷ m) (g, u) h = elim (Bool-cases (j == k)) [
  | inl y ↦
      let same : j ≡ k = (==_iff j k).0 y in
      let gone : get k (purge cutoff m) ≡ none = purge-none cutoff k m (rw same at g) in
      let here : IsCounted n lost (some e) = rw y at h in
      if_cases (λ r. IsCounted n lost (get k r)) (is_finished e.status && ltb e.created_at cutoff)
        (purge cutoff m) ((j, e) ∷ purge cutoff m)
        (λ z. rw gone (counted_once n lost (some e) here)) (λ z. rw y here)
  | inr y ↦
      let rest = purge-IsCounted cutoff k n lost m u (rw y at h) in
      if_cases (λ r. IsCounted n lost (get k r)) (is_finished e.status && ltb e.created_at cutoff)
        (purge cutoff m) ((j, e) ∷ purge cutoff m) (λ z. rest) (λ z. rw y rest)
]

-- How many retries of an id were accepted and not recorded, since the update to REPROCESSED failed.
abbrev pub losses : ℕ → List Event → ℕ
losses id [] = 0
losses id (retries rs ∷ es) = lost_in id rs + losses id es
losses id (_ ∷ es) = losses id es

step-IsOnce :
    (lost : ℕ → ℕ) (s : DeadLetterQueue) (e : Event)
    → IsOnce lost s
    → IsOnce (λ j. losses j (e ∷ []) + lost j) (step s e)
unfolding step purge_old_events
step-IsOnce lost s (sends topic payload now) h =
    IsOnce-weaken lost _ (send_to_dlq s topic payload now) (λ j. omega arith)
      (send_to_dlq-IsOnce lost s topic payload now h)
step-IsOnce lost s (retries rs) h =
    IsOnce-weaken (λ j. lost_in j rs + lost j) _ (retry_events s rs).0 (λ j. omega arith)
      (retry_events-IsOnce lost s rs h)
step-IsOnce lost s (purges cutoff) h =
    IsOnce-weaken lost _ (purge_old_events s cutoff) (λ j. omega arith)
      (record {
        counted = λ j.
            purge-IsCounted cutoff j (times_published j s.published) (lost j) s.rows h.is_map
              (h.counted j);
        no_row = λ j l. purge-none cutoff j s.rows (h.no_row j l);
        not_published = h.not_published;
        is_map = purge-IsMap cutoff s.rows h.is_map;
      })

losses_cons :
    (id : ℕ) (e : Event) (es : List Event) → losses id (e ∷ es) ≡ losses id (e ∷ []) + losses id es
losses_cons id (sends topic payload now) es = omega arith
losses_cons id (retries rs) es = omega arith
losses_cons id (purges cutoff) es = omega arith

run-IsOnce :
    (lost : ℕ → ℕ) (s : DeadLetterQueue) (es : List Event)
    → IsOnce lost s
    → IsOnce (λ j. losses j es + lost j) (run s es)
unfolding run
run-IsOnce lost s [] h = IsOnce-weaken lost _ s (λ j. omega arith) h
run-IsOnce lost s (e ∷ es) h =
    let one = step-IsOnce lost s e h in
    let all = run-IsOnce (λ j. losses j (e ∷ []) + lost j) (step s e) es one in
    IsOnce-weaken (λ j. losses j es + (losses j (e ∷ []) + lost j)) _ (run (step s e) es)
      (λ j. omega (arith, losses_cons j e es)) all

-- Where no retry begins before the one before it has ended, after any events a dead letter that is kept
-- has been published again at least once if it is marked as reprocessed, and at most once, or never if
-- it is not so marked, but for the retries whose message was accepted and whose update to
-- REPROCESSED failed: so many times more at most. One that has been purged has been published at most
-- once, but for these.
pub run-new-IsCounted :
    (enabled : Bool) (k id : ℕ) (es : List Event)
    → let s = run (new enabled k) es in
      IsCounted (times_published id s.published) (losses id es) (get id s.rows)
unfolding times_published get
run-new-IsCounted enabled k id es =
    let start : IsOnce (λ j. 0) (new enabled k) = record {
      counted = λ j. omega arith;
      no_row = λ j l. refl;
      not_published = λ j l. refl;
      is_map = _;
    } in
    let s = run (new enabled k) es in
    IsCounted-weaken _ (times_published id s.published) (losses id es + 0) (losses id es)
      (get id s.rows) refl (omega arith) ((run-IsOnce (λ j. 0) (new enabled k) es start).counted id)
