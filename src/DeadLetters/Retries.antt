-- ===== src/DeadLetters/Retries.antt =====
-- How often one retry, and a list of them, publish a dead letter again
-- (packages/event-bus/src/dead-letter-queue.ts).
use edge_cloud_orchestrator.Prelude.{
  ℕ, suc, ◌+◌, ◌≤◌, ◌≡◌, refl, ◌∙◌, true, false, List, [], ◌∷◌, none, some, ◌==◌, ==_iff,
  if◌then◌else◌, arith, inl, inr, Bool-cases, Option-cases, if_cases,
}
use edge_cloud_orchestrator.Prelude.Dict.{get, put, get-put}
use edge_cloud_orchestrator.DeadLetters.{
  retrying, reprocessed, DeadLetterEvent, DeadLetterQueue, is_reprocessed, set_row, Found, found,
  already_reprocessed, begin_found, begin_retry, end_retry, retry_found, retry_event, retry_events,
  Replies, catch_retry, not_begun, set_status,
}
use edge_cloud_orchestrator.DeadLetters.Once.{
  times_published, lost_one, IsCounted-weaken, IsOnce, IsOnce-weaken, only_lost, replace-IsOnce,
  set_row-IsOnce, catch_retry-IsOnce,
}

-- A message is accepted.
publish-IsOnce :
    (lost : ℕ → ℕ) (s : DeadLetterQueue) (id : ℕ) (e : DeadLetterEvent)
    → get id s.rows ≡ some e
    → is_reprocessed e.status ≡ false
    → IsOnce lost s
    → IsOnce lost (record s {
      rows = put id (record e { status = reprocessed }) s.rows;
      published = id ∷ s.published;
    })
unfolding times_published
publish-IsOnce lost s id e g u h =
    let few = only_lost lost s id e g u h in
    replace-IsOnce lost lost s id e (record e { status = reprocessed }) (id ∷ s.published) g
      (ground arith, ground (arith, few)) (λ j. omega arith, λ j y. ground (arith, y)) h

-- It is accepted, and the row stays as it is.
lose-IsOnce :
    (lost : ℕ → ℕ) (s : DeadLetterQueue) (id : ℕ) (e : DeadLetterEvent)
    → get id s.rows ≡ some e
    → is_reprocessed e.status ≡ false
    → IsOnce lost s
    → IsOnce (λ j. (if id == j then 1 else 0) + lost j) (record s { published = id ∷ s.published })
unfolding times_published
lose-IsOnce lost s id e g u h = record {
  counted = λ j. elim (Bool-cases (id == j)) [
    | inl y ↦
        let same : id ≡ j = (==_iff id j).0 y in
        let few = only_lost lost s id e g u h in
        let g' : get j s.rows ≡ some e = rw same at g in
        let few' : times_published j s.published ≤ lost j = rw same at few in
        rw (y, g') (ground (arith, few', u))
    | inr y ↦ rw y (
        IsCounted-weaken (times_published j s.published) _ (lost j) _ (get j s.rows) (omega arith)
          (omega arith) (h.counted j))
  ];
  no_row = h.no_row;
  not_published = λ j l. elim (Bool-cases (id == j)) [
    | inl y ↦
        let same : id ≡ j = (==_iff id j).0 y in
        let gone : get id s.rows ≡ none = rw same (h.no_row j l) in absurd (cc)
    | inr y ↦ rw y (omega (arith, h.not_published j l))
  ];
  is_map = h.is_map;
}

-- What is lost with one retry more.
abbrev pub and_lost : ℕ × Replies → (ℕ → ℕ) → ℕ → ℕ
and_lost r lost j = lost_one j r + lost j

end_retry_refused :
    (s : DeadLetterQueue) (id : ℕ) (e : DeadLetterEvent) (r : Replies)
    → r.accepted ≡ false
    → end_retry s id e r ≡ catch_retry s id e r.caught
unfolding end_retry
end_retry_refused s id e r a = rw (a, end_retry) refl

end_retry_lost :
    (s : DeadLetterQueue) (id : ℕ) (e : DeadLetterEvent) (r : Replies)
    → r.accepted ≡ true
    → r.recorded ≡ false
    → end_retry s id e r ≡ catch_retry (record s { published = id ∷ s.published }) id e r.caught
unfolding end_retry
end_retry_lost s id e r a b = rw (a, b, end_retry) refl

end_retry_recorded :
    (s : DeadLetterQueue) (id : ℕ) (e : DeadLetterEvent) (r : Replies)
    → r.accepted ≡ true
    → r.recorded ≡ true
    → end_retry s id e r
      ≡ set_status reprocessed (get id s.rows) id (record s { published = id ∷ s.published })
unfolding end_retry
end_retry_recorded s id e r a b = rw (a, b, end_retry) refl

end_retry-IsOnce :
    (lost : ℕ → ℕ) (s : DeadLetterQueue) (id : ℕ) (e f : DeadLetterEvent) (r : Replies)
    → get id s.rows ≡ some f
    → is_reprocessed f.status ≡ false
    → IsOnce lost s
    → IsOnce (and_lost (id, r) lost) (end_retry s id e r)
end_retry-IsOnce lost s id e f r g u h = elim (Bool-cases r.accepted) [
  | inr a ↦
      let caught = catch_retry-IsOnce lost s id e f r.caught g u h in
      rw (end_retry_refused s id e r a) (IsOnce-weaken lost _ _ (λ j. omega arith) caught)
  | inl a ↦ elim (Bool-cases r.recorded) [
    | inl b ↦
        let done = publish-IsOnce lost s id f g u h in
        rw (end_retry_recorded s id e r a b, g) (IsOnce-weaken lost _ _ (λ j. omega arith) done)
    | inr b ↦
        let sent : DeadLetterQueue = record s { published = id ∷ s.published } in
        let one = lose-IsOnce lost s id f g u h in
        let caught = catch_retry-IsOnce _ sent id e f r.caught g u one in
        rw (end_retry_lost s id e r a b) (
          IsOnce-weaken (λ j. (if id == j then 1 else 0) + lost j) _ _ (λ j. ground (arith, a, b))
            caught)
  ]
]

begun_retry :
    (lost : ℕ → ℕ) (s : DeadLetterQueue) (id : ℕ) (e : DeadLetterEvent) (r : Replies)
    → get id s.rows ≡ some e
    → is_reprocessed e.status ≡ false
    → IsOnce lost s
    → IsOnce (and_lost (id, r) lost) (
        end_retry (set_row s id (record e { status = retrying; attempts = suc e.attempts })) id e r)
begun_retry lost s id e r g u h =
    let f : DeadLetterEvent = record e { status = retrying; attempts = suc e.attempts } in
    let t = set_row s id f in
    let self : get id t.rows ≡ some f = get-put id id f s.rows ∙ ground arith in
    end_retry-IsOnce lost t id e f r self refl (set_row-IsOnce lost s id e f g u refl h)

retry_found-IsOnce :
    (lost : ℕ → ℕ) (s : DeadLetterQueue) (id : ℕ) (e : DeadLetterEvent) (r : Replies)
    → get id s.rows ≡ some e
    → IsOnce lost s
    → IsOnce (and_lost (id, r) lost) (retry_found (begin_found s id r.begun (some e)) id r).0
retry_found-IsOnce lost s id e r g h =
    let begun = set_row s id (record e { status = retrying; attempts = suc e.attempts }) in
    let same = IsOnce-weaken lost (and_lost (id, r) lost) s (λ j. omega arith) h in
    let P =
      λ (p : DeadLetterQueue × Found). IsOnce (and_lost (id, r) lost) (retry_found p id r).0 in
    if_cases {A = DeadLetterQueue × Found} P (is_reprocessed e.status) (s, already_reprocessed)
      (if r.begun then (begun, found e) else (s, not_begun)) (λ y. same)
      (λ y.
        if_cases {A = DeadLetterQueue × Found} P r.begun (begun, found e) (s, not_begun)
          (λ z. begun_retry lost s id e r g y h) (λ z. same))

retry_event-IsOnce :
    (lost : ℕ → ℕ) (s : DeadLetterQueue) (id : ℕ) (r : Replies)
    → IsOnce lost s
    → IsOnce (and_lost (id, r) lost) (retry_event s id r).0
unfolding retry_event begin_retry
retry_event-IsOnce lost s id r h = elim (Option-cases (get id s.rows)) [
  | inl g ↦
      let same = IsOnce-weaken lost (and_lost (id, r) lost) s (λ j. omega arith) h in
      rw (g, retry_event, begin_retry) same
  | inr (e, g) ↦
      let done = retry_found-IsOnce lost s id e r g h in rw (g, retry_event, begin_retry) done
]

-- How many retries of an id are lost.
abbrev pub lost_in : ℕ → List (ℕ × Replies) → ℕ
lost_in id [] = 0
lost_in id (r ∷ rs) = lost_one id r + lost_in id rs

pub retry_events-IsOnce :
    (lost : ℕ → ℕ) (s : DeadLetterQueue) (rs : List (ℕ × Replies))
    → IsOnce lost s
    → IsOnce (λ j. lost_in j rs + lost j) (retry_events s rs).0
unfolding retry_events
retry_events-IsOnce lost s [] h = IsOnce-weaken lost (λ j. 0 + lost j) s (λ j. omega arith) h
retry_events-IsOnce lost s ((id, r) ∷ rs) h =
    let one = retry_event-IsOnce lost s id r h in
    let t = (retry_event s id r).0 in
    let all = retry_events-IsOnce (and_lost (id, r) lost) t rs one in
    IsOnce-weaken (λ j. lost_in j rs + and_lost (id, r) lost j) _ (retry_events t rs).0
      (λ j. omega arith) all
