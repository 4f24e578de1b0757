-- ===== src/Outbox/Soundness.antt =====
-- What holds of the rows of an outbox (packages/outbox/src/outbox-manager.ts) after any events.
use edge_cloud_orchestrator.Prelude.{
  ℕ, ◌<◌, ◌≡◌, Bool, true, false, List, [], ◌∷◌, ltb, leb, ◌==◌, if◌then◌else◌, ◌&&◌, ◌||◌, not,
  any, take, All, arith, Bool-cases, inl, inr, zero, suc, ==_iff,
}
use edge_cloud_orchestrator.Outbox.Table.{
  published, OutboxStatus, OutboxEvent, is_failed, is_pending, is_due, select_due,
  insert_by_creation, update_row,
}
use edge_cloud_orchestrator.Outbox.Manager.{Message}

abbrev pub is_published : OutboxStatus → Bool
is_published published = true
is_published _ = false

-- The producer has accepted a message of the event.
abbrev pub has_sent : ℕ → List Message → Bool
has_sent id = any (λ m. m.event_id == id)

-- The number of attempts that a row shows: all of them if it failed, and fewer if it is pending.
abbrev pub fits_attempts : ℕ → OutboxEvent → Bool
fits_attempts k e =
    if is_failed e.status
    then e.attempts == k
    else if is_pending e.status
    then ltb e.attempts k
    else leb e.attempts k

abbrev pub is_honest : List Message → OutboxEvent → Bool
is_honest sent e = not (is_published e.status) || has_sent e.id sent

abbrev pub IsSound : ℕ → List Message → OutboxEvent → Type 0
IsSound k sent e = (e.max_attempts ≡ k) × (fits_attempts k e ≡ true) × (is_honest sent e ≡ true)

-- An event as a poll fetches it.
abbrev pub IsFetched : ℕ → OutboxEvent → Type 0
IsFetched k e = (e.max_attempts ≡ k) × (e.attempts < k)

pub send-IsSound :
    (k : ℕ) (m : Message) (sent : List Message) (e : OutboxEvent)
    → IsSound k sent e
    → IsSound k (m ∷ sent) e
send-IsSound k m sent e (x, a, h) = (x, a, ground arith)

pub update_row-All :
    (P : OutboxEvent → Type 0) (f : OutboxEvent → OutboxEvent) (id : ℕ) (es : List OutboxEvent)
    → ((e : OutboxEvent) → e.id ≡ id → P e → P (f e))
    → All P es
    → All P (update_row f id es)
unfolding update_row
update_row-All P f id [] h ps = _
update_row-All P f id (e ∷ es) h (p, ps) = elim (Bool-cases (e.id == id)) [
  | inl x ↦ rw x (h e ((==_iff e.id id).0 x) p, update_row-All P f id es h ps)
  | inr x ↦ rw x (p, update_row-All P f id es h ps)
]

pub insert_by_creation-All :
    (P : OutboxEvent → Type 0) (e : OutboxEvent) (es : List OutboxEvent)
    → P e
    → All P es
    → All P (insert_by_creation e es)
unfolding insert_by_creation
insert_by_creation-All P e [] p ps = (p, _)
insert_by_creation-All P e (f ∷ fs) p ps = elim (Bool-cases (leb e.created_at f.created_at)) [
  | inl x ↦ rw x (p, ps)
  | inr x ↦ rw x (ps.0, insert_by_creation-All P e fs p ps.1)
]

pub take-All :
    (P : OutboxEvent → Type 0) (n : ℕ) (es : List OutboxEvent) → All P es → All P (take n es)
take-All P zero es ps = _
take-All P (suc n) [] ps = _
take-All P (suc n) (e ∷ es) (p, ps) = (p, take-All P n es ps)

pending-IsFetched :
    (k : ℕ) (sent : List Message) (e : OutboxEvent)
    → is_pending e.status ≡ true
    → IsSound k sent e
    → IsFetched k e
pending-IsFetched k sent e p (x, a, h) = (x, ground arith)

pub select_due-IsFetched :
    (k : ℕ) (sent : List Message) (now : ℕ) (es : List OutboxEvent)
    → All (IsSound k sent) es
    → All (IsFetched k) (select_due now es)
unfolding select_due
select_due-IsFetched k sent now [] h = _
select_due-IsFetched k sent now (e ∷ es) (h, hs) =
    let rest = select_due-IsFetched k sent now es hs in
    elim (Bool-cases (is_pending e.status && is_due now e.next_retry_at)) [
      | inl x ↦
          let p : is_pending e.status ≡ true = ground arith in
          rw x (
            insert_by_creation-All (IsFetched k) e (select_due now es)
              (pending-IsFetched k sent e p h) rest)
      | inr x ↦ rw x rest
    ]
