-- ===== src/Outbox/Table.antt =====
-- The rows of packages/outbox/src/outbox-manager.ts, and the queries on them.
use edge_cloud_orchestrator.Prelude.{
  ℕ, Bool, true, false, List, [], ◌∷◌, Option, none, some, leb, ◌==◌, if◌then◌else◌, ◌&&◌,
}

pub data OutboxStatus : Type 0 where
  pending processing published failed : OutboxStatus

pub record OutboxConfig : Type 0 where
  pub batch_size : ℕ
  pub max_attempts : ℕ
  pub retry_base_delay : ℕ
  pub retry_max_delay : ℕ

abbrev pub default_outbox_config : OutboxConfig
default_outbox_config = record {
  batch_size = 100;
  max_attempts = 5;
  retry_base_delay = 1000;
  retry_max_delay = 60000;
}

pub record OutboxEvent : Type 0 where
  pub id : ℕ
  pub aggregate_id : ℕ
  pub event_type : ℕ
  pub payload : ℕ
  pub status : OutboxStatus
  pub attempts : ℕ
  pub max_attempts : ℕ
  pub next_retry_at : Option ℕ
  pub processed_at : Option ℕ
  pub created_at : ℕ

abbrev pub is_pending : OutboxStatus → Bool
is_pending pending = true
is_pending _ = false

abbrev pub is_failed : OutboxStatus → Bool
is_failed failed = true
is_failed _ = false

abbrev pub is_due : ℕ → Option ℕ → Bool
is_due now none = true
is_due now (some t) = leb t now

unfoldable pub insert_by_creation : OutboxEvent → List OutboxEvent → List OutboxEvent
insert_by_creation e [] = e ∷ []
insert_by_creation e (f ∷ fs) =
    if leb e.created_at f.created_at then e ∷ f ∷ fs else f ∷ insert_by_creation e fs

-- The rows that `fetchPendingEvents` selects, the oldest first.
unfoldable pub select_due : ℕ → List OutboxEvent → List OutboxEvent
select_due now [] = []
select_due now (e ∷ es) =
    let rest = select_due now es in
    if is_pending e.status && is_due now e.next_retry_at then insert_by_creation e rest else rest

-- An update of the row with an id.
unfoldable pub update_row : (OutboxEvent → OutboxEvent) → ℕ → List OutboxEvent → List OutboxEvent
update_row f id [] = []
update_row f id (e ∷ es) = (if e.id == id then f e else e) ∷ update_row f id es
