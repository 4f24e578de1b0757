-- ===== src/EventVersioning/Upgrades.antt =====
-- What is converted, and what is valid, with the default schemas
-- (packages/shared-kernel/src/event-versioning.ts).
use edge_cloud_orchestrator.Prelude.{
  ℕ, suc, zero, ◌≤◌, ◌≡◌, refl, ap, true, List, [], ◌∷◌, ◌++◌, none, if◌then◌else◌, inl, inr,
  Bool-cases, arith,
}
use edge_cloud_orchestrator.Prelude.Dict.{get, put}
use edge_cloud_orchestrator.EventVersioning.{
  Json, undefined, null_value, text, number, truth, array, object, Fields, has_field, value_of,
  type_of, nested_type, FieldError, missing_field, type_errors, field_errors, VersionedEvent,
  EventSchema, register_schema, Validation, checked, validate_event, converted, no_upconverter,
  convert_loop, convert_to_version, next_version,
}
use edge_cloud_orchestrator.EventVersioning.Defaults.{
  default_registry, node_heartbeat, node_heartbeat_2, metrics, tasks, task_created_2,
  task_completed_2,
}

-- The default schemas of version 2.
abbrev pub second : ℕ → EventSchema
second zero = task_created_2
second (suc zero) = task_completed_2
second (suc (suc t)) = node_heartbeat_2

abbrev pub event_at : ℕ → ℕ → ℕ → ℕ → ℕ → Fields → VersionedEvent
event_at t v id now source p = record {
  event_id = id;
  event_type = t;
  version = v;
  timestamp = now;
  source = source;
  payload = p;
}

-- No event of a default type is converted from the first version to the second. From the second to the
-- first each is, but by what is meant to bring it from the first to the second, and its version stays.
pub convert_to_version_backwards :
    (fuel t id now source : ℕ) (p : Fields)
    → t ≤ 2
    → (convert_to_version (suc (suc fuel)) default_registry (event_at t 1 id now source p) 2
        ≡ no_upconverter 1)
      × (convert_to_version (suc (suc fuel)) default_registry (event_at t 2 id now source p) 1
          ≡ converted ((second t).upconverter (event_at t 2 id now source p)))
unfolding convert_to_version convert_loop next_version default_registry register_schema get put
convert_to_version_backwards fuel zero id now source p l = (refl, refl)
convert_to_version_backwards fuel (suc zero) id now source p l = (refl, refl)
convert_to_version_backwards fuel (suc (suc zero)) id now source p l = (refl, refl)
convert_to_version_backwards fuel (suc (suc (suc t))) id now source p l = absurd (omega (arith, l))

append-nil {ℓ} : {A : Type ℓ} (xs ys : List A) → xs ++ ys ≡ [] → (xs ≡ []) × (ys ≡ [])
append-nil [] ys e = (refl, e)
append-nil (x ∷ xs) ys e = absurd (cc)

nested_value : (k : ℕ) (v : Json) → type_errors k nested_type (type_of v) ≡ [] → type_of v ≡ none
nested_value k undefined e = refl
nested_value k null_value e = refl
nested_value k (text t) e = absurd (cc)
nested_value k (number n) e = absurd (cc)
nested_value k (truth b) e = absurd (cc)
nested_value k (array p) e = absurd (cc)
nested_value k (object p) e = absurd (cc)

-- What the loop of `validateEvent` notes of a required field whose type is an object.
abbrev nested_errors : ℕ → Fields → List FieldError
nested_errors k p =
    if has_field k p
    then type_errors k nested_type (type_of (value_of k p))
    else missing_field k ∷ []

nested_field :
    (k : ℕ) (p : Fields)
    → nested_errors k p ≡ []
    → (has_field k p ≡ true) × (type_of (value_of k p) ≡ none)
nested_field k p e = elim (Bool-cases (has_field k p)) [
  | inl h ↦ (h, nested_value k (value_of k p) (rw h at e))
  | inr h ↦ let wrong : missing_field k ∷ [] ≡ [] = rw h at e in absurd (cc)
]

checked_errors : Validation → List FieldError
checked_errors (checked es) = es
checked_errors _ = []

-- A heartbeat of version 2 is found valid only if its metrics and its tasks are there and are null or
-- undefined: one with metrics, as the schema describes them, is never valid.
pub validate_event_heartbeat :
    (id now source : ℕ) (p : Fields)
    → validate_event default_registry (event_at node_heartbeat 2 id now source p) ≡ checked []
    → (has_field metrics p ≡ true)
      × (type_of (value_of metrics p) ≡ none)
      × (has_field tasks p ≡ true)
      × (type_of (value_of tasks p) ≡ none)
unfolding validate_event field_errors default_registry register_schema get put checked_errors
validate_event_heartbeat id now source p e =
    let none_noted = ap checked_errors e in
    let (a, rest) = append-nil _ _ none_noted in
    let (b, rest') = append-nil _ _ rest in
    let (c, rest'') = append-nil _ _ rest' in
    let (d, ends) = append-nil _ _ rest'' in
    let (m, n) = nested_field metrics p c in let (t, u) = nested_field tasks p d in (m, n, t, u)
