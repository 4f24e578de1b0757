-- ===== src/EventVersioning/Defaults.antt =====
-- The schemas that the constructor registers (packages/shared-kernel/src/event-versioning.ts).
use edge_cloud_orchestrator.Prelude.{ℕ, true, false, List, [], ◌∷◌, none, some}
use edge_cloud_orchestrator.EventVersioning.{
  null_value, number, object, no_fields, field, value_of, set_field, TypeName, string_type,
  number_type, object_type, nested_type, FieldType, EventSchema, Registration, register_schema,
}

abbrev pub task_created : ℕ
task_created = 0

abbrev pub task_completed : ℕ
task_completed = 1

abbrev pub node_heartbeat : ℕ
node_heartbeat = 2

-- The fields of the default schemas.
abbrev pub task_id : ℕ
task_id = 0

abbrev pub node_id : ℕ
node_id = 1

abbrev pub status : ℕ
status = 2

abbrev pub metrics : ℕ
metrics = 3

abbrev pub tasks : ℕ
tasks = 4

abbrev pub cpu_usage : ℕ
cpu_usage = 5

abbrev pub memory_usage : ℕ
memory_usage = 6

abbrev pub name : ℕ
name = 7

abbrev pub type : ℕ
type = 8

abbrev pub priority : ℕ
priority = 9

abbrev pub requirements : ℕ
requirements = 10

abbrev pub deadline : ℕ
deadline = 11

abbrev pub output : ℕ
output = 12

abbrev pub duration : ℕ
duration = 13

abbrev pub cost : ℕ
cost = 14

abbrev pub cpu : ℕ
cpu = 15

abbrev pub memory : ℕ
memory = 16

abbrev pub running : ℕ
running = 17

abbrev pub required : TypeName → FieldType
required t = record { of = t; is_optional = false }

abbrev pub optional : TypeName → FieldType
optional t = record { of = t; is_optional = true }

abbrev pub task_created_1 : EventSchema
task_created_1 = record {
  version = 1;
  event_type = task_created;
  schema =
      (task_id, required string_type)
      ∷ (name, required string_type)
      ∷ (type, required string_type)
      ∷ (priority, required string_type)
      ∷ [];
  upconvert_from = none;
  upconverter = λ e. e;
}

abbrev pub task_created_2 : EventSchema
task_created_2 = record {
  version = 2;
  event_type = task_created;
  schema =
      (task_id, required string_type)
      ∷ (name, required string_type)
      ∷ (type, required string_type)
      ∷ (priority, required string_type)
      ∷ (requirements, optional object_type)
      ∷ (deadline, optional string_type)
      ∷ [];
  upconvert_from = some 1;
  upconverter = λ e. record e {
    payload = set_field deadline null_value (set_field requirements (object no_fields) e.payload);
  };
}

abbrev pub task_completed_1 : EventSchema
task_completed_1 = record {
  version = 1;
  event_type = task_completed;
  schema =
      (task_id, required string_type)
      ∷ (node_id, required string_type)
      ∷ (output, optional object_type)
      ∷ [];
  upconvert_from = none;
  upconverter = λ e. e;
}

abbrev pub task_completed_2 : EventSchema
task_completed_2 = record {
  version = 2;
  event_type = task_completed;
  schema =
      (task_id, required string_type)
      ∷ (node_id, required string_type)
      ∷ (output, optional object_type)
      ∷ (duration, optional number_type)
      ∷ (cost, optional number_type)
      ∷ (metrics, optional object_type)
      ∷ [];
  upconvert_from = some 1;
  upconverter = λ e. record e {
    payload =
        set_field metrics null_value
          (set_field cost null_value (set_field duration null_value e.payload));
  };
}

abbrev pub node_heartbeat_1 : EventSchema
node_heartbeat_1 = record {
  version = 1;
  event_type = node_heartbeat;
  schema =
      (node_id, required string_type)
      ∷ (status, required string_type)
      ∷ (cpu_usage, required number_type)
      ∷ (memory_usage, required number_type)
      ∷ [];
  upconvert_from = none;
  upconverter = λ e. e;
}

abbrev pub node_heartbeat_2 : EventSchema
node_heartbeat_2 = record {
  version = 2;
  event_type = node_heartbeat;
  schema =
      (node_id, required string_type)
      ∷ (status, required string_type)
      ∷ (metrics, required nested_type)
      ∷ (tasks, required nested_type)
      ∷ [];
  upconvert_from = some 1;
  upconverter = λ e. record e {
    payload = field node_id (value_of node_id e.payload) (
        field status (value_of status e.payload) (
          field metrics
            (object (
              field cpu (value_of cpu_usage e.payload)
                (field memory (value_of memory_usage e.payload) no_fields)))
            (field tasks (object (field running (number 0) no_fields)) no_fields)));
  };
}

-- `initializeRegistry`.
unfoldable pub default_registry : List (ℕ × Registration)
default_registry =
    register_schema
      (register_schema
        (register_schema
          (register_schema (register_schema (register_schema [] task_created_1) task_created_2)
            task_completed_1)
          task_completed_2)
        node_heartbeat_1)
      node_heartbeat_2
