-- ===== src/EventVersioning/Examples.antt =====
-- Concrete runs of packages/shared-kernel/src/event-versioning.ts.
use edge_cloud_orchestrator.Prelude.{◌≡◌, refl, true, [], ◌∷◌, none, arith}
use edge_cloud_orchestrator.Prelude.Dict.{get, put}
use edge_cloud_orchestrator.EventVersioning.{
  null_value, text, number, Fields, no_fields, field, has_field, value_of, type_of, wrong_type,
  field_errors, checked, register_schema, validate_event, converted, no_upconverter,
  convert_to_version,
}
use edge_cloud_orchestrator.EventVersioning.Defaults.{
  default_registry, node_heartbeat, node_id, status, metrics, tasks, cpu_usage, memory_usage,
  node_heartbeat_2,
}
use edge_cloud_orchestrator.EventVersioning.Upgrades.{
  second, event_at, convert_to_version_backwards, validate_event_heartbeat,
}

abbrev first_heartbeat : Fields
first_heartbeat =
    field node_id (text 1) (
      field status (text 2)
        (field cpu_usage (number 30) (field memory_usage (number 40) no_fields)))

convert_to_version_backwards_example :
    (convert_to_version 2 default_registry (event_at node_heartbeat 1 5 6 7 first_heartbeat) 2
      ≡ no_upconverter 1)
    × (convert_to_version 2 default_registry (event_at node_heartbeat 2 5 6 7 first_heartbeat) 1
        ≡ converted
            ((second node_heartbeat).upconverter (event_at node_heartbeat 2 5 6 7 first_heartbeat)))
convert_to_version_backwards_example =
    convert_to_version_backwards 0 node_heartbeat 5 6 7 first_heartbeat (omega arith)

-- A heartbeat of the first version is valid; what the upconverter makes of it is not.
upgraded_test :
    (validate_event default_registry (event_at node_heartbeat 1 5 6 7 first_heartbeat) ≡ checked [])
    × (validate_event default_registry (
          event_at node_heartbeat 2 5 6 7 (
            (node_heartbeat_2.upconverter
              (event_at node_heartbeat 1 5 6 7 first_heartbeat)).payload))
        ≡ checked (wrong_type metrics ∷ wrong_type tasks ∷ []))
unfolding validate_event field_errors has_field value_of default_registry register_schema get put
upgraded_test = (refl, refl)

abbrev empty_heartbeat : Fields
empty_heartbeat =
    field node_id (text 1)
      (field status (text 2) (field metrics null_value (field tasks null_value no_fields)))

empty_test :
    validate_event default_registry (event_at node_heartbeat 2 5 6 7 empty_heartbeat) ≡ checked []
unfolding validate_event field_errors has_field value_of default_registry register_schema get put
empty_test = refl

validate_event_heartbeat_example :
    (has_field metrics empty_heartbeat ≡ true)
    × (type_of (value_of metrics empty_heartbeat) ≡ none)
    × (has_field tasks empty_heartbeat ≡ true)
    × (type_of (value_of tasks empty_heartbeat) ≡ none)
validate_event_heartbeat_example = validate_event_heartbeat 5 6 7 empty_heartbeat empty_test
