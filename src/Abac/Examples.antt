-- ===== src/Abac/Examples.antt =====
-- Decisions on one request (packages/security/src/abac.ts).
use edge_cloud_orchestrator.Prelude.{true, false, [], ◌∷◌, none, ◌≡◌, refl, ◌&&◌, not, any}
use edge_cloud_orchestrator.Abac.Value.{
  Js, undefined, str, arr, cons, nil, bool, field, end, get_nested_attribute, get_field,
  strict_equals, includes_value, set_field,
}
use edge_cloud_orchestrator.Abac.Policy.{
  AccessRequest, user, policy_matches, conditions_match, condition_matches, test_condition,
}
use edge_cloud_orchestrator.Abac.Engine.{
  Engine, evaluate, evaluate_loop, note_match, sort_by_priority, insert_by_priority,
  resolve_attributes, effective_roles, has_role, resolve_time,
}
use edge_cloud_orchestrator.Abac.Builder.{default_policies}
use edge_cloud_orchestrator.Abac.Decision.{evaluate-allowed, allows, denies}
use edge_cloud_orchestrator.Abac.Defaults.{defaults-allowed}
use edge_cloud_orchestrator.Abac.Roles.{effective_roles-gives, gives}

abbrev plain_js : Js
plain_js = record {
  to_number = λ v. none;
  regex_test = λ v w. false;
  property_of = λ v p. undefined;
}

abbrev engine : Engine
engine = record {
  policies = default_policies;
  attribute_resolvers = ("timeOfDay", resolve_time) ∷ [];
}

-- A user creates a task at night.
abbrev request : AccessRequest
request = record {
  subject = record {
    id = "u1";
    type = user;
    attributes = field "roles" (arr (cons (str "user") nil)) end;
    roles = "user" ∷ [];
  };
  resource = record { id = "t1"; type = "task"; attributes = field "type" (str "task") end };
  action = record { name = "create"; attributes = field "name" (str "create") end };
  environment = record { hours = 23; day = 3; fields = field "isBusinessHours" (bool false) end };
}

evaluate-allowed_example :
    let r = resolve_attributes engine.attribute_resolvers request in
    (evaluate plain_js engine request).0.allowed
    ≡ (any (allows plain_js r) engine.policies && not (any (denies plain_js r) engine.policies))
evaluate-allowed_example = evaluate-allowed plain_js engine request

defaults-allowed_example :
    let r = resolve_attributes engine.attribute_resolvers request in
    (any (denies plain_js r) engine.policies ≡ false)
    × ((evaluate plain_js engine request).0.allowed ≡ any (allows plain_js r) engine.policies)
defaults-allowed_example = defaults-allowed plain_js engine request refl

allowed_at_night : (evaluate plain_js engine request).0.allowed ≡ true
unfolding evaluate evaluate_loop note_match sort_by_priority insert_by_priority resolve_attributes
    default_policies policy_matches conditions_match condition_matches test_condition
    get_nested_attribute get_field strict_equals includes_value resolve_time set_field
allowed_at_night = refl

effective_roles-gives_example :
    has_role "viewer" (effective_roles ("operator" ∷ []) [])
    ≡ any (gives "viewer") ("operator" ∷ [])
effective_roles-gives_example = effective_roles-gives "viewer" ("operator" ∷ [])
