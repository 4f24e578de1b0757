-- ===== src/Abac/Builder.antt =====
-- packages/security/src/abac.ts: `PolicyBuilder`, and the policies that are built with it.
use Prim.Native.String.{String}
use text.Mathlib.Text.{◌==◌ as str_eq}
use edge_cloud_orchestrator.Prelude.{
  ℕ, false, List, [], ◌∷◌, ◌++◌, Option, none, some, ◌||◌, if◌then◌else◌,
}
use edge_cloud_orchestrator.Abac.Value.{Value, bool, str, arr, nil, cons, Fields}
use edge_cloud_orchestrator.Abac.Policy.{
  Policy, PolicyCondition, ConditionType, equals, not_equals, in_, contains, not_contains,
  Obligation, Effect, allow, deny,
}

-- `Partial<Policy>`: the constructor sets the conditions, the obligations and the priority.
pub record PolicyBuilder : Type 0 where
  pub id : Option String
  pub name : Option String
  pub description : Option String
  pub effect : Option Effect
  pub subjects : List PolicyCondition
  pub resources : List PolicyCondition
  pub actions : List PolicyCondition
  pub environments : List PolicyCondition
  pub obligations : List Obligation
  pub priority : ℕ

abbrev pub new_builder : PolicyBuilder
new_builder = record {
  id = none;
  name = none;
  description = none;
  effect = none;
  subjects = [];
  resources = [];
  actions = [];
  environments = [];
  obligations = [];
  priority = 100;
}

unfoldable pub with_id : String → PolicyBuilder → PolicyBuilder
with_id id b = record b { id = some id }

unfoldable pub with_name : String → PolicyBuilder → PolicyBuilder
with_name name b = record b { name = some name }

unfoldable pub with_description : String → PolicyBuilder → PolicyBuilder
with_description description b = record b { description = some description }

unfoldable pub with_effect : Effect → PolicyBuilder → PolicyBuilder
with_effect effect b = record b { effect = some effect }

abbrev pub condition : List String → ConditionType → Value → PolicyCondition
condition attribute type value = record { type = type; attribute = attribute; value = value }

unfoldable pub with_subject : List String → ConditionType → Value → PolicyBuilder → PolicyBuilder
with_subject a t v b = record b { subjects = b.subjects ++ condition a t v ∷ [] }

unfoldable pub with_resource : List String → ConditionType → Value → PolicyBuilder → PolicyBuilder
with_resource a t v b = record b { resources = b.resources ++ condition a t v ∷ [] }

unfoldable pub with_action : List String → ConditionType → Value → PolicyBuilder → PolicyBuilder
with_action a t v b = record b { actions = b.actions ++ condition a t v ∷ [] }

unfoldable pub with_environment :
    List String → ConditionType → Value → PolicyBuilder → PolicyBuilder
with_environment a t v b = record b { environments = b.environments ++ condition a t v ∷ [] }

unfoldable pub with_obligation : String → Fields → PolicyBuilder → PolicyBuilder
with_obligation type params b = record b {
  obligations = b.obligations ++ record { type = type; params = params } ∷ [];
}

unfoldable pub with_priority : ℕ → PolicyBuilder → PolicyBuilder
with_priority n b = record b { priority = n }

-- `or_empty` stands for a description that was never set, which no policy of the package has.
abbrev or_empty : Option String → String
or_empty none = ""
or_empty (some s) = s

build_from : Option String → Option String → Option Effect → PolicyBuilder → Option Policy
build_from (some id) (some name) (some effect) b =
    if str_eq id "" || str_eq name ""
    then none
    else some (record {
      id = id;
      name = name;
      description = or_empty b.description;
      effect = effect;
      subjects = b.subjects;
      resources = b.resources;
      actions = b.actions;
      environments = b.environments;
      obligations = b.obligations;
      priority = b.priority;
    })
build_from _ _ _ b = none

-- `build`; it throws where the id, the name or the effect is missing or empty.
unfoldable pub build : PolicyBuilder → Option Policy
unfolding build_from
build b = build_from b.id b.name b.effect b

-- `DEFAULT_POLICIES`, in order.
unfoldable pub admin_full_access : PolicyBuilder
unfolding with_id with_name with_description with_effect with_subject with_priority
admin_full_access = with_priority 1000 (
    with_subject ("roles" ∷ []) contains (str "admin") (
      with_effect allow (
        with_description "Administrators have full access to all resources"
          (with_name "Admin Full Access" (with_id "admin-full-access" new_builder)))))

unfoldable pub operator_manage : PolicyBuilder
unfolding with_id with_name with_description with_effect with_subject with_resource with_action
    with_priority
operator_manage = with_priority 500 (
    with_action ("name" ∷ []) in_
      (arr (
        cons (str "create") (
          cons (str "read")
            (cons (str "update") (cons (str "delete") (cons (str "schedule") nil))))))
      (with_resource ("type" ∷ []) in_ (arr (cons (str "task") (cons (str "node") nil))) (
        with_subject ("roles" ∷ []) contains (str "operator") (
          with_effect allow (
            with_description "Operators can manage tasks and nodes"
              (with_name "Operator Management Access" (with_id "operator-manage" new_builder)))))))

unfoldable pub user_task_access : PolicyBuilder
unfolding with_id with_name with_description with_effect with_subject with_resource with_action
    with_priority
user_task_access = with_priority 200 (
    with_action ("name" ∷ []) in_ (arr (cons (str "create") (cons (str "read") nil))) (
      with_resource ("type" ∷ []) equals (str "task") (
        with_subject ("roles" ∷ []) contains (str "user") (
          with_effect allow (
            with_description "Users can create and read tasks"
              (with_name "User Task Access" (with_id "user-task-access" new_builder)))))))

unfoldable pub user_own_tasks : PolicyBuilder
unfolding with_id with_name with_description with_effect with_subject with_resource with_action
    with_priority
user_own_tasks = with_priority 300 (
    with_action ("name" ∷ []) in_ (arr (cons (str "update") (cons (str "delete") nil))) (
      with_resource ("ownerId" ∷ []) equals (str "${subject.id}") (
        with_resource ("type" ∷ []) equals (str "task") (
          with_subject ("roles" ∷ []) contains (str "user") (
            with_effect allow (
              with_description "Users can only modify their own tasks"
                (with_name "User Own Tasks Only" (with_id "user-own-tasks" new_builder))))))))

unfoldable pub business_hours_only : PolicyBuilder
unfolding with_id with_name with_description with_effect with_subject with_environment with_action
    with_priority
business_hours_only = with_priority 100 (
    with_action ("name" ∷ []) not_equals (str "read") (
      with_environment ("isBusinessHours" ∷ []) equals (bool false) (
        with_subject ("roles" ∷ []) not_contains (str "admin") (
          with_effect deny (
            with_description "Non-admins cannot access outside business hours" (
              with_name "Business Hours Restriction"
                (with_id "business-hours-only" new_builder)))))))

unfoldable pub region_access : PolicyBuilder
unfolding with_id with_name with_description with_effect with_subject with_resource with_priority
region_access = with_priority 150 (
    with_resource ("region" ∷ []) equals (str "${subject.attributes.region}") (
      with_subject ("roles" ∷ []) not_contains (str "admin") (
        with_effect allow (
          with_description "Users can only access resources in their region"
            (with_name "Region-Based Access" (with_id "region-access" new_builder))))))

abbrev cons_policy : Option Policy → List Policy → List Policy
cons_policy none ps = ps
cons_policy (some p) ps = p ∷ ps

unfoldable pub default_policies : List Policy
unfolding admin_full_access operator_manage user_task_access user_own_tasks business_hours_only
    region_access build
default_policies = cons_policy (build admin_full_access) (
    cons_policy (build operator_manage) (
      cons_policy (build user_task_access) (
        cons_policy (build user_own_tasks)
          (cons_policy (build business_hours_only) (cons_policy (build region_access) [])))))
