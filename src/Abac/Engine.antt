-- ===== src/Abac/Engine.antt =====
-- packages/security/src/abac.ts, the class `ABACEngine`, and the attribute resolvers of the package.
-- Policies are kept by id, in the order in which the ids were first added.
use Prim.Native.String.{String, ◌++◌ as str_append}
use text.Mathlib.Text.{◌==◌ as str_eq}
use edge_cloud_orchestrator.Prelude.{
  Bool, true, false, List, [], ◌∷◌, ◌++◌, Option, none, some, leb, ltb, ◌==◌, ◌&&◌, ◌||◌,
  if◌then◌else◌,
}
use edge_cloud_orchestrator.Abac.Value.{
  Value, Values, nil, cons, bool, num, str, arr, obj, field, end, Js, set_field,
}
use edge_cloud_orchestrator.Abac.Policy.{
  AccessRequest, Policy, Effect, allow, deny, Obligation, policy_matches,
}

-- What the promise of a resolver settles to.
pub data Resolution : Type 0 where
  resolved : Value → Resolution
  unresolved : Resolution
  threw : Resolution

abbrev pub AttributeResolver : Type 0
AttributeResolver = AccessRequest → Resolution

pub record Engine : Type 0 where
  pub policies : List Policy
  pub attribute_resolvers : List (String × AttributeResolver)

-- `policies.set(policy.id, policy)`.
unfoldable pub put_policy : Policy → List Policy → List Policy
put_policy p [] = p ∷ []
put_policy p (q ∷ qs) = if str_eq q.id p.id then p ∷ qs else q ∷ put_policy p qs

unfoldable pub delete_policy : String → List Policy → List Policy
delete_policy id [] = []
delete_policy id (q ∷ qs) =
    let rest = delete_policy id qs in if str_eq q.id id then rest else q ∷ rest

unfoldable pub add_policy : Engine → Policy → Engine
add_policy e p = record e { policies = put_policy p e.policies }

unfoldable pub remove_policy : Engine → String → Engine
remove_policy e id = record e { policies = delete_policy id e.policies }

put_resolver :
    String
    → AttributeResolver
    → List (String × AttributeResolver)
    → List (String × AttributeResolver)
put_resolver name f [] = (name, f) ∷ []
put_resolver name f ((k, g) ∷ rs) =
    if str_eq k name then (name, f) ∷ rs else (k, g) ∷ put_resolver name f rs

unfoldable pub register_attribute_resolver : Engine → String → AttributeResolver → Engine
unfolding put_resolver
register_attribute_resolver e name f = record e {
  attribute_resolvers = put_resolver name f e.attribute_resolvers;
}

-- `resolveAttributes`: the resolvers run in order, each on the request as the ones before left it.
abbrev pub note_resolution : String → Resolution → AccessRequest → AccessRequest
note_resolution name (resolved v) r = record r {
  subject = record r.subject { attributes = set_field name v r.subject.attributes };
}
note_resolution name unresolved r = r
note_resolution name threw r = r

unfoldable pub resolve_attributes :
    List (String × AttributeResolver) → AccessRequest → AccessRequest
resolve_attributes [] r = r
resolve_attributes ((name, resolve) ∷ rs) r =
    resolve_attributes rs (note_resolution name (resolve r) r)

-- `sort((a, b) => b.priority - a.priority)`, which is stable.
unfoldable pub insert_by_priority : Policy → List Policy → List Policy
insert_by_priority p [] = p ∷ []
insert_by_priority p (q ∷ qs) =
    if leb q.priority p.priority then p ∷ q ∷ qs else q ∷ insert_by_priority p qs

unfoldable pub sort_by_priority : List Policy → List Policy
sort_by_priority [] = []
sort_by_priority (p ∷ ps) = insert_by_priority p (sort_by_priority ps)

-- The variables of the loop of `evaluate`; the reason is the name of the policy that decided.
pub record Evaluation : Type 0 where
  pub final_decision : Option Effect
  pub decided_by : Option String
  pub matched_policies : List String
  pub obligations : List Obligation

abbrev pub no_matching_policies : Evaluation
no_matching_policies = record {
  final_decision = none;
  decided_by = none;
  matched_policies = [];
  obligations = [];
}

abbrev pub is_deny : Effect → Bool
is_deny deny = true
is_deny allow = false

abbrev pub is_undecided : Option Effect → Bool
is_undecided none = true
is_undecided (some e) = false

unfoldable pub note_match : Policy → Evaluation → Evaluation
note_match p v =
    let decides = is_undecided v.final_decision || is_deny p.effect in
    record {
      final_decision = if decides then some p.effect else v.final_decision;
      decided_by = if decides then some p.name else v.decided_by;
      matched_policies = v.matched_policies ++ p.id ∷ [];
      obligations = v.obligations ++ p.obligations;
    }

abbrev pub is_allowed : Option Effect → Bool
is_allowed none = false
is_allowed (some e) = elim e [ allow ↦ true | deny ↦ false ]

-- `reason`.
abbrev pub reason_text : Option String → String
reason_text none = "No matching policies"
reason_text (some name) = str_append "Matched policy: " name

pub record AccessDecision : Type 0 where
  pub allowed : Bool
  pub reason : String
  pub matched_policies : List String
  pub obligations : List Obligation

module _ (js : Js) where
  -- The loop of `evaluate`.
  unfoldable pub evaluate_loop : List Policy → AccessRequest → Evaluation → Evaluation
  evaluate_loop [] r v = v
  evaluate_loop (p ∷ ps) r v = elim (policy_matches js p r) [
    | false ↦ evaluate_loop ps r v
    | true ↦ elim (is_deny p.effect) [
      | true ↦ note_match p v
      | false ↦ evaluate_loop ps r (note_match p v)
    ]
  ]

  -- `evaluate`, with the request as it leaves it.
  unfoldable pub evaluate : Engine → AccessRequest → AccessDecision × AccessRequest
  evaluate e r =
      let r' = resolve_attributes e.attribute_resolvers r in
      let v = evaluate_loop (sort_by_priority e.policies) r' no_matching_policies in
      (
        record {
          allowed = is_allowed v.final_decision;
          reason = reason_text v.decided_by;
          matched_policies = v.matched_policies;
          obligations = v.obligations;
        },
        r',
      )

-- `TimeBasedAttributeResolver`.
unfoldable pub resolve_time : AttributeResolver
resolve_time r =
    let hour = r.environment.hours in
    let day = r.environment.day in
    resolved (
      obj (
        field "isBusinessHours" (bool (leb 9 hour && ltb hour 17 && ltb 0 day && ltb day 6)) (
          field "isWeekend" (bool (day == 0 || day == 6))
            (field "hourOfDay" (num hour) (field "dayOfWeek" (num day) end)))))

-- `RoleHierarchyResolver`. A set is a list without repetitions, in insertion order.
abbrev pub has_role : String → List String → Bool
has_role a [] = false
has_role a (b ∷ bs) = str_eq b a || has_role a bs

abbrev pub add_role : String → List String → List String
add_role a roles = if has_role a roles then roles else roles ++ a ∷ []

abbrev pub role_hierarchy : String → List String
role_hierarchy role =
    if str_eq role "admin"
    then "user" ∷ "viewer" ∷ "operator" ∷ []
    else if str_eq role "operator"
    then "user" ∷ "viewer" ∷ []
    else if str_eq role "user"
    then "viewer" ∷ []
    else []

unfoldable pub add_roles : List String → List String → List String
add_roles [] effective = effective
add_roles (a ∷ as_) effective = add_roles as_ (add_role a effective)

unfoldable pub effective_roles : List String → List String → List String
effective_roles [] effective = effective
effective_roles (role ∷ roles) effective =
    effective_roles roles (add_roles (role_hierarchy role) (add_role role effective))

abbrev pub to_values : List String → Values
to_values [] = nil
to_values (a ∷ bs) = cons (str a) (to_values bs)

unfoldable pub resolve_roles : AttributeResolver
resolve_roles r =
    let roles = effective_roles r.subject.roles [] in
    resolved (
      obj (
        field "effectiveRoles" (arr (to_values roles)) (
          field "hasAdminRole" (bool (has_role "admin" roles))
            (field "hasOperatorRole" (bool (has_role "operator" roles)) end))))
