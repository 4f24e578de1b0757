-- ===== src/Abac/Defaults.antt =====
-- What the default policies decide (packages/security/src/abac.ts, `DEFAULT_POLICIES`).
use edge_cloud_orchestrator.Prelude.{Bool, true, false, List, ◌∷◌, ◌≡◌, refl, ◌∙◌, ◌&&◌, any}
use edge_cloud_orchestrator.Abac.Value.{Js}
use edge_cloud_orchestrator.Abac.Policy.{
  AccessRequest, Policy, PolicyCondition, not_contains, policy_matches, conditions_match,
  condition_matches, test_condition,
}
use edge_cloud_orchestrator.Abac.Builder.{default_policies}
use edge_cloud_orchestrator.Abac.Engine.{Engine, evaluate, resolve_attributes}
use edge_cloud_orchestrator.Abac.Decision.{evaluate-allowed, allows, denies}

-- A policy with a condition on the subject that it shall not contain something matches no request.
pub not_contains-never :
    (js : Js) (p : Policy) (c : PolicyCondition) (cs : List PolicyCondition) (r : AccessRequest)
    → p.subjects ≡ c ∷ cs
    → c.type ≡ not_contains
    → policy_matches js p r ≡ false
unfolding policy_matches conditions_match condition_matches test_condition
not_contains-never js p c cs r e t = rw e (rw t (refl))

and_false : (b : Bool) → (b && false) ≡ false
and_false true = refl
and_false false = refl

and_true : (b : Bool) → (b && true) ≡ b
and_true true = refl
and_true false = refl

defaults_never_deny : (js : Js) (r : AccessRequest) → any (denies js r) default_policies ≡ false
unfolding default_policies policy_matches conditions_match condition_matches test_condition
defaults_never_deny js r = simp and_false

-- With the default policies access is never denied by a policy, at any hour: the one that should
-- deny outside business hours asks for a condition that the engine does not have. A request is
-- allowed exactly if a policy that allows matches it.
pub defaults-allowed :
    (js : Js) (e : Engine) (r : AccessRequest)
    → e.policies ≡ default_policies
    → let r' = resolve_attributes e.attribute_resolvers r in
      (any (denies js r') e.policies ≡ false)
      × ((evaluate js e r).0.allowed ≡ any (allows js r') e.policies)
defaults-allowed js e r d =
    let r' = resolve_attributes e.attribute_resolvers r in
    let n : any (denies js r') e.policies ≡ false = rw d (defaults_never_deny js r') in
    (n, evaluate-allowed js e r ∙ rw n (and_true _))
