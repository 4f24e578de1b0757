-- ===== src/Abac/Decision.antt =====
-- What `ABACEngine.evaluate` decides (packages/security/src/abac.ts), whatever its policies.
use edge_cloud_orchestrator.Prelude.{
  Bool, List, [], ◌∷◌, some, ◌≡◌, ◌≢◌, refl, ◌&&◌, ◌||◌, not, any, arith,
}
use edge_cloud_orchestrator.Abac.Value.{Js}
use edge_cloud_orchestrator.Abac.Policy.{AccessRequest, Policy, deny, policy_matches}
use edge_cloud_orchestrator.Abac.Engine.{
  Engine, Evaluation, evaluate, evaluate_loop, note_match, no_matching_policies, is_deny,
  is_allowed, insert_by_priority, sort_by_priority, resolve_attributes,
}

any-insert_by_priority :
    (f : Policy → Bool) (p : Policy) (ps : List Policy)
    → any f (insert_by_priority p ps) ≡ (f p || any f ps)
unfolding insert_by_priority
any-insert_by_priority f p [] = refl
any-insert_by_priority f p (q ∷ qs) = ground (arith, any-insert_by_priority f p qs)

any-sort_by_priority :
    (f : Policy → Bool) (ps : List Policy) → any f (sort_by_priority ps) ≡ any f ps
unfolding sort_by_priority
any-sort_by_priority f [] = refl
any-sort_by_priority f (p ∷ ps) =
    ground (arith, any-insert_by_priority f p (sort_by_priority ps), any-sort_by_priority f ps)

module _ (js : Js) where
  abbrev pub denies : AccessRequest → Policy → Bool
  denies r p = policy_matches js p r && is_deny p.effect

  abbrev pub allows : AccessRequest → Policy → Bool
  allows r p = policy_matches js p r && not (is_deny p.effect)

  evaluate_loop-allowed :
      (ps : List Policy) (r : AccessRequest) (v : Evaluation)
      → v.final_decision ≢ some deny
      → is_allowed (evaluate_loop js ps r v).final_decision
        ≡ ((is_allowed v.final_decision || any (allows r) ps) && not (any (denies r) ps))
  unfolding evaluate_loop note_match
  evaluate_loop-allowed [] r v h = ground arith
  evaluate_loop-allowed (p ∷ ps) r v h =
      ground (arith, evaluate_loop-allowed ps r v, evaluate_loop-allowed ps r (note_match p v))

  -- Access is allowed exactly if some policy that allows matches the request, with its attributes
  -- resolved, and no policy that denies does: the priorities and the order make no difference.
  pub evaluate-allowed :
      (e : Engine) (r : AccessRequest)
      → let r' = resolve_attributes e.attribute_resolvers r in
        (evaluate js e r).0.allowed
        ≡ (any (allows r') e.policies && not (any (denies r') e.policies))
  unfolding evaluate
  evaluate-allowed e r =
      let r' = resolve_attributes e.attribute_resolvers r in
      let h =
        evaluate_loop-allowed (sort_by_priority e.policies) r' no_matching_policies (λ q. cc) in
      ground (
        arith,
        h,
        any-sort_by_priority (allows r') e.policies,
        any-sort_by_priority (denies r') e.policies,
      )
