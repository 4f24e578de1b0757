-- ===== src/Deployment/Waits.antt =====
-- What an execution waits for, and how it has ended once it waits no more
-- (src/lib/deployment/BlueGreenDeploymentManager.ts).
use edge_cloud_orchestrator.Prelude.{
  ℕ, suc, zero, ◌+◌, ◌*◌, ◌<◌, ◌≤◌, ◌≡◌, refl, sym, ap, ◌∙◌, ◌⊎◌, inl, inr, Bool, true, false, List,
  [], ◌∷◌, ◌++◌, ltb, ltb-false, ◌==◌, if◌then◌else◌, any, length, length-append, arith, if_cases,
}
use edge_cloud_orchestrator.Deployment.{
  other, active, failed, validating, DeploymentConfig, Phase, deploying_to, checking, monitoring,
  ended, Deployment, TrafficSplit, shift_traffic, rollback, fail_deployment, complete, after_health,
  check_next, deploy_next, deployed_to, count_healthy, monitor, go_on, advance, advances,
  begin_deployment, add, Answer, yes, no, throws, catch, answer_with,
}

-- A deployment is active on enough healthy nodes, with its share of the traffic, or it has failed, and
-- the traffic is all at the other slot, or as it was if nothing is to be rolled back.
abbrev pub IsResult : DeploymentConfig → TrafficSplit → Deployment → TrafficSplit → Type 0
IsResult c t d u =
    ((d.status ≡ active)
      × (c.min_healthy_nodes ≤ d.nodes_healthy)
      × (u ≡ shift_traffic d.target c.rollout_percentage))
    ⊎ ((d.status ≡ failed)
        × (c.rollback_on_failure ≡ true → u ≡ shift_traffic (other d.target) 100)
        × (c.rollback_on_failure ≡ false → u ≡ t))

-- What holds where an execution waits.
abbrev Fits : DeploymentConfig → TrafficSplit → Phase → Deployment → TrafficSplit → Type 0
Fits c t (deploying_to ns) d u = (0 < length ns) × (d.active_slot ≡ other d.target) × (u ≡ t)
Fits c t (checking ns) d u = (0 < length ns) × (d.active_slot ≡ other d.target) × (u ≡ t)
Fits c t (monitoring k) d u =
    (0 < k)
    × (d.active_slot ≡ other d.target)
    × (c.rollback_on_failure ≡ true)
    × (c.min_healthy_nodes ≤ d.nodes_healthy)
    × (u ≡ shift_traffic d.target c.rollout_percentage)
Fits c t ended d u = IsResult c t d u

-- How many waits are left at most.
abbrev waits : Phase → Deployment → ℕ
waits (deploying_to ns) d = 2 * length ns + length d.slot_nodes + 12
waits (checking ns) d = length ns + 12
waits (monitoring k) d = k
waits ended d = 0

length-add : (n : ℕ) (ns : List ℕ) → length (add n ns) ≤ suc (length ns)
length-add n ns =
    if_cases (λ ms. length ms ≤ suc (length ns)) (any (λ m. m == n) ns) ns (ns ++ n ∷ [])
      (λ e. omega arith) (λ e. omega (arith, length-append ns (n ∷ [])))

module _ (c : DeploymentConfig) (t : TrafficSplit) where
  abbrev Next : ℕ → Deployment × TrafficSplit → Type 0
  Next m p = (p.0.config ≡ c) × Fits c t p.0.phase p.0 p.1 × (waits p.0.phase p.0 ≤ m)

  fail_deployment-Next :
      (m : ℕ) (d : Deployment) (u : TrafficSplit)
      → d.config ≡ c
      → d.active_slot ≡ other d.target
      → (c.rollback_on_failure ≡ false → u ≡ t)
      → Next m (fail_deployment d u)
  unfolding fail_deployment rollback
  fail_deployment-Next m d u k a h =
      let f : Deployment = record d { status = failed; slot_failed = true; phase = ended } in
      let rolls = ap (λ x. x.rollback_on_failure) k in
      let back = ap (λ s. shift_traffic s 100) a in
      if_cases (Next m) d.config.rollback_on_failure (rollback f u) (f, u)
        (λ e. (k, inr (refl, (λ y. back), λ n. absurd (cc)), omega arith))
        (λ e. (k, inr (refl, (λ y. absurd (cc)), h), omega arith))

  after_health-Next :
      (m : ℕ) (d : Deployment)
      → d.config ≡ c
      → d.active_slot ≡ other d.target
      → 12 ≤ m
      → Next m (after_health d t)
  unfolding after_health complete
  after_health-Next m d k a l =
      let u = shift_traffic d.target d.config.rollout_percentage in
      let least = ap (λ x. x.min_healthy_nodes) k in
      let rolls = ap (λ x. x.rollback_on_failure) k in
      let moved = ap (λ x. shift_traffic d.target x.rollout_percentage) k in
      if_cases (Next m) (ltb d.nodes_healthy d.config.min_healthy_nodes) (fail_deployment d t)
        (if d.config.rollback_on_failure
          then (record d { phase = monitoring 12 }, u)
          else complete d u)
        (λ e. fail_deployment-Next m d t k a (λ n. refl))
        (λ e.
          let enough : c.min_healthy_nodes ≤ d.nodes_healthy =
            omega (arith, least, ltb-false d.nodes_healthy d.config.min_healthy_nodes e) in
          if_cases (Next m) d.config.rollback_on_failure (record d { phase = monitoring 12 }, u)
            (complete d u) (λ f. (k, (omega arith, a, sym rolls ∙ f, enough, moved), l))
            (λ f. (k, inl (refl, enough, moved), omega arith)))

  check_next-Next :
      (m : ℕ) (ns : List ℕ) (d : Deployment)
      → d.config ≡ c
      → d.active_slot ≡ other d.target
      → length ns + 12 ≤ m
      → Next m (check_next ns d t)
  check_next-Next m [] d k a l = after_health-Next m d k a (omega (arith, l))
  check_next-Next m (n ∷ ns) d k a l = (k, (omega arith, a, refl), l)

  deploy_next-Next :
      (m : ℕ) (ns : List ℕ) (d : Deployment)
      → d.config ≡ c
      → d.active_slot ≡ other d.target
      → 2 * length ns + length d.slot_nodes + 12 ≤ m
      → Next m (deploy_next ns d t)
  deploy_next-Next m [] d k a l =
      check_next-Next m d.slot_nodes (record d { status = validating }) k a (omega (arith, l))
  deploy_next-Next m (n ∷ ns) d k a l = (k, (omega arith, a, refl), l)

  monitor-Next :
      (k : ℕ) (ok : Bool) (d : Deployment)
      → d.config ≡ c
      → Fits c t (monitoring (suc k)) d (shift_traffic d.target c.rollout_percentage)
      → Next k (monitor k ok d (shift_traffic d.target c.rollout_percentage))
  unfolding rollback complete
  monitor-Next k false d e (p, a, r, h, u) =
      fail_deployment-Next k (record d { status = failed }) (shift_traffic d.active_slot 100) e a
        (λ n. absurd (cc))
  monitor-Next zero true d e (p, a, r, h, u) = (e, inl (refl, h, refl), omega arith)
  monitor-Next (suc k) true d e (p, a, r, h, u) = (e, (omega arith, a, r, h, refl), omega arith)

  answer_with-Next :
      (p : Phase) (ok : Bool) (d : Deployment) (u : TrafficSplit) (m : ℕ)
      → d.config ≡ c
      → Fits c t p d u
      → waits p d ≤ suc m
      → d.phase ≡ p
      → Next m (answer_with p ok d u)
  answer_with-Next (deploying_to []) ok d u m e f w s = absurd (let l = f.0 in omega (arith, l))
  answer_with-Next (deploying_to (n ∷ ns)) true d u m e (l, a, f) w s = rw f (
      deploy_next-Next m ns (deployed_to n true d) e a
        (omega (arith, w, length-add n d.slot_nodes)))
  answer_with-Next (deploying_to (n ∷ ns)) false d u m e (l, a, f) w s =
      rw f (deploy_next-Next m ns (deployed_to n false d) e a (omega (arith, w)))
  answer_with-Next (checking []) ok d u m e f w s = absurd (let l = f.0 in omega (arith, l))
  answer_with-Next (checking (n ∷ ns)) true d u m e (l, a, f) w s =
      rw f (check_next-Next m ns (count_healthy true d) e a (omega (arith, w)))
  answer_with-Next (checking (n ∷ ns)) false d u m e (l, a, f) w s =
      rw f (check_next-Next m ns d e a (omega (arith, w)))
  answer_with-Next (monitoring zero) ok d u m e f w s = absurd (let l = f.0 in omega (arith, l))
  answer_with-Next (monitoring (suc k)) ok d u m e (l, a, r, h, f) w s =
      let (e', f', w') = monitor-Next k ok d e (l, a, r, h, refl) in
      rw f (e', f', omega (arith, w, w'))
  answer_with-Next ended ok d u m e f w s = rw s (e, f, omega arith)

  catch-Next :
      (p : Phase) (d : Deployment) (u : TrafficSplit) (m : ℕ)
      → d.config ≡ c
      → Fits c t p d u
      → d.phase ≡ p
      → Next m (catch p d u)
  catch-Next (deploying_to ns) d u m e (l, a, f) s = fail_deployment-Next m d u e a (λ n. f)
  catch-Next (checking ns) d u m e (l, a, f) s = fail_deployment-Next m d u e a (λ n. f)
  catch-Next (monitoring k) d u m e (l, a, r, h, f) s =
      fail_deployment-Next m d u e a (λ n. absurd (cc))
  catch-Next ended d u m e f s = rw s (e, f, omega arith)

  go_on-Next :
      (p : Phase) (a : Answer) (d : Deployment) (u : TrafficSplit) (m : ℕ)
      → d.config ≡ c
      → Fits c t p d u
      → waits p d ≤ suc m
      → d.phase ≡ p
      → Next m (go_on p a d u)
  go_on-Next p yes d u m e f w s = answer_with-Next p true d u m e f w s
  go_on-Next p no d u m e f w s = answer_with-Next p false d u m e f w s
  go_on-Next p throws d u m e f w s = catch-Next p d u m e f s

  advances-Next :
      (m : ℕ) (oks : List Answer) (d : Deployment) (u : TrafficSplit)
      → Next m (d, u)
      → m ≤ length oks
      → Next 0 (advances d u oks)
  unfolding advances advance
  advances-Next m [] d u (e, f, w) l = (e, f, omega (arith, w, l))
  advances-Next zero (ok ∷ oks) d u (e, f, w) l =
      let p = go_on d.phase ok d u in
      advances-Next 0 oks p.0 p.1 (go_on-Next d.phase ok d u 0 e f (omega (arith, w)) refl)
        (omega arith)
  advances-Next (suc m) (ok ∷ oks) d u (e, f, w) l =
      let p = go_on d.phase ok d u in
      advances-Next m oks p.0 p.1 (go_on-Next d.phase ok d u m e f w refl) (omega (arith, l))

  waits_none :
      (p : Phase) (d : Deployment) (u : TrafficSplit)
      → Fits c t p d u
      → waits p d ≤ 0
      → (p ≡ ended) × IsResult c t d u
  waits_none (deploying_to ns) d u f w = absurd (omega (arith, w))
  waits_none (checking ns) d u f w = absurd (omega (arith, w))
  waits_none (monitoring k) d u f w = absurd (let l = f.0 in omega (arith, w, l))
  waits_none ended d u f w = (refl, f)

  begin_deployment-Next :
      (nodes : List ℕ) → Next (2 * length nodes + 12) (begin_deployment c nodes t)
  unfolding begin_deployment
  begin_deployment-Next [] = fail_deployment-Next 12 _ t refl refl (λ n. refl)
  begin_deployment-Next (n ∷ ns) = (refl, (omega arith, refl, refl), omega arith)

  pub advances-IsResult :
      (nodes : List ℕ) (oks : List Answer)
      → 2 * length nodes + 12 ≤ length oks
      → let b = begin_deployment c nodes t in
        let p = advances b.0 b.1 oks in (p.0.phase ≡ ended) × IsResult c t p.0 p.1
  advances-IsResult nodes oks l =
      let b = begin_deployment c nodes t in
      let p = advances b.0 b.1 oks in
      let (e, f, w) =
        advances-Next (2 * length nodes + 12) oks b.0 b.1 (begin_deployment-Next nodes) l in
      waits_none p.0.phase p.0 p.1 f w
