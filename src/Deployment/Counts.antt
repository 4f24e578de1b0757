-- ===== src/Deployment/Counts.antt =====
-- What an execution counts, and that its slot stays the same
-- (src/lib/deployment/BlueGreenDeploymentManager.ts).
use edge_cloud_orchestrator.Prelude.{
  ℕ, suc, zero, ◌+◌, ◌≤◌, ◌≡◌, refl, ◌∙◌, Bool, true, false, List, [], ◌∷◌, ltb, if◌then◌else◌,
  arith, if_cases,
}
use edge_cloud_orchestrator.Deployment.{
  failed, validating, Phase, deploying_to, checking, monitoring, ended, Deployment, TrafficSplit,
  shift_traffic, rollback, fail_deployment, complete, after_health, check_next, deploy_next,
  deployed_to, count_healthy, monitor, answer_with, catch, go_on, Answer, yes, no, throws, advance,
  advances,
}

-- The answers that are good.
abbrev pub count_yes : List Answer → ℕ
count_yes [] = 0
count_yes (yes ∷ rest) = suc (count_yes rest)
count_yes (no ∷ rest) = count_yes rest
count_yes (throws ∷ rest) = count_yes rest

-- The nodes that are counted as deployed to or as healthy are at most so many more.
abbrev Counts : ℕ → Deployment → Deployment × TrafficSplit → Type 0
Counts k d p =
    (p.0.target ≡ d.target)
    × (p.0.nodes_deployed + p.0.nodes_healthy ≤ k + d.nodes_deployed + d.nodes_healthy)

fail_deployment-Counts : (d : Deployment) (t : TrafficSplit) → Counts 0 d (fail_deployment d t)
unfolding fail_deployment rollback
fail_deployment-Counts d t =
    let f : Deployment = record d { status = failed; slot_failed = true; phase = ended } in
    if_cases (Counts 0 d) d.config.rollback_on_failure (rollback f t) (f, t)
      (λ e. (refl, omega arith)) (λ e. (refl, omega arith))

after_health-Counts : (d : Deployment) (t : TrafficSplit) → Counts 0 d (after_health d t)
unfolding after_health complete
after_health-Counts d t =
    let u = shift_traffic d.target d.config.rollout_percentage in
    if_cases (Counts 0 d) (ltb d.nodes_healthy d.config.min_healthy_nodes) (fail_deployment d t)
      (if d.config.rollback_on_failure
        then (record d { phase = monitoring 12 }, u)
        else complete d u)
      (λ e. fail_deployment-Counts d t)
      (λ e.
        if_cases (Counts 0 d) d.config.rollback_on_failure (record d { phase = monitoring 12 }, u)
          (complete d u) (λ f. (refl, omega arith)) (λ f. (refl, omega arith)))

check_next-Counts :
    (ns : List ℕ) (d : Deployment) (t : TrafficSplit) → Counts 0 d (check_next ns d t)
check_next-Counts [] d t = after_health-Counts d t
check_next-Counts (n ∷ ns) d t = (refl, omega arith)

deploy_next-Counts :
    (ns : List ℕ) (d : Deployment) (t : TrafficSplit) → Counts 0 d (deploy_next ns d t)
deploy_next-Counts [] d t = check_next-Counts d.slot_nodes (record d { status = validating }) t
deploy_next-Counts (n ∷ ns) d t = (refl, omega arith)

monitor-Counts :
    (k : ℕ) (ok : Bool) (d : Deployment) (t : TrafficSplit) → Counts 0 d (monitor k ok d t)
unfolding rollback complete
monitor-Counts k false d t = fail_deployment-Counts (rollback d t).0 (rollback d t).1
monitor-Counts zero true d t = (refl, omega arith)
monitor-Counts (suc k) true d t = (refl, omega arith)

yes-Counts : (p : Phase) (d : Deployment) (t : TrafficSplit) → Counts 1 d (answer_with p true d t)
yes-Counts (deploying_to []) d t = (refl, omega arith)
yes-Counts (deploying_to (n ∷ ns)) d t =
    let (s, c) = deploy_next-Counts ns (deployed_to n true d) t in (s, omega (arith, c))
yes-Counts (checking []) d t = (refl, omega arith)
yes-Counts (checking (n ∷ ns)) d t =
    let (s, c) = check_next-Counts ns (count_healthy true d) t in (s, omega (arith, c))
yes-Counts (monitoring zero) d t = (refl, omega arith)
yes-Counts (monitoring (suc k)) d t =
    let (s, c) = monitor-Counts k true d t in (s, omega (arith, c))
yes-Counts ended d t = (refl, omega arith)

no-Counts : (p : Phase) (d : Deployment) (t : TrafficSplit) → Counts 0 d (answer_with p false d t)
no-Counts (deploying_to []) d t = (refl, omega arith)
no-Counts (deploying_to (n ∷ ns)) d t = deploy_next-Counts ns (deployed_to n false d) t
no-Counts (checking []) d t = (refl, omega arith)
no-Counts (checking (n ∷ ns)) d t = check_next-Counts ns d t
no-Counts (monitoring zero) d t = (refl, omega arith)
no-Counts (monitoring (suc k)) d t = monitor-Counts k false d t
no-Counts ended d t = (refl, omega arith)

catch-Counts : (p : Phase) (d : Deployment) (t : TrafficSplit) → Counts 0 d (catch p d t)
catch-Counts ended d t = (refl, omega arith)
catch-Counts (deploying_to ns) d t = fail_deployment-Counts d t
catch-Counts (checking ns) d t = fail_deployment-Counts d t
catch-Counts (monitoring k) d t = fail_deployment-Counts d t

go_on-Counts :
    (p : Phase) (a : Answer) (d : Deployment) (t : TrafficSplit)
    → Counts (count_yes (a ∷ [])) d (go_on p a d t)
go_on-Counts p yes d t = yes-Counts p d t
go_on-Counts p no d t = no-Counts p d t
go_on-Counts p throws d t = catch-Counts p d t

count_yes_cons :
    (a : Answer) (rest : List Answer) → count_yes (a ∷ rest) ≡ count_yes (a ∷ []) + count_yes rest
count_yes_cons yes rest = omega arith
count_yes_cons no rest = omega arith
count_yes_cons throws rest = omega arith

pub advances-Counts :
    (answers : List Answer) (d : Deployment) (t : TrafficSplit)
    → Counts (count_yes answers) d (advances d t answers)
unfolding advances advance
advances-Counts [] d t = (refl, omega arith)
advances-Counts (a ∷ rest) d t =
    let p = go_on d.phase a d t in
    let (s, c) = go_on-Counts d.phase a d t in
    let (s', c') = advances-Counts rest p.0 p.1 in
    (s' ∙ s, omega (arith, c, c', count_yes_cons a rest))
