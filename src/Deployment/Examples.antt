-- ===== src/Deployment/Examples.antt =====
-- Concrete runs of src/lib/deployment/BlueGreenDeploymentManager.ts.
use edge_cloud_orchestrator.Prelude.{
  ◌≡◌, ◌≤◌, ◌+◌, refl, true, false, List, [], ◌∷◌, replicate, arith,
}
use edge_cloud_orchestrator.Prelude.Dict.{get, put}
use edge_cloud_orchestrator.Deployment.{
  green, DeploymentConfig, Deployment, TrafficSplit, ended, shift_traffic, complete, after_health,
  advance, advances, begin_deployment, cancel, new_manager, starts, goes_on, run, Manager,
  start_deployment, step, Answer, yes, no, failed, fail_deployment, rollback, throws,
}
use edge_cloud_orchestrator.Deployment.Outcomes.{share, IsOutcome, deployment_ends}
use edge_cloud_orchestrator.Deployment.Counts.{count_yes}
use edge_cloud_orchestrator.Deployment.Cancelled.{cancel_lost}

-- Half of the traffic goes to the new version, on two healthy nodes.
abbrev half : DeploymentConfig
half = record { min_healthy_nodes = 2; rollout_percentage = 50; rollback_on_failure = true }

abbrev all_blue : TrafficSplit
all_blue = record { blue_percentage = 100; green_percentage = 0 }

abbrev begun : Deployment × TrafficSplit
begun = begin_deployment half (1 ∷ 2 ∷ 3 ∷ []) all_blue

-- The second node fails; the others are healthy, and the error rate stays within its threshold.
abbrev good : List Answer
good = yes ∷ no ∷ replicate 16 yes

good_test :
    (advances begun.0 begun.1 good).1 ≡ record { blue_percentage = 50; green_percentage = 50 }
unfolding advances advance begin_deployment after_health complete shift_traffic
good_test = refl

deployment_ends_example :
    let p = advances begun.0 begun.1 good in
    (share begun.0.target all_blue ≤ 50)
    × (p.0.phase ≡ ended)
    × IsOutcome begun.0.target half all_blue p.0 p.1
    × (p.0.nodes_deployed + p.0.nodes_healthy ≤ count_yes good)
deployment_ends_example =
    deployment_ends half all_blue (1 ∷ 2 ∷ 3 ∷ []) good (omega arith) refl (omega arith)

-- A health check that throws fails the deployment, and the traffic stays where it was.
thrown_test :
    let p = advances begun.0 begun.1 (yes ∷ yes ∷ yes ∷ yes ∷ throws ∷ []) in
    (p.0.phase ≡ ended) × (p.0.status ≡ failed) × (p.1 ≡ all_blue)
unfolding advances advance begin_deployment fail_deployment rollback shift_traffic
thrown_test = (refl, refl, refl)

-- Cancelled once two nodes have been tried.
abbrev tried : Deployment × TrafficSplit
tried = advances begun.0 begun.1 (yes ∷ no ∷ [])

cancel_lost_example :
    advances (cancel tried.0 tried.1).0 (cancel tried.0 tried.1).1 (replicate 15 yes)
    ≡ advances tried.0 tried.1 (replicate 15 yes)
unfolding advances advance begin_deployment after_health complete
cancel_lost_example = cancel_lost tried.0 tried.1 (replicate 15 yes) _ refl refl

-- Of a rollout of 29 percent, 28 arrive.
short_test : shift_traffic green 29 ≡ record { blue_percentage = 72; green_percentage = 28 }
unfolding shift_traffic
short_test = refl

-- A deployment is refused while another is deployed to its nodes, and not once that one is validated.
abbrev first_begun : Manager
first_begun = run new_manager (starts 1 half (1 ∷ []) ∷ [])

overlapping_test :
    ((start_deployment first_begun 2 half (1 ∷ 2 ∷ [])).1 ≡ false)
    × ((start_deployment (step first_begun (goes_on 1 yes)) 2 half (1 ∷ 2 ∷ [])).1 ≡ true)
unfolding run step start_deployment begin_deployment advance get put
overlapping_test = (refl, refl)
