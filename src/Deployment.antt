-- ===== src/Deployment.antt =====
-- src/lib/deployment/BlueGreenDeploymentManager.ts, the class `BlueGreenDeploymentManager`. Where the
-- code waits, for a node, a health check or the next look at the error rate, other events may come
-- between, so each such wait ends a step; what is waited for gives is an argument of the next. The
-- percentage of a rollout is a whole number up to 100. The requests that the monitor counts are random,
-- so whether the error rate is within the threshold is an argument too. Progress, versions, the time
-- and the status of the slot that is not deployed to are left out.
use edge_cloud_orchestrator.Prelude.{
  ℕ, suc, zero, ◌+◌, ◌-◌, Bool, true, false, List, [], ◌∷◌, ◌++◌, Option, none, some, ltb, leb,
  ◌==◌, if◌then◌else◌, ◌&&◌, ◌||◌, any,
}
use edge_cloud_orchestrator.Prelude.Dict.{get, put}
pub mod Traffic
pub mod Counts
pub mod Waits
pub mod Outcomes
pub mod Cancelled
mod Examples

pub data Slot : Type 0 where
  blue green : Slot

pub data Status : Type 0 where
  pending deploying validating active failed : Status

pub record DeploymentConfig : Type 0 where
  pub min_healthy_nodes : ℕ
  pub rollout_percentage : ℕ
  pub rollback_on_failure : Bool

-- Where an execution waits: for the first of the nodes that are left, at a deployment or a health check,
-- or for the next of the checks of the monitor.
pub data Phase : Type 0 where
  deploying_to checking : List ℕ → Phase
  monitoring : ℕ → Phase
  ended : Phase

-- `slot_failed` and `slot_nodes` belong to the slot that is deployed to.
pub record Deployment : Type 0 where
  pub config : DeploymentConfig
  pub status : Status
  pub target : Slot
  pub active_slot : Slot
  pub phase : Phase
  pub slot_failed : Bool
  pub slot_nodes : List ℕ
  pub nodes_deployed : ℕ
  pub nodes_failed : ℕ
  pub nodes_healthy : ℕ

pub record TrafficSplit : Type 0 where
  pub blue_percentage : ℕ
  pub green_percentage : ℕ

abbrev pub other : Slot → Slot
other blue = green
other green = blue

-- `Math.floor(p / 100 * 100)` for whole numbers up to 100: in floating point numbers, three of the
-- products fall short of the whole number.
abbrev pub percent : ℕ → ℕ
percent p = if p == 29 || (p == 57 || p == 58) then p - 1 else p

unfoldable pub shift_traffic : Slot → ℕ → TrafficSplit
shift_traffic blue p = record { blue_percentage = percent p; green_percentage = 100 - percent p }
shift_traffic green p = record { blue_percentage = 100 - percent p; green_percentage = percent p }

unfoldable pub rollback : Deployment → TrafficSplit → Deployment × TrafficSplit
rollback d t = (record d { status = failed }, shift_traffic d.active_slot 100)

-- The catch of `executeDeployment`.
unfoldable pub fail_deployment : Deployment → TrafficSplit → Deployment × TrafficSplit
fail_deployment d t =
    let f : Deployment = record d { status = failed; slot_failed = true; phase = ended } in
    if d.config.rollback_on_failure then rollback f t else (f, t)

unfoldable pub complete : Deployment → TrafficSplit → Deployment × TrafficSplit
complete d t =
    (record d { status = active; active_slot = d.target; slot_failed = false; phase = ended }, t)

-- What follows the health checks.
unfoldable pub after_health : Deployment → TrafficSplit → Deployment × TrafficSplit
after_health d t =
    let shifted = shift_traffic d.target d.config.rollout_percentage in
    if ltb d.nodes_healthy d.config.min_healthy_nodes
    then fail_deployment d t
    else (if d.config.rollback_on_failure
        then (record d { phase = monitoring 12 }, shifted)
        else complete d shifted)

abbrev pub check_next : List ℕ → Deployment → TrafficSplit → Deployment × TrafficSplit
check_next [] d t = after_health d t
check_next (n ∷ ns) d t = (record d { phase = checking (n ∷ ns) }, t)

abbrev pub deploy_next : List ℕ → Deployment → TrafficSplit → Deployment × TrafficSplit
deploy_next [] d t = check_next d.slot_nodes (record d { status = validating }) t
deploy_next (n ∷ ns) d t = (record d { phase = deploying_to (n ∷ ns) }, t)

abbrev pub add : ℕ → List ℕ → List ℕ
add n ns = if any (λ m. m == n) ns then ns else ns ++ n ∷ []

-- What an execution waits for gives: the node was deployed to, it is healthy, or the error rate is
-- within the threshold, or not, or it throws.
pub data Answer : Type 0 where
  yes no throws : Answer

abbrev pub deployed_to : ℕ → Bool → Deployment → Deployment
deployed_to n true d = record d {
  slot_nodes = add n d.slot_nodes;
  nodes_deployed = suc d.nodes_deployed;
}
deployed_to n false d = record d { nodes_failed = suc d.nodes_failed }

abbrev pub count_healthy : Bool → Deployment → Deployment
count_healthy true d = record d { nodes_healthy = suc d.nodes_healthy }
count_healthy false d = d

-- The next check of the monitor, where so many are left after it.
abbrev pub monitor : ℕ → Bool → Deployment → TrafficSplit → Deployment × TrafficSplit
monitor k false d t = let (e, u) = rollback d t in fail_deployment e u
monitor zero true d t = complete d t
monitor (suc k) true d t = (record d { phase = monitoring (suc k) }, t)

-- An execution goes on where it waits.
abbrev pub answer_with : Phase → Bool → Deployment → TrafficSplit → Deployment × TrafficSplit
answer_with (deploying_to []) ok d t = (d, t)
answer_with (deploying_to (n ∷ ns)) ok d t = deploy_next ns (deployed_to n ok d) t
answer_with (checking []) ok d t = (d, t)
answer_with (checking (n ∷ ns)) ok d t = check_next ns (count_healthy ok d) t
answer_with (monitoring zero) ok d t = (d, t)
answer_with (monitoring (suc k)) ok d t = monitor k ok d t
answer_with ended ok d t = (d, t)

-- What is thrown goes to the catch of the execution, if that has not ended.
abbrev pub catch : Phase → Deployment → TrafficSplit → Deployment × TrafficSplit
catch ended d t = (d, t)
catch _ d t = fail_deployment d t

abbrev pub go_on : Phase → Answer → Deployment → TrafficSplit → Deployment × TrafficSplit
go_on p yes d t = answer_with p true d t
go_on p no d t = answer_with p false d t
go_on p throws d t = catch p d t

unfoldable pub advance : Deployment → TrafficSplit → Answer → Deployment × TrafficSplit
advance d t a = go_on d.phase a d t

unfoldable pub advances : Deployment → TrafficSplit → List Answer → Deployment × TrafficSplit
advances d t [] = (d, t)
advances d t (a ∷ rest) = let (e, u) = advance d t a in advances e u rest

-- `startDeployment` up to its first wait; the nodes are those online.
unfoldable pub begin_deployment :
    DeploymentConfig → List ℕ → TrafficSplit → Deployment × TrafficSplit
begin_deployment c nodes t =
    let target = if leb 50 t.blue_percentage then green else blue in
    let d : Deployment = record {
      config = c;
      status = deploying;
      target = target;
      active_slot = other target;
      phase = ended;
      slot_failed = false;
      slot_nodes = [];
      nodes_deployed = 0;
      nodes_failed = 0;
      nodes_healthy = 0;
    } in
    elim nodes [
      | [] ↦ fail_deployment d t
      | (n ∷ ns) ↦ (record d { phase = deploying_to (n ∷ ns) }, t)
    ]

abbrev pub is_deploying : Status → Bool
is_deploying deploying = true
is_deploying _ = false

abbrev pub can_cancel : Status → Bool
can_cancel pending = true
can_cancel deploying = true
can_cancel validating = true
can_cancel _ = false

-- `cancelDeployment` of a deployment that is known. The execution is not stopped.
unfoldable pub cancel : Deployment → TrafficSplit → Deployment × TrafficSplit
cancel d t = if can_cancel d.status then rollback d t else (d, t)

pub record Manager : Type 0 where
  pub deployments : List (ℕ × Deployment)
  pub active_deployment : Option ℕ
  pub traffic_split : TrafficSplit

abbrev pub new_manager : Manager
new_manager = record {
  deployments = [];
  active_deployment = none;
  traffic_split = record { blue_percentage = 100; green_percentage = 0 };
}

abbrev pub store : Manager → ℕ → Deployment × TrafficSplit → Manager
store m id p = record m { deployments = put id p.0 m.deployments; traffic_split = p.1 }

abbrev pub is_deployment_deploying : Option Deployment → Bool
is_deployment_deploying none = false
is_deployment_deploying (some d) = is_deploying d.status

abbrev pub is_busy : Manager → Option ℕ → Bool
is_busy m none = false
is_busy m (some id) = is_deployment_deploying (get id m.deployments)

-- `startDeployment`, and whether it is not refused.
unfoldable pub start_deployment : Manager → ℕ → DeploymentConfig → List ℕ → Manager × Bool
start_deployment m id c nodes = if is_busy m m.active_deployment then (m, false) else (
  record (store m id (begin_deployment c nodes m.traffic_split)) { active_deployment = some id },
  true,
)

abbrev pub on_deployment :
    (Deployment → TrafficSplit → Deployment × TrafficSplit)
    → Manager
    → ℕ
    → Option Deployment
    → Manager
on_deployment f m id none = m
on_deployment f m id (some d) = store m id (f d m.traffic_split)

pub data Event : Type 0 where
  starts : ℕ → DeploymentConfig → List ℕ → Event
  goes_on : ℕ → Answer → Event
  cancels : ℕ → Event
  rolls_back : ℕ → Event

unfoldable pub step : Manager → Event → Manager
step m (starts id c nodes) = (start_deployment m id c nodes).0
step m (goes_on id a) = on_deployment (λ d t. advance d t a) m id (get id m.deployments)
step m (cancels id) = on_deployment cancel m id (get id m.deployments)
step m (rolls_back id) = on_deployment rollback m id (get id m.deployments)

unfoldable pub run : Manager → List Event → Manager
run m [] = m
run m (e ∷ es) = run (step m e) es
