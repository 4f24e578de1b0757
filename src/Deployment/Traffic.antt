-- ===== src/Deployment/Traffic.antt =====
-- The traffic is divided without rest (src/lib/deployment/BlueGreenDeploymentManager.ts).
use edge_cloud_orchestrator.Prelude.{
  ℕ, suc, zero, ◌+◌, ◌≤◌, ◌≡◌, Bool, true, false, List, [], ◌∷◌, some, ltb, if◌then◌else◌, All,
  arith, inl, inr, if_cases, Option-cases,
}
use edge_cloud_orchestrator.Prelude.Dict.{get, put-All, get-All}
use edge_cloud_orchestrator.Deployment.{
  Slot, blue, green, failed, validating, DeploymentConfig, Phase, deploying_to, checking,
  monitoring, ended, Deployment, TrafficSplit, shift_traffic, rollback, fail_deployment, complete,
  after_health, check_next, deploy_next, deployed_to, count_healthy, go_on, advance,
  begin_deployment, cancel, can_cancel, Manager, new_manager, store, is_busy, start_deployment,
  on_deployment, Event, starts, goes_on, cancels, rolls_back, step, run, Answer, yes, no, throws,
  catch, answer_with,
}

-- All the traffic goes to one slot or the other.
abbrev pub IsWhole : TrafficSplit → Type 0
IsWhole t = t.blue_percentage + t.green_percentage ≡ 100

abbrev IsRollout : Deployment → Type 0
IsRollout d = d.config.rollout_percentage ≤ 100

-- What every step keeps.
abbrev IsGood : Deployment × TrafficSplit → Type 0
IsGood p = IsRollout p.0 × IsWhole p.1

shift_traffic-IsWhole : (s : Slot) (p : ℕ) → p ≤ 100 → IsWhole (shift_traffic s p)
unfolding shift_traffic
shift_traffic-IsWhole blue p h = ground arith
shift_traffic-IsWhole green p h = ground arith

rollback-IsGood : (d : Deployment) (t : TrafficSplit) → IsGood (d, t) → IsGood (rollback d t)
unfolding rollback
rollback-IsGood d t (r, w) = (r, shift_traffic-IsWhole d.active_slot 100 (omega arith))

fail_deployment-IsGood :
    (d : Deployment) (t : TrafficSplit) → IsGood (d, t) → IsGood (fail_deployment d t)
unfolding fail_deployment
fail_deployment-IsGood d t h =
    let f : Deployment = record d { status = failed; slot_failed = true; phase = ended } in
    if_cases IsGood d.config.rollback_on_failure (rollback f t) (f, t) (λ e. rollback-IsGood f t h)
      (λ e. h)

after_health-IsGood :
    (d : Deployment) (t : TrafficSplit) → IsGood (d, t) → IsGood (after_health d t)
unfolding after_health complete
after_health-IsGood d t (r, w) =
    let u = shift_traffic d.target d.config.rollout_percentage in
    let moved = shift_traffic-IsWhole d.target d.config.rollout_percentage r in
    if_cases IsGood (ltb d.nodes_healthy d.config.min_healthy_nodes) (fail_deployment d t)
      (if d.config.rollback_on_failure
        then (record d { phase = monitoring 12 }, u)
        else complete d u)
      (λ e. fail_deployment-IsGood d t (r, w))
      (λ e.
        if_cases IsGood d.config.rollback_on_failure (record d { phase = monitoring 12 }, u)
          (complete d u) (λ f. (r, moved)) (λ f. (r, moved)))

check_next-IsGood :
    (ns : List ℕ) (d : Deployment) (t : TrafficSplit) → IsGood (d, t) → IsGood (check_next ns d t)
check_next-IsGood [] d t h = after_health-IsGood d t h
check_next-IsGood (n ∷ ns) d t h = h

deploy_next-IsGood :
    (ns : List ℕ) (d : Deployment) (t : TrafficSplit) → IsGood (d, t) → IsGood (deploy_next ns d t)
deploy_next-IsGood [] d t h = check_next-IsGood d.slot_nodes (record d { status = validating }) t h
deploy_next-IsGood (n ∷ ns) d t h = h

answer_with-IsGood :
    (p : Phase) (ok : Bool) (d : Deployment) (t : TrafficSplit)
    → IsGood (d, t)
    → IsGood (answer_with p ok d t)
unfolding rollback complete
answer_with-IsGood (deploying_to []) ok d t h = h
answer_with-IsGood (deploying_to (n ∷ ns)) true d t h =
    deploy_next-IsGood ns (deployed_to n true d) t h
answer_with-IsGood (deploying_to (n ∷ ns)) false d t h =
    deploy_next-IsGood ns (deployed_to n false d) t h
answer_with-IsGood (checking []) ok d t h = h
answer_with-IsGood (checking (n ∷ ns)) true d t h = check_next-IsGood ns (count_healthy true d) t h
answer_with-IsGood (checking (n ∷ ns)) false d t h = check_next-IsGood ns d t h
answer_with-IsGood (monitoring zero) ok d t h = h
answer_with-IsGood (monitoring (suc k)) false d t h =
    fail_deployment-IsGood (rollback d t).0 (rollback d t).1 (rollback-IsGood d t h)
answer_with-IsGood (monitoring (suc zero)) true d t h = h
answer_with-IsGood (monitoring (suc (suc k))) true d t h = h
answer_with-IsGood ended ok d t h = h

catch-IsGood :
    (p : Phase) (d : Deployment) (t : TrafficSplit) → IsGood (d, t) → IsGood (catch p d t)
catch-IsGood ended d t h = h
catch-IsGood (deploying_to ns) d t h = fail_deployment-IsGood d t h
catch-IsGood (checking ns) d t h = fail_deployment-IsGood d t h
catch-IsGood (monitoring k) d t h = fail_deployment-IsGood d t h

go_on-IsGood :
    (p : Phase) (a : Answer) (d : Deployment) (t : TrafficSplit)
    → IsGood (d, t)
    → IsGood (go_on p a d t)
go_on-IsGood p yes d t h = answer_with-IsGood p true d t h
go_on-IsGood p no d t h = answer_with-IsGood p false d t h
go_on-IsGood p throws d t h = catch-IsGood p d t h

begin_deployment-IsGood :
    (c : DeploymentConfig) (ns : List ℕ) (t : TrafficSplit)
    → c.rollout_percentage ≤ 100
    → IsWhole t
    → IsGood (begin_deployment c ns t)
unfolding begin_deployment
begin_deployment-IsGood c [] t r w = fail_deployment-IsGood _ t (r, w)
begin_deployment-IsGood c (n ∷ ns) t r w = (r, w)

cancel-IsGood : (d : Deployment) (t : TrafficSplit) → IsGood (d, t) → IsGood (cancel d t)
unfolding cancel
cancel-IsGood d t h =
    if_cases IsGood (can_cancel d.status) (rollback d t) (d, t) (λ e. rollback-IsGood d t h)
      (λ e. h)

abbrev IsSound : Manager → Type 0
IsSound m = All (λ e. IsRollout e.1) m.deployments × IsWhole m.traffic_split

store-IsSound :
    (m : Manager) (id : ℕ) (p : Deployment × TrafficSplit)
    → IsSound m
    → IsGood p
    → IsSound (store m id p)
store-IsSound m id p (a, w) (r, v) = (put-All IsRollout id p.0 m.deployments r a, v)

on_deployment-IsSound :
    (f : Deployment → TrafficSplit → Deployment × TrafficSplit) (m : Manager) (id : ℕ)
    → ((d : Deployment) (t : TrafficSplit) → IsGood (d, t) → IsGood (f d t))
    → IsSound m
    → IsSound (on_deployment f m id (get id m.deployments))
on_deployment-IsSound f m id k (a, w) = elim (Option-cases (get id m.deployments)) [
  | inl e ↦ rw e (a, w)
  | inr (d, e) ↦
      let r = get-All IsRollout id d m.deployments a e in
      rw e (store-IsSound m id (f d m.traffic_split) (a, w) (k d m.traffic_split (r, w)))
]

-- Every rollout's percentage is a percentage.
abbrev pub IsAsked : Event → Type 0
IsAsked (starts id c ns) = c.rollout_percentage ≤ 100
IsAsked _ = Unit

step-IsSound : (m : Manager) (e : Event) → IsAsked e → IsSound m → IsSound (step m e)
unfolding step start_deployment advance
step-IsSound m (starts id c ns) a (h, w) =
    let begun = begin_deployment c ns m.traffic_split in
    let good = begin_deployment-IsGood c ns m.traffic_split a w in
    if_cases {A = Manager × Bool} (λ p. IsSound p.0) (is_busy m m.active_deployment) (m, false)
      (record (store m id begun) { active_deployment = some id }, true) (λ e. (h, w))
      (λ e. store-IsSound m id begun (h, w) good)
step-IsSound m (goes_on id ok) a h =
    on_deployment-IsSound (λ d t. advance d t ok) m id (λ d t. go_on-IsGood d.phase ok d t) h
step-IsSound m (cancels id) a h = on_deployment-IsSound cancel m id cancel-IsGood h
step-IsSound m (rolls_back id) a h = on_deployment-IsSound rollback m id rollback-IsGood h

run-IsSound : (m : Manager) (es : List Event) → All IsAsked es → IsSound m → IsSound (run m es)
unfolding run
run-IsSound m [] a h = h
run-IsSound m (e ∷ es) (a, bs) h = run-IsSound (step m e) es bs (step-IsSound m e a h)

-- Where no rollout asks for more than all the traffic, after any events the shares of the two slots
-- make up all the traffic, however deployments overlap, fail, are cancelled or rolled back.
run-new_manager-IsWhole :
    (es : List Event) → All IsAsked es → IsWhole (run new_manager es).traffic_split
run-new_manager-IsWhole es a = (run-IsSound new_manager es a (_, omega arith)).1
