-- ===== src/Deployment/Outcomes.antt =====
-- How a deployment ends that nothing else interferes with
-- (src/lib/deployment/BlueGreenDeploymentManager.ts).
use edge_cloud_orchestrator.Prelude.{
  ℕ, suc, ◌+◌, ◌*◌, ◌≤◌, ◌≡◌, refl, ◌⊎◌, inl, inr, true, false, List, leb, if◌then◌else◌, length,
  arith, if_cases, [], ◌∷◌,
}
use edge_cloud_orchestrator.Deployment.{
  Slot, blue, green, other, active, failed, DeploymentConfig, ended, Deployment, TrafficSplit,
  shift_traffic, percent, fail_deployment, rollback, advances, begin_deployment, Answer,
}
use edge_cloud_orchestrator.Deployment.Traffic.{IsWhole}
use edge_cloud_orchestrator.Deployment.Counts.{count_yes, advances-Counts}
use edge_cloud_orchestrator.Deployment.Waits.{IsResult, advances-IsResult}

-- The percentage of the traffic that goes to a slot.
abbrev pub share : Slot → TrafficSplit → ℕ
share blue t = t.blue_percentage
share green t = t.green_percentage

-- So many percent are asked for and so many given: at 29, 57 and 58 one is missing.
abbrev pub IsGiven : ℕ → ℕ → Type 0
IsGiven asked given =
    (given ≡ asked) ⊎ ((suc given ≡ asked) × ((asked ≡ 29) ⊎ ((asked ≡ 57) ⊎ (asked ≡ 58))))

-- How a deployment to a slot has ended.
abbrev pub IsOutcome : Slot → DeploymentConfig → TrafficSplit → Deployment → TrafficSplit → Type 0
IsOutcome s c t d u =
    ((d.status ≡ active)
      × (c.min_healthy_nodes ≤ d.nodes_healthy)
      × IsGiven c.rollout_percentage (share s u)
      × (share s u + share (other s) u ≡ 100))
    ⊎ ((d.status ≡ failed)
        × (c.rollback_on_failure ≡ true → (share s u ≡ 0) × (share (other s) u ≡ 100))
        × (c.rollback_on_failure ≡ false → u ≡ t))

percent-IsGiven : (p : ℕ) → p ≤ 100 → IsGiven p (percent p) × (percent p ≤ 100)
percent-IsGiven p h = ground arith

shift_traffic-share :
    (s : Slot) (p : ℕ)
    → p ≤ 100
    → IsGiven p (share s (shift_traffic s p))
      × (share s (shift_traffic s p) + share (other s) (shift_traffic s p) ≡ 100)
unfolding shift_traffic
shift_traffic-share blue p h = let (g, l) = percent-IsGiven p h in (g, omega (arith, l))
shift_traffic-share green p h = let (g, l) = percent-IsGiven p h in (g, omega (arith, l))

shift_traffic_back :
    (s : Slot)
    → (share s (shift_traffic (other s) 100) ≡ 0)
      × (share (other s) (shift_traffic (other s) 100) ≡ 100)
unfolding shift_traffic
shift_traffic_back blue = (refl, refl)
shift_traffic_back green = (refl, refl)

IsResult-IsOutcome :
    (c : DeploymentConfig) (t : TrafficSplit) (d : Deployment) (u : TrafficSplit) (s : Slot)
    → d.target ≡ s
    → c.rollout_percentage ≤ 100
    → IsResult c t d u
    → IsOutcome s c t d u
IsResult-IsOutcome c t d u s same h (inl (a, e, v)) =
    let (g, w) = shift_traffic-share d.target c.rollout_percentage h in
    rw (← same) (inl (a, e, rw v g, rw v w))
IsResult-IsOutcome c t d u s same h (inr (f, r, k)) =
    rw (← same) (inr (f, (λ e. rw (r e) (shift_traffic_back d.target)), k))

begin_target :
    (t : TrafficSplit) → IsWhole t → share (if leb 50 t.blue_percentage then green else blue) t ≤ 50
begin_target t w =
    if_cases (λ s. share s t ≤ 50) (leb 50 t.blue_percentage) green blue (λ e. ground (arith, w))
      (λ e. ground arith)

begin_deployment-target :
    (c : DeploymentConfig) (nodes : List ℕ) (t : TrafficSplit)
    → IsWhole t
    → let d = (begin_deployment c nodes t).0 in
      (share d.target t ≤ 50) × (d.nodes_deployed + d.nodes_healthy ≡ 0)
unfolding begin_deployment fail_deployment rollback
begin_deployment-target c [] t w =
    if_cases {A = Deployment × TrafficSplit}
      (λ p. (share p.0.target t ≤ 50) × (p.0.nodes_deployed + p.0.nodes_healthy ≡ 0))
      c.rollback_on_failure _ _ (λ e. (begin_target t w, refl)) (λ e. (begin_target t w, refl))
begin_deployment-target c (n ∷ ns) t w = (begin_target t w, refl)

-- Where the traffic is divided between the two slots, none of it lost, and a deployment of at most all
-- of it begins, to a slot that has at most half of it, the deployment ends after at most two waits for
-- each node and twelve looks at the error rate, whatever these give or throw, if nothing else
-- interferes with it. It ends in one of two ways. It is active, on at least as many healthy nodes as
-- asked for, and its slot has the percentage of the traffic that the rollout asks for, or at 29, 57
-- and 58 percent one less, and the other slot has the rest; or it has failed, and with a rollback its
-- slot has no traffic and the other all of it, without one it is divided as before. No more nodes are
-- counted, as deployed to and as healthy together, than answers were good.
pub deployment_ends :
    (c : DeploymentConfig) (t : TrafficSplit) (nodes : List ℕ) (answers : List Answer)
    → c.rollout_percentage ≤ 100
    → IsWhole t
    → 2 * length nodes + 12 ≤ length answers
    → let b = begin_deployment c nodes t in
      let p = advances b.0 b.1 answers in
      (share b.0.target t ≤ 50)
      × (p.0.phase ≡ ended)
      × IsOutcome b.0.target c t p.0 p.1
      × (p.0.nodes_deployed + p.0.nodes_healthy ≤ count_yes answers)
deployment_ends c t nodes answers h w l =
    let b = begin_deployment c nodes t in
    let p = advances b.0 b.1 answers in
    let (most, nothing) = begin_deployment-target c nodes t w in
    let (e, r) = advances-IsResult c t nodes answers l in
    let (same, counted) = advances-Counts answers b.0 b.1 in
    (most, e, IsResult-IsOutcome c t p.0 p.1 b.0.target same h r, omega (arith, nothing, counted))
