-- ===== src/Deployment/Cancelled.antt =====
-- A deployment that is cancelled while it is carried out
-- (src/lib/deployment/BlueGreenDeploymentManager.ts).
use edge_cloud_orchestrator.Prelude.{
  ℕ, suc, zero, ◌≡◌, refl, sym, ap, ◌∙◌, ◌⊎◌, inl, inr, Bool, true, false, List, [], ◌∷◌, ltb,
  if◌then◌else◌, if_cases,
}
use edge_cloud_orchestrator.Deployment.{
  Status, active, failed, validating, Phase, deploying_to, checking, monitoring, ended, Deployment,
  TrafficSplit, shift_traffic, rollback, fail_deployment, complete, after_health, check_next,
  deploy_next, deployed_to, count_healthy, monitor, go_on, advance, advances, cancel, can_cancel,
  Answer, yes, no, throws, catch, answer_with,
}

-- No traffic has been shifted to the slot yet.
abbrev pub IsBefore : Phase → Type 0
IsBefore (deploying_to ns) = Unit
IsBefore (checking ns) = Unit
IsBefore _ = true ≡ false

-- The traffic may differ until it is shifted.
abbrev MayDiffer : Phase → TrafficSplit → TrafficSplit → Type 0
MayDiffer (deploying_to ns) t u = Unit
MayDiffer (checking ns) t u = Unit
MayDiffer (monitoring k) t u = t ≡ u
MayDiffer ended t u = true ≡ false

abbrev HasFailed : Deployment → Type 0
HasFailed d = (d.phase ≡ ended) × (d.status ≡ failed)

-- Two executions that go on alike, of which the second may have been cancelled.
abbrev Alike : Deployment × TrafficSplit → Deployment × TrafficSplit → Type 0
Alike p q =
    (p ≡ q)
    ⊎ ((s : Status) × (q.0 ≡ record p.0 { status = s }) × MayDiffer p.0.phase p.1 q.1)
    ⊎ HasFailed p.0

both_branches {ℓ κ} :
    {A : Type ℓ} (R : A → A → Type κ) (b : Bool) (x y x' y' : A)
    → (b ≡ true → R x x')
    → (b ≡ false → R y y')
    → R (if b then x else y) (if b then x' else y')
both_branches R true x y x' y' h k = h refl
both_branches R false x y x' y' h k = k refl

fail_deployment-HasFailed : (d : Deployment) (t : TrafficSplit) → HasFailed (fail_deployment d t).0
unfolding fail_deployment rollback
fail_deployment-HasFailed d t =
    let f : Deployment = record d { status = failed; slot_failed = true; phase = ended } in
    if_cases (λ p. HasFailed p.0) d.config.rollback_on_failure (rollback f t) (f, t)
      (λ e. (refl, refl)) (λ e. (refl, refl))

after_health-Alike :
    (d : Deployment) (s : Status) (t u : TrafficSplit)
    → Alike (after_health d t) (after_health (record d { status = s }) u)
unfolding after_health complete
after_health-Alike d s t u =
    let other : Deployment = record d { status = s } in
    let v = shift_traffic d.target d.config.rollout_percentage in
    let rest = λ (x : Deployment).
      if d.config.rollback_on_failure
      then (record x { phase = monitoring 12 }, v)
      else complete x v in
    both_branches Alike (ltb d.nodes_healthy d.config.min_healthy_nodes) (fail_deployment d t)
      (rest d) (fail_deployment other u) (rest other)
      (λ e. inr (inr (fail_deployment-HasFailed d t)))
      (λ e.
        both_branches Alike d.config.rollback_on_failure (record d { phase = monitoring 12 }, v)
          (complete d v) (record other { phase = monitoring 12 }, v) (complete other v)
          (λ f. inr (inl (s, refl, refl))) (λ f. inl refl))

check_next-Alike :
    (ns : List ℕ) (d : Deployment) (s : Status) (t u : TrafficSplit)
    → Alike (check_next ns d t) (check_next ns (record d { status = s }) u)
check_next-Alike [] d s t u = after_health-Alike d s t u
check_next-Alike (n ∷ ns) d s t u = inr (inl (s, refl, _))

deploy_next-Alike :
    (ns : List ℕ) (d : Deployment) (s : Status) (t u : TrafficSplit)
    → Alike (deploy_next ns d t) (deploy_next ns (record d { status = s }) u)
deploy_next-Alike [] d s t u =
    check_next-Alike d.slot_nodes (record d { status = validating }) validating t u
deploy_next-Alike (n ∷ ns) d s t u = inr (inl (s, refl, _))

monitor-Alike :
    (k : ℕ) (ok : Bool) (d : Deployment) (s : Status) (t : TrafficSplit)
    → Alike (monitor k ok d t) (monitor k ok (record d { status = s }) t)
unfolding complete
monitor-Alike k false d s t =
    inr (inr (fail_deployment-HasFailed (rollback d t).0 (rollback d t).1))
monitor-Alike zero true d s t = inl refl
monitor-Alike (suc k) true d s t = inr (inl (s, refl, refl))

answer_with-Alike :
    (p : Phase) (ok : Bool) (d : Deployment) (s : Status) (t u : TrafficSplit)
    → MayDiffer p t u
    → d.phase ≡ p
    → Alike (answer_with p ok d t) (answer_with p ok (record d { status = s }) u)
answer_with-Alike (deploying_to []) ok d s t u m e = inr (inl (s, refl, rw e _))
answer_with-Alike (deploying_to (n ∷ ns)) true d s t u m e =
    deploy_next-Alike ns (deployed_to n true d) s t u
answer_with-Alike (deploying_to (n ∷ ns)) false d s t u m e =
    deploy_next-Alike ns (deployed_to n false d) s t u
answer_with-Alike (checking []) ok d s t u m e = inr (inl (s, refl, rw e _))
answer_with-Alike (checking (n ∷ ns)) true d s t u m e =
    check_next-Alike ns (count_healthy true d) s t u
answer_with-Alike (checking (n ∷ ns)) false d s t u m e = check_next-Alike ns d s t u
answer_with-Alike (monitoring zero) ok d s t u m e = inr (inl (s, refl, rw e m))
answer_with-Alike (monitoring (suc k)) ok d s t u m e = rw (← m) (monitor-Alike k ok d s t)
answer_with-Alike ended ok d s t u m e = absurd (cc)

catch-Alike :
    (p : Phase) (d : Deployment) (s : Status) (t u : TrafficSplit)
    → MayDiffer p t u
    → Alike (catch p d t) (catch p (record d { status = s }) u)
catch-Alike ended d s t u m = absurd (cc)
catch-Alike (deploying_to ns) d s t u m = inr (inr (fail_deployment-HasFailed d t))
catch-Alike (checking ns) d s t u m = inr (inr (fail_deployment-HasFailed d t))
catch-Alike (monitoring k) d s t u m = inr (inr (fail_deployment-HasFailed d t))

go_on-Alike :
    (p : Phase) (a : Answer) (d : Deployment) (s : Status) (t u : TrafficSplit)
    → MayDiffer p t u
    → d.phase ≡ p
    → Alike (go_on p a d t) (go_on p a (record d { status = s }) u)
go_on-Alike p yes d s t u m e = answer_with-Alike p true d s t u m e
go_on-Alike p no d s t u m e = answer_with-Alike p false d s t u m e
go_on-Alike p throws d s t u m e = catch-Alike p d s t u m

go_on_ended : (a : Answer) (d : Deployment) (t : TrafficSplit) → go_on ended a d t ≡ (d, t)
go_on_ended yes d t = refl
go_on_ended no d t = refl
go_on_ended throws d t = refl

failed_ended :
    (oks : List Answer) (d : Deployment) (t : TrafficSplit)
    → HasFailed d
    → (advances d t oks).0.status ≡ failed
unfolding advances advance
failed_ended [] d t (e, f) = f
failed_ended (ok ∷ oks) d t (e, f) =
    let same : go_on d.phase ok d t ≡ (d, t) = ap (λ p. go_on p ok d t) e ∙ go_on_ended ok d t in
    ap (λ x. (advances x.0 x.1 oks).0.status) same ∙ failed_ended oks d t (e, f)

advances-Alike :
    (oks : List Answer) (d e : Deployment) (t u : TrafficSplit)
    → Alike (d, t) (e, u)
    → (advances d t oks).0.phase ≡ ended
    → (advances d t oks).0.status ≡ active
    → advances e u oks ≡ advances d t oks
unfolding advances advance
advances-Alike oks d e t u (inl r) p a = ap (λ x. advances x.0 x.1 oks) (sym r)
advances-Alike oks d e t u (inr (inr f)) p a = let ends = failed_ended oks d t f in absurd (cc)
advances-Alike [] d e t u (inr (inl (s, r, m))) p a =
    let differ : true ≡ false = rw p at m in absurd (cc)
advances-Alike (ok ∷ oks) d e t u (inr (inl (s, r, m))) p a =
    let first = go_on d.phase ok d t in
    let second = go_on d.phase ok (record d { status = s }) u in
    let alike = go_on-Alike d.phase ok d s t u m refl in
    ap (λ x. advances x u (ok ∷ oks)) r
    ∙ advances-Alike oks first.0 second.0 first.1 second.1 alike p a

before-MayDiffer : (p : Phase) (t u : TrafficSplit) → IsBefore p → MayDiffer p t u
before-MayDiffer (deploying_to ns) t u b = _
before-MayDiffer (checking ns) t u b = _
before-MayDiffer (monitoring k) t u b = absurd (cc)
before-MayDiffer ended t u b = b

cancel-Alike : (d : Deployment) (t : TrafficSplit) → IsBefore d.phase → Alike (d, t) (cancel d t)
unfolding cancel rollback
cancel-Alike d t b =
    let u = shift_traffic d.active_slot 100 in
    if_cases (Alike (d, t)) (can_cancel d.status) (rollback d t) (d, t)
      (λ e. inr (inl (failed, refl, before-MayDiffer d.phase t u b))) (λ e. inl refl)

-- Cancelling a deployment whose traffic has not been shifted yet is lost: whatever its execution meets,
-- where it would have become active without having been cancelled, it becomes active just the same, and
-- the traffic is shifted to its slot.
pub cancel_lost :
    (d : Deployment) (t : TrafficSplit) (oks : List Answer)
    → IsBefore d.phase
    → (advances d t oks).0.phase ≡ ended
    → (advances d t oks).0.status ≡ active
    → advances (cancel d t).0 (cancel d t).1 oks ≡ advances d t oks
cancel_lost d t oks b p a =
    let c = cancel d t in advances-Alike oks d c.0 t c.1 (cancel-Alike d t b) p a
