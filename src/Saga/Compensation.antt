-- ===== src/Saga/Compensation.antt =====
-- What the handling of a failed step does (packages/saga/src/saga-orchestrator.ts,
-- `handleStepFailure`).
use mathlib.Core.List.{append_assoc, append-nil}
use edge_cloud_orchestrator.Prelude.{
  ℕ, zero, suc, ◌≤◌, ◌<◌, ◌≡◌, ◌≢◌, inl, inr, List, [], ◌∷◌, ◌++◌, Option, some, length, get_elem?,
  if◌then◌else◌, refl, sym, ap, ◌∙◌, arith, Option-cases, Bool-cases, lt→ltb,
}
use edge_cloud_orchestrator.Saga.{
  Context, SagaStepDefinition, SagaStatus, StepStatus, SagaStep, SagaInstance, Store, Call,
  compensates, update_step, compensation, compensate_step, compensate_loop, is_completed,
  failed_count, close_compensation, handle_step_failure, with_step, with_saga, with_call,
}

pub get_elem?-update_step_self :
    (i : ℕ) (f : SagaStep → SagaStep) (ss : List SagaStep) (s : SagaStep)
    → get_elem? ss i ≡ some s
    → get_elem? (update_step i f ss) i ≡ some (f s)
unfolding update_step
get_elem?-update_step_self i f [] s g = cc
get_elem?-update_step_self zero f (x ∷ ss) s g = cc
get_elem?-update_step_self (suc i) f (x ∷ ss) s g = get_elem?-update_step_self i f ss s g

pub get_elem?-update_step_ne :
    (i j : ℕ) (f : SagaStep → SagaStep) (ss : List SagaStep)
    → i ≢ j
    → get_elem? (update_step i f ss) j ≡ get_elem? ss j
unfolding update_step
get_elem?-update_step_ne i j f [] n = refl
get_elem?-update_step_ne zero zero f (s ∷ ss) n = absurd (n refl)
get_elem?-update_step_ne zero (suc j) f (s ∷ ss) n = refl
get_elem?-update_step_ne (suc i) zero f (s ∷ ss) n = refl
get_elem?-update_step_ne (suc i) (suc j) f (s ∷ ss) n =
    get_elem?-update_step_ne i j f ss (λ e. n (ap suc e))

pub length-update_step :
    (i : ℕ) (f : SagaStep → SagaStep) (ss : List SagaStep) → length (update_step i f ss) ≡ length ss
unfolding update_step
length-update_step i f [] = refl
length-update_step zero f (s ∷ ss) = refl
length-update_step (suc i) f (s ∷ ss) = ap suc (length-update_step i f ss)

failed_count-pos :
    (ss : List SagaStep) (i : ℕ) (s : SagaStep)
    → get_elem? ss i ≡ some s
    → s.status ≡ StepStatus.failed
    → 0 < failed_count ss
unfolding failed_count
failed_count-pos [] i s g f = cc
failed_count-pos (x ∷ ss) zero s g f = ground arith
failed_count-pos (x ∷ ss) (suc i) s g f = omega (arith, failed_count-pos ss i s g f)

-- What one round of the compensation loop leaves alone.
record Leaves (i : ℕ) (st st' : Store) : Type 0 where
  saga : st'.saga ≡ st.saga
  above : (j : ℕ) → i ≤ j → get_elem? st'.steps j ≡ get_elem? st.steps j

compensate_step-Leaves :
    (d : Option SagaStepDefinition) (context : Context) (i : ℕ) (st : Store)
    → Leaves (suc i) st (compensate_step d context i st)
      × ((compensate_step d context i st).calls ≡ st.calls ++ compensates i ∷ [])
unfolding compensate_step
compensate_step-Leaves d context i st = elim (Option-cases (compensation d context i)) [
  | inl e ↦
      rw (e, compensate_step) (updated (λ s. record s { status = StepStatus.compensated }), refl)
  | inr (x, e) ↦
      rw (e, compensate_step)
        (updated (λ s. record s { status = StepStatus.failed; error = some x }), refl)
]
  where
    updated :
        (f : SagaStep → SagaStep) → Leaves (suc i) st (with_step i f (with_call (compensates i) st))
    updated f = record {
      saga = refl;
      above = λ j h. get_elem?-update_step_ne i j f st.steps (λ e. absurd (omega arith));
    }

-- The calls of the compensation loop: of the steps below i that were completed, the last one first.
abbrev pub compensation_calls : List SagaStep → ℕ → List Call
compensation_calls seen zero = []
compensation_calls seen (suc i) =
    (if is_completed (get_elem? seen i) then compensates i ∷ [] else [])
    ++ compensation_calls seen i

compensate_loop-Leaves :
    (defs : List SagaStepDefinition) (seen : List SagaStep) (i : ℕ) (context : Context) (st : Store)
    → Leaves i st (compensate_loop defs seen i context st)
      × ((compensate_loop defs seen i context st).calls ≡ st.calls ++ compensation_calls seen i)
unfolding compensate_loop
compensate_loop-Leaves defs seen zero context st =
    (record { saga = refl; above = λ j h. refl }, sym (append-nil st.calls))
compensate_loop-Leaves defs seen (suc i) context st =
    elim (Bool-cases (is_completed (get_elem? seen i))) [
      | inr n ↦
          let ih = compensate_loop-Leaves defs seen i context st in
          rw (n, compensate_loop)
            (record { saga = ih.0.saga; above = λ j h. ih.0.above j (omega arith) }, ih.1)
      | inl y ↦
          let st' : Store = compensate_step (get_elem? defs i) context i st in
          let c = compensate_step-Leaves (get_elem? defs i) context i st in
          let ih = compensate_loop-Leaves defs seen i context st' in
          rw (y, compensate_loop)
            (
              record {
                saga = ih.0.saga ∙ c.0.saga;
                above = λ j h. ih.0.above j (omega arith) ∙ c.0.above j h;
              },
              ih.1
                  ∙ ap (λ (xs : List Call). xs ++ compensation_calls seen i) c.1
                  ∙ append_assoc st.calls (compensates i ∷ []) _,
            )
    ]

-- A saga whose step i fails ends as failed, with that step's error, even where every compensation
-- succeeds: the failed step itself is counted among the failed compensations. The completed steps
-- before it, and no others, are compensated, the last one first.
pub handle_step_failure_lem :
    (defs : List SagaStepDefinition) (i : ℕ) (context : Context) (e : ℕ) (st : Store) (s : SagaStep)
    → get_elem? st.steps i ≡ some s
    → let st' = handle_step_failure defs i context e st in
      (st'.saga.status ≡ SagaStatus.failed)
      × (st'.saga.error ≡ some e)
      × (st'.calls ≡ st.calls ++ compensation_calls st.steps i)
unfolding handle_step_failure close_compensation
handle_step_failure_lem defs i context e st s g =
    let st1 : Store =
      with_saga (λ s. record s { status = SagaStatus.compensating; error = some e }) st in
    let st2 : Store =
      with_step i (λ s. record s { status = StepStatus.failed; error = some e }) st1 in
    let c = compensate_loop-Leaves defs st.steps i context st2 in
    let st3 : Store = compensate_loop defs st.steps i context st2 in
    let k : 0 < failed_count st3.steps =
      failed_count-pos st3.steps i (record s { status = StepStatus.failed; error = some e })
        (c.0.above i (omega arith) ∙ get_elem?-update_step_self i _ st.steps s g) refl in
    (rw (lt→ltb _ _ k), ap (λ (x : SagaInstance). x.error) c.0.saga, c.1)
