-- ===== src/Saga/Execution.antt =====
-- A run of a saga from a stored position to its end (packages/saga/src/saga-orchestrator.ts,
-- `startSaga` and `executeSaga`).
use mathlib.Core.List.{append_assoc, append-nil}
use native.Mathlib.Decide.{ℕ_discrete}
use edge_cloud_orchestrator.Prelude.{
  ℕ, zero, suc, ◌+◌, ◌≤◌, ◌<◌, ◌≡◌, ◌⊎◌, inl, inr, true, List, [], ◌∷◌, ◌++◌, Option, none, some,
  length, get_elem?, drop, refl, sym, ap, ◌∙◌, arith,
}
use edge_cloud_orchestrator.Saga.{
  Context, StepOutcome, fulfilled, rejected, SagaStepDefinition, SagaStatus, StepStatus, SagaStep,
  Store, Call, executes, compensates, update_step, create_steps, start_saga, merge, is_completed,
  execute_steps, execute_saga, with_step, with_saga, with_call,
}
use edge_cloud_orchestrator.Saga.Compensation.{
  get_elem?-update_step_self, get_elem?-update_step_ne, compensation_calls, handle_step_failure_lem,
}

-- The error of the first step that fails, if one does.
pub first_error : List SagaStepDefinition → ℕ → Context → Option ℕ
first_error [] i context = none
first_error (d ∷ ds) i context = elim (d.execute context i) [
  | rejected e ↦ some e
  | fulfilled result ↦ first_error ds (suc i) (merge context result)
]

-- Compensations of all steps below i, the last one first.
abbrev pub compensates_below : ℕ → List Call
compensates_below zero = []
compensates_below (suc i) = compensates i ∷ compensates_below i

-- The calls of a run: the steps in order up to the first that fails, and then the compensations of
-- all steps before that one, the last one first.
pub expected_calls : List SagaStepDefinition → ℕ → Context → List Call
expected_calls [] i context = []
expected_calls (d ∷ ds) i context = executes i ∷ elim (d.execute context i) [
  | rejected e ↦ compensates_below i
  | fulfilled result ↦ expected_calls ds (suc i) (merge context result)
]

-- The steps below k are completed, and there are n of them in all.
abbrev pub IsDoneBelow : ℕ → ℕ → List SagaStep → Type 0
IsDoneBelow k n ss =
    (j : ℕ)
    → j < n
    → (s : SagaStep) × (get_elem? ss j ≡ some s) × (j < k → s.status ≡ StepStatus.completed)

completed_seen : (s : SagaStep) → s.status ≡ StepStatus.completed → is_completed (some s) ≡ true
completed_seen s h = ground arith

compensation_calls_done :
    (k n i : ℕ) (ss : List SagaStep)
    → IsDoneBelow k n ss
    → i ≤ k
    → k ≤ n
    → compensation_calls ss i ≡ compensates_below i
compensation_calls_done k n zero ss d h l = refl
compensation_calls_done k n (suc i) ss d h l =
    let (s, g, c) = d i (omega arith) in
    rw (g, completed_seen s (c (omega arith)))
      (ap (λ (xs : List Call). compensates i ∷ xs)
        (compensation_calls_done k n i ss d (omega arith) l))

-- Work on step i itself keeps what is done below it.
IsDoneBelow-update :
    (i n : ℕ) (f : SagaStep → SagaStep) (ss : List SagaStep)
    → IsDoneBelow i n ss
    → IsDoneBelow i n (update_step i f ss)
IsDoneBelow-update i n f ss d j h =
    let (s, g, c) = d j h in
    elim (ℕ_discrete i j) [
      | yes e ↦
          (f s, rw (← e) (get_elem?-update_step_self i f ss s (rw e g)), λ b. absurd (omega arith))
      | no e ↦ (s, get_elem?-update_step_ne i j f ss e ∙ g, c)
    ]

IsDoneBelow-complete :
    (i n : ℕ) (f : SagaStep → SagaStep) (ss : List SagaStep)
    → ((s : SagaStep) → (f s).status ≡ StepStatus.completed)
    → IsDoneBelow i n ss
    → IsDoneBelow (suc i) n (update_step i f ss)
IsDoneBelow-complete i n f ss k d j h =
    let (s, g, c) = d j h in
    elim (ℕ_discrete i j) [
      | yes e ↦ (f s, rw (← e) (get_elem?-update_step_self i f ss s (rw e g)), λ b. k s)
      | no e ↦ (s, get_elem?-update_step_ne i j f ss e ∙ g, λ b. c (omega arith))
    ]

-- How the rows of a saga of n steps end, given the error of the first step that failed, if one did.
abbrev pub EndsBy : ℕ → Option ℕ → Store → Type 0
EndsBy n none st = (st.saga.status ≡ SagaStatus.completed) × IsDoneBelow n n st.steps
EndsBy n (some e) st = (st.saga.status ≡ SagaStatus.failed) × (st.saga.error ≡ some e)

-- How a run of the steps from i on, of n in all, ends.
pub record RunsTo (n : ℕ) (ds : List SagaStepDefinition) (i : ℕ) (context : Context)
    (st st' : Store) : Type 0 where
  pub made : st'.calls ≡ st.calls ++ expected_calls ds i context
  pub ends : EndsBy n (first_error ds i context) st'

abbrev begin_step : ℕ → Store → Store
begin_step i st =
    with_call (executes i) (with_step i (λ s. record s { status = StepStatus.in_progress }) st)

abbrev end_step : ℕ → Context → Context → Store → Store
end_step i result context st =
    with_saga (λ s. record s { current_step = i + 1; context = context })
      (with_step i (λ s. record s { status = StepStatus.completed; output = some result }) st)

RunsTo-rejected :
    (n : ℕ) (defs : List SagaStepDefinition) (d : SagaStepDefinition) (ds : List SagaStepDefinition)
    (i : ℕ) (context : Context) (st : Store) (e : ℕ)
    → i < n
    → IsDoneBelow i n st.steps
    → d.execute context i ≡ rejected e
    → RunsTo n (d ∷ ds) i context st (execute_steps defs (d ∷ ds) i context st)
unfolding execute_steps first_error expected_calls
RunsTo-rejected n defs d ds i context st e l done q =
    let st1 : Store = begin_step i st in
    let done1 : IsDoneBelow i n st1.steps = IsDoneBelow-update i n _ st.steps done in
    let (s, g, c) = done1 i l in
    let h = handle_step_failure_lem defs i context e st1 s g in
    record {
      made =
          rw (q, execute_steps, expected_calls)
            (h.2
              ∙ rw (compensation_calls_done i n i st1.steps done1 (omega arith) (omega arith))
                  (append_assoc st.calls (executes i ∷ []) (compensates_below i)));
      ends = rw (q, first_error, execute_steps) (h.0, h.1);
    }

RunsTo-fulfilled :
    (n : ℕ) (defs : List SagaStepDefinition) (d : SagaStepDefinition) (ds : List SagaStepDefinition)
    (i : ℕ) (context result : Context) (st : Store)
    → d.execute context i ≡ fulfilled result
    → RunsTo n ds
        (suc i)
        (merge context result)
        (end_step i result (merge context result) (begin_step i st))
        (execute_steps defs ds
          (suc i)
          (merge context result)
          (end_step i result (merge context result) (begin_step i st)))
    → RunsTo n (d ∷ ds) i context st (execute_steps defs (d ∷ ds) i context st)
unfolding execute_steps first_error expected_calls
RunsTo-fulfilled n defs d ds i context result st q ih = record {
  made =
      rw (q, execute_steps, expected_calls) (ih.made ∙ append_assoc st.calls (executes i ∷ []) _);
  ends = rw (q, first_error, execute_steps) ih.ends;
}

StepOutcome-cases :
    (o : StepOutcome) → ((e : ℕ) × (o ≡ rejected e)) ⊎ ((r : Context) × (o ≡ fulfilled r))
StepOutcome-cases (fulfilled r) = inr (r, refl)
StepOutcome-cases (rejected e) = inl (e, refl)

execute_steps-RunsTo :
    (n : ℕ) (defs ds : List SagaStepDefinition) (i : ℕ) (context : Context) (st : Store)
    → i + length ds ≡ n
    → IsDoneBelow i n st.steps
    → RunsTo n ds i context st (execute_steps defs ds i context st)
unfolding execute_steps first_error expected_calls
execute_steps-RunsTo n defs [] i context st l d = record {
  made = sym (append-nil st.calls);
  ends = (refl, let z : i ≡ n = omega arith in rw z at d);
}
execute_steps-RunsTo n defs (d ∷ ds) i context st l done =
    elim (StepOutcome-cases (d.execute context i)) [
      | inl (e, q) ↦ RunsTo-rejected n defs d ds i context st e (omega arith) done q
      | inr (r, q) ↦ RunsTo-fulfilled n defs d ds i context r st q (
          execute_steps-RunsTo n defs ds (suc i) (merge context r)
            (end_step i r (merge context r) (begin_step i st)) (omega arith)
            (IsDoneBelow-complete i n _ _ (λ s. refl) (IsDoneBelow-update i n _ st.steps done)))
    ]

-- The rows of a saga whose steps below the current one are completed.
pub record IsResumable (defs : List SagaStepDefinition) (st : Store) : Type 0 where
  pub in_range : st.saga.current_step ≤ length defs
  pub done : IsDoneBelow st.saga.current_step (length defs) st.steps

length-drop {ℓ} :
    {A : Type ℓ} (n : ℕ) (xs : List A) → n ≤ length xs → n + length (drop n xs) ≡ length xs
length-drop zero xs h = omega arith
length-drop (suc n) [] h = elim h [ ]
length-drop (suc n) (x ∷ xs) h = omega (arith, length-drop n xs)

-- A saga that is executed from any stored position, all steps before it completed, calls the
-- remaining steps in order up to the first that fails, and then compensates all steps before that
-- one, the last one first. It ends as completed, with every step completed, if none fails; if one
-- does, it ends as failed, with that step's error, however the compensations go.
pub execute_saga-RunsTo :
    (defs : List SagaStepDefinition) (st : Store)
    → IsResumable defs st
    → RunsTo
        (length defs)
        (drop st.saga.current_step defs)
        st.saga.current_step
        st.saga.context
        st
        (execute_saga defs st)
unfolding execute_saga
execute_saga-RunsTo defs st r =
    let x =
      execute_steps-RunsTo (length defs) defs (drop st.saga.current_step defs) st.saga.current_step
        st.saga.context (with_saga (λ s. record s { status = SagaStatus.in_progress }) st)
        (length-drop st.saga.current_step defs r.in_range) r.done in
    record { made = x.made; ends = x.ends }

create_steps-IsDoneBelow :
    (defs : List SagaStepDefinition) (i : ℕ) (context : Context)
    → IsDoneBelow 0 (length defs) (create_steps defs i context)
unfolding create_steps
create_steps-IsDoneBelow [] i context j h = elim h [ ]
create_steps-IsDoneBelow (d ∷ ds) i context zero h = (_, refl, λ b. absurd (omega arith))
create_steps-IsDoneBelow (d ∷ ds) i context (suc j) h =
    let (s, g, c) = create_steps-IsDoneBelow ds (suc i) context j (omega arith) in
    (s, g, λ b. absurd (omega arith))

pub start_saga-IsResumable :
    (saga_type correlation_id : ℕ) (defs : List SagaStepDefinition) (context : Context)
    → IsResumable defs (start_saga saga_type defs correlation_id context)
unfolding start_saga
start_saga-IsResumable saga_type correlation_id defs context = record {
  in_range = omega arith;
  done = create_steps-IsDoneBelow defs 0 context;
}
