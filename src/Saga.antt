-- ===== src/Saga.antt =====
-- packages/saga/src/saga-orchestrator.ts, the class `SagaOrchestrator`. The rows of one saga in the
-- database are a `Store`; a query that fails, and a process that dies between two queries, are left
-- out, but execution starts from any stored position, which is how recovery resumes. The functions
-- of a step belong to the program's user: each is a function from the context and the step's index
-- to what its promise settles to, a timeout being one of the rejections. The store also records the calls of
-- those functions in order. Ids, names, values and errors are numbers; times and events are left
-- out.
pub mod Execution
pub mod Compensation
mod Examples
use edge_cloud_orchestrator.Prelude.{
  ℕ, zero, suc, ◌+◌, Bool, true, false, List, [], ◌∷◌, ◌++◌, ◌||◌, Option, none, some, ltb, ◌==◌,
  length, get_elem?, take, drop, if◌then◌else◌,
}
use edge_cloud_orchestrator.Prelude.Dict.{get, put}

abbrev pub Context : Type 0
Context = List (ℕ × ℕ)

pub data StepOutcome : Type 0 where
  fulfilled : Context → StepOutcome
  rejected : ℕ → StepOutcome

-- `compensate` settles to no error or to one.
pub record SagaStepDefinition : Type 0 where
  pub name : ℕ
  pub execute : Context → ℕ → StepOutcome
  pub compensate : Context → ℕ → Option ℕ

pub data SagaStatus : Type 0 where
  started in_progress completed compensating compensated failed : SagaStatus

pub data StepStatus : Type 0 where
  pending in_progress completed failed compensated : StepStatus

pub record SagaStep : Type 0 where
  pub step_name : ℕ
  pub step_order : ℕ
  pub status : StepStatus
  pub input : Context
  pub output : Option Context
  pub error : Option ℕ

pub record SagaInstance : Type 0 where
  pub saga_type : ℕ
  pub correlation_id : ℕ
  pub status : SagaStatus
  pub current_step : ℕ
  pub total_steps : ℕ
  pub context : Context
  pub error : Option ℕ

-- A call of a user's function, with the step's index.
pub data Call : Type 0 where
  executes compensates : ℕ → Call

pub record Store : Type 0 where
  pub saga : SagaInstance
  pub steps : List SagaStep
  pub calls : List Call

-- `sagaStep.update`.
pub update_step : ℕ → (SagaStep → SagaStep) → List SagaStep → List SagaStep
update_step i f [] = []
update_step zero f (s ∷ ss) = f s ∷ ss
update_step (suc i) f (s ∷ ss) = s ∷ update_step i f ss

abbrev with_step : ℕ → (SagaStep → SagaStep) → Store → Store
with_step i f st = record st { steps = update_step i f st.steps }

abbrev with_saga : (SagaInstance → SagaInstance) → Store → Store
with_saga f st = record st { saga = f st.saga }

abbrev with_call : Call → Store → Store
with_call c st = record st { calls = st.calls ++ c ∷ [] }

-- `{ ...context, ...result }`.
pub merge : Context → Context → Context
merge context [] = context
merge context ((k, v) ∷ result) = merge (put k v context) result

pub create_steps : List SagaStepDefinition → ℕ → Context → List SagaStep
create_steps [] i context = []
create_steps (d ∷ ds) i context =
    record {
      step_name = d.name;
      step_order = i;
      status = pending;
      input = context;
      output = none;
      error = none;
    }
    ∷ create_steps ds (suc i) context

-- The rows that `startSaga` creates.
pub start_saga : ℕ → List SagaStepDefinition → ℕ → Context → Store
start_saga saga_type steps correlation_id context = record {
  saga = record {
    saga_type = saga_type;
    correlation_id = correlation_id;
    status = started;
    current_step = 0;
    total_steps = length steps;
    context = context;
    error = none;
  };
  steps = create_steps steps 0 context;
  calls = [];
}

abbrev is_completed : Option SagaStep → Bool
is_completed none = false
is_completed (some s) = elim s.status [ completed ↦ true | _ ↦ false ]

compensation : Option SagaStepDefinition → Context → ℕ → Option ℕ
compensation none context i = some 0
compensation (some d) context i = d.compensate context i

-- The body of the compensation loop for the completed step i.
pub compensate_step : Option SagaStepDefinition → Context → ℕ → Store → Store
compensate_step d context i st = elim (compensation d context i) [
  | none ↦ with_step i (λ s. record s { status = compensated }) (with_call (compensates i) st)
  | some e ↦
      with_step i (λ s. record s { status = failed; error = some e }) (with_call (compensates i) st)
]

-- The compensation loop, for the steps below the given index, the last one first. `seen` are the step rows read before it.
pub compensate_loop : List SagaStepDefinition → List SagaStep → ℕ → Context → Store → Store
compensate_loop defs seen zero context st = st
compensate_loop defs seen (suc i) context st = compensate_loop defs seen i context (
    if is_completed (get_elem? seen i) then compensate_step (get_elem? defs i) context i st else st)

abbrev is_failed : StepStatus → Bool
is_failed failed = true
is_failed _ = false

pub failed_count : List SagaStep → ℕ
failed_count [] = 0
failed_count (s ∷ ss) = (if is_failed s.status then 1 else 0) + failed_count ss

pub close_compensation : Store → Store
close_compensation st =
    with_saga
      (λ s. record s { status = if ltb 0 (failed_count st.steps) then failed else compensated }) st

-- `handleStepFailure`.
pub handle_step_failure : List SagaStepDefinition → ℕ → Context → ℕ → Store → Store
handle_step_failure defs i context e st =
    let st' = with_saga (λ s. record s { status = compensating; error = some e }) st in
    close_compensation (
      compensate_loop defs st'.steps i context
        (with_step i (λ s. record s { status = failed; error = some e }) st'))

-- The loop of `executeSaga`, from step i on; the first list is the whole definition.
pub execute_steps : List SagaStepDefinition → List SagaStepDefinition → ℕ → Context → Store → Store
execute_steps defs [] i context st = with_saga (λ s. record s { status = completed }) st
execute_steps defs (d ∷ ds) i context st =
    let st' = with_call (executes i) (with_step i (λ s. record s { status = in_progress }) st) in
    elim (d.execute context i) [
      | rejected e ↦ handle_step_failure defs i context e st'
      | fulfilled result ↦
          let context' = merge context result in
          execute_steps defs ds (suc i) context' (
            with_saga (λ s. record s { current_step = i + 1; context = context' })
              (with_step i (λ s. record s { status = completed; output = some result }) st'))
    ]

-- `executeSaga` of a saga whose definition was found.
pub execute_saga : List SagaStepDefinition → Store → Store
execute_saga defs st =
    execute_steps defs (drop st.saga.current_step defs) st.saga.current_step st.saga.context
      (with_saga (λ s. record s { status = in_progress }) st)
