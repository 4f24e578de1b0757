-- ===== src/Saga/Examples.antt =====
-- A saga of two steps whose second one fails (packages/saga/src/saga-orchestrator.ts).
use edge_cloud_orchestrator.Prelude.{◌≡◌, refl, List, [], ◌∷◌, none}
use edge_cloud_orchestrator.Saga.{
  fulfilled, rejected, SagaStepDefinition, Store, SagaStatus, executes, compensates, start_saga,
  execute_saga, execute_steps, handle_step_failure, compensate_loop, compensate_step, compensation,
  close_compensation, failed_count, update_step, create_steps, merge,
}
use edge_cloud_orchestrator.Saga.Execution.{RunsTo, execute_saga-RunsTo, start_saga-IsResumable}

abbrev reserve : SagaStepDefinition
reserve = record {
  name = 1;
  execute = λ context i. fulfilled ((7, 8) ∷ []);
  compensate = λ context i. none;
}

abbrev deploy : SagaStepDefinition
deploy = record { name = 2; execute = λ context i. rejected 5; compensate = λ context i. none }

abbrev two_steps : List SagaStepDefinition
two_steps = reserve ∷ deploy ∷ []

fresh : Store
fresh = start_saga 1 two_steps 9 []

execute_saga-RunsTo_example : RunsTo 2 two_steps 0 [] fresh (execute_saga two_steps fresh)
unfolding fresh start_saga
execute_saga-RunsTo_example =
    execute_saga-RunsTo two_steps fresh (start_saga-IsResumable 1 9 two_steps [])

-- The saga counts as failed although its one compensation succeeded.
failing_run :
    ((execute_saga two_steps fresh).saga.status ≡ SagaStatus.failed)
    × ((execute_saga two_steps fresh).calls ≡ executes 0 ∷ executes 1 ∷ compensates 0 ∷ [])
unfolding fresh start_saga execute_saga execute_steps handle_step_failure compensate_loop
    compensate_step compensation close_compensation failed_count update_step create_steps merge
failing_run = (refl, refl)
