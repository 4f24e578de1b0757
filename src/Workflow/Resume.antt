-- ===== src/Workflow/Resume.antt =====
-- What `resumeExecution` goes on with (src/lib/workflow/WorkflowEngine.ts).
use edge_cloud_orchestrator.Prelude.{
  ℕ, suc, ◌≡◌, refl, Bool, true, false, List, [], ◌∷◌, all, arith,
}
use edge_cloud_orchestrator.Workflow.Definition.{WorkflowNode, WorkflowDefinition, get_start_nodes}
use edge_cloud_orchestrator.Workflow.Engine.{
  WorkflowExecution, running, ended, and_then, paused, Outcome, may_start, execute_node,
  execute_starts, execute_workflow, finish, resume_execution, is_done,
}

done_waits :
    (d : WorkflowDefinition) (x : WorkflowExecution) (n : WorkflowNode)
    → is_done x n ≡ true
    → may_start d x n ≡ false
unfolding may_start
done_waits d x n h = ground arith

module _ (d : WorkflowDefinition) (is_met : ℕ → Bool) (runs : ℕ → ℕ → Outcome) where
  starts_wait :
      (fuel : ℕ) (ns : List WorkflowNode) (x : WorkflowExecution)
      → all (is_done x) ns ≡ true
      → execute_starts d is_met runs (suc fuel) ns x ≡ ended x
  unfolding execute_starts execute_node
  starts_wait fuel [] x h = refl
  starts_wait fuel (n ∷ ns) x h =
      let here : is_done x n ≡ true = ground arith in
      let rest : all (is_done x) ns ≡ true = ground arith in
      rw (done_waits d x n here, execute_starts, and_then, execute_node)
        (starts_wait fuel ns x rest)

  -- A paused execution whose start nodes have completed or failed starts no node when it is resumed,
  -- whatever is still to be done: at most it is marked as completed.
  pub resume_starts_nothing :
      (fuel : ℕ) (x : WorkflowExecution)
      → x.status ≡ paused
      → all (is_done x) (get_start_nodes d) ≡ true
      → resume_execution d is_met runs (suc fuel) x
        ≡ ended (finish d is_met runs (record x { status = running }), true)
  unfolding resume_execution execute_workflow
  resume_starts_nothing fuel x p h =
      let resumed = record x { status = running } in
      rw (p, resume_execution, starts_wait fuel (get_start_nodes d) resumed h) refl
