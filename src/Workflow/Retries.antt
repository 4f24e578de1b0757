-- ===== src/Workflow/Retries.antt =====
-- A node that fails whenever it runs (src/lib/workflow/WorkflowEngine.ts).
use edge_cloud_orchestrator.Prelude.{
  ℕ, suc, zero, ◌+◌, ◌<◌, ◌≡◌, refl, ap, ◌∙◌, Bool, true, false, List, [], ◌∷◌, none, lt→ltb, arith,
}
use edge_cloud_orchestrator.Workflow.Definition.{
  WorkflowNode, WorkflowDefinition, contains, without,
}
use edge_cloud_orchestrator.Workflow.Engine.{
  WorkflowExecution, Outcome, may_start, start, fail, starts, retries_of, run_node, retry_node,
  after_run, execute_node, is_parallel, ended, cut_off, and_then, Executor, Progress,
}

contains-without : (id : ℕ) (is : List ℕ) → contains id (without id is) ≡ false
contains-without id [] = refl
contains-without id (i ∷ is) = ground (arith, contains-without id is)

-- The execution after a failure, as its retry finds it.
abbrev failed_once : WorkflowNode → WorkflowExecution → WorkflowExecution
failed_once n x =
    let y = fail n.id (start n.id x) in record y { failed_nodes = without n.id y.failed_nodes }

may_start-failed_once :
    (d : WorkflowDefinition) (x : WorkflowExecution) (n : WorkflowNode)
    → may_start d x n ≡ true
    → may_start d (failed_once n x) n ≡ true
unfolding may_start
may_start-failed_once d x n m = ground (arith, contains-without n.id (n.id ∷ x.failed_nodes))

abbrev pub throws : Outcome
throws = record { succeeds = false; interrupt = none }

module _ (d : WorkflowDefinition) (is_met : ℕ → Bool) (runs : ℕ → ℕ → Outcome) where
  throws_ran :
      (n : WorkflowNode) (x : WorkflowExecution) (execute : Executor)
      → is_parallel n.type ≡ false
      → ((k : ℕ) → runs n.id k ≡ throws)
      → run_node d is_met runs execute x n ≡ ended (start n.id x, false)
  throws_ran n x execute p t = rw (p, run_node, t (starts n.id x.events)) refl

  throws_retried :
      (n : WorkflowNode) (x : WorkflowExecution) (execute : Executor)
      → 0 < retries_of d n.max_retries
      → retry_node d is_met runs execute x n
        ≡ execute (record x { failed_nodes = without n.id x.failed_nodes }) n
  throws_retried n x execute r = rw (lt→ltb 0 (retries_of d n.max_retries) r, retry_node) refl

  started_again :
      (n : WorkflowNode) (x : WorkflowExecution)
      → starts n.id (failed_once n x).events ≡ suc (starts n.id x.events)
  unfolding starts
  started_again n x = ground arith

  -- A node that is not parallel, throws whenever it runs without being cancelled or paused, may start,
  -- and has a retry policy that allows a retry, is started without end, whatever number of retries is
  -- allowed: with fuel for any number of starts its execution has not ended, and has started it so
  -- many times more.
  pub execute_node_never_ends :
      (n : WorkflowNode) (x : WorkflowExecution) (fuel : ℕ)
      → is_parallel n.type ≡ false
      → 0 < retries_of d n.max_retries
      → ((k : ℕ) → runs n.id k ≡ throws)
      → may_start d x n ≡ true
      → (y : WorkflowExecution) × (execute_node d is_met runs fuel x n ≡ cut_off y)
        × (starts n.id y.events ≡ fuel + starts n.id x.events)
  unfolding execute_node
  execute_node_never_ends n x zero p r t m = (x, refl, omega arith)
  execute_node_never_ends n x (suc fuel) p r t m =
      let (y, again, counted) =
        execute_node_never_ends n (failed_once n x) fuel p r t (may_start-failed_once d x n m) in
      let execute = execute_node d is_met runs fuel in
      let go_on = λ (o : Progress (WorkflowExecution × Bool)).
        and_then o (after_run d is_met runs execute n) in
      let begun : execute_node d is_met runs (suc fuel) x n
          ≡ go_on (run_node d is_met runs execute x n) =
        rw (m, execute_node) refl in
      let ran = throws_ran n x execute p t in
      let retried = throws_retried n (fail n.id (start n.id x)) execute r in
      (y, begun ∙ (ap go_on ran ∙ (retried ∙ again)), omega (arith, counted, started_again n x))
