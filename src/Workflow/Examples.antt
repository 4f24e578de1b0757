-- ===== src/Workflow/Examples.antt =====
-- Concrete runs of src/lib/workflow/WorkflowEngine.ts.
use edge_cloud_orchestrator.Prelude.{
  ℕ, ◌≡◌, refl, Bool, true, false, List, [], ◌∷◌, ◌==◌, ◌&&◌, if◌then◌else◌, Option, none, some,
  arith, ◌+◌,
}
use edge_cloud_orchestrator.Workflow.Definition.{
  task, parallel, WorkflowNode, WorkflowEdge, WorkflowDefinition, start_nodes, get_start_nodes,
  outgoing, incoming, find_node, scan_edges, has_cycle, has_cycle_from, is_refused,
}
use edge_cloud_orchestrator.Workflow.Engine.{
  running, completed, paused, node_started, node_completed, node_failed, WorkflowExecution,
  new_execution, Outcome, may_start, starts, run_branches, run_next, execute_node, execute_starts,
  execute_workflow, finish, resume_execution, ended, cut_off,
}
use edge_cloud_orchestrator.Workflow.Order.{IsOrdered, reached, execute_workflow-IsOrdered}
use edge_cloud_orchestrator.Workflow.Retries.{throws, execute_node_never_ends}
use edge_cloud_orchestrator.Workflow.Resume.{resume_starts_nothing}
use edge_cloud_orchestrator.Workflow.Ends.{execute_workflow_ends}

abbrev task_node : ℕ → Option ℕ → WorkflowNode
task_node i r = record { id = i; type = task; branches = []; max_retries = r }

abbrev fork_node : ℕ → List ℕ → WorkflowNode
fork_node i bs = record { id = i; type = parallel; branches = bs; max_retries = none }

abbrev edge : ℕ → ℕ → WorkflowEdge
edge a b = record { from = a; to = b; condition = none }

-- Two tasks from which a third goes on, and a parallel node after it.
abbrev join : WorkflowDefinition
join = record {
  id = 1;
  nodes =
      task_node 1 (some 0)
      ∷ task_node 2 (some 1)
      ∷ task_node 3 none
      ∷ fork_node 4 (5 ∷ [])
      ∷ task_node 5 none
      ∷ [];
  edges = edge 1 3 ∷ edge 2 3 ∷ edge 3 4 ∷ edge 4 5 ∷ [];
  max_retries = 0;
}

abbrev always : ℕ → Bool
always c = true

abbrev succeeds : Outcome
succeeds = record { succeeds = true; interrupt = none }

-- The second node throws when it is run first.
abbrev second_fails_once : ℕ → ℕ → Outcome
second_fails_once i k = if i == 2 && k == 0 then throws else succeeds

abbrev joined : WorkflowExecution
joined = record {
  status = completed;
  completed_nodes = 5 ∷ 4 ∷ 3 ∷ 2 ∷ 1 ∷ [];
  failed_nodes = [];
  events =
      node_completed 5
      ∷ node_started 5
      ∷ node_completed 4
      ∷ node_started 4
      ∷ node_completed 3
      ∷ node_started 3
      ∷ node_completed 2
      ∷ node_started 2
      ∷ node_failed 2
      ∷ node_started 2
      ∷ node_completed 1
      ∷ node_started 1
      ∷ [];
}

joined_test : execute_workflow join always second_fails_once 9 new_execution ≡ ended joined
unfolding execute_workflow execute_starts execute_node run_next run_branches may_start starts
    incoming outgoing find_node get_start_nodes start_nodes
joined_test = refl

execute_workflow-IsOrdered_example :
    IsOrdered join (reached (execute_workflow join always second_fails_once 9 new_execution)).events
execute_workflow-IsOrdered_example = execute_workflow-IsOrdered join always second_fails_once 9

abbrev always_throws : ℕ → ℕ → Outcome
always_throws i k = throws

execute_node_never_ends_example :
    (y : WorkflowExecution) × (execute_node join always always_throws 100 new_execution
        (task_node 2 (some 1))
      ≡ cut_off y)
    × (starts 2 y.events ≡ 100 + starts 2 new_execution.events)
unfolding may_start incoming
execute_node_never_ends_example =
    execute_node_never_ends join always always_throws (task_node 2 (some 1)) new_execution 100 refl
      (omega arith) (λ k. refl) refl

-- Paused while its third node ran: what follows that node is left.
abbrev halted : WorkflowExecution
halted = record {
  status = paused;
  completed_nodes = 3 ∷ 2 ∷ 1 ∷ [];
  failed_nodes = [];
  events = [];
}

resume_starts_nothing_example :
    resume_execution join always second_fails_once 9 halted
    ≡ ended (finish join always second_fails_once (record halted { status = running }), true)
unfolding get_start_nodes start_nodes
resume_starts_nothing_example =
    resume_starts_nothing join always second_fails_once 8 halted refl refl

-- Two nodes that wait for each other: neither is a start node, so the cycle is not looked for.
abbrev ring : WorkflowDefinition
ring = record {
  id = 2;
  nodes = task_node 1 none ∷ task_node 2 none ∷ [];
  edges = edge 1 2 ∷ edge 2 1 ∷ [];
  max_retries = 0;
}

ring_test :
    (is_refused 9 ring ≡ some false)
    × (execute_workflow ring always second_fails_once 9 new_execution ≡ ended new_execution)
unfolding is_refused has_cycle_from execute_workflow execute_starts get_start_nodes start_nodes
ring_test = (refl, refl)

-- The same ring behind a start node is refused.
abbrev reached_ring : WorkflowDefinition
reached_ring = record ring { nodes = task_node 3 none ∷ ring.nodes; edges = edge 3 1 ∷ ring.edges }

reached_ring_test : is_refused 9 reached_ring ≡ some true
unfolding is_refused has_cycle_from has_cycle scan_edges outgoing get_start_nodes start_nodes
reached_ring_test = refl

execute_workflow_ends_example :
    (y : WorkflowExecution) × (execute_workflow reached_ring always always_throws 4 new_execution
      ≡ ended y)
execute_workflow_ends_example =
    execute_workflow_ends reached_ring always always_throws
      ((refl, refl), ((refl, refl), ((refl, refl), _))) 4 (omega arith)
