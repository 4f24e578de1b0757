-- ===== src/Workflow/Engine.antt =====
-- src/lib/workflow/WorkflowEngine.ts: executions.
use edge_cloud_orchestrator.Prelude.{
  ℕ, suc, zero, ◌+◌, Bool, true, false, List, [], ◌∷◌, Option, none, some, ltb, ◌==◌, if◌then◌else◌,
  ◌&&◌, ◌||◌, not, all,
}
use edge_cloud_orchestrator.Workflow.Definition.{
  NodeType, parallel, WorkflowNode, WorkflowEdge, WorkflowDefinition, contains, get_start_nodes,
  outgoing, incoming, find_node, without,
}

pub data Status : Type 0 where
  running completed failed cancelled paused : Status

-- The events of nodes that are emitted, the last first.
pub data NodeEvent : Type 0 where
  node_started node_completed node_failed : ℕ → NodeEvent

pub record WorkflowExecution : Type 0 where
  pub status : Status
  pub completed_nodes : List ℕ
  pub failed_nodes : List ℕ
  pub events : List NodeEvent

abbrev pub new_execution : WorkflowExecution
new_execution = record { status = running; completed_nodes = []; failed_nodes = []; events = [] }

-- What happens while a node runs: it throws or not, and the execution is cancelled, paused or neither.
pub record Outcome : Type 0 where
  pub succeeds : Bool
  pub interrupt : Option Status

abbrev pub is_running : Status → Bool
is_running running = true
is_running _ = false

-- `cancelExecution` and `pauseExecution`.
abbrev pub interrupted : Option Status → WorkflowExecution → WorkflowExecution
interrupted none x = x
interrupted (some s) x = if is_running x.status then record x { status = s } else x

unfoldable pub cancel_execution : WorkflowExecution → WorkflowExecution × Bool
cancel_execution x = (interrupted (some cancelled) x, is_running x.status)

unfoldable pub pause_execution : WorkflowExecution → WorkflowExecution × Bool
pause_execution x = (interrupted (some paused) x, is_running x.status)

abbrev pub all_completed : List WorkflowEdge → List ℕ → Bool
all_completed [] done = true
all_completed (e ∷ es) done = contains e.from done && all_completed es done

-- The tests at the beginning of `executeNode`.
unfoldable pub may_start : WorkflowDefinition → WorkflowExecution → WorkflowNode → Bool
may_start d x n =
    is_running x.status
    && (not (contains n.id x.completed_nodes)
        && (not (contains n.id x.failed_nodes)
            && all_completed (incoming d.edges n.id) x.completed_nodes))

abbrev pub is_start_of : ℕ → NodeEvent → ℕ
is_start_of id (node_started i) = if i == id then 1 else 0
is_start_of id _ = 0

unfoldable pub starts : ℕ → List NodeEvent → ℕ
starts id [] = 0
starts id (e ∷ es) = is_start_of id e + starts id es

abbrev pub start : ℕ → WorkflowExecution → WorkflowExecution
start id x = record x { events = node_started id ∷ x.events }

abbrev pub complete : ℕ → WorkflowExecution → WorkflowExecution
complete id x = record x {
  completed_nodes = id ∷ x.completed_nodes;
  events = node_completed id ∷ x.events;
}

abbrev pub fail : ℕ → WorkflowExecution → WorkflowExecution
fail id x = record x { failed_nodes = id ∷ x.failed_nodes; events = node_failed id ∷ x.events }

abbrev pub retries_of : WorkflowDefinition → Option ℕ → ℕ
retries_of d none = d.max_retries
retries_of d (some n) = n

-- Whether an edge is taken: an empty condition is none, another is met if its text, with the variables
-- put in, is not empty. The variables of an execution do not change.
abbrev pub is_taken : (ℕ → Bool) → Option ℕ → Bool
is_taken is_met none = true
is_taken is_met (some c) = is_met c

abbrev pub is_parallel : NodeType → Bool
is_parallel parallel = true
is_parallel _ = false

abbrev pub is_done : WorkflowExecution → WorkflowNode → Bool
is_done x n = contains n.id x.completed_nodes || contains n.id x.failed_nodes

abbrev pub is_paused : Status → Bool
is_paused paused = true
is_paused _ = false

-- How far an execution has come: to its end, or to where the fuel was used up, with the state it had
-- reached there.
pub data Progress (A : Type 0) : Type 0 where
  ended : A → Progress A
  cut_off : WorkflowExecution → Progress A

abbrev pub and_then : {A B : Type 0} → Progress A → (A → Progress B) → Progress B
and_then (ended a) f = f a
and_then (cut_off x) f = cut_off x

-- What executes a node.
abbrev pub Executor : Type 0
Executor = WorkflowExecution → WorkflowNode → Progress WorkflowExecution

module _ (d : WorkflowDefinition) (is_met : ℕ → Bool) (runs : ℕ → ℕ → Outcome) where
  -- A node that an edge or a branch names, where `execute` executes a node: none is found, or one.
  abbrev pub execute_found :
      Executor → Option WorkflowNode → WorkflowExecution → Progress WorkflowExecution
  execute_found execute none x = ended x
  execute_found execute (some n) x = execute x n

  -- The loop of `executeParallelNode`.
  unfoldable pub run_branches : Executor → List ℕ → WorkflowExecution → Progress WorkflowExecution
  run_branches execute [] x = ended x
  run_branches execute (id ∷ ids) x =
      and_then (execute_found execute (find_node d.nodes id) x) (run_branches execute ids)

  -- The loop over the outgoing edges of a completed node.
  unfoldable pub run_next :
      Executor → List WorkflowEdge → WorkflowExecution → Progress WorkflowExecution
  run_next execute [] x = ended x
  run_next execute (e ∷ es) x = elim (is_taken is_met e.condition) [
    | false ↦ run_next execute es x
    | true ↦ and_then (execute_found execute (find_node d.nodes e.to) x) (run_next execute es)
  ]

  -- The branches of a parallel node, or the run of another: what is left, and whether it threw.
  abbrev pub run_node :
      Executor → WorkflowExecution → WorkflowNode → Progress (WorkflowExecution × Bool)
  run_node execute x n =
      let o = runs n.id (starts n.id x.events) in
      let begun = start n.id x in
      elim (is_parallel n.type) [
        | true ↦ and_then (run_branches execute n.branches begun) (λ x'. ended (x', true))
        | false ↦ ended (interrupted o.interrupt begun, o.succeeds)
      ]

  -- The retry policy of a node that has failed. The count of its retries begins anew with each start.
  abbrev pub retry_node : Executor → WorkflowExecution → WorkflowNode → Progress WorkflowExecution
  retry_node execute x n = elim (ltb 0 (retries_of d n.max_retries)) [
    | true ↦ execute (record x { failed_nodes = without n.id x.failed_nodes }) n
    | false ↦ ended x
  ]

  -- What follows the run of a node.
  abbrev pub after_run :
      Executor → WorkflowNode → WorkflowExecution × Bool → Progress WorkflowExecution
  after_run execute n (x, true) = run_next execute (outgoing d.edges n.id) (complete n.id x)
  after_run execute n (x, false) = retry_node execute (fail n.id x) n

  -- `executeNode`.
  unfoldable pub execute_node : ℕ → Executor
  execute_node zero x n = cut_off x
  execute_node (suc fuel) x n = elim (may_start d x n) [
    | false ↦ ended x
    | true ↦ and_then (run_node (execute_node fuel) x n) (after_run (execute_node fuel) n)
  ]

  unfoldable pub execute_starts :
      ℕ → List WorkflowNode → WorkflowExecution → Progress WorkflowExecution
  execute_starts fuel [] x = ended x
  execute_starts fuel (n ∷ ns) x = and_then (execute_node fuel x n) (execute_starts fuel ns)

  -- `executeWorkflow`.
  abbrev pub finish : WorkflowExecution → WorkflowExecution
  finish x =
      if is_running x.status && all (is_done x) d.nodes then record x { status = completed } else x

  unfoldable pub execute_workflow : ℕ → WorkflowExecution → Progress WorkflowExecution
  execute_workflow fuel x =
      and_then (execute_starts fuel (get_start_nodes d) x) (λ x'. ended (finish x'))

  -- `resumeExecution`.
  unfoldable pub resume_execution : ℕ → WorkflowExecution → Progress (WorkflowExecution × Bool)
  resume_execution fuel x = elim (is_paused x.status) [
    | false ↦ ended (x, false)
    | true ↦
        and_then (execute_workflow fuel (record x { status = running })) (λ x'. ended (x', true))
  ]
