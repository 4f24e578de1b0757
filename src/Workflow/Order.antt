-- ===== src/Workflow/Order.antt =====
-- No node starts before those it depends on have completed (src/lib/workflow/WorkflowEngine.ts).
use edge_cloud_orchestrator.Prelude.{
  ℕ, suc, zero, ◌≡◌, refl, ap, Bool, true, false, List, [], ◌∷◌, Option, none, some, ◌&&◌, arith,
  inl, inr, Bool-cases, all, ltb,
}
use edge_cloud_orchestrator.Workflow.Definition.{
  WorkflowNode, WorkflowEdge, WorkflowDefinition, outgoing, incoming, find_node, without,
  get_start_nodes,
}
use edge_cloud_orchestrator.Workflow.Engine.{
  Status, WorkflowExecution, Progress, ended, cut_off, and_then, Executor, new_execution, NodeEvent,
  node_started, node_completed, node_failed, Outcome, interrupted, all_completed, may_start, start,
  complete, fail, execute_found, run_branches, run_next, run_node, retry_node, after_run,
  execute_node, execute_starts, execute_workflow, finish, is_parallel, is_running, is_taken,
  is_done, retries_of,
}

-- The nodes that have completed, by the events.
abbrev pub completed_ids : List NodeEvent → List ℕ
completed_ids [] = []
completed_ids (node_started id ∷ es) = completed_ids es
completed_ids (node_completed id ∷ es) = id ∷ completed_ids es
completed_ids (node_failed id ∷ es) = completed_ids es

-- Each start comes after the completion of every node that an edge to it names.
abbrev pub IsOrdered : WorkflowDefinition → List NodeEvent → Type 0
IsOrdered d [] = Unit
IsOrdered d (node_started id ∷ es) =
    (all_completed (incoming d.edges id) (completed_ids es) ≡ true) × IsOrdered d es
IsOrdered d (node_completed id ∷ es) = IsOrdered d es
IsOrdered d (node_failed id ∷ es) = IsOrdered d es

abbrev IsSound : WorkflowDefinition → WorkflowExecution → Type 0
IsSound d x = (completed_ids x.events ≡ x.completed_nodes) × IsOrdered d x.events

-- What holds of a result, and of the state at which the fuel was used up.
abbrev pub Holds : {A : Type 0} → (WorkflowExecution → Type 0) → (A → Type 0) → Progress A → Type 0
Holds I P (ended a) = P a
Holds I P (cut_off x) = I x

pub Holds-and_then :
    {A B : Type 0} (I : WorkflowExecution → Type 0) (P : A → Type 0) (Q : B → Type 0)
    (o : Progress A) (f : A → Progress B)
    → Holds I P o
    → ((a : A) → P a → Holds I Q (f a))
    → Holds I Q (and_then o f)
Holds-and_then I P Q (ended a) f h k = k a h
Holds-and_then I P Q (cut_off x) f h k = h

-- The state that an execution has reached.
abbrev pub reached : Progress WorkflowExecution → WorkflowExecution
reached (ended x) = x
reached (cut_off x) = x

reached-Holds :
    (I : WorkflowExecution → Type 0) (o : Progress WorkflowExecution) → Holds I I o → I (reached o)
reached-Holds I (ended x) h = h
reached-Holds I (cut_off x) h = h

interrupted-IsSound :
    (d : WorkflowDefinition) (o : Option Status) (x : WorkflowExecution)
    → IsSound d x
    → IsSound d (interrupted o x)
interrupted-IsSound d none x h = h
interrupted-IsSound d (some s) x h = elim (Bool-cases (is_running x.status)) [
  | inl e ↦ rw e h
  | inr e ↦ rw e h
]

start-IsSound :
    (d : WorkflowDefinition) (x : WorkflowExecution) (n : WorkflowNode)
    → may_start d x n ≡ true
    → IsSound d x
    → IsSound d (start n.id x)
unfolding may_start
start-IsSound d x n m (c, o) =
    let ready : all_completed (incoming d.edges n.id) x.completed_nodes ≡ true = ground arith in
    (c, (rw c ready, o))

module _ (d : WorkflowDefinition) (is_met : ℕ → Bool) (runs : ℕ → ℕ → Outcome) where
  -- A function that executes a node and keeps the order.
  abbrev Keeps : Executor → Type 0
  Keeps execute =
      (x : WorkflowExecution) (n : WorkflowNode)
      → IsSound d x
      → Holds (IsSound d) (IsSound d) (execute x n)

  execute_found-Keeps :
      (execute : Executor) (o : Option WorkflowNode) (x : WorkflowExecution)
      → Keeps execute
      → IsSound d x
      → Holds (IsSound d) (IsSound d) (execute_found d is_met runs execute o x)
  execute_found-Keeps execute none x k h = h
  execute_found-Keeps execute (some n) x k h = k x n h

  run_branches-Keeps :
      (execute : Executor) (ids : List ℕ) (x : WorkflowExecution)
      → Keeps execute
      → IsSound d x
      → Holds (IsSound d) (IsSound d) (run_branches d is_met runs execute ids x)
  unfolding run_branches
  run_branches-Keeps execute [] x k h = h
  run_branches-Keeps execute (id ∷ ids) x k h =
      Holds-and_then (IsSound d) (IsSound d) (IsSound d)
        (execute_found d is_met runs execute (find_node d.nodes id) x)
        (run_branches d is_met runs execute ids)
        (execute_found-Keeps execute (find_node d.nodes id) x k h)
        (λ y. run_branches-Keeps execute ids y k)

  run_next-Keeps :
      (execute : Executor) (es : List WorkflowEdge) (x : WorkflowExecution)
      → Keeps execute
      → IsSound d x
      → Holds (IsSound d) (IsSound d) (run_next d is_met runs execute es x)
  unfolding run_next
  run_next-Keeps execute [] x k h = h
  run_next-Keeps execute (e ∷ es) x k h = elim (Bool-cases (is_taken is_met e.condition)) [
    | inr t ↦ rw (t, run_next) (run_next-Keeps execute es x k h)
    | inl t ↦
        rw (t, run_next)
          (Holds-and_then (IsSound d) (IsSound d) (IsSound d)
            (execute_found d is_met runs execute (find_node d.nodes e.to) x)
            (run_next d is_met runs execute es)
            (execute_found-Keeps execute (find_node d.nodes e.to) x k h)
            (λ y. run_next-Keeps execute es y k))
  ]

  run_node-Keeps :
      (execute : Executor) (x : WorkflowExecution) (n : WorkflowNode)
      → Keeps execute
      → may_start d x n ≡ true
      → IsSound d x
      → Holds (IsSound d) (λ p. IsSound d p.0) (run_node d is_met runs execute x n)
  run_node-Keeps execute x n k m h =
      let begun = start-IsSound d x n m h in
      elim (Bool-cases (is_parallel n.type)) [
        | inl t ↦
            rw (t, run_node)
              (Holds-and_then (IsSound d) (IsSound d) (λ p. IsSound d p.0)
                (run_branches d is_met runs execute n.branches (start n.id x))
                (λ y. ended (y, true))
                (run_branches-Keeps execute n.branches (start n.id x) k begun) (λ y i. i))
        | inr t ↦ rw (t, run_node) (interrupted-IsSound d _ (start n.id x) begun)
      ]

  retry_node-Keeps :
      (execute : Executor) (n : WorkflowNode) (x : WorkflowExecution)
      → Keeps execute
      → IsSound d x
      → Holds (IsSound d) (IsSound d) (retry_node d is_met runs execute x n)
  retry_node-Keeps execute n x k h = elim (Bool-cases (ltb 0 (retries_of d n.max_retries))) [
    | inl t ↦ rw (t, retry_node) (k (record x { failed_nodes = without n.id x.failed_nodes }) n h)
    | inr t ↦ rw (t, retry_node) h
  ]

  after_run-Keeps :
      (execute : Executor) (n : WorkflowNode) (p : WorkflowExecution × Bool)
      → Keeps execute
      → IsSound d p.0
      → Holds (IsSound d) (IsSound d) (after_run d is_met runs execute n p)
  after_run-Keeps execute n (x, true) k (c, o) =
      run_next-Keeps execute (outgoing d.edges n.id) (complete n.id x) k (ap (λ is. n.id ∷ is) c, o)
  after_run-Keeps execute n (x, false) k h = retry_node-Keeps execute n (fail n.id x) k h

  execute_node-Keeps : (fuel : ℕ) → Keeps (execute_node d is_met runs fuel)
  unfolding execute_node
  execute_node-Keeps zero x n h = h
  execute_node-Keeps (suc fuel) x n h = elim (Bool-cases (may_start d x n)) [
    | inr t ↦ rw (t, execute_node) h
    | inl t ↦
        let execute = execute_node d is_met runs fuel in
        rw (t, execute_node)
          (Holds-and_then (IsSound d) (λ p. IsSound d p.0) (IsSound d)
            (run_node d is_met runs execute x n) (after_run d is_met runs execute n)
            (run_node-Keeps execute x n (execute_node-Keeps fuel) t h)
            (λ p. after_run-Keeps execute n p (execute_node-Keeps fuel)))
  ]

  execute_starts-Keeps :
      (fuel : ℕ) (ns : List WorkflowNode) (x : WorkflowExecution)
      → IsSound d x
      → Holds (IsSound d) (IsSound d) (execute_starts d is_met runs fuel ns x)
  unfolding execute_starts
  execute_starts-Keeps fuel [] x h = h
  execute_starts-Keeps fuel (n ∷ ns) x h =
      Holds-and_then (IsSound d) (IsSound d) (IsSound d) (execute_node d is_met runs fuel x n)
        (execute_starts d is_met runs fuel ns) (execute_node-Keeps fuel x n h)
        (λ y. execute_starts-Keeps fuel ns y)

  finish-IsSound : (x : WorkflowExecution) → IsSound d x → IsSound d (finish d is_met runs x)
  finish-IsSound x h = elim (Bool-cases (is_running x.status && all (is_done x) d.nodes)) [
    | inl t ↦ rw t h
    | inr t ↦ rw t h
  ]

  -- However far an execution of a workflow has come, whether it has ended or goes on when the fuel is
  -- used up, no node has been started before each node that an edge to it names had completed,
  -- whatever fails, is retried, paused or cancelled.
  pub execute_workflow-IsOrdered :
      (fuel : ℕ) → IsOrdered d (reached (execute_workflow d is_met runs fuel new_execution)).events
  unfolding execute_workflow
  execute_workflow-IsOrdered fuel =
      let ns = get_start_nodes d in
      let came : Holds (IsSound d) (IsSound d) (execute_workflow d is_met runs fuel new_execution) =
        Holds-and_then (IsSound d) (IsSound d) (IsSound d)
          (execute_starts d is_met runs fuel ns new_execution) (λ y. ended (finish d is_met runs y))
          (execute_starts-Keeps fuel ns new_execution (refl, _)) (λ y. finish-IsSound y) in
      (reached-Holds (IsSound d) (execute_workflow d is_met runs fuel new_execution) came).1
