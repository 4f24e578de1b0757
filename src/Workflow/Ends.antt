-- ===== src/Workflow/Ends.antt =====
-- Workflows without retries and parallel nodes come to an end
-- (src/lib/workflow/WorkflowEngine.ts).
use edge_cloud_orchestrator.Prelude.{
  ℕ, suc, zero, ◌+◌, ◌<◌, ◌≤◌, ◌≡◌, refl, ◌∙◌, Bool, true, false, List, [], ◌∷◌, Option, none, some,
  ◌==◌, ◌||◌, any, All, arith, if◌then◌else◌, inl, inr, Bool-cases, Option-cases, length, ==_iff,
}
use edge_cloud_orchestrator.Workflow.Definition.{
  WorkflowNode, WorkflowEdge, WorkflowDefinition, contains, has_incoming, start_nodes,
  get_start_nodes, find_node, outgoing,
}
use edge_cloud_orchestrator.Workflow.Engine.{
  Status, WorkflowExecution, Progress, ended, and_then, Executor, new_execution, Outcome,
  interrupted, may_start, start, complete, fail, starts, retries_of, run_next, retry_node,
  after_run, execute_node, execute_starts, execute_workflow, finish, is_parallel, is_taken,
}

-- The node has completed or failed.
abbrev is_over : WorkflowExecution → ℕ → Bool
is_over x id = contains id x.completed_nodes || contains id x.failed_nodes

abbrev Grows : WorkflowExecution → WorkflowExecution → Type 0
Grows x y = (id : ℕ) → is_over x id ≡ true → is_over y id ≡ true

-- How many nodes are still to be run.
remaining : WorkflowExecution → List WorkflowNode → ℕ
remaining x [] = 0
remaining x (n ∷ ns) = (if is_over x n.id then 0 else 1) + remaining x ns

remaining-le-length : (x : WorkflowExecution) (ns : List WorkflowNode) → remaining x ns ≤ length ns
unfolding remaining
remaining-le-length x [] = omega arith
remaining-le-length x (n ∷ ns) = ground (arith, remaining-le-length x ns)

remaining_falls :
    (x y : WorkflowExecution) (ns : List WorkflowNode) → Grows x y → remaining y ns ≤ remaining x ns
unfolding remaining
remaining_falls x y [] g = omega arith
remaining_falls x y (n ∷ ns) g = ground (arith, g n.id, remaining_falls x y ns g)

remaining_drops :
    (x y : WorkflowExecution) (ns : List WorkflowNode) (id : ℕ)
    → Grows x y
    → any (λ m. m.id == id) ns ≡ true
    → is_over x id ≡ false
    → is_over y id ≡ true
    → remaining y ns < remaining x ns
unfolding remaining
remaining_drops x y [] id g k o o' = cc
remaining_drops x y (n ∷ ns) id g k o o' = elim (Bool-cases (n.id == id)) [
  | inl e ↦
      let same : n.id ≡ id = (==_iff n.id id).0 e in
      let before : is_over x n.id ≡ false = rw same o in
      let after : is_over y n.id ≡ true = rw same o' in
      rw (before, after) (omega (arith, remaining_falls x y ns g))
  | inr e ↦ let rest = remaining_drops x y ns id g (rw e at k) o o' in ground (arith, g n.id, rest)
]

may_start_over :
    (d : WorkflowDefinition) (x : WorkflowExecution) (n : WorkflowNode)
    → may_start d x n ≡ true
    → is_over x n.id ≡ false
unfolding may_start
may_start_over d x n m = ground arith

module _ (d : WorkflowDefinition) (is_met : ℕ → Bool) (runs : ℕ → ℕ → Outcome) where
  -- A node with no branches and no retries.
  abbrev pub IsPlain : WorkflowNode → Type 0
  IsPlain n = (is_parallel n.type ≡ false) × (retries_of d n.max_retries ≡ 0)

  abbrev IsKnown : List WorkflowNode → WorkflowNode → Type 0
  IsKnown ns n = IsPlain n × (any (λ m. m.id == n.id) ns ≡ true)

  find_node-IsKnown :
      (ns : List WorkflowNode) (id : ℕ) (n : WorkflowNode)
      → All IsPlain ns
      → find_node ns id ≡ some n
      → IsKnown ns n
  unfolding find_node
  find_node-IsKnown [] id n p f = cc
  find_node-IsKnown (m ∷ ns) id n (p, ps) f = elim (Bool-cases (m.id == id)) [
    | inl e ↦ let same : m ≡ n = cc (rw e at f) in rw (← same) (p, ground arith)
    | inr e ↦ let (q, k) = find_node-IsKnown ns id n ps (rw e at f) in (q, ground (arith, k))
  ]

  more-IsKnown :
      (m : WorkflowNode) (ms ns : List WorkflowNode)
      → All (IsKnown ms) ns
      → All (IsKnown (m ∷ ms)) ns
  more-IsKnown m ms [] h = _
  more-IsKnown m ms (n ∷ ns) ((p, k), hs) = ((p, ground (arith, k)), more-IsKnown m ms ns hs)

  every-IsKnown : (ns : List WorkflowNode) → All IsPlain ns → All (IsKnown ns) ns
  every-IsKnown [] h = _
  every-IsKnown (n ∷ ns) (p, ps) = ((p, ground arith), more-IsKnown n ns ns (every-IsKnown ns ps))

  start_nodes-IsKnown :
      (ms ns : List WorkflowNode) (es : List WorkflowEdge)
      → All (IsKnown ms) ns
      → All (IsKnown ms) (start_nodes es ns)
  unfolding start_nodes
  start_nodes-IsKnown ms [] es h = _
  start_nodes-IsKnown ms (n ∷ ns) es (k, ks) = elim (Bool-cases (has_incoming es n.id)) [
    | inl e ↦ rw (e, start_nodes) (start_nodes-IsKnown ms ns es ks)
    | inr e ↦ rw (e, start_nodes) (k, start_nodes-IsKnown ms ns es ks)
  ]

  abbrev Ends : WorkflowExecution → Progress WorkflowExecution → Type 0
  Ends x o = (y : WorkflowExecution) × (o ≡ ended y) × Grows x y

  interrupted_over :
      (o : Option Status) (x : WorkflowExecution) (id : ℕ)
      → is_over (interrupted o x) id ≡ is_over x id
  interrupted_over none x id = refl
  interrupted_over (some s) x id = ground arith

  -- What is required of the execution of a node that fuel is given for.
  abbrev EndsBelow : ℕ → Executor → Type 0
  EndsBelow fuel execute =
      (x : WorkflowExecution) (n : WorkflowNode)
      → IsKnown d.nodes n
      → remaining x d.nodes < fuel
      → Ends x (execute x n)

  module _ (plain : All IsPlain d.nodes) where
    run_next-Ends :
        (fuel : ℕ) (execute : Executor) (es : List WorkflowEdge) (x : WorkflowExecution)
        → EndsBelow fuel execute
        → remaining x d.nodes < fuel
        → Ends x (run_next d is_met runs execute es x)
    unfolding run_next
    run_next-Ends fuel execute [] x k l = (x, refl, λ id h. h)
    run_next-Ends fuel execute (e ∷ es) x k l = elim (Bool-cases (is_taken is_met e.condition)) [
      | inr t ↦ rw (t, run_next) (run_next-Ends fuel execute es x k l)
      | inl t ↦ elim (Option-cases (find_node d.nodes e.to)) [
        | inl f ↦ rw (t, run_next, f) (run_next-Ends fuel execute es x k l)
        | inr (n, f) ↦
            let known = find_node-IsKnown d.nodes e.to n plain f in
            let (y, ran, g) = k x n known l in
            let less : remaining y d.nodes < fuel = omega (arith, remaining_falls x y d.nodes g) in
            let (z, rest, g') = run_next-Ends fuel execute es y k less in
            (z, rw (t, run_next, f, ran) rest, λ id h. g' id (g id h))
      ]
    ]

    after_run-Ends :
        (fuel : ℕ) (execute : Executor) (n : WorkflowNode) (x : WorkflowExecution) (succeeds : Bool)
        → EndsBelow fuel execute
        → retries_of d n.max_retries ≡ 0
        → remaining (complete n.id x) d.nodes < fuel
        → Ends x (after_run d is_met runs execute n (x, succeeds))
    after_run-Ends fuel execute n x true k r l =
        let (y, ran, g) =
          run_next-Ends fuel execute (outgoing d.edges n.id) (complete n.id x) k l in
        (y, ran, λ id h. g id (ground (arith, h)))
    after_run-Ends fuel execute n x false k r l =
        (fail n.id x, rw (r, retry_node) refl, λ id h. ground (arith, h))

    execute_node-Ends : (fuel : ℕ) → EndsBelow fuel (execute_node d is_met runs fuel)
    unfolding execute_node
    execute_node-Ends zero x n known l = absurd (omega (arith, l))
    execute_node-Ends (suc fuel) x n ((p, r), known) l = elim (Bool-cases (may_start d x n)) [
      | inr t ↦ (x, rw (t, execute_node) refl, λ id h. h)
      | inl t ↦
          let execute = execute_node d is_met runs fuel in
          let o = runs n.id (starts n.id x.events) in
          let ran = interrupted o.interrupt (start n.id x) in
          let same : (id : ℕ) → is_over ran id ≡ is_over x id =
            interrupted_over o.interrupt (start n.id x) in
          let grown : Grows x (complete n.id ran) =
            λ id h. (let was = same id in ground (arith, h, was)) in
          let over : is_over (complete n.id ran) n.id ≡ true = ground arith in
          let left =
            remaining_drops x (complete n.id ran) d.nodes n.id grown known (may_start_over d x n t)
              over in
          let (y, e, g) =
            after_run-Ends fuel execute n ran o.succeeds (execute_node-Ends fuel) r
              (omega (arith, l, left)) in
          (y, rw (t, execute_node, and_then, p) e, λ id h. g id (same id ∙ h))
    ]

    execute_starts-Ends :
        (fuel : ℕ) (ns : List WorkflowNode) (x : WorkflowExecution)
        → All (IsKnown d.nodes) ns
        → remaining x d.nodes < fuel
        → Ends x (execute_starts d is_met runs fuel ns x)
    unfolding execute_starts
    execute_starts-Ends fuel [] x ks l = (x, refl, λ id h. h)
    execute_starts-Ends fuel (n ∷ ns) x (k, ks) l =
        let (y, ran, g) = execute_node-Ends fuel x n k l in
        let less : remaining y d.nodes < fuel = omega (arith, remaining_falls x y d.nodes g) in
        let (z, rest, g') = execute_starts-Ends fuel ns y ks less in
        (z, rw (execute_starts, ran) rest, λ id h. g' id (g id h))

    -- The execution of a workflow none of whose nodes is parallel or has retries ends, whatever its
    -- edges are, loops among them, and whatever its nodes do.
    pub execute_workflow_ends :
        (fuel : ℕ)
        → length d.nodes < fuel
        → (y : WorkflowExecution) × (execute_workflow d is_met runs fuel new_execution ≡ ended y)
    unfolding execute_workflow get_start_nodes
    execute_workflow_ends fuel l =
        let known = start_nodes-IsKnown d.nodes d.nodes d.edges (every-IsKnown d.nodes plain) in
        let less : remaining new_execution d.nodes < fuel =
          omega (arith, remaining-le-length new_execution d.nodes) in
        let (y, ran, g) =
          execute_starts-Ends fuel (start_nodes d.edges d.nodes) new_execution known less in
        (finish d is_met runs y, rw (execute_workflow, get_start_nodes, ran) refl)
