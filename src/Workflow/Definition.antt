-- ===== src/Workflow/Definition.antt =====
-- src/lib/workflow/WorkflowEngine.ts: workflow definitions and their validation.
use edge_cloud_orchestrator.Prelude.{
  ℕ, suc, zero, Bool, true, false, List, [], ◌∷◌, Option, none, some, ◌==◌, if◌then◌else◌, any,
}

pub data NodeType : Type 0 where
  task decision parallel subworkflow wait notification : NodeType

pub record WorkflowNode : Type 0 where
  pub id : ℕ
  pub type : NodeType
  pub branches : List ℕ
  pub max_retries : Option ℕ

pub record WorkflowEdge : Type 0 where
  pub from : ℕ
  pub to : ℕ
  pub condition : Option ℕ

pub record WorkflowDefinition : Type 0 where
  pub id : ℕ
  pub nodes : List WorkflowNode
  pub edges : List WorkflowEdge
  pub max_retries : ℕ

-- `includes` of arrays, and `has` of sets, of ids.
abbrev pub contains : ℕ → List ℕ → Bool
contains a = any (λ b. b == a)

abbrev pub has_incoming : List WorkflowEdge → ℕ → Bool
has_incoming es id = any (λ e. e.to == id) es

unfoldable pub start_nodes : List WorkflowEdge → List WorkflowNode → List WorkflowNode
start_nodes es [] = []
start_nodes es (n ∷ ns) =
    let rest = start_nodes es ns in if has_incoming es n.id then rest else n ∷ rest

unfoldable pub get_start_nodes : WorkflowDefinition → List WorkflowNode
get_start_nodes d = start_nodes d.edges d.nodes

unfoldable pub outgoing : List WorkflowEdge → ℕ → List WorkflowEdge
outgoing [] id = []
outgoing (e ∷ es) id = let rest = outgoing es id in if e.from == id then e ∷ rest else rest

unfoldable pub incoming : List WorkflowEdge → ℕ → List WorkflowEdge
incoming [] id = []
incoming (e ∷ es) id = let rest = incoming es id in if e.to == id then e ∷ rest else rest

unfoldable pub find_node : List WorkflowNode → ℕ → Option WorkflowNode
find_node [] id = none
find_node (n ∷ ns) id = if n.id == id then some n else find_node ns id

-- The sets of `validateDefinition`: the nodes visited, and those on the recursion's stack.
pub record Search : Type 0 where
  pub visited : List ℕ
  pub stack : List ℕ

abbrev pub without : ℕ → List ℕ → List ℕ
without id [] = []
without id (i ∷ is) = let rest = without id is in if i == id then rest else i ∷ rest

-- The loop of `hasCycle` over the outgoing edges, where `visit` is its recursive call. A search that
-- finds a cycle ends; none means that the fuel is used up.
unfoldable pub scan_edges :
    (ℕ → Search → Option (Search × Bool)) → List WorkflowEdge → Search → Option (Search × Bool)
scan_edges visit [] s = some (s, false)
scan_edges visit (e ∷ es) s = elim (contains e.to s.visited) [
  | true ↦ elim (contains e.to s.stack) [ true ↦ some (s, true) | false ↦ scan_edges visit es s ]
  | false ↦ elim (visit e.to s) [
    | none ↦ none
    | some (s', true) ↦ some (s', true)
    | some (s', false) ↦ scan_edges visit es s'
  ]
]

unfoldable pub has_cycle : ℕ → List WorkflowEdge → ℕ → Search → Option (Search × Bool)
has_cycle zero es id s = none
has_cycle (suc fuel) es id s =
    let entered : Search = record { visited = id ∷ s.visited; stack = id ∷ s.stack } in
    elim (scan_edges (has_cycle fuel es) (outgoing es id) entered) [
      | none ↦ none
      | some (s', found) ↦
          some (if found then s' else record s' { stack = without id s'.stack }, found)
    ]

-- The loop over the start nodes: the definition is refused if a search finds a cycle.
unfoldable pub has_cycle_from : ℕ → List WorkflowEdge → List WorkflowNode → Search → Option Bool
has_cycle_from fuel es [] s = some false
has_cycle_from fuel es (n ∷ ns) s = elim (has_cycle fuel es n.id s) [
  | none ↦ none
  | some (s', true) ↦ some true
  | some (s', false) ↦ has_cycle_from fuel es ns s'
]

unfoldable pub is_refused : ℕ → WorkflowDefinition → Option Bool
is_refused fuel d =
    has_cycle_from fuel d.edges (get_start_nodes d) (record { visited = []; stack = [] })
