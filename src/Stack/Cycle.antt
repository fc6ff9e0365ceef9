-- ===== src/Stack/Cycle.antt =====
-- `detect_cycle` of env_common/src/logic/api_stack.rs. The recursion of `dfs` is on fuel.
use infraweave.Prelude.{
  ℕ, zero, suc, ◌==◌, Option, none, some, String, List, [], ◌∷◌, ◌++◌, contains, remove, length,
  if◌then◌else◌,
}
use infraweave.Stack.Graph.{Graph, nodes, successors}

-- The sets and the path that the calls of `dfs` share.
pub record Search : Type 0 where
  pub visited : List String
  pub stack : List String
  pub path : List String

pub data Outcome : Type 0 where
  done : Search → Outcome
  found : List String → Outcome
  out_of_fuel : Outcome

abbrev pub and_then_search : Outcome → (Search → Outcome) → Outcome
and_then_search (done s) k = k s
and_then_search (found cycle) k = found cycle
and_then_search out_of_fuel k = out_of_fuel

-- `path.pop()`
abbrev pub pop : List String → List String
pop [] = []
pop (x ∷ []) = []
pop (x ∷ y ∷ path) = x ∷ pop (y ∷ path)

-- `path[start_index..]`, from the first place where `node` stands
abbrev pub path_from : String → List String → Option (List String)
path_from node [] = none
path_from node (x ∷ path) = if x == node then some (x ∷ path) else path_from node path

abbrev pub enter : String → Search → Search
enter node s = record {
  visited = node ∷ s.visited;
  stack = node ∷ s.stack;
  path = s.path ++ node ∷ [];
}

-- `stack.remove(node); path.pop();`
abbrev pub leave : String → Search → Search
leave node s = record s { stack = remove node s.stack; path = pop s.path }

-- A neighbour that is visited already.
abbrev pub seen_again : String → Search → (Search → Outcome) → Outcome
seen_again neighbor s next =
    if contains s.stack neighbor
    then elim (path_from neighbor s.path) [ some cycle ↦ found cycle | none ↦ next s ]
    else next s

-- The loop over the neighbours, `visit` being the recursive call.
unfoldable pub neighbors : (String → Search → Outcome) → List String → Search → Outcome
neighbors visit [] s = done s
neighbors visit (neighbor ∷ rest) s =
    if contains s.visited neighbor
    then seen_again neighbor s (neighbors visit rest)
    else and_then_search (visit neighbor s) (neighbors visit rest)

module _ (graph : Graph) where
  unfoldable pub dfs : ℕ → String → Search → Outcome
  unfolding neighbors
  dfs zero node s = out_of_fuel
  dfs (suc fuel) node s =
      let visit_all =
        and_then_search (neighbors (dfs fuel) (successors graph node) (enter node s))
          (λ t. done (leave node t)) in
      if contains s.visited node then done (leave node s) else visit_all

  -- The loop over the nodes of the graph.
  unfoldable pub all_nodes : ℕ → List String → Search → Outcome
  unfolding dfs
  all_nodes fuel [] s = done s
  all_nodes fuel (node ∷ rest) s = and_then_search (dfs fuel node s) (all_nodes fuel rest)

  abbrev pub start : Search
  start = record { visited = []; stack = []; path = [] }

  unfoldable pub search_from : ℕ → Outcome
  unfolding all_nodes
  search_from fuel = all_nodes fuel (nodes graph) start

  -- A call of `dfs` on a new node takes one of the graph's nodes, or ends at once.
  unfoldable pub detect_cycle : Outcome
  unfolding search_from
  detect_cycle = search_from (suc (length (nodes graph)))
