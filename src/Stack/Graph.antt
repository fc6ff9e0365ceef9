-- ===== src/Stack/Graph.antt =====
-- A dependency graph, `HashMap<String, Vec<String>>`, in the order in which the map is iterated.
use infraweave.Prelude.{
  ◌==◌, ◌≡◌, true, Option, none, some, String, List, [], ◌∷◌, contains, if◌then◌else◌,
}

abbrev pub Graph : Type 0
Graph = List (String × List String)

-- `graph.get(node)`
abbrev pub get_node : Graph → String → Option (List String)
get_node [] node = none
get_node ((n, ns) ∷ graph) node = if n == node then some ns else get_node graph node

-- `graph.keys()`
abbrev pub nodes : Graph → List String
nodes [] = []
nodes ((n, ns) ∷ graph) = n ∷ nodes graph

abbrev pub successors_of : Option (List String) → List String
successors_of none = []
successors_of (some ns) = ns

-- The neighbours that the search visits.
abbrev pub successors : Graph → String → List String
successors graph node = successors_of (get_node graph node)

abbrev pub Edge : Graph → String → String → Type 0
Edge graph a b = contains (successors graph a) b ≡ true

-- Walks of at least one edge.
pub data Walk (graph : Graph) (a : String) : String → Type 0 where
  one : {b : String} → Edge graph a b → Walk graph a b
  more : {b c : String} → Walk graph a b → Edge graph b c → Walk graph a c

-- A list of nodes, each with an edge to the next, and the last with an edge to `first`.
abbrev pub IsLoop : Graph → String → List String → Type 0
IsLoop graph first [] = ⊥
IsLoop graph first (a ∷ []) = Edge graph a first
IsLoop graph first (a ∷ b ∷ rest) = Edge graph a b × IsLoop graph first (b ∷ rest)

abbrev pub IsCycle : Graph → List String → Type 0
IsCycle graph [] = ⊥
IsCycle graph (a ∷ rest) = IsLoop graph a (a ∷ rest)
