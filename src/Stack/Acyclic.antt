-- ===== src/Stack/Acyclic.antt =====
-- `detect_cycle` of env_common/src/logic/api_stack.rs decides whether a dependency graph has a cycle.
use infraweave.Prelude.{
  ℕ, suc, ◌<◌, ◌==◌, eq_iff, ◌≡◌, refl, sym, ap, ◌∙◌, subst, true, String, List, [], ◌∷◌, inl, inr,
  arith, contains, remove, length, Bool-cases,
}
use infraweave.Stack.Graph.{Graph, nodes, Edge, Walk, one, more, IsCycle}
use infraweave.Stack.Cycle.{
  Search, Outcome, done, found, out_of_fuel, pop, leave, dfs, all_nodes, start, detect_cycle,
}
use infraweave.Stack.Search.{Leads, IsSubset, unvisited-le-length, successors-absent}
use infraweave.Stack.Finished.{
  IsTopological, Inv, Ends, left, left-le, Ends-map, Ends-bind, dfs-Visits,
}

module _ (graph : Graph) where
  closed :
      (ns : List String) (x y : String)
      → IsTopological graph ns
      → contains ns x ≡ true
      → Edge graph x y
      → contains ns y ≡ true
  closed [] x y top h e = cc
  closed (n ∷ ns) x y top h e = elim (Bool-cases (n == x)) [
    | inl here ↦
        let e' = subst (λ z. Edge graph z y) (sym ((eq_iff n x).0 here)) e in
        ground (arith, top.1 y e')
    | inr further ↦ ground (arith, closed ns x y top.2)
  ]

  after_head :
      (n : String) (ns : List String) {y : String}
      → IsTopological graph (n ∷ ns)
      → Walk graph n y
      → contains ns y ≡ true
  after_head n ns {y} top (one e) = top.1 y e
  after_head n ns {y} top (more {b} w e) = closed ns b y top.2 (after_head n ns top w) e

  not-Walk_back :
      (ns : List String) (x : String)
      → IsTopological graph ns
      → contains ns x ≡ true
      → ¬ Walk graph x x
  not-Walk_back [] x top h w = cc
  not-Walk_back (n ∷ ns) x top h w = elim (Bool-cases (n == x)) [
    | inl here ↦
        let w' = subst (λ z. Walk graph z z) (sym ((eq_iff n x).0 here)) w in
        cc (after_head n ns top w', top.0)
    | inr further ↦ not-Walk_back ns x top.2 (ground arith) w
  ]

  nodes-Edge : (x y : String) → Edge graph x y → contains (nodes graph) x ≡ true
  nodes-Edge x y e = elim (Bool-cases (contains (nodes graph) x)) [
    | inl key ↦ key
    | inr leaf ↦ cc (rw (successors-absent graph x leaf) at e)
  ]

  nodes-Walk : (x : String) {y : String} → Walk graph x y → contains (nodes graph) x ≡ true
  nodes-Walk x {y} (one e) = nodes-Edge x y e
  nodes-Walk x (more w e) = nodes-Walk x w

  leave_empty : (n : String) (s : Search) → s.stack ≡ [] → s.path ≡ [] → leave n s ≡ s
  leave_empty n s e p =
      let stack : remove n s.stack ≡ s.stack = ap (remove n) e ∙ sym e in
      let path : pop s.path ≡ s.path = ap pop p ∙ sym p in
      λ i. record { visited = s.visited; stack = stack i; path = path i }

  dfs-visited :
      (fuel : ℕ) (n : String) (s : Search)
      → contains s.visited n ≡ true
      → dfs graph (suc fuel) n s ≡ done (leave n s)
  unfolding dfs
  dfs-visited fuel n s old = rw old

  -- A call of `dfs` from the loop over the nodes, where the stack and the path are empty.
  root-Ends :
      (fuel : ℕ) (n : String) (s : Search) (f : List String)
      → Inv graph s f
      → s.stack ≡ []
      → s.path ≡ []
      → left graph s < suc fuel
      → Ends graph s f (λ g. contains g n ≡ true) (dfs graph (suc fuel) n s)
  root-Ends fuel n s f inv e p h = elim (Bool-cases (contains s.visited n)) [
    | inl old ↦
        let in_f : contains f n ≡ true = ground (arith, inv.visited n, ap (λ l. contains l n) e) in
        rw (dfs-visited fuel n s old) (
          subst (λ t. Ends graph s f (λ g. contains g n ≡ true) (done t))
            (sym (leave_empty n s e p)) (f, inv, refl, refl, (λ x m. m), in_f))
    | inr new ↦
        dfs-Visits graph (suc fuel) n s f inv new (subst (λ q. Leads graph q n) (sym p) tt) h
  ]

  all_nodes-Ends :
      (fuel : ℕ) (ns : List String) (s : Search) (f : List String)
      → Inv graph s f
      → s.stack ≡ []
      → s.path ≡ []
      → left graph s < suc fuel
      → Ends graph s f (λ g. IsSubset ns g) (all_nodes graph (suc fuel) ns s)
  unfolding all_nodes
  all_nodes-Ends fuel [] s f inv e p h = (f, inv, refl, refl, (λ x m. m), λ x m. cc)
  all_nodes-Ends fuel (n ∷ ns) s f inv e p h =
      Ends-bind graph s f (λ g. contains g n ≡ true) (λ g. IsSubset (n ∷ ns) g)
        (dfs graph (suc fuel) n s) (all_nodes graph (suc fuel) ns) (root-Ends fuel n s f inv e p h)
        λ t g it e' p' sub got.
          Ends-map graph t g (λ w. IsSubset ns w) (λ w. IsSubset (n ∷ ns) w)
            (all_nodes graph (suc fuel) ns t)
            (λ w sub' rest x m. ground (arith, sub' n got, rest x, eq_iff n x))
            (all_nodes-Ends fuel ns t g it (e' ∙ e) (p' ∙ p)
              (omega (arith, left-le graph s t f g inv it e' sub)))

  Inv-start : Inv graph (start graph) []
  Inv-start = record { visited = λ x. refl; apart = λ x h. refl; on_path = λ x. refl; order = tt }

  detect_cycle-Ends :
      Ends graph (start graph) [] (λ g. IsSubset (nodes graph) g) (detect_cycle graph)
  unfolding detect_cycle
  detect_cycle-Ends =
      all_nodes-Ends (length (nodes graph)) (nodes graph) (start graph) [] Inv-start refl refl
        (omega (arith, unvisited-le-length (nodes graph) []))

  -- What the outcome says of the graph.
  abbrev pub Decides : Outcome → Type 0
  Decides (done t) = (x : String) → ¬ Walk graph x x
  Decides (found cycle) = IsCycle graph cycle
  Decides out_of_fuel = ⊥

  Ends-Decides :
      (o : Outcome) → Ends graph (start graph) [] (λ g. IsSubset (nodes graph) g) o → Decides o
  Ends-Decides (done t) (g, inv, e, p, sub, all) =
      λ x w. not-Walk_back g x inv.order (all x (nodes-Walk x w)) w
  Ends-Decides (found c) h = h
  Ends-Decides out_of_fuel h = h

  -- The search always ends within its fuel: with a list of nodes that form a cycle, or without one,
  -- and then no node of the graph has a walk back to itself.
  pub detect_cycle-Decides : Decides (detect_cycle graph)
  detect_cycle-Decides = Ends-Decides (detect_cycle graph) detect_cycle-Ends
