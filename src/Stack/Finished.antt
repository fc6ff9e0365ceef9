-- ===== src/Stack/Finished.antt =====
-- The nodes that the search of `detect_cycle` (env_common/src/logic/api_stack.rs) has finished, and
-- what a call of `dfs` does to them.
use infraweave.Prelude.{
  ℕ, zero, suc, ◌≤◌, ◌<◌, eq_iff, eq_refl, ◌≡◌, refl, sym, ap, ◌∙◌, subst, true, false, ◌||◌,
  String, List, [], ◌∷◌, ◌++◌, inl, inr, arith, contains, contains-append, remove, Bool-cases,
}
use infraweave.Stack.Graph.{Graph, nodes, successors, IsCycle}
use infraweave.Stack.Cycle.{
  Search, Outcome, done, found, out_of_fuel, and_then_search, pop, enter, leave, neighbors, dfs,
}
use infraweave.Stack.Search.{
  Leads, Leads-append, path_from-IsCycle, unvisited, IsSubset, unvisited-le, unvisited-enter,
  successors-absent, remove-absent, pop-append,
}

-- Each node stands before all its successors: the latest finished node comes first.
abbrev pub IsTopological : Graph → List String → Type 0
IsTopological graph [] = Unit
IsTopological graph (n ∷ ns) =
    (contains ns n ≡ false) × IsSubset (successors graph n) ns × IsTopological graph ns

module _ (graph : Graph) where
  -- `finished` holds what is visited and not on the stack.
  pub record Inv (s : Search) (finished : List String) : Type 0 where
    pub visited : (x : String) → contains s.visited x ≡ (contains s.stack x || contains finished x)
    pub apart : (x : String) → contains s.stack x ≡ true → contains finished x ≡ false
    pub on_path : (x : String) → contains s.path x ≡ contains s.stack x
    pub order : IsTopological graph finished

  -- How a part of the search may end: with the stack and the path as they were and more nodes
  -- finished, or with a cycle.
  abbrev pub Ends : Search → List String → (List String → Type 0) → Outcome → Type 0
  Ends s finished Goal (done t) =
      (more : List String) × Inv t more
      × (t.stack ≡ s.stack)
      × (t.path ≡ s.path)
      × IsSubset finished more
      × Goal more
  Ends s finished Goal (found cycle) = IsCycle graph cycle
  Ends s finished Goal out_of_fuel = ⊥

  abbrev pub left : Search → ℕ
  left s = unvisited (nodes graph) s.visited

  pub left-le :
      (s t : Search) (f g : List String)
      → Inv s f
      → Inv t g
      → t.stack ≡ s.stack
      → IsSubset f g
      → left t ≤ left s
  left-le s t f g a b e sub =
      unvisited-le (nodes graph) s.visited t.visited
        λ x h. ground (arith, a.visited x, b.visited x, sub x, ap (λ l. contains l x) e)

  -- What `dfs` needs of a node that is not visited, and what it gives.
  abbrev pub Visits : (String → Search → Outcome) → ℕ → Type 0
  Visits visit fuel =
      (n : String) (s : Search) (f : List String)
      → Inv s f
      → contains s.visited n ≡ false
      → Leads graph s.path n
      → left s < fuel
      → Ends s f (λ g. contains g n ≡ true) (visit n s)

  Inv-enter :
      (n : String) (s : Search) (f : List String)
      → Inv s f
      → contains s.visited n ≡ false
      → Inv (enter n s) f
  Inv-enter n s f inv new = record {
    visited = λ x. ground (arith, inv.visited x);
    apart = λ x h. ground (arith, inv.apart x, inv.visited n, eq_iff n x);
    on_path = λ x. ground (arith, inv.on_path x, contains-append s.path (n ∷ []) x);
    order = inv.order;
  }

  leave-eq :
      (n : String) (s t : Search)
      → contains s.stack n ≡ false
      → t.stack ≡ n ∷ s.stack
      → t.path ≡ s.path ++ n ∷ []
      → leave n t ≡ record s { visited = t.visited }
  leave-eq n s t new e p =
      let stack : remove n t.stack ≡ s.stack =
        ap (remove n) e ∙ rw (eq_refl n) (remove-absent n s.stack new) in
      let path : pop t.path ≡ s.path = ap pop p ∙ pop-append s.path n in
      λ i. record { visited = t.visited; stack = stack i; path = path i }

  pub Inv-leave :
      (n : String) (s t : Search) (f g : List String)
      → Inv s f
      → Inv t g
      → contains s.visited n ≡ false
      → t.stack ≡ n ∷ s.stack
      → IsSubset (successors graph n) g
      → Inv (record s { visited = t.visited }) (n ∷ g)
  Inv-leave n s t f g a b new e closed =
      let on_stack = λ (x : String). ap (λ l. contains l x) e in
      record {
        visited = λ x. ground (arith, b.visited x, on_stack x);
        apart = λ x h. ground (arith, b.apart x, on_stack x, a.visited n, eq_iff n x);
        on_path = a.on_path;
        order = (ground (arith, b.apart n, on_stack n, eq_refl n), closed, b.order);
      }

  pub Ends-map :
      (s : Search) (f : List String) (G H : List String → Type 0) (o : Outcome)
      → ((g : List String) → IsSubset f g → G g → H g)
      → Ends s f G o
      → Ends s f H o
  Ends-map s f G H (done t) k (g, inv, e, p, sub, goal) = (g, inv, e, p, sub, k g sub goal)
  Ends-map s f G H (found c) k e = e
  Ends-map s f G H out_of_fuel k e = e

  pub Ends-from :
      (s t : Search) (f g : List String) (H : List String → Type 0) (o : Outcome)
      → t.stack ≡ s.stack
      → t.path ≡ s.path
      → IsSubset f g
      → Ends t g H o
      → Ends s f H o
  Ends-from s t f g H (done u) e p sub (w, inv, e', p', sub', goal) =
      (w, inv, e' ∙ e, p' ∙ p, (λ x m. sub' x (sub x m)), goal)
  Ends-from s t f g H (found c) e p sub c' = c'
  Ends-from s t f g H out_of_fuel e p sub c' = c'

  pub Ends-bind :
      (s : Search) (f : List String) (G H : List String → Type 0) (o : Outcome)
      (k : Search → Outcome)
      → Ends s f G o
      → ((t : Search) (g : List String)
          → Inv t g
          → t.stack ≡ s.stack
          → t.path ≡ s.path
          → IsSubset f g
          → G g
          → Ends t g H (k t))
      → Ends s f H (and_then_search o k)
  Ends-bind s f G H (done t) k (g, inv, e, p, sub, goal) next =
      Ends-from s t f g H (k t) e p sub (next t g inv e p sub goal)
  Ends-bind s f G H (found c) k e next = e
  Ends-bind s f G H out_of_fuel k e next = e

  -- The loop over neighbours that the path leads to.
  pub neighbors-Ends :
      (visit : String → Search → Outcome) (fuel : ℕ) (ns : List String) (s : Search)
      (f : List String)
      → Visits visit fuel
      → Inv s f
      → ((x : String) → contains ns x ≡ true → Leads graph s.path x)
      → left s < fuel
      → Ends s f (λ g. IsSubset ns g) (neighbors visit ns s)
  unfolding neighbors
  neighbors-Ends visit fuel [] s f hv inv leads h = (f, inv, refl, refl, (λ x m. m), λ x m. cc)
  neighbors-Ends visit fuel (n ∷ ns) s f hv inv leads h =
      let others = λ (x : String) (m : contains ns x ≡ true). leads x (ground arith) in
      elim (Bool-cases (contains s.visited n)) [
        | inl old ↦ rw old (elim (Bool-cases (contains s.stack n)) [
          | inl on_stack ↦
              let (cycle, e, c) =
                path_from-IsCycle graph s.path n (inv.on_path n ∙ on_stack)
                  (leads n (ground (arith, eq_refl n))) in
              rw (on_stack, e) c
          | inr off ↦
              let in_f : contains f n ≡ true = ground (arith, inv.visited n) in
              rw off (
                Ends-map s f (λ g. IsSubset ns g) (λ g. IsSubset (n ∷ ns) g) (neighbors visit ns s)
                  (λ g sub rest x m. ground (arith, sub n in_f, rest x, eq_iff n x))
                  (neighbors-Ends visit fuel ns s f hv inv others h))
        ])
        | inr new ↦ rw new (
            Ends-bind s f (λ g. contains g n ≡ true) (λ g. IsSubset (n ∷ ns) g) (visit n s)
              (neighbors visit ns) (hv n s f inv new (leads n (ground (arith, eq_refl n))) h)
              λ t g it e p sub got.
                Ends-map t g (λ w. IsSubset ns w) (λ w. IsSubset (n ∷ ns) w) (neighbors visit ns t)
                  (λ w sub' rest x m. ground (arith, sub' n got, rest x, eq_iff n x))
                  (neighbors-Ends visit fuel ns t g hv it
                    (λ x m. subst (λ q. Leads graph q x) (sym p) (others x m))
                    (omega (arith, left-le s t f g inv it e sub))))
      ]

  leave-Ends :
      (n : String) (s : Search) (f : List String) (o : Outcome)
      → Inv s f
      → contains s.visited n ≡ false
      → Ends (enter n s) f (λ g. IsSubset (successors graph n) g) o
      → Ends s f (λ g. contains g n ≡ true) (and_then_search o (λ t. done (leave n t)))
  leave-Ends n s f (done t) inv new (g, it, e, p, sub, closed) =
      let off : contains s.stack n ≡ false = ground (arith, inv.visited n) in
      let e_left = leave-eq n s t off e p in
      (
        n ∷ g,
        subst (λ u. Inv u (n ∷ g)) (sym e_left) (Inv-leave n s t f g inv it new e closed),
        ap (λ (u : Search). u.stack) e_left,
        ap (λ (u : Search). u.path) e_left,
        (λ x m. ground (arith, sub x m)),
        ground (arith, eq_refl n),
      )
  leave-Ends n s f (found c) inv new e = e
  leave-Ends n s f out_of_fuel inv new e = e

  -- A call of `dfs` on a node that is not visited, with fuel for the nodes that are left.
  pub dfs-Visits : (fuel : ℕ) → Visits (dfs graph fuel) fuel
  unfolding dfs
  dfs-Visits zero n s f inv new leads h = absurd (omega arith)
  dfs-Visits (suc fuel) n s f inv new leads h = rw new (
      leave-Ends n s f (neighbors (dfs graph fuel) (successors graph n) (enter n s)) inv new
        (elim (Bool-cases (contains (nodes graph) n)) [
          | inl key ↦
              neighbors-Ends (dfs graph fuel) fuel (successors graph n) (enter n s) f
                (dfs-Visits fuel) (Inv-enter n s f inv new)
                (λ x m. Leads-append graph s.path n x leads m)
                (omega (arith, unvisited-enter (nodes graph) s.visited n key new))
          | inr leaf ↦
              rw (successors-absent graph n leaf)
                (f, Inv-enter n s f inv new, refl, refl, (λ x m. m), λ x m. cc)
        ]))
