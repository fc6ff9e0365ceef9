-- ===== src/Stack/Search.antt =====
-- The search of `detect_cycle` (env_common/src/logic/api_stack.rs): what each call keeps, and that
-- the fuel is enough.
use infraweave.Prelude.{
  ℕ, ◌+◌, ◌≤◌, ◌<◌, ◌==◌, eq_iff, eq_refl, ◌≡◌, refl, sym, ap, subst, true, false, some, String,
  List, [], ◌∷◌, ◌++◌, inl, inr, arith, contains, remove, length, Bool-cases, if◌then◌else◌,
}
use infraweave.Stack.Graph.{Graph, nodes, successors, Edge, IsLoop, IsCycle}
use infraweave.Stack.Cycle.{pop, path_from}

-- The path, followed by `x`, goes along edges.
abbrev pub Leads : Graph → List String → String → Type 0
Leads graph [] x = Unit {0}
Leads graph (a ∷ []) x = Edge graph a x
Leads graph (a ∷ b ∷ path) x = Edge graph a b × Leads graph (b ∷ path) x

pub Leads-append :
    (graph : Graph) (path : List String) (node x : String)
    → Leads graph path node
    → Edge graph node x
    → Leads graph (path ++ node ∷ []) x
Leads-append graph [] node x l e = e
Leads-append graph (a ∷ []) node x l e = (l, e)
Leads-append graph (a ∷ b ∷ path) node x l e = (l.0, Leads-append graph (b ∷ path) node x l.1 e)

Leads-IsLoop :
    (graph : Graph) (a : String) (path : List String) (x : String)
    → Leads graph (a ∷ path) x
    → IsLoop graph x (a ∷ path)
Leads-IsLoop graph a [] x l = l
Leads-IsLoop graph a (b ∷ path) x l = (l.0, Leads-IsLoop graph b path x l.1)

Leads-tail :
    (graph : Graph) (a : String) (path : List String) (x : String)
    → Leads graph (a ∷ path) x
    → Leads graph path x
Leads-tail graph a [] x l = tt
Leads-tail graph a (b ∷ path) x l = l.1

-- A node on the path that the path leads to closes a cycle.
pub path_from-IsCycle :
    (graph : Graph) (path : List String) (x : String)
    → contains path x ≡ true
    → Leads graph path x
    → (cycle : List String) × (path_from x path ≡ some cycle) × IsCycle graph cycle
path_from-IsCycle graph [] x h l = cc
path_from-IsCycle graph (a ∷ path) x h l = elim (Bool-cases (a == x)) [
  | inl here ↦ (
    a ∷ path,
    rw here,
    subst (λ y. IsLoop graph y (a ∷ path)) (sym ((eq_iff a x).0 here))
        (Leads-IsLoop graph a path x l),
  )
  | inr further ↦
      let (cycle, e, c) =
        path_from-IsCycle graph path x (rw further at h) (Leads-tail graph a path x l) in
      (cycle, rw further e, c)
]

-- The nodes of `ks` that are not visited.
abbrev pub unvisited : List String → List String → ℕ
unvisited [] visited = 0
unvisited (k ∷ ks) visited = (if contains visited k then 0 else 1) + unvisited ks visited

abbrev pub IsSubset : List String → List String → Type 0
IsSubset xs ys = (x : String) → contains xs x ≡ true → contains ys x ≡ true

pub unvisited-le : (ks v w : List String) → IsSubset v w → unvisited ks w ≤ unvisited ks v
unvisited-le [] v w h = omega arith
unvisited-le (k ∷ ks) v w h = ground (arith, h k, unvisited-le ks v w h)

pub unvisited-enter :
    (ks v : List String) (n : String)
    → contains ks n ≡ true
    → contains v n ≡ false
    → unvisited ks (n ∷ v) < unvisited ks v
unvisited-enter [] v n h new = cc
unvisited-enter (k ∷ ks) v n h new = elim (Bool-cases (k == n)) [
  | inl here ↦
      let e = (eq_iff k n).0 here in
      ground (arith, eq_refl n, unvisited-le ks v (n ∷ v) (λ x m. ground arith))
  | inr further ↦ ground (arith, eq_iff k n, eq_iff n k, unvisited-enter ks v n)
]

pub unvisited-le-length : (ks v : List String) → unvisited ks v ≤ length ks
unvisited-le-length [] v = omega arith
unvisited-le-length (k ∷ ks) v = ground (arith, unvisited-le-length ks v)

pub successors-absent :
    (graph : Graph) (n : String) → contains (nodes graph) n ≡ false → successors graph n ≡ []
successors-absent [] n h = refl
successors-absent ((k, ks) ∷ graph) n h = ground (arith, successors-absent graph n)

pub remove-absent : (a : String) (xs : List String) → contains xs a ≡ false → remove a xs ≡ xs
remove-absent a [] h = refl
remove-absent a (x ∷ xs) h = ground (arith, remove-absent a xs)

pub pop-append : (xs : List String) (a : String) → pop (xs ++ a ∷ []) ≡ xs
pop-append [] a = refl
pop-append (x ∷ []) a = refl
pop-append (x ∷ y ∷ xs) a = ap (λ zs. x ∷ zs) (pop-append (y ∷ xs) a)
