-- ===== src/Stack/Sound/Edges.antt =====
-- The dependency graph of the claims of a stack in env_common/src/logic/api_stack.rs: it has an edge for
-- each reference of a claim to another.
use infraweave.Prelude.{
  ◌≡◌, refl, sym, ap, subst, ◌∙◌, ◌⊎◌, inl, inr, true, ◌&&◌, ◌||◌, some, String, List, [], ◌∷◌,
  ◌==◌, eq_iff, eq_refl, arith, All, Bool-cases, Option-cases, contains, contains-append,
  if◌then◌else◌,
}
use infraweave.Json.{is_some}
use infraweave.Cloud.{ModuleResp}
use infraweave.Infra.Manifest.{DeploymentManifest}
use infraweave.Stack.Graph.{Graph, successors}
use infraweave.Stack.Claims.{Reference, is_stack_variable, push_edge, StackCrates}
use infraweave.Stack.Validate.{
  Claims, claim_module, deps_of, is_edge, add_nodes, add_deps, add_edges, dependency_graph,
  found_deps,
}
use infraweave.Stack.Sound.{IsExported, IsResolved, AllClaims}

-- The claims that references name
abbrev pub targets : List Reference → List String
targets [] = []
targets (r ∷ rs) = let rest = targets rs in if is_stack_variable r then rest else r.claim ∷ rest

push_edge-successors :
    (n d : String) (g : Graph) (a b : String)
    → contains (successors (push_edge n d g) a) b
      ≡ (contains (successors g a) b || (n == a && d == b))
push_edge-successors n d [] a b = ground arith
push_edge-successors n d ((k, ks) ∷ g) a b = ground (
  arith,
  push_edge-successors n d g a b,
  contains-append ks (d ∷ []) b,
  eq_iff k n,
  eq_iff k a,
  eq_iff n a,
)

module _ {Y : Type 0} (crates : StackCrates Y) where
  is_some-IsExported :
      (r : Reference) (claims : Claims crates)
      → IsExported crates r claims
      → is_some (claim_module crates r.claim claims) ≡ true
  is_some-IsExported r [] x = absurd x
  is_some-IsExported r ((claim, m) ∷ claims) x =
      elim (Option-cases (claim_module crates r.claim claims)) [
        | inl e ↦ elim x [
          | inl (p, q, u) ↦ rw (e, p, eq_refl r.claim) refl
          | inr y ↦ ground (arith, e, is_some-IsExported r claims y)
        ]
        | inr (later, e) ↦ rw e refl
      ]

  add_deps-grows :
      (claims : Claims crates) (n : String) (rs : List Reference) (g : Graph) (a b : String)
      → contains (successors g a) b ≡ true
      → contains (successors (add_deps crates claims n rs g) a) b ≡ true
  add_deps-grows claims n [] g a b h = h
  add_deps-grows claims n (r ∷ rs) g a b h = elim (Bool-cases (is_edge crates claims r)) [
    | inl e ↦
        rw (add_deps, e)
          (add_deps-grows claims n rs (push_edge n r.claim g) a b
            (push_edge-successors n r.claim g a b ∙ rw h refl))
    | inr e ↦ rw (add_deps, e) (add_deps-grows claims n rs g a b h)
  ]

  -- A claim has an edge to each claim that it refers to.
  add_deps-targets :
      (claims : Claims crates) (claim : DeploymentManifest Y) (rs : List Reference) (g : Graph)
      (b : String)
      → All (IsResolved crates claims claim) rs
      → contains (targets rs) b ≡ true
      → contains (successors (add_deps crates claims claim.name rs g) claim.name) b ≡ true
  add_deps-targets claims claim [] g b h c = ground (arith, c)
  add_deps-targets claims claim (r ∷ rs) g b (x, h) c = elim (Bool-cases (is_stack_variable r)) [
    | inl s ↦
        rw (add_deps, is_edge, s)
          (add_deps-targets claims claim rs g b h (sym (rw (targets, s) refl) ∙ c))
    | inr s ↦ elim x [
      | inl t ↦ ground (arith, s, t)
      | inr (exported, t) ↦
          rw (add_deps, is_edge, s, is_some-IsExported r claims exported)
            (elim (Bool-cases (r.claim == b)) [
              | inl e ↦
                  add_deps-grows claims claim.name rs (push_edge claim.name r.claim g) claim.name b
                    (push_edge-successors claim.name r.claim g claim.name b
                      ∙ ground (arith, eq_iff claim.name claim.name, e))
              | inr e ↦
                  add_deps-targets claims claim rs (push_edge claim.name r.claim g) b h
                    (ground (arith, c, s, e))
            ])
    ]
  ]

  add_edges-grows :
      (claims rest : Claims crates) (g : Graph) (a b : String)
      → contains (successors g a) b ≡ true
      → contains (successors (add_edges crates claims rest g) a) b ≡ true
  add_edges-grows claims [] g a b h = h
  add_edges-grows claims ((claim, m) ∷ rest) g a b h =
      add_edges-grows claims rest _ a b
        (add_deps-grows claims claim.name (found_deps crates (deps_of crates claim)) g a b h)

  -- A claim named `a` refers to one named `b`.
  abbrev pub RefersTo : String → String → Claims crates → Type 0
  RefersTo a b [] = ⊥
  RefersTo a b ((claim, m) ∷ claims) =
      ((claim.name ≡ a) × (contains (targets (found_deps crates (deps_of crates claim))) b ≡ true))
      ⊎ RefersTo a b claims

  abbrev pub AreResolved : Claims crates → DeploymentManifest Y → ModuleResp → Type 0
  AreResolved claims claim m =
      (rs : List Reference) × (deps_of crates claim ≡ some rs)
      × All (IsResolved crates claims claim) rs

  add_edges-RefersTo :
      (claims rest : Claims crates) (g : Graph) (a b : String)
      → AllClaims crates (AreResolved claims) rest
      → RefersTo a b rest
      → contains (successors (add_edges crates claims rest g) a) b ≡ true
  add_edges-RefersTo claims [] g a b h x = absurd x
  add_edges-RefersTo claims ((claim, m) ∷ rest) g a b (p, h) (inr x) =
      add_edges-RefersTo claims rest _ a b h x
  add_edges-RefersTo claims ((claim, m) ∷ rest) g a b ((rs, e, p), h) (inl (n, c)) =
      let deps = found_deps crates (deps_of crates claim) in
      add_edges-grows claims rest (add_deps crates claims claim.name deps g) a b (
        subst (λ x. contains (successors (add_deps crates claims claim.name deps g) x) b ≡ true) n
          (add_deps-targets claims claim deps g b
            (subst (All (IsResolved crates claims claim)) (sym (ap (found_deps crates) e)) p) c))

  pub dependency_graph-RefersTo :
      (claims : Claims crates) (a b : String)
      → AllClaims crates (AreResolved claims) claims
      → RefersTo a b claims
      → contains (successors (dependency_graph crates claims) a) b ≡ true
  dependency_graph-RefersTo claims a b h x =
      add_edges-RefersTo claims claims (add_nodes crates claims []) a b h x
