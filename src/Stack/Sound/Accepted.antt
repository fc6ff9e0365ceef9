-- ===== src/Stack/Sound/Accepted.antt =====
-- `validate_claim_modules` of env_common/src/logic/api_stack.rs, put together.
use infraweave.Prelude.{
  ◌≡◌, refl, sym, ap, ◌∙◌, Option, none, some, String, [], ◌∷◌, contains, Option-cases, inl, inr,
}
use infraweave.Stack.Graph.{Graph, get_node, successors_of, Walk, one, more}
use infraweave.Stack.Cycle.{Outcome, done, found, out_of_fuel, detect_cycle}
use infraweave.Stack.Acyclic.{Decides, detect_cycle-Decides}
use infraweave.Stack.Claims.{
  valid, panic, ◌and_then◌, first_duplicate, check_names, of_outcome, StackCrates,
}
use infraweave.Stack.Validate.{
  Claims, deps_of, check_deps, check_all_deps, dependency_graph, validate_dependencies,
  check_claims, claim_names, validate_claim_modules,
}
use infraweave.Stack.Sound.{
  and_then-valid, IsStackClaim, AllClaims, check_claims-IsStackClaim, check_references-IsResolved,
}
use infraweave.Stack.Sound.Names.{AreUnique, first_duplicate-AreUnique}
use infraweave.Stack.Sound.Edges.{RefersTo, AreResolved, dependency_graph-RefersTo}

check_names-none : (o : Option String) → check_names o ≡ valid → o ≡ none
check_names-none none h = refl
check_names-none (some name) h = cc

absurd_of_panic : {A : Type 0} → panic ≡ valid → A
absurd_of_panic h = cc

-- The search found no cycle, so there is none.
of_outcome-acyclic :
    (g : Graph) (o : Outcome) → Decides g o → of_outcome o ≡ valid → (x : String) → ¬ Walk g x x
of_outcome-acyclic g (done s) d h = d
of_outcome-acyclic g (found cycle) d h = cc
of_outcome-acyclic g out_of_fuel d h = cc

module _ {Y : Type 0} (crates : StackCrates Y) where
  -- A chain of references, at least one
  pub data Chain (claims : Claims crates) (a : String) : String → Type 0 where
    refers : {b : String} → RefersTo crates a b claims → Chain claims a b
    then_refers : {b c : String} → Chain claims a b → RefersTo crates b c claims → Chain claims a c

  -- The stacks that may be published: each name stands once, each claim may stand in a stack, each
  -- reference that is extracted from its variables is to a variable of the stack or to what another claim
  -- exports, and no chain of references between claims comes back.
  pub record IsSoundStack (claims : Claims crates) : Type 0 where
    pub unique : AreUnique (claim_names crates claims)
    pub stack_claims : AllClaims crates (IsStackClaim crates) claims
    pub resolved : AllClaims crates (AreResolved crates claims) claims
    pub acyclic : (a : String) → ¬ Chain claims a a

  check_all_deps-AreResolved :
      (claims rest : Claims crates)
      → check_all_deps crates claims rest ≡ valid
      → AllClaims crates (AreResolved crates claims) rest
  check_all_deps-AreResolved claims [] h = tt
  check_all_deps-AreResolved claims ((claim, m) ∷ rest) h =
      let (a, b) =
        and_then-valid (check_deps crates claims claim (deps_of crates claim))
          (check_all_deps crates claims rest) h in
      elim (Option-cases (deps_of crates claim)) [
        | inl e ↦ absurd_of_panic (sym (ap (check_deps crates claims claim) e) ∙ a)
        | inr (rs, e) ↦ (
          (
            rs,
            e,
            check_references-IsResolved crates claims claim rs
                (sym (ap (check_deps crates claims claim) e) ∙ a),
          ),
          check_all_deps-AreResolved claims rest b,
        )
      ]

  module _ (iter : Graph → Graph)
      (keeps : (g : Graph) (name : String) → get_node (iter g) name ≡ get_node g name) where
    Chain-Walk :
        (claims : Claims crates)
        → AllClaims crates (AreResolved crates claims) claims
        → (a b : String) → Chain claims a b
        → Walk (iter (dependency_graph crates claims)) a b
    Chain-Walk claims h a b (refers x) = one (
        ap (λ o. contains (successors_of o) b) (keeps (dependency_graph crates claims) a)
        ∙ dependency_graph-RefersTo crates claims a b h x)
    Chain-Walk claims h a b (then_refers {b = c} w x) = more (Chain-Walk claims h a c w) (
        ap (λ o. contains (successors_of o) b) (keeps (dependency_graph crates claims) c)
        ∙ dependency_graph-RefersTo crates claims c b h x)

    -- Where the walk of a map has the entries of the map, a stack is accepted only if its claims have
    -- different names, each may stand in a stack, each reference that is extracted from its variables is to
    -- a variable of the stack, which is not checked here, or to what another claim exports, and no chain of
    -- references between claims comes back.
    pub validate_claim_modules-IsSoundStack :
        (claims : Claims crates)
        → validate_claim_modules crates iter claims ≡ valid
        → IsSoundStack claims
    unfolding validate_claim_modules validate_dependencies
    validate_claim_modules-IsSoundStack claims h =
        let graph = iter (dependency_graph crates claims) in
        let (a, dependencies) =
          and_then-valid
            (check_names (first_duplicate [] (claim_names crates claims))
              and_then check_claims crates claims)
            (check_all_deps crates claims claims and_then of_outcome (detect_cycle graph)) h in
        let (names, checked) =
          and_then-valid (check_names (first_duplicate [] (claim_names crates claims)))
            (check_claims crates claims) a in
        let (deps, search) =
          and_then-valid (check_all_deps crates claims claims) (of_outcome (detect_cycle graph))
            dependencies in
        let resolved = check_all_deps-AreResolved claims claims deps in
        record {
          unique =
              first_duplicate-AreUnique [] (claim_names crates claims)
                (check_names-none (first_duplicate [] (claim_names crates claims)) names);
          stack_claims = check_claims-IsStackClaim crates claims checked;
          resolved = resolved;
          acyclic = λ x w.
              of_outcome-acyclic graph (detect_cycle graph) (detect_cycle-Decides graph) search x
                (Chain-Walk claims resolved x x w);
        }
