-- ===== src/Stack/Validate.antt =====
-- `validate_claim_modules` and `validate_dependencies` of env_common/src/logic/api_stack.rs. A refusal of
-- `serde_json::to_value`, which the code unwraps, is a panic.
use infraweave.Prelude.{
  Bool, not, ◌&&◌, Option, none, some, String, List, [], ◌∷◌, ◌==◌, codes, concat, if◌then◌else◌,
}
use infraweave.Json.{Value, is_some}
use infraweave.Json.Keys.{convert_first_level_keys_to_snake_case}
use infraweave.Cloud.{ModuleResp}
use infraweave.Variables.{verify_variable_claim_casing, verify_variable_existence_and_type}
use infraweave.Infra.Manifest.{DeploymentManifest}
use infraweave.Stack.Graph.{Graph}
use infraweave.Stack.Cycle.{detect_cycle}
use infraweave.Stack.Claims.{
  module_version_not_set, validation_error, stack_module_namespace_is_set,
  stack_claim_reference_not_found, self_referencing_claim, Validated, valid, invalid, panic,
  ◌and_then◌, of_verified, unless, Reference, first_duplicate, check_names, matches_claim_name,
  is_stack_variable, exports, or_default, push_edge, of_outcome, StackCrates, json_of,
  convert_vars_to_snake_json, extract_top_level_deps,
}

module _ {Y : Type 0} (crates : StackCrates Y) where
  abbrev pub Claims : Type 0
  Claims = List (DeploymentManifest Y × ModuleResp)

  -- A map from the names of the claims to their modules: the last of a name stands.
  abbrev pub claim_module : String → Claims → Option ModuleResp
  claim_module name [] = none
  claim_module name ((claim, m) ∷ claims) = elim (claim_module name claims) [
    | some later ↦ some later
    | none ↦ if claim.name == name then some m else none
  ]

  abbrev pub deps_of : DeploymentManifest Y → Option (List Reference)
  deps_of claim = elim (convert_vars_to_snake_json crates claim.variables) [
    | some vars_json ↦ some (extract_top_level_deps crates vars_json)
    | none ↦ none
  ]

  abbrev pub reference_error : Claims → DeploymentManifest Y → Reference → Validated
  reference_error claims claim r =
      if is_stack_variable r
      then valid
      else if claim.name == r.claim && claim.kind == r.kind
      then invalid (self_referencing_claim claim.kind claim.name (crates.to_camel_case r.field))
      else if exports r.kind r.field (claim_module r.claim claims)
      then valid
      else invalid
          (stack_claim_reference_not_found claim.name r.kind r.claim (crates.to_camel_case r.field))

  abbrev pub check_references : Claims → DeploymentManifest Y → List Reference → Validated
  check_references claims claim [] = valid
  check_references claims claim (r ∷ rs) =
      reference_error claims claim r and_then check_references claims claim rs

  abbrev pub check_deps : Claims → DeploymentManifest Y → Option (List Reference) → Validated
  check_deps claims claim none = panic
  check_deps claims claim (some deps) = check_references claims claim deps

  abbrev pub check_all_deps : Claims → Claims → Validated
  check_all_deps claims [] = valid
  check_all_deps claims ((claim, m) ∷ rest) =
      check_deps claims claim (deps_of claim) and_then check_all_deps claims rest

  abbrev pub add_nodes : Claims → Graph → Graph
  add_nodes [] graph = graph
  add_nodes ((claim, m) ∷ claims) graph = add_nodes claims (or_default claim.name graph)

  -- The claims that a reference is an edge to
  abbrev pub is_edge : Claims → Reference → Bool
  is_edge claims r = not (is_stack_variable r) && is_some (claim_module r.claim claims)

  abbrev pub add_deps : Claims → String → List Reference → Graph → Graph
  add_deps claims name [] graph = graph
  add_deps claims name (r ∷ rs) graph =
      add_deps claims name rs (if is_edge claims r then push_edge name r.claim graph else graph)

  -- The deps that `check_all_deps` found again
  abbrev pub found_deps : Option (List Reference) → List Reference
  found_deps none = []
  found_deps (some deps) = deps

  abbrev pub add_edges : Claims → Claims → Graph → Graph
  add_edges claims [] graph = graph
  add_edges claims ((claim, m) ∷ rest) graph =
      add_edges claims rest (add_deps claims claim.name (found_deps (deps_of claim)) graph)

  abbrev pub dependency_graph : Claims → Graph
  dependency_graph claims = add_edges claims claims (add_nodes claims [])

  -- `iter` is the map in the order in which it is walked.
  unfoldable pub validate_dependencies : (Graph → Graph) → Claims → Validated
  validate_dependencies iter claims =
      check_all_deps claims claims
      and_then of_outcome (detect_cycle (iter (dependency_graph claims)))

  abbrev pub validate_stack_module_claim_name : DeploymentManifest Y → Validated
  validate_stack_module_claim_name claim = unless (not (matches_claim_name (codes claim.name))) (
      validation_error (
        concat
          ("Claim name " ∷ claim.name ∷ " must only use lowercase characters and numbers." ∷ [])))

  abbrev pub validate_stack_module_claim_region_is_na : DeploymentManifest Y → Validated
  validate_stack_module_claim_region_is_na claim =
      unless (not (crates.to_uppercase claim.region == "N/A")) (
        validation_error (
          concat (
            "Claim " ∷ claim.name ∷ " has the region \"" ∷ claim.region
            ∷ "\" but the value must be set to \"N/A\" when used inside stacks, since this value is "
            ∷ "overridden by the Stacks region parameter when deployed." ∷ [])))

  abbrev pub check_variables : DeploymentManifest Y → ModuleResp → Option Value → Validated
  check_variables claim m none = panic
  check_variables claim m (some provided_variables) =
      of_verified (verify_variable_claim_casing crates.to_camel_case claim.name provided_variables)
      and_then of_verified (
          verify_variable_existence_and_type crates.is_reference m
            (convert_first_level_keys_to_snake_case crates.to_snake_case provided_variables))

  abbrev pub check_claim : DeploymentManifest Y → ModuleResp → Validated
  check_claim claim m =
      check_variables claim m (json_of crates claim.variables)
      and_then unless (not (is_some claim.module_version)) (module_version_not_set claim.name)
      and_then validate_stack_module_claim_name claim
      and_then validate_stack_module_claim_region_is_na claim
      and_then unless (is_some claim.namespace) (stack_module_namespace_is_set claim.name)

  abbrev pub check_claims : Claims → Validated
  check_claims [] = valid
  check_claims ((claim, m) ∷ claims) = check_claim claim m and_then check_claims claims

  abbrev pub claim_names : Claims → List String
  claim_names [] = []
  claim_names ((claim, m) ∷ claims) = claim.name ∷ claim_names claims

  unfoldable pub validate_claim_modules : (Graph → Graph) → Claims → Validated
  validate_claim_modules iter claims =
      check_names (first_duplicate [] (claim_names claims))
      and_then check_claims claims
      and_then validate_dependencies iter claims
