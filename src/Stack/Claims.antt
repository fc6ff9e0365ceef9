-- ===== src/Stack/Claims.antt =====
-- env_common/src/logic/api_stack.rs: the checks on the claims of a stack, and the dependency graph that
-- they give. Other crates' case conversions, regular expressions over texts and YAML are parameters, and
-- so is the order in which the HashMap of the graph is walked.
use infraweave.Prelude.{
  ℕ, Bool, true, false, ◌&&◌, ◌||◌, Option, none, some, String, List, [], ◌∷◌, ◌++◌, ◌==◌, contains,
  leb, if◌then◌else◌,
}
use infraweave.Json.{Value, string, array, object, Items, nil, cons, Fields, end, field}
use infraweave.Json.Keys.{convert_first_level_keys_to_snake_case}
use infraweave.Cloud.{TfVariable, TfOutput, ModuleResp}
use infraweave.Variables.{VariablesError, Verified, verified, refused, panicked}
use infraweave.Stack.Graph.{Graph}
use infraweave.Stack.Cycle.{Outcome, done, found, out_of_fuel}

-- The errors of `ModuleError` that the checks give
pub data StackError : Type 0 where
  variables : VariablesError → StackError
  validation_error : String → StackError
  invalid_example_variable : String → StackError
  module_version_not_set : String → StackError
  stack_module_namespace_is_set : String → StackError
  stack_claim_reference_not_found : String → String → String → String → StackError
  duplicate_claim_names : String → StackError
  circular_dependency : List String → StackError
  self_referencing_claim : String → String → String → StackError

pub data Validated : Type 0 where
  valid : Validated
  invalid : StackError → Validated
  panic : Validated

infixl 5 ◌and_then◌
abbrev pub ◌and_then◌ : Validated → Validated → Validated
valid and_then v = v
invalid e and_then v = invalid e
panic and_then v = panic

abbrev pub of_verified : Verified → Validated
of_verified verified = valid
of_verified (refused e) = invalid (variables e)
of_verified panicked = panic

abbrev pub unless : Bool → StackError → Validated
unless true e = invalid e
unless false e = valid

-- A reference `{{ Kind::Claim::Field }}`
pub record Reference : Type 0 where
  pub kind : String
  pub claim : String
  pub field : String

-- The first name that stands twice
abbrev pub first_duplicate : List String → List String → Option String
first_duplicate seen [] = none
first_duplicate seen (name ∷ names) =
    if contains seen name then some name else first_duplicate (name ∷ seen) names

abbrev pub check_names : Option String → Validated
check_names none = valid
check_names (some name) = invalid (duplicate_claim_names name)

abbrev is_lower : ℕ → Bool
is_lower c = leb 97 c && leb c 122

abbrev all_lower_or_digit : List ℕ → Bool
all_lower_or_digit [] = true
all_lower_or_digit (c ∷ cs) = (is_lower c || (leb 48 c && leb c 57)) && all_lower_or_digit cs

-- `^[a-z][a-z0-9]+$`
abbrev pub matches_claim_name : List ℕ → Bool
matches_claim_name [] = false
matches_claim_name (c ∷ []) = false
matches_claim_name (c ∷ d ∷ cs) = is_lower c && all_lower_or_digit (d ∷ cs)

-- Stack::variables is no claim of the stack.
abbrev pub is_stack_variable : Reference → Bool
is_stack_variable r = r.kind == "Stack" && r.claim == "variables"

abbrev pub any_output : String → List TfOutput → Bool
any_output name [] = false
any_output name (o ∷ os) = o.name == name || any_output name os

abbrev pub any_variable : String → List TfVariable → Bool
any_variable name [] = false
any_variable name (v ∷ vs) = v.name == name || any_variable name vs

abbrev pub exports : String → String → Option ModuleResp → Bool
exports kind_name field_name none = false
exports kind_name field_name (some m) =
    (any_output field_name m.tf_outputs || any_variable field_name m.tf_variables)
    && m.module_name == kind_name

-- `entry(name).or_default()`, and with a push
abbrev pub or_default : String → Graph → Graph
or_default name [] = (name, []) ∷ []
or_default name ((n, ns) ∷ graph) =
    let rest = or_default name graph in if n == name then (n, ns) ∷ graph else (n, ns) ∷ rest

abbrev pub push_edge : String → String → Graph → Graph
push_edge name dep [] = (name, dep ∷ []) ∷ []
push_edge name dep ((n, ns) ∷ graph) =
    let rest = push_edge name dep graph in
    if n == name then (n, ns ++ (dep ∷ [])) ∷ graph else (n, ns) ∷ rest

abbrev pub of_outcome : Outcome → Validated
of_outcome (done s) = valid
of_outcome (found cycle) = invalid (circular_dependency cycle)
of_outcome out_of_fuel = panic

-- What other crates do
pub record StackCrates (Y : Type 0) : Type 0 where
  pub to_snake_case : String → String
  pub to_camel_case : String → String
  pub to_uppercase : String → String
  pub is_reference : String → Bool
  pub captures : String → List Reference
  pub is_empty_mapping : Y → Bool
  pub to_json : Y → Option Value

module _ {Y : Type 0} (crates : StackCrates Y) where
  -- `serde_json::to_value(vars).unwrap()`, none for a panic
  abbrev pub json_of : Y → Option Value
  json_of vars = if crates.is_empty_mapping vars then some (object end) else crates.to_json vars

  abbrev pub convert_vars_to_snake_json : Y → Option Value
  convert_vars_to_snake_json vars = elim (json_of vars) [
    | some json ↦ some (convert_first_level_keys_to_snake_case crates.to_snake_case json)
    | none ↦ none
  ]

  abbrev in_snake_case : List Reference → List Reference
  in_snake_case [] = []
  in_snake_case (r ∷ rs) =
      record { kind = r.kind; claim = r.claim; field = crates.to_snake_case r.field }
      ∷ in_snake_case rs

  abbrev extract_from_str : Value → List Reference
  extract_from_str (string s) = in_snake_case (crates.captures s)
  extract_from_str _ = []

  abbrev extract_items : Items → List Reference
  extract_items nil = []
  extract_items (cons elem arr) = extract_from_str elem ++ extract_items arr

  abbrev extract_nested : Fields → List Reference
  extract_nested end = []
  extract_nested (field key nested map) = extract_from_str nested ++ extract_nested map

  abbrev extract_value : Value → List Reference
  extract_value (array arr) = extract_items arr
  extract_value (object map) = extract_nested map
  extract_value value = extract_from_str value

  abbrev extract_fields : Fields → List Reference
  extract_fields end = []
  extract_fields (field key value obj) = extract_value value ++ extract_fields obj

  abbrev pub extract_top_level_deps : Value → List Reference
  extract_top_level_deps (object obj) = extract_fields obj
  extract_top_level_deps _ = []
