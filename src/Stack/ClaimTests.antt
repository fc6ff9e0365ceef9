-- ===== src/Stack/ClaimTests.antt =====
-- Runs of the checks on the claims of a stack, and the example of their theorem.
use infraweave.Prelude.{
  All, leb, ◌&&◌, ◌≡◌, refl, true, false, none, some, String, List, [], ◌∷◌, ◌==◌, if◌then◌else◌,
}
use infraweave.Json.{string, object, Fields, end, field, insert_key, get_key}
use infraweave.Json.Keys.{convert_first_level_keys_to_snake_case}
use infraweave.Cloud.{TfVariable, ModuleResp}
use infraweave.Variables.{verify_variable_claim_casing, verify_variable_existence_and_type}
use infraweave.Infra.Manifest.{DeploymentManifest}
use infraweave.Stack.Cycle.{detect_cycle, search_from, all_nodes, dfs, neighbors}
use infraweave.Stack.Claims.{
  Validated, valid, invalid, invalid_example_variable, Reference, circular_dependency,
  self_referencing_claim, StackCrates,
}
use infraweave.Stack.Validate.{Claims, validate_dependencies, validate_claim_modules}
use infraweave.Stack.Examples.{
  Yaml, yaml_string, mapping, empty, entry, is_all_module_example_variables_valid,
  validate_examples,
}
use infraweave.Stack.ExamplesSound.{IsComplete, validate_examples-IsComplete}
use infraweave.Stack.Manifest.{
  Letters, validate_stack_name, collect_module_outputs, collect_module_variables_with_stack,
}
use infraweave.Stack.Sound.Accepted.{IsSoundStack, validate_claim_modules-IsSoundStack}

-- A text is the reference to a claim of kind Bucket that it stands for.
abbrev captures : String → List Reference
captures s =
    if s == "to a"
    then record { kind = "Bucket"; claim = "aa"; field = "arn" } ∷ []
    else if s == "to b"
    then record { kind = "Bucket"; claim = "bb"; field = "arn" } ∷ []
    else []

abbrev crates : StackCrates Fields
crates = record {
  to_snake_case = λ s. s;
  to_camel_case = λ s. s;
  to_uppercase = λ s. s;
  is_reference = λ s. false;
  captures = captures;
  is_empty_mapping = λ fs. false;
  to_json = λ fs. some (object fs);
}

abbrev bucket : ModuleResp
bucket = record {
  track = "stable";
  version = "1.0.0";
  module_name = "Bucket";
  module_id = "bucket";
  module_type = "module";
  tf_variables =
      record {
        name = "policy";
        type_value = string "string";
        default = none;
        description = "";
        nullable = true;
        sensitive = false;
      }
      ∷ [];
  tf_outputs = record { name = "arn"; value = ""; description = ""; sensitive = none } ∷ [];
  tf_providers = [];
  cpu = "1";
  memory = "2";
  deprecated = false;
  deprecated_message = none;
}

abbrev claim : String → String → DeploymentManifest Fields
claim name policy = record {
  name = name;
  namespace = none;
  annotations = none;
  api_version = "infraweave.io/v1";
  kind = "Bucket";
  module_version = some "1.0.0";
  stack_version = none;
  region = "N/A";
  reference = none;
  variables = field "policy" (string policy) end;
  dependencies = none;
  drift_detection = none;
}

abbrev stack : String → String → Claims crates
stack a b = (claim "aa" a, bucket) ∷ (claim "bb" b, bucket) ∷ []

abbrev validate : Claims crates → Validated
validate claims = validate_claim_modules crates (λ g. g) claims

circular_stack : validate (stack "to b" "to a") ≡ invalid (circular_dependency ("aa" ∷ "bb" ∷ []))
unfolding validate_claim_modules validate_dependencies insert_key verify_variable_claim_casing
    verify_variable_existence_and_type convert_first_level_keys_to_snake_case detect_cycle
    search_from all_nodes dfs neighbors
circular_stack = refl

self_reference : validate (stack "to a" "") ≡ invalid (self_referencing_claim "Bucket" "aa" "arn")
unfolding validate_claim_modules validate_dependencies insert_key verify_variable_claim_casing
    verify_variable_existence_and_type convert_first_level_keys_to_snake_case
self_reference = refl

sound_stack : validate (stack "" "to a") ≡ valid
unfolding validate_claim_modules validate_dependencies insert_key verify_variable_claim_casing
    verify_variable_existence_and_type convert_first_level_keys_to_snake_case detect_cycle
    search_from all_nodes dfs neighbors
sound_stack = refl

validate_claim_modules-IsSoundStack_example : IsSoundStack crates (stack "" "to a")
validate_claim_modules-IsSoundStack_example =
    validate_claim_modules-IsSoundStack crates (λ g. g) (λ g name. refl) (stack "" "to a")
      sound_stack

-- A variable of a stack, which has to be set, and an example that sets it
abbrev stack_variable : String → TfVariable
stack_variable name = record {
  name = name;
  type_value = string "string";
  default = none;
  description = "";
  nullable = false;
  sensitive = false;
}

abbrev example : String → Yaml
example name =
    mapping
      (entry (yaml_string "aa") (mapping (entry (yaml_string name) (yaml_string "x") empty)) empty)

abbrev validate_example : Yaml → Validated
validate_example y =
    validate_examples (λ s. s) (λ s. s) (λ keys. keys) (stack_variable "aa__policy" ∷ [])
      (some (y ∷ []))

unknown_variable :
    validate_example (example "other")
    ≡ invalid (
        invalid_example_variable
          "Example variable other does not exist under aa (or maybe it is already set in claim?)")
unfolding validate_examples is_all_module_example_variables_valid
unknown_variable = refl

unset_variable :
    validate_example (mapping (entry (yaml_string "aa") (mapping empty) empty))
    ≡ invalid
        (invalid_example_variable "Example variable policy under aa is required but is not set")
unfolding validate_examples is_all_module_example_variables_valid
unset_variable = refl

set_variable : validate_example (example "policy") ≡ valid
unfolding validate_examples is_all_module_example_variables_valid
set_variable = refl

validate_examples-IsComplete_example :
    All (IsComplete (λ s. s) (λ s. s) (stack_variable "aa__policy" ∷ [])) (example "policy" ∷ [])
validate_examples-IsComplete_example =
    validate_examples-IsComplete (λ s. s) (λ s. s) (stack_variable "aa__policy" ∷ []) (λ keys. keys)
      (example "policy" ∷ []) set_variable

abbrev letters : Letters
letters = record {
  is_uppercase = λ c. leb 65 c && leb c 90;
  is_alphanumeric = λ c. true;
  to_lowercase = λ s. "webstack";
}

valid_stack_name :
    validate_stack_name letters
      (record { name = "webstack"; stack_name = "WebStack"; kind = "Stack" })
    ≡ valid
unfolding validate_stack_name
valid_stack_name = refl

outputs_of_a_stack :
    collect_module_outputs (λ s. s) (λ s. s) (λ fs key. get_key fs key) (stack "" "")
    ≡ ("aa__arn", record { name = "arn"; value = ""; description = ""; sensitive = none })
      ∷ ("bb__arn", record { name = "arn"; value = ""; description = ""; sensitive = none })
      ∷ []
unfolding collect_module_outputs
outputs_of_a_stack = refl

variables_of_a_stack :
    collect_module_variables_with_stack
      (λ s. s)
      (λ s. s)
      (λ fs key. get_key fs key)
      ((claim "aa" "x", bucket) ∷ [])
      (some (stack_variable "region" ∷ []))
    ≡ (
      "aa__policy",
      record {
        name = "policy";
        type_value = string "string";
        default = some (string "x");
        description = "";
        nullable = true;
        sensitive = false;
      },
    )
      ∷ ("stack__region", stack_variable "region")
      ∷ []
unfolding collect_module_variables_with_stack
variables_of_a_stack = refl
