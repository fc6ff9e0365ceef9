-- ===== src/Stack/Manifest.antt =====
-- env_common/src/logic/api_stack.rs: the checks on the stack itself, and what its claims bring together.
-- A HashMap is the list of its entries. The Unicode tables for letters, the conversions between cases
-- and YAML are parameters.
use infraweave.Prelude.{
  ℕ, Bool, true, false, not, Option, none, some, String, List, [], ◌∷◌, ◌==◌, codes, concat,
  if◌then◌else◌,
}
use infraweave.Json.{Value}
use infraweave.Cloud.{TfVariable, TfOutput, ModuleResp}
use infraweave.Infra.Manifest.{DeploymentManifest}
use infraweave.Stack.Claims.{
  Validated, panic, ◌and_then◌, unless, validation_error, matches_claim_name,
}

pub record StackManifest : Type 0 where
  pub name : String
  pub stack_name : String
  pub kind : String

-- Rust's tests of characters, by their codes
pub record Letters : Type 0 where
  pub is_uppercase : ℕ → Bool
  pub is_alphanumeric : ℕ → Bool
  pub to_lowercase : String → String

module _ (letters : Letters) where
  abbrev all_alphanumeric : List ℕ → Bool
  all_alphanumeric [] = true
  all_alphanumeric (c ∷ cs) =
      let rest = all_alphanumeric cs in if letters.is_alphanumeric c then rest else false

  -- The first character, which is unwrapped
  abbrev check_first : String → List ℕ → Validated
  check_first stack_name [] = panic
  check_first stack_name (c ∷ cs) = unless (not (letters.is_uppercase c)) (
      validation_error
        (concat ("The stackName " ∷ stack_name ∷ " must start with an uppercase character." ∷ [])))

  unfoldable pub validate_stack_name : StackManifest → Validated
  validate_stack_name m =
      unless (not (matches_claim_name (codes m.name))) (
        validation_error
          (concat ("The name " ∷ m.name ∷ " must only use lowercase characters and numbers." ∷ [])))
      and_then check_first m.stack_name (codes m.stack_name)
      and_then unless (not (all_alphanumeric (codes m.stack_name))) (
          validation_error (
            concat (
              "The stackName " ∷ m.stack_name
              ∷ " must only contain alphanumeric characters (no hyphens, underscores, or special "
              ∷ "characters)." ∷ [])))
      and_then unless (not (letters.to_lowercase m.stack_name == m.name)) (
          validation_error (
            concat (
              "The name " ∷ m.name
              ∷ " must exactly match lowercase of the stackName specified under spec "
              ∷ m.stack_name ∷ "." ∷ [])))

unfoldable pub validate_stack_kind : StackManifest → Validated
validate_stack_kind m = unless (not (m.kind == "Stack")) (
    validation_error
      (concat ("The kind field in stack.yaml must be 'Stack', but found '" ∷ m.kind ∷ "'." ∷ [])))

-- `HashMap::insert`
abbrev insert_entry {ℓ} : {A : Type ℓ} → String → A → List (String × A) → List (String × A)
insert_entry key value [] = (key, value) ∷ []
insert_entry key value ((k, v) ∷ entries) =
    let rest = insert_entry key value entries in
    if k == key then (key, value) ∷ entries else (k, v) ∷ rest

-- `get_variable` is what a claim has under a key, as JSON; the code panics where that is no JSON.
module _ {Y : Type 0} (to_snake_case to_camel_case : String → String)
    (get_variable : Y → String → Option Value) where
  abbrev collect_modules_into :
      List (DeploymentManifest Y × ModuleResp)
      → List (String × ModuleResp)
      → List (String × ModuleResp)
  collect_modules_into [] modules = modules
  collect_modules_into ((claim, m) ∷ claim_modules) modules =
      collect_modules_into claim_modules (insert_entry (to_snake_case claim.name) m modules)

  unfoldable pub collect_modules :
      List (DeploymentManifest Y × ModuleResp) → List (String × ModuleResp)
  collect_modules claim_modules = collect_modules_into claim_modules []

  abbrev pub get_variable_name : String → String → String
  get_variable_name claim_name variable_name =
      concat (to_snake_case claim_name ∷ "__" ∷ variable_name ∷ [])

  abbrev pub get_output_name : String → String → String
  get_output_name claim_name output_name =
      concat (to_snake_case claim_name ∷ "__" ∷ output_name ∷ [])

  abbrev outputs_of : String → List TfOutput → List (String × TfOutput) → List (String × TfOutput)
  outputs_of claim_name [] outputs = outputs
  outputs_of claim_name (o ∷ os) outputs =
      outputs_of claim_name os (insert_entry (get_output_name claim_name o.name) o outputs)

  abbrev collect_outputs_into :
      List (DeploymentManifest Y × ModuleResp) → List (String × TfOutput) → List (String × TfOutput)
  collect_outputs_into [] outputs = outputs
  collect_outputs_into ((claim, m) ∷ claim_modules) outputs =
      collect_outputs_into claim_modules (outputs_of claim.name m.tf_outputs outputs)

  unfoldable pub collect_module_outputs :
      List (DeploymentManifest Y × ModuleResp) → List (String × TfOutput)
  collect_module_outputs claim_modules = collect_outputs_into claim_modules []

  -- A value that the claim gives is the default of the variable.
  abbrev with_claim_value : Option Value → TfVariable → TfVariable
  with_claim_value none v = v
  with_claim_value (some value) v = record v { default = some value }

  abbrev variables_of :
      DeploymentManifest Y
      → List TfVariable
      → List (String × TfVariable)
      → List (String × TfVariable)
  variables_of claim [] variables = variables
  variables_of claim (v ∷ vs) variables = variables_of claim vs (
      insert_entry (get_variable_name claim.name v.name)
        (with_claim_value (get_variable claim.variables (to_camel_case v.name)) v) variables)

  abbrev collect_variables_into :
      List (DeploymentManifest Y × ModuleResp)
      → List (String × TfVariable)
      → List (String × TfVariable)
  collect_variables_into [] variables = variables
  collect_variables_into ((claim, m) ∷ claim_modules) variables =
      collect_variables_into claim_modules (variables_of claim m.tf_variables variables)

  abbrev stack_variables : List TfVariable → List (String × TfVariable) → List (String × TfVariable)
  stack_variables [] variables = variables
  stack_variables (v ∷ vs) variables =
      stack_variables vs (insert_entry (concat ("stack__" ∷ to_snake_case v.name ∷ [])) v variables)

  unfoldable pub collect_module_variables_with_stack :
      List (DeploymentManifest Y × ModuleResp)
      → Option (List TfVariable)
      → List (String × TfVariable)
  collect_module_variables_with_stack claim_modules none = collect_variables_into claim_modules []
  collect_module_variables_with_stack claim_modules (some stack_vars) =
      stack_variables stack_vars (collect_variables_into claim_modules [])
