-- ===== src/Stack/Examples.antt =====
-- `validate_examples` of env_common/src/logic/api_stack.rs: the example variables of a stack. The code takes
-- keys for texts and values for mappings, and panics where they are not. The conversions between cases
-- and the order of the HashSet of keys are parameters.
use infraweave.Prelude.{
  Bool, not, ◌&&◌, ◌||◌, Option, none, some, String, List, [], ◌∷◌, ◌==◌, contains, concat,
  split_text, last_part, if◌then◌else◌,
}
use infraweave.Json.{is_some}
use infraweave.Cloud.{TfVariable}
use infraweave.Variables.{is_null_default}
use infraweave.Stack.Claims.{
  StackError, Validated, valid, invalid, panic, ◌and_then◌, any_variable, invalid_example_variable,
}

-- `serde_yaml::Value`, as far as the check reads it
mutual
  pub data Yaml : Type 0 where
    yaml_string : String → Yaml
    mapping : Entries → Yaml
    yaml_other : Yaml

  pub data Entries : Type 0 where
    empty : Entries
    entry : Yaml → Yaml → Entries → Entries

-- A mapping whose keys are texts
abbrev pub Named : Type 0
Named = List (String × Yaml)

abbrev cons_named : String → Yaml → Option Named → Option Named
cons_named key value none = none
cons_named key value (some rest) = some ((key, value) ∷ rest)

abbrev named : Entries → Option Named
named empty = some []
named (entry (yaml_string key) value entries) = cons_named key value (named entries)
named (entry _ value entries) = none

abbrev pub to_mapping : Yaml → Option Named
to_mapping (mapping entries) = named entries
to_mapping _ = none

abbrev pub keys_of : Named → List String
keys_of [] = []
keys_of ((key, value) ∷ rest) = key ∷ keys_of rest

abbrev first_part : List String → String
first_part [] = ""
first_part (part ∷ parts) = part

-- The claims of the variables
abbrev pub variable_top_level_keys : List TfVariable → List String
variable_top_level_keys [] = []
variable_top_level_keys (v ∷ vs) = first_part (split_text "__" v.name) ∷ variable_top_level_keys vs

abbrev pub check_top_level_keys : List String → List String → Validated
check_top_level_keys known [] = valid
check_top_level_keys known (key ∷ keys) =
    let rest = check_top_level_keys known keys in
    if contains known key
    then rest
    else invalid (
        invalid_example_variable
          (concat ("Example variable under claim name " ∷ key ∷ " does not exist" ∷ [])))

abbrev pub is_required_variable : TfVariable → Bool
is_required_variable v = (not (is_some v.default) || is_null_default v.default) && not v.nullable

abbrev pub required_variables : List TfVariable → List TfVariable
required_variables [] = []
required_variables (v ∷ vs) =
    let rest = required_variables vs in if is_required_variable v then v ∷ rest else rest

-- `retain(|&x| x.name != name)`
abbrev pub retain_other : String → List TfVariable → List TfVariable
retain_other name [] = []
retain_other name (v ∷ vs) =
    let rest = retain_other name vs in if v.name == name then rest else v ∷ rest

-- What is required still, or the end of the check
pub data Checked : Type 0 where
  required : List TfVariable → Checked
  failed : StackError → Checked
  panicked : Checked

abbrev pub and_then_checked : Checked → (List TfVariable → Checked) → Checked
and_then_checked (required vs) k = k vs
and_then_checked (failed e) k = failed e
and_then_checked panicked k = panicked

abbrev missing_variable : TfVariable → Validated
missing_variable v = invalid (
    invalid_example_variable (
      concat (
        "Example variable "
        ∷ last_part (split_text "__" v.name)
        ∷ " under "
        ∷ first_part (split_text "__" v.name)
        ∷ " is required but is not set"
        ∷ [])))

abbrev pub conclude : Checked → Validated
conclude (required []) = valid
conclude (required (v ∷ vs)) = missing_variable v
conclude (failed e) = invalid e
conclude panicked = panic

module _ (to_camel_case to_snake_case : String → String) where
  abbrev pub full_variable_name : String → String → String
  full_variable_name claim_key key =
      concat (to_snake_case claim_key ∷ "__" ∷ to_snake_case key ∷ [])

  abbrev pub not_camel_case : String → StackError
  not_camel_case key =
      invalid_example_variable (
        concat ("Example variable " ∷ key ∷ " is not camelCase like in the deployment claims" ∷ []))

  abbrev pub does_not_exist : String → String → StackError
  does_not_exist claim_key key = invalid_example_variable (
      concat (
        "Example variable " ∷ key ∷ " does not exist under " ∷ claim_key
        ∷ " (or maybe it is already set in claim?)" ∷ []))

  abbrev pub check_variable : List TfVariable → String → String → List TfVariable → Checked
  check_variable tf_variables claim_key key vs =
      if not (key == to_camel_case key)
      then failed (not_camel_case key)
      else if any_variable (full_variable_name claim_key key) tf_variables
      then required (retain_other (full_variable_name claim_key key) vs)
      else failed (does_not_exist claim_key key)

  -- The variables under one claim
  abbrev pub check_entries : List TfVariable → String → Entries → List TfVariable → Checked
  check_entries tf_variables claim_key empty vs = required vs
  check_entries tf_variables claim_key (entry (yaml_string key) value entries) vs =
      and_then_checked (check_variable tf_variables claim_key key vs)
        (check_entries tf_variables claim_key entries)
  check_entries tf_variables claim_key (entry _ value entries) vs = panicked

  abbrev pub check_claim_variables : List TfVariable → String → Yaml → List TfVariable → Checked
  check_claim_variables tf_variables claim_key (mapping entries) vs =
      check_entries tf_variables claim_key entries vs
  check_claim_variables tf_variables claim_key _ vs = panicked

  abbrev pub check_claims_of : List TfVariable → Named → List TfVariable → Checked
  check_claims_of tf_variables [] vs = required vs
  check_claims_of tf_variables ((claim_key, value) ∷ rest) vs =
      and_then_checked (check_claim_variables tf_variables claim_key value vs)
        (check_claims_of tf_variables rest)

  abbrev pub check_example :
      (List String → List String) → List TfVariable → Option Named → Validated
  check_example iter tf_variables none = panic
  check_example iter tf_variables (some example_variables) =
      check_top_level_keys (variable_top_level_keys tf_variables) (iter (keys_of example_variables))
      and_then conclude
          (check_claims_of tf_variables example_variables (required_variables tf_variables))

  unfoldable pub is_all_module_example_variables_valid :
      (List String → List String) → List TfVariable → Yaml → Validated
  is_all_module_example_variables_valid iter tf_variables example_variables =
      check_example iter tf_variables (to_mapping example_variables)

  -- `examples` are the variables of each example.
  abbrev pub check_examples : (List String → List String) → List TfVariable → List Yaml → Validated
  check_examples iter tf_variables [] = valid
  check_examples iter tf_variables (example ∷ examples) =
      is_all_module_example_variables_valid iter tf_variables example
      and_then check_examples iter tf_variables examples

  unfoldable pub validate_examples :
      (List String → List String) → List TfVariable → Option (List Yaml) → Validated
  validate_examples iter tf_variables none = valid
  validate_examples iter tf_variables (some examples) = check_examples iter tf_variables examples
