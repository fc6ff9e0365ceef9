-- ===== src/Terraform/Block.antt =====
-- The block of a module in the root module (env_common/src/logic/tf_root_module.rs), with its providers
-- (defs/src/tfprovider.rs) and dependencies. A panic is none.
use infraweave.Prelude.{
  Bool, true, ◌&&◌, Option, none, some, String, List, [], ◌∷◌, ◌++◌, concat, split_at,
  if◌then◌else◌,
}
use infraweave.Terraform.{Expression, string, array, traversal, Expressions, nil, cons}

pub record ProviderSpec : Type 0 where
  pub provider : String
  pub alias : Option String

abbrev pub configuration_name : ProviderSpec → String
configuration_name p = elim p.alias [
  | some alias ↦ concat (p.provider ∷ "." ∷ alias ∷ [])
  | none ↦ p.provider
]

-- An attribute, or that of the providers, whose object has expressions as keys
pub data Attribute : Type 0 where
  attribute : String → Expression → Attribute
  provider_map : List (Expression × Expression) → Attribute

pub record Block : Type 0 where
  pub label : String
  pub attributes : List Attribute

module _ (is_identifier : String → Bool) where
  abbrev all_identifiers : List String → Bool
  all_identifiers [] = true
  all_identifiers (part ∷ parts) = is_identifier part && all_identifiers parts

  -- A variable is a traversal without attributes.
  abbrev of_parts : List String → Option Expression
  of_parts [] = none
  of_parts (first ∷ parts) =
      if is_identifier first && all_identifiers parts then some (traversal first parts) else none

  unfoldable pub config_name_to_expression : String → Option Expression
  config_name_to_expression provider_name = of_parts (split_at 46 provider_name)

  abbrev under_itself :
      Option Expression
      → Option (List (Expression × Expression))
      → Option (List (Expression × Expression))
  under_itself (some e) (some rest) = some ((e, e) ∷ rest)
  under_itself _ _ = none

  unfoldable pub providers : List ProviderSpec → Option (List (Expression × Expression))
  unfolding config_name_to_expression
  providers [] = some []
  providers (p ∷ ps) =
      under_itself (config_name_to_expression (configuration_name p)) (providers ps)

abbrev modules_of : List String → Expressions
modules_of [] = nil
modules_of (s ∷ rest) = cons (traversal "module" (s ∷ [])) (modules_of rest)

abbrev pub dependencies_attributes : List String → List Attribute
dependencies_attributes [] = []
dependencies_attributes (s ∷ rest) = attribute "depends_on" (array (modules_of (s ∷ rest))) ∷ []

abbrev provider_attributes : List (Expression × Expression) → List Attribute
provider_attributes [] = []
provider_attributes (p ∷ ps) = provider_map (p ∷ ps) ∷ []

abbrev assignments : List (String × Expression) → List Attribute
assignments [] = []
assignments ((name, e) ∷ rest) = attribute name e ∷ assignments rest

unfoldable pub module_block :
    String
    → String
    → Option String
    → List (String × Expression)
    → List (Expression × Expression)
    → List String
    → Option Block
module_block name kind module_version variables providers dependencies = elim module_version [
  | none ↦ none
  | some version ↦ some (record {
    label = name;
    attributes =
        (attribute "source" (string (concat ("./" ∷ kind ∷ "-" ∷ version ∷ []))) ∷ [])
        ++ assignments variables
        ++ provider_attributes providers
        ++ dependencies_attributes dependencies;
  })
]
