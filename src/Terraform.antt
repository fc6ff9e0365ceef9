-- ===== src/Terraform.antt =====
-- What a stack or an example assigns to its modules: YAML values with references become expressions of
-- HCL (env_common/src/logic/tf_input_resolver.rs and tf_root_module.rs).
pub mod Resolver
pub mod RootModule
pub mod Block
pub mod Plain
pub mod Known
mod Tests
use infraweave.Prelude.{Bool, String, List}
use infraweave.Json.{Number}

-- `serde_yaml::Value`
mutual
  pub data Yaml : Type 0 where
    yaml_null : Yaml
    yaml_bool : Bool → Yaml
    yaml_number : Number → Yaml
    yaml_string : String → Yaml
    yaml_sequence : Sequence → Yaml
    yaml_mapping : Mapping → Yaml
    yaml_tagged : Yaml → Yaml

  pub data Sequence : Type 0 where
    no_more : Sequence
    item : Yaml → Sequence → Sequence

  pub data Mapping : Type 0 where
    no_entry : Mapping
    entry : Yaml → Yaml → Mapping → Mapping

-- `hcl::Expression`, as far as it is built: a traversal is its first variable and its attributes.
mutual
  pub data Expression : Type 0 where
    null : Expression
    bool : Bool → Expression
    number : Number → Expression
    string : String → Expression
    array : Expressions → Expression
    object : Attributes → Expression
    traversal : String → List String → Expression
    quoted_string : String → Expression
    heredoc : String → Expression

  pub data Expressions : Type 0 where
    nil : Expressions
    cons : Expression → Expressions → Expressions

  pub data Attributes : Type 0 where
    end : Attributes
    attribute : String → Expression → Attributes → Attributes

pub data ModuleError : Type 0 where
  invalid_reference : String → String → ModuleError
  unresolved_reference : String → String → ModuleError

pub data Resolved (A : Type 0) : Type 0 where
  resolved : A → Resolved A
  error : ModuleError → Resolved A
  panic : Resolved A

-- The groups of a match of the regular expression
pub record Capture : Type 0 where
  pub full_ref : String
  pub kind : String
  pub claim : String
  pub field : String

-- `TfInputResolver` and what the crates heck, regex and hcl do
pub record TfInputResolver : Type 0 where
  pub to_snake_case : String → String
  pub captures : String → List Capture
  pub is_identifier : String → Bool
  pub to_float : Number → String
  pub is_finite : String → Bool
  pub known_variables : List String
  pub known_outputs : List String
