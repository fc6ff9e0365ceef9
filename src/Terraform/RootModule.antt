-- ===== src/Terraform/RootModule.antt =====
-- `variables` of env_common/src/logic/tf_root_module.rs: what the root module assigns to the inputs of a
-- module.
use infraweave.Prelude.{
  Bool, true, false, ◌&&◌, Option, none, some, String, List, [], ◌∷◌, ◌==◌, if◌then◌else◌,
}
use infraweave.Terraform.{
  Yaml, yaml_string, Mapping, no_entry, entry, Expression, null, bool, number, string, array,
  object, traversal, quoted_string, heredoc, Expressions, nil, cons, Attributes, end, attribute,
  Resolved, resolved, TfInputResolver,
}
use infraweave.Terraform.Resolver.{resolve}

-- A text, or a list or an object of such values
unfoldable mutual
  pub can_be_variable : Expression → Bool
  can_be_variable null = true
  can_be_variable (bool b) = true
  can_be_variable (number n) = true
  can_be_variable (string s) = true
  can_be_variable (array es) = all_variable es
  can_be_variable (object attributes) = all_values attributes
  can_be_variable (traversal first attributes) = false
  can_be_variable (quoted_string s) = false
  can_be_variable (heredoc s) = false

  pub all_variable : Expressions → Bool
  all_variable nil = true
  all_variable (cons e es) = can_be_variable e && all_variable es

  pub all_values : Attributes → Bool
  all_values end = true
  all_values (attribute key e attributes) = can_be_variable e && all_values attributes

-- `Mapping::get` with a text
abbrev pub value_of : Mapping → String → Option Yaml
value_of no_entry key = none
value_of (entry (yaml_string k) value map) key =
    let rest = value_of map key in if k == key then some value else rest
value_of (entry _ value map) key = value_of map key

abbrev pub var_of : String → Expression
var_of name = traversal "var" (name ∷ [])

module _ (self : TfInputResolver) (to_camel_case : String → String) where
  -- An error of a value is a panic here.
  unfoldable pub assigned : String → Resolved Expression → Option Expression
  unfolding can_be_variable
  assigned fq_input_name (resolved e) = some (if can_be_variable e then var_of fq_input_name else e)
  assigned fq_input_name _ = none

  unfoldable pub input_of : String → Option Yaml → Option Expression
  unfolding assigned resolve
  input_of fq_input_name none = some (var_of fq_input_name)
  input_of fq_input_name (some value) = assigned fq_input_name (resolve self value)

  abbrev pub add_input :
      String
      → Option Expression
      → Option (List (String × Expression))
      → Option (List (String × Expression))
  add_input name (some e) (some rest) = some ((name, e) ∷ rest)
  add_input name _ _ = none

  unfoldable pub variables : List (String × String) → Mapping → Option (List (String × Expression))
  unfolding input_of
  variables [] given = some []
  variables ((input_name, fq_input_name) ∷ inputs) given =
      add_input input_name (input_of fq_input_name (value_of given (to_camel_case input_name)))
        (variables inputs given)
