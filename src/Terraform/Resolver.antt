-- ===== src/Terraform/Resolver.antt =====
-- `TfInputResolver` of env_common/src/logic/tf_input_resolver.rs.
use infraweave.Prelude.{
  ℕ, ◌+◌, ◌^◌, not, ◌&&◌, ◌==◌, Option, none, some, String, List, [], ◌∷◌, concat, eqb, ltb,
  contains, contains_text, replace, if◌then◌else◌,
}
use infraweave.Json.{Number, pos_int, neg_int, float}
use infraweave.Tui.Input.{len_utf8}
use infraweave.Terraform.{
  Yaml, yaml_null, yaml_bool, yaml_number, yaml_string, yaml_sequence, yaml_mapping, yaml_tagged,
  Sequence, no_more, item, Mapping, no_entry, entry, Expression, null, bool, number, string, array,
  object, traversal, quoted_string, heredoc, Expressions, nil, cons, Attributes, end, attribute,
  ModuleError, invalid_reference, unresolved_reference, Resolved, resolved, error, panic, Capture,
  TfInputResolver,
}

-- `len` of a text
abbrev pub byte_size : String → ℕ
byte_size String.[] = 0
byte_size (String.◌∷◌ c s) = len_utf8 c + byte_size s

-- What a reference becomes alone, and within a text
pub data Target : Type 0 where
  found : Expression → String → Target
  missing : ModuleError → Target

abbrev pub finish : String → String → Expression
finish input text =
    if text == input
    then string input
    else if contains_text text "\n"
    then heredoc text
    else quoted_string text

module _ (self : TfInputResolver) where
  abbrev pub number_yaml_to_hcl : Number → Resolved Expression
  number_yaml_to_hcl (pos_int n) =
      let wide = self.to_float (pos_int n) in
      if ltb n (2 ^ 63)
      then resolved (number (pos_int n))
      else if self.is_finite wide
      then resolved (number (float wide))
      else panic
  number_yaml_to_hcl (neg_int n) = resolved (number (neg_int n))
  number_yaml_to_hcl (float x) = if self.is_finite x then resolved (number (float x)) else panic

  unfoldable pub prefix_name : String → String → String
  prefix_name claim_name field_name =
      concat (self.to_snake_case claim_name ∷ "__" ∷ field_name ∷ [])

  abbrev pub to_var : String → Target
  to_var key = found (traversal "var" (key ∷ [])) (concat ("${var." ∷ key ∷ "}" ∷ []))

  abbrev pub to_output : String → String → Target
  to_output claim field =
      found (traversal "module" (claim ∷ field ∷ []))
        (concat ("${module." ∷ claim ∷ "." ∷ field ∷ "}" ∷ []))

  abbrev pub stack_target : Capture → String → Target
  stack_target c key =
      if contains self.known_variables key
      then to_var key
      else missing (unresolved_reference c.full_ref key)

  abbrev pub claim_target : Capture → String → String → Target
  claim_target c field key =
      if contains self.known_outputs key
      then to_output (self.to_snake_case c.claim) field
      else if contains self.known_variables key
      then to_var key
      else missing (unresolved_reference c.full_ref key)

  unfoldable pub target_of : Capture → Target
  unfolding prefix_name
  target_of c =
      let field = self.to_snake_case c.field in
      if not (contains_text c.full_ref (concat (c.kind ∷ "::" ∷ c.claim ∷ "::" ∷ c.field ∷ [])))
      then missing (
          invalid_reference c.full_ref
            (concat ("{{ " ∷ c.kind ∷ "::" ∷ c.claim ∷ "::" ∷ c.field ∷ " }}" ∷ [])))
      else if c.kind == "Stack" && c.claim == "variables"
      then stack_target c (concat ("stack__" ∷ field ∷ []))
      else claim_target c field (prefix_name c.claim field)

  -- The loop over the references, with the text so far
  unfoldable pub replace_all : String → String → List Capture → Resolved Expression
  unfolding target_of
  replace_all input text [] = resolved (finish input text)
  replace_all input text (c ∷ cs) = elim (target_of c) [
    | missing e ↦ error e
    | found whole part ↦
        let rest = replace_all input (replace text c.full_ref part) cs in
        if eqb (byte_size input) (byte_size c.full_ref) then resolved whole else rest
  ]

  unfoldable pub string_to_expression : String → Resolved Expression
  unfolding replace_all
  string_to_expression input = replace_all input input (self.captures input)

  abbrev pub as_array : Option Expressions → Resolved Expression
  as_array none = panic
  as_array (some es) = resolved (array es)

  abbrev pub as_object : Option Attributes → Resolved Expression
  as_object none = panic
  as_object (some attributes) = resolved (object attributes)

  -- `unwrap` of each value of a sequence or a mapping
  abbrev pub first_of : Resolved Expression → Option Expressions → Option Expressions
  first_of (resolved e) (some es) = some (cons e es)
  first_of _ _ = none

  abbrev pub first_under : Yaml → Resolved Expression → Option Attributes → Option Attributes
  first_under (yaml_string key) (resolved e) (some attributes) =
      if self.is_identifier key then some (attribute key e attributes) else none
  first_under _ _ _ = none

  unfoldable mutual
    unfolding string_to_expression

    pub resolve : Yaml → Resolved Expression
    resolve yaml_null = resolved null
    resolve (yaml_bool b) = resolved (bool b)
    resolve (yaml_number n) = number_yaml_to_hcl n
    resolve (yaml_string s) = string_to_expression s
    resolve (yaml_sequence values) = as_array (resolve_items values)
    resolve (yaml_mapping map) = as_object (resolve_entries map)
    resolve (yaml_tagged value) = resolve value

    pub resolve_items : Sequence → Option Expressions
    resolve_items no_more = some nil
    resolve_items (item value values) = first_of (resolve value) (resolve_items values)

    pub resolve_entries : Mapping → Option Attributes
    resolve_entries no_entry = some end
    resolve_entries (entry key value map) = first_under key (resolve value) (resolve_entries map)
