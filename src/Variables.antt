-- ===== src/Variables.antt =====
-- utils/src/variables.rs: the checks of a claim's variables against those of a module. An error has the
-- parts of its message. The conversions between cases, of the crate heck, and the test for a reference,
-- a regular expression, are parameters.
pub mod Sound
mod Tests
use Prim.Native.Nat.{Ordering}
use Prim.Native.String.{compare}
use infraweave.Prelude.{
  ℕ, ◌≡◌, refl, Bool, true, false, not, ◌&&◌, ◌||◌, Option, none, some, String, List, [], ◌∷◌, ◌++◌,
  ◌==◌, contains, has_prefix, if◌then◌else◌,
}
use infraweave.Json.{
  Value, null, bool, number, string, array, object, Fields, end, field, get_key, keys, as_str,
  is_some,
}
use infraweave.Cloud.{TfVariable, ProviderResp, ModuleResp}

pub data VariableError : Type 0 where
  casing_mismatch : String → String → String → VariableError
  wrong_type : String → String → String → VariableError
  not_found : String → VariableError

pub data VariablesError : Type 0 where
  casing : VariableError → VariablesError
  not_an_object : VariablesError
  in_variables : List VariableError → VariablesError
  missing_required : List String → VariablesError

-- `Ok(())`, an error or a panic
pub data Verified : Type 0 where
  verified : Verified
  refused : VariablesError → Verified
  panicked : Verified

-- The names that the messages of round trips hold: the original, in camelCase and back
pub data NameError : Type 0 where
  fails_roundtrip : String → String → String → NameError

-- The first key that is not in camelCase
abbrev pub first_mismatch : (String → String) → String → List String → Verified
first_mismatch to_camel_case claim_name [] = verified
first_mismatch to_camel_case claim_name (key ∷ rest) =
    if key == to_camel_case key
    then first_mismatch to_camel_case claim_name rest
    else refused (casing (casing_mismatch claim_name key (to_camel_case key)))

unfoldable pub verify_variable_claim_casing : (String → String) → String → Value → Verified
verify_variable_claim_casing to_camel_case claim_name (object provided_vars) =
    first_mismatch to_camel_case claim_name (keys provided_vars)
verify_variable_claim_casing to_camel_case claim_name _ = verified

abbrev pub variables_of_providers : List ProviderResp → List TfVariable
variables_of_providers [] = []
variables_of_providers (p ∷ ps) = p.tf_variables ++ variables_of_providers ps

-- `find(|v| v.name == key)`
abbrev pub find_variable : String → List TfVariable → Option TfVariable
find_variable key [] = none
find_variable key (v ∷ vs) = if v.name == key then some v else find_variable key vs

abbrev pub type_of_value : Value → String
type_of_value (string s) = "string"
type_of_value (number n) = "number"
type_of_value (bool b) = "bool"
type_of_value (array xs) = "list"
type_of_value null = "null"
type_of_value (object fs) = "object"

abbrev pub declared_type : Value → String
declared_type (bool b) = "bool"
declared_type (number n) = "number"
declared_type (string val) =
    if has_prefix val "map(" || has_prefix val "object("
    then "object"
    else if has_prefix val "list(" || has_prefix val "set("
    then "list"
    else val
declared_type (array xs) = "list"
declared_type (object fs) = "object"
declared_type null = "null"

abbrev pub is_reference_text : (String → Bool) → Value → Bool
is_reference_text is_match (string s) = is_match s
is_reference_text is_match _ = false

abbrev pub add_error : Option VariableError → List VariableError → List VariableError
add_error none es = es
add_error (some e) es = e ∷ es

-- One round of the loop: the error that it pushes
abbrev pub check_variable :
    (String → Bool) → String → Value → Option TfVariable → Option VariableError
check_variable is_match key value none = some (not_found key)
check_variable is_match key value (some v) =
    if declared_type v.type_value == "any"
    then none
    else if type_of_value value == declared_type v.type_value
    then none
    else if is_reference_text is_match value
    then none
    else if type_of_value value == "null" && v.nullable
    then none
    else some (wrong_type key (type_of_value value) (declared_type v.type_value))

abbrev pub check_fields : (String → Bool) → List TfVariable → Fields → List VariableError
check_fields is_match declared end = []
check_fields is_match declared (field key value fs) =
    add_error (check_variable is_match key value (find_variable key declared))
      (check_fields is_match declared fs)

abbrev pub verified_unless : List VariableError → Verified
verified_unless [] = verified
verified_unless (e ∷ es) = refused (in_variables (e ∷ es))

unfoldable pub verify_variable_existence_and_type : (String → Bool) → ModuleResp → Value → Verified
verify_variable_existence_and_type is_match m (object variables_map) =
    verified_unless (
      check_fields is_match (m.tf_variables ++ variables_of_providers m.tf_providers) variables_map)
verify_variable_existence_and_type is_match m _ = refused not_an_object

-- `sort_by_key`, which is stable, and `dedup_by_key`
abbrev pub insert_by_name : TfVariable → List TfVariable → List TfVariable
insert_by_name v [] = v ∷ []
insert_by_name v (w ∷ ws) =
    let rest = insert_by_name v ws in
    elim (compare v.name w.name) [ Ordering.gt ↦ w ∷ rest | _ ↦ v ∷ w ∷ ws ]

abbrev pub sort_by_name : List TfVariable → List TfVariable
sort_by_name [] = []
sort_by_name (v ∷ vs) = insert_by_name v (sort_by_name vs)

abbrev pub dedup_after : TfVariable → List TfVariable → List TfVariable
dedup_after last [] = []
dedup_after last (v ∷ vs) =
    let same = dedup_after last vs in
    let other = dedup_after v vs in if v.name == last.name then same else v ∷ other

abbrev pub dedup_by_name : List TfVariable → List TfVariable
dedup_by_name [] = []
dedup_by_name (v ∷ vs) = v ∷ dedup_after v vs

abbrev pub is_null_default : Option Value → Bool
is_null_default (some null) = true
is_null_default _ = false

-- Neither of the two reasons to go on
abbrev pub is_required : TfVariable → Bool
is_required v =
    if v.nullable && is_null_default v.default
    then false
    else if is_some v.default && not (is_null_default v.default)
    then false
    else true

abbrev pub missing : Fields → List TfVariable → List String
missing fs [] = []
missing fs (v ∷ vs) =
    let rest = missing fs vs in
    if is_required v && not (is_some (get_key fs v.name)) then v.name ∷ rest else rest

abbrev pub verified_unless_missing : List String → Verified
verified_unless_missing [] = verified
verified_unless_missing (n ∷ ns) = refused (missing_required (n ∷ ns))

unfoldable pub verify_required_variables_are_set : ModuleResp → Value → Verified
verify_required_variables_are_set m (object variables_map) = verified_unless_missing (
    missing variables_map
      (m.tf_variables ++ dedup_by_name (sort_by_name (variables_of_providers m.tf_providers))))
verify_required_variables_are_set m _ = panicked

module _ (to_camel_case to_snake_case : String → String) where
  abbrev pub name_error : String → Option NameError
  name_error name =
      if name == to_snake_case (to_camel_case name)
      then none
      else some (fails_roundtrip name (to_camel_case name) (to_snake_case (to_camel_case name)))

  abbrev pub cons_error : Option NameError → List NameError → List NameError
  cons_error none es = es
  cons_error (some e) es = e ∷ es

  -- The errors, none where the check is passed
  unfoldable pub verify_output_name_roundtrip : List String → List NameError
  verify_output_name_roundtrip [] = []
  verify_output_name_roundtrip (name ∷ names) =
      cons_error (name_error name) (verify_output_name_roundtrip names)

  unfoldable pub verify_variable_name_roundtrip : List TfVariable → List NameError
  verify_variable_name_roundtrip [] = []
  verify_variable_name_roundtrip (v ∷ vs) =
      let rest = verify_variable_name_roundtrip vs in
      if has_prefix v.name "INFRAWEAVE_" then rest else cons_error (name_error v.name) rest
