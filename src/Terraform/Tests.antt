-- ===== src/Terraform/Tests.antt =====
-- References in the values of a stack (env_common/src/logic/tf_input_resolver.rs).
use infraweave.Prelude.{
  ◌≡◌, refl, true, String, List, [], ◌∷◌, ◌==◌, All, some, concat, Bool-cases, inl, inr, eq_iff,
  if◌then◌else◌,
}
use infraweave.Json.{pos_int}
use infraweave.Terraform.{
  yaml_string, yaml_number, yaml_sequence, item, no_more, Mapping, entry, no_entry, Expression,
  string, array, cons, nil, traversal, quoted_string, unresolved_reference, resolved, error, panic,
  Capture, TfInputResolver,
}
use infraweave.Terraform.Resolver.{
  resolve, string_to_expression, replace_all, target_of, prefix_name,
}
use infraweave.Terraform.RootModule.{variables, var_of, can_be_variable, assigned, input_of}
use infraweave.Terraform.Block.{
  attribute, provider_map, providers, config_name_to_expression, module_block,
}
use infraweave.Terraform.Plain.{IsWired, variables-IsWired}
use infraweave.Terraform.Known.{IsLast, is_known, string_to_expression-AllKnown}

abbrev capture : String → Capture
capture claim = record {
  full_ref = concat ("{{ S3Bucket::" ∷ claim ∷ "::arn }}" ∷ []);
  kind = "S3Bucket";
  claim = claim;
  field = "arn";
}

-- The matches in the texts below
abbrev matches : String → List Capture
matches s =
    if s == "{{ S3Bucket::a::arn }}"
    then capture "a" ∷ []
    else if s == "{{ S3Bucket::a::arn }}/{{ S3Bucket::b::arn }}"
    then capture "a" ∷ capture "b" ∷ []
    else if s == "{{ S3Bucket::c::arn }}"
    then capture "c" ∷ []
    else []

abbrev resolver : TfInputResolver
resolver = record {
  to_snake_case = λ s. s;
  captures = matches;
  is_identifier = λ s. true;
  to_float = λ n. "0.0";
  is_finite = λ s. true;
  known_variables = "b__arn" ∷ [];
  known_outputs = "a__arn" ∷ [];
}

an_output :
    resolve resolver (yaml_string "{{ S3Bucket::a::arn }}")
    ≡ resolved (traversal "module" ("a" ∷ "arn" ∷ []))
unfolding resolve string_to_expression replace_all target_of prefix_name
an_output = refl

within_a_text :
    string_to_expression resolver "{{ S3Bucket::a::arn }}/{{ S3Bucket::b::arn }}"
    ≡ resolved (quoted_string "${module.a.arn}/${var.b__arn}")
unfolding string_to_expression replace_all target_of prefix_name
within_a_text = refl

-- An error within a sequence is a panic.
an_error :
    resolve resolver (yaml_string "{{ S3Bucket::c::arn }}")
    ≡ error (unresolved_reference "{{ S3Bucket::c::arn }}" "c__arn")
unfolding resolve string_to_expression replace_all target_of prefix_name
an_error = refl

error_in_sequence :
    resolve resolver (yaml_sequence (item (yaml_string "{{ S3Bucket::c::arn }}") no_more)) ≡ panic
unfolding resolve string_to_expression replace_all target_of prefix_name
error_in_sequence = refl

last : (s : String) → IsLast resolver s (matches s)
last s = elim (Bool-cases (s == "{{ S3Bucket::a::arn }}")) [
  | inl e ↦ rw ((eq_iff s "{{ S3Bucket::a::arn }}").0 e) ((λ h. refl), tt)
  | inr e ↦ rw e (elim (Bool-cases (s == "{{ S3Bucket::a::arn }}/{{ S3Bucket::b::arn }}")) [
    | inl d ↦
        rw ((eq_iff s "{{ S3Bucket::a::arn }}/{{ S3Bucket::b::arn }}").0 d)
          ((λ h. cc), ((λ h. cc), tt))
    | inr d ↦ rw d (elim (Bool-cases (s == "{{ S3Bucket::c::arn }}")) [
      | inl c ↦ rw ((eq_iff s "{{ S3Bucket::c::arn }}").0 c) ((λ h. refl), tt)
      | inr c ↦ rw c tt
    ])
  ])
]

string_to_expression-AllKnown_example :
    All (λ c. is_known resolver c ≡ true) (capture "a" ∷ capture "b" ∷ [])
unfolding string_to_expression
string_to_expression-AllKnown_example =
    string_to_expression-AllKnown resolver last "{{ S3Bucket::a::arn }}/{{ S3Bucket::b::arn }}"
      (quoted_string "${module.a.arn}/${var.b__arn}") within_a_text

abbrev given : Mapping
given =
    entry (yaml_string "size") (yaml_number (pos_int 3))
      (entry (yaml_string "target") (yaml_string "{{ S3Bucket::a::arn }}") no_entry)

abbrev inputs : List (String × String)
inputs = ("size", "m__size") ∷ ("target", "m__target") ∷ ("name", "m__name") ∷ []

abbrev attributes : List (String × Expression)
attributes =
    ("size", var_of "m__size")
    ∷ ("target", traversal "module" ("a" ∷ "arn" ∷ []))
    ∷ ("name", var_of "m__name")
    ∷ []

wires : variables resolver (λ s. s) inputs given ≡ some attributes
unfolding variables resolve string_to_expression replace_all target_of prefix_name can_be_variable
    assigned input_of
wires = refl

variables-IsWired_example : IsWired resolver (λ s. s) given inputs attributes
variables-IsWired_example = variables-IsWired resolver (λ s. s) inputs given attributes wires

abbrev aws : Expression
aws = traversal "aws" ("us" ∷ [])

a_provider :
    providers (λ s. true) (record { provider = "aws"; alias = some "us" } ∷ [])
    ≡ some ((aws, aws) ∷ [])
unfolding providers config_name_to_expression
a_provider = refl

a_block :
    module_block "b" "S3Bucket" (some "1.0.0") attributes ((aws, aws) ∷ []) ("a" ∷ [])
    ≡ some (record {
      label = "b";
      attributes =
          attribute "source" (string "./S3Bucket-1.0.0")
          ∷ attribute "size" (var_of "m__size")
          ∷ attribute "target" (traversal "module" ("a" ∷ "arn" ∷ []))
          ∷ attribute "name" (var_of "m__name")
          ∷ provider_map ((aws, aws) ∷ [])
          ∷ attribute "depends_on" (array (cons (traversal "module" ("a" ∷ [])) nil))
          ∷ [];
    })
unfolding module_block
a_block = refl
