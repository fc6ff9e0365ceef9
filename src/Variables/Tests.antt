-- ===== src/Variables/Tests.antt =====
-- The checks of utils/src/variables.rs at a module with two variables and a provider with one.
use infraweave.Prelude.{
  All, ◌≡◌, refl, Bool, true, false, String, [], ◌∷◌, ◌++◌, ◌==◌, none, some, arith, has_prefix,
}
use infraweave.Json.{null, string, object, Fields, end, field, get_key, is_some}
use infraweave.Cloud.{TfVariable, ModuleResp}
use infraweave.Variables.{
  verified, variables_of_providers, is_required, verify_variable_existence_and_type,
  verify_required_variables_are_set, refused, missing_required,
}
use infraweave.Variables.Sound.{verify_required_variables_are_set-is_some}

abbrev bucket_name : TfVariable
bucket_name = record {
  name = "bucket_name";
  type_value = string "string";
  default = none;
  description = "";
  nullable = false;
  sensitive = false;
}

abbrev tags : TfVariable
tags = record bucket_name {
  name = "tags";
  type_value = string "map(string)";
  default = some (object end);
}

abbrev region : TfVariable
region = record bucket_name { name = "region"; nullable = true }

abbrev s3_bucket : ModuleResp
s3_bucket = record {
  track = "stable";
  version = "1.0.0";
  module_name = "S3Bucket";
  module_id = "s3bucket";
  module_type = "module";
  tf_variables = bucket_name ∷ tags ∷ [];
  tf_outputs = [];
  tf_providers = record { name = "aws"; version = "1"; tf_variables = region ∷ [] } ∷ [];
  cpu = "1024";
  memory = "2048";
  deprecated = false;
  deprecated_message = none;
}

abbrev is_reference : String → Bool
is_reference s = has_prefix s "{{"

abbrev given : Fields
given =
    field "bucket_name" (string "b")
      (field "region" null (field "tags" (string "{{ S3Bucket::bucket2::tags }}") end))

fitting : verify_variable_existence_and_type is_reference s3_bucket (object given) ≡ verified
unfolding verify_variable_existence_and_type
fitting = refl

all_given : verify_required_variables_are_set s3_bucket (object given) ≡ verified
unfolding verify_required_variables_are_set
all_given = refl

one_missing :
    verify_required_variables_are_set s3_bucket (object (field "region" null end))
    ≡ refused (missing_required ("bucket_name" ∷ []))
unfolding verify_required_variables_are_set
one_missing = refl

region_required :
    All
      (λ v. (v.name == "region") ≡ true → is_required v ≡ true)
      (s3_bucket.tf_variables ++ variables_of_providers s3_bucket.tf_providers)
region_required = ((λ h. refl), ((λ h. ground (arith, h)), ((λ h. refl), tt)))

verify_required_variables_are_set-is_some_example : is_some (get_key given "region") ≡ true
verify_required_variables_are_set-is_some_example =
    verify_required_variables_are_set-is_some s3_bucket given "region" all_given refl
      region_required
