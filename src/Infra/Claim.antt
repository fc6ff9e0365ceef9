-- ===== src/Infra/Claim.antt =====
-- `validate_and_prepare_claim` and `check_module_deprecation` of env_common/src/logic/api_infra.rs, with
-- the manifest of defs/src/deployment.rs. A mapping of YAML is a type parameter. What other crates do
-- (heck, semver, serde_yaml, the regular expression of a reference) is the record `Crates`; HTTP mode is
-- `http`, none where it is off.
pub mod Passed
pub mod Sound
use infraweave.Prelude.{
  ℕ, ◌≡◌, refl, Bool, true, false, not, ◌&&◌, ◌||◌, Option, none, some, String, List, [], ◌∷◌, ◌++◌,
  ◌==◌, map, join, concat, split_at, tail, if◌then◌else◌,
}
use infraweave.Json.{Value, object, end, unwrap_or}
use infraweave.Json.Keys.{
  convert_first_level_keys_to_snake_case, flatten_and_convert_first_level_keys_to_snake_case,
}
use infraweave.Cloud.{
  Fetched, fetched, fetch_error, ◌>>=◌, ◌>>◌, or_error, TfVariable, ModuleResp, ApiInfraPayload,
  ApiInfraPayloadWithVariables, CloudHandler,
}
use infraweave.Version.{SemVer, get_version_track}
use infraweave.Deployment.Status.{DriftDetection, Dependency, DeploymentResp}
use infraweave.Deployment.Handler.{minus_one}
use infraweave.Variables.{
  VariableError, casing_mismatch, wrong_type, not_found, VariablesError, casing, not_an_object,
  in_variables, missing_required, Verified, verified, refused, panicked, variables_of_providers,
  verify_variable_claim_casing, verify_variable_existence_and_type,
  verify_required_variables_are_set,
}
use infraweave.Infra.Names.{unit_or, validate_name, validate_kind}
use infraweave.Infra.Manifest.{
  DependencySpec, DeploymentManifest, Crates, HttpApi, Details, label, default_drift_detection,
  version_of, checked, names_of,
}

module _ {Y P S : Type 0} (crates : Crates Y) (handler : CloudHandler P S) where
  unfoldable pub get_deployment_details : String → DeploymentManifest Y → Fetched Details
  unfolding validate_name
  get_deployment_details environment m =
      validate_name (join "/" (tail (split_at 47 environment)))
      >> fetched (record {
        region = m.region;
        environment = environment;
        deployment_id = concat (crates.to_lowercase m.kind ∷ "/" ∷ m.name ∷ []);
        module_id = crates.to_lowercase m.kind;
        name = m.name;
      })

  abbrev pub dependency_of : Details → DependencySpec → Dependency
  dependency_of details d = record {
    project_id = handler.get_project_id;
    region = details.region;
    deployment_id =
        concat (crates.to_lowercase d.deployment_id ∷ "/" ∷ crates.to_lowercase d.environment ∷ []);
    environment = details.environment;
  }

  abbrev pub claim_dependencies : Details → Option (List DependencySpec) → List Dependency
  claim_dependencies details none = []
  claim_dependencies details (some ds) = map (dependency_of details) ds

  abbrev pub existing_version : Bool → String → Fetched (Option ModuleResp) → Fetched ModuleResp
  existing_version is_stack version (fetched (some m)) = fetched m
  existing_version is_stack version (fetched none) =
      fetch_error (concat (label is_stack ∷ " version does not exist: " ∷ version ∷ []))
  existing_version is_stack version (fetch_error e) =
      fetch_error (concat ("Failed to verify " ∷ label is_stack ∷ " version: " ∷ e ∷ []))

  abbrev pub find_module :
      Option (HttpApi P S) → Bool → String → String → String → S → Fetched ModuleResp
  find_module (some api) is_stack track module_id version s =
      or_error (concat ("Failed to verify " ∷ label is_stack ∷ " version: " ∷ [])) (
        if is_stack
        then api.get_stack_version track module_id version s
        else api.get_module_version track module_id version s)
  find_module none is_stack track module_id version s = existing_version is_stack version (
      if is_stack
      then handler.get_stack_version module_id track version s
      else handler.get_module_version module_id track version s)

  abbrev pub reason : Option String → String
  reason none = ""
  reason (some msg) = concat ("\nReason: " ∷ msg ∷ [])

  abbrev pub allowed_if_deployed :
      ModuleResp → Bool → String → String → Option (DeploymentResp P) → Fetched (Unit {0})
  allowed_if_deployed m is_stack module_id version (some d) = fetched tt
  allowed_if_deployed m is_stack module_id version none = fetch_error (
      concat (
        label is_stack
        ∷ " "
        ∷ module_id
        ∷ " version "
        ∷ version
        ∷ " has been deprecated and cannot be used for new deployments."
        ∷ reason m.deprecated_message
        ∷ "\nPlease use a different version."
        ∷ []))

  unfoldable pub check_module_deprecation :
      ModuleResp → Bool → String → String → String → String → S → Fetched (Unit {0})
  check_module_deprecation m is_stack module_id version deployment_id environment s =
      if not m.deprecated
      then fetched tt
      else (handler.get_deployment deployment_id environment false s
          >>= allowed_if_deployed m is_stack module_id version)

  -- The server checks this in HTTP mode.
  abbrev pub check_unless_http :
      Option (HttpApi P S)
      → ModuleResp
      → Bool
      → String
      → String
      → String
      → String
      → S
      → Fetched (Unit {0})
  check_unless_http (some api) m is_stack module_id version deployment_id environment s = fetched tt
  check_unless_http none m is_stack module_id version deployment_id environment s =
      check_module_deprecation m is_stack module_id version deployment_id environment s

  unfoldable pub convert_variables : Bool → ModuleResp → Value → Value
  convert_variables is_stack m provided =
      if is_stack
      then flatten_and_convert_first_level_keys_to_snake_case crates.to_snake_case provided ""
          (names_of (variables_of_providers m.tf_providers))
      else convert_first_level_keys_to_snake_case crates.to_snake_case provided

  abbrev pub provided_variables : Y → Fetched Value
  provided_variables y =
      if crates.is_empty_mapping y then fetched (object end) else crates.to_json y

  abbrev pub user_of : Fetched String → String
  user_of (fetched user) = user
  user_of (fetch_error e) = "cli"

  -- What is sent, once everything is checked
  unfoldable pub payload_of :
      DeploymentManifest Y
      → Details
      → Bool
      → String
      → String
      → String
      → List String
      → Value
      → Value
      → String
      → ModuleResp
      → S
      → ApiInfraPayload
  payload_of m details is_stack version track command flags annotations extra_data
        reference_fallback resp s =
      record {
        command = command;
        flags = flags;
        module_id = crates.to_lowercase details.module_id;
        module_type = if is_stack then "stack" else "module";
        module_version = version;
        module_track = track;
        name = details.name;
        environment = details.environment;
        deployment_id = details.deployment_id;
        project_id = handler.get_project_id;
        region = details.region;
        drift_detection = unwrap_or m.drift_detection default_drift_detection;
        next_drift_check_epoch = minus_one;
        annotations = annotations;
        dependencies = claim_dependencies details m.dependencies;
        initiated_by = user_of (handler.get_user_id s);
        cpu = resp.cpu;
        memory = resp.memory;
        reference = unwrap_or m.reference reference_fallback;
        extra_data = extra_data;
      }

  -- The three checks of the variables
  unfoldable pub verify_variables :
      DeploymentManifest Y → ModuleResp → Value → Value → Fetched (Unit {0})
  verify_variables m resp variables provided =
      checked resp (verify_variable_existence_and_type crates.is_reference resp variables)
      >> checked resp (verify_required_variables_are_set resp variables)
      >> checked resp (verify_variable_claim_casing crates.to_camel_case m.name provided)

  -- The checks once the module is found, and the payload
  unfoldable pub prepare_with :
      Option (HttpApi P S)
      → DeploymentManifest Y
      → Details
      → Bool
      → String
      → String
      → Value
      → Value
      → String
      → List String
      → Value
      → String
      → S
      → ModuleResp
      → Fetched (String × ApiInfraPayloadWithVariables)
  unfolding check_module_deprecation convert_variables payload_of verify_variables
  prepare_with http m details is_stack version track annotations provided command flags extra_data
        reference_fallback s resp =
      do
        validate_kind crates.to_lowercase m.kind resp.module_name
        check_unless_http http resp is_stack details.module_id version details.deployment_id
            details.environment s
        let variables = convert_variables is_stack resp provided
        verify_variables m resp variables provided
        fetched (
          details.deployment_id,
          record {
            payload =
                payload_of m details is_stack version track command flags annotations extra_data
                  reference_fallback resp s;
            variables = variables;
          },
        )

  -- `api_version` is the text under that key, if there is one, and `parsed` the manifest.
  unfoldable pub validate_and_prepare_claim :
      Option (HttpApi P S)
      → Option String
      → Fetched (DeploymentManifest Y)
      → String
      → String
      → List String
      → Value
      → String
      → S
      → Fetched (String × ApiInfraPayloadWithVariables)
  unfolding get_deployment_details prepare_with
  validate_and_prepare_claim http api_version parsed environment command flags extra_data
        reference_fallback s =
      do
        unit_or (unwrap_or api_version "" == "infraweave.io/v1")
            (concat ("Unsupported API version: " ∷ unwrap_or api_version "" ∷ []))
        m ← or_error "Failed to parse claim YAML to DeploymentManifest: " parsed
        details ← get_deployment_details environment m
        provided ← provided_variables m.variables
        version ← version_of m.module_version m.stack_version
        annotations ←
            or_error "Failed to convert annotations YAML to JSON: "
              (crates.annotations_to_json m.annotations)
        track ←
            or_error "Failed to get track from version: "
              (get_version_track crates.parse_version version.1)
        resp ← find_module http version.0 track details.module_id version.1 s
        prepare_with http m details version.0 version.1 track annotations provided command flags
            extra_data reference_fallback s resp
