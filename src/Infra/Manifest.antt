-- ===== src/Infra/Manifest.antt =====
-- The manifest of a claim (defs/src/deployment.rs), what env_common/src/logic/api_infra.rs takes from other
-- crates and from the server in HTTP mode, and its messages.
use infraweave.Prelude.{
  Bool, true, false, Option, none, some, String, List, [], ◌∷◌, map, join, concat, if◌then◌else◌,
}
use infraweave.Json.{Value}
use infraweave.Cloud.{Fetched, fetched, fetch_error, TfVariable, ModuleResp}
use infraweave.Version.{SemVer}
use infraweave.Deployment.Status.{DriftDetection, DeploymentResp}
use infraweave.Variables.{
  VariableError, casing_mismatch, wrong_type, not_found, VariablesError, casing, not_an_object,
  in_variables, missing_required, Verified, verified, refused, panicked,
}

pub record DependencySpec : Type 0 where
  pub deployment_id : String
  pub environment : String

pub record DeploymentManifest (Y : Type 0) : Type 0 where
  pub name : String
  pub namespace : Option String
  pub annotations : Option Y
  pub api_version : String
  pub kind : String
  pub module_version : Option String
  pub stack_version : Option String
  pub region : String
  pub reference : Option String
  pub variables : Y
  pub dependencies : Option (List DependencySpec)
  pub drift_detection : Option DriftDetection

pub record Crates (Y : Type 0) : Type 0 where
  pub to_lowercase : String → String
  pub to_snake_case : String → String
  pub to_camel_case : String → String
  pub is_reference : String → Bool
  pub parse_version : String → Fetched SemVer
  pub is_empty_mapping : Y → Bool
  pub to_json : Y → Fetched Value
  pub annotations_to_json : Option Y → Fetched Value

pub record HttpApi (P S : Type 0) : Type 0 where
  pub get_module_version : String → String → String → S → Fetched ModuleResp
  pub get_stack_version : String → String → String → S → Fetched ModuleResp
  pub describe_deployment :
      String → String → String → String → S → Fetched (Option (DeploymentResp P))

pub record Details : Type 0 where
  pub region : String
  pub environment : String
  pub deployment_id : String
  pub module_id : String
  pub name : String

abbrev pub label : Bool → String
label is_stack = if is_stack then "Stack" else "Module"

abbrev pub default_drift_detection : DriftDetection
default_drift_detection = record {
  enabled = false;
  interval = "15m";
  auto_remediate = false;
  webhooks = [];
}

-- Whether it is a stack, and its version
abbrev pub version_of : Option String → Option String → Fetched (Bool × String)
version_of (some v) none = fetched (false, v)
version_of none (some v) = fetched (true, v)
version_of (some v) (some w) =
    fetch_error "Both moduleVersion and stackVersion are set, only one should be set"
version_of none none =
    fetch_error "Neither moduleVersion nor stackVersion are set, one should be set"

-- The messages of the checks of variables
abbrev variable_message : ModuleResp → VariableError → String
variable_message m (casing_mismatch claim provided expected) = concat (
    "Variable name casing mismatch in claim '" ∷ claim ∷ "': Provided '" ∷ provided
    ∷ "', expected '" ∷ expected ∷ "'" ∷ [])
variable_message m (wrong_type key found expected) =
    concat
      ("Variable \"" ∷ key ∷ "\" is of type " ∷ found ∷ " but should be of type " ∷ expected ∷ [])
variable_message m (not_found key) = concat (
    "Variable \"" ∷ key ∷ "\" not found in this " ∷ m.module_type ∷ " version (" ∷ m.version
    ∷ "). Please check the documentation for available variables" ∷ [])

abbrev plural : List String → String
plural (a ∷ b ∷ rest) = "s"
plural _ = ""

abbrev message : ModuleResp → VariablesError → String
message m (casing e) = variable_message m e
message m not_an_object = "Expected variables to be a JSON object"
message m (in_variables es) = join "; " (map (variable_message m) es)
message m (missing_required names) =
    concat ("Missing required variable" ∷ plural names ∷ ": \"" ∷ join "\", \"" names ∷ "\"" ∷ [])

-- The check for required variables panics where they are no object, which the check before refuses.
abbrev pub checked : ModuleResp → Verified → Fetched (Unit {0})
checked m verified = fetched tt
checked m (refused e) = fetch_error (message m e)
checked m panicked = fetch_error "panic"

abbrev pub names_of : List TfVariable → List String
names_of [] = []
names_of (v ∷ vs) = v.name ∷ names_of vs
