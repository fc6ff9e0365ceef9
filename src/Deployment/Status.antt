-- ===== src/Deployment/Status.antt =====
-- `DeploymentStatus`, its classes and its names, and the records of defs/src/deployment.rs that the
-- status handler sends.
use Prim.Native.String.{◌++◌ as str_append}
use infraweave.Prelude.{
  ℕ, ◌≡◌, refl, Bool, true, false, not, ◌&&◌, Option, none, some, String, List, [], ◌∷◌, ◌==◌,
  if◌then◌else◌,
}
use infraweave.Json.{Value}

pub data DeploymentStatus : Type 0 where
  requested initiated successful failed error failed_init failed_validate : DeploymentStatus
  failed_plan failed_show_plan failed_output failed_prepare : DeploymentStatus
  failed_integrity_check failed_policy waiting_on_dependency : DeploymentStatus
  has_dependants failed_graph : DeploymentStatus

-- An i128
pub data ℤ : Type 0 where
  pos negsuc : ℕ → ℤ

pub record DriftDetection : Type 0 where
  pub enabled : Bool
  pub interval : String
  pub auto_remediate : Bool
  pub webhooks : List (Option String)

pub record Dependency : Type 0 where
  pub project_id : String
  pub region : String
  pub deployment_id : String
  pub environment : String

pub record DeploymentResp (P : Type 0) : Type 0 where
  pub epoch : ℕ
  pub deployment_id : String
  pub status : DeploymentStatus
  pub job_id : String
  pub environment : String
  pub project_id : String
  pub region : String
  pub module_name : String
  pub module_version : String
  pub module_type : String
  pub module_track : String
  pub drift_detection : DriftDetection
  pub next_drift_check_epoch : ℤ
  pub has_drifted : Bool
  pub variables : Value
  pub output : Value
  pub policy_results : List P
  pub error_text : String
  pub deleted : Bool
  pub dependencies : List Dependency
  pub initiated_by : String
  pub cpu : String
  pub memory : String
  pub reference : String
  pub tf_resources : Option (List String)

-- `Display`
unfoldable pub display : DeploymentStatus → String
display requested = "requested"
display initiated = "initiated"
display successful = "successful"
display failed = "failed"
display error = "error"
display failed_init = "failed_init"
display failed_validate = "failed_validate"
display failed_plan = "failed_plan"
display failed_show_plan = "failed_show_plan"
display failed_output = "failed_output"
display failed_prepare = "failed_prepare"
display failed_integrity_check = "failed_integrity_check"
display failed_policy = "failed_policy"
display waiting_on_dependency = "waiting-on-dependency"
display has_dependants = "has-dependants"
display failed_graph = "failed_graph"

-- The names that serde reads, in the order of the variants
abbrev serde_names : List (String × DeploymentStatus)
serde_names =
    ("requested", requested)
    ∷ ("initiated", initiated)
    ∷ ("successful", successful)
    ∷ ("failed", failed)
    ∷ ("error", error)
    ∷ ("failed_init", failed_init)
    ∷ ("failed_validate", failed_validate)
    ∷ ("failed_plan", failed_plan)
    ∷ ("failed_show_plan", failed_show_plan)
    ∷ ("failed_output", failed_output)
    ∷ ("failed_prepare", failed_prepare)
    ∷ ("failed_integrity_check", failed_integrity_check)
    ∷ ("failed_policy", failed_policy)
    ∷ ("waiting-on-dependency", waiting_on_dependency)
    ∷ ("has-dependants", has_dependants)
    ∷ ("failed_graph", failed_graph)
    ∷ []

abbrev find_name : String → List (String × DeploymentStatus) → Option DeploymentStatus
find_name name [] = none
find_name name ((n, s) ∷ rest) = if n == name then some s else find_name name rest

unfoldable pub deserialize_status : String → Option DeploymentStatus
deserialize_status name = find_name name serde_names

unfoldable pub is_final : DeploymentStatus → Bool
is_final requested = false
is_final initiated = false
is_final successful = true
is_final failed = true
is_final error = true
is_final failed_init = true
is_final failed_validate = true
is_final failed_plan = true
is_final failed_show_plan = true
is_final failed_output = true
is_final failed_prepare = true
is_final failed_integrity_check = true
is_final failed_policy = true
is_final waiting_on_dependency = true
is_final has_dependants = true
is_final failed_graph = true

unfoldable pub is_busy : DeploymentStatus → Bool
is_busy requested = true
is_busy initiated = true
is_busy _ = false

unfoldable pub is_failure : DeploymentStatus → Bool
is_failure requested = false
is_failure initiated = false
is_failure successful = false
is_failure waiting_on_dependency = false
is_failure has_dependants = false
is_failure _ = true

unfoldable pub get_deployment_identifier : String → String → String → String → String
get_deployment_identifier project_id region deployment_id environment =
    if environment == ""
    then str_append project_id (str_append "::" region)
    else if environment == "" && deployment_id == ""
    then str_append project_id (str_append "::" (str_append region (str_append "::" environment)))
    else str_append project_id (
        str_append "::" (
          str_append region
            (str_append "::" (str_append environment (str_append "::" deployment_id)))))

-- A status is either busy or final, and a failure is final.
pub is_busy-is_final :
    (s : DeploymentStatus) → (is_busy s ≡ not (is_final s)) × ((is_failure s && is_busy s) ≡ false)
unfolding is_busy is_final is_failure
is_busy-is_final requested = (refl, refl)
is_busy-is_final initiated = (refl, refl)
is_busy-is_final successful = (refl, refl)
is_busy-is_final failed = (refl, refl)
is_busy-is_final error = (refl, refl)
is_busy-is_final failed_init = (refl, refl)
is_busy-is_final failed_validate = (refl, refl)
is_busy-is_final failed_plan = (refl, refl)
is_busy-is_final failed_show_plan = (refl, refl)
is_busy-is_final failed_output = (refl, refl)
is_busy-is_final failed_prepare = (refl, refl)
is_busy-is_final failed_integrity_check = (refl, refl)
is_busy-is_final failed_policy = (refl, refl)
is_busy-is_final waiting_on_dependency = (refl, refl)
is_busy-is_final has_dependants = (refl, refl)
is_busy-is_final failed_graph = (refl, refl)

-- What `Display` prints for a status is the name that serde reads as that status.
pub deserialize_status-display : (s : DeploymentStatus) → deserialize_status (display s) ≡ some s
unfolding deserialize_status display
deserialize_status-display requested = refl
deserialize_status-display initiated = refl
deserialize_status-display successful = refl
deserialize_status-display failed = refl
deserialize_status-display error = refl
deserialize_status-display failed_init = refl
deserialize_status-display failed_validate = refl
deserialize_status-display failed_plan = refl
deserialize_status-display failed_show_plan = refl
deserialize_status-display failed_output = refl
deserialize_status-display failed_prepare = refl
deserialize_status-display failed_integrity_check = refl
deserialize_status-display failed_policy = refl
deserialize_status-display waiting_on_dependency = refl
deserialize_status-display has_dependants = refl
deserialize_status-display failed_graph = refl
