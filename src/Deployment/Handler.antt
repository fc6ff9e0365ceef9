-- ===== src/Deployment/Handler.antt =====
-- `DeploymentStatusHandler` of env_common/src/interface/deployment_status_handler.rs: its state, the
-- setters and the time of the next drift check. The time that `get_epoch` reads is an argument; the
-- parser of durations, of the crate humantime, gives milliseconds. A u128 or an i128 that overflows wraps.
use infraweave.Prelude.{
  ℕ, ◌+◌, ◌-◌, ◌%◌, Bool, true, not, ◌||◌, Option, none, some, String, List, ◌==◌, ltb,
  if◌then◌else◌,
}
use infraweave.Json.{Value}
use infraweave.Deployment.Status.{
  DeploymentStatus, DriftDetection, Dependency, ℤ, pos, negsuc, is_final,
}

pub record StatusHandler (P : Type 0) : Type 0 where
  pub command : String
  pub module_name : String
  pub module_version : String
  pub module_type : String
  pub module_track : String
  pub status : DeploymentStatus
  pub environment : String
  pub deployment_id : String
  pub project_id : String
  pub region : String
  pub error_text : String
  pub job_id : String
  pub name : String
  pub variables : Value
  pub drift_detection : DriftDetection
  pub next_drift_check_epoch : ℤ
  pub has_drifted : Bool
  pub is_drift_check : Bool
  pub deleted : Bool
  pub dependencies : List Dependency
  pub output : Value
  pub policy_results : List P
  pub initiated_by : String
  pub last_event_epoch : ℕ
  pub event_duration : ℕ
  pub cpu : String
  pub memory : String
  pub reference : String
  pub tf_resources : Option (List String)

abbrev pub u128_modulus : ℕ
u128_modulus = 340282366920938463463374607431768211456

abbrev pub i128_bound : ℕ
i128_bound = 170141183460469231731687303715884105728

-- A sum of i128 as it wraps
abbrev pub to_i128 : ℕ → ℤ
to_i128 n =
    if ltb (n % u128_modulus) i128_bound
    then pos (n % u128_modulus)
    else negsuc (u128_modulus - 1 - (n % u128_modulus))

abbrev pub minus_one : ℤ
minus_one = negsuc 0

-- An epoch that no i128 holds panics: `none`.
abbrev pub scheduled : ℕ → Option ℕ → Option ℤ
scheduled now none = some minus_one
scheduled now (some wait_duration) =
    if ltb now i128_bound then some (to_i128 (now + wait_duration)) else none

module _ {P : Type 0} where
  unfoldable pub set_status : DeploymentStatus → StatusHandler P → StatusHandler P
  set_status s h = record h { status = s }

  unfoldable pub set_command : String → StatusHandler P → StatusHandler P
  set_command c h = record h { command = c }

  unfoldable pub set_output : Value → StatusHandler P → StatusHandler P
  set_output v h = record h { output = v }

  unfoldable pub set_error_text : String → StatusHandler P → StatusHandler P
  set_error_text e h = record h { error_text = e }

  unfoldable pub set_job_id : String → StatusHandler P → StatusHandler P
  set_job_id j h = record h { job_id = j }

  unfoldable pub set_deleted : Bool → StatusHandler P → StatusHandler P
  set_deleted d h = record h { deleted = d }

  unfoldable pub set_policy_results : List P → StatusHandler P → StatusHandler P
  set_policy_results r h = record h { policy_results = r }

  unfoldable pub set_drift_has_occurred : Bool → StatusHandler P → StatusHandler P
  set_drift_has_occurred d h = record h { has_drifted = d }

  unfoldable pub set_is_drift_check : StatusHandler P → StatusHandler P
  set_is_drift_check h = record h { is_drift_check = true }

  unfoldable pub set_last_event_epoch : ℕ → StatusHandler P → StatusHandler P
  set_last_event_epoch now h = record h { last_event_epoch = now }

  unfoldable pub set_event_duration : ℕ → StatusHandler P → StatusHandler P
  set_event_duration now h = record h {
    event_duration = (now + u128_modulus - h.last_event_epoch) % u128_modulus;
  }

  unfoldable pub set_resources : Option (List String) → StatusHandler P → StatusHandler P
  set_resources r h = record h { tf_resources = r }

  unfoldable pub set_variables : Value → StatusHandler P → StatusHandler P
  set_variables v h = record h { variables = v }

  unfoldable pub is_plan : StatusHandler P → Bool
  is_plan h = h.command == "plan"

  unfoldable pub is_final_update : StatusHandler P → Bool
  is_final_update h = is_final h.status

  unfoldable pub get_next_drift_check_epoch : (String → Option ℕ) → ℕ → StatusHandler P → Option ℤ
  unfolding is_final_update
  get_next_drift_check_epoch parse_duration now h =
      if not h.drift_detection.enabled || h.drift_detection.interval == ""
      then some minus_one
      else if not (is_final_update h)
      then some minus_one
      else if h.command == "destroy"
      then some minus_one
      else scheduled now (parse_duration h.drift_detection.interval)
