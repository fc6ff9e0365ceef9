-- ===== src/Deployment/Event.antt =====
-- `new` and `send_event` of env_common/src/interface/deployment_status_handler.rs, and `EventData` of
-- defs/src/event.rs. How a number and a timestamp are written is a parameter, as is the store of events.
use Prim.Native.String.{◌++◌ as str_append}
use infraweave.Prelude.{ℕ, Bool, false, none, String, List}
use infraweave.Json.{Value, null}
use infraweave.Deployment.Status.{DeploymentStatus, DriftDetection, Dependency, ℤ, display}
use infraweave.Deployment.Handler.{StatusHandler}
use infraweave.Deployment.Sending.{Sent, ok, failed, panicked}

pub record EventData (P : Type 0) : Type 0 where
  pub deployment_id : String
  pub project_id : String
  pub region : String
  pub environment : String
  pub event : String
  pub epoch : ℕ
  pub error_text : String
  pub id : String
  pub job_id : String
  pub metadata : Value
  pub drift_detection : DriftDetection
  pub next_drift_check_epoch : ℤ
  pub has_drifted : Bool
  pub module_name : String
  pub module_version : String
  pub name : String
  pub status : DeploymentStatus
  pub timestamp : String
  pub output : Value
  pub policy_results : List P
  pub initiated_by : String
  pub event_duration : ℕ

-- `format!("{}-{}", …)`
abbrev dashed : String → String → String
dashed a b = str_append a (str_append "-" b)

module _ {P : Type 0} where
  unfoldable pub new :
      String
      → String
      → String
      → String
      → String
      → DeploymentStatus
      → String
      → String
      → String
      → String
      → String
      → String
      → String
      → Value
      → DriftDetection
      → ℤ
      → List Dependency
      → Value
      → List P
      → String
      → String
      → String
      → String
      → ℕ
      → StatusHandler P
  new command module_name module_version module_type module_track status environment deployment_id
        project_id region error_text job_id name variables drift_detection next_drift_check_epoch
        dependencies output policy_results initiated_by cpu memory reference now =
      record {
        command = command;
        module_name = module_name;
        module_version = module_version;
        module_type = module_type;
        module_track = module_track;
        status = status;
        environment = environment;
        deployment_id = deployment_id;
        project_id = project_id;
        region = region;
        error_text = error_text;
        job_id = job_id;
        name = name;
        variables = variables;
        drift_detection = drift_detection;
        next_drift_check_epoch = next_drift_check_epoch;
        has_drifted = false;
        is_drift_check = false;
        deleted = false;
        dependencies = dependencies;
        output = output;
        policy_results = policy_results;
        initiated_by = initiated_by;
        last_event_epoch = now;
        event_duration = 0;
        cpu = cpu;
        memory = memory;
        reference = reference;
        tf_resources = none;
      }

module _ {P : Type 0} (show_number : ℕ → String) where
  unfoldable pub event_of : ℕ → String → StatusHandler P → EventData P
  unfolding display
  event_of epoch timestamp h = record {
    environment = h.environment;
    event = h.command;
    epoch = epoch;
    status = h.status;
    module_name = h.module_name;
    module_version = h.module_version;
    drift_detection = h.drift_detection;
    next_drift_check_epoch = h.next_drift_check_epoch;
    has_drifted = h.has_drifted;
    deployment_id = h.deployment_id;
    project_id = h.project_id;
    region = h.region;
    error_text = h.error_text;
    id =
        dashed h.module_name (
          dashed h.deployment_id
            (dashed (show_number epoch) (dashed h.command (display h.status))));
    job_id = h.job_id;
    metadata = null;
    name = h.name;
    output = h.output;
    policy_results = h.policy_results;
    timestamp = timestamp;
    initiated_by = h.initiated_by;
    event_duration = h.event_duration;
  }

-- The error of a store that cannot take the event is logged only.
abbrev pub logged : {S : Type 0} → Sent S → Sent S
logged (ok s) = ok s
logged (failed s e) = ok s
logged panicked = panicked

module _ {P S : Type 0} (show_number : ℕ → String) (insert_event : EventData P → S → Sent S) where
  unfoldable pub send_event : ℕ → String → StatusHandler P → S → Sent S
  unfolding event_of
  send_event epoch timestamp h s = logged (insert_event (event_of show_number epoch timestamp h) s)
