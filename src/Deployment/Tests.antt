-- ===== src/Deployment/Tests.antt =====
-- The status handler of env_common/src/interface/deployment_status_handler.rs at one deployment.
use infraweave.Prelude.{
  ℕ, ◌≡◌, refl, ◌==◌, Bool, true, false, Option, some, none, String, List, [], ◌∷◌, ◌++◌, arith,
  if◌then◌else◌,
}
use infraweave.Json.{null}
use infraweave.Deployment.Status.{
  DeploymentResp, failed, is_busy, is_final, deserialize_status, display,
  deserialize_status-display, pos,
}
use infraweave.Deployment.Handler.{StatusHandler, is_plan, minus_one, get_next_drift_check_epoch}
use infraweave.Deployment.Sending.{
  Sent, ok, send_deployment, get_next_drift_check_epoch-pos, get_next_drift_check_epoch-eq,
}

-- A parser that knows one interval
abbrev parse_duration : String → Option ℕ
parse_duration s = if s == "15m" then some 900000 else none

-- A store of the flags it was called with
abbrev record_flag : DeploymentResp ℕ → Bool → List Bool → Sent (List Bool)
record_flag d flag s = ok (s ++ (flag ∷ []))

abbrev drift_check : StatusHandler ℕ
drift_check = record {
  command = "plan";
  module_name = "vpc";
  module_version = "1.0.0";
  module_type = "module";
  module_track = "stable";
  status = failed;
  environment = "cli/dev";
  deployment_id = "d1";
  project_id = "p";
  region = "eu-west-1";
  error_text = "";
  job_id = "job";
  name = "vpc";
  variables = null;
  drift_detection = record {
    enabled = true;
    interval = "15m";
    auto_remediate = false;
    webhooks = [];
  };
  next_drift_check_epoch = minus_one;
  has_drifted = true;
  is_drift_check = true;
  deleted = false;
  dependencies = [];
  output = null;
  policy_results = [];
  initiated_by = "user";
  last_event_epoch = 0;
  event_duration = 0;
  cpu = "1";
  memory = "2";
  reference = "";
  tf_resources = none;
}

next_check : get_next_drift_check_epoch parse_duration 1000 drift_check ≡ some (pos 901000)
unfolding is_final
next_check =
    get_next_drift_check_epoch-eq parse_duration 1000 900000 drift_check refl refl refl refl refl
      (omega arith)

get_next_drift_check_epoch-pos_example :
    (drift_check.drift_detection.enabled ≡ true)
    × (is_busy drift_check.status ≡ false)
    × ((drift_check.command == "destroy") ≡ false)
get_next_drift_check_epoch-pos_example =
    get_next_drift_check_epoch-pos parse_duration 1000 901000 drift_check next_check

sent : send_deployment parse_duration record_flag 999 1000 drift_check [] ≡ ok (true ∷ false ∷ [])
unfolding send_deployment is_final is_plan
sent = refl

deserialize_status-display_example : deserialize_status (display failed) ≡ some failed
deserialize_status-display_example = deserialize_status-display failed
