-- ===== src/Infra/Tests.antt =====
-- Claims and jobs of env_common/src/logic/api_infra.rs on a cloud that holds one deployment.
use infraweave.Prelude.{
  ◌≡◌, refl, sym, ap, true, false, ◌&&◌, Option, none, some, String, List, [], ◌∷◌, ◌==◌, ℕ, codes,
  length, leb, if◌then◌else◌,
}
use infraweave.Json.{Value, null, string, object, Fields, end, field}
use infraweave.Cloud.{
  fetched, Dependent, ModuleResp, ApiInfraPayloadWithVariables, put_deployment, FunctionCall,
  transact_write, insert_deployment, insert_event, start_runner, Ran, ran, run_error, CloudHandler,
}
use infraweave.Deployment.Store
use infraweave.Deployment.Handler.{is_plan}
use infraweave.Deployment.Status.{DeploymentResp, Dependency, is_final, initiated}
use infraweave.Deployment.Store.{transaction, set_deployment, get_payload}
use infraweave.Infra.Names.{
  validate_name, is_ok, all_name_chars, first_is, last_is, validate_name-is_ok,
}
use infraweave.Infra.Manifest.{DeploymentManifest, Crates, default_drift_detection}
use infraweave.Deployment.Handler.{minus_one}
use infraweave.Infra.Submit.{
  Clock, job_already_in_progress, Outcome, started, refused, submit_claim_job,
}
use infraweave.Infra.Submit.Running.{submit_claim_job-twice}

validate_name-is_ok_example : is_ok (validate_name "my-team") ≡ (
    all_name_chars (codes "my-team")
    && first_is (codes "my-team")
    && last_is (codes "my-team")
    && leb (length (codes "my-team")) 63)
validate_name-is_ok_example = validate_name-is_ok "my-team"

abbrev pub Slot : Type 0
Slot = Option (DeploymentResp (Unit {0}))

abbrev response : Value
response = object (field "job_id" (string "job-1") end)

-- The first item of a transaction is the deployment.
abbrev run : FunctionCall (Unit {0}) → Slot → Ran Slot
run (transact_write (put_deployment i ∷ rest)) s = ran null (some i.deployment)
run (transact_write items) s = ran null s
run (insert_deployment i) s = ran null s
run (insert_event e) s = ran null s
run (start_runner p) s = ran response s

abbrev s3_bucket : ModuleResp
s3_bucket = record {
  track = "stable";
  version = "1.0.0";
  module_name = "S3Bucket";
  module_id = "s3bucket";
  module_type = "module";
  tf_variables =
      record {
        name = "name";
        type_value = string "string";
        default = none;
        description = "";
        nullable = false;
        sensitive = false;
      }
      ∷ [];
  tf_outputs = [];
  tf_providers = [];
  cpu = "1024";
  memory = "2048";
  deprecated = false;
  deprecated_message = none;
}

abbrev pub cloud : CloudHandler (Unit {0}) Slot
cloud = record {
  get_project_id = "p";
  get_region = "eu";
  get_user_id = λ s. fetched "user";
  run_function = run;
  get_deployment = λ i e d s. fetched s;
  get_plan_deployment = λ i e j s. fetched none;
  get_dependents = λ i e s. fetched [];
  get_job_status = λ j s. fetched (some (record { job_id = j; is_running = true }));
  get_module_version = λ m k v s. fetched (some s3_bucket);
  get_stack_version = λ m k v s. fetched none;
}

abbrev pub crates : Crates Fields
crates = record {
  to_lowercase = λ s. if s == "S3Bucket" then "s3bucket" else s;
  to_snake_case = λ s. s;
  to_camel_case = λ s. s;
  is_reference = λ s. false;
  parse_version = λ s. fetched (record { major = 1; minor = 0; patch = 0; pre = ""; build = "" });
  is_empty_mapping = λ fs. false;
  to_json = λ fs. fetched (object fs);
  annotations_to_json = λ a. fetched null;
}

abbrev pub manifest : DeploymentManifest Fields
manifest = record {
  name = "b";
  namespace = none;
  annotations = none;
  api_version = "infraweave.io/v1";
  kind = "S3Bucket";
  module_version = some "1.0.0";
  stack_version = none;
  region = "eu";
  reference = none;
  variables = field "name" (string "b") end;
  dependencies = none;
  drift_detection = none;
}

abbrev prepared : ApiInfraPayloadWithVariables
prepared = record {
  payload = record {
    command = "apply";
    flags = [];
    module_id = "s3bucket";
    module_type = "module";
    module_version = "1.0.0";
    module_track = "stable";
    name = "b";
    environment = "cli/dev";
    deployment_id = "s3bucket/b";
    project_id = "p";
    region = "eu";
    drift_detection = default_drift_detection;
    next_drift_check_epoch = minus_one;
    annotations = null;
    dependencies = [];
    initiated_by = "user";
    cpu = "1024";
    memory = "2048";
    reference = "ref";
    extra_data = null;
  };
  variables = object (field "name" (string "b") end);
}

abbrev pub in_order : List String → List String
in_order xs = xs

abbrev pub show_number : ℕ → String
show_number n = "0"

abbrev pub no_duration : String → Option ℕ
no_duration s = none

abbrev pub clock : Clock
clock = record {
  created = 1;
  event_epoch = 2;
  timestamp = "t";
  event_stored = 3;
  sent = 4;
  drift_from = 5;
}

abbrev slot_after : Ran Slot → Slot
slot_after (ran v u) = u
slot_after (run_error e u) = u

read_back :
    (d : DeploymentResp (Unit {0})) (existing : List Dependency) (dependents : List Dependent)
    (w u : Slot) (v : Value)
    → d.deleted ≡ false
    → run (transact_write (transaction in_order d false existing dependents)) w ≡ ran v u
    → fetched u ≡ fetched (some d)
unfolding transaction get_payload
read_back d existing dependents w u v kept h = sym (ap (λ r. fetched (slot_after r)) h)

abbrev slot_of : Outcome Slot String → Slot
slot_of (started job t) = t
slot_of _ = none

abbrev running_slot : Slot
unfolding submit_claim_job
running_slot =
    slot_of (submit_claim_job in_order show_number no_duration cloud none clock prepared none)

starts :
    submit_claim_job in_order show_number no_duration cloud none clock prepared none
    ≡ started "job-1" running_slot
unfolding submit_claim_job set_deployment is_final Store.insert_event is_plan
starts = refl

submit_claim_job-twice_example :
    submit_claim_job in_order show_number no_duration cloud none clock prepared running_slot
    ≡ refused (job_already_in_progress "job-1") running_slot
submit_claim_job-twice_example =
    submit_claim_job-twice in_order show_number no_duration cloud read_back clock clock prepared
      none running_slot running_slot "job-1" refl starts refl refl

abbrev pub busy : DeploymentResp (Unit {0})
busy = record {
  epoch = 5;
  deployment_id = "s3bucket/b";
  status = initiated;
  job_id = "job-0";
  environment = "cli/dev";
  project_id = "p";
  region = "eu";
  module_name = "s3bucket";
  module_version = "1.0.0";
  module_type = "module";
  module_track = "stable";
  drift_detection = default_drift_detection;
  next_drift_check_epoch = minus_one;
  has_drifted = false;
  variables = null;
  output = null;
  policy_results = [];
  error_text = "";
  deleted = false;
  dependencies = [];
  initiated_by = "user";
  cpu = "1024";
  memory = "2048";
  reference = "";
  tf_resources = none;
}
