-- ===== src/Infra/Existing.antt =====
-- `destroy_infra`, `driftcheck_infra` and `verify_module_version` of env_common/src/logic/api_infra.rs:
-- the jobs of a deployment that exists.
pub mod Jobs
pub mod Sound
use infraweave.Prelude.{
  ℕ, Bool, false, Option, none, some, String, List, [], ◌∷◌, concat, if◌then◌else◌,
}
use infraweave.Json.{Value, object, end}
use infraweave.Cloud.{
  Fetched, fetched, fetch_error, ModuleResp, ApiInfraPayloadWithVariables, CloudHandler,
}
use infraweave.Version.{get_version_track}
use infraweave.Deployment.Status.{DeploymentResp}
use infraweave.Deployment.Handler.{minus_one}
use infraweave.Infra.Manifest.{Crates}
use infraweave.Infra.Claim.{user_of}
use infraweave.Infra.Submit.{Clock, HttpMode, Outcome, map_outcome, or_refuse, submit_claim_job}

module _ {Y P S : Type 0} (crates : Crates Y) (iter_set : List String → List String)
    (show_number : ℕ → String) (parse_duration : String → Option ℕ)
    (handler : CloudHandler P S) where
  -- The deployment that is described, which has to be there
  abbrev pub found_deployment : Fetched (Option (DeploymentResp P)) → Fetched (DeploymentResp P)
  found_deployment (fetched (some d)) = fetched d
  found_deployment (fetched none) =
      fetch_error "Failed to describe deployment, deployment was not found"
  found_deployment (fetch_error e) =
      fetch_error (concat ("Failed to describe deployment: " ∷ e ∷ []))

  abbrev pub describe : Option (HttpMode P S) → String → String → S → Fetched (DeploymentResp P)
  describe (some mode) deployment_id environment s = found_deployment (
      mode.api.describe_deployment handler.get_project_id handler.get_region environment
        deployment_id s)
  describe none deployment_id environment s =
      found_deployment (handler.get_deployment deployment_id environment false s)

  abbrev pub version_exists : String → Fetched (Option ModuleResp) → Fetched (Unit {0})
  version_exists version (fetched (some m)) = fetched tt
  version_exists version (fetched none) =
      fetch_error (concat ("Module version " ∷ version ∷ " does not exist" ∷ []))
  version_exists version (fetch_error e) =
      fetch_error (concat ("Failed to verify module version: " ∷ e ∷ []))

  abbrev pub version_exists_http : String → Fetched ModuleResp → Fetched (Unit {0})
  version_exists_http version (fetched m) = fetched tt
  version_exists_http version (fetch_error e) =
      fetch_error
        (concat ("Module version " ∷ version ∷ " does not exist or failed to verify: " ∷ e ∷ []))

  abbrev pub verify_on_track :
      Option (HttpMode P S) → String → String → S → Fetched String → Fetched (Unit {0})
  verify_on_track mode module_id version s (fetch_error e) =
      fetch_error (concat ("Failed to get track from version: " ∷ e ∷ []))
  verify_on_track (some mode) module_id version s (fetched track) =
      version_exists_http version (mode.api.get_module_version track module_id version s)
  verify_on_track none module_id version s (fetched track) =
      version_exists version (handler.get_module_version module_id track version s)

  unfoldable pub verify_module_version :
      Option (HttpMode P S) → String → String → S → Fetched (Unit {0})
  verify_module_version mode module_id version s =
      verify_on_track mode module_id version s (get_version_track crates.parse_version version)

  -- What is sent for a deployment that exists
  unfoldable pub existing_payload :
      String
      → List String
      → String
      → String
      → Value
      → DeploymentResp P
      → S
      → ApiInfraPayloadWithVariables
  existing_payload command flags module_version deployment_id extra_data d s = record {
    payload = record {
      command = command;
      flags = flags;
      module_id = crates.to_lowercase d.module_name;
      module_version = module_version;
      module_type = d.module_type;
      module_track = d.module_track;
      name = "";
      environment = d.environment;
      deployment_id = deployment_id;
      project_id = d.project_id;
      region = d.region;
      drift_detection = d.drift_detection;
      next_drift_check_epoch = minus_one;
      annotations = object end;
      dependencies = d.dependencies;
      initiated_by = user_of crates handler (handler.get_user_id s);
      cpu = d.cpu;
      memory = d.memory;
      reference = d.reference;
      extra_data = extra_data;
    };
    variables = d.variables;
  }

  abbrev submit :
      Option (HttpMode P S) → Clock → ApiInfraPayloadWithVariables → S → Outcome S String
  submit mode clock p s =
      submit_claim_job iter_set show_number parse_duration handler mode clock p s

  abbrev pub after_check : String → Fetched (Unit {0}) → Fetched String
  after_check version (fetched u) = fetched version
  after_check version (fetch_error e) = fetch_error e

  -- The version that is torn down: another one only if it exists
  abbrev pub destroyed_version :
      Option (HttpMode P S) → DeploymentResp P → Option String → S → Fetched String
  destroyed_version mode d none s = fetched d.module_version
  destroyed_version mode d (some version) s =
      after_check version (verify_module_version mode d.module_name version s)

  unfoldable pub destroy_infra :
      Option (HttpMode P S) → Clock → String → String → Value → Option String → S → Outcome S String
  unfolding verify_module_version existing_payload submit_claim_job
  destroy_infra mode clock deployment_id environment extra_data override_version s =
      or_refuse (describe mode deployment_id environment s) s (λ d.
        or_refuse (destroyed_version mode d override_version s) s (λ version.
          submit mode clock (existing_payload "destroy" [] version deployment_id extra_data d s) s))

  -- The job and the region; a check that does not remediate only plans, and only refreshes.
  unfoldable pub driftcheck_infra :
      Option (HttpMode P S)
      → Clock
      → String
      → String
      → Bool
      → Value
      → S
      → Outcome S (String × String)
  unfolding existing_payload submit_claim_job
  driftcheck_infra mode clock deployment_id environment remediate extra_data s =
      or_refuse (describe mode deployment_id environment s) s (λ d.
        map_outcome (λ job_id. (job_id, d.region))
          (submit mode clock
            (existing_payload (if remediate then "apply" else "plan")
              (if remediate then [] else "-refresh-only" ∷ []) d.module_version deployment_id
              extra_data d s)
            s))
