-- ===== src/Infra/Existing/Jobs.antt =====
-- What the runner gets where a job of a deployment that exists is started, in
-- env_common/src/logic/api_infra.rs.
use infraweave.Prelude.{ℕ, ◌≡◌, refl, true, false, Option, none, String, List, arith}
use infraweave.Json.{Value}
use infraweave.Cloud.{Fetched, fetched, fetch_error, ApiInfraPayloadWithVariables, CloudHandler}
use infraweave.Deployment.Status.{DeploymentResp}
use infraweave.Infra.Progress.{is_deployment_in_progress}
use infraweave.Infra.Manifest.{Crates}
use infraweave.Infra.Submit.{Clock, Outcome, started, refused, panic, map_outcome, or_refuse}
use infraweave.Infra.Submit.Running.{IsRunBy, submit_claim_job-eq-started}
use infraweave.Infra.Existing.{existing_payload, submit}

pub or_refuse-eq-started :
    {S A B : Type 0} (o : Fetched A) (s : S) (k : A → Outcome S B) {b : B} {t : S}
    → or_refuse o s k ≡ started b t
    → (a : A) × (o ≡ fetched a) × (k a ≡ started b t)
or_refuse-eq-started (fetched a) s k h = (a, refl, h)
or_refuse-eq-started (fetch_error e) s k h = cc

pub map_outcome-eq-started :
    {S A B : Type 0} (f : A → B) (o : Outcome S A) {b : B} {t : S}
    → map_outcome f o ≡ started b t
    → (a : A) × (o ≡ started a t) × (f a ≡ b)
map_outcome-eq-started f (started a t) h = (a, ground (arith, h), ground (arith, h))
map_outcome-eq-started f (refused e t) h = cc
map_outcome-eq-started f panic h = cc

module _ {Y P S : Type 0} (crates : Crates Y) (iter_set : List String → List String)
    (show_number : ℕ → String) (parse_duration : String → Option ℕ)
    (handler : CloudHandler P S) where
  -- A job of a deployment: it is stored, and no job of it was in progress. The runner gets the module,
  -- the place and the track that are stored, with the variables, and answers with the job.
  pub record IsJobOf (deployment_id command version : String) (flags : List String)
      (d : DeploymentResp P) (s : S) (job : String) (p : ApiInfraPayloadWithVariables)
      (response : Value) (u : S) : Type 0 where
    pub idle :
        (is_deployment_in_progress handler deployment_id d.environment true false s).in_progress
        ≡ false
    pub run_by : IsRunBy iter_set show_number parse_duration handler p s job response u
    pub command_sent : p.payload.command ≡ command
    pub flags_sent : p.payload.flags ≡ flags
    pub identifier : p.payload.deployment_id ≡ deployment_id
    pub environment : p.payload.environment ≡ d.environment
    pub module_id : p.payload.module_id ≡ crates.to_lowercase d.module_name
    pub module_version : p.payload.module_version ≡ version
    pub module_track : p.payload.module_track ≡ d.module_track
    pub region : p.payload.region ≡ d.region
    pub variables : p.variables ≡ d.variables

  pub submit-IsJobOf :
      (clock : Clock) (command deployment_id version : String) (flags : List String)
      (extra_data : Value) (d : DeploymentResp P) (s t : S) (job : String)
      → submit crates iter_set show_number parse_duration handler none clock
          (existing_payload crates iter_set show_number parse_duration handler command flags version
            deployment_id extra_data d s)
          s
        ≡ started job t
      → (p : ApiInfraPayloadWithVariables) × (response : Value) × (u : S) × IsJobOf deployment_id
          command version flags d s job p response u
  unfolding existing_payload
  submit-IsJobOf clock command deployment_id version flags extra_data d s t job h =
      let p =
        existing_payload crates iter_set show_number parse_duration handler command flags version
          deployment_id extra_data d s in
      let (idle, (response, u, run_by, recorded)) =
        submit_claim_job-eq-started iter_set show_number parse_duration handler clock p s t job h in
      (
        p,
        response,
        u,
        record {
          idle = idle;
          run_by = run_by;
          command_sent = refl;
          flags_sent = refl;
          identifier = refl;
          environment = refl;
          module_id = refl;
          module_version = refl;
          module_track = refl;
          region = refl;
          variables = refl;
        },
      )
