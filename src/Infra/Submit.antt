-- ===== src/Infra/Submit.antt =====
-- `submit_claim_job`, `insert_request_event`, `run_claim`, `destroy_infra` and `driftcheck_infra` of
-- env_common/src/logic/api_infra.rs, over the status handler and the store of deployments.
pub mod Running
use infraweave.Prelude.{
  ℕ, ◌≡◌, refl, Bool, true, false, Option, none, some, String, List, [], ◌∷◌, ◌==◌, concat,
  if◌then◌else◌,
}
use infraweave.Json.{Value, null, object, end, get, as_str, ◌>>=◌ as and_then}
use infraweave.Cloud.{
  Fetched, fetched, fetch_error, ModuleResp, ApiInfraPayload, ApiInfraPayloadWithVariables,
  start_runner, Ran, ran, run_error, CloudHandler, or_error,
}
use infraweave.Version.{SemVer, get_version_track}
use infraweave.Deployment.Status.{DeploymentResp, requested}
use infraweave.Deployment.Handler.{StatusHandler, minus_one}
use infraweave.Deployment.Event.{new, send_event}
use infraweave.Deployment.Sending.{Sent, ok, failed, panicked, and_then_send, send_deployment}
use infraweave.Deployment.Store.{set_deployment, insert_event}
use infraweave.Infra.Manifest.{Crates, HttpApi, DeploymentManifest}
use infraweave.Infra.Claim.{validate_and_prepare_claim, user_of}
use infraweave.Infra.Progress.{InProgress, is_deployment_in_progress}

-- The times that `get_epoch` and `get_timestamp` read, one after the other
pub record Clock : Type 0 where
  pub created : ℕ
  pub event_epoch : ℕ
  pub timestamp : String
  pub event_stored : ℕ
  pub sent : ℕ
  pub drift_from : ℕ

pub data InfraError : Type 0 where
  job_already_in_progress : String → InfraError
  other : String → InfraError

-- A job and what comes with it, an error, or a panic, with the state of the cloud
pub data Outcome (S A : Type 0) : Type 0 where
  started : A → S → Outcome S A
  refused : InfraError → S → Outcome S A
  panic : Outcome S A

abbrev pub map_outcome : {S A B : Type 0} → (A → B) → Outcome S A → Outcome S B
map_outcome f (started a s) = started (f a) s
map_outcome f (refused e s) = refused e s
map_outcome f panic = panic

-- The server in HTTP mode
pub record HttpMode (P S : Type 0) : Type 0 where
  pub api : HttpApi P S
  pub submit : ApiInfraPayloadWithVariables → S → Outcome S String

abbrev pub api_of : {P S : Type 0} → Option (HttpMode P S) → Option (HttpApi P S)
api_of none = none
api_of (some mode) = some mode.api

abbrev pub or_refuse : {S A B : Type 0} → Fetched A → S → (A → Outcome S B) → Outcome S B
or_refuse (fetched a) s k = k a
or_refuse (fetch_error e) s k = refused (other e) s

module _ {S : Type 0} where
  -- `?` on a result without a value, at the end of a job that is started
  abbrev pub then_job : String → Sent S → Outcome S String
  then_job job_id (ok t) = started job_id t
  then_job job_id (failed t e) = refused (other e) t
  then_job job_id panicked = panic

module _ {P S : Type 0} (iter_set : List String → List String) (show_number : ℕ → String)
    (parse_duration : String → Option ℕ) (handler : CloudHandler P S) where
  -- The status of a request, before anything runs
  unfoldable pub request_of : ApiInfraPayloadWithVariables → String → ℕ → StatusHandler P
  unfolding new
  request_of p job_id now =
      new p.payload.command p.payload.module_id p.payload.module_version p.payload.module_type
        p.payload.module_track requested p.payload.environment p.payload.deployment_id
        p.payload.project_id p.payload.region "" job_id p.payload.name p.variables
        p.payload.drift_detection p.payload.next_drift_check_epoch p.payload.dependencies null []
        p.payload.initiated_by p.payload.cpu p.payload.memory p.payload.reference now

  unfoldable pub insert_request_event : Clock → ApiInfraPayloadWithVariables → String → S → Sent S
  unfolding request_of send_event send_deployment
  insert_request_event clock p job_id s =
      let request = request_of p job_id clock.created in
      and_then_send
        (send_event show_number (insert_event show_number handler clock.event_stored)
          clock.event_epoch clock.timestamp request s)
        (send_deployment parse_duration (set_deployment iter_set handler) clock.sent
          clock.drift_from request)

  -- `resp.payload["job_id"].as_str().unwrap()`
  abbrev pub with_job_id :
      Clock → ApiInfraPayloadWithVariables → S → Option String → Outcome S String
  with_job_id clock p t none = panic
  with_job_id clock p t (some job_id) = then_job job_id (insert_request_event clock p job_id t)

  abbrev pub after_run : Clock → ApiInfraPayloadWithVariables → Ran S → Outcome S String
  after_run clock p (ran response t) =
      with_job_id clock p t (and_then (get response "job_id") as_str)
  after_run clock p (run_error e t) =
      refused
        (other (concat ("Failed to deploy claim: " ∷ "Failed to run mutate_infra: " ∷ e ∷ []))) t

  -- HTTP mode hands the claim to the server.
  unfoldable pub submit_claim_job :
      Option (HttpMode P S) → Clock → ApiInfraPayloadWithVariables → S → Outcome S String
  unfolding is_deployment_in_progress insert_request_event
  submit_claim_job (some mode) clock p s = mode.submit p s
  submit_claim_job none clock p s =
      let progress =
        is_deployment_in_progress handler p.payload.deployment_id p.payload.environment true false
          s in
      if progress.in_progress
      then refused (job_already_in_progress progress.job_id) s
      else after_run clock p (handler.run_function (start_runner p.payload) s)

module _ {Y P S : Type 0} (crates : Crates Y) (iter_set : List String → List String)
    (show_number : ℕ → String) (parse_duration : String → Option ℕ)
    (handler : CloudHandler P S) where
  unfoldable pub run_claim :
      Option (HttpMode P S)
      → Clock
      → Option String
      → Fetched (DeploymentManifest Y)
      → String
      → String
      → List String
      → Value
      → String
      → S
      → Outcome S (String × String × ApiInfraPayloadWithVariables)
  unfolding validate_and_prepare_claim submit_claim_job
  run_claim mode clock api_version parsed environment command flags extra_data reference_fallback
        s =
      or_refuse
        (validate_and_prepare_claim crates handler (api_of mode) api_version parsed environment
          command flags extra_data reference_fallback s)
        s
        (λ prepared.
          map_outcome (λ job_id. (job_id, prepared.0, prepared.1))
            (submit_claim_job iter_set show_number parse_duration handler mode clock prepared.1 s))
