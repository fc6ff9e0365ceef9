-- ===== src/Infra/Progress.antt =====
-- `is_deployment_in_progress` and `is_deployment_plan_in_progress` of
-- env_common/src/logic/api_infra.rs.
use infraweave.Prelude.{
  Bool, true, false, Option, none, some, String, split_at, last_part, if◌then◌else◌,
}
use infraweave.Cloud.{Fetched, fetched, fetch_error, JobStatus, CloudHandler}
use infraweave.Deployment.Status.{DeploymentResp, is_busy, display}

pub record InProgress (P : Type 0) : Type 0 where
  pub in_progress : Bool
  pub job_id : String
  pub status : String
  pub deployment : Option (DeploymentResp P)

-- A job that cannot be looked up counts as running.
abbrev pub is_running : Fetched (Option JobStatus) → Bool
is_running (fetched (some job_status)) = job_status.is_running
is_running (fetched none) = true
is_running (fetch_error e) = true

module _ {P S : Type 0} (handler : CloudHandler P S) where
  abbrev pub nothing_found : InProgress P
  nothing_found = record { in_progress = false; job_id = ""; status = ""; deployment = none }

  unfoldable pub found : Bool → String → DeploymentResp P → InProgress P
  unfolding display
  found running job_id d = record {
    in_progress = running;
    job_id = job_id;
    status = display d.status;
    deployment = some d;
  }

  abbrev pub progress_of : Bool → S → Fetched (Option (DeploymentResp P)) → InProgress P
  progress_of job_check s (fetch_error e) = nothing_found
  progress_of job_check s (fetched none) = nothing_found
  progress_of job_check s (fetched (some d)) =
      if is_busy d.status
      then if job_check
        then if is_running (handler.get_job_status d.job_id s)
          then found true d.job_id d
          else found false "" d
        else found true d.job_id d
      else found false "" d

  unfoldable pub is_deployment_in_progress : String → String → Bool → Bool → S → InProgress P
  is_deployment_in_progress deployment_id environment job_check include_deleted s =
      progress_of job_check s (handler.get_deployment deployment_id environment include_deleted s)

  -- A plan that is not stored yet counts as starting.
  abbrev pub plan_progress :
      String → Fetched (Option (DeploymentResp P)) → Bool × String × Option (DeploymentResp P)
  plan_progress job_id_short (fetched (some d)) = (is_busy d.status, d.job_id, some d)
  plan_progress job_id_short (fetched none) = (true, job_id_short, none)
  plan_progress job_id_short (fetch_error e) = (false, "", none)

  unfoldable pub is_deployment_plan_in_progress :
      String → String → String → S → Bool × String × Option (DeploymentResp P)
  is_deployment_plan_in_progress deployment_id environment job_id s =
      let job_id_short = last_part (split_at 47 job_id) in
      plan_progress job_id_short
        (handler.get_plan_deployment deployment_id environment job_id_short s)
