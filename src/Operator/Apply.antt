-- ===== src/Operator/Apply.antt =====
-- `reconcile_resource_nonblocking` of operator/src/operator.rs: the job that applies an object is started,
-- or followed to its end.
use infraweave.Prelude.{
  ℕ, Bool, true, false, not, ◌&&◌, ◌||◌, ◌==◌, Option, none, some, String, [], ◌∷◌, concat, ltb,
  eqb, if◌then◌else◌,
}
use infraweave.Json.{null, string, object, end, field}
use infraweave.Cloud.{Fetched, fetched, fetch_error, ApiInfraPayloadWithVariables}
use infraweave.Deployment.Status.{ℤ, pos, negsuc, DeploymentResp}
use infraweave.Infra.Manifest.{DeploymentManifest}
use infraweave.Infra.Submit
use infraweave.Infra.Submit.{InfraError, job_already_in_progress, run_claim}
use infraweave.Infra.Progress.{InProgress}
use infraweave.Operator.{
  Resource, contains_text, job_id_of, deployment_id_of, resource_status_of, last_check_of,
  retry_count_of, last_generation_of, logs_of, generation_of,
}
use infraweave.Operator.Step.{
  World, Context, Action, requeue, await_change, job, Step, returned, raised, panicked, ◌>>=◌, ◌>>◌,
  pure,
}
use infraweave.Operator.Status.{
  with_ref, get_resource, patch_status, update_resource_status, reset_retry_count,
}
use infraweave.Operator.Retry.{
  labelled, is_failed, should_do_full_check, found_for, update_logs, update_time_of, after_failure,
}

-- The text of an error of `run_claim`
abbrev pub infra_message : InfraError → String
infra_message (job_already_in_progress id) =
    concat ("A job for this deployment is already in progress: " ∷ id ∷ [])
infra_message (Submit.other e) = e

abbrev pub int_eq : ℤ → ℤ → Bool
int_eq (pos a) (pos b) = eqb a b
int_eq (negsuc a) (negsuc b) = eqb a b
int_eq _ _ = false

abbrev pub is_positive : ℤ → Bool
is_positive (pos n) = ltb 0 n
is_positive (negsuc n) = false

abbrev pub is_longer : ℕ → Option ℤ → Bool
is_longer limit none = false
is_longer limit (some (pos n)) = ltb limit n
is_longer limit (some (negsuc n)) = false

-- What became of `run_claim`: its job, or the text of its error
pub data Started : Type 0 where
  job_started : String → Started
  job_failed : String → Started

module _ {Y P K S : Type 0} (ctx : Context Y P K S) (kind : String) where
  abbrev pub ran_job :
      String
      → World K S
      → Submit.Outcome S (String × String × ApiInfraPayloadWithVariables)
      → Step (World K S) Started
  ran_job command w (Submit.started r s) = record {
    requests = job command ∷ [];
    outcome = returned (job_started r.0) (record { cluster = w.cluster; cloud = s });
  }
  ran_job command w (Submit.refused e s) = record {
    requests = job command ∷ [];
    outcome = returned (job_failed (infra_message e)) (record { cluster = w.cluster; cloud = s });
  }
  ran_job command w Submit.panic = record { requests = job command ∷ []; outcome = panicked }

  unfoldable pub submit_yaml :
      String
      → String
      → World K S
      → Fetched (Option String × Fetched (DeploymentManifest Y))
      → Step (World K S) Started
  unfolding run_claim
  submit_yaml command environment w (fetch_error e) = record { requests = []; outcome = raised e w }
  submit_yaml command environment w (fetched claim) = ran_job command w (
      run_claim ctx.crates ctx.iter_set ctx.show_number ctx.parse_duration ctx.handler ctx.mode
        (ctx.clock w) claim.0 claim.1 environment command [] null "" w.cloud)

  -- The claim of the object is run; that it is no YAML ends the step.
  unfoldable pub submit_job : String → String → Resource → World K S → Step (World K S) Started
  unfolding submit_yaml
  submit_job command environment fresh w = submit_yaml command environment w (ctx.to_claim fresh)

  unfoldable pub note_started : Resource → Started → World K S → Step (World K S) Action
  unfolding update_resource_status
  note_started fresh (job_started job_id) w =
      (update_resource_status ctx kind fresh "Apply - initiated" (ctx.get_timestamp w)
            "Job submitted successfully" job_id
          >> pure (requeue 10))
        w
  note_started fresh (job_failed e) w =
      (update_resource_status ctx kind fresh "Apply - failed" (ctx.get_timestamp w)
            (concat ("Failed to start job: " ∷ e ∷ [])) ""
          >> λ v. record { requests = []; outcome = raised e v })
        w

  unfoldable pub start_apply : String → Resource → World K S → Step (World K S) Action
  unfolding submit_job note_started
  start_apply environment fresh = submit_job "apply" environment fresh >>= note_started fresh

  -- The status says that there is a job, but not which
  abbrev pub is_stuck_state : Resource → Bool
  is_stuck_state fresh =
      contains_text (resource_status_of fresh) "initiated"
      || contains_text (resource_status_of fresh) "in progress"

  unfoldable pub leave_stuck_state : Resource → World K S → Step (World K S) Action
  unfolding patch_status
  leave_stuck_state fresh w =
      if not (last_check_of fresh == "") && is_longer 30 (ctx.seconds_since (last_check_of fresh) w)
      then with_ref ctx kind fresh
          (λ ref.
            patch_status ctx kind ref (
              object (
                field "status"
                  (object (
                    field "resourceStatus" (string "Ready for reconciliation")
                      (field "jobId" (string "") end)))
                  end))
            >> pure (requeue 5))
          w
      else pure (requeue 5) w

  abbrev pub is_unchanged : Resource → Bool
  is_unchanged fresh =
      int_eq (last_generation_of fresh) (generation_of fresh)
      && is_positive (last_generation_of fresh)

  unfoldable pub without_job : String → Resource → World K S → Step (World K S) Action
  unfolding leave_stuck_state start_apply
  without_job environment fresh w =
      if is_stuck_state fresh
      then leave_stuck_state fresh w
      else if is_unchanged fresh
      then pure await_change w
      else start_apply environment fresh w

  abbrev pub error_of : Option (DeploymentResp P) → String → String
  error_of none after = ""
  error_of (some d) after =
      if d.error_text == "" then "" else concat ("ERROR: " ∷ d.error_text ∷ after ∷ [])

  abbrev final_message : String → Fetched String → String
  final_message error (fetched plan) = concat (error ∷ plan ∷ [])
  final_message error (fetch_error e) = if error == "" then "Job completed" else error

  abbrev pub is_none : Option (DeploymentResp P) → Bool
  is_none none = true
  is_none (some d) = false

  unfoldable pub finish_apply :
      Resource → Resource → InProgress P → String → World K S → Step (World K S) Action
  unfolding update_resource_status reset_retry_count
  finish_apply resource fresh found message w =
      (update_resource_status ctx kind resource (labelled "Apply" found.status)
            (update_time_of ctx kind found.deployment w) message ""
          >> ((if found.status == "successful" && is_positive (retry_count_of fresh)
                then reset_retry_count ctx kind resource
                else pure tt)
              >> pure await_change))
        w

  -- The error of the deployment and the output of the change record
  abbrev pub message_of : String → Resource → InProgress P → World K S → String
  message_of environment fresh found w =
      final_message (error_of found.deployment "\n\n")
        (ctx.plan_output environment (deployment_id_of fresh) (job_id_of fresh) "APPLY" w.cloud)

  unfoldable pub job_ended :
      String → Resource → Resource → InProgress P → World K S → Step (World K S) Action
  unfolding after_failure finish_apply
  job_ended environment resource fresh found w =
      let message = message_of environment fresh found w in
      if is_failed found.status
      then after_failure ctx kind "Apply" (field "logs" (string message) end) (retry_count_of fresh)
          resource found message (job_id_of fresh) w
      else finish_apply resource fresh found message w

  unfoldable pub full_check :
      String → Resource → Resource → InProgress P → World K S → Step (World K S) Action
  unfolding update_resource_status job_ended
  full_check environment resource fresh found w =
      if not found.in_progress
        && is_none found.deployment
        && contains_text (resource_status_of fresh) "initiated"
      then (update_resource_status ctx kind resource "Apply - pending" (ctx.get_timestamp w)
              "Waiting for job to start processing" (job_id_of fresh)
            >> pure (requeue 5))
          w
      else if found.in_progress
      then (update_resource_status ctx kind resource "Apply - in progress"
              (update_time_of ctx kind found.deployment w) (logs_of fresh "Checking job status...")
              (job_id_of fresh)
            >> pure (requeue 30))
          w
      else job_ended environment resource fresh found w

  unfoldable pub follow_apply : String → Resource → Resource → World K S → Step (World K S) Action
  unfolding should_do_full_check update_logs full_check
  follow_apply environment resource fresh w =
      if should_do_full_check ctx kind (last_check_of fresh) w
      then full_check environment resource fresh (found_for ctx kind environment fresh w) w
      else update_logs ctx kind resource (job_id_of fresh) w

  unfoldable pub reconcile_fresh :
      String → Resource → Resource → World K S → Step (World K S) Action
  unfolding without_job follow_apply
  reconcile_fresh environment resource fresh w =
      if job_id_of fresh == ""
      then without_job environment fresh w
      else follow_apply environment resource fresh w

  -- `resource` comes from the controller's cache; its status is read again.
  unfoldable pub reconcile_resource_nonblocking :
      String → Resource → World K S → Step (World K S) Action
  unfolding reconcile_fresh
  reconcile_resource_nonblocking environment resource w =
      with_ref ctx kind resource
        (λ ref. get_resource ctx kind ref >>= reconcile_fresh environment resource) w
