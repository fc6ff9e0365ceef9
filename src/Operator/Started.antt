-- ===== src/Operator/Started.antt =====
-- The start of a destroy job in operator/src/operator.rs: the object that is stored, and what it says.
use infraweave.Prelude.{
  ◌≡◌, ap, ◌∙◌, true, false, Option, some, String, [], ◌∷◌, concat, if◌then◌else◌,
}
use infraweave.Json.{as_str, and_then, unwrap_or}
use infraweave.Cloud.{Fetched, fetched, fetch_error, ApiInfraPayloadWithVariables}
use infraweave.Infra.Submit
use infraweave.Deployment.Status.{DeploymentResp, successful, is_busy, display}
use infraweave.Infra.Progress.{progress_of, found, is_deployment_in_progress}
use infraweave.Infra.Manifest.{DeploymentManifest}
use infraweave.Operator.{
  Resource, in_status, status_merged, merge_value, status_field, deployment_id_of, contains_text,
}
use infraweave.Operator.Step.{World, Context, Action, returned}
use infraweave.Operator.Status.{update_fields, update_resource_status}
use infraweave.Operator.Merge.{overlay, status_field-status_merged}
use infraweave.Operator.Retry.{found_for}
use infraweave.Operator.Apply.{Started, job_started, job_failed, ran_job, submit_yaml}
use infraweave.Operator.Delete.{note_destroy, is_destroy_job}
use infraweave.Operator.Stored.{ending-eq-returned}

module _ {Y P K S : Type 0} (ctx : Context Y P K S) (kind : String) where
  same_world : {A : Type 0} {a b : A} {u v : World K S} → returned a u ≡ returned b v → u ≡ v
  same_world h = cc

  -- The object whose destroy job is started
  unfoldable pub started_object : Resource → String → String → String → String → Resource
  started_object r name update now job_id = status_merged r (
      in_status (
        update_fields ctx kind r name "Delete - initiated" update now "Destroy job submitted"
          job_id))

  field-started_object :
      (r : Resource) (name update now job_id key : String)
      → status_field (started_object r name update now job_id) key
        ≡ overlay
            (update_fields ctx kind r name "Delete - initiated" update now "Destroy job submitted"
              job_id)
            key
            (status_field r key)
  unfolding started_object
  field-started_object r name update now job_id key =
      status_field-status_merged r
        (update_fields ctx kind r name "Delete - initiated" update now "Destroy job submitted"
          job_id)
        key

  pub is_destroy_job-started_object :
      (r : Resource) (name update now job_id : String)
      → is_destroy_job ctx kind (started_object r name update now job_id) ≡ true
  unfolding overlay merge_value
  is_destroy_job-started_object r name update now job_id =
      ap (λ o. contains_text (unwrap_or (and_then o as_str) "") "Delete")
        (field-started_object r name update now job_id "resourceStatus")

  pub deployment_id-started_object :
      (r : Resource) (name update now job_id : String)
      → deployment_id_of (started_object r name update now job_id)
        ≡ concat (ctx.crates.to_lowercase kind ∷ "/" ∷ name ∷ [])
  unfolding overlay merge_value
  deployment_id-started_object r name update now job_id =
      ap (λ o. unwrap_or (and_then o as_str) "")
        (field-started_object r name update now job_id "deploymentId")

  pub found_object :
      (environment : String) (t : Resource) (u : World K S) (d : DeploymentResp P)
      → ctx.handler.get_deployment (deployment_id_of t) environment true u.cloud ≡ fetched (some d)
      → d.status ≡ successful
      → ((found_for ctx kind environment t u).in_progress ≡ false)
        × ((found_for ctx kind environment t u).status ≡ "successful")
  unfolding is_deployment_in_progress found is_busy display
  found_object environment t u d h good =
      let e = ap (progress_of ctx.handler false u.cloud) h in
      (
        ap (λ p. p.in_progress) e
            ∙ ap
                (λ b.
                  (if b
                    then found ctx.handler true d.job_id d
                    else found ctx.handler false "" d).in_progress)
                (ap is_busy good),
        ap (λ p. p.status) e
            ∙ ap
                (λ b.
                  (if b
                    then found ctx.handler true d.job_id d
                    else found ctx.handler false "" d).status)
                (ap is_busy good)
            ∙ ap display good,
      )

  pub note-started :
      (r : Resource) (s : Started) (x v : World K S) (a : Action)
      → (note_destroy ctx kind r s x).outcome ≡ returned a v
      → (job_id : String) × ((update_resource_status ctx kind r "Delete - initiated"
            (ctx.get_timestamp x)
            "Destroy job submitted"
            job_id
            x).outcome
          ≡ returned tt v)
  unfolding note_destroy
  note-started r (job_started id) x v a h =
      let (c, e) =
        ending-eq-returned
          (update_resource_status ctx kind r "Delete - initiated" (ctx.get_timestamp x)
            "Destroy job submitted" id)
          _ a x v h in
      (id, e)
  note-started r (job_failed e) x v a h = cc

  ran-cluster :
      (w x : World K S) (o : Submit.Outcome S (String × String × ApiInfraPayloadWithVariables))
      (s : Started)
      → (ran_job ctx kind "destroy" w o).outcome ≡ returned s x
      → w.cluster ≡ x.cluster
  ran-cluster w x (Submit.started r c) s h = ap (λ u. u.cluster) (same_world h)
  ran-cluster w x (Submit.refused e c) s h = ap (λ u. u.cluster) (same_world h)
  ran-cluster w x Submit.panic s h = cc

  pub submitted-cluster :
      (w x : World K S) (o : Fetched (Option String × Fetched (DeploymentManifest Y)))
      (environment : String) (s : Started)
      → (submit_yaml ctx kind "destroy" environment w o).outcome ≡ returned s x
      → w.cluster ≡ x.cluster
  unfolding submit_yaml
  submitted-cluster w x (fetched claim) environment s h = ran-cluster w x _ s h
  submitted-cluster w x (fetch_error e) environment s h = cc
