-- ===== src/Operator/Sent/Destroyed.antt =====
-- Which requests `handle_resource_deletion_nonblocking` of operator/src/operator.rs sends.
use infraweave.Prelude.{◌≡◌, refl, true, false, not, ◌||◌, ◌==◌, String, Bool-cases, inl, inr}
use infraweave.Json.{Value, end}
use infraweave.Cloud.{fetched}
use infraweave.Deployment.Status.{ℤ, pos}
use infraweave.Infra.Progress.{InProgress}
use infraweave.Operator.{Resource, ObjectRef, job_id_of, last_check_of, retry_count_of}
use infraweave.Operator.Step.{
  World, Context, Request, status_patch, metadata_patch, job, Sends, >>=-Sends, pure-Sends,
}
use infraweave.Operator.Retry.{
  succ_int, lt_int, max_retries, is_failed, found_for, should_do_full_check,
}
use infraweave.Operator.Apply.{Started, job_started, job_failed, error_of}
use infraweave.Operator.Delete.{
  is_destroy_job, note_destroy, start_destroy, remove_finalizer, finish_destroy, destroy_ended,
  destroy_message, check_destroy, follow_destroy, handle_resource_deletion_nonblocking,
}
use infraweave.Operator.Status.{patch_metadata}
use infraweave.Operator.Sent.{
  Counts, sent-Sends, with_ref-Sends, update_resource_status-Sends, ending-Sends, update_logs-Sends,
  after_failure-Sends, submit_job-Sends, get_resource-Sends, get_resource-eq,
}

module _ {Y P K S : Type 0} (ctx : Context Y P K S) (kind : String) (Q : Request → Type 0)
    (C : ℤ → Type 0) (patches : (v : Value) → Counts C v → Q (status_patch v)) (zero_ok : C (pos 0))
    (succ_ok : (z : ℤ) → lt_int z max_retries ≡ true → C (succ_int z)) where
  note_destroy-Sends :
      (fresh : Resource) (s : Started) (w : World K S)
      → C (retry_count_of fresh)
      → Sends Q (note_destroy ctx kind fresh s w)
  unfolding note_destroy
  note_destroy-Sends fresh (job_started id) w h =
      ending-Sends ctx kind Q C patches _ _ w
        (update_resource_status-Sends ctx kind Q C patches fresh _ _ _ _ w h)
  note_destroy-Sends fresh (job_failed e) w h = record { all = tt }

  start_destroy-Sends :
      (environment : String) (r : Resource) (w : World K S)
      → ((ref : ObjectRef) (fresh : Resource)
          → ctx.client.get ref w.cluster ≡ fetched fresh
          → C (retry_count_of fresh))
      → Q (job "destroy")
      → Sends Q (start_destroy ctx kind environment r w)
  unfolding start_destroy
  start_destroy-Sends environment r w stored q = with_ref-Sends ctx kind Q C patches _ _ w (λ ref.
      >>=-Sends Q _ _ w (get_resource-Sends ctx kind Q C patches ref w) (λ fresh v e.
        let (found, same) = get_resource-eq ctx kind Q C patches ref w v fresh e in
        >>=-Sends Q _ _ v (submit_job-Sends ctx kind Q C patches "destroy" environment fresh v q)
          (λ a u d. note_destroy-Sends fresh a u (stored ref fresh found))))

  remove_finalizer-Sends :
      (r : Resource) (w : World K S)
      → ((v : Value) → Q (metadata_patch v))
      → Sends Q (remove_finalizer ctx kind r w)
  unfolding remove_finalizer patch_metadata
  remove_finalizer-Sends r w q =
      with_ref-Sends ctx kind Q C patches _ _ w
        (λ ref. sent-Sends ctx kind Q C patches _ w.cloud _ (q _))

  finish_destroy-Sends :
      (r : Resource) (found : InProgress P) (message : String) (w : World K S)
      → C (retry_count_of r)
      → ((found.status == "successful") ≡ true → (v : Value) → Q (metadata_patch v))
      → Sends Q (finish_destroy ctx kind r found message w)
  unfolding finish_destroy
  finish_destroy-Sends r found message w h q = elim (Bool-cases (found.status == "successful")) [
    | inl e ↦ rw e (
        >>=-Sends Q _ _ w (update_resource_status-Sends ctx kind Q C patches r _ _ _ _ w h)
          (λ a v d. ending-Sends ctx kind Q C patches _ _ v (remove_finalizer-Sends r v (q e))))
    | inr e ↦ rw e (pure-Sends Q _ w)
  ]

  check_destroy-Sends :
      (r : Resource) (found : InProgress P) (w : World K S)
      → C (retry_count_of r)
      → (found.in_progress ≡ false
          → (found.status == "successful") ≡ true
          → (v : Value) → Q (metadata_patch v))
      → Sends Q (check_destroy ctx kind r found w)
  unfolding check_destroy destroy_ended
  check_destroy-Sends r found w h q = elim (Bool-cases found.in_progress) [
    | inl e ↦ rw e (
        ending-Sends ctx kind Q C patches _ _ w
          (update_resource_status-Sends ctx kind Q C patches r _ _ _ _ w h))
    | inr e ↦
        let message =
          destroy_message ctx kind (error_of ctx kind found.deployment "")
            (is_failed found.status) in
        rw e (elim (Bool-cases (is_failed found.status)) [
          | inl d ↦ rw d (
              after_failure-Sends ctx kind Q C patches "Delete" end (retry_count_of r) r found
                (destroy_message ctx kind (error_of ctx kind found.deployment "") true)
                (job_id_of r) w h zero_ok succ_ok refl)
          | inr d ↦ rw d (
              finish_destroy-Sends r found
                (destroy_message ctx kind (error_of ctx kind found.deployment "") false) w h (q e))
        ])
  ]

  pub handle_resource_deletion_nonblocking-Sends :
      (environment : String) (r : Resource) (w : World K S)
      → C (retry_count_of r)
      → ((ref : ObjectRef) (fresh : Resource)
          → ctx.client.get ref w.cluster ≡ fetched fresh
          → C (retry_count_of fresh))
      → ((not (is_destroy_job ctx kind r) || job_id_of r == "") ≡ true → Q (job "destroy"))
      → ((not (is_destroy_job ctx kind r) || job_id_of r == "") ≡ false
          → (found_for ctx kind environment r w).in_progress ≡ false
          → ((found_for ctx kind environment r w).status == "successful") ≡ true
          → (v : Value) → Q (metadata_patch v))
      → Sends Q (handle_resource_deletion_nonblocking ctx kind environment r w)
  unfolding handle_resource_deletion_nonblocking follow_destroy
  handle_resource_deletion_nonblocking-Sends environment r w h stored starts removes =
      elim (Bool-cases (not (is_destroy_job ctx kind r) || job_id_of r == "")) [
        | inl e ↦ rw e (start_destroy-Sends environment r w stored (starts e))
        | inr e ↦ rw e (elim (Bool-cases (should_do_full_check ctx kind (last_check_of r) w)) [
          | inl d ↦
              rw d (check_destroy-Sends r (found_for ctx kind environment r w) w h (removes e))
          | inr d ↦ rw d (update_logs-Sends ctx kind Q C patches r (job_id_of r) w)
        ])
      ]
