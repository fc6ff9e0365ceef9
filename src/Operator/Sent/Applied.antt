-- ===== src/Operator/Sent/Applied.antt =====
-- Which requests `reconcile_resource_nonblocking` of operator/src/operator.rs sends.
use infraweave.Prelude.{◌≡◌, refl, true, false, not, ◌&&◌, ◌==◌, String, Bool-cases, inl, inr}
use infraweave.Json.{Value, string, end, field}
use infraweave.Cloud.{fetched}
use infraweave.Deployment.Status.{ℤ, pos}
use infraweave.Infra.Progress.{InProgress}
use infraweave.Operator.{
  Resource, ObjectRef, contains_text, job_id_of, last_check_of, retry_count_of, resource_status_of,
}
use infraweave.Operator.Step.{
  World, Context, Request, status_patch, job, Sends, >>=-Sends, pure-Sends,
}
use infraweave.Operator.Retry.{
  succ_int, lt_int, max_retries, is_failed, found_for, should_do_full_check,
}
use infraweave.Operator.Apply.{
  Started, job_started, job_failed, is_stuck_state, is_unchanged, is_longer, is_none, is_positive,
  message_of, note_started, start_apply, leave_stuck_state, without_job, finish_apply, job_ended,
  full_check, follow_apply, reconcile_fresh, reconcile_resource_nonblocking,
}
use infraweave.Operator.Sent.{
  Counts, no_count, with_ref-Sends, with_own_ref-Sends, IsRefOf, patch_status-Sends,
  update_resource_status-Sends, reset_retry_count-Sends, ending-Sends, update_logs-Sends,
  after_failure-Sends, submit_job-Sends, get_resource-Sends, get_resource-eq,
}

module _ {Y P K S : Type 0} (ctx : Context Y P K S) (kind : String) (Q : Request → Type 0)
    (C : ℤ → Type 0) (patches : (v : Value) → Counts C v → Q (status_patch v)) (zero_ok : C (pos 0))
    (succ_ok : (z : ℤ) → lt_int z max_retries ≡ true → C (succ_int z)) where
  note_started-Sends :
      (fresh : Resource) (s : Started) (w : World K S)
      → C (retry_count_of fresh)
      → Sends Q (note_started ctx kind fresh s w)
  unfolding note_started
  note_started-Sends fresh (job_started id) w h =
      ending-Sends ctx kind Q C patches _ _ w
        (update_resource_status-Sends ctx kind Q C patches fresh _ _ _ _ w h)
  note_started-Sends fresh (job_failed e) w h =
      >>=-Sends Q _ _ w (update_resource_status-Sends ctx kind Q C patches fresh _ _ _ _ w h)
        (λ a v d. record { all = tt })

  start_apply-Sends :
      (environment : String) (fresh : Resource) (w : World K S)
      → C (retry_count_of fresh)
      → Q (job "apply")
      → Sends Q (start_apply ctx kind environment fresh w)
  unfolding start_apply
  start_apply-Sends environment fresh w h q =
      >>=-Sends Q _ _ w (submit_job-Sends ctx kind Q C patches "apply" environment fresh w q)
        (λ a v e. note_started-Sends fresh a v h)

  leave_stuck_state-Sends :
      (fresh : Resource) (w : World K S) → Sends Q (leave_stuck_state ctx kind fresh w)
  unfolding leave_stuck_state
  leave_stuck_state-Sends fresh w =
      elim (Bool-cases (
        not (last_check_of fresh == "")
        && is_longer 30 (ctx.seconds_since (last_check_of fresh) w))) [
          | inl e ↦ rw e (
              with_ref-Sends ctx kind Q C patches _ _ w (λ ref.
                ending-Sends ctx kind Q C patches _ _ w (
                  patch_status-Sends ctx kind Q C patches ref _ w
                    (λ z d. no_count ctx kind Q C patches d))))
          | inr e ↦ rw e (pure-Sends Q _ w)
        ]

  without_job-Sends :
      (environment : String) (fresh : Resource) (w : World K S)
      → C (retry_count_of fresh)
      → (is_stuck_state ctx kind fresh ≡ false
          → is_unchanged ctx kind fresh ≡ false
          → Q (job "apply"))
      → Sends Q (without_job ctx kind environment fresh w)
  unfolding without_job
  without_job-Sends environment fresh w h q = elim (Bool-cases (is_stuck_state ctx kind fresh)) [
    | inl e ↦ rw e (leave_stuck_state-Sends fresh w)
    | inr e ↦ rw e (elim (Bool-cases (is_unchanged ctx kind fresh)) [
      | inl d ↦ rw d (pure-Sends Q _ w)
      | inr d ↦ rw d (start_apply-Sends environment fresh w h (q e d))
    ])
  ]

  finish_apply-Sends :
      (r fresh : Resource) (found : InProgress P) (message : String) (w : World K S)
      → C (retry_count_of r)
      → Sends Q (finish_apply ctx kind r fresh found message w)
  unfolding finish_apply
  finish_apply-Sends r fresh found message w h =
      >>=-Sends Q _ _ w (update_resource_status-Sends ctx kind Q C patches r _ _ _ _ w h) (λ a v e.
        ending-Sends ctx kind Q C patches _ _ v
          (elim (Bool-cases (found.status == "successful" && is_positive (retry_count_of fresh))) [
            | inl d ↦ rw d (reset_retry_count-Sends ctx kind Q C patches r v zero_ok)
            | inr d ↦ rw d (pure-Sends Q _ v)
          ]))

  full_check-Sends :
      (environment : String) (r fresh : Resource) (found : InProgress P) (w : World K S)
      → C (retry_count_of r)
      → Sends Q (full_check ctx kind environment r fresh found w)
  unfolding full_check job_ended
  full_check-Sends environment r fresh found w h =
      elim (Bool-cases (
        not found.in_progress
        && is_none ctx kind found.deployment
        && contains_text (resource_status_of fresh) "initiated")) [
          | inl e ↦ rw e (
              ending-Sends ctx kind Q C patches _ _ w
                (update_resource_status-Sends ctx kind Q C patches r _ _ _ _ w h))
          | inr e ↦ rw e (elim (Bool-cases found.in_progress) [
            | inl d ↦ rw d (
                ending-Sends ctx kind Q C patches _ _ w
                  (update_resource_status-Sends ctx kind Q C patches r _ _ _ _ w h))
            | inr d ↦ rw d (elim (Bool-cases (is_failed found.status)) [
              | inl f ↦ rw f (
                  after_failure-Sends ctx kind Q C patches "Apply"
                    (field "logs" (string (message_of ctx kind environment fresh found w)) end)
                    (retry_count_of fresh) r found (message_of ctx kind environment fresh found w)
                    (job_id_of fresh) w h zero_ok succ_ok refl)
              | inr f ↦ rw f (finish_apply-Sends r fresh found _ w h)
            ])
          ])
        ]

  pub reconcile_fresh-Sends :
      (environment : String) (r fresh : Resource) (w : World K S)
      → C (retry_count_of r)
      → C (retry_count_of fresh)
      → ((job_id_of fresh == "") ≡ true
          → is_stuck_state ctx kind fresh ≡ false
          → is_unchanged ctx kind fresh ≡ false
          → Q (job "apply"))
      → Sends Q (reconcile_fresh ctx kind environment r fresh w)
  unfolding reconcile_fresh follow_apply
  reconcile_fresh-Sends environment r fresh w h g q = elim (Bool-cases (job_id_of fresh == "")) [
    | inl e ↦ rw e (without_job-Sends environment fresh w g (q e))
    | inr e ↦ rw e (elim (Bool-cases (should_do_full_check ctx kind (last_check_of fresh) w)) [
      | inl d ↦
          rw d (full_check-Sends environment r fresh (found_for ctx kind environment fresh w) w h)
      | inr d ↦ rw d (update_logs-Sends ctx kind Q C patches r (job_id_of fresh) w)
    ])
  ]

  pub reconcile_resource_nonblocking-Sends :
      (environment : String) (r : Resource) (w : World K S)
      → C (retry_count_of r)
      → ((ref : ObjectRef) (fresh : Resource)
          → ctx.client.get ref w.cluster ≡ fetched fresh
          → C (retry_count_of fresh))
      → ((ref : ObjectRef) (fresh : Resource)
          → IsRefOf kind r ref
          → ctx.client.get ref w.cluster ≡ fetched fresh
          → (job_id_of fresh == "") ≡ true
          → is_stuck_state ctx kind fresh ≡ false
          → is_unchanged ctx kind fresh ≡ false
          → Q (job "apply"))
      → Sends Q (reconcile_resource_nonblocking ctx kind environment r w)
  unfolding reconcile_resource_nonblocking
  reconcile_resource_nonblocking-Sends environment r w h stored q =
      with_own_ref-Sends ctx kind Q C patches _ _ w (λ ref own.
        >>=-Sends Q _ _ w (get_resource-Sends ctx kind Q C patches ref w) (λ fresh v e.
          let (found, same) = get_resource-eq ctx kind Q C patches ref w v fresh e in
          reconcile_fresh-Sends environment r fresh v h (stored ref fresh found)
            (q ref fresh own found)))
