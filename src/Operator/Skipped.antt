-- ===== src/Operator/Skipped.antt =====
-- After a failed apply job with attempts left, operator/src/operator.rs does not try again.
use infraweave.Prelude.{
  ◌≡◌, sym, ap, ◌∙◌, subst, ℕ, ◌<◌, ◌^◌, true, false, not, ◌&&◌, ◌==◌, Option, none, some, String,
  arith, contains, eq_iff, if-eq-left, if-eq-right, Bool-cases, inl, inr,
}
use infraweave.Json.{Fields, string, end, field}
use infraweave.Cloud.{CloudHandler, Fetched, fetched, fetch_error}
use infraweave.Deployment.Status.{pos, DeploymentResp, is_busy}
use infraweave.Infra.Progress.{progress_of, found, is_deployment_in_progress}
use infraweave.Operator.{
  Resource, finalizer_name, job_id_of, last_check_of, deployment_id_of, contains_text,
  generation_of, resource_status_of, retry_count_of,
}
use infraweave.Operator.Step.{World, Context, Step, Action, await_change, returned, pure}
use infraweave.Operator.Status.{update_resource_status, update_retry_count}
use infraweave.Operator.Retry.{
  labelled, lt_int, succ_int, max_retries, update_time_of, after_failure, is_failed, found_for,
  should_do_full_check,
}
use infraweave.Operator.Apply.{
  is_none, is_stuck_state, is_unchanged, message_of, job_ended, full_check, follow_apply,
  reconcile_fresh, without_job,
}
use infraweave.Operator.Reconcile.{environment_of, reconcile}
use infraweave.Operator.Branches.{reconcile-staying, fresh-then}
use infraweave.Operator.Stored.{
  MergesPatches, fetched-inj, >>=-eq-returned, ref_of, update_resource_status-eq-returned,
  update_retry_count-eq-returned, ending-eq-returned,
}
use infraweave.Operator.Attempt.{
  after_attempt, job_id-after_attempt, not_stuck-after_attempt, unchanged-after_attempt,
}

-- A failure is that of a deployment that was found.
found-failed :
    {P S : Type 0} (handler : CloudHandler P S) (s : S) (o : Fetched (Option (DeploymentResp P)))
    → is_failed (progress_of handler false s o).status ≡ true
    → (d : DeploymentResp P) × ((progress_of handler false s o).deployment ≡ some d)
unfolding found
found-failed handler s (fetch_error e) h = cc
found-failed handler s (fetched none) h = cc
found-failed handler s (fetched (some d)) h = (
  d,
  elim (Bool-cases (is_busy d.status)) [
    | inl e ↦
        ap (λ p. p.deployment)
          (if-eq-left (is_busy d.status) (found handler true d.job_id d) (found handler false "" d)
            e)
    | inr e ↦
        ap (λ p. p.deployment)
          (if-eq-right (is_busy d.status) (found handler true d.job_id d) (found handler false "" d)
            e)
  ],
)

module _ {Y P K S : Type 0} (ctx : Context Y P K S) (kind : String) where
  -- An object without a job, in no stuck state and of a generation that was seen, is left alone.
  skipped :
      (environment : String) (r fresh : Resource) (u : World K S)
      → job_id_of fresh ≡ ""
      → is_stuck_state ctx kind fresh ≡ false
      → is_unchanged ctx kind fresh ≡ true
      → reconcile_fresh ctx kind environment r fresh u ≡ pure await_change u
  unfolding reconcile_fresh without_job
  skipped environment r fresh u a b c =
      if-eq-left (job_id_of fresh == "") _ _ ((eq_iff (job_id_of fresh) "").1 a)
      ∙ if-eq-right (is_stuck_state ctx kind fresh) _ _ b
      ∙ if-eq-left (is_unchanged ctx kind fresh) _ _ c

  -- A recorded job that is due for a check and failed
  apply_failed :
      (environment : String) (r fresh : Resource) (w : World K S)
      → (job_id_of fresh == "") ≡ false
      → should_do_full_check ctx kind (last_check_of fresh) w ≡ true
      → (found_for ctx kind environment fresh w).in_progress ≡ false
      → is_failed (found_for ctx kind environment fresh w).status ≡ true
      → reconcile_fresh ctx kind environment r fresh w
        ≡ after_failure ctx kind "Apply"
            (field "logs"
              (string
                (message_of ctx kind environment fresh (found_for ctx kind environment fresh w) w))
              end)
            (retry_count_of fresh)
            r
            (found_for ctx kind environment fresh w)
            (message_of ctx kind environment fresh (found_for ctx kind environment fresh w) w)
            (job_id_of fresh)
            w
  unfolding reconcile_fresh follow_apply full_check job_ended is_deployment_in_progress
  apply_failed environment r fresh w a due rest failed =
      let found = found_for ctx kind environment fresh w in
      let (d, there) =
        found-failed ctx.handler w.cloud
          (ctx.handler.get_deployment (deployment_id_of fresh) environment true w.cloud) failed in
      if-eq-right (job_id_of fresh == "") _ _ a
      ∙ if-eq-left (should_do_full_check ctx kind (last_check_of fresh) w) _ _ due
      ∙ if-eq-right
          (not found.in_progress
            && is_none ctx kind found.deployment
            && contains_text (resource_status_of fresh) "initiated")
          _ _
          (ap
              (λ o.
                not found.in_progress
                && is_none ctx kind o
                && contains_text (resource_status_of fresh) "initiated")
              there
            ∙ ground (arith, rest))
      ∙ if-eq-right found.in_progress _ _ rest
      ∙ if-eq-left (is_failed found.status) _ _ failed

  abbrev apply_message : Resource → World K S → String
  apply_message r w =
      let env = environment_of ctx kind r in
      message_of ctx kind env r (found_for ctx kind env r w) w

  abbrev apply_logs : Resource → World K S → Fields
  apply_logs r w = field "logs" (string (apply_message r w)) end

  left_alone :
      (t : Resource) (name : String) (u : World K S)
      → t.name ≡ some name
      → t.is_deleting ≡ false
      → contains t.finalizers finalizer_name ≡ true
      → ctx.client.get (ref_of ctx kind t name) u.cluster ≡ fetched t
      → job_id_of t ≡ ""
      → is_stuck_state ctx kind t ≡ false
      → is_unchanged ctx kind t ≡ true
      → reconcile ctx kind t u ≡ pure await_change u
  left_alone t name u named staying finalized stored free moving unchanged =
      reconcile-staying ctx kind t u name named staying finalized
      ∙ fresh-then ctx kind t u (environment_of ctx kind t) name t named stored
      ∙ skipped (environment_of ctx kind t) t t u free moving unchanged

  -- The object after a failed job with attempts left
  after_job : Resource → String → World K S → Resource
  after_job r name w =
      let env = environment_of ctx kind r in
      let found = found_for ctx kind env r w in
      after_attempt ctx kind r name found.status (update_time_of ctx kind found.deployment w)
        (ctx.get_timestamp w) (message_of ctx kind env r found w) (job_id_of r)

  attempt-stored :
      MergesPatches ctx.client
      → (r : Resource) (name : String) (w v : World K S) (a : Action) → r.name ≡ some name
      → ctx.client.get (ref_of ctx kind r name) w.cluster ≡ fetched r
      → lt_int (retry_count_of r) max_retries ≡ true
      → (after_failure ctx kind "Apply"
          (apply_logs r w)
          (retry_count_of r)
          r
          (found_for ctx kind (environment_of ctx kind r) r w)
          (apply_message r w)
          (job_id_of r)
          w).outcome
        ≡ returned a v
      → ctx.client.get (ref_of ctx kind r name) v.cluster ≡ fetched (after_job r name w)
  unfolding after_failure after_job after_attempt
  attempt-stored merges r name w v a named stored attempts o =
      let found = found_for ctx kind (environment_of ctx kind r) r w in
      let update = update_time_of ctx kind found.deployment w in
      let tried =
        ap {A = Step (World K S) Action} (λ s. s.outcome)
          (if-eq-left (lt_int (retry_count_of r) max_retries) _ _ attempts) in
      let (b, x, x1, x2) =
        >>=-eq-returned
          (update_resource_status ctx kind r (labelled "Apply" found.status) update
            (apply_message r w) (job_id_of r))
          _ w a v (sym tried ∙ o) in
      let (c, z) =
        ending-eq-returned (update_retry_count ctx kind r (succ_int (retry_count_of r))) _ a x v
          x2 in
      update_retry_count-eq-returned ctx kind merges r name named _ x v _
        (update_resource_status-eq-returned ctx kind merges r name named
          (labelled "Apply" found.status) update (apply_message r w) (job_id_of r) w x r stored x1)
        z

  -- Where the cluster merges the patches that it answers, and the cached object is the stored one with a
  -- positive generation: after a reconcile that found the recorded apply job failed, with attempts left,
  -- and returned, the next reconcile of what is stored then sends nothing and waits for a change, so the
  -- job is not tried again.
  pub reconcile-skipped :
      MergesPatches ctx.client
      → (r : Resource) (name : String) (n : ℕ) (w v u : World K S) (a : Action) (t : Resource)
      → r.name ≡ some name
      → r.is_deleting ≡ false
      → contains r.finalizers finalizer_name ≡ true
      → generation_of r ≡ pos n
      → 0 < n
      → n < 2 ^ 63
      → ctx.client.get (ref_of ctx kind r name) w.cluster ≡ fetched r
      → (job_id_of r == "") ≡ false
      → should_do_full_check ctx kind (last_check_of r) w ≡ true
      → (found_for ctx kind (environment_of ctx kind r) r w).in_progress ≡ false
      → is_failed (found_for ctx kind (environment_of ctx kind r) r w).status ≡ true
      → lt_int (retry_count_of r) max_retries ≡ true
      → (reconcile ctx kind r w).outcome ≡ returned a v
      → ctx.client.get (ref_of ctx kind r name) v.cluster ≡ fetched t
      → ctx.client.get (ref_of ctx kind r name) u.cluster ≡ fetched t
      → reconcile ctx kind t u ≡ pure await_change u
  unfolding after_job after_attempt
  reconcile-skipped merges r name n w v u a t named staying finalized gen low high stored recorded
        due rest failed attempts o e e' =
      let env = environment_of ctx kind r in
      let found = found_for ctx kind env r w in
      let update = update_time_of ctx kind found.deployment w in
      let ran =
        reconcile-staying ctx kind r w name named staying finalized
        ∙ fresh-then ctx kind r w env name r named stored
        ∙ apply_failed env r r w recorded due rest failed in
      let stored' =
        attempt-stored merges r name w v a named stored attempts
          (sym (ap (λ s. s.outcome) ran) ∙ o) in
      let alone = left_alone (after_job r name w) name u named staying finalized in
      subst
        (λ y.
          ctx.client.get (ref_of ctx kind r name) u.cluster ≡ fetched y
          → reconcile ctx kind y u ≡ pure await_change u)
        (fetched-inj (sym stored' ∙ e))
        (λ h.
          alone h
            (job_id-after_attempt ctx kind r name found.status update (ctx.get_timestamp w)
              (apply_message r w) (job_id_of r))
            (not_stuck-after_attempt ctx kind r name found.status update (ctx.get_timestamp w)
              (apply_message r w) (job_id_of r) failed)
            (unchanged-after_attempt ctx kind r n name found.status update (ctx.get_timestamp w)
              (apply_message r w) (job_id_of r) gen low high))
        e'
