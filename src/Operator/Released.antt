-- ===== src/Operator/Released.antt =====
-- How operator/src/operator.rs lets go of an object: once its destroy job has succeeded, the finalizer goes.
use infraweave.Prelude.{
  ◌≡◌, refl, sym, ap, ◌∙◌, subst, true, false, ◌==◌, some, String, [], ◌∷◌, arith, contains, concat,
}
use infraweave.Cloud.{fetched}
use infraweave.Deployment.Status.{DeploymentResp, successful}
use infraweave.Operator.{Resource, finalizer_name, job_id_of, last_check_of, deployment_id_of}
use infraweave.Operator.Step.{World, Context, Action, await_change, returned, ◌>>=◌}
use infraweave.Operator.Retry.{is_failed, found_for, should_do_full_check}
use infraweave.Operator.Apply.{submit_job}
use infraweave.Operator.Delete.{start_destroy, note_destroy, is_destroy_job}
use infraweave.Operator.Safe.{has_destroy_job}
use infraweave.Operator.Reconcile.{environment_of, reconcile}
use infraweave.Operator.Branches.{
  reconcile-deleted, destroy-ended, destroy-finished, destroy-starts, fetched-then,
}
use infraweave.Operator.Stored.{
  MergesPatches, fetched-inj, >>=-eq-returned, ref_of, update_resource_status-eq-returned,
}
use infraweave.Operator.Answered.{AcceptsPatches, IsFreed, finish-returns}
use infraweave.Operator.Started.{
  started_object, is_destroy_job-started_object, deployment_id-started_object, found_object,
  note-started, submitted-cluster,
}

module _ {Y P K S : Type 0} (ctx : Context Y P K S) (kind : String)
    (merges : MergesPatches ctx.client) (r : Resource) (name : String)
    (named : r.name ≡ some name) where
  -- After the start of a destroy job that returns, the cluster stores it.
  destroy-stored :
      (environment : String) (w v : World K S) (a : Action)
      → ctx.client.get (ref_of ctx kind r name) w.cluster ≡ fetched r
      → (start_destroy ctx kind environment r w).outcome ≡ returned a v
      → (update now job_id : String) × (ctx.client.get (ref_of ctx kind r name) v.cluster
          ≡ fetched (started_object ctx kind r name update now job_id))
  unfolding start_destroy started_object submit_job
  destroy-stored environment w v a stored o =
      let then_noted = λ (fresh : Resource).
        submit_job ctx kind "destroy" environment fresh >>= note_destroy ctx kind fresh in
      let (s, x, e1, e2) =
        >>=-eq-returned (submit_job ctx kind "destroy" environment r) (note_destroy ctx kind r) w a
          v
          (sym (
              ap (λ y. y.outcome)
                (fetched-then ctx kind r w environment name r then_noted named stored))
            ∙ o) in
      let (job_id, e3) = note-started ctx kind r s x v a e2 in
      let same = submitted-cluster ctx kind w x (ctx.to_claim r) environment s e1 in
      (
        ctx.get_timestamp x,
        ctx.get_timestamp x,
        job_id,
        update_resource_status-eq-returned ctx kind merges r name named "Delete - initiated"
            (ctx.get_timestamp x) "Destroy job submitted" job_id x v r
            (subst (λ k. ctx.client.get (ref_of ctx kind r name) k ≡ fetched r) same stored) e3,
      )

  -- A check that finds the deployment of an object with a destroy job successful
  checked :
      AcceptsPatches ctx.client
      → (t : Resource) (u : World K S) (d : DeploymentResp P) → t.name ≡ some name
      → t.is_deleting ≡ true
      → contains t.finalizers finalizer_name ≡ true
      → is_destroy_job ctx kind t ≡ true
      → ctx.handler.get_deployment (deployment_id_of t) (environment_of ctx kind t) true u.cloud
        ≡ fetched (some d)
      → d.status ≡ successful
      → ctx.client.get (ref_of ctx kind t name) u.cluster ≡ fetched t
      → (job_id_of t == "") ≡ false
      → should_do_full_check ctx kind (last_check_of t) u ≡ true
      → (x : World K S) × ((reconcile ctx kind t u).outcome ≡ returned await_change x)
        × IsFreed ctx.client (ref_of ctx kind t name) x.cluster
  checked accepts t u d named_t deleting finalized destroying there good stored recorded due =
      let env = environment_of ctx kind t in
      let (rest, fine) = found_object ctx kind env t u d there good in
      let (message, ends) =
        destroy-finished ctx kind t u env (no_failure (found_for ctx kind env t u).status fine) in
      let (x, done, freed) =
        finish-returns ctx kind merges accepts t name named_t (found_for ctx kind env t u) message u
          t fine stored in
      let ran =
        reconcile-deleted ctx kind t u name named_t deleting finalized
        ∙ destroy-ended ctx kind t u env (has_job t destroying recorded) due rest
        ∙ ends in
      (x, ap (λ y. y.outcome) ran ∙ done, freed)
    where
      has_job :
          (y : Resource)
          → is_destroy_job ctx kind y ≡ true
          → (job_id_of y == "") ≡ false
          → has_destroy_job ctx kind y ≡ true
      has_job y h k = ground (arith, h, k)

      no_failure : (status : String) → status ≡ "successful" → is_failed status ≡ false
      no_failure status h = rw h refl

  -- Once a reconcile of an object being deleted has started a destroy job whose id the status holds, and the
  -- cloud finds the deployment successful at a later check that is due, that check waits for a change after
  -- a last patch of the cluster, which is answered, of the object that is held then, and which
  -- leaves it without the operator's finalizer: where the cluster answers every patch of an object that it
  -- holds and merges those of a status, and holds at the check what it stored after the start.
  pub reconcile-released :
      AcceptsPatches ctx.client
      → (w v u : World K S) (a : Action) (t : Resource) (d : DeploymentResp P)
      → r.is_deleting ≡ true
      → contains r.finalizers finalizer_name ≡ true
      → has_destroy_job ctx kind r ≡ false
      → ctx.client.get (ref_of ctx kind r name) w.cluster ≡ fetched r
      → (reconcile ctx kind r w).outcome ≡ returned a v
      → ctx.client.get (ref_of ctx kind r name) v.cluster ≡ fetched t
      → ctx.client.get (ref_of ctx kind r name) u.cluster ≡ fetched t
      → (job_id_of t == "") ≡ false
      → should_do_full_check ctx kind (last_check_of t) u ≡ true
      → ctx.handler.get_deployment
          (concat (ctx.crates.to_lowercase kind ∷ "/" ∷ name ∷ []))
          (environment_of ctx kind r)
          true
          u.cloud
        ≡ fetched (some d)
      → d.status ≡ successful
      → (x : World K S) × ((reconcile ctx kind t u).outcome ≡ returned await_change x)
        × IsFreed ctx.client (ref_of ctx kind t name) x.cluster
  unfolding started_object
  reconcile-released accepts w v u a t d deleting finalized free stored o e e' recorded due there
        good =
      let env = environment_of ctx kind r in
      let ran =
        reconcile-deleted ctx kind r w name named deleting finalized
        ∙ destroy-starts ctx kind r w env free in
      let (update, now, job_id, stored') =
        destroy-stored env w v a stored (sym (ap (λ y. y.outcome) ran) ∙ o) in
      let started = started_object ctx kind r name update now job_id in
      subst
        (λ t.
          ctx.client.get (ref_of ctx kind r name) u.cluster ≡ fetched t
          → (job_id_of t == "") ≡ false
          → should_do_full_check ctx kind (last_check_of t) u ≡ true
          → (x : World K S) × ((reconcile ctx kind t u).outcome ≡ returned await_change x)
            × IsFreed ctx.client (ref_of ctx kind t name) x.cluster)
        (fetched-inj (sym stored' ∙ e))
        (checked accepts started u d named deleting finalized
          (is_destroy_job-started_object ctx kind r name update now job_id)
          (ap (λ k. ctx.handler.get_deployment k env true u.cloud)
              (deployment_id-started_object ctx kind r name update now job_id)
            ∙ there)
          good)
        e' recorded due
