-- ===== src/Operator/Retried.antt =====
-- What follows a failed job in operator/src/operator.rs, where the cluster merges the patches that it
-- answers.
use infraweave.Prelude.{
  ◌≡◌, refl, sym, ap, ◌∙◌, subst, true, false, Option, some, String, List, ◌∷◌, arith, eqb, leb,
  contains, eq_iff,
}
use infraweave.Json.{Value, string, object, Fields, end, field, as_str, and_then, unwrap_or}
use infraweave.Cloud.{Fetched, fetched}
use infraweave.Deployment.Status.{ℤ}
use infraweave.Infra.Manifest.{DeploymentManifest}
use infraweave.Infra.Progress.{InProgress}
use infraweave.Operator.{
  Resource, in_status, finalizer_name, status_merged, merge_value, status_field, job_id_of,
  last_check_of, last_failure_epoch_of, retry_count_of,
}
use infraweave.Operator.Step.{World, Context, Action, Request, job, returned}
use infraweave.Operator.Status.{
  update_resource_status, retry_fields, reset_fields, update_fields, update_retry_count,
  reset_retry_count,
}
use infraweave.Operator.Merge.{overlay, status_field-status_merged}
use infraweave.Operator.Retry.{
  succ_int, elapsed, twenty_four_hours_ms, max_retries, lt_int, succ_int, labelled, update_time_of,
  cool_down, after_failure, is_failed, found_for, should_do_full_check, exhausted_fields,
  cooling_fields, now_epoch,
}
use infraweave.Operator.Safe.{has_destroy_job}
use infraweave.Operator.Reconcile.{environment_of, reconcile}
use infraweave.Operator.Branches.{
  reconcile-deleted, destroy-ended, destroy-failed, destroy-starts, start_destroy-requests,
}
use infraweave.Operator.Stored.{
  MergesPatches, fetched-inj, >>=-eq-returned, ref_of, update_resource_status-eq-returned,
  update_retry_count-eq-returned, reset_retry_count-eq-returned, ending-eq-returned, if-eq-returned,
  patch_last-eq-returned,
}

-- The object with another status
pub record IsSameObject (s t : Resource) : Type 0 where
  pub name : t.name ≡ s.name
  pub namespace : t.namespace ≡ s.namespace
  pub is_deleting : t.is_deleting ≡ s.is_deleting
  pub finalizers : t.finalizers ≡ s.finalizers

pub merged-IsSameObject :
    (s t : Resource) (patch : Value) → IsSameObject s t → IsSameObject s (status_merged t patch)
merged-IsSameObject s t patch h = record {
  name = h.name;
  namespace = h.namespace;
  is_deleting = h.is_deleting;
  finalizers = h.finalizers;
}

pub same-IsSameObject : (s : Resource) → IsSameObject s s
same-IsSameObject s = record {
  name = refl;
  namespace = refl;
  is_deleting = refl;
  finalizers = refl;
}

-- An object that is deleted and records no job gets a destroy job.
restarts :
    {Y P K S : Type 0} (ctx : Context Y P K S) (kind : String) (t : Resource) (name : String)
    (u : World K S) (claim : Option String × Fetched (DeploymentManifest Y))
    → t.name ≡ some name
    → t.is_deleting ≡ true
    → contains t.finalizers finalizer_name ≡ true
    → job_id_of t ≡ ""
    → ctx.client.get (ref_of ctx kind t name) u.cluster ≡ fetched t
    → ctx.to_claim t ≡ fetched claim
    → (rest : List Request) × ((reconcile ctx kind t u).requests ≡ job "destroy" ∷ rest)
restarts ctx kind t name u claim named deleting finalized no_job stored claimed =
    let starts = destroy-starts ctx kind t u (environment_of ctx kind t) (freed t no_job) in
    let (rest, q) =
      start_destroy-requests ctx kind t u (environment_of ctx kind t) name t claim named stored
        claimed in
    (
      rest,
      ap (λ x. x.requests) (reconcile-deleted ctx kind t u name named deleting finalized ∙ starts)
          ∙ q,
    )
  where
    freed : (x : Resource) → job_id_of x ≡ "" → has_destroy_job ctx kind x ≡ false
    freed x h = ground (arith, (eq_iff (job_id_of x) "").1 h)

module _ {Y P K S : Type 0} (ctx : Context Y P K S) (kind : String)
    (merges : MergesPatches ctx.client) (r : Resource) (name : String)
    (named : r.name ≡ some name) where
  -- The cluster stores the object without a job.
  abbrev StoresFreed : World K S → Resource → Type 0
  StoresFreed v s =
      (t : Resource) × (ctx.client.get (ref_of ctx kind r name) v.cluster ≡ fetched t)
      × (job_id_of t ≡ "")
      × IsSameObject s t

  freed_by :
      (v : World K S) (s t : Resource) (fs : Fields)
      → IsSameObject s t
      → overlay fs "jobId" (status_field t "jobId") ≡ some (string "")
      → ctx.client.get (ref_of ctx kind r name) v.cluster
        ≡ fetched (status_merged t (object (field "status" (object fs) end)))
      → StoresFreed v s
  freed_by v s t fs same e h =
      let patch = object (field "status" (object fs) end) in
      (
        status_merged t patch,
        h,
        ap (λ o. unwrap_or (and_then o as_str) "") (status_field-status_merged t fs "jobId" ∙ e),
        merged-IsSameObject s t patch same,
      )

  cool_down-eq-returned :
      (label : String) (extra : Fields) (status : String) (w v : World K S) (s t : Resource)
      (a : Action)
      → ((o : Option Value) → overlay extra "jobId" o ≡ o)
      → IsSameObject s t
      → ctx.client.get (ref_of ctx kind r name) w.cluster ≡ fetched t
      → (cool_down ctx kind label extra r status w).outcome ≡ returned a v
      → StoresFreed v s
  unfolding cool_down overlay merge_value
  cool_down-eq-returned label extra status w v s t a kept same h o =
      let since = last_failure_epoch_of r in
      if-eq-returned (eqb since 0) _ _ o
        (λ e x.
          freed_by v s t (exhausted_fields ctx kind (now_epoch ctx kind w) label status extra) same
            (kept _) (patch_last-eq-returned ctx kind merges r name named _ _ a w v t h x))
        (λ e x.
          if-eq-returned (leb twenty_four_hours_ms (elapsed ctx kind since w)) _ _ x
            (λ d y.
              let (c, z) = ending-eq-returned (reset_retry_count ctx kind r) _ a w v y in
              freed_by v s t (reset_fields ctx kind) same refl
                (reset_retry_count-eq-returned ctx kind merges r name named w v t h z))
            (λ d y.
              freed_by v s t (cooling_fields ctx kind label status) same refl
                (patch_last-eq-returned ctx kind merges r name named _ _ a w v t h y)))

  after_failure-eq-returned :
      (label : String) (extra : Fields) (n : ℤ) (found : InProgress P) (message job_id : String)
      (w v : World K S) (s : Resource) (a : Action)
      → ((o : Option Value) → overlay extra "jobId" o ≡ o)
      → ctx.client.get (ref_of ctx kind r name) w.cluster ≡ fetched s
      → (after_failure ctx kind label extra n r found message job_id w).outcome ≡ returned a v
      → StoresFreed v s
  unfolding after_failure overlay merge_value
  after_failure-eq-returned label extra n found message job_id w v s a kept h o =
      if-eq-returned (lt_int n max_retries) _ _ o
        (λ e x.
          let (b, u, x1, x2) =
            >>=-eq-returned (update_resource_status ctx kind r _ _ _ _) _ w a v x in
          let (c, z) = ending-eq-returned (update_retry_count ctx kind r _) _ a u v x2 in
          freed_by v s _ (retry_fields ctx kind (succ_int n))
            (merged-IsSameObject s s
              (in_status (
                update_fields ctx kind r name (labelled label found.status)
                  (update_time_of ctx kind found.deployment w) (ctx.get_timestamp w) message
                  job_id))
              (same-IsSameObject s))
            refl
            (update_retry_count-eq-returned ctx kind merges r name named _ u v _
              (update_resource_status-eq-returned ctx kind merges r name named _ _ _ _ w u s h x1)
              z))
        (λ e x.
          cool_down-eq-returned label extra found.status w v s s a kept (same-IsSameObject s) h x)

  -- Where the cluster merges the patches that it answers, and the cached object is the stored one: after a
  -- reconcile that found a recorded destroy job failed and returned, with or without attempts left, the
  -- next reconcile of what is stored then starts a destroy job again, whatever its time, if the object
  -- reads as a claim.
  pub reconcile-again :
      (w v u : World K S) (a : Action) (t : Resource)
      (claim : Option String × Fetched (DeploymentManifest Y))
      → r.is_deleting ≡ true
      → contains r.finalizers finalizer_name ≡ true
      → has_destroy_job ctx kind r ≡ true
      → ctx.client.get (ref_of ctx kind r name) w.cluster ≡ fetched r
      → should_do_full_check ctx kind (last_check_of r) w ≡ true
      → (found_for ctx kind (environment_of ctx kind r) r w).in_progress ≡ false
      → is_failed (found_for ctx kind (environment_of ctx kind r) r w).status ≡ true
      → (reconcile ctx kind r w).outcome ≡ returned a v
      → ctx.client.get (ref_of ctx kind r name) v.cluster ≡ fetched t
      → ctx.client.get (ref_of ctx kind r name) u.cluster ≡ fetched t
      → ctx.to_claim t ≡ fetched claim
      → (rest : List Request) × ((reconcile ctx kind t u).requests ≡ job "destroy" ∷ rest)
  unfolding overlay
  reconcile-again w v u a t claim deleting finalized recorded stored due rest failed o e e'
        claimed =
      let env = environment_of ctx kind r in
      let (message, ends) = destroy-failed ctx kind r w env failed in
      let ran =
        reconcile-deleted ctx kind r w name named deleting finalized
        ∙ destroy-ended ctx kind r w env recorded due rest
        ∙ ends in
      let (t', stored', no_job, same) =
        after_failure-eq-returned "Delete" end (retry_count_of r) (found_for ctx kind env r w)
          message (job_id_of r) w v r a (λ o. refl) stored (sym (ap (λ x. x.outcome) ran) ∙ o) in
      subst
        (λ y.
          ctx.client.get (ref_of ctx kind r name) u.cluster ≡ fetched y
          → ctx.to_claim y ≡ fetched claim
          → (rest : List Request) × ((reconcile ctx kind y u).requests ≡ job "destroy" ∷ rest))
        (fetched-inj (sym stored' ∙ e))
        (λ h.
          restarts ctx kind t' name u claim (same.name ∙ named) (same.is_deleting ∙ deleting)
            (ap (λ fs. contains fs finalizer_name) same.finalizers ∙ finalized) no_job
            (subst
              (λ n.
                ctx.client.get
                  (record { kind = kind; namespace = unwrap_or n "default"; name = name }) u.cluster
                ≡ fetched t')
              (sym same.namespace) h))
        e' claimed
