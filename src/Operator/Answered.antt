-- ===== src/Operator/Answered.antt =====
-- What the steps of operator/src/operator.rs give where the cluster answers every patch of an object that
-- it holds.
use infraweave.Prelude.{◌≡◌, ap, ◌∙◌, false, ◌==◌, some, String, contains, eq_iff, if-eq-left}
use infraweave.Json.{Value, array, object, end, field}
use infraweave.Cloud.{fetched}
use infraweave.Infra.Progress.{InProgress}
use infraweave.Operator.{
  Resource, ObjectRef, finalizer_name, in_status, status_merged, finalizers_merged,
}
use infraweave.Operator.Step.{
  World, Client, patched, status_patch, metadata_patch, Context, Action, await_change, Step,
  returned, continue_with, ◌>>=◌, ◌>>◌, pure, lift_fetched,
}
use infraweave.Operator.Status.{
  sent, get_resource, patch_status, patch_metadata, update_fields, update_resource_status,
}
use infraweave.Operator.Merge.{texts-items, contains-without_finalizer}
use infraweave.Operator.Retry.{labelled, update_time_of}
use infraweave.Operator.Delete.{without_finalizer, items, remove_finalizer, finish_destroy}
use infraweave.Operator.Stored.{MergesPatches, with_ref-eq, ref_of}

-- The API server answers every patch of an object that it holds.
pub record AcceptsPatches {K : Type 0} (client : Client K) : Type 0 where
  pub status :
      (ref : ObjectRef) (patch : Value) (k : K) (s : Resource)
      → client.get ref k ≡ fetched s
      → (l : K) × (client.patch_status ref patch k ≡ patched l)
  pub metadata :
      (ref : ObjectRef) (patch : Value) (k : K) (s : Resource)
      → client.get ref k ≡ fetched s
      → (l : K) × (client.patch ref patch k ≡ patched l)

-- The last change of a cluster that becomes `l`: a patch that was answered, of an object that the cluster
-- held, and that leaves the object without the finalizer of the operator. The cluster may delete it then.
pub record IsFreed {K : Type 0} (client : Client K) (ref : ObjectRef) (l : K) : Type 0 where
  pub before : K
  pub held : Resource
  pub patch : Value
  pub found : client.get ref before ≡ fetched held
  pub answered : client.patch ref patch before ≡ patched l
  pub without : contains (finalizers_merged held patch).finalizers finalizer_name ≡ false

pub continues :
    {W A B : Type 0} (m : W → Step W A) (f : A → W → Step W B) (w : W) {a : A} {v : W}
    → (m w).outcome ≡ returned a v
    → ((m >>= f) w).outcome ≡ (f a v).outcome
unfolding ◌>>=◌
continues m f w h = ap (λ o. (continue_with (m w).requests o f).outcome) h

module _ {Y P K S : Type 0} (ctx : Context Y P K S) (kind : String)
    (merges : MergesPatches ctx.client) (accepts : AcceptsPatches ctx.client) (r : Resource)
    (name : String) (named : r.name ≡ some name) where
  update-returns :
      (status update message job_id : String) (w : World K S) (s : Resource)
      → ctx.client.get (ref_of ctx kind r name) w.cluster ≡ fetched s
      → (v : World K S) × (t : Resource) × ((update_resource_status ctx kind r status update message
            job_id w).outcome
          ≡ returned tt v)
        × (ctx.client.get (ref_of ctx kind r name) v.cluster ≡ fetched t)
  unfolding update_resource_status patch_status get_resource lift_fetched pure ◌>>=◌
  update-returns status update message job_id w s h =
      let patch =
        in_status
          (update_fields ctx kind r name status update (ctx.get_timestamp w) message job_id) in
      let (l, e) = accepts.status (ref_of ctx kind r name) patch w.cluster s h in
      let v : World K S = record { cluster = l; cloud = w.cloud } in
      let stored = merges.status (ref_of ctx kind r name) patch w.cluster l s h e in
      (
        v,
        status_merged s patch,
        ap (λ x. x.outcome) (with_ref-eq ctx kind r name _ w named)
            ∙ continues (patch_status ctx kind (ref_of ctx kind r name) patch)
                (λ _. get_resource ctx kind (ref_of ctx kind r name) >>= λ verify. pure tt) w
                (ap (λ o. (sent ctx kind (status_patch patch) w.cloud o).outcome) e)
            ∙ ap
                (λ o.
                  (continue_with (lift_fetched o v).requests (lift_fetched o v).outcome
                    (λ x. pure tt)).outcome)
                stored,
        stored,
      )

  released :
      (w : World K S) (s : Resource)
      → ctx.client.get (ref_of ctx kind r name) w.cluster ≡ fetched s
      → (v : World K S) × ((remove_finalizer ctx kind r w).outcome ≡ returned tt v)
        × IsFreed ctx.client (ref_of ctx kind r name) v.cluster
  unfolding remove_finalizer patch_metadata
  released w s h =
      let patch = object (
        field "metadata"
          (object (field "finalizers" (array (items (without_finalizer r.finalizers))) end)) end) in
      let (l, e) = accepts.metadata (ref_of ctx kind r name) patch w.cluster s h in
      let v : World K S = record { cluster = l; cloud = w.cloud } in
      (
        v,
        ap (λ x. x.outcome) (with_ref-eq ctx kind r name _ w named)
            ∙ ap (λ o. (sent ctx kind (metadata_patch patch) w.cloud o).outcome) e,
        record {
          before = w.cluster;
          held = s;
          patch = patch;
          found = h;
          answered = e;
          without =
              ap (λ fs. contains fs finalizer_name) (texts-items (without_finalizer r.finalizers))
              ∙ contains-without_finalizer r.finalizers;
        },
      )

  pub finish-returns :
      (p : InProgress P) (message : String) (w : World K S) (s : Resource)
      → p.status ≡ "successful"
      → ctx.client.get (ref_of ctx kind r name) w.cluster ≡ fetched s
      → (v : World K S) × ((finish_destroy ctx kind r p message w).outcome
          ≡ returned await_change v)
        × IsFreed ctx.client (ref_of ctx kind r name) v.cluster
  unfolding finish_destroy pure
  finish-returns p message w s good h =
      let update = update_time_of ctx kind p.deployment w in
      let (u, t, e1, h1) = update-returns (labelled "Delete" p.status) update message "" w s h in
      let (v, e2, freed) = released u t h1 in
      (
        v,
        ap {A = Step (World K S) Action} (λ x. x.outcome)
              (if-eq-left (p.status == "successful") _ _ ((eq_iff p.status "successful").1 good))
            ∙ continues
                (update_resource_status ctx kind r (labelled "Delete" p.status) update message "")
                (λ _. remove_finalizer ctx kind r >> pure await_change) w e1
            ∙ continues (remove_finalizer ctx kind r) (λ _. pure await_change) u e2,
        freed,
      )
