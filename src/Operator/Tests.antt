-- ===== src/Operator/Tests.antt =====
-- Reconciles of operator/src/operator.rs on a cluster that holds one object.
use infraweave.Prelude.{
  arith, ◌≡◌, refl, sym, ap, ◌∙◌, Bool, true, false, Option, none, some, String, List, [], ◌∷◌, All,
}
use infraweave.Json.{number, pos_int, string, object, Fields, end, field}
use infraweave.Cloud.{Fetched, fetched, fetch_error}
use infraweave.Deployment.Status.{pos, successful, failed, is_busy}
use infraweave.Infra.Progress.{found}
use infraweave.Infra.Manifest.{DeploymentManifest}
use infraweave.Infra.Tests.{
  Slot, cloud, crates, manifest, in_order, show_number, no_duration, clock, busy,
}
use infraweave.Operator.{
  Resource, ObjectRef, finalizer_name, status_merged, finalizers_merged, retry_count_of,
}
use infraweave.Operator.Step.{
  World, Patched, patched, patch_error, Client, Context, Action, requeue, await_change, Request,
  job, Outcome, returned, ◌>>=◌, lift_fetched, pure,
}
use infraweave.Operator.Retry.{lt_int}
use infraweave.Operator.Reconcile.{reconcile}
use infraweave.Operator.Stored.{MergesPatches}
use infraweave.Operator.Retried.{reconcile-again}
use infraweave.Operator.Skipped.{reconcile-skipped}
use infraweave.Operator.Status.{with_ref, get_resource}
use infraweave.Operator.Safe.{
  Destroys, Applies, WithinRetries, reconcile-Destroys, reconcile-Applies, reconcile-WithinRetries,
}

abbrev client : Client Resource
client = record {
  get = λ ref k. fetched k;
  patch_status = λ ref patch k. patched (status_merged k patch);
  patch = λ ref patch k. patched (finalizers_merged k patch);
}

abbrev pub claim_of : Resource → Fetched (Option String × Fetched (DeploymentManifest Fields))
claim_of r = fetched (some "infraweave.io/v1", fetched manifest)

abbrev pub context : {K : Type 0} → Client K → Context Fields (Unit {0}) K Slot
context client = record {
  client = client;
  handler = cloud;
  cluster_id = "c1";
  mode = none;
  crates = crates;
  iter_set = in_order;
  show_number = show_number;
  parse_duration = no_duration;
  to_claim = claim_of;
  read_logs = λ j s. fetched ("line" ∷ []);
  plan_output = λ e d j c s. fetched "plan";
  clock = λ w. clock;
  get_timestamp = λ w. "now";
  get_epoch = λ w. 5;
  epoch_to_timestamp = λ n. "then";
  seconds_since = λ s w. some (pos 60);
}

abbrev ctx : Context Fields (Unit {0}) Resource Slot
ctx = context client

abbrev status : String → Fields
status text = field "deploymentId" (string "s3bucket/b") (
    field "jobId" (string "job-1") (
      field "lastCheck" (string "now")
        (field "resourceStatus" (string text) (field "retryCount" (number (pos_int 1)) end))))

abbrev pub stored_object : Bool → Fields → Resource
stored_object deleting fields = record {
  name = some "b";
  namespace = none;
  generation = some (pos 2);
  is_deleting = deleting;
  finalizers = finalizer_name ∷ [];
  contents = object (field "status" (object fields) end);
}

abbrev deleted_object : Resource
deleted_object = stored_object true (status "Delete - initiated")

abbrev pub finished : Slot
finished = some (record busy { status = successful })

abbrev world : Resource → Slot → World Resource Slot
world r s = record { cluster = r; cloud = s }

reconcile-Destroys_example :
    All
      (Destroys ctx "S3Bucket" deleted_object (world deleted_object finished))
      (reconcile ctx "S3Bucket" deleted_object (world deleted_object finished)).requests
reconcile-Destroys_example =
    reconcile-Destroys ctx "S3Bucket" deleted_object (world deleted_object finished) refl

abbrev new_object : Resource
new_object = stored_object false end

reconcile-Applies_example :
    All
      (Applies ctx "S3Bucket" new_object (world new_object none))
      (reconcile ctx "S3Bucket" new_object (world new_object none)).requests
reconcile-Applies_example = reconcile-Applies ctx "S3Bucket" new_object (world new_object none) refl

abbrev held : Fetched Resource → Resource
held (fetched r) = r
held (fetch_error e) = deleted_object

abbrev after : Patched Resource → Resource
after (patched k) = k
after (patch_error e k) = k

few :
    (ref : ObjectRef) (fresh : Resource)
    → fetched deleted_object ≡ fetched fresh
    → lt_int (retry_count_of fresh) 4 ≡ true
few ref fresh h = sym (ap (λ o. lt_int (retry_count_of (held o)) 4) h)

reconcile-WithinRetries_example :
    All
      (WithinRetries ctx "S3Bucket")
      (reconcile ctx "S3Bucket" deleted_object (world deleted_object finished)).requests
reconcile-WithinRetries_example =
    reconcile-WithinRetries ctx "S3Bucket" deleted_object (world deleted_object finished) refl few

merges : MergesPatches client
merges = record {
  status = λ ref patch k l s h e.
      sym (ap (λ x. fetched (after x)) e) ∙ ap (λ o. fetched (status_merged (held o) patch)) h;
}

abbrev world_of : Outcome (World Resource Slot) Action → World Resource Slot
world_of (returned a w) = w
world_of _ = world new_object none

abbrev broken : Slot
broken = some (record busy { status = failed })

abbrev after_failed : World Resource Slot
unfolding reconcile
after_failed =
    world_of (reconcile ctx "S3Bucket" deleted_object (world deleted_object broken)).outcome

fails :
    (reconcile ctx "S3Bucket" deleted_object (world deleted_object broken)).outcome
    ≡ returned (requeue 1200) after_failed
unfolding reconcile is_busy found ◌>>=◌ with_ref get_resource lift_fetched
fails = refl

reconcile-again_example :
    (rest : List Request) × ((reconcile ctx "S3Bucket" after_failed.cluster after_failed).requests
      ≡ job "destroy" ∷ rest)
unfolding reconcile is_busy found
reconcile-again_example =
    reconcile-again ctx "S3Bucket" merges deleted_object "b" refl (world deleted_object broken)
      after_failed after_failed (requeue 1200) after_failed.cluster
      (some "infraweave.io/v1", fetched manifest) refl refl refl refl refl refl refl fails refl refl
      refl

abbrev kept_object : Resource
kept_object = stored_object false (status "Apply - in progress")

abbrev after_attempt : World Resource Slot
unfolding reconcile
after_attempt = world_of (reconcile ctx "S3Bucket" kept_object (world kept_object broken)).outcome

attempted :
    (reconcile ctx "S3Bucket" kept_object (world kept_object broken)).outcome
    ≡ returned (requeue 1200) after_attempt
unfolding reconcile is_busy found ◌>>=◌ with_ref get_resource lift_fetched
attempted = refl

reconcile-skipped_example :
    reconcile ctx "S3Bucket" after_attempt.cluster after_attempt ≡ pure await_change after_attempt
unfolding reconcile is_busy found
reconcile-skipped_example =
    reconcile-skipped ctx "S3Bucket" merges kept_object "b" 2 (world kept_object broken)
      after_attempt after_attempt (requeue 1200) after_attempt.cluster refl refl refl refl
      (omega arith) (omega arith) refl refl refl refl refl refl attempted refl refl
