-- ===== src/Operator/ReleasedTests.antt =====
-- A destroy job of operator/src/operator.rs on a cluster that holds at most one object, and deletes it
-- with its last finalizer.
use infraweave.Version.{get_version_track}
use infraweave.Infra.Names.{validate_kind}
use infraweave.Variables.{
  verify_variable_existence_and_type, verify_required_variables_are_set,
  verify_variable_claim_casing,
}
use infraweave.Json.Keys.{convert_first_level_keys_to_snake_case}
use infraweave.Deployment.Store.{insert_event, set_deployment}
use infraweave.Deployment.Handler.{is_plan}
use infraweave.Prelude.{
  ◌≡◌, refl, sym, ap, ◌∙◌, true, Option, none, some, String, List, [], ◌∷◌, if◌then◌else◌,
}
use infraweave.Json.{Value, insert_key, end}
use infraweave.Cloud.{Fetched, fetched, fetch_error}
use infraweave.Deployment.Status.{successful, is_busy}
use infraweave.Infra.Progress.{found}
use infraweave.Infra.Tests.{Slot, busy}
use infraweave.Operator.{Resource, merge_value, status_merged, finalizers_merged}
use infraweave.Operator.Step.{
  World, Patched, patched, patch_error, Client, Action, requeue, await_change, Outcome, returned,
  ◌>>=◌, lift_fetched,
}
use infraweave.Operator.Reconcile.{reconcile}
use infraweave.Operator.Stored.{MergesPatches}
use infraweave.Operator.Answered.{AcceptsPatches, IsFreed}
use infraweave.Operator.Released.{reconcile-released}
use infraweave.Operator.Status.{with_ref, get_resource}
use infraweave.Operator.Tests.{context, stored_object, finished}

abbrev held : Option Resource → Fetched Resource
held none = fetch_error "not found"
held (some r) = fetched r

abbrev merged : Option Resource → Value → Patched (Option Resource)
merged none patch = patch_error "not found" none
merged (some r) patch = patched (some (status_merged r patch))

abbrev kept : Resource → List String → Option Resource
kept r [] = if r.is_deleting then none else some r
kept r (f ∷ fs) = some r

abbrev freed : Option Resource → Value → Patched (Option Resource)
freed none patch = patch_error "not found" none
freed (some r) patch =
    patched (kept (finalizers_merged r patch) (finalizers_merged r patch).finalizers)

abbrev client : Client (Option Resource)
client = record {
  get = λ ref k. held k;
  patch_status = λ ref patch k. merged k patch;
  patch = λ ref patch k. freed k patch;
}

abbrev object_in : Fetched Resource → Resource → Resource
object_in (fetched r) d = r
object_in (fetch_error e) d = d

abbrev cluster_in : Patched (Option Resource) → Option Resource
cluster_in (patched k) = k
cluster_in (patch_error e k) = k

merges_status :
    (patch : Value) (k l : Option Resource) (s : Resource)
    → held k ≡ fetched s
    → merged k patch ≡ patched l
    → held l ≡ fetched (status_merged s patch)
merges_status patch none l s h e = cc
merges_status patch (some r) l s h e =
    sym (ap (λ x. held (cluster_in x)) e)
    ∙ ap (λ o. fetched (status_merged (object_in o r) patch)) h

merges : MergesPatches client
merges = record { status = λ ref patch k l s h e. merges_status patch k l s h e }

accepts_status :
    (patch : Value) (k : Option Resource) (s : Resource)
    → held k ≡ fetched s
    → (l : Option Resource) × (merged k patch ≡ patched l)
accepts_status patch none s h = cc
accepts_status patch (some r) s h = (some (status_merged r patch), refl)

accepts_metadata :
    (patch : Value) (k : Option Resource) (s : Resource)
    → held k ≡ fetched s
    → (l : Option Resource) × (freed k patch ≡ patched l)
accepts_metadata patch none s h = cc
accepts_metadata patch (some r) s h =
    (kept (finalizers_merged r patch) (finalizers_merged r patch).finalizers, refl)

accepts : AcceptsPatches client
accepts = record {
  status = λ ref patch k s h. accepts_status patch k s h;
  metadata = λ ref patch k s h. accepts_metadata patch k s h;
}

abbrev deleted_object : Resource
deleted_object = stored_object true end

abbrev world : Option Resource → Slot → World (Option Resource) Slot
world k s = record { cluster = k; cloud = s }

abbrev world_of : Outcome (World (Option Resource) Slot) Action → World (Option Resource) Slot
world_of (returned a w) = w
world_of _ = world none none

abbrev after_start : World (Option Resource) Slot
unfolding reconcile
after_start =
    world_of
      (reconcile (context client) "S3Bucket" deleted_object
        (world (some deleted_object) finished)).outcome

abbrev started_object : Resource
started_object = object_in (held after_start.cluster) deleted_object

starts :
    (reconcile
      (context client)
      "S3Bucket"
      deleted_object
      (world (some deleted_object) finished)).outcome
    ≡ returned (requeue 10) after_start
unfolding reconcile is_busy found ◌>>=◌ with_ref get_resource lift_fetched get_version_track
    validate_kind verify_variable_existence_and_type convert_first_level_keys_to_snake_case
    insert_key verify_required_variables_are_set verify_variable_claim_casing insert_event
    set_deployment is_plan
starts = refl

reconcile-released_example :
    (x : World (Option Resource) Slot) × ((reconcile
        (context client)
        "S3Bucket"
        started_object
        (world after_start.cluster finished)).outcome
      ≡ returned await_change x)
    × IsFreed client (record { kind = "S3Bucket"; namespace = "default"; name = "b" }) x.cluster
unfolding reconcile is_busy found ◌>>=◌ with_ref get_resource lift_fetched get_version_track
    validate_kind verify_variable_existence_and_type convert_first_level_keys_to_snake_case
    insert_key verify_required_variables_are_set verify_variable_claim_casing insert_event
    set_deployment is_plan merge_value
reconcile-released_example =
    reconcile-released (context client) "S3Bucket" merges deleted_object "b" refl accepts
      (world (some deleted_object) finished) after_start (world after_start.cluster finished)
      (requeue 10) started_object (record busy { status = successful }) refl refl refl refl starts
      refl refl refl refl refl refl
