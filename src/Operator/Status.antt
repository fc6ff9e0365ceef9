-- ===== src/Operator/Status.antt =====
-- The writes of operator/src/operator.rs to an object: its status, the retry count and the finalizers; and
-- the logs that it shows.
use infraweave.Prelude.{ℕ, zero, suc, ◌-◌, none, some, String, List, [], ◌∷◌, concat, length}
use infraweave.Json.{Value, null, string, array, object, nil, cons, end, field, Fields}
use infraweave.Cloud.{Fetched, fetched, fetch_error}
use infraweave.Deployment.Status.{ℤ, pos}
use infraweave.Operator.{
  Resource, ObjectRef, in_status, finalizer_name, from_i64, retry_count_of, generation_of,
  namespace_of,
}
use infraweave.Operator.Step.{
  World, Patched, patched, patch_error, Context, Request, status_patch, metadata_patch, Step,
  returned, raised, panicked, ◌>>=◌, ◌>>◌, pure, lift_fetched,
}

abbrev skip : ℕ → List String → List String
skip zero xs = xs
skip (suc n) [] = []
skip (suc n) (x ∷ xs) = skip n xs

abbrev lines : List String → String
lines [] = ""
lines (message ∷ rest) = concat (message ∷ "\n" ∷ lines rest ∷ [])

abbrev no_logs : String
no_logs = "No logs available yet - job is initializing..."

-- The last ten messages
abbrev shown_logs : Fetched (List String) → String
shown_logs (fetched []) = no_logs
shown_logs (fetched (m ∷ ms)) = lines (skip (length (m ∷ ms) - 10) (m ∷ ms))
shown_logs (fetch_error e) = no_logs

module _ {Y P K S : Type 0} (ctx : Context Y P K S) (kind : String) where
  abbrev pub fetch_job_logs : String → World K S → String
  fetch_job_logs job_id w = shown_logs (ctx.read_logs job_id w.cloud)

  -- `unwrap` of the name of an object
  unfoldable pub with_ref :
      {A : Type 0}
      → Resource
      → (ObjectRef → World K S → Step (World K S) A)
      → World K S
      → Step (World K S) A
  with_ref r k w = elim r.name [
    | none ↦ record { requests = []; outcome = panicked }
    | some name ↦ k (record { kind = kind; namespace = namespace_of r; name = name }) w
  ]

  unfoldable pub get_resource : ObjectRef → World K S → Step (World K S) Resource
  get_resource ref w = lift_fetched (ctx.client.get ref w.cluster) w

  abbrev pub sent : Request → S → Patched K → Step (World K S) (Unit {0})
  sent q s (patched k) = record {
    requests = q ∷ [];
    outcome = returned tt (record { cluster = k; cloud = s });
  }
  sent q s (patch_error e k) = record {
    requests = q ∷ [];
    outcome = raised e (record { cluster = k; cloud = s });
  }

  unfoldable pub patch_status : ObjectRef → Value → World K S → Step (World K S) (Unit {0})
  patch_status ref patch w =
      sent (status_patch patch) w.cloud (ctx.client.patch_status ref patch w.cluster)

  unfoldable pub patch_metadata : ObjectRef → Value → World K S → Step (World K S) (Unit {0})
  patch_metadata ref patch w =
      sent (metadata_patch patch) w.cloud (ctx.client.patch ref patch w.cluster)

  abbrev pub update_fields : Resource → String → String → String → String → String → String → Fields
  update_fields resource name status last_update now message job_id =
      field "resourceStatus" (string status) (
        field "lastDeploymentEvent" (string last_update) (
          field "lastCheck" (string now) (
            field "jobId" (string job_id) (
              field "deploymentId"
                (string (concat (ctx.crates.to_lowercase kind ∷ "/" ∷ name ∷ [])))
                (field "lastGeneration" (from_i64 (generation_of resource)) (
                  field "logs" (string message)
                    (field "retryCount" (from_i64 (retry_count_of resource)) end)))))))

  -- The write is read back at the end.
  unfoldable pub update_resource_status :
      Resource → String → String → String → String → World K S → Step (World K S) (Unit {0})
  unfolding patch_status
  update_resource_status resource status last_update message job_id w =
      with_ref resource
        (λ ref.
          patch_status ref (
            in_status (
              update_fields resource ref.name status last_update (ctx.get_timestamp w) message
                job_id))
          >> (get_resource ref >>= λ verify. pure tt))
        w

  abbrev pub retry_fields : ℤ → Fields
  retry_fields retry_count =
      field "retryCount" (from_i64 retry_count) (field "jobId" (string "") end)

  unfoldable pub update_retry_count : Resource → ℤ → World K S → Step (World K S) (Unit {0})
  unfolding patch_status
  update_retry_count resource retry_count w =
      with_ref resource (λ ref. patch_status ref (in_status (retry_fields retry_count))) w

  abbrev pub reset_fields : Fields
  reset_fields =
      field "retryCount" (from_i64 (pos 0))
        (field "jobId" (string "") (field "lastFailureEpoch" null end))

  unfoldable pub reset_retry_count : Resource → World K S → Step (World K S) (Unit {0})
  unfolding patch_status
  reset_retry_count resource w =
      with_ref resource (λ ref. patch_status ref (in_status reset_fields)) w

  unfoldable pub add_finalizer : Resource → World K S → Step (World K S) (Unit {0})
  unfolding patch_metadata
  add_finalizer resource w =
      with_ref resource
        (λ ref. patch_metadata ref (
          object (
            field "metadata"
              (object (field "finalizers" (array (cons (string finalizer_name) nil)) end)) end)))
        w
