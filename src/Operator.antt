-- ===== src/Operator.antt =====
-- The objects that the Kubernetes operator reconciles (operator/src/operator.rs, operator/src/defs.rs),
-- what it reads of their status, and what a merge patch makes of them.
pub mod Step
pub mod Status
pub mod Retry
pub mod Apply
pub mod Delete
pub mod Reconcile
pub mod Merge
pub mod Sent
pub mod Safe
pub mod Stored
pub mod Branches
pub mod Retried
pub mod Attempt
pub mod Skipped
pub mod Answered
pub mod Started
pub mod Released
mod Tests
mod ReleasedTests
pub use infraweave.Prelude.{contains_text}
use infraweave.Prelude.{
  ℕ, Bool, true, false, not, ◌&&◌, Option, none, some, String, List, [], ◌∷◌, ◌==◌, ◌^◌, ◌-◌, ltb,
  has_prefix, map, if◌then◌else◌,
}
use infraweave.Json.{
  Number, pos_int, neg_int, Value, null, number, string, array, object, Items, nil, cons, Fields,
  end, field, get, as_str, as_array, insert_key, and_then, unwrap_or, get_key, is_null,
}
use infraweave.Deployment.Status.{ℤ, pos, negsuc}

abbrev pub finalizer_name : String
finalizer_name = "deletion-handler.finalizer.infraweave.io"

-- A `DynamicObject`: of its metadata what the operator reads, and its other fields
pub record Resource : Type 0 where
  pub name : Option String
  pub namespace : Option String
  pub generation : Option ℤ
  pub is_deleting : Bool
  pub finalizers : List String
  pub contents : Value

-- `as_i64`; the negative number of `neg_int n` is -n-1.
abbrev pub as_i64 : Value → Option ℤ
as_i64 (number (pos_int n)) = if ltb n (2 ^ 63) then some (pos n) else none
as_i64 (number (neg_int n)) = some (negsuc n)
as_i64 _ = none

abbrev pub as_u64 : Value → Option ℕ
as_u64 (number (pos_int n)) = some n
as_u64 _ = none

abbrev pub from_i64 : ℤ → Value
from_i64 (pos n) = number (pos_int n)
from_i64 (negsuc n) = number (neg_int n)

abbrev pub status_field : Resource → String → Option Value
status_field r key = and_then (get r.contents "status") (λ s. get s key)

-- A text of the status, the empty one where there is none
abbrev pub status_text : Resource → String → String
status_text r key = unwrap_or (and_then (status_field r key) as_str) ""

abbrev pub job_id_of : Resource → String
job_id_of r = status_text r "jobId"

abbrev pub deployment_id_of : Resource → String
deployment_id_of r = status_text r "deploymentId"

abbrev pub resource_status_of : Resource → String
resource_status_of r = status_text r "resourceStatus"

abbrev pub last_check_of : Resource → String
last_check_of r = status_text r "lastCheck"

abbrev pub retry_count_of : Resource → ℤ
retry_count_of r = unwrap_or (and_then (status_field r "retryCount") as_i64) (pos 0)

abbrev pub last_generation_of : Resource → ℤ
last_generation_of r = unwrap_or (and_then (status_field r "lastGeneration") as_i64) (pos 0)

abbrev pub last_failure_epoch_of : Resource → ℕ
last_failure_epoch_of r = unwrap_or (and_then (status_field r "lastFailureEpoch") as_u64) 0

abbrev pub logs_of : Resource → String → String
logs_of r default = unwrap_or (and_then (status_field r "logs") as_str) default

abbrev pub generation_of : Resource → ℤ
generation_of r = unwrap_or r.generation (pos 0)

abbrev pub namespace_of : Resource → String
namespace_of r = unwrap_or r.namespace "default"

-- Where the API server finds an object
pub record ObjectRef : Type 0 where
  pub kind : String
  pub namespace : String
  pub name : String

-- A patch of fields of the status
abbrev pub in_status : Fields → Value
in_status fs = object (field "status" (object fs) end)

-- A JSON merge patch (RFC 7386), which the API server applies: null removes a field.
unfoldable pub remove_key : String → Fields → Fields
remove_key k end = end
remove_key k (field j v fs) = let rest = remove_key k fs in if j == k then rest else field j v rest

abbrev pub fields_of : Option Value → Fields
fields_of (some (object fs)) = fs
fields_of _ = end

unfoldable mutual
  pub merge_value : Option Value → Value → Value
  merge_value old (object fs) = object (merge_fields (fields_of old) fs)
  merge_value old null = null
  merge_value old (array xs) = array xs
  merge_value old (string s) = string s
  merge_value old (number n) = number n
  merge_value old (Value.bool b) = Value.bool b

  pub merge_fields : Fields → Fields → Fields
  merge_fields old end = old
  merge_fields old (field k v fs) =
      merge_fields
        (if is_null v then remove_key k old else insert_key k (merge_value (get_key old k) v) old)
        fs

abbrev pub texts : Items → List String
texts nil = []
texts (cons v xs) = unwrap_or (as_str v) "" ∷ texts xs

-- The list of finalizers that a patch sets
abbrev pub patched_finalizers : List String → Value → List String
patched_finalizers old patch =
    elim (and_then (get patch "metadata") (λ m. and_then (get m "finalizers") as_array)) [
      | none ↦ old
      | some xs ↦ texts xs
    ]

abbrev pub status_merged : Resource → Value → Resource
status_merged r patch = record {
  name = r.name;
  namespace = r.namespace;
  generation = r.generation;
  is_deleting = r.is_deleting;
  finalizers = r.finalizers;
  contents = merge_value (some r.contents) patch;
}

abbrev pub finalizers_merged : Resource → Value → Resource
finalizers_merged r patch = record {
  name = r.name;
  namespace = r.namespace;
  generation = r.generation;
  is_deleting = r.is_deleting;
  finalizers = patched_finalizers r.finalizers patch;
  contents = r.contents;
}
