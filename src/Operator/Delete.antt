-- ===== src/Operator/Delete.antt =====
-- `handle_resource_deletion_nonblocking` of operator/src/operator.rs: the job that destroys what an object
-- describes is started, or followed until its finalizer can go.
use infraweave.Prelude.{Bool, not, ◌||◌, ◌==◌, String, List, [], ◌∷◌, if◌then◌else◌}
use infraweave.Json.{string, array, object, Items, nil, cons, end, field}
use infraweave.Infra.Progress.{InProgress}
use infraweave.Operator.{
  Resource, finalizer_name, contains_text, job_id_of, resource_status_of, last_check_of,
  retry_count_of, logs_of,
}
use infraweave.Operator.Step.{
  World, Context, Action, requeue, await_change, Step, raised, ◌>>=◌, ◌>>◌, pure,
}
use infraweave.Operator.Status.{with_ref, get_resource, patch_metadata, update_resource_status}
use infraweave.Operator.Retry.{
  labelled, is_failed, should_do_full_check, found_for, update_logs, update_time_of, after_failure,
}
use infraweave.Operator.Apply.{Started, job_started, job_failed, submit_job, error_of}

abbrev pub without_finalizer : List String → List String
without_finalizer [] = []
without_finalizer (f ∷ fs) =
    let rest = without_finalizer fs in if f == finalizer_name then rest else f ∷ rest

abbrev pub items : List String → Items
items [] = nil
items (x ∷ xs) = cons (string x) (items xs)

module _ {Y P K S : Type 0} (ctx : Context Y P K S) (kind : String) where
  abbrev pub is_destroy_job : Resource → Bool
  is_destroy_job resource = contains_text (resource_status_of resource) "Delete"

  unfoldable pub note_destroy : Resource → Started → World K S → Step (World K S) Action
  unfolding update_resource_status
  note_destroy fresh (job_started job_id) w =
      (update_resource_status ctx kind fresh "Delete - initiated" (ctx.get_timestamp w)
            "Destroy job submitted" job_id
          >> pure (requeue 10))
        w
  note_destroy fresh (job_failed e) w = record { requests = []; outcome = raised e w }

  unfoldable pub start_destroy : String → Resource → World K S → Step (World K S) Action
  unfolding submit_job note_destroy
  start_destroy environment resource = with_ref ctx kind resource (λ ref.
      get_resource ctx kind ref >>= λ fresh.
      submit_job ctx kind "destroy" environment fresh >>= note_destroy fresh)

  abbrev pub destroy_message : String → Bool → String
  destroy_message error failed =
      if error == ""
      then (if failed then "Destroy operation failed" else "Destroy operation completed")
      else error

  unfoldable pub remove_finalizer : Resource → World K S → Step (World K S) (Unit {0})
  unfolding patch_metadata
  remove_finalizer resource = with_ref ctx kind resource (λ ref. patch_metadata ctx kind ref (
      object (
        field "metadata"
          (object (field "finalizers" (array (items (without_finalizer resource.finalizers))) end))
          end)))

  unfoldable pub finish_destroy :
      Resource → InProgress P → String → World K S → Step (World K S) Action
  unfolding update_resource_status remove_finalizer
  finish_destroy resource found message w =
      if found.status == "successful"
      then (update_resource_status ctx kind resource (labelled "Delete" found.status)
              (update_time_of ctx kind found.deployment w) message ""
            >> (remove_finalizer resource >> pure await_change))
          w
      else pure await_change w

  unfoldable pub destroy_ended : Resource → InProgress P → World K S → Step (World K S) Action
  unfolding after_failure finish_destroy
  destroy_ended resource found w =
      let message =
        destroy_message (error_of ctx kind found.deployment "") (is_failed found.status) in
      if is_failed found.status
      then after_failure ctx kind "Delete" end (retry_count_of resource) resource found message
          (job_id_of resource) w
      else finish_destroy resource found message w

  unfoldable pub check_destroy : Resource → InProgress P → World K S → Step (World K S) Action
  unfolding update_resource_status destroy_ended
  check_destroy resource found w =
      if found.in_progress
      then (update_resource_status ctx kind resource "Delete - in progress"
              (update_time_of ctx kind found.deployment w) (logs_of resource "Destroying resources")
              (job_id_of resource)
            >> pure (requeue 30))
          w
      else destroy_ended resource found w

  unfoldable pub follow_destroy : String → Resource → World K S → Step (World K S) Action
  unfolding should_do_full_check update_logs check_destroy
  follow_destroy environment resource w =
      if should_do_full_check ctx kind (last_check_of resource) w
      then check_destroy resource (found_for ctx kind environment resource w) w
      else update_logs ctx kind resource (job_id_of resource) w

  unfoldable pub handle_resource_deletion_nonblocking :
      String → Resource → World K S → Step (World K S) Action
  unfolding start_destroy follow_destroy
  handle_resource_deletion_nonblocking environment resource w =
      if not (is_destroy_job resource) || job_id_of resource == ""
      then start_destroy environment resource w
      else follow_destroy environment resource w
