-- ===== src/Operator/Reconcile.antt =====
-- `reconcile` and `error_policy` of operator/src/operator.rs: what the controller calls for an object, and
-- what it does after an error.
use infraweave.Prelude.{
  Bool, false, not, ◌||◌, ◌&&◌, ◌==◌, Option, none, some, String, [], ◌∷◌, ℕ, concat, eqb, contains,
  if◌then◌else◌,
}
use infraweave.Operator.{Resource, finalizer_name, namespace_of}
use infraweave.Operator.Step.{
  World, Context, Action, requeue, await_change, Step, Outcome, returned, raised, panicked, ◌>>◌,
  pure,
}
use infraweave.Operator.Status.{add_finalizer}
use infraweave.Operator.Apply.{reconcile_resource_nonblocking}
use infraweave.Operator.Delete.{handle_resource_deletion_nonblocking}

-- `kube::Error`: an answer of the API with its code and reason, or a failure of the service
pub data KubeError : Type 0 where
  api : ℕ → String → KubeError
  service : String → KubeError

abbrev pub to_kube_err : String → KubeError
to_kube_err e = service e

abbrev is_fatal : KubeError → Bool
is_fatal (api error_code reason) =
    eqb error_code 401 || eqb error_code 403 || (eqb error_code 404 && reason == "NotFound")
is_fatal (service e) = false

unfoldable pub error_policy : KubeError → Action
error_policy error = if is_fatal error then await_change else requeue 30

module _ {Y P K S : Type 0} (ctx : Context Y P K S) (kind : String) where
  abbrev pub environment_of : Resource → String
  environment_of resource = concat ("k8s-" ∷ ctx.cluster_id ∷ "/" ∷ namespace_of resource ∷ [])

  unfoldable pub reconcile_named : Resource → World K S → Step (World K S) Action
  unfolding handle_resource_deletion_nonblocking reconcile_resource_nonblocking add_finalizer
  reconcile_named resource w =
      if resource.is_deleting
      then (if contains resource.finalizers finalizer_name
          then handle_resource_deletion_nonblocking ctx kind (environment_of resource) resource w
          else pure await_change w)
      else if not (contains resource.finalizers finalizer_name)
      then (add_finalizer ctx kind resource >> pure (requeue 1)) w
      else reconcile_resource_nonblocking ctx kind (environment_of resource) resource w

  abbrev pub by_name : Option String → World K S → Step (World K S) Action → Step (World K S) Action
  by_name none w next = record { requests = []; outcome = raised "Resource has no name" w }
  by_name (some name) w next = next

  unfoldable pub reconcile : Resource → World K S → Step (World K S) Action
  unfolding reconcile_named
  reconcile resource w = by_name resource.name w (reconcile_named resource w)

  -- The next step of the controller: after an error the policy decides.
  abbrev pub next_action : Outcome (World K S) Action → Option Action
  unfolding error_policy
  next_action (returned a w) = some a
  next_action (raised e w) = some (error_policy (to_kube_err e))
  next_action panicked = none
