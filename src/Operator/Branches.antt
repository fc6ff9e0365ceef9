-- ===== src/Operator/Branches.antt =====
-- Which branch a reconcile of operator/src/operator.rs takes.
use infraweave.Prelude.{
  ◌≡◌, refl, ap, ◌∙◌, Bool, true, false, not, ◌||◌, ◌==◌, Option, some, String, List, [], ◌∷◌, ◌++◌,
  arith, contains, if-eq-left, if-eq-right,
}
use infraweave.Json.{end}
use infraweave.Cloud.{Fetched, fetched, fetch_error, ApiInfraPayloadWithVariables}
use infraweave.Infra.Manifest.{DeploymentManifest}
use infraweave.Infra.Submit
use infraweave.Operator.{Resource, finalizer_name, job_id_of, last_check_of, retry_count_of}
use infraweave.Operator.Step.{
  World, Context, Request, job, Step, Outcome, returned, raised, panicked, continue_with, ◌>>=◌,
  pure, lift_fetched,
}
use infraweave.Operator.Status.{with_ref, get_resource}
use infraweave.Operator.Retry.{after_failure, is_failed, found_for, should_do_full_check}
use infraweave.Operator.Apply.{
  ran_job, submit_yaml, submit_job, error_of, reconcile_resource_nonblocking, reconcile_fresh,
}
use infraweave.Operator.Delete.{
  is_destroy_job, start_destroy, destroy_message, destroy_ended, check_destroy, follow_destroy,
  handle_resource_deletion_nonblocking, note_destroy, finish_destroy,
}
use infraweave.Operator.Reconcile.{environment_of, by_name, reconcile_named, reconcile}
use infraweave.Operator.Safe.{has_destroy_job}
use infraweave.Operator.Stored.{ref_of, with_ref-eq}

module _ {Y P K S : Type 0} (ctx : Context Y P K S) (kind : String) (r : Resource)
    (w : World K S) where
  pub reconcile-deleted :
      (name : String)
      → r.name ≡ some name
      → r.is_deleting ≡ true
      → contains r.finalizers finalizer_name ≡ true
      → reconcile ctx kind r w
        ≡ handle_resource_deletion_nonblocking ctx kind (environment_of ctx kind r) r w
  unfolding reconcile reconcile_named
  reconcile-deleted name e d c =
      ap (λ o. by_name ctx kind o w (reconcile_named ctx kind r w)) e
      ∙ if-eq-left r.is_deleting _ _ d
      ∙ if-eq-left (contains r.finalizers finalizer_name) _ _ c

  pub reconcile-staying :
      (name : String)
      → r.name ≡ some name
      → r.is_deleting ≡ false
      → contains r.finalizers finalizer_name ≡ true
      → reconcile ctx kind r w
        ≡ reconcile_resource_nonblocking ctx kind (environment_of ctx kind r) r w
  unfolding reconcile reconcile_named
  reconcile-staying name e d c =
      ap (λ o. by_name ctx kind o w (reconcile_named ctx kind r w)) e
      ∙ if-eq-right r.is_deleting _ _ d
      ∙ if-eq-right (not (contains r.finalizers finalizer_name)) _ _ (ground (arith, c))

  module _ (environment : String) where
    -- A resource that the cluster holds is gone on with.
    pub fetched-then :
        {A : Type 0} (name : String) (fresh : Resource)
        (f : Resource → World K S → Step (World K S) A)
        → r.name ≡ some name
        → ctx.client.get (ref_of ctx kind r name) w.cluster ≡ fetched fresh
        → with_ref ctx kind r (λ ref. get_resource ctx kind ref >>= f) w ≡ f fresh w
    unfolding get_resource lift_fetched pure ◌>>=◌
    fetched-then name fresh f e h =
        with_ref-eq ctx kind r name _ w e
        ∙ ap (λ o. continue_with (lift_fetched o w).requests (lift_fetched o w).outcome f) h

    pub fresh-then :
        (name : String) (fresh : Resource)
        → r.name ≡ some name
        → ctx.client.get (ref_of ctx kind r name) w.cluster ≡ fetched fresh
        → reconcile_resource_nonblocking ctx kind environment r w
          ≡ reconcile_fresh ctx kind environment r fresh w
    unfolding reconcile_resource_nonblocking
    fresh-then name fresh e h = fetched-then name fresh (reconcile_fresh ctx kind environment r) e h

    -- A recorded destroy job that is due for a check and is at rest
    pub destroy-ended :
        has_destroy_job ctx kind r ≡ true
        → should_do_full_check ctx kind (last_check_of r) w ≡ true
        → (found_for ctx kind environment r w).in_progress ≡ false
        → handle_resource_deletion_nonblocking ctx kind environment r w
          ≡ destroy_ended ctx kind r (found_for ctx kind environment r w) w
    unfolding handle_resource_deletion_nonblocking follow_destroy check_destroy
    destroy-ended recorded due rest =
        if-eq-right (not (is_destroy_job ctx kind r) || job_id_of r == "") _ _
          (ground (arith, recorded))
        ∙ if-eq-left (should_do_full_check ctx kind (last_check_of r) w) _ _ due
        ∙ if-eq-right (found_for ctx kind environment r w).in_progress _ _ rest

    destroy_text : Bool → String
    destroy_text failed =
        destroy_message ctx kind
          (error_of ctx kind (found_for ctx kind environment r w).deployment "") failed

    pub destroy-failed :
        is_failed (found_for ctx kind environment r w).status ≡ true
        → (message : String) × (destroy_ended ctx kind r (found_for ctx kind environment r w) w
            ≡ after_failure ctx kind "Delete" end
                (retry_count_of r)
                r
                (found_for ctx kind environment r w)
                message
                (job_id_of r)
                w)
    unfolding destroy_ended
    destroy-failed failed =
        (_, if-eq-left (is_failed (found_for ctx kind environment r w).status) _ _ failed)

    pub destroy-finished :
        is_failed (found_for ctx kind environment r w).status ≡ false
        → (message : String) × (destroy_ended ctx kind r (found_for ctx kind environment r w) w
            ≡ finish_destroy ctx kind r (found_for ctx kind environment r w) message w)
    unfolding destroy_ended
    destroy-finished good =
        (_, if-eq-right (is_failed (found_for ctx kind environment r w).status) _ _ good)

    pub destroy-starts :
        has_destroy_job ctx kind r ≡ false
        → handle_resource_deletion_nonblocking ctx kind environment r w
          ≡ start_destroy ctx kind environment r w
    unfolding handle_resource_deletion_nonblocking
    destroy-starts free =
        if-eq-left (not (is_destroy_job ctx kind r) || job_id_of r == "") _ _ (ground (arith, free))

    ran_job-head :
        (command : String) (o : Submit.Outcome S (String × String × ApiInfraPayloadWithVariables))
        → (ran_job ctx kind command w o).requests ≡ job command ∷ []
    ran_job-head command (Submit.started x s) = refl
    ran_job-head command (Submit.refused e s) = refl
    ran_job-head command Submit.panic = refl

    continued :
        {A B : Type 0} (q : Request) (sent : List Request) (o : Outcome (World K S) A)
        (f : A → World K S → Step (World K S) B)
        → sent ≡ q ∷ []
        → (rest : List Request) × ((continue_with sent o f).requests ≡ q ∷ rest)
    continued q sent (returned a v) f h = ((f a v).requests, ap (λ s. s ++ (f a v).requests) h)
    continued q sent (raised e v) f h = ([], h)
    continued q sent panicked f h = ([], h)

    submitted :
        (fresh : Resource) (o : Fetched (Option String × Fetched (DeploymentManifest Y)))
        (claim : Option String × Fetched (DeploymentManifest Y))
        → o ≡ fetched claim
        → (submit_yaml ctx kind "destroy" environment w o).requests ≡ job "destroy" ∷ []
    unfolding submit_yaml
    submitted fresh (fetched c) claim h = ran_job-head "destroy" _
    submitted fresh (fetch_error e) claim h = cc

    pub start_destroy-requests :
        (name : String) (fresh : Resource) (claim : Option String × Fetched (DeploymentManifest Y))
        → r.name ≡ some name
        → ctx.client.get (ref_of ctx kind r name) w.cluster ≡ fetched fresh
        → ctx.to_claim fresh ≡ fetched claim
        → (rest : List Request) × ((start_destroy ctx kind environment r w).requests
            ≡ job "destroy" ∷ rest)
    unfolding start_destroy get_resource lift_fetched pure ◌>>=◌ submit_job
    start_destroy-requests name fresh claim e h claimed =
        let (rest, q) =
          continued (job "destroy") _
            (submit_yaml ctx kind "destroy" environment w (ctx.to_claim fresh)).outcome
            (note_destroy ctx kind fresh) (submitted fresh (ctx.to_claim fresh) claim claimed) in
        (
          rest,
          ap (λ x. x.requests)
                (fetched-then name fresh
                  (λ f. submit_job ctx kind "destroy" environment f >>= note_destroy ctx kind f) e
                  h)
              ∙ q,
        )
