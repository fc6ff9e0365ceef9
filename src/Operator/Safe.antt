-- ===== src/Operator/Safe.antt =====
-- What `reconcile` of operator/src/operator.rs may send to the cluster and to the cloud.
use infraweave.Prelude.{
  ◌≡◌, refl, sym, ◌∙◌, zero, suc, Bool, true, false, not, ◌||◌, ◌==◌, Option, none, some, String,
  All, arith, eq_iff, contains,
}
use infraweave.Json.{Value}
use infraweave.Cloud.{fetched}
use infraweave.Deployment.Status.{ℤ, pos, negsuc}
use infraweave.Operator.{Resource, ObjectRef, finalizer_name, job_id_of, retry_count_of}
use infraweave.Operator.Step.{
  World, Context, Request, status_patch, metadata_patch, job, Step, Action, Sends, pure-Sends,
  if-Sends,
}
use infraweave.Operator.Retry.{succ_int, lt_int, max_retries, found_for}
use infraweave.Operator.Status.{add_finalizer, patch_metadata}
use infraweave.Operator.Apply.{is_stuck_state, is_unchanged}
use infraweave.Operator.Delete.{is_destroy_job}
use infraweave.Operator.Reconcile.{environment_of, by_name, reconcile_named, reconcile}
use infraweave.Operator.Sent.{Counts, IsRefOf, with_ref-Sends, sent-Sends, ending-Sends}
use infraweave.Operator.Sent.Applied.{reconcile_resource_nonblocking-Sends}
use infraweave.Operator.Sent.Destroyed.{handle_resource_deletion_nonblocking-Sends}

module _ {Y P K S : Type 0} (ctx : Context Y P K S) (kind : String) where
  -- A job that destroys is recorded in the status of the object.
  abbrev pub has_destroy_job : Resource → Bool
  has_destroy_job r = not (not (is_destroy_job ctx kind r) || job_id_of r == "")

  absurd : {A : Type 0} → true ≡ false → A
  absurd h = cc

  -- `Q` of every request of a reconcile, from what each part may send
  reconcile-Sends :
      (Q : Request → Type 0) (C : ℤ → Type 0)
      → ((v : Value) → Counts C v → Q (status_patch v))
      → C (pos 0)
      → ((z : ℤ) → lt_int z max_retries ≡ true → C (succ_int z))
      → (r : Resource) (w : World K S) → C (retry_count_of r)
      → ((ref : ObjectRef) (fresh : Resource)
          → ctx.client.get ref w.cluster ≡ fetched fresh
          → C (retry_count_of fresh))
      → (r.is_deleting ≡ true → has_destroy_job r ≡ false → Q (job "destroy"))
      → (r.is_deleting ≡ true
          → has_destroy_job r ≡ true
          → (found_for ctx kind (environment_of ctx kind r) r w).in_progress ≡ false
          → ((found_for ctx kind (environment_of ctx kind r) r w).status == "successful") ≡ true
          → (v : Value) → Q (metadata_patch v))
      → (r.is_deleting ≡ false
          → contains r.finalizers finalizer_name ≡ false
          → (v : Value) → Q (metadata_patch v))
      → (r.is_deleting ≡ false
          → contains r.finalizers finalizer_name ≡ true
          → (ref : ObjectRef) (fresh : Resource) → IsRefOf kind r ref
          → ctx.client.get ref w.cluster ≡ fetched fresh
          → (job_id_of fresh == "") ≡ true
          → is_stuck_state ctx kind fresh ≡ false
          → is_unchanged ctx kind fresh ≡ false
          → Q (job "apply"))
      → Sends Q (reconcile_named ctx kind r w)
  unfolding reconcile_named add_finalizer patch_metadata
  reconcile-Sends Q C patches zero_ok succ_ok r w h stored destroys removes adds applies =
      if-Sends Q r.is_deleting _ _
        (λ e.
          if-Sends Q (contains r.finalizers finalizer_name) _ _
            (λ d.
              handle_resource_deletion_nonblocking-Sends ctx kind Q C patches zero_ok succ_ok
                (environment_of ctx kind r) r w h stored (λ x. destroys e (ground (arith, x)))
                (λ x. removes e (ground (arith, x))))
            (λ d. pure-Sends Q _ w))
        (λ e.
          if-Sends Q (not (contains r.finalizers finalizer_name)) _ _
            (λ d. ending-Sends ctx kind Q C patches _ _ w (
              with_ref-Sends ctx kind Q C patches _ _ w (λ ref.
                sent-Sends ctx kind Q C patches _ w.cloud _ (adds e (ground (arith, d)) _))))
            (λ d.
              reconcile_resource_nonblocking-Sends ctx kind Q C patches zero_ok succ_ok
                (environment_of ctx kind r) r w h stored (applies e (ground (arith, d)))))

  -- Of an object that is deleted
  abbrev pub Destroys : Resource → World K S → Request → Type 0
  Destroys r w (status_patch v) = Unit
  Destroys r w (metadata_patch v) =
      (has_destroy_job r ≡ true)
      × ((found_for ctx kind (environment_of ctx kind r) r w).in_progress ≡ false)
      × ((found_for ctx kind (environment_of ctx kind r) r w).status ≡ "successful")
  Destroys r w (job command) = (command ≡ "destroy") × (has_destroy_job r ≡ false)

  -- Of an object that stays
  abbrev pub Applies : Resource → World K S → Request → Type 0
  Applies r w (status_patch v) = Unit
  Applies r w (metadata_patch v) = contains r.finalizers finalizer_name ≡ false
  Applies r w (job command) =
      (command ≡ "apply")
      × ((ref : ObjectRef) × (fresh : Resource) × IsRefOf kind r ref
          × (ctx.client.get ref w.cluster ≡ fetched fresh)
          × (job_id_of fresh ≡ "")
          × (is_stuck_state ctx kind fresh ≡ false)
          × (is_unchanged ctx kind fresh ≡ false))

  -- Without a name nothing is sent.
  reconcile-named :
      (Q : Request → Type 0) (o : Option String) (w : World K S) (next : Step (World K S) Action)
      → Sends Q next
      → All Q (by_name ctx kind o w next).requests
  reconcile-named Q none w next h = tt
  reconcile-named Q (some name) w next h = h.all

  -- Of an object that is being deleted, the finalizers are changed only where a destroy job is recorded and
  -- the cloud finds the deployment at rest and successful; a job is started only where no destroy job is
  -- recorded, and it destroys.
  pub reconcile-Destroys :
      (r : Resource) (w : World K S)
      → r.is_deleting ≡ true
      → All (Destroys r w) (reconcile ctx kind r w).requests
  unfolding reconcile
  reconcile-Destroys r w deleting =
      reconcile-named (Destroys r w) r.name w (reconcile_named ctx kind r w) (
        reconcile-Sends (Destroys r w) (λ z. Unit {0}) (λ v c. tt) tt (λ z c. tt) r w tt
          (λ ref fresh e. tt) (λ e none_yet. (refl, none_yet))
          (λ e there still good v. (there, still, (eq_iff _ "successful").0 good))
          (λ e d v. absurd (sym deleting ∙ e)) (λ e. absurd (sym deleting ∙ e)))

  -- Of an object that stays, the finalizers are changed only where the operator's is missing; a job is
  -- started only where the cluster holds that object under its own name, with no job recorded, in no
  -- stuck state and with a generation that the operator has not seen, and it applies.
  pub reconcile-Applies :
      (r : Resource) (w : World K S)
      → r.is_deleting ≡ false
      → All (Applies r w) (reconcile ctx kind r w).requests
  unfolding reconcile
  reconcile-Applies r w staying =
      reconcile-named (Applies r w) r.name w (reconcile_named ctx kind r w) (
        reconcile-Sends (Applies r w) (λ z. Unit {0}) (λ v c. tt) tt (λ z c. tt) r w tt
          (λ ref fresh e. tt) (λ e. absurd (sym e ∙ staying)) (λ e. absurd (sym e ∙ staying))
          (λ e missing v. missing)
          (λ e there ref fresh own stored none_yet moving changed. (
            refl,
            (ref, fresh, own, stored, (eq_iff (job_id_of fresh) "").0 none_yet, moving, changed),
          )))

  -- A patch that sets a retry count sets at most three.
  abbrev pub WithinRetries : Request → Type 0
  WithinRetries (status_patch v) = Counts (λ z. lt_int z 4 ≡ true) v
  WithinRetries _ = Unit

  succ-within : (z : ℤ) → lt_int z max_retries ≡ true → lt_int (succ_int z) 4 ≡ true
  succ-within (pos n) h = ground (arith, h)
  succ-within (negsuc zero) h = refl
  succ-within (negsuc (suc n)) h = refl

  -- The retry count stays at most three: where the object and every object that is stored have at most
  -- three, each patch of a status sets at most three.
  pub reconcile-WithinRetries :
      (r : Resource) (w : World K S)
      → lt_int (retry_count_of r) 4 ≡ true
      → ((ref : ObjectRef) (fresh : Resource)
          → ctx.client.get ref w.cluster ≡ fetched fresh
          → lt_int (retry_count_of fresh) 4 ≡ true)
      → All WithinRetries (reconcile ctx kind r w).requests
  unfolding reconcile
  reconcile-WithinRetries r w h stored =
      reconcile-named WithinRetries r.name w (reconcile_named ctx kind r w) (
        reconcile-Sends WithinRetries (λ z. lt_int z 4 ≡ true) (λ v c. c) refl succ-within r w h
          stored (λ e d. tt) (λ e d a b v. tt) (λ e d v. tt) (λ e d ref fresh own s a b c. tt))
