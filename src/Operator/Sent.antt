-- ===== src/Operator/Sent.antt =====
-- Which requests the steps of operator/src/operator.rs send, for any property `Q` of requests that holds of
-- every patch of a status whose retry count has the property `C`.
pub mod Applied
pub mod Destroyed
use infraweave.Prelude.{
  ◌≡◌, refl, sym, ap, ◌∙◌, subst, Bool, true, false, not, Option, none, some, String, List, [], ◌∷◌,
  All, arith, ℕ, if◌then◌else◌, eqb, leb, Bool-cases, inl, inr, some_inj,
}
use infraweave.Json.{Value, null, string, object, Fields, end, field, get, get_key, and_then}
use infraweave.Cloud.{Fetched, fetched, fetch_error, ApiInfraPayloadWithVariables}
use infraweave.Infra.Manifest.{DeploymentManifest}
use infraweave.Deployment.Status.{ℤ, pos, negsuc}
use infraweave.Infra.Submit
use infraweave.Infra.Progress.{InProgress}
use infraweave.Operator.{
  Resource, ObjectRef, namespace_of, as_i64, from_i64, retry_count_of, job_id_of,
  last_failure_epoch_of,
}
use infraweave.Operator.Step.{
  World, Patched, patched, patch_error, Context, Action, Request, status_patch, metadata_patch, job,
  Step, Outcome, returned, raised, panicked, ◌>>=◌, ◌>>◌, pure, lift_fetched, Sends, >>=-Sends,
  pure-Sends,
}
use infraweave.Operator.Status.{
  with_ref, get_resource, sent, patch_status, patch_metadata, update_resource_status,
  update_retry_count, reset_retry_count,
}
use infraweave.Operator.Retry.{
  succ_int, lt_int, max_retries, elapsed, twenty_four_hours_ms, update_logs, cool_down,
  after_failure,
}
use infraweave.Operator.Apply.{Started, job_started, job_failed, ran_job, submit_yaml, submit_job}

-- The retry count that a patch of a status sets
abbrev pub count_in : Value → Option ℤ
count_in patch = and_then (and_then (get patch "status") (λ s. get s "retryCount")) as_i64

pub as_i64-from_i64 : (z y : ℤ) → as_i64 (from_i64 z) ≡ some y → z ≡ y
as_i64-from_i64 (pos n) y h = ground (arith, h)
as_i64-from_i64 (negsuc n) y h = some_inj.0 h

-- The name under which the operator reads an object: its own
abbrev pub IsRefOf : String → Resource → ObjectRef → Type 0
IsRefOf kind r ref =
    (name : String) × (r.name ≡ some name)
    × (ref ≡ record { kind = kind; namespace = namespace_of r; name = name })

abbrev pub Counts : (ℤ → Type 0) → Value → Type 0
Counts C patch = (z : ℤ) → count_in patch ≡ some z → C z

module _ {Y P K S : Type 0} (ctx : Context Y P K S) (kind : String) (Q : Request → Type 0)
    (C : ℤ → Type 0) (patches : (v : Value) → Counts C v → Q (status_patch v)) where
  pub sent-Sends : (q : Request) (s : S) (r : Patched K) → Q q → Sends Q (sent ctx kind q s r)
  sent-Sends q s (patched k) h = record { all = (h, tt) }
  sent-Sends q s (patch_error e k) h = record { all = (h, tt) }

  on_name :
      {A : Type 0} (r : Resource) (f : ObjectRef → World K S → Step (World K S) A) (w : World K S)
      (o : Option String)
      → r.name ≡ o
      → ((ref : ObjectRef) → IsRefOf kind r ref → Sends Q (f ref w))
      → Sends Q (with_ref ctx kind r f w)
  unfolding with_ref
  on_name r f w none e h = rw e (record { all = tt })
  on_name r f w (some name) e h = rw e (h _ (name, e, refl))

  pub with_own_ref-Sends :
      {A : Type 0} (r : Resource) (f : ObjectRef → World K S → Step (World K S) A) (w : World K S)
      → ((ref : ObjectRef) → IsRefOf kind r ref → Sends Q (f ref w))
      → Sends Q (with_ref ctx kind r f w)
  with_own_ref-Sends r f w h = on_name r f w r.name refl h

  pub with_ref-Sends :
      {A : Type 0} (r : Resource) (f : ObjectRef → World K S → Step (World K S) A) (w : World K S)
      → ((ref : ObjectRef) → Sends Q (f ref w))
      → Sends Q (with_ref ctx kind r f w)
  with_ref-Sends r f w h = with_own_ref-Sends r f w (λ ref own. h ref)

  on_fetched : (o : Fetched Resource) (w : World K S) → Sends Q (lift_fetched o w)
  unfolding lift_fetched
  on_fetched (fetched r) w = pure-Sends Q r w
  on_fetched (fetch_error e) w = record { all = tt }

  pub get_resource-Sends : (ref : ObjectRef) (w : World K S) → Sends Q (get_resource ctx kind ref w)
  unfolding get_resource
  get_resource-Sends ref w = on_fetched (ctx.client.get ref w.cluster) w

  pub patch_status-Sends :
      (ref : ObjectRef) (v : Value) (w : World K S)
      → Counts C v
      → Sends Q (patch_status ctx kind ref v w)
  unfolding patch_status
  patch_status-Sends ref v w h = sent-Sends _ w.cloud _ (patches v h)

  pub update_resource_status-Sends :
      (r : Resource) (status update message job_id : String) (w : World K S)
      → C (retry_count_of r)
      → Sends Q (update_resource_status ctx kind r status update message job_id w)
  unfolding update_resource_status
  update_resource_status-Sends r status update message job_id w h = with_ref-Sends _ _ w (λ ref.
      >>=-Sends Q _ _ w
        (patch_status-Sends ref _ w (λ z e. subst C (as_i64-from_i64 (retry_count_of r) z e) h))
        (λ a v e. >>=-Sends Q _ _ v (get_resource-Sends ref v) (λ b u e. pure-Sends Q tt u)))

  pub update_retry_count-Sends :
      (r : Resource) (n : ℤ) (w : World K S) → C n → Sends Q (update_retry_count ctx kind r n w)
  unfolding update_retry_count
  update_retry_count-Sends r n w h =
      with_ref-Sends _ _ w
        (λ ref. patch_status-Sends ref _ w (λ z e. subst C (as_i64-from_i64 n z e) h))

  pub reset_retry_count-Sends :
      (r : Resource) (w : World K S) → C (pos 0) → Sends Q (reset_retry_count ctx kind r w)
  unfolding reset_retry_count
  reset_retry_count-Sends r w h =
      with_ref-Sends _ _ w
        (λ ref. patch_status-Sends ref _ w (λ z e. subst C (as_i64-from_i64 (pos 0) z e) h))

  -- A step that ends without a request of its own
  pub ending-Sends :
      {B : Type 0} (m : World K S → Step (World K S) (Unit {0})) (b : B) (w : World K S)
      → Sends Q (m w)
      → Sends Q ((m >> pure b) w)
  ending-Sends m b w h = >>=-Sends Q _ _ w h (λ a v e. pure-Sends Q b v)

  pub no_count : {z : ℤ} → none ≡ some z → C z
  no_count h = cc

  pub update_logs-Sends :
      (r : Resource) (job_id : String) (w : World K S) → Sends Q (update_logs ctx kind r job_id w)
  unfolding update_logs
  update_logs-Sends r job_id w =
      with_ref-Sends _ _ w
        (λ ref. ending-Sends _ _ w (patch_status-Sends ref _ w (λ z e. no_count e)))

  pub cool_down-Sends :
      (label : String) (extra : Fields) (r : Resource) (status : String) (w : World K S)
      → C (pos 0)
      → get_key extra "retryCount" ≡ none
      → Sends Q (cool_down ctx kind label extra r status w)
  unfolding cool_down
  cool_down-Sends label extra r status w zero_ok none_in_extra =
      elim (Bool-cases (eqb (last_failure_epoch_of r) 0)) [
        | inl e ↦ rw e (
            with_ref-Sends _ _ w (λ ref. ending-Sends _ _ w (
              patch_status-Sends ref _ w
                (λ z e. no_count (sym (ap (λ o. and_then o as_i64) none_in_extra) ∙ e)))))
        | inr e ↦
            rw e
              (elim (Bool-cases
                (leb twenty_four_hours_ms (elapsed ctx kind (last_failure_epoch_of r) w))) [
                  | inl d ↦ rw d (ending-Sends _ _ w (reset_retry_count-Sends r w zero_ok))
                  | inr d ↦ rw d (
                      with_ref-Sends _ _ w (λ ref.
                        ending-Sends _ _ w (patch_status-Sends ref _ w (λ z e. no_count e))))
                ])
      ]

  pub after_failure-Sends :
      (label : String) (extra : Fields) (n : ℤ) (r : Resource) (found : InProgress P)
      (message job_id : String) (w : World K S)
      → C (retry_count_of r)
      → C (pos 0)
      → ((z : ℤ) → lt_int z max_retries ≡ true → C (succ_int z))
      → get_key extra "retryCount" ≡ none
      → Sends Q (after_failure ctx kind label extra n r found message job_id w)
  unfolding after_failure
  after_failure-Sends label extra n r found message job_id w h zero_ok succ_ok none_in_extra =
      elim (Bool-cases (lt_int n max_retries)) [
        | inl e ↦ rw e (
            >>=-Sends Q _ _ w (update_resource_status-Sends r _ _ _ _ w h)
              (λ a v d. ending-Sends _ _ v (update_retry_count-Sends r _ v (succ_ok n e))))
        | inr e ↦ rw e (cool_down-Sends label extra r found.status w zero_ok none_in_extra)
      ]

  ran_job-Sends :
      (command : String) (w : World K S)
      (o : Submit.Outcome S (String × String × ApiInfraPayloadWithVariables))
      → Q (job command)
      → Sends Q (ran_job ctx kind command w o)
  ran_job-Sends command w (Submit.started r s) h = record { all = (h, tt) }
  ran_job-Sends command w (Submit.refused e s) h = record { all = (h, tt) }
  ran_job-Sends command w Submit.panic h = record { all = (h, tt) }

  submit_yaml-Sends :
      (command environment : String) (w : World K S)
      (o : Fetched (Option String × Fetched (DeploymentManifest Y)))
      → Q (job command)
      → Sends Q (submit_yaml ctx kind command environment w o)
  unfolding submit_yaml
  submit_yaml-Sends command environment w (fetched claim) h = ran_job-Sends command w _ h
  submit_yaml-Sends command environment w (fetch_error e) h = record { all = tt }

  pub submit_job-Sends :
      (command environment : String) (fresh : Resource) (w : World K S)
      → Q (job command)
      → Sends Q (submit_job ctx kind command environment fresh w)
  unfolding submit_job
  submit_job-Sends command environment fresh w h =
      submit_yaml-Sends command environment w (ctx.to_claim fresh) h

  -- What is fetched is what the cluster holds.
  fetched-eq :
      (o : Fetched Resource) (w v : World K S) (r : Resource)
      → (lift_fetched o w).outcome ≡ returned r v
      → (o ≡ fetched r) × (w ≡ v)
  unfolding lift_fetched pure
  fetched-eq (fetched a) w v r h = ground (arith, h)
  fetched-eq (fetch_error e) w v r h = cc

  pub get_resource-eq :
      (ref : ObjectRef) (w v : World K S) (r : Resource)
      → (get_resource ctx kind ref w).outcome ≡ returned r v
      → (ctx.client.get ref w.cluster ≡ fetched r) × (w ≡ v)
  unfolding get_resource
  get_resource-eq ref w v r h = fetched-eq _ w v r h
