-- ===== src/Operator/Stored.antt =====
-- What the cluster stores after the steps of operator/src/operator.rs, where it merges each patch that it
-- answers.
use infraweave.Prelude.{
  ◌≡◌, refl, sym, ap, ◌∙◌, subst, Bool, true, false, none, some, String, List, [], arith,
  if◌then◌else◌,
}
use infraweave.Json.{Value}
use infraweave.Cloud.{Fetched, fetched, fetch_error}
use infraweave.Deployment.Status.{ℤ}
use infraweave.Operator.{Resource, ObjectRef, in_status, status_merged, namespace_of}
use infraweave.Operator.Step.{
  World, Patched, patched, patch_error, Client, Context, Request, Step, Outcome, returned, raised,
  panicked, continue_with, ◌>>=◌, ◌>>◌, pure, lift_fetched,
}
use infraweave.Operator.Status.{
  with_ref, sent, get_resource, patch_status, update_fields, retry_fields, reset_fields,
  update_resource_status, update_retry_count, reset_retry_count,
}

-- The API server merges a patch of the status that it answers into the object, which stays.
pub record MergesPatches {K : Type 0} (client : Client K) : Type 0 where
  pub status :
      (ref : ObjectRef) (patch : Value) (k l : K) (s : Resource)
      → client.get ref k ≡ fetched s
      → client.patch_status ref patch k ≡ patched l
      → client.get ref l ≡ fetched (status_merged s patch)

pub fetched-inj : {A : Type 0} {a b : A} → fetched a ≡ fetched b → a ≡ b
fetched-inj h = cc

module _ {W A B : Type 0} where
  inverted :
      (q : List Request) (o : Outcome W A) (f : A → W → Step W B) (b : B) (v : W)
      → (continue_with q o f).outcome ≡ returned b v
      → (a : A) × (u : W) × (o ≡ returned a u) × ((f a u).outcome ≡ returned b v)
  inverted q (returned a u) f b v h = (a, u, refl, h)
  inverted q (raised e u) f b v h = cc
  inverted q panicked f b v h = cc

  -- A sequence that returns went through both steps.
  pub >>=-eq-returned :
      (m : W → Step W A) (f : A → W → Step W B) (w : W) (b : B) (v : W)
      → ((m >>= f) w).outcome ≡ returned b v
      → (a : A) × (u : W) × ((m w).outcome ≡ returned a u) × ((f a u).outcome ≡ returned b v)
  unfolding ◌>>=◌
  >>=-eq-returned m f w b v h = inverted (m w).requests (m w).outcome f b v h

  -- After a step that ends in `pure`, the state is that of the step.
  pub ending-eq-returned :
      (m : W → Step W A) (b c : B) (w v : W)
      → ((m >>= λ _. pure b) w).outcome ≡ returned c v
      → (a : A) × ((m w).outcome ≡ returned a v)
  unfolding pure
  ending-eq-returned m b c w v h =
      let (a, u, e1, e2) = >>=-eq-returned m (λ _. pure b) w c v h in
      (a, e1 ∙ ap (returned a) (same_state e2))
    where
      same_state : {u : W} → returned b u ≡ returned c v → u ≡ v
      same_state h = cc

-- A test on the way to a step that returns
pub if-eq-returned :
    {W A R : Type 0} (b : Bool) (left right : Step W A) {a : A} {v : W}
    → (if b then left else right).outcome ≡ returned a v
    → (b ≡ true → left.outcome ≡ returned a v → R)
    → (b ≡ false → right.outcome ≡ returned a v → R)
    → R
if-eq-returned true left right h x y = x refl h
if-eq-returned false left right h x y = y refl h

module _ {Y P K S : Type 0} (ctx : Context Y P K S) (kind : String) where
  abbrev pub ref_of : Resource → String → ObjectRef
  ref_of r name = record { kind = kind; namespace = namespace_of r; name = name }

  pub with_ref-eq :
      {A : Type 0} (r : Resource) (name : String) (f : ObjectRef → World K S → Step (World K S) A)
      (w : World K S)
      → r.name ≡ some name
      → with_ref ctx kind r f w ≡ f (ref_of r name) w
  unfolding with_ref
  with_ref-eq r name f w e =
      ap
        (λ o. elim o [
          | none ↦ record { requests = []; outcome = panicked }
          | some n ↦ f (ref_of r n) w
        ])
        e

  same_world : {A : Type 0} {a b : A} {u v : World K S} → returned a u ≡ returned b v → u ≡ v
  same_world h = cc

  answered :
      (q : Request) (s : S) (o : Patched K) (v : World K S)
      → (sent ctx kind q s o).outcome ≡ returned tt v
      → o ≡ patched v.cluster
  answered q s (patched k) v h = ap (λ u. patched u.cluster) (same_world h)
  answered q s (patch_error e k) v h = cc

  module _ (merges : MergesPatches ctx.client) (ref : ObjectRef) where
    pub patch_status-eq-returned :
        (patch : Value) (w v : World K S) (s : Resource)
        → ctx.client.get ref w.cluster ≡ fetched s
        → (patch_status ctx kind ref patch w).outcome ≡ returned tt v
        → ctx.client.get ref v.cluster ≡ fetched (status_merged s patch)
    unfolding patch_status
    patch_status-eq-returned patch w v s h e =
        merges.status ref patch w.cluster v.cluster s h (answered _ w.cloud _ v e)

    fetched-same :
        (o : Fetched Resource) (w u : World K S) (r : Resource)
        → (lift_fetched o w).outcome ≡ returned r u
        → w ≡ u
    unfolding lift_fetched pure
    fetched-same (fetched a) w u r h = ground (arith, h)
    fetched-same (fetch_error e) w u r h = cc

    verified :
        (s : Resource) (w v : World K S)
        → ((get_resource ctx kind ref >>= λ r. pure tt) w).outcome ≡ returned tt v
        → ctx.client.get ref w.cluster ≡ fetched s
        → ctx.client.get ref v.cluster ≡ fetched s
    unfolding get_resource pure
    verified s w v h e =
        let (r, u, e1, e2) = >>=-eq-returned (get_resource ctx kind ref) (λ r. pure tt) w tt v h in
        subst (λ x. ctx.client.get ref x.cluster ≡ fetched s)
          (fetched-same _ w u r e1 ∙ same_world e2) e

  module _ (merges : MergesPatches ctx.client) (r : Resource) (name : String)
      (named : r.name ≡ some name) where
    pub update_resource_status-eq-returned :
        (status update message job_id : String) (w v : World K S) (s : Resource)
        → ctx.client.get (ref_of r name) w.cluster ≡ fetched s
        → (update_resource_status ctx kind r status update message job_id w).outcome ≡ returned tt v
        → ctx.client.get (ref_of r name) v.cluster
          ≡ fetched (
              status_merged s (
                in_status (
                  update_fields ctx kind r name status update
                    (ctx.get_timestamp w)
                    message
                    job_id)))
    unfolding update_resource_status
    update_resource_status-eq-returned status update message job_id w v s h o =
        let patch =
          in_status
            (update_fields ctx kind r name status update (ctx.get_timestamp w) message job_id) in
        let (a, u, e1, e2) =
          >>=-eq-returned (patch_status ctx kind (ref_of r name) patch) _ w tt v
            (sym (ap (λ x. x.outcome) (with_ref-eq r name _ w named)) ∙ o) in
        verified merges (ref_of r name) _ u v e2
          (patch_status-eq-returned merges (ref_of r name) patch w u s h e1)

    pub update_retry_count-eq-returned :
        (n : ℤ) (w v : World K S) (s : Resource)
        → ctx.client.get (ref_of r name) w.cluster ≡ fetched s
        → (update_retry_count ctx kind r n w).outcome ≡ returned tt v
        → ctx.client.get (ref_of r name) v.cluster
          ≡ fetched (status_merged s (in_status (retry_fields ctx kind n)))
    unfolding update_retry_count
    update_retry_count-eq-returned n w v s h o =
        patch_status-eq-returned merges (ref_of r name) _ w v s h
          (sym (ap (λ x. x.outcome) (with_ref-eq r name _ w named)) ∙ o)

    pub reset_retry_count-eq-returned :
        (w v : World K S) (s : Resource)
        → ctx.client.get (ref_of r name) w.cluster ≡ fetched s
        → (reset_retry_count ctx kind r w).outcome ≡ returned tt v
        → ctx.client.get (ref_of r name) v.cluster
          ≡ fetched (status_merged s (in_status (reset_fields ctx kind)))
    unfolding reset_retry_count
    reset_retry_count-eq-returned w v s h o =
        patch_status-eq-returned merges (ref_of r name) _ w v s h
          (sym (ap (λ x. x.outcome) (with_ref-eq r name _ w named)) ∙ o)

    -- A patch of the status at the end of a reconcile
    pub patch_last-eq-returned :
        {A : Type 0} (patch : Value) (b a : A) (w v : World K S) (s : Resource)
        → ctx.client.get (ref_of r name) w.cluster ≡ fetched s
        → (with_ref ctx kind r (λ ref. patch_status ctx kind ref patch >> pure b) w).outcome
          ≡ returned a v
        → ctx.client.get (ref_of r name) v.cluster ≡ fetched (status_merged s patch)
    patch_last-eq-returned patch b a w v s h o =
        let (c, e) =
          ending-eq-returned (patch_status ctx kind (ref_of r name) patch) b a w v
            (sym (ap (λ x. x.outcome) (with_ref-eq r name _ w named)) ∙ o) in
        patch_status-eq-returned merges (ref_of r name) patch w v s h e
