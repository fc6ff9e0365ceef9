-- ===== src/Deployment/Dependents.antt =====
-- What `set_deployment` of env_common/src/logic/api_deployment.rs does to the items that say who
-- depends on whom.
use infraweave.Prelude.{
  ◌&&◌, ◌≡◌, refl, ap, ◌∙◌, subst, Bool, true, false, Option, String, List, [], map, contains,
  if◌then◌else◌, arith,
}
use infraweave.Cloud.{
  Fetched, fetched, fetch_error, Dependent, TransactItem, put_deployment, transact_write, Ran, ran,
  run_error, CloudHandler,
}
use infraweave.Json.{Value}
use infraweave.Deployment.Status.{DeploymentResp, Dependency}
use infraweave.Deployment.Sending.{Sent, ok, failed, panicked, and_then_send}
use infraweave.Deployment.Store.{
  dependency_pk, dependent_sk, own_sk, pk_of, get_payload, old_dependencies, transaction, updated,
  mark_drifted, commit, fetch_dependents, with_existing, set_deployment,
}
use infraweave.Deployment.Items.{
  Table, apply_item, apply_items, transaction-mirror, transaction-deletions, deletions-own,
  deletions-dependents,
}

pub and_then_send-eq-ok :
    {S : Type 0} (o : Sent S) (k : S → Sent S) {u : S}
    → and_then_send o k ≡ ok u
    → (t : S) × (o ≡ ok t) × (k t ≡ ok u)
and_then_send-eq-ok (ok t) k h = (t, refl, h)
and_then_send-eq-ok (failed t e) k h = cc
and_then_send-eq-ok panicked k h = cc

pub updated-eq-ok :
    {S : Type 0} (r : Ran S) {t : S} → updated r ≡ ok t → (v : Value) × (r ≡ ran v t)
updated-eq-ok (ran v t) h = (v, ground (arith, h))
updated-eq-ok (run_error e t) h = cc

and_false : (b c : Bool) → (b ≡ true → c ≡ false) → (b && c) ≡ false
and_false true c h = h refl
and_false false c h = refl

-- A cloud whose table of deployments a transaction changes by its items, all of them
module _ {P S : Type 0} (iter_set : List String → List String) (handler : CloudHandler P S)
    (view : S → Table)
    (visits : (xs : List String) (x : String) → contains (iter_set xs) x ≡ contains xs x)
    (transacts : (items : List (TransactItem P)) (s t : S) (v : Value)
      → handler.run_function (transact_write items) s ≡ ran v t
      → (pk sk : String) → view t pk sk ≡ apply_items items (view s) pk sk) where
  committed_items :
      (d : DeploymentResp P) (s t : S) (existing : List Dependency) (dependents : List Dependent)
      → commit iter_set handler d false s existing (fetched dependents) ≡ ok t
      → (pk sk : String)
      → view t pk sk ≡ apply_items (transaction iter_set d false existing dependents) (view s) pk sk
  committed_items d s t existing dependents done pk sk =
      let (u, e, same) = and_then_send-eq-ok _ (mark_drifted iter_set handler d false) done in
      let (v, r) = updated-eq-ok _ e in
      let last : u ≡ t = ground (arith, same) in
      subst
        (λ w.
          view w pk sk
          ≡ apply_items (transaction iter_set d false existing dependents) (view s) pk sk)
        last (transacts _ s u v r pk sk)

  committed_mirror :
      (d : DeploymentResp P) (s t : S) (old : Option (DeploymentResp P))
      (o : Fetched (List Dependent)) (pk : String)
      → d.deleted ≡ false
      → view s pk (own_sk d) ≡ contains (map dependency_pk (old_dependencies old)) pk
      → commit iter_set handler d false s (old_dependencies old) o ≡ ok t
      → view t pk (own_sk d) ≡ contains (map dependency_pk d.dependencies) pk
  committed_mirror d s t old (fetch_error e) pk kept h done = ground (arith, done)
  committed_mirror d s t old (fetched dependents) pk kept h done =
      committed_items d s t (old_dependencies old) dependents done pk (own_sk d)
      ∙ transaction-mirror iter_set visits d (old_dependencies old) dependents (view s) pk kept h

  with_existing-mirror :
      (d : DeploymentResp P) (s t : S) (o : Fetched (Option (DeploymentResp P))) (pk : String)
      → d.deleted ≡ false
      → ((old : Option (DeploymentResp P))
          → o ≡ fetched old
          → view s pk (own_sk d) ≡ contains (map dependency_pk (old_dependencies old)) pk)
      → with_existing iter_set handler d false s o ≡ ok t
      → view t pk (own_sk d) ≡ contains (map dependency_pk d.dependencies) pk
  with_existing-mirror d s t (fetch_error e) pk kept h done = ground (arith, done)
  with_existing-mirror d s t (fetched old) pk kept h done =
      committed_mirror d s t old (fetch_dependents iter_set handler d false s) pk kept (h old refl)
        done

  -- An item says that a deployment depends on another exactly for the dependencies that it has: after
  -- it is stored, if it was so for the dependencies stored before.
  pub set_deployment-mirror :
      (d : DeploymentResp P) (s t : S) (pk : String)
      → d.deleted ≡ false
      → ((old : Option (DeploymentResp P))
          → handler.get_deployment d.deployment_id d.environment false s ≡ fetched old
          → view s pk (own_sk d) ≡ contains (map dependency_pk (old_dependencies old)) pk)
      → set_deployment iter_set handler d false s ≡ ok t
      → view t pk (own_sk d) ≡ contains (map dependency_pk d.dependencies) pk
  unfolding set_deployment
  set_deployment-mirror d s t pk kept h done = with_existing-mirror d s t _ pk kept h done

  -- Once a deployment is stored as deleted, no item says that it depends on one of the dependencies that
  -- were stored of it, and none that one of the dependents fetched for it depends on it.
  pub set_deployment-deleted :
      (d : DeploymentResp P) (s t : S) (old : Option (DeploymentResp P))
      (dependents : List Dependent) (pk sk : String)
      → d.deleted ≡ true
      → handler.get_deployment d.deployment_id d.environment false s ≡ fetched old
      → handler.get_dependents d.deployment_id d.environment s ≡ fetched dependents
      → set_deployment iter_set handler d false s ≡ ok t
      → ((contains (map dependency_pk (old_dependencies old)) pk && view t pk (own_sk d)) ≡ false)
        × ((contains (map dependent_sk dependents) sk && view t (pk_of d false) sk) ≡ false)
  unfolding set_deployment
  set_deployment-deleted d s t old dependents pk sk gone e1 e2 done =
      let fetch : fetch_dependents iter_set handler d false s ≡ fetched dependents =
        ap
          (λ (b : Bool).
            if b then handler.get_dependents d.deployment_id d.environment s else fetched [])
          gone
        ∙ e2 in
      let committed =
        subst (λ o. commit iter_set handler d false s (old_dependencies old) o ≡ ok t) fetch
          (subst (λ o. with_existing iter_set handler d false s o ≡ ok t) e1 done) in
      let written = committed_items d s t (old_dependencies old) dependents committed in
      let first = put_deployment (get_payload d false) in
      (
        and_false _ _ (λ h.
            written pk (own_sk d)
            ∙ transaction-deletions iter_set d (old_dependencies old) dependents (view s) pk
                (own_sk d) gone
            ∙ deletions-own d (old_dependencies old) dependents (apply_item first (view s)) pk h),
        and_false _ _ (λ k.
            written (pk_of d false) sk
            ∙ transaction-deletions iter_set d (old_dependencies old) dependents (view s)
                (pk_of d false) sk gone
            ∙ deletions-dependents d (old_dependencies old) dependents (apply_item first (view s))
                sk k),
      )
