-- ===== src/Infra/Existing/Sound.antt =====
-- Which job `destroy_infra` and `driftcheck_infra` of env_common/src/logic/api_infra.rs start for a
-- deployment that exists.
use infraweave.Prelude.{
  ℕ, ◌≡◌, refl, sym, ap, subst, Bool, true, false, ◌⊎◌, inl, inr, Option, none, some, String, List,
  [], ◌∷◌, if◌then◌else◌, arith,
}
use infraweave.Json.{Value}
use infraweave.Cloud.{
  Fetched, fetched, fetch_error, ModuleResp, ApiInfraPayloadWithVariables, CloudHandler,
}
use infraweave.Version.{get_version_track}
use infraweave.Deployment.Status.{DeploymentResp}
use infraweave.Infra.Manifest.{Crates}
use infraweave.Infra.Submit.{Clock, started}
use infraweave.Infra.Existing.{
  found_deployment, version_exists, verify_on_track, verify_module_version, after_check,
  destroyed_version, destroy_infra, driftcheck_infra,
}
use infraweave.Infra.Existing.Jobs.{
  or_refuse-eq-started, map_outcome-eq-started, IsJobOf, submit-IsJobOf,
}

module _ {Y P S : Type 0} (crates : Crates Y) (iter_set : List String → List String)
    (show_number : ℕ → String) (parse_duration : String → Option ℕ)
    (handler : CloudHandler P S) where
  found_deployment-eq-fetched :
      (o : Fetched (Option (DeploymentResp P))) {d : DeploymentResp P}
      → found_deployment crates iter_set show_number parse_duration handler o ≡ fetched d
      → o ≡ fetched (some d)
  found_deployment-eq-fetched (fetched (some d)) h = ground (arith, h)
  found_deployment-eq-fetched (fetched none) h = cc
  found_deployment-eq-fetched (fetch_error e) h = cc

  -- The version that is torn down: the stored one, or another one that exists on its own track
  unfoldable pub VersionExists : Option String → DeploymentResp P → S → String → Type 0
  VersionExists override d s version =
      ((override ≡ none) × (version ≡ d.module_version))
      ⊎ ((override ≡ some version)
          × ((track : String) × (m : ModuleResp) × (get_version_track crates.parse_version version
                ≡ fetched track)
              × (handler.get_module_version d.module_name track version s ≡ fetched (some m))))

  version_exists-eq-fetched :
      (version : String) (o : Fetched (Option ModuleResp)) {u : Unit {0}}
      → version_exists crates iter_set show_number parse_duration handler version o ≡ fetched u
      → (m : ModuleResp) × (o ≡ fetched (some m))
  version_exists-eq-fetched version (fetched (some m)) h = (m, refl)
  version_exists-eq-fetched version (fetched none) h = cc
  version_exists-eq-fetched version (fetch_error e) h = cc

  verify_on_track-eq-fetched :
      (module_id version : String) (s : S) (o : Fetched String) {u : Unit {0}}
      → verify_on_track crates iter_set show_number parse_duration handler none module_id version s
          o
        ≡ fetched u
      → (track : String) × (m : ModuleResp) × (o ≡ fetched track)
        × (handler.get_module_version module_id track version s ≡ fetched (some m))
  verify_on_track-eq-fetched module_id version s (fetched track) h =
      let (m, e) = version_exists-eq-fetched version _ h in (track, m, refl, e)
  verify_on_track-eq-fetched module_id version s (fetch_error e) h = cc

  after_check-eq-fetched :
      (version : String) (o : Fetched (Unit {0})) {v : String}
      → after_check crates iter_set show_number parse_duration handler version o ≡ fetched v
      → (o ≡ fetched tt) × (version ≡ v)
  after_check-eq-fetched version (fetched u) h = (refl, ground (arith, h))
  after_check-eq-fetched version (fetch_error e) h = cc

  destroyed_version-VersionExists :
      (d : DeploymentResp P) (override : Option String) (s : S) {version : String}
      → destroyed_version crates iter_set show_number parse_duration handler none d override s
        ≡ fetched version
      → VersionExists override d s version
  unfolding VersionExists verify_module_version
  destroyed_version-VersionExists d none s h = inl (refl, ground (arith, h))
  destroyed_version-VersionExists d (some other) s h =
      let (e, same) = after_check-eq-fetched other _ h in
      subst (λ version. VersionExists (some other) d s version) same
        (inr (refl, verify_on_track-eq-fetched d.module_name other s _ e))

  -- In direct mode, where a job that tears a deployment down is started, the deployment is stored and
  -- no job of it was in progress, and the runner got it with the stored track: in the stored version, or
  -- in the one asked for, which exists on its own track.
  pub destroy_infra-IsJobOf :
      (clock : Clock) (deployment_id environment : String) (extra_data : Value)
      (override : Option String) (s t : S) (job : String)
      → destroy_infra crates iter_set show_number parse_duration handler none clock deployment_id
          environment extra_data override s
        ≡ started job t
      → (d : DeploymentResp P) × (version : String) × (p : ApiInfraPayloadWithVariables)
        × (response : Value) × (u : S) × (handler.get_deployment deployment_id environment false s
            ≡ fetched (some d))
        × VersionExists override d s version
        × IsJobOf crates iter_set show_number parse_duration handler deployment_id "destroy" version
            [] d s job p response u
  unfolding destroy_infra
  destroy_infra-IsJobOf clock deployment_id environment extra_data override s t job h =
      let (d, e1, h1) = or_refuse-eq-started _ s _ h in
      let (version, e2, h2) = or_refuse-eq-started _ s _ h1 in
      let (p, response, u, sent) =
        submit-IsJobOf crates iter_set show_number parse_duration handler clock "destroy"
          deployment_id version [] extra_data d s t job h2 in
      (
        d,
        version,
        p,
        response,
        u,
        found_deployment-eq-fetched _ e1,
        destroyed_version-VersionExists d override s e2,
        sent,
      )

  checked-IsJobOf :
      (clock : Clock) (deployment_id environment : String) (remediate : Bool) (extra_data : Value)
      (s t : S) (job region : String)
      → driftcheck_infra crates iter_set show_number parse_duration handler none clock deployment_id
          environment remediate extra_data s
        ≡ started (job, region) t
      → (d : DeploymentResp P) × (p : ApiInfraPayloadWithVariables) × (response : Value) × (u : S)
        × (handler.get_deployment deployment_id environment false s ≡ fetched (some d))
        × (region ≡ d.region)
        × IsJobOf crates iter_set show_number parse_duration handler deployment_id
            (if remediate then "apply" else "plan")
            d.module_version
            (if remediate then [] else "-refresh-only" ∷ [])
            d
            s
            job
            p
            response
            u
  unfolding driftcheck_infra
  checked-IsJobOf clock deployment_id environment remediate extra_data s t job region h =
      let (d, e1, h1) = or_refuse-eq-started _ s _ h in
      let (j, h2, same) = map_outcome-eq-started _ _ h1 in
      let (p, response, u, sent) =
        submit-IsJobOf crates iter_set show_number parse_duration handler clock
          (if remediate then "apply" else "plan") deployment_id d.module_version
          (if remediate then [] else "-refresh-only" ∷ []) extra_data d s t j h2 in
      (
        d,
        p,
        response,
        u,
        found_deployment-eq-fetched _ e1,
        sym (ap (λ (q : String × String). q.1) same),
        subst
            (λ k.
              IsJobOf crates iter_set show_number parse_duration handler deployment_id
                (if remediate then "apply" else "plan") d.module_version
                (if remediate then [] else "-refresh-only" ∷ []) d s k p response u)
            (ap (λ (q : String × String). q.0) same) sent,
      )

  -- In direct mode, where a drift check starts a job, the deployment is stored and no job of it was in
  -- progress, and the runner got it in the stored version: to apply it, where the check remediates, and
  -- otherwise to plan it with a refresh alone. The region that is returned is the stored one.
  pub driftcheck_infra-IsJobOf :
      (clock : Clock) (deployment_id environment : String) (remediate : Bool) (extra_data : Value)
      (s t : S) (job region : String)
      → driftcheck_infra crates iter_set show_number parse_duration handler none clock deployment_id
          environment remediate extra_data s
        ≡ started (job, region) t
      → (d : DeploymentResp P) × (p : ApiInfraPayloadWithVariables) × (response : Value) × (u : S)
        × (handler.get_deployment deployment_id environment false s ≡ fetched (some d))
        × (region ≡ d.region)
        × (((remediate ≡ true)
              × IsJobOf crates iter_set show_number parse_duration handler deployment_id "apply"
                  d.module_version [] d s job p response u)
            ⊎ ((remediate ≡ false)
                × IsJobOf crates iter_set show_number parse_duration handler deployment_id "plan"
                    d.module_version
                    ("-refresh-only" ∷ [])
                    d
                    s
                    job
                    p
                    response
                    u))
  driftcheck_infra-IsJobOf clock deployment_id environment true extra_data s t job region h =
      let (d, p, response, u, stored, place, sent) =
        checked-IsJobOf clock deployment_id environment true extra_data s t job region h in
      (d, p, response, u, stored, place, inl (refl, sent))
  driftcheck_infra-IsJobOf clock deployment_id environment false extra_data s t job region h =
      let (d, p, response, u, stored, place, sent) =
        checked-IsJobOf clock deployment_id environment false extra_data s t job region h in
      (d, p, response, u, stored, place, inr (refl, sent))
