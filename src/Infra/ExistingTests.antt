-- ===== src/Infra/ExistingTests.antt =====
-- Jobs of a deployment that exists, of env_common/src/logic/api_infra.rs, on a cloud that holds one
-- deployment and has every version of a module.
use infraweave.Prelude.{◌≡◌, refl, true, false, ◌⊎◌, none, some, String, [], ◌∷◌}
use infraweave.Json.{Value, Fields, null}
use infraweave.Cloud.{fetched, ApiInfraPayloadWithVariables}
use infraweave.Version.{get_version_track}
use infraweave.Deployment.Status.{DeploymentResp, is_busy, is_final, successful}
use infraweave.Deployment.Handler.{is_plan}
use infraweave.Deployment.Store
use infraweave.Deployment.Store.{set_deployment}
use infraweave.Infra.Manifest.{Crates}
use infraweave.Infra.Progress.{found}
use infraweave.Infra.Submit.{Outcome, started, refused, panic}
use infraweave.Infra.Existing.{destroy_infra, driftcheck_infra, verify_module_version}
use infraweave.Infra.Existing.Jobs.{IsJobOf}
use infraweave.Infra.Existing.Sound.{VersionExists, destroy_infra-IsJobOf, driftcheck_infra-IsJobOf}
use infraweave.Infra.Tests.{Slot, cloud, crates, in_order, show_number, no_duration, clock, busy}

abbrev finished : DeploymentResp (Unit {0})
finished = record busy { status = successful }

-- Every version is a beta.
abbrev beta_crates : Crates Fields
beta_crates = record crates {
  parse_version =
      λ s. fetched (record { major = 2; minor = 0; patch = 0; pre = "beta"; build = "" });
}

abbrev slot_after : {A : Type 0} → Outcome Slot A → Slot
slot_after (started job t) = t
slot_after (refused e t) = t
slot_after panic = none

abbrev destroyed : Slot
unfolding destroy_infra
destroyed = slot_after (
    destroy_infra beta_crates in_order show_number no_duration cloud none clock "s3bucket/b"
      "cli/dev" null (some "2.0.0-beta") (some finished))

destroys :
    destroy_infra beta_crates in_order show_number no_duration cloud none clock "s3bucket/b"
      "cli/dev" null
      (some "2.0.0-beta")
      (some finished)
    ≡ started "job-1" destroyed
unfolding destroy_infra verify_module_version get_version_track set_deployment is_final is_busy
    Store.insert_event is_plan found
destroys = refl

destroy_infra-IsJobOf_example :
    (d : DeploymentResp (Unit {0})) × (version : String) × (p : ApiInfraPayloadWithVariables)
    × (response : Value) × (u : Slot) × (fetched (some finished) ≡ fetched (some d))
    × VersionExists beta_crates in_order show_number no_duration cloud
        (some "2.0.0-beta")
        d
        (some finished)
        version
    × IsJobOf beta_crates in_order show_number no_duration cloud "s3bucket/b" "destroy" version [] d
        (some finished)
        "job-1"
        p
        response
        u
destroy_infra-IsJobOf_example =
    destroy_infra-IsJobOf beta_crates in_order show_number no_duration cloud clock "s3bucket/b"
      "cli/dev" null (some "2.0.0-beta") (some finished) destroyed "job-1" destroys

abbrev checked : Slot
unfolding driftcheck_infra
checked = slot_after (
    driftcheck_infra crates in_order show_number no_duration cloud none clock "s3bucket/b" "cli/dev"
      false null (some finished))

checks :
    driftcheck_infra crates in_order show_number no_duration cloud none clock "s3bucket/b" "cli/dev"
      false null
      (some finished)
    ≡ started ("job-1", "eu") checked
unfolding driftcheck_infra set_deployment is_final is_busy Store.insert_event is_plan found
checks = refl

driftcheck_infra-IsJobOf_example :
    (d : DeploymentResp (Unit {0})) × (p : ApiInfraPayloadWithVariables) × (response : Value)
    × (u : Slot) × (fetched (some finished) ≡ fetched (some d))
    × (◌≡◌ {A = String} "eu" d.region)
    × (((false ≡ true)
          × IsJobOf crates in_order show_number no_duration cloud "s3bucket/b" "apply"
              d.module_version [] d
              (some finished)
              "job-1"
              p
              response
              u)
        ⊎ ((false ≡ false)
            × IsJobOf crates in_order show_number no_duration cloud "s3bucket/b" "plan"
                d.module_version
                ("-refresh-only" ∷ [])
                d
                (some finished)
                "job-1"
                p
                response
                u))
driftcheck_infra-IsJobOf_example =
    driftcheck_infra-IsJobOf crates in_order show_number no_duration cloud clock "s3bucket/b"
      "cli/dev" false null (some finished) checked "job-1" "eu" checks
