-- ===== src/Infra/Claim/Sound.antt =====
-- What `validate_and_prepare_claim` of env_common/src/logic/api_infra.rs lets through.
use infraweave.Prelude.{
  ◌≡◌, true, false, none, some, String, ◌==◌, ◌⊎◌, codes, join, tail, split_at,
}
use infraweave.Cloud.{fetched, ModuleResp, ApiInfraPayloadWithVariables, CloudHandler}
use infraweave.Version.{get_version_track}
use infraweave.Deployment.Status.{DeploymentResp}
use infraweave.Variables.{
  verified, verify_variable_existence_and_type, verify_required_variables_are_set,
}
use infraweave.Infra.Names.{matches_name}
use infraweave.Infra.Manifest.{DeploymentManifest, Crates, version_of}
use infraweave.Infra.Claim.{find_module}

module _ {Y P S : Type 0} (crates : Crates Y) (handler : CloudHandler P S) (s : S) where
  -- What holds of a claim that is let through: its names and version, the module that it is of, and its
  -- variables.
  pub record IsAdmitted (m : DeploymentManifest Y) (environment : String) (resp : ModuleResp)
      (p : ApiInfraPayloadWithVariables) : Type 0 where
    pub namespace : matches_name (codes (join "/" (tail (split_at 47 environment)))) ≡ true
    pub kind : (resp.module_name == m.kind) ≡ true
    pub one_version :
        version_of m.module_version m.stack_version
        ≡ fetched (p.payload.module_type == "stack", p.payload.module_version)
    pub track :
        get_version_track crates.parse_version p.payload.module_version
        ≡ fetched p.payload.module_track
    pub exists :
        find_module crates handler none
          (p.payload.module_type == "stack")
          p.payload.module_track
          (crates.to_lowercase m.kind)
          p.payload.module_version
          s
        ≡ fetched resp
    pub types : verify_variable_existence_and_type crates.is_reference resp p.variables ≡ verified
    pub required : verify_required_variables_are_set resp p.variables ≡ verified
    pub current :
        (resp.deprecated ≡ false)
        ⊎ ((d : DeploymentResp P) × (handler.get_deployment p.payload.deployment_id
                p.payload.environment false s
              ≡ fetched (some d)))
