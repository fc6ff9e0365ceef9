-- ===== src/Infra/Claim/Passed.antt =====
-- What follows from each check of `validate_and_prepare_claim` in env_common/src/logic/api_infra.rs that
-- lets a claim through.
use infraweave.Prelude.{
  ◌≡◌, refl, ap, ◌∙◌, sym, Bool, true, false, not, Option, none, some, String, ◌==◌, ◌⊎◌, inl, inr,
  eq_iff, Bool-cases, codes, join, tail, split_at, if◌then◌else◌,
}
use infraweave.Json.{Value, unwrap_or}
use infraweave.Cloud.{
  Fetched, fetched, fetch_error, ◌>>=◌, ◌>>◌, >>=-eq-fetched, or_error, ModuleResp, CloudHandler,
}
use infraweave.Deployment.Status.{DeploymentResp}
use infraweave.Variables.{
  Verified, verified, refused, panicked, verify_variable_existence_and_type,
  verify_required_variables_are_set,
}
use infraweave.Infra.Names.{unit_or, matches_name, validate_name}
use infraweave.Infra.Manifest.{DeploymentManifest, Crates, Details, checked}
use infraweave.Infra.Claim.{
  get_deployment_details, allowed_if_deployed, check_module_deprecation, verify_variables,
}

pub unit_or-eq : (b : Bool) (e : String) {u : Unit {0}} → unit_or b e ≡ fetched u → b ≡ true
unit_or-eq true e h = refl
unit_or-eq false e h = cc

checked-eq : (m : ModuleResp) (v : Verified) {u : Unit {0}} → checked m v ≡ fetched u → v ≡ verified
checked-eq m verified h = refl
checked-eq m (refused e) h = cc
checked-eq m panicked h = cc

pub or_error-eq :
    {A : Type 0} (prefix : String) (o : Fetched A) {a : A}
    → or_error prefix o ≡ fetched a
    → o ≡ fetched a
or_error-eq prefix (fetched a) h = h
or_error-eq prefix (fetch_error e) h = cc

pub fetched_inj : {A : Type 0} {a b : A} → fetched a ≡ fetched b → a ≡ b
fetched_inj {A} {a} h = ap (λ (o : Fetched A). value_or a o) h
  where
    value_or : A → Fetched A → A
    value_or d (fetched x) = x
    value_or d (fetch_error e) = d

pub api_lem :
    (o : Option String)
    → (unwrap_or o "" == "infraweave.io/v1") ≡ true
    → o ≡ some "infraweave.io/v1"
api_lem none h = cc
api_lem (some v) h = ap some ((eq_iff v _).0 h)

pub type_of_stack : (b : Bool) → ((if b then "stack" else "module") == "stack") ≡ b
type_of_stack true = refl
type_of_stack false = refl

module _ {Y P S : Type 0} (crates : Crates Y) (handler : CloudHandler P S) (s : S) where
  allowed_lem :
      (m : ModuleResp) (is_stack : Bool) (i v : String) (o : Option (DeploymentResp P))
      {u : Unit {0}}
      → allowed_if_deployed crates handler m is_stack i v o ≡ fetched u
      → (d : DeploymentResp P) × (o ≡ some d)
  allowed_lem m is_stack i v (some d) h = (d, refl)
  allowed_lem m is_stack i v none h = cc

  pub deprecation_lem :
      (m : ModuleResp) (is_stack : Bool) (i v d e : String) {u : Unit {0}}
      → check_module_deprecation crates handler m is_stack i v d e s ≡ fetched u
      → (m.deprecated ≡ false)
        ⊎ ((r : DeploymentResp P) × (handler.get_deployment d e false s ≡ fetched (some r)))
  unfolding check_module_deprecation
  deprecation_lem m is_stack i v d e h = elim (Bool-cases m.deprecated) [
    | inr f ↦ inl f
    | inl t ↦
        let (o, e1, e2) =
          >>=-eq-fetched (handler.get_deployment d e false s)
            (allowed_if_deployed crates handler m is_stack i v)
            (sym (
                ap
                  (λ (b : Bool).
                    if not b
                    then fetched tt
                    else (handler.get_deployment d e false s
                        >>= allowed_if_deployed crates handler m is_stack i v))
                  t)
              ∙ h) in
        let (r, e3) = allowed_lem m is_stack i v o e2 in inr (r, e1 ∙ ap fetched e3)
  ]

  pub details_lem :
      (m : DeploymentManifest Y) (environment : String) {details : Details}
      → get_deployment_details crates handler environment m ≡ fetched details
      → (matches_name (codes (join "/" (tail (split_at 47 environment)))) ≡ true)
        × (details.module_id ≡ crates.to_lowercase m.kind)
  unfolding get_deployment_details validate_name
  details_lem m environment e =
      let namespace = join "/" (tail (split_at 47 environment)) in
      let (u, e1, e2) = >>=-eq-fetched (validate_name namespace) _ e in
      (unit_or-eq _ _ e1, sym (ap (λ (d : Details). d.module_id) (fetched_inj e2)))

  pub variables_lem :
      (m : DeploymentManifest Y) (resp : ModuleResp) (variables provided : Value) {u : Unit {0}}
      → verify_variables crates handler m resp variables provided ≡ fetched u
      → (verify_variable_existence_and_type crates.is_reference resp variables ≡ verified)
        × (verify_required_variables_are_set resp variables ≡ verified)
  unfolding verify_variables
  variables_lem m resp variables provided e =
      let types =
        checked resp (verify_variable_existence_and_type crates.is_reference resp variables) in
      let required = checked resp (verify_required_variables_are_set resp variables) in
      let (u1, both, h1) = >>=-eq-fetched (types >> required) _ e in
      let (u2, e1, e2) = >>=-eq-fetched types _ both in (checked-eq resp _ e1, checked-eq resp _ e2)
