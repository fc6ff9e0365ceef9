-- ===== src/Stack/Sound.antt =====
-- What the checks on the claims of a stack in env_common/src/logic/api_stack.rs accept.
pub mod Names
pub mod Edges
pub mod Accepted
use infraweave.Prelude.{
  ◌≡◌, refl, sym, ap, ◌∙◌, ◌⊎◌, inl, inr, Bool, true, false, not, ◌&&◌, ◌||◌, Option, none, some,
  String, List, [], ◌∷◌, ◌++◌, ◌==◌, eq_iff, arith, All, Bool-cases, Option-cases, and_true,
  contains, codes, subst,
}
use infraweave.Json.{Value, is_some}
use infraweave.Json.Keys.{convert_first_level_keys_to_snake_case}
use infraweave.Cloud.{ModuleResp}
use infraweave.Variables.{
  Verified, verified, refused, panicked, verify_variable_claim_casing,
  verify_variable_existence_and_type,
}
use infraweave.Infra.Manifest.{DeploymentManifest}
use infraweave.Stack.Claims.{
  StackError, module_version_not_set, validation_error, stack_module_namespace_is_set, Validated,
  valid, invalid, panic, ◌and_then◌, of_verified, unless, Reference, matches_claim_name,
  is_stack_variable, exports, any_output, any_variable, StackCrates, json_of,
}
use infraweave.Stack.Validate.{
  Claims, claim_module, deps_of, reference_error, check_references, check_all_deps, is_edge,
  check_variables, validate_stack_module_claim_name, validate_stack_module_claim_region_is_na,
  check_claim, check_claims, found_deps,
}

-- Inversion of two checks that both pass
pub and_then-valid : (a b : Validated) → (a and_then b) ≡ valid → (a ≡ valid) × (b ≡ valid)
and_then-valid valid b h = (refl, h)
and_then-valid (invalid e) b h = cc
and_then-valid panic b h = cc

five_valid :
    (a b c d e : Validated)
    → (a and_then b and_then c and_then d and_then e) ≡ valid
    → (a ≡ valid) × (b ≡ valid) × (c ≡ valid) × (d ≡ valid) × (e ≡ valid)
five_valid a b c d e h =
    let (h4, he) = and_then-valid (a and_then b and_then c and_then d) e h in
    let (h3, hd) = and_then-valid (a and_then b and_then c) d h4 in
    let (h2, hc) = and_then-valid (a and_then b) c h3 in
    let (ha, hb) = and_then-valid a b h2 in (ha, hb, hc, hd, he)

unless-valid : (b : Bool) (e : StackError) → unless b e ≡ valid → b ≡ false
unless-valid true e h = cc
unless-valid false e h = refl

of_verified-verified : (v : Verified) → of_verified v ≡ valid → v ≡ verified
of_verified-verified verified h = refl
of_verified-verified (refused e) h = cc
of_verified-verified panicked h = cc

not-false : (b : Bool) → not b ≡ false → b ≡ true
not-false true h = refl
not-false false h = cc

absurd_of_true : {A : Type 0} → false ≡ true → A
absurd_of_true h = cc

module _ {Y : Type 0} (crates : StackCrates Y) where
  -- A claim that may stand in a stack
  pub record IsStackClaim (claim : DeploymentManifest Y) (m : ModuleResp) : Type 0 where
    pub variables : Value
    pub read : json_of crates claim.variables ≡ some variables
    pub in_camel_case :
        verify_variable_claim_casing crates.to_camel_case claim.name variables ≡ verified
    pub declared :
        verify_variable_existence_and_type crates.is_reference m
          (convert_first_level_keys_to_snake_case crates.to_snake_case variables)
        ≡ verified
    pub versioned : is_some claim.module_version ≡ true
    pub named : matches_claim_name (codes claim.name) ≡ true
    pub anywhere : (crates.to_uppercase claim.region == "N/A") ≡ true
    pub no_namespace : is_some claim.namespace ≡ false

  -- `P` of each claim and its module
  abbrev pub AllClaims : (DeploymentManifest Y → ModuleResp → Type 0) → Claims crates → Type 0
  AllClaims P [] = Unit
  AllClaims P ((claim, m) ∷ claims) = P claim m × AllClaims P claims

  -- A claim has that name, and its module has that kind, with an output or variable of that name.
  abbrev pub IsExported : Reference → Claims crates → Type 0
  IsExported r [] = ⊥
  IsExported r ((claim, m) ∷ claims) =
      ((claim.name ≡ r.claim)
        × (m.module_name ≡ r.kind)
        × ((any_output r.field m.tf_outputs || any_variable r.field m.tf_variables) ≡ true))
      ⊎ IsExported r claims

  -- A reference is to a variable of the stack, or to what another claim exports.
  abbrev pub IsResolved : Claims crates → DeploymentManifest Y → Reference → Type 0
  IsResolved claims claim r =
      (is_stack_variable r ≡ true)
      ⊎ (IsExported r claims × ((claim.name == r.claim && claim.kind == r.kind) ≡ false))

  AreVariables : DeploymentManifest Y → ModuleResp → Option Value → Type 0
  AreVariables claim m o =
      (variables : Value) × (o ≡ some variables)
      × (verify_variable_claim_casing crates.to_camel_case claim.name variables ≡ verified)
      × (verify_variable_existence_and_type crates.is_reference m
            (convert_first_level_keys_to_snake_case crates.to_snake_case variables)
          ≡ verified)

  check_variables-AreVariables :
      (claim : DeploymentManifest Y) (m : ModuleResp) (o : Option Value)
      → check_variables crates claim m o ≡ valid
      → AreVariables claim m o
  unfolding AreVariables
  check_variables-AreVariables claim m none h = cc
  check_variables-AreVariables claim m (some v) h =
      let (a, b) =
        and_then-valid
          (of_verified (verify_variable_claim_casing crates.to_camel_case claim.name v))
          (of_verified (
            verify_variable_existence_and_type crates.is_reference m
              (convert_first_level_keys_to_snake_case crates.to_snake_case v)))
          h in
      (v, refl, of_verified-verified _ a, of_verified-verified _ b)

  check_claim-IsStackClaim :
      (claim : DeploymentManifest Y) (m : ModuleResp)
      → check_claim crates claim m ≡ valid
      → IsStackClaim claim m
  unfolding AreVariables
  check_claim-IsStackClaim claim m h =
      let (v, k, n, r, s) =
        five_valid (check_variables crates claim m (json_of crates claim.variables))
          (unless (not (is_some claim.module_version)) (module_version_not_set claim.name))
          (validate_stack_module_claim_name crates claim)
          (validate_stack_module_claim_region_is_na crates claim)
          (unless (is_some claim.namespace) (stack_module_namespace_is_set claim.name)) h in
      let (variables, read, cased, declared) =
        check_variables-AreVariables claim m (json_of crates claim.variables) v in
      record {
        variables = variables;
        read = read;
        in_camel_case = cased;
        declared = declared;
        versioned = not-false _ (unless-valid _ _ k);
        named = not-false _ (unless-valid _ _ n);
        anywhere = not-false _ (unless-valid _ _ r);
        no_namespace = unless-valid _ _ s;
      }

  pub check_claims-IsStackClaim :
      (claims : Claims crates) → check_claims crates claims ≡ valid → AllClaims IsStackClaim claims
  check_claims-IsStackClaim [] h = tt
  check_claims-IsStackClaim ((claim, m) ∷ claims) h =
      let (a, b) = and_then-valid (check_claim crates claim m) (check_claims crates claims) h in
      (check_claim-IsStackClaim claim m a, check_claims-IsStackClaim claims b)

  -- The three cases of the map of modules
  claim_module-later :
      (name : String) (claim : DeploymentManifest Y) (m : ModuleResp) (claims : Claims crates)
      (later : ModuleResp)
      → claim_module crates name claims ≡ some later
      → claim_module crates name ((claim, m) ∷ claims) ≡ some later
  claim_module-later name claim m claims later e = rw e refl

  claim_module-here :
      (name : String) (claim : DeploymentManifest Y) (m : ModuleResp) (claims : Claims crates)
      → claim_module crates name claims ≡ none
      → (claim.name == name) ≡ true
      → claim_module crates name ((claim, m) ∷ claims) ≡ some m
  claim_module-here name claim m claims e s = rw (e, s) refl

  claim_module-absent :
      (name : String) (claim : DeploymentManifest Y) (m : ModuleResp) (claims : Claims crates)
      → claim_module crates name claims ≡ none
      → (claim.name == name) ≡ false
      → claim_module crates name ((claim, m) ∷ claims) ≡ none
  claim_module-absent name claim m claims e s = rw (e, s) refl

  claim_module-IsExported :
      (r : Reference) (claims : Claims crates)
      → exports r.kind r.field (claim_module crates r.claim claims) ≡ true
      → IsExported r claims
  claim_module-IsExported r [] h = ground (arith, h)
  claim_module-IsExported r ((claim, m) ∷ claims) h =
      elim (Option-cases (claim_module crates r.claim claims)) [
        | inr (later, e) ↦ inr (
            claim_module-IsExported r claims (
              ap (exports r.kind r.field)
                (e ∙ sym (claim_module-later r.claim claim m claims later e))
              ∙ h))
        | inl e ↦ elim (Bool-cases (claim.name == r.claim)) [
          | inl s ↦
              let (x, k) =
                and_true (any_output r.field m.tf_outputs || any_variable r.field m.tf_variables)
                  (m.module_name == r.kind)
                  (ap (exports r.kind r.field) (sym (claim_module-here r.claim claim m claims e s))
                    ∙ h) in
              inl ((eq_iff claim.name r.claim).0 s, (eq_iff m.module_name r.kind).0 k, x)
          | inr s ↦ absurd_of_true (
              ap (exports r.kind r.field) (sym (claim_module-absent r.claim claim m claims e s))
              ∙ h)
        ]
      ]

  reference_error-IsResolved :
      (claims : Claims crates) (claim : DeploymentManifest Y) (r : Reference)
      → reference_error crates claims claim r ≡ valid
      → IsResolved claims claim r
  reference_error-IsResolved claims claim r h = elim (Bool-cases (is_stack_variable r)) [
    | inl e ↦ inl e
    | inr e ↦ elim (Bool-cases (claim.name == r.claim && claim.kind == r.kind)) [
      | inl s ↦ ground (arith, h, e, s)
      | inr s ↦ elim (Bool-cases (exports r.kind r.field (claim_module crates r.claim claims))) [
        | inl x ↦ inr (claim_module-IsExported r claims x, s)
        | inr x ↦ ground (arith, h, e, s, x)
      ]
    ]
  ]

  pub check_references-IsResolved :
      (claims : Claims crates) (claim : DeploymentManifest Y) (rs : List Reference)
      → check_references crates claims claim rs ≡ valid
      → All (IsResolved claims claim) rs
  check_references-IsResolved claims claim [] h = tt
  check_references-IsResolved claims claim (r ∷ rs) h =
      let (a, b) =
        and_then-valid (reference_error crates claims claim r)
          (check_references crates claims claim rs) h in
      (reference_error-IsResolved claims claim r a, check_references-IsResolved claims claim rs b)
