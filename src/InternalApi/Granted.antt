-- ===== src/InternalApi/Granted.antt =====
-- What `auth_middleware` of internal-api/src/http_authz.rs lets through.
use infraweave.Prelude.{
  ℕ, some_inj, ◌≡◌, refl, sym, ap, ◌∙◌, ◌↔◌, ◌⊎◌, inl, inr, Bool, true, false, ◌||◌, Option, none,
  some, String, List, [], ◌∷◌, ◌==◌, eq_iff, arith, All, Bool-cases, Option-cases, contains, map,
  trim, split_at, if◌then◌else◌,
}
use infraweave.Json.{
  Value, null, bool, number, string, array, object, get, as_str, is_some, and_then,
  and_then-eq-some,
}
use infraweave.InternalApi.{
  HeaderMap, header, Params, param, Settings, Access, granted, denied, ◌>>◌, not_empty, comma_list,
}
use infraweave.InternalApi.Authz.{
  extract_jwt_claims, allowed_projects_claim_key, local_project_allowed, allowed_projects_of,
  access_by_claim, access_without_user, ensure_access, ensure_authenticated_user, ensure_projects,
  ensure_param, auth_middleware,
}

>>-granted : (a b : Access) → (a >> b) ≡ granted → (a ≡ granted) × (b ≡ granted)
>>-granted granted b h = (refl, h)
>>-granted (denied status error) b h = cc

>>-both : (a b : Access) → a ≡ granted → b ≡ granted → (a >> b) ≡ granted
>>-both a b h k = rw h k

absurd_of_denied : {A : Type 0} (status : ℕ) (error : String) → denied status error ≡ granted → A
absurd_of_denied status error h = cc

-- A name that is not empty is in a comma list where it is one of the parts, trimmed.
not_empty-contains :
    (parts : List String) (name : String)
    → (name == "") ≡ false
    → contains (not_empty parts) name ≡ contains (map trim parts) name
not_empty-contains [] name h = refl
not_empty-contains (part ∷ parts) name h = ground (
  arith,
  h,
  not_empty-contains parts name h,
  eq_iff (trim part) "",
  eq_iff (trim part) name,
  eq_iff name "",
)

as_str-string : (v : Value) (text : String) → as_str v ≡ some text → v ≡ string text
as_str-string (string s) text h = ap string (some_inj.0 h)
as_str-string null text h = cc
as_str-string (bool b) text h = cc
as_str-string (number n) text h = cc
as_str-string (array xs) text h = cc
as_str-string (object fs) text h = cc

granted_if :
    (b : Bool) (status : ℕ) (error : String)
    → (if b then granted else denied status error) ≡ granted
    → b ≡ true
granted_if true status error h = refl
granted_if false status error h = cc

module _ (settings : Settings) (headers : HeaderMap) where
  -- The claim of the token is a text that names the project between commas.
  abbrev pub IsNamed : String → Type 0
  IsNamed project =
      (claims : Value) × (text : String) × (extract_jwt_claims settings headers ≡ some claims)
      × (get claims (allowed_projects_claim_key settings) ≡ some (string text))
      × (contains (map trim (split_at 44 text)) project ≡ true)

  -- The projects of the request that are not empty, each with the property
  abbrev pub AllProjects : (String → Type 0) → Option String → Type 0
  AllProjects P none = Unit
  AllProjects P (some text) =
      All (λ part. (trim part == "") ≡ false → P (trim part)) (split_at 44 text)

  allowed_projects_of-some :
      (text : String)
      → allowed_projects_of settings headers ≡ some text
      → (claims : Value) × (extract_jwt_claims settings headers ≡ some claims)
        × (get claims (allowed_projects_claim_key settings) ≡ some (string text))
  allowed_projects_of-some text h =
      let (claims, e, f) =
        and_then-eq-some (extract_jwt_claims settings headers)
          (λ claims.
            and_then (get claims (allowed_projects_claim_key settings)) (λ claim. as_str claim))
          h in
      let (claim, g, k) =
        and_then-eq-some (get claims (allowed_projects_claim_key settings)) (λ claim. as_str claim)
          f in
      (claims, e, g ∙ ap some (as_str-string claim text k))

  access_by_claim-IsNamed :
      (project : String)
      → (project == "") ≡ false
      → access_by_claim settings (allowed_projects_of settings headers) project ≡ granted
      → IsNamed project
  access_by_claim-IsNamed project p h = elim (Option-cases (allowed_projects_of settings headers)) [
    | inl e ↦ absurd_of_denied _ _ (sym (ap (λ o. access_by_claim settings o project) e) ∙ h)
    | inr (text, e) ↦
        let (claims, f, g) = allowed_projects_of-some text e in
        (
          claims,
          text,
          f,
          g,
          sym (not_empty-contains (split_at 44 text) project p)
              ∙ granted_if (contains (comma_list text) project) 403 "Access denied to this project"
                  (sym (ap (λ o. access_by_claim settings o project) e) ∙ h),
        )
  ]

  IsNamed-access_by_claim :
      (project : String)
      → (project == "") ≡ false
      → IsNamed project
      → access_by_claim settings (allowed_projects_of settings headers) project ≡ granted
  IsNamed-access_by_claim project p (claims, text, e, g, c) =
      rw (e, g, not_empty-contains (split_at 44 text) project p, c) refl

  local_granted :
      (project : String)
      → access_without_user settings project ≡ granted
      → (settings.is_local ≡ true) × (local_project_allowed settings project ≡ true)
  local_granted project h = elim (Bool-cases settings.is_local) [
    | inl l ↦ (
      l,
      granted_if (local_project_allowed settings project) 403
          "Access denied: project not in LOCAL_ALLOWED_PROJECTS" (sym (rw l refl) ∙ h),
    )
    | inr l ↦ absurd_of_denied 401 "Missing authentication user context" (sym (rw l refl) ∙ h)
  ]

  -- A user whose claim names the project; or, in a local build, no user and a project that is allowed.
  abbrev pub MayUse : String → Type 0
  MayUse project =
      ((is_some (header "x-auth-user" headers) ≡ true) × IsNamed project)
      ⊎ ((is_some (header "x-auth-user" headers) ≡ false)
          × (settings.is_local ≡ true)
          × (local_project_allowed settings project ≡ true))

  ensure_access-MayUse :
      (project : String)
      → (project == "") ≡ false
      → (ensure_access settings headers project ≡ granted) ↔ MayUse project
  unfolding ensure_access
  ensure_access-MayUse project p = elim (Bool-cases (is_some (header "x-auth-user" headers))) [
    | inl e ↦ (
      (λ h. inl (e, access_by_claim-IsNamed project p (sym (rw e refl) ∙ h))),
      (λ x. elim x [
        | inl (u, n) ↦ rw e (IsNamed-access_by_claim project p n)
        | inr (u, l, a) ↦ ground (arith, e, u)
      ]),
    )
    | inr e ↦ (
      (λ h. let (l, a) = local_granted project (sym (rw e refl) ∙ h) in inr (e, l, a)),
      (λ x. elim x [ inl (u, n) ↦ ground (arith, e, u) | inr (u, l, a) ↦ rw (e, l, a) refl ]),
    )
  ]

  ensure_projects-MayUse :
      (parts : List String)
      → (ensure_projects settings headers parts ≡ granted)
        ↔ All (λ part. (trim part == "") ≡ false → MayUse (trim part)) parts
  ensure_projects-MayUse [] = ((λ h. tt), (λ x. refl))
  ensure_projects-MayUse (part ∷ parts) = elim (Bool-cases (trim part == "")) [
    | inl e ↦ (
      (λ h. ((λ p. ground (arith, e, p)), (ensure_projects-MayUse parts).0 (sym (rw e refl) ∙ h))),
      (λ x. rw e ((ensure_projects-MayUse parts).1 (x.1))),
    )
    | inr e ↦ (
      (λ h.
          let (a, b) =
            >>-granted (ensure_access settings headers (trim part))
              (ensure_projects settings headers parts) (sym (rw e refl) ∙ h) in
          ((λ p. (ensure_access-MayUse (trim part) p).0 a), (ensure_projects-MayUse parts).0 b)),
      (λ x. rw e (
          >>-both _ _ ((ensure_access-MayUse (trim part) e).1 (x.0 e))
            ((ensure_projects-MayUse parts).1 (x.1)))),
    )
  ]

  ensure_param-MayUse :
      (o : Option String) → (ensure_param settings headers o ≡ granted) ↔ AllProjects MayUse o
  ensure_param-MayUse none = ((λ h. tt), (λ x. refl))
  ensure_param-MayUse (some text) = ensure_projects-MayUse (split_at 44 text)

  -- There is a user, or the build is local.
  abbrev pub IsAuthenticated : Type 0
  IsAuthenticated = (is_some (header "x-auth-user" headers) || settings.is_local) ≡ true

  ensure_authenticated_user-IsAuthenticated :
      (ensure_authenticated_user settings headers ≡ granted) ↔ IsAuthenticated
  unfolding ensure_authenticated_user
  ensure_authenticated_user-IsAuthenticated =
      elim (Bool-cases (is_some (header "x-auth-user" headers))) [
        | inl e ↦ ((λ h. rw e refl), (λ x. rw e refl))
        | inr e ↦ elim (Bool-cases settings.is_local) [
          | inl l ↦ ((λ h. rw (e, l) refl), (λ x. rw (e, l) refl))
          | inr l ↦ (
            (λ h.
                absurd_of_denied 401 "Missing authentication user context"
                  (sym (rw (e, l) refl) ∙ h)),
            (λ x. ground (arith, x, e, l)),
          )
        ]
      ]

  -- A request goes on exactly where there is a user, or the build is local, and each project that its
  -- path names between commas is named, by itself, in the claim of the user's token, or, in a local
  -- build without a user, is allowed there.
  pub auth_middleware-MayUse :
      (params : Params)
      → (auth_middleware settings headers params ≡ granted)
        ↔ (IsAuthenticated × AllProjects MayUse (param "project" params))
  unfolding auth_middleware
  auth_middleware-MayUse params = (
    (λ h.
        let (a, b) =
          >>-granted (ensure_authenticated_user settings headers)
            (ensure_param settings headers (param "project" params)) h in
        (
          ensure_authenticated_user-IsAuthenticated.0 a,
          (ensure_param-MayUse (param "project" params)).0 b,
        )),
    (λ x.
        >>-both _ _ (ensure_authenticated_user-IsAuthenticated.1 (x.0))
          ((ensure_param-MayUse (param "project" params)).1 (x.1))),
  )
