-- ===== src/InternalApi/Authz.antt =====
-- internal-api/src/http_authz.rs, with the keys and lists of auth_handler.rs that it asks for.
use infraweave.Prelude.{
  Bool, true, Option, none, some, String, List, [], ◌∷◌, ◌==◌, contains, concat, split_at,
  strip_prefix, trim, if◌then◌else◌,
}
use infraweave.Json.{Value, get, as_str, is_some, unwrap_or, ◌>>=◌}
use infraweave.InternalApi.{
  HeaderMap, header, Params, param, Settings, Access, granted, denied, ◌>>◌, comma_list,
}

module _ (settings : Settings) where
  abbrev pub extract_verified_claims : HeaderMap → Option Value
  extract_verified_claims headers = do
    claims_header ← header "x-infraweave-verified-claims" headers
    settings.decode_claims claims_header

  abbrev pub bearer_token : String → Option String
  bearer_token auth_header = elim (strip_prefix auth_header "Bearer ") [
    | some token ↦ some token
    | none ↦ strip_prefix auth_header "bearer "
  ]

  -- The payload of a token of three parts
  abbrev pub decode_parts : List String → Option Value
  decode_parts (head ∷ payload ∷ signature ∷ []) = settings.decode_claims payload
  decode_parts _ = none

  abbrev pub extract_token_claims : HeaderMap → Option Value
  extract_token_claims headers = do
    auth_header ← header "authorization" headers
    token ← bearer_token auth_header
    decode_parts (split_at 46 token)

  unfoldable pub extract_jwt_claims : HeaderMap → Option Value
  extract_jwt_claims headers = elim (extract_verified_claims headers) [
    | some claims ↦ some claims
    | none ↦ extract_token_claims headers
  ]

  abbrev pub allowed_projects_claim_key : String
  allowed_projects_claim_key =
      unwrap_or settings.auth_allowed_projects_claim "custom:allowed_projects"

  abbrev scope_of : String → Option (List String)
  scope_of trimmed =
      if trimmed == "" then none else if trimmed == "*" then none else some (comma_list trimmed)

  -- none where every project is allowed
  abbrev pub local_allowed_projects : Option (List String)
  local_allowed_projects = do v ← settings.local_allowed_projects; scope_of (trim v)

  abbrev pub local_project_allowed : String → Bool
  local_project_allowed project_id = elim local_allowed_projects [
    | none ↦ true
    | some list ↦ contains list project_id
  ]

  -- The list of the claim, if the token has one that is a text
  abbrev pub allowed_projects_of : HeaderMap → Option String
  allowed_projects_of headers = do
    claims ← extract_jwt_claims headers
    claim ← get claims allowed_projects_claim_key
    as_str claim

  abbrev pub access_by_claim : Option String → String → Access
  access_by_claim none project_id =
      denied 403 "Access denied: no allowed_projects claim found in token"
  access_by_claim (some allowed_projects_str) project_id =
      if contains (comma_list allowed_projects_str) project_id
      then granted
      else denied 403 "Access denied to this project"

  abbrev pub access_without_user : String → Access
  access_without_user project_id =
      if settings.is_local
      then if local_project_allowed project_id
        then granted
        else denied 403 "Access denied: project not in LOCAL_ALLOWED_PROJECTS"
      else denied 401 "Missing authentication user context"

  unfoldable pub ensure_access : HeaderMap → String → Access
  ensure_access headers project_id =
      if is_some (header "x-auth-user" headers)
      then access_by_claim (allowed_projects_of headers) project_id
      else access_without_user project_id

  unfoldable pub ensure_authenticated_user : HeaderMap → Access
  ensure_authenticated_user headers =
      if is_some (header "x-auth-user" headers)
      then granted
      else if settings.is_local
      then granted
      else denied 401 "Missing authentication user context"

  abbrev pub ensure_projects : HeaderMap → List String → Access
  ensure_projects headers [] = granted
  ensure_projects headers (project ∷ projects) =
      let rest = ensure_projects headers projects in
      if trim project == "" then rest else ensure_access headers (trim project) >> rest

  abbrev pub ensure_param : HeaderMap → Option String → Access
  ensure_param headers none = granted
  ensure_param headers (some project_param) = ensure_projects headers (split_at 44 project_param)

  -- granted where the request goes on to its handler
  unfoldable pub auth_middleware : HeaderMap → Params → Access
  auth_middleware headers params =
      ensure_authenticated_user headers >> ensure_param headers (param "project" params)

  abbrev resource_desc : String → String → Option String → String
  resource_desc resource_type resource_name none = concat (resource_type ∷ "/" ∷ resource_name ∷ [])
  resource_desc resource_type resource_name (some track) =
      concat (resource_type ∷ "/" ∷ resource_name ∷ "/" ∷ track ∷ [])

  abbrev denied_publish : String → Access
  denied_publish desc = denied 403 (
      concat (
        "You do not have permission to publish " ∷ desc
        ∷ ". Configure AUTH_PUBLISH_REGO_POLICY_PARAMETER with the Rego publish policy." ∷ []))

  -- `check_publish` of publish_auth is the first argument.
  unfoldable pub ensure_publish_access :
      (Value → String → String → Option String → Bool)
      → HeaderMap
      → String
      → String
      → Option String
      → Access
  ensure_publish_access check_publish headers resource_type resource_name track =
      elim (extract_verified_claims headers) [
        | some claims ↦
            if check_publish claims resource_type resource_name track
            then granted
            else denied_publish (resource_desc resource_type resource_name track)
        | none ↦
            if settings.is_local then granted else denied 401 "Missing authentication user context"
      ]
