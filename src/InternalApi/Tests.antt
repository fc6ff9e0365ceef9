-- ===== src/InternalApi/Tests.antt =====
-- Runs of the authorization of internal-api, and the example of its theorem.
use infraweave.Prelude.{◌≡◌, refl, ◌↔◌, ℕ, true, false, none, some, [], ◌∷◌, ◌==◌, if◌then◌else◌}
use infraweave.Json.{Value, string, bool, object, end, field, insert_key}
use infraweave.Cloud.{fetched}
use infraweave.InternalApi.{HeaderMap, Params, param, Settings, granted, denied}
use infraweave.InternalApi.Authz.{
  extract_jwt_claims, ensure_access, ensure_authenticated_user, auth_middleware,
}
use infraweave.InternalApi.Identity.{
  detect, workflow_name_from_claims, extract_github, publish_rego_input,
}
use infraweave.InternalApi.Publish.{
  CachedPolicy, PublishSettings, cached_policy, cache_policy, publish_rego_policy, check_publish,
}
use infraweave.InternalApi.Granted.{IsAuthenticated, AllProjects, MayUse, auth_middleware-MayUse}

-- The payload `ab` is a claim for the projects a and b.
abbrev settings : Settings
settings = record {
  is_local = false;
  auth_allowed_projects_claim = none;
  local_allowed_projects = none;
  decode_claims = λ text.
      if text == "ab"
      then some (object (field "custom:allowed_projects" (string "a, b") end))
      else none;
}

abbrev headers : HeaderMap
headers = ("x-auth-user", some "me") ∷ ("authorization", some "Bearer x.ab.y") ∷ []

abbrev both : Params
both = ("project", "b, ,a") ∷ []

both_projects : auth_middleware settings headers both ≡ granted
unfolding auth_middleware ensure_authenticated_user ensure_access extract_jwt_claims
both_projects = refl

other_project :
    auth_middleware settings headers (("project", "a,c") ∷ [])
    ≡ denied 403 "Access denied to this project"
unfolding auth_middleware ensure_authenticated_user ensure_access extract_jwt_claims
other_project = refl

no_user : auth_middleware settings [] both ≡ denied 401 "Missing authentication user context"
unfolding auth_middleware ensure_authenticated_user
no_user = refl

auth_middleware-MayUse_example : (auth_middleware settings headers both ≡ granted) ↔ (
    IsAuthenticated settings headers
    × AllProjects settings headers (MayUse settings headers) (param "project" both))
auth_middleware-MayUse_example = auth_middleware-MayUse settings headers both

abbrev github_claims : Value
github_claims = object (
    field "iss" (string "https://token.actions.githubusercontent.com") (
      field "job_workflow_ref" (string "o/r/.github/workflows/publish-x.yml@refs/heads/main")
        (field "repository" (string "o/r") (field "sub" (string "repo:o/r:ref:refs/heads/f") end))))

extract_github_repository :
    extract_github github_claims
    ≡ some (
        field "issuer" (string "https://token.actions.githubusercontent.com") (
          field "ref" (string "refs/heads/f") (
            field "repository" (string "o/r") (
              field "repository_name" (string "r") (
                field "repository_owner" (string "o") (
                  field "workflow_name" (string "publish-x") (
                    field "workflow_ref"
                      (string "o/r/.github/workflows/publish-x.yml@refs/heads/main")
                      end)))))))
unfolding extract_github workflow_name_from_claims insert_key
extract_github_repository = refl

abbrev publish_settings : PublishSettings
publish_settings = record {
  policy_parameter = some "p";
  cache_ttl_seconds = none;
  read_config_parameter = λ name. fetched "allow";
  eval_allow = λ policy input. fetched (some (bool true));
}

abbrev policy_at : ℕ → CachedPolicy
policy_at t = record { parameter_name = "p"; policy = "allow"; expires_at = t }

check_publish_and_cache :
    check_publish publish_settings 7 9 none github_claims "module" "x" (some "dev")
    ≡ (true, some (policy_at 300009))
unfolding check_publish publish_rego_policy cached_policy cache_policy detect extract_github
    publish_rego_input workflow_name_from_claims
check_publish_and_cache = refl
