-- ===== src/InternalApi/Identity.antt =====
-- internal-api/src/publish_auth: the facts that identify who publishes, and what the policy is asked.
use infraweave.Prelude.{
  Option, none, some, String, List, [], ◌∷◌, ◌==◌, split_at, split_once, strip_suffix, last_part,
  if◌then◌else◌,
}
use infraweave.Json.{
  Value, string, object, Fields, end, field, insert_key, get, as_str, as_object, unwrap_or, ◌>>=◌,
}

pub data IdentityProvider : Type 0 where
  github_oidc : IdentityProvider
  raw : IdentityProvider

unfoldable pub detect : Value → IdentityProvider
detect claims =
    let issuer = unwrap_or (do iss ← get claims "iss"; as_str iss) "" in
    if issuer == "https://token.actions.githubusercontent.com" then github_oidc else raw

abbrev pub provider_name : IdentityProvider → String
provider_name github_oidc = "github_oidc"
provider_name raw = "raw"

-- The text under a key of the claims
abbrev pub text_claim : Value → String → Option String
text_claim claims key = do claim ← get claims key; as_str claim

abbrev pub copy_claim : Value → String → String → Fields → Fields
copy_claim claims claim_key target_key target = elim (get claims claim_key) [
  | some value ↦ insert_key target_key value target
  | none ↦ target
]

-- The first part of a split, which is never none
abbrev first_part : List String → String
first_part [] = ""
first_part (part ∷ parts) = part

abbrev stem_of : String → String
stem_of file = elim (strip_suffix file ".yml") [
  | some stem ↦ stem
  | none ↦ unwrap_or (strip_suffix file ".yaml") file
]

abbrev some_text : String → Option String
some_text text = if text == "" then none else some text

unfoldable pub workflow_name_from_claims : Value → Option String
workflow_name_from_claims claims = do
  workflow ← text_claim claims "job_workflow_ref"
  some_text (stem_of (last_part (split_at 47 (first_part (split_at 64 workflow)))))

-- The reference of git, from its own claim or from the subject
abbrev pub context_of : Value → Option String
context_of claims = elim (text_claim claims "ref") [
  | some context ↦ some context
  | none ↦ do sub ← text_claim claims "sub"; parts ← split_once sub ":ref:"; some (parts.1)
]

abbrev insert_text : String → Option String → Fields → Fields
insert_text key none facts = facts
insert_text key (some text) facts = insert_key key (string text) facts

abbrev github_facts : Value → String → String → String → Fields
github_facts claims repository owner name = copy_claim claims "environment" "environment" (
    copy_claim claims "job_workflow_ref" "workflow_ref" (
      insert_text "workflow_name" (workflow_name_from_claims claims) (
        insert_text "ref" (context_of claims) (
          insert_key "repository_owner"
            (string (unwrap_or (text_claim claims "repository_owner") owner))
            (insert_key "repository_name" (string name) (
              insert_key "repository" (string repository)
                (copy_claim claims "iss" "issuer" end)))))))

unfoldable pub extract_github : Value → Option Fields
extract_github claims = do
  repository ← text_claim claims "repository"
  parts ← split_once repository "/"
  if parts.1 == "" then none else some (github_facts claims repository parts.0 parts.1)

unfoldable pub extract_raw : Value → Option Fields
extract_raw claims = do
  claims_object ← as_object claims
  some (
      copy_claim claims "email" "email" (
        copy_claim claims "aud" "audience" (
          copy_claim claims "sub" "subject"
            (copy_claim claims "iss" "issuer" (insert_key "claims" (object claims_object) end)))))

abbrev pub extract : IdentityProvider → Value → Option Fields
extract github_oidc claims = extract_github claims
extract raw claims = extract_raw claims

-- `Map::extend`
abbrev extend : Fields → Fields → Fields
extend map end = map
extend map (field key value rest) = extend (insert_key key value map) rest

unfoldable pub publish_rego_input :
    IdentityProvider → Fields → String → String → Option String → Value
publish_rego_input provider facts resource_type resource_name track =
    let request = insert_text "track" track (
      insert_key "resource_name" (string resource_name) (
        insert_key "resource_type" (string resource_type)
          (insert_key "action" (string "publish") end))) in
    let identity = extend (insert_key "provider" (string (provider_name provider)) end) facts in
    object (insert_key "request" (object request) (insert_key "identity" (object identity) end))
