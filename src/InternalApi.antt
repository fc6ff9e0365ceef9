-- ===== src/InternalApi.antt =====
-- internal-api/src: who may use the API. What it runs with is a record.
pub mod Authz
pub mod Identity
pub mod Publish
pub mod Granted
mod Tests
use infraweave.Prelude.{
  ℕ, Bool, true, false, Option, none, some, String, List, [], ◌∷◌, ◌==◌, trim, split_at,
  if◌then◌else◌,
}
use infraweave.Json.{Value}

-- `HeaderMap`: the value is none where it is no text, which `to_str` refuses.
abbrev pub HeaderMap : Type 0
HeaderMap = List (String × Option String)

-- `headers.get(name).and_then(|v| v.to_str().ok())`
abbrev pub header : String → HeaderMap → Option String
header name [] = none
header name ((n, value) ∷ headers) = if n == name then value else header name headers

-- The captures of a route
abbrev pub Params : Type 0
Params = List (String × String)

abbrev pub param : String → Params → Option String
param name [] = none
param name ((n, value) ∷ params) = if n == name then some value else param name params

-- The feature `local`, the environment variables, and base64 with the parser of JSON
pub record Settings : Type 0 where
  pub is_local : Bool
  pub auth_allowed_projects_claim : Option String
  pub local_allowed_projects : Option String
  pub decode_claims : String → Option Value

-- `Ok(())` or the status and the message of an error
pub data Access : Type 0 where
  granted : Access
  denied : ℕ → String → Access

infixl 5 ◌>>◌
abbrev pub ◌>>◌ : Access → Access → Access
granted >> a = a
denied status error >> a = denied status error

-- The texts between commas, trimmed, without the empty ones
abbrev pub not_empty : List String → List String
not_empty [] = []
not_empty (part ∷ parts) =
    let rest = not_empty parts in if trim part == "" then rest else trim part ∷ rest

abbrev pub comma_list : String → List String
comma_list text = not_empty (split_at 44 text)
