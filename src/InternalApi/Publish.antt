-- ===== src/InternalApi/Publish.antt =====
-- internal-api/src/publish_auth/mod.rs: the decision of the policy, and its cache. The engine of Rego, the
-- parameter store and the clock are arguments; a time is in milliseconds.
use infraweave.Prelude.{
  ℕ, ◌+◌, ◌*◌, Bool, false, ◌&&◌, Option, none, some, String, ◌==◌, ltb, trim, concat, [], ◌∷◌,
  if◌then◌else◌,
}
use infraweave.Json.{Value, bool, unwrap_or, Fields}
use infraweave.Cloud.{Fetched, fetched, fetch_error}
use infraweave.InternalApi.Identity.{IdentityProvider, detect, extract, publish_rego_input}

pub record CachedPolicy : Type 0 where
  pub parameter_name : String
  pub policy : String
  pub expires_at : ℕ

-- What a request runs with: the variables AUTH_PUBLISH_REGO_POLICY_PARAMETER and
-- AUTH_PUBLISH_REGO_POLICY_CACHE_TTL_SECONDS, the latter where it is a number
pub record PublishSettings : Type 0 where
  pub policy_parameter : Option String
  pub cache_ttl_seconds : Option ℕ
  pub read_config_parameter : String → Fetched String
  pub eval_allow : String → Value → Fetched (Option Value)

module _ (settings : PublishSettings) where
  abbrev pub is_fresh : ℕ → String → CachedPolicy → Bool
  is_fresh now parameter_name cached =
      cached.parameter_name == parameter_name && ltb now cached.expires_at

  unfoldable pub cached_policy : ℕ → String → Option CachedPolicy → Option String
  cached_policy now parameter_name none = none
  cached_policy now parameter_name (some cached) =
      if is_fresh now parameter_name cached then some cached.policy else none

  unfoldable pub cache_policy : ℕ → String → String → CachedPolicy
  cache_policy now parameter_name policy = record {
    parameter_name = parameter_name;
    policy = policy;
    expires_at = now + 1000 * unwrap_or settings.cache_ttl_seconds 300;
  }

  abbrev read_policy :
      ℕ → String → Option CachedPolicy → Fetched String → Fetched String × Option CachedPolicy
  read_policy now parameter_name cache (fetch_error e) = (
    fetch_error (
        concat
          ("failed to read publish Rego policy parameter '" ∷ parameter_name ∷ "': " ∷ e ∷ [])),
    cache,
  )
  read_policy now parameter_name cache (fetched policy) =
      if trim policy == ""
      then (
        fetch_error
            (concat ("publish Rego policy parameter '" ∷ parameter_name ∷ "' is empty" ∷ [])),
        cache,
      )
      else (fetched policy, some (cache_policy now parameter_name policy))

  -- The policy, and the cache after it. The clock is read before the policy is, and then again.
  unfoldable pub publish_rego_policy :
      ℕ → ℕ → Option CachedPolicy → Fetched String × Option CachedPolicy
  publish_rego_policy now later cache = elim settings.policy_parameter [
    | none ↦ (fetch_error "AUTH_PUBLISH_REGO_POLICY_PARAMETER must be set", cache)
    | some parameter_name ↦ elim (cached_policy now parameter_name cache) [
      | some policy ↦ (fetched policy, cache)
      | none ↦
          read_policy later parameter_name cache (settings.read_config_parameter parameter_name)
    ]
  ]

  -- The first expression of the first result of the query, which has to be a Boolean
  abbrev decision : Fetched (Option Value) → Bool
  decision (fetched (some (bool allowed))) = allowed
  decision _ = false

  abbrev decide : Fetched String → Value → Bool
  decide (fetched policy) input = decision (settings.eval_allow policy input)
  decide (fetch_error e) input = false

  abbrev check_with :
      ℕ
      → ℕ
      → Option CachedPolicy
      → IdentityProvider
      → Option Fields
      → String
      → String
      → Option String
      → Bool × Option CachedPolicy
  check_with now later cache provider none resource_type resource_name track = (false, cache)
  check_with now later cache provider (some facts) resource_type resource_name track =
      let (policy, after) = publish_rego_policy now later cache in
      (decide policy (publish_rego_input provider facts resource_type resource_name track), after)

  -- Whether it may be published, and the cache after the check. An error counts as no.
  unfoldable pub check_publish :
      ℕ
      → ℕ
      → Option CachedPolicy
      → Value
      → String
      → String
      → Option String
      → Bool × Option CachedPolicy
  check_publish now later cache claims resource_type resource_name track =
      elim settings.policy_parameter [
        | none ↦ (false, cache)
        | some parameter_name ↦
            check_with now later cache (detect claims) (extract (detect claims) claims)
              resource_type resource_name track
      ]
