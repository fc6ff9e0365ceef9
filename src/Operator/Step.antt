-- ===== src/Operator/Step.antt =====
-- What the operator (operator/src/operator.rs) works on, the API server of Kubernetes and the cloud, and
-- the steps that it takes: each has an outcome, and the requests that it sent on the way.
use infraweave.Prelude.{
  Bool, true, false, if◌then◌else◌, ℕ, ◌≡◌, refl, Option, String, List, [], ◌++◌, All, append-All,
}
use infraweave.Json.{Value}
use infraweave.Cloud.{Fetched, fetched, fetch_error, CloudHandler}
use infraweave.Deployment.Status.{ℤ}
use infraweave.Infra.Manifest.{Crates, DeploymentManifest}
use infraweave.Infra.Submit.{Clock, HttpMode}
use infraweave.Operator.{Resource, ObjectRef}

pub record World (K S : Type 0) : Type 0 where
  pub cluster : K
  pub cloud : S

-- The answer to a patch, and the state after it
pub data Patched (K : Type 0) : Type 0 where
  patched : K → Patched K
  patch_error : String → K → Patched K

-- The API of the cluster (the crate kube)
pub record Client (K : Type 0) : Type 0 where
  pub get : ObjectRef → K → Fetched Resource
  pub patch_status : ObjectRef → Value → K → Patched K
  pub patch : ObjectRef → Value → K → Patched K

-- `Context`, and with it the crates and the clock. `to_claim` is the YAML of the object with the claim
-- that it reads as, `plan_output` the output in `get_change_record`; `seconds_since` parses a time and
-- gives the whole seconds since then.
pub record Context (Y P K S : Type 0) : Type 0 where
  pub client : Client K
  pub handler : CloudHandler P S
  pub cluster_id : String
  pub mode : Option (HttpMode P S)
  pub crates : Crates Y
  pub iter_set : List String → List String
  pub show_number : ℕ → String
  pub parse_duration : String → Option ℕ
  pub to_claim : Resource → Fetched (Option String × Fetched (DeploymentManifest Y))
  pub read_logs : String → S → Fetched (List String)
  pub plan_output : String → String → String → String → S → Fetched String
  pub clock : World K S → Clock
  pub get_timestamp : World K S → String
  pub get_epoch : World K S → ℕ
  pub epoch_to_timestamp : ℕ → String
  pub seconds_since : String → World K S → Option ℤ

-- `kube::runtime::controller::Action`
pub data Action : Type 0 where
  requeue : ℕ → Action
  await_change : Action

-- What changes the cluster or the cloud: a patch, or `run_claim` with its command
pub data Request : Type 0 where
  status_patch : Value → Request
  metadata_patch : Value → Request
  job : String → Request

pub data Outcome (W A : Type 0) : Type 0 where
  returned : A → W → Outcome W A
  raised : String → W → Outcome W A
  panicked : Outcome W A

pub record Step (W A : Type 0) : Type 0 where
  pub requests : List Request
  pub outcome : Outcome W A

module _ {W : Type 0} where
  unfoldable pub pure : {A : Type 0} → A → W → Step W A
  pure a w = record { requests = []; outcome = returned a w }

  -- `?` on what a step gives
  abbrev pub continue_with :
      {A B : Type 0} → List Request → Outcome W A → (A → W → Step W B) → Step W B
  continue_with sent (returned a w) f =
      let next = f a w in record { requests = sent ++ next.requests; outcome = next.outcome }
  continue_with sent (raised e w) f = record { requests = sent; outcome = raised e w }
  continue_with sent panicked f = record { requests = sent; outcome = panicked }

  infixl 5 ◌>>=◌ ◌>>◌
  unfoldable pub ◌>>=◌ : {A B : Type 0} → (W → Step W A) → (A → W → Step W B) → W → Step W B
  (m >>= f) w = continue_with (m w).requests (m w).outcome f

  abbrev pub ◌>>◌ : {B : Type 0} → (W → Step W (Unit {0})) → (W → Step W B) → W → Step W B
  m >> k = m >>= λ _. k

  unfoldable pub lift_fetched : {A : Type 0} → Fetched A → W → Step W A
  unfolding pure
  lift_fetched (fetched a) w = pure a w
  lift_fetched (fetch_error e) w = record { requests = []; outcome = raised e w }
  -- What holds of every request of both halves holds of every request of a step.

-- `Q` of every request of a step
pub record Sends {W A : Type 0} (Q : Request → Type 0) (step : Step W A) : Type 0 where
  pub all : All Q step.requests

module _ {W : Type 0} (Q : Request → Type 0) where
  pub pure-Sends : {A : Type 0} (a : A) (w : W) → Sends Q (pure a w)
  unfolding pure
  pure-Sends a w = record { all = tt }

  joined :
      {A B : Type 0} (sent : List Request) (o : Outcome W A) (f : A → W → Step W B)
      → All Q sent
      → ((a : A) (v : W) → o ≡ returned a v → Sends Q (f a v))
      → All Q (continue_with sent o f).requests
  joined sent (returned a v) f x y = append-All Q sent (f a v).requests x (y a v refl).all
  joined sent (raised e v) f x y = x
  joined sent panicked f x y = x

  -- What holds of every request of both halves holds of every request of a step.
  pub >>=-Sends :
      {A B : Type 0} (m : W → Step W A) (f : A → W → Step W B) (w : W)
      → Sends Q (m w)
      → ((a : A) (v : W) → (m w).outcome ≡ returned a v → Sends Q (f a v))
      → Sends Q ((m >>= f) w)
  unfolding ◌>>=◌
  >>=-Sends m f w first second = record {
    all = joined (m w).requests (m w).outcome f first.all second;
  }

  -- Split on a test
  pub if-Sends :
      {A : Type 0} (b : Bool) (left right : Step W A)
      → (b ≡ true → Sends Q left)
      → (b ≡ false → Sends Q right)
      → Sends Q (if b then left else right)
  if-Sends true left right x y = x refl
  if-Sends false left right x y = y refl
