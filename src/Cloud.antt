-- ===== src/Cloud.antt =====
-- What the program asks of a cloud: the part of the trait `CloudProvider` of defs/src/cloudprovider.rs
-- that the logic uses, the functions that it runs there (defs/src/events.rs), and the records that
-- these carry. A call reads the state of the cloud, or changes it where it runs a function.
use Prim.Native.String.{◌++◌ as str_append}
use infraweave.Prelude.{ℕ, ◌≡◌, refl, Bool, Option, String, List}
use infraweave.Json.{Value}
use infraweave.Deployment.Status.{ℤ, DriftDetection, Dependency, DeploymentResp}
use infraweave.Deployment.Event.{EventData}

-- A `Result` with the text of its error
pub data Fetched (A : Type 0) : Type 0 where
  fetched : A → Fetched A
  fetch_error : String → Fetched A

infixl 5 ◌>>=◌ ◌>>◌
abbrev pub ◌>>=◌ : {A B : Type 0} → Fetched A → (A → Fetched B) → Fetched B
fetched a >>= f = f a
fetch_error e >>= f = fetch_error e

abbrev pub ◌>>◌ : {B : Type 0} → Fetched (Unit {0}) → Fetched B → Fetched B
m >> k = m >>= λ _. k

-- `map_err`, where the message gets a prefix
abbrev pub or_error : {A : Type 0} → String → Fetched A → Fetched A
or_error prefix (fetched a) = fetched a
or_error prefix (fetch_error e) = fetch_error (str_append prefix e)

-- Inversion of a successful step
pub >>=-eq-fetched :
    {A B : Type 0} (m : Fetched A) (f : A → Fetched B) {b : B}
    → (m >>= f) ≡ fetched b
    → (a : A) × (m ≡ fetched a) × (f a ≡ fetched b)
>>=-eq-fetched (fetched a) f h = (a, refl, h)
>>=-eq-fetched (fetch_error e) f h = cc

pub record TfVariable : Type 0 where
  pub name : String
  pub type_value : Value
  pub default : Option Value
  pub description : String
  pub nullable : Bool
  pub sensitive : Bool

pub record TfOutput : Type 0 where
  pub name : String
  pub value : String
  pub description : String
  pub sensitive : Option Bool

pub record ProviderResp : Type 0 where
  pub name : String
  pub version : String
  pub tf_variables : List TfVariable

-- The fields that the logic below reads
pub record ModuleResp : Type 0 where
  pub track : String
  pub version : String
  pub module_name : String
  pub module_id : String
  pub module_type : String
  pub tf_variables : List TfVariable
  pub tf_outputs : List TfOutput
  pub tf_providers : List ProviderResp
  pub cpu : String
  pub memory : String
  pub deprecated : Bool
  pub deprecated_message : Option String

pub record Dependent : Type 0 where
  pub project_id : String
  pub region : String
  pub dependent_id : String
  pub environment : String

pub record JobStatus : Type 0 where
  pub job_id : String
  pub is_running : Bool

-- `extra_data` is the JSON that it is sent as.
pub record ApiInfraPayload : Type 0 where
  pub command : String
  pub flags : List String
  pub module_id : String
  pub module_version : String
  pub module_type : String
  pub module_track : String
  pub name : String
  pub environment : String
  pub deployment_id : String
  pub project_id : String
  pub region : String
  pub drift_detection : DriftDetection
  pub next_drift_check_epoch : ℤ
  pub annotations : Value
  pub dependencies : List Dependency
  pub initiated_by : String
  pub cpu : String
  pub memory : String
  pub reference : String
  pub extra_data : Value

pub record ApiInfraPayloadWithVariables : Type 0 where
  pub payload : ApiInfraPayload
  pub variables : Value

-- An item of the table of deployments, with the keys of its indices
pub record StoredDeployment (P : Type 0) : Type 0 where
  pub pk : String
  pub sk : String
  pub deleted_pk : String
  pub deleted_pk_base : String
  pub deleted_sk_base : String
  pub module_pk_base : String
  pub deployment : DeploymentResp P
  pub deleted : ℕ

-- An item that says who depends on the deployment of its key
pub record StoredDependent : Type 0 where
  pub pk : String
  pub sk : String
  pub dependent_id : String
  pub module_id : String
  pub environment : String
  pub project_id : String
  pub region : String

pub record StoredEvent (P : Type 0) : Type 0 where
  pub pk : String
  pub sk : String
  pub pk_base_region : String
  pub event : EventData P

-- The items of a transaction, which is done whole or not at all
pub data TransactItem (P : Type 0) : Type 0 where
  put_deployment : StoredDeployment P → TransactItem P
  put_dependent : StoredDependent → TransactItem P
  delete : String → String → TransactItem P

-- The payload of `run_function`
pub data FunctionCall (P : Type 0) : Type 0 where
  transact_write : List (TransactItem P) → FunctionCall P
  insert_deployment : StoredDeployment P → FunctionCall P
  insert_event : StoredEvent P → FunctionCall P
  start_runner : ApiInfraPayload → FunctionCall P

-- The response's payload, or the text of an error
pub data Ran (S : Type 0) : Type 0 where
  ran : Value → S → Ran S
  run_error : String → S → Ran S

pub record CloudHandler (P S : Type 0) : Type 0 where
  pub get_project_id : String
  pub get_region : String
  pub get_user_id : S → Fetched String
  pub run_function : FunctionCall P → S → Ran S
  pub get_deployment : String → String → Bool → S → Fetched (Option (DeploymentResp P))
  pub get_plan_deployment : String → String → String → S → Fetched (Option (DeploymentResp P))
  pub get_dependents : String → String → S → Fetched (List Dependent)
  pub get_job_status : String → S → Fetched (Option JobStatus)
  pub get_module_version : String → String → String → S → Fetched (Option ModuleResp)
  pub get_stack_version : String → String → String → S → Fetched (Option ModuleResp)
