-- ===== src/Deployment/Store.antt =====
-- `set_deployment` of env_common/src/logic/api_deployment.rs and `insert_event` of
-- env_common/src/logic/api_event.rs. The sets of keys are lists; `iter_set` is the order in which a
-- HashSet is visited. The members of an item of JSON are the fields of a record.
use Prim.Native.String.{◌++◌ as str_append}
use infraweave.Prelude.{
  ℕ, Bool, true, false, not, ◌&&◌, Option, none, some, String, List, [], ◌∷◌, ◌++◌, map, eqb,
  difference, if◌then◌else◌, Char, code, push_char,
}
use infraweave.Cloud.{
  Fetched, fetched, fetch_error, Dependent, StoredDeployment, StoredDependent, StoredEvent,
  TransactItem, put_deployment, put_dependent, delete, FunctionCall, transact_write,
  insert_deployment, Ran, ran, run_error, CloudHandler,
}
use infraweave.Cloud
use infraweave.Deployment.Status.{DeploymentResp, Dependency, get_deployment_identifier}
use infraweave.Deployment.Event.{EventData}
use infraweave.Deployment.Sending.{Sent, ok, failed, and_then_send}

abbrev is_colon : Char → Bool
is_colon c = eqb (code c) 58

-- `split("::")`
abbrev pub split_colons : String → List String
split_colons String.[] = "" ∷ []
split_colons (String.◌∷◌ c String.[]) = String.◌∷◌ c String.[] ∷ []
split_colons (String.◌∷◌ c (String.◌∷◌ d s)) =
    let after = split_colons s in
    let within = split_colons (String.◌∷◌ d s) in
    if is_colon c && is_colon d then "" ∷ after else push_char c within

-- `take(2)` of the parts, joined
abbrev pub first_two : List String → String
first_two [] = ""
first_two (a ∷ []) = a
first_two (a ∷ b ∷ rest) = str_append a (str_append "::" b)

-- The key of a deployment that is depended on
abbrev pub dependency_pk : Dependency → String
dependency_pk d =
    str_append "DEPLOYMENT#"
      (get_deployment_identifier d.project_id d.region d.deployment_id d.environment)

-- The key that a dependent has under the deployment that it depends on
abbrev pub dependent_sk : Dependent → String
dependent_sk d =
    str_append "DEPENDENT#"
      (get_deployment_identifier d.project_id d.region d.dependent_id d.environment)

abbrev pub number_of : Bool → ℕ
number_of true = 1
number_of false = 0

module _ {P : Type 0} where
  abbrev pub own_sk : DeploymentResp P → String
  own_sk d =
      str_append "DEPENDENT#"
        (get_deployment_identifier d.project_id d.region d.deployment_id d.environment)

  abbrev pub pk_of : DeploymentResp P → Bool → String
  pk_of d is_plan = str_append (if is_plan then "PLAN" else "DEPLOYMENT") (
      str_append "#"
        (get_deployment_identifier d.project_id d.region d.deployment_id d.environment))

  abbrev pub sk_of : DeploymentResp P → Bool → String
  sk_of d is_plan = if is_plan then d.job_id else "METADATA"

  unfoldable pub get_payload : DeploymentResp P → Bool → StoredDeployment P
  get_payload d is_plan =
      let mark = if d.deleted then "1|" else "0|" in
      let base = get_deployment_identifier d.project_id d.region "" "" in
      let deleted_pk = str_append mark (pk_of d is_plan) in
      record {
        pk = pk_of d is_plan;
        sk = sk_of d is_plan;
        deleted_pk = deleted_pk;
        deleted_pk_base = first_two (split_colons deleted_pk);
        deleted_sk_base = str_append mark (str_append (sk_of d is_plan) (str_append "#" base));
        module_pk_base = str_append "MODULE#" (str_append base (str_append "#" d.module_name));
        deployment = d;
        deleted = number_of d.deleted;
      }

  abbrev pub delete_dependent : StoredDeployment P → Dependent → TransactItem P
  delete_dependent stored dependent = delete stored.pk (dependent_sk dependent)

  abbrev pub delete_own : DeploymentResp P → String → TransactItem P
  delete_own d dependency_pk = delete dependency_pk (own_sk d)

  abbrev pub put_own : DeploymentResp P → String → TransactItem P
  put_own d dependency_pk = put_dependent (record {
    pk = dependency_pk;
    sk = own_sk d;
    dependent_id = d.deployment_id;
    module_id = d.module_name;
    environment = d.environment;
    project_id = d.project_id;
    region = d.region;
  })

  -- The existing dependencies, none where there is no deployment
  abbrev pub old_dependencies : Option (DeploymentResp P) → List Dependency
  old_dependencies none = []
  old_dependencies (some d) = d.dependencies

  unfoldable pub deletions :
      DeploymentResp P → List Dependency → List Dependent → List (TransactItem P)
  unfolding get_payload
  deletions d existing dependents =
      map (delete_dependent (get_payload d false)) dependents
      ++ map (delete_own d) (map dependency_pk existing)

module _ {P : Type 0} (iter_set : List String → List String) where
  unfoldable pub updates : DeploymentResp P → List Dependency → List (TransactItem P)
  updates d existing =
      let old_set = map dependency_pk existing in
      let new_set = map dependency_pk d.dependencies in
      map (put_own d) (iter_set (difference new_set old_set))
      ++ map (delete_own d) (iter_set (difference old_set new_set))

  unfoldable pub transaction :
      DeploymentResp P → Bool → List Dependency → List Dependent → List (TransactItem P)
  unfolding get_payload deletions updates
  transaction d is_plan existing dependents =
      put_deployment (get_payload d is_plan)
      ∷ (if is_plan
          then []
          else if d.deleted
          then deletions d existing dependents
          else updates d existing)

abbrev pub update_error : String → String
update_error e = str_append "Failed to update deployment: " e

module _ {S : Type 0} where
  abbrev pub updated : Ran S → Sent S
  updated (ran payload t) = ok t
  updated (run_error e t) = failed t (update_error e)

  abbrev pub inserted_event : Ran S → Sent S
  inserted_event (ran payload t) = ok t
  inserted_event (run_error e t) = failed t (str_append "Failed to insert event: " e)

module _ {P S : Type 0} (iter_set : List String → List String) (handler : CloudHandler P S) where
  -- A plan that has drifted also marks the deployment.
  abbrev pub mark_drifted : DeploymentResp P → Bool → S → Sent S
  mark_drifted d is_plan t =
      if is_plan && d.has_drifted
      then updated (handler.run_function (insert_deployment (get_payload d false)) t)
      else ok t

  abbrev pub commit :
      DeploymentResp P → Bool → S → List Dependency → Fetched (List Dependent) → Sent S
  commit d is_plan s existing (fetch_error e) = failed s e
  commit d is_plan s existing (fetched dependents) =
      and_then_send
        (updated (
          handler.run_function (transact_write (transaction iter_set d is_plan existing dependents))
            s))
        (mark_drifted d is_plan)

  -- Dependents are read only where a deployment is deleted.
  abbrev pub fetch_dependents : DeploymentResp P → Bool → S → Fetched (List Dependent)
  fetch_dependents d is_plan s =
      if not is_plan && d.deleted
      then handler.get_dependents d.deployment_id d.environment s
      else fetched []

  abbrev pub with_existing :
      DeploymentResp P → Bool → S → Fetched (Option (DeploymentResp P)) → Sent S
  with_existing d is_plan s (fetch_error e) =
      failed s (str_append "Failed to get deployment to find dependents: " e)
  with_existing d is_plan s (fetched old) =
      commit d is_plan s (old_dependencies old) (fetch_dependents d is_plan s)

  unfoldable pub set_deployment : DeploymentResp P → Bool → S → Sent S
  unfolding transaction get_payload
  set_deployment d is_plan s =
      with_existing d is_plan s (handler.get_deployment d.deployment_id d.environment false s)

module _ {P S : Type 0} (show_number : ℕ → String) (handler : CloudHandler P S) where
  unfoldable pub event_item : ℕ → EventData P → StoredEvent P
  event_item epoch event = record {
    pk = str_append "EVENT#" (
        str_append event.project_id (
          str_append "::" (
            str_append event.region (
              str_append "::"
                (str_append event.environment (str_append "::" event.deployment_id))))));
    sk = show_number epoch;
    pk_base_region = str_append "EVENT#" event.region;
    event = event;
  }

  unfoldable pub insert_event : ℕ → EventData P → S → Sent S
  unfolding event_item
  insert_event epoch event s =
      inserted_event (handler.run_function (Cloud.insert_event (event_item epoch event)) s)
