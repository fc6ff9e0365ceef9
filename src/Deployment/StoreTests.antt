-- ===== src/Deployment/StoreTests.antt =====
-- `set_deployment` of env_common/src/logic/api_deployment.rs on a cloud that is its table of items.
use infraweave.Prelude.{
  ◌&&◌, ◌≡◌, refl, sym, ap, true, false, Option, none, some, String, List, [], ◌∷◌, map, contains,
  arith,
}
use infraweave.Json.{Value, null}
use infraweave.Cloud.{
  Fetched, fetched, Dependent, TransactItem, FunctionCall, transact_write, insert_deployment,
  insert_event, start_runner, Ran, ran, run_error, CloudHandler,
}
use infraweave.Deployment.Status.{DeploymentResp, Dependency, successful}
use infraweave.Deployment.Handler.{minus_one}
use infraweave.Deployment.Sending.{Sent, ok}
use infraweave.Deployment.Store.{
  dependency_pk, dependent_sk, own_sk, pk_of, set_deployment, old_dependencies,
}
use infraweave.Deployment.Items.{Table, apply_items}
use infraweave.Deployment.Dependents.{set_deployment-mirror, set_deployment-deleted}

abbrev network : Dependency
network = record {
  project_id = "p";
  region = "eu";
  deployment_id = "vpc/net";
  environment = "cli/dev";
}

abbrev bucket : DeploymentResp (Unit {0})
bucket = record {
  epoch = 5;
  deployment_id = "s3bucket/b";
  status = successful;
  job_id = "job";
  environment = "cli/dev";
  project_id = "p";
  region = "eu";
  module_name = "s3bucket";
  module_version = "1.0.0";
  module_type = "module";
  module_track = "stable";
  drift_detection = record {
    enabled = false;
    interval = "15m";
    auto_remediate = false;
    webhooks = [];
  };
  next_drift_check_epoch = minus_one;
  has_drifted = false;
  variables = null;
  output = null;
  policy_results = [];
  error_text = "";
  deleted = false;
  dependencies = network ∷ [];
  initiated_by = "user";
  cpu = "1024";
  memory = "2048";
  reference = "";
  tf_resources = none;
}

abbrev reader : Dependent
reader = record { project_id = "p"; region = "eu"; dependent_id = "app/a"; environment = "cli/dev" }

-- A function that is run changes the table by its items.
abbrev run : FunctionCall (Unit {0}) → Table → Ran Table
run (transact_write items) t = ran null (apply_items items t)
run (insert_deployment i) t = ran null t
run (insert_event e) t = ran null t
run (start_runner p) t = ran null t

abbrev cloud : Option (DeploymentResp (Unit {0})) → CloudHandler (Unit {0}) Table
cloud old = record {
  get_project_id = "p";
  get_region = "eu";
  get_user_id = λ t. fetched "user";
  run_function = run;
  get_deployment = λ i e d t. fetched old;
  get_plan_deployment = λ i e j t. fetched none;
  get_dependents = λ i e t. fetched (reader ∷ []);
  get_job_status = λ j t. fetched none;
  get_module_version = λ m k v t. fetched none;
  get_stack_version = λ m k v t. fetched none;
}

abbrev in_order : List String → List String
in_order xs = xs

abbrev table_after : Table → Ran Table → Table
table_after t (ran v u) = u
table_after t (run_error e u) = u

transacts :
    (items : List (TransactItem (Unit {0}))) (s t : Table) (v : Value)
    → run (transact_write items) s ≡ ran v t
    → (pk sk : String) → t pk sk ≡ apply_items items s pk sk
transacts items s t v h pk sk = sym (ap (λ r. table_after s r pk sk) h)

abbrev empty : Table
empty pk sk = false

stored_empty :
    (old : Option (DeploymentResp (Unit {0})))
    → ◌≡◌ {A = Fetched (Option (DeploymentResp (Unit {0})))} (fetched none) (fetched old)
    → false ≡ contains (map dependency_pk (old_dependencies old)) (dependency_pk network)
stored_empty none h = refl
stored_empty (some d) h = ground (arith, h)

abbrev table_of : Sent Table → Table
table_of (ok t) = t
table_of _ = empty

abbrev stored : Table
unfolding set_deployment
stored = table_of (set_deployment in_order (cloud none) bucket false empty)

set_deployment-mirror_example :
    stored (dependency_pk network) (own_sk bucket)
    ≡ contains (map dependency_pk bucket.dependencies) (dependency_pk network)
unfolding set_deployment
set_deployment-mirror_example =
    set_deployment-mirror in_order (cloud none) (λ t. t) (λ xs x. refl) transacts bucket empty
      stored (dependency_pk network) refl stored_empty refl

abbrev gone : DeploymentResp (Unit {0})
gone = record bucket { deleted = true }

abbrev removed : Table
unfolding set_deployment
removed = table_of (set_deployment in_order (cloud (some bucket)) gone false stored)

set_deployment-deleted_example :
    ((contains (dependency_pk network ∷ []) (dependency_pk network)
        && removed (dependency_pk network) (own_sk gone))
      ≡ false)
    × ((contains (dependent_sk reader ∷ []) (dependent_sk reader)
          && removed (pk_of gone false) (dependent_sk reader))
        ≡ false)
unfolding set_deployment
set_deployment-deleted_example =
    set_deployment-deleted in_order (cloud (some bucket)) (λ t. t) (λ xs x. refl) transacts gone
      stored removed (some bucket) (reader ∷ []) (dependency_pk network) (dependent_sk reader) refl
      refl refl refl
