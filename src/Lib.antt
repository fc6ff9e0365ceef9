-- ===== src/Lib.antt =====
-- InfraWeave deploys Terraform modules from claims. A claim names a module or a stack of modules; the
-- API checks it, a runner carries out Terraform's plan, and an audit trail of the plan is stored.
--
-- `Prelude` has shared names, tests and lists of texts as sets. `Json` is `serde_json::Value`, with
-- objects as fields in the order of their keys, as the BTreeMap of the crate keeps them.
--
-- `ResourceChange` is defs/src/resource_change.rs, the audit trail, and the list of destructive
-- changes of utils/src/terraform.rs. `Sanitize` has `sanitize_values`, `Dependencies` has
-- `compute_dependency_change`, `Diff` has `diff_values_with_sensitivity` and `Parse` has
-- `from_terraform_json`, `sanitize_resource_changes_from_plan` and `plan_get_destructive_changes`.
-- `Erasure`, `Recorded` and `Secrecy` are about what these disclose. A HashSet of keys is visited in
-- an order that is a parameter; theorems that need it assume that each element is visited.
--
-- `Stack` is the check of the claims of a stack in env_common/src/logic/api_stack.rs: `Claims` and
-- `Validate` have `validate_claim_modules` with the references between claims and the dependency
-- graph, `Graph` says what a cycle is, `Cycle` has `detect_cycle` with the sets and the path that its
-- calls share as one state. The recursion of `dfs` is on fuel, one more than the nodes of the graph:
-- each nested call enters a node that was not visited, and a node outside the graph has no neighbours.
-- `Examples` has `validate_examples` and `Manifest` the checks on the stack itself and the collected
-- variables and outputs. `Sound` and `ExamplesSound` are about what the checks accept. Regular
-- expressions over a text and the conversions of YAML are parameters.
--
-- `Deployment` has `DeploymentStatus` of defs/src/deployment.rs in `Status`, and the status handler of
-- env_common/src/interface/deployment_status_handler.rs in `Handler`, `Sending` and `Event`: the time
-- that `get_epoch` reads is an argument, the parser of durations (crate humantime) and the store
-- behind `set_deployment` and `insert_event` are parameters, policy results are only stored. A u128 or
-- i128 wraps at 2^128.
--
-- `Cloud` is the part of the trait `CloudProvider` (defs/src/cloudprovider.rs) that the logic uses, as
-- a record of functions over a state, with the functions that run there and what they carry.
-- `Deployment.Store` has `set_deployment` of env_common/src/logic/api_deployment.rs and `insert_event`
-- of api_event.rs; `Items` and `Dependents` are about the items that say who depends on whom.
--
-- `Infra` is env_common/src/logic/api_infra.rs: `Names`, `Manifest` and `Claim` check a claim and
-- prepare its payload, `Progress` and `Submit` start its job through the status handler and the store,
-- and `Existing` starts the jobs of a deployment that exists: tearing it down, and its drift checks.
-- `Variables` has the checks of utils/src/variables.rs, `Json.Keys` the keys of utils/src/json.rs,
-- `Version` the tracks of utils/src/versioning.rs and env_common/src/logic/utils.rs, and `Latest`
-- which version may be published, of env_common/src/logic/api_module.rs. What other crates do (case
-- conversion, versions, YAML, regular expressions) is a parameter; HTTP mode is a record of the
-- server's functions.
--
-- `Gitops` is gitops/src/defs.rs and diff.rs, which files a push changes, with git as a parameter;
-- `Groups` is gitops.rs, which claims they apply, rename or delete, and `Reference` describes these
-- without the loop. A HashMap is the list of its values, and the order of its walk a parameter.
--
-- `InternalApi` is the authorization of internal-api/src: `Authz` has http_authz.rs, `Identity` and
-- `Publish` have publish_auth, with the cache of the policy as a state. Base64 with the parser of
-- JSON, the engine of Rego, the parameter store and the clock are parameters, and so is whether the
-- build is local.
--
-- `Redact` is utils/src/redact.rs, on texts by their characters; `Hidden` is about what it hides.
-- `ModuleDiff` is `diff_values` of utils/src/module_diff.rs.
--
-- `Terraform` has `TfInputResolver` of env_common/src/logic/tf_input_resolver.rs in `Resolver` and the
-- assignments and blocks of tf_root_module.rs in `RootModule` and `Block`; the matches of the regular
-- expression, the case conversions and what is an identifier are parameters. `Plain` and `Known` are
-- about these.
--
-- `Operator` is operator/src/operator.rs: `Step` has the cluster, the cloud and the clock as records
-- of functions, and steps that keep the requests they send; `Status` the writes to an object, `Retry`
-- what follows a failed job, `Apply` and `Delete` the two paths, `Reconcile` what the controller
-- calls. The cached object and the one that is read again are two arguments. `Merge` reads a status
-- after a JSON merge patch, `Sent` with its children says which requests a step sends, `Stored`,
-- `Answered`, `Attempt` and `Branches` what is stored and done where patches are answered and merged,
-- and `Safe`, `Retried`, `Skipped`, `Started` and `Released` have what follows. An i64 read from JSON is
-- an integer; the time since a failure and the back-off wrap at 2^64 as in a release build.
--
-- `Tui` has the state records of cli/src/tui/state, one file each: `Events`, `Detail`, `View`,
-- `Search` and `Modal`; `DetailValid`, `ViewValid` and `ModalFilter` are about them. `Derived` has
-- what the views read off their states. What they only store is a type parameter. A u16 saturates
-- at 65535, a usize wraps at 2^64, and an index out of range, which panics, is `none`. `Input`,
-- `InputCheck` and `InputValid` are the fields of the claim builder, with its text as characters
-- and its cursor in bytes; the Unicode tables for letter case and digits and the parsers of numbers
-- and JSON are parameters. The form is not modelled.
--
-- What is not modelled: the printer of the audit trail, the generation of HCL and the upload of
-- modules and stacks, the webhooks of GitHub, the routes of the API, and the parts of the program
-- around these (cloud SDKs, the watchers of the operator, the runner, the drawing of the user
-- interfaces).
pub mod Prelude
pub mod Json
pub mod ResourceChange
pub mod Stack
pub mod Tui
pub mod Deployment
pub mod Cloud
pub mod Version
pub mod Variables
pub mod Infra
pub mod Gitops
pub mod InternalApi
pub mod Redact
pub mod ModuleDiff
pub mod Operator
pub mod Terraform
