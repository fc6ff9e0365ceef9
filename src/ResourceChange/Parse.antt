-- ===== src/ResourceChange/Parse.antt =====
-- `from_terraform_json` and `sanitize_resource_changes_from_plan` of defs/src/resource_change.rs,
-- and `plan_get_destructive_changes` of utils/src/terraform.rs, which reads the same plan.
use infraweave.Prelude.{
  ℕ, suc, ◌==◌, Bool, true, false, ◌&&◌, ◌||◌, Option, none, some, String, List, [], ◌∷◌, contains,
  ltb, if◌then◌else◌,
}
use infraweave.Json.{
  Value, null, string, array, object, Items, nil, cons, Fields, end, field, get, as_str, as_array,
  and_then, ◌>>=◌, unwrap_or,
}
use infraweave.ResourceChange.Sanitize.{sanitize_values}
use infraweave.ResourceChange.Diff.{Markers, compute_changes}
use infraweave.ResourceChange.Dependencies.{DependencyChange, texts, compute_dependency_change}

pub data ResourceMode : Type 0 where
  managed data_source : ResourceMode

pub data ResourceAction : Type 0 where
  create update delete replace no_op : ResourceAction

pub record SanitizedResourceChange : Type 0 where
  pub address : String
  pub resource_type : String
  pub name : String
  pub mode : ResourceMode
  pub provider : Option String
  pub action : ResourceAction
  pub action_reason : Option String
  pub index : Option Value
  pub depends_on : Option DependencyChange
  pub before : Option Value
  pub after : Option Value
  pub changes : Option Fields

abbrev pub mode_named : String → Option ResourceMode
mode_named s =
    if s == "managed" then some managed else if s == "data" then some data_source else none

-- The derived `Deserialize` of an enum without fields: its name, or an object from it to null.
unfoldable pub mode_from_value : Value → Option ResourceMode
mode_from_value (string s) = mode_named s
mode_from_value (object (field s null end)) = mode_named s
mode_from_value _ = none

unfoldable pub mode_of : Value → ResourceMode
unfolding mode_from_value
mode_of resource = unwrap_or (get resource "mode" >>= mode_from_value) managed

unfoldable pub action_of : List String → ResourceAction
action_of actions =
    if contains actions "delete" && contains actions "create"
    then replace
    else if contains actions "delete"
    then delete
    else if contains actions "create"
    then create
    else if contains actions "update"
    then update
    else no_op

abbrev pub markers_of : Value → Markers
markers_of change = record {
  before_sensitive = get change "before_sensitive";
  after_sensitive = get change "after_sensitive";
  after_unknown = get change "after_unknown";
}

abbrev pub cons_change :
    Option SanitizedResourceChange → List SanitizedResourceChange → List SanitizedResourceChange
cons_change none cs = cs
cons_change (some c) cs = c ∷ cs

abbrev pub changes_key : Bool → String
changes_key true = "resource_drift"
changes_key false = "resource_changes"

module _ (iter_set : List String → List String) where
  -- The state that is stored: before, after and changes.
  unfoldable pub stored : ResourceAction → Value → Option Value × Option Value × Option Fields
  unfolding sanitize_values compute_changes
  stored update change = (
    none,
    none,
    compute_changes iter_set (get change "before") (get change "after") (markers_of change),
  )
  stored replace change = (
    none,
    none,
    compute_changes iter_set (get change "before") (get change "after") (markers_of change),
  )
  stored create change =
      (none, sanitize_values (get change "after") (get change "after_sensitive"), none)
  stored delete change =
      (sanitize_values (get change "before") (get change "before_sensitive"), none, none)
  stored no_op change = (none, none, none)

  -- The record, once the required fields are there.
  unfoldable pub sanitized_change :
      Value → String → String → String → Value → Items → SanitizedResourceChange
  unfolding stored action_of mode_of compute_dependency_change
  sanitized_change resource address resource_type name change actions =
      let action = action_of (texts actions) in
      let state = stored action change in
      record {
        address = address;
        resource_type = resource_type;
        name = name;
        mode = mode_of resource;
        provider = get resource "provider_name" >>= as_str;
        action = action;
        action_reason = get resource "action_reason" >>= as_str;
        index = get resource "index";
        depends_on =
            compute_dependency_change (get change "before_depends_on")
              (get change "after_depends_on");
        before = state.0;
        after = state.1;
        changes = state.2;
      }

  unfoldable pub from_terraform_json : Value → Option SanitizedResourceChange
  unfolding sanitized_change
  from_terraform_json resource = do
    address ← get resource "address" >>= as_str
    resource_type ← get resource "type" >>= as_str
    name ← get resource "name" >>= as_str
    change ← get resource "change"
    actions ← get change "actions" >>= as_array
    some (sanitized_change resource address resource_type name change actions)

  unfoldable pub changes_of : Items → List SanitizedResourceChange
  unfolding from_terraform_json
  changes_of nil = []
  changes_of (cons x xs) = cons_change (from_terraform_json x) (changes_of xs)

  unfoldable pub sanitize_resource_changes : Value → List SanitizedResourceChange
  unfolding changes_of
  sanitize_resource_changes (array changes) = changes_of changes
  sanitize_resource_changes _ = []

  unfoldable pub sanitize_resource_changes_from_plan : Value → Bool → List SanitizedResourceChange
  unfolding sanitize_resource_changes
  sanitize_resource_changes_from_plan plan_json refresh_only =
      unwrap_or
        (and_then (get plan_json (changes_key refresh_only))
          (λ v. some (sanitize_resource_changes v)))
        []

pub record DestructiveChange : Type 0 where
  pub address : String
  pub action : String

-- `actions.iter().any(|a| a.as_str() == Some("delete"))`
unfoldable pub any_text : String → Items → Bool
any_text s nil = false
any_text s (cons (string t) xs) = t == s || any_text s xs
any_text s (cons _ xs) = any_text s xs

abbrev pub count_items : Items → ℕ
count_items nil = 0
count_items (cons x xs) = suc (count_items xs)

unfoldable pub extract_destructive_change : Value → Option DestructiveChange
unfolding any_text
extract_destructive_change resource_change = do
  actions ← get resource_change "change" >>= (λ c. get c "actions") >>= as_array
  let change : DestructiveChange = record {
    address = unwrap_or (get resource_change "address" >>= as_str) "unknown";
    action = if ltb 1 (count_items actions) then "replace" else "delete";
  }
  if any_text "delete" actions then some change else none

abbrev pub cons_destructive :
    Option DestructiveChange → List DestructiveChange → List DestructiveChange
cons_destructive none cs = cs
cons_destructive (some c) cs = c ∷ cs

unfoldable pub destructive_of : Items → List DestructiveChange
unfolding extract_destructive_change
destructive_of nil = []
destructive_of (cons x xs) = cons_destructive (extract_destructive_change x) (destructive_of xs)

unfoldable pub plan_get_destructive_changes : Value → List DestructiveChange
unfolding destructive_of
plan_get_destructive_changes plan_json =
    unwrap_or (get plan_json "resource_changes" >>= as_array >>= (λ cs. some (destructive_of cs)))
      []
