-- ===== src/ResourceChange/Tests.antt =====
-- Runs of defs/src/resource_change.rs and utils/src/terraform.rs, and their theorems at concrete plans.
use infraweave.Prelude.{
  map, ◌==◌, ◌≡◌, refl, true, false, none, some, String, List, [], ◌∷◌, Bool-cases, inl, inr,
}
use infraweave.Json.{
  Value, null, bool, string, array, object, nil, cons, Fields, end, field, get_key,
}
use infraweave.Json.Equal.{value_eq}
use infraweave.ResourceChange.Sanitize.{sanitize_values}
use infraweave.ResourceChange.Erasure.{erase, sanitize_values-erase}
use infraweave.ResourceChange.Diff.{Markers, diff, compute_changes, redacted, entry, markers_at}
use infraweave.ResourceChange.Recorded.{
  change_at, IsFlatAt, recorded, compute_changes_flat, IsSetOrder,
}
use infraweave.ResourceChange.Dependencies.{
  texts, IsChangeBetween, dependencies_of, compute_dependency_change,
  compute_dependency_change-IsChangeBetween,
}
use infraweave.ResourceChange.Parse.{
  action_of, from_terraform_json, SanitizedResourceChange, plan_get_destructive_changes,
  sanitize_resource_changes_from_plan, managed, replace,
}
use infraweave.ResourceChange.Secrecy.{
  all_recorded, destroyed_addresses, destructive_iff, discloses_nothing, with_state,
}

-- One order of a set: that of the list.
abbrev in_order : List String → List String
in_order ks = ks

in_order-IsSetOrder : IsSetOrder in_order
in_order-IsSetOrder ks k = refl

abbrev login : String → Value
login password = object (field "password" (string password) (field "user" (string "ann") end))

abbrev login_marker : Value
login_marker = object (field "password" (bool true) end)

sanitize_login :
    sanitize_values (some (login "hunter2")) (some login_marker)
    ≡ some (object (field "user" (string "ann") end))
unfolding sanitize_values
sanitize_login = refl

sanitize_values-erase_example :
    sanitize_values (some (login "hunter2")) (some login_marker)
    ≡ sanitize_values (some (login "swordfish")) (some login_marker)
unfolding erase
sanitize_values-erase_example =
    sanitize_values-erase (login "hunter2") (login "swordfish") login_marker refl

abbrev old_login : Fields
old_login = field "password" (string "hunter2") (field "user" (string "ann") end)

abbrev new_login : Fields
new_login = field "password" (string "swordfish") (field "user" (string "bob") end)

abbrev login_markers : Markers
login_markers = record {
  before_sensitive = some login_marker;
  after_sensitive = some login_marker;
  after_unknown = none;
}

diff_login :
    diff in_order (object old_login) "" (object new_login) login_markers end
    ≡ field "password"
        (entry redacted redacted false)
        (field "user" (entry (string "ann") (string "bob") false) end)
unfolding diff value_eq
diff_login = refl

flat_login : (k : String) → IsFlatAt (get_key old_login k) (get_key new_login k)
flat_login k = elim (Bool-cases ("password" == k)) [
  | inl first ↦ rw first refl
  | inr other ↦ rw other (elim (Bool-cases ("user" == k)) [
    | inl second ↦ rw second refl
    | inr neither ↦ rw neither tt
  ])
]

compute_changes_flat_example :
    recorded
      (compute_changes in_order (some (object old_login)) (some (object new_login)) login_markers)
      "password"
    ≡ change_at
        (markers_at login_markers "password")
        (get_key old_login "password")
        (get_key new_login "password")
compute_changes_flat_example =
    compute_changes_flat in_order old_login new_login login_markers "password" in_order-IsSetOrder
      flat_login

-- A plan entry that replaces a bucket.
abbrev replaced : Value
replaced = object (
    field "address" (string "aws_s3_bucket.b") (
      field "change"
        (object (
          field "actions" (array (cons (string "delete") (cons (string "create") nil))) (
            field "after" null (
              field "after_depends_on" (array (cons (string "a") nil)) (field "before" null end)))))
        (field "name" (string "b") (field "type" (string "aws_s3_bucket") end))))

abbrev replaced_record : SanitizedResourceChange
replaced_record = record {
  address = "aws_s3_bucket.b";
  resource_type = "aws_s3_bucket";
  name = "b";
  mode = managed;
  provider = none;
  action = replace;
  action_reason = none;
  index = none;
  depends_on = some (record { added = "a" ∷ []; removed = []; unchanged = [] });
  before = none;
  after = none;
  changes = none;
}

parse_replaced : from_terraform_json in_order replaced ≡ some replaced_record
unfolding from_terraform_json value_eq
parse_replaced = refl

abbrev replacing_plan : Value
replacing_plan = object (field "resource_changes" (array (cons replaced nil)) end)

records_replaced : all_recorded in_order (cons replaced nil) ≡ true
unfolding all_recorded
records_replaced = rw (parse_replaced) refl

destructive_iff_example :
    map (λ c. c.address) (plan_get_destructive_changes replacing_plan)
    ≡ destroyed_addresses (sanitize_resource_changes_from_plan in_order replacing_plan false)
destructive_iff_example =
    destructive_iff in_order replacing_plan (cons replaced nil) refl records_replaced

abbrev login_resource : Fields
login_resource =
    field "address" (string "x.login")
      (field "name" (string "login") (field "type" (string "x") end))

abbrev login_change : Fields
login_change =
    field "actions" (array (cons (string "create") nil))
      (field "after_sensitive" login_marker (field "before_sensitive" (bool false) end))

discloses_nothing_example :
    from_terraform_json in_order (with_state login_resource login_change null (login "hunter2"))
    ≡ from_terraform_json in_order (with_state login_resource login_change null (login "swordfish"))
unfolding erase action_of texts
discloses_nothing_example =
    discloses_nothing in_order (bool false) login_marker null (login "hunter2") null
      (login "swordfish") login_resource login_change (cons (string "create") nil) refl refl refl
      refl refl refl

compute_dependency_change-IsChangeBetween_example :
    IsChangeBetween
      (dependencies_of none)
      (dependencies_of (some (array (cons (string "a") nil))))
      (record { added = "a" ∷ []; removed = []; unchanged = [] })
unfolding compute_dependency_change
compute_dependency_change-IsChangeBetween_example =
    compute_dependency_change-IsChangeBetween none (some (array (cons (string "a") nil)))
      (record { added = "a" ∷ []; removed = []; unchanged = [] }) refl
