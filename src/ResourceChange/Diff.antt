-- ===== src/ResourceChange/Diff.antt =====
-- `diff_values_with_sensitivity` of defs/src/resource_change.rs: the compact record of what a plan
-- changes. A HashSet yields its keys in no particular order: `iter_set` stands for that order.
use infraweave.Prelude.{
  ◌==◌, Bool, true, false, ◌||◌, Option, none, some, String, List, [], ◌∷◌, ◌++◌, if◌then◌else◌,
}
use Prim.Native.String.{◌++◌ as str_append}
use infraweave.Json.{
  Value, null, bool, string, array, object, Fields, end, field, get_key, keys, insert_key,
  as_object, and_then,
}
use infraweave.Json.Equal.{value_eq, items_eq}

-- `is_sensitive`, which the code uses for the markers of unknown values too
unfoldable pub is_sensitive : Option Value → Bool
is_sensitive (some (bool true)) = true
is_sensitive _ = false

-- `sens_map.and_then(|m| m.get(key))`
unfoldable pub marker_at : Option Value → String → Option Value
marker_at markers key = and_then (and_then markers as_object) (λ m. get_key m key)

abbrev pub redacted : Value
redacted = string "[REDACTED]"

-- The recorded object; its fields stand in the order of their keys.
abbrev pub entry : Value → Value → Bool → Value
entry before after after_unknown =
    object
      (field "after" after (field "after_unknown" (bool after_unknown) (field "before" before end)))

unfoldable pub new_path : String → String → String
new_path path key = if path == "" then key else str_append path (str_append "." key)

abbrev pub hide_if : Bool → Value → Value
hide_if sensitive v = if sensitive then redacted else v

-- The markers that go with a value: before, after and unknown.
pub record Markers : Type 0 where
  pub before_sensitive : Option Value
  pub after_sensitive : Option Value
  pub after_unknown : Option Value

unfoldable pub markers_at : Markers → String → Markers
unfolding marker_at
markers_at m key = record {
  before_sensitive = marker_at m.before_sensitive key;
  after_sensitive = marker_at m.after_sensitive key;
  after_unknown = marker_at m.after_unknown key;
}

-- Arrays and primitives that differ are recorded whole.
unfoldable pub changed_entry : Markers → Value → Value → Value
unfolding is_sensitive
changed_entry m before after =
    let sensitive = is_sensitive m.before_sensitive || is_sensitive m.after_sensitive in
    entry (hide_if sensitive before) (hide_if sensitive after) (is_sensitive m.after_unknown)

unfoldable pub removed_entry : Markers → Value → Value
unfolding is_sensitive
removed_entry m before = entry (hide_if (is_sensitive m.before_sensitive) before) null false

unfoldable pub added_entry : Markers → Value → Value
unfolding is_sensitive
added_entry m after =
    entry null (hide_if (is_sensitive m.after_sensitive) after) (is_sensitive m.after_unknown)

unfoldable pub for_keys : (String → Fields → Fields) → List String → Fields → Fields
for_keys step [] changes = changes
for_keys step (key ∷ rest) changes = for_keys step rest (step key changes)

-- A key that `before_map` does not have.
unfoldable pub added_key : Fields → String → Markers → String → Fields → Fields
unfolding added_entry new_path markers_at
added_key after_map path m key changes = elim (get_key after_map key) [
  | some after_val ↦
      insert_key (new_path path key) (added_entry (markers_at m key) after_val) changes
  | none ↦ changes
]

-- A key that `before_map` has; `diff_val` is the recursive call at its value.
unfoldable pub kept_key :
    (String → Value → Markers → Fields → Fields)
    → Value
    → Fields
    → String
    → Markers
    → String
    → Fields
    → Fields
unfolding removed_entry new_path markers_at
kept_key diff_val before_val after_map path m key changes = elim (get_key after_map key) [
  | some after_val ↦ elim (value_eq before_val after_val) [
    | true ↦ changes
    | false ↦ diff_val (new_path path key) after_val (markers_at m key) changes
  ]
  | none ↦ insert_key (new_path path key) (removed_entry (markers_at m key) before_val) changes
]

abbrev pub non_empty : Fields → Option Fields
non_empty end = none
non_empty (field k v fs) = some (field k v fs)

module _ (iter_set : List String → List String) where
  unfoldable mutual
    unfolding kept_key added_key for_keys changed_entry insert_key

    pub diff : Value → String → Value → Markers → Fields → Fields
    diff (object before_map) path (object after_map) m changes =
        for_keys (diff_key before_map after_map path m)
          (iter_set (keys before_map ++ keys after_map)) changes
    diff (array before_arr) path (array after_arr) m changes =
        if items_eq before_arr after_arr
        then changes
        else insert_key path (changed_entry m (array before_arr) (array after_arr)) changes
    diff before path after m changes =
        if value_eq before after
        then changes
        else insert_key path (changed_entry m before after) changes

    -- The body of the loop over all keys; it looks for the key in `before_map`.
    pub diff_key : Fields → Fields → String → Markers → String → Fields → Fields
    diff_key end after_map path m key changes = added_key after_map path m key changes
    diff_key (field k before_val before_map) after_map path m key changes =
        if k == key
        then kept_key (diff before_val) before_val after_map path m key changes
        else diff_key before_map after_map path m key changes

  -- `None` where a side is missing or nothing changed.
  unfoldable pub compute_changes : Option Value → Option Value → Markers → Option Fields
  unfolding diff
  compute_changes before after m =
      and_then before
        λ before_val. and_then after λ after_val. non_empty (diff before_val "" after_val m end)
