-- ===== src/ResourceChange/Sanitize.antt =====
-- `sanitize_values` of defs/src/resource_change.rs: a value without what its markers call sensitive.
use infraweave.Prelude.{Bool, true, false, Option, none, some, String, if◌then◌else◌}
use infraweave.Json.{
  Value, bool, array, object, Items, nil, cons, Fields, end, field, get_key, insert_key,
}

-- `marker.as_bool() == Some(true)`
abbrev pub is_true : Value → Bool
is_true (bool b) = b
is_true _ = false

abbrev pub object_or_none : Fields → Option Value
object_or_none end = none
object_or_none (field k v fs) = some (object (field k v fs))

abbrev pub array_or_none : Items → Option Value
array_or_none nil = none
array_or_none (cons x xs) = some (array (cons x xs))

-- `if let Some(v) = ... { sanitized.insert(key, v) }`
abbrev pub insert_some : String → Option Value → Fields → Fields
insert_some k none fs = fs
insert_some k (some v) fs = insert_key k v fs

-- one step of `filter_map`
abbrev pub cons_some : Option Value → Items → Items
cons_some none xs = xs
cons_some (some x) xs = cons x xs

-- A value that is neither an object nor an array.
abbrev pub sanitize_leaf : Value → Value → Option Value
sanitize_leaf v (bool false) = some v
sanitize_leaf v (object ms) = some v
sanitize_leaf v _ = none

-- One round of the loop over an object, `sanitize_val` being the recursive call at its value.
abbrev pub sanitize_field : (Value → Option Value) → String → Value → Option Value → Fields → Fields
sanitize_field sanitize_val key val none sanitized = insert_key key val sanitized
sanitize_field sanitize_val key val (some sens_val) sanitized =
    if is_true sens_val then sanitized else insert_some key (sanitize_val sens_val) sanitized

unfoldable mutual
  unfolding insert_key

  pub sanitize : Value → Value → Option Value
  sanitize values (bool true) = none
  sanitize (object vs) (object ms) = object_or_none (sanitize_fields vs ms end)
  sanitize (array xs) (array ms) = array_or_none (sanitize_items xs ms)
  sanitize (object vs) m = none
  sanitize (array xs) m = none
  sanitize val m = sanitize_leaf val m

  -- `sanitized` is the map that the loop fills
  pub sanitize_fields : Fields → Fields → Fields → Fields
  sanitize_fields end ms sanitized = sanitized
  sanitize_fields (field key val vs) ms sanitized =
      sanitize_fields vs ms (sanitize_field (sanitize val) key val (get_key ms key) sanitized)

  pub sanitize_items : Items → Items → Items
  sanitize_items nil ms = nil
  sanitize_items (cons x xs) nil = nil
  sanitize_items (cons x xs) (cons m ms) = cons_some (sanitize x m) (sanitize_items xs ms)

-- A missing value or a missing marker gives nothing.
unfoldable pub sanitize_values : Option Value → Option Value → Option Value
unfolding sanitize
sanitize_values none sensitive_markers = none
sanitize_values (some values) none = none
sanitize_values (some values) (some sensitive_markers) = sanitize values sensitive_markers
