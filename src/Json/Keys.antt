-- ===== src/Json/Keys.antt =====
-- utils/src/json.rs: the keys of the first level in snake_case. `to_snake_case`, of the crate heck, is
-- a parameter.
use infraweave.Prelude.{String, List, [], ◌∷◌, ◌==◌, contains, if◌then◌else◌, concat}
use infraweave.Json.{
  Value, null, bool, number, string, array, object, Items, nil, cons, Fields, end, field,
  insert_key,
}

-- `format!("{}__{}", …)`, and without the prefix where that is empty
abbrev pub prefixed : String → String → String
prefixed prefix key = if prefix == "" then key else concat (prefix ∷ "__" ∷ key ∷ [])

module _ (to_snake_case : String → String) where
  abbrev pub snake_fields : Fields → Fields → Fields
  snake_fields end new_map = new_map
  snake_fields (field key val map) new_map =
      snake_fields map (insert_key (to_snake_case key) val new_map)

  unfoldable mutual
    pub convert_first_level_keys_to_snake_case : Value → Value
    convert_first_level_keys_to_snake_case (object map) = object (snake_fields map end)
    convert_first_level_keys_to_snake_case (array arr) = array (convert_items arr)
    convert_first_level_keys_to_snake_case null = null
    convert_first_level_keys_to_snake_case (bool b) = bool b
    convert_first_level_keys_to_snake_case (number n) = number n
    convert_first_level_keys_to_snake_case (string s) = string s

    pub convert_items : Items → Items
    convert_items nil = nil
    convert_items (cons v arr) = cons (convert_first_level_keys_to_snake_case v) (convert_items arr)

  abbrev pub flatten_child : String → String → Fields → Fields → Fields
  flatten_child prefix key end flat_map = flat_map
  flatten_child prefix key (field child_key child_val child_map) flat_map =
      flatten_child prefix key child_map (
        insert_key (prefixed prefix (concat (key ∷ "__" ∷ to_snake_case child_key ∷ []))) child_val
          flat_map)

  abbrev pub flatten_value : String → String → Value → Fields → Fields
  flatten_value prefix key (object child_map) flat_map = flatten_child prefix key child_map flat_map
  flatten_value prefix key val flat_map = insert_key (prefixed prefix key) val flat_map

  abbrev pub flatten_fields : String → List String → Fields → Fields → Fields
  flatten_fields prefix dont_flatten end flat_map = flat_map
  flatten_fields prefix dont_flatten (field key val map) flat_map =
      flatten_fields prefix dont_flatten map (
        if contains dont_flatten key
        then insert_key (to_snake_case key) val flat_map
        else flatten_value prefix (to_snake_case key) val flat_map)

  unfoldable pub flatten_and_convert_first_level_keys_to_snake_case :
      Value → String → List String → Value
  flatten_and_convert_first_level_keys_to_snake_case (object map) prefix dont_flatten =
      object (flatten_fields prefix dont_flatten map end)
  flatten_and_convert_first_level_keys_to_snake_case _ prefix dont_flatten = object end
