-- ===== src/ModuleDiff.antt =====
-- `diff_values` of utils/src/module_diff.rs: what differs between two versions of a module. Its HCL, as
-- JSON, is what the code compares.
mod Tests
use infraweave.Prelude.{
  Bool, true, false, not, Option, none, some, String, List, [], ◌∷◌, ◌++◌, ◌==◌, concat,
  if◌then◌else◌,
}
use infraweave.Json.{
  Value, null, bool, number, string, array, object, Fields, end, field, get_key, is_some,
}
use infraweave.Json.Equal.{value_eq}

pub record Difference : Type 0 where
  pub path : String
  pub value : Value

pub record Change : Type 0 where
  pub path : String
  pub old_value : Value
  pub new_value : Value

pub record ModuleDiff : Type 0 where
  pub additions : List Difference
  pub changes : List Change
  pub removals : List Difference

abbrev no_diff : ModuleDiff
no_diff = record { additions = []; changes = []; removals = [] }

abbrev append_diff : ModuleDiff → ModuleDiff → ModuleDiff
append_diff a b = record {
  additions = a.additions ++ b.additions;
  changes = a.changes ++ b.changes;
  removals = a.removals ++ b.removals;
}

abbrev path_of : String → String → String
path_of path key = if path == "" then concat ("/" ∷ key ∷ []) else concat (path ∷ "/" ∷ key ∷ [])

-- A value that is new or gone: an object gives one difference for each of its fields.
abbrev sub_values : String → Fields → List Difference
sub_values path end = []
sub_values path (field sub_key sub_val fs) =
    record { path = concat (path ∷ "/" ∷ sub_key ∷ []); value = sub_val } ∷ sub_values path fs

abbrev whole : String → Value → List Difference
whole path (object fs) = sub_values path fs
whole path v = record { path = path; value = v } ∷ []

abbrev new_keys : String → Fields → Fields → List Difference
new_keys path map1 end = []
new_keys path map1 (field key val2 fs) =
    let rest = new_keys path map1 fs in
    if is_some (get_key map1 key) then rest else whole (path_of path key) val2 ++ rest

abbrev changed : Value → Value → String → ModuleDiff
changed value1 value2 path = if value_eq value1 value2 then no_diff else record {
  additions = [];
  changes = record { path = path; old_value = value1; new_value = value2 } ∷ [];
  removals = [];
}

abbrev removed : String → Value → ModuleDiff
removed path val1 = record { additions = []; changes = []; removals = whole path val1 }

unfoldable mutual
  pub diff_values : Value → Value → String → ModuleDiff
  diff_values (object map1) (object map2) path =
      append_diff (old_keys map1 map2 path)
        (record { additions = new_keys path map1 map2; changes = []; removals = [] })
  diff_values (object map1) value2 path = changed (object map1) value2 path
  diff_values null value2 path = changed null value2 path
  diff_values (bool b) value2 path = changed (bool b) value2 path
  diff_values (number n) value2 path = changed (number n) value2 path
  diff_values (string s) value2 path = changed (string s) value2 path
  diff_values (array arr) value2 path = changed (array arr) value2 path

  pub old_keys : Fields → Fields → String → ModuleDiff
  old_keys end map2 path = no_diff
  old_keys (field key val1 fs) map2 path =
      append_diff
        (elim (get_key map2 key) [
          | some val2 ↦ diff_values val1 val2 (path_of path key)
          | none ↦ removed (path_of path key) val1
        ])
        (old_keys fs map2 path)
