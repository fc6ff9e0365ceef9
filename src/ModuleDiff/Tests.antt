-- ===== src/ModuleDiff/Tests.antt =====
-- Runs of `diff_values` of utils/src/module_diff.rs.
use infraweave.Prelude.{◌≡◌, refl, true, [], ◌∷◌}
use infraweave.Json.{Value, bool, string, object, Fields, end, field}
use infraweave.Json.Equal.{value_eq}
use infraweave.ModuleDiff.{diff_values}

abbrev tags : Fields → Value
tags fs = object (field "tags" (object fs) end)

field_changed :
    diff_values (tags (field "a" (string "x") end)) (tags (field "a" (string "y") end)) ""
    ≡ record {
      additions = [];
      changes = record { path = "/tags/a"; old_value = string "x"; new_value = string "y" } ∷ [];
      removals = [];
    }
unfolding diff_values value_eq
field_changed = refl

object_removed :
    diff_values (tags (field "a" (string "x") (field "b" (bool true) end))) (object end) ""
    ≡ record {
      additions = [];
      changes = [];
      removals =
          record { path = "/tags/a"; value = string "x" }
          ∷ record { path = "/tags/b"; value = bool true }
          ∷ [];
    }
unfolding diff_values
object_removed = refl

-- An object without fields leaves no trace.
empty_object_removed :
    diff_values (tags end) (object end) "" ≡ record { additions = []; changes = []; removals = [] }
unfolding diff_values
empty_object_removed = refl
