-- ===== src/ResourceChange/Erasure.antt =====
-- What `sanitize_values` discloses: nothing that stands under a marker `true`.
use infraweave.Prelude.{String, ◌≡◌, refl, sym, ◌∙◌, ap, true, Option, none, some}
use infraweave.Json.{
  Value, null, bool, array, object, Items, nil, cons, Fields, end, field, get_key,
}
use infraweave.ResourceChange.Sanitize.{
  sanitize, sanitize_field, sanitize_fields, sanitize_items, sanitize_values, array_or_none,
  object_or_none,
}

abbrev pub erase_field : (Value → Value) → Value → Option Value → Value
erase_field erase_val v none = v
erase_field erase_val v (some m) = erase_val m

-- The value with `null` in every place whose marker is `true`: what may be known of it.
unfoldable mutual
  pub erase : Value → Value → Value
  erase v (bool true) = null
  erase (object vs) (object ms) = object (erase_fields vs ms)
  erase (array xs) (array ms) = array (erase_items xs ms)
  erase v m = v

  pub erase_fields : Fields → Fields → Fields
  erase_fields end ms = end
  erase_fields (field k v vs) ms =
      field k (erase_field (erase v) v (get_key ms k)) (erase_fields vs ms)

  pub erase_items : Items → Items → Items
  erase_items nil ms = nil
  erase_items (cons x xs) nil = cons x xs
  erase_items (cons x xs) (cons m ms) = cons (erase x m) (erase_items xs ms)

-- One round of the loop does not see what stands under a marker.
field_erased :
    (k : String) (v : Value) (m : Option Value) (acc : Fields)
    → ((s : Value) → sanitize (erase v s) s ≡ sanitize v s)
    → sanitize_field (sanitize (erase_field (erase v) v m)) k (erase_field (erase v) v m) m acc
      ≡ sanitize_field (sanitize v) k v m acc
field_erased k v none acc ih = refl
field_erased k v (some s) acc ih = rw (ih s)

mutual
  unfolding sanitize erase

  value_erased : (v m : Value) → sanitize (erase v m) m ≡ sanitize v m
  value_erased v (bool true) = refl
  value_erased (object vs) (object ms) = ap object_or_none (fields_erased vs ms end)
  value_erased (array xs) (array ms) = ap array_or_none (items_erased xs ms)
  value_erased (object vs) _ = refl
  value_erased (array xs) _ = refl
  value_erased _ _ = refl

  fields_erased :
      (vs ms acc : Fields) → sanitize_fields (erase_fields vs ms) ms acc ≡ sanitize_fields vs ms acc
  fields_erased end ms acc = refl
  fields_erased (field k v vs) ms acc =
      fields_erased vs ms _
      ∙ ap (sanitize_fields vs ms) (field_erased k v (get_key ms k) acc (value_erased v))

  items_erased : (xs ms : Items) → sanitize_items (erase_items xs ms) ms ≡ sanitize_items xs ms
  items_erased nil ms = refl
  items_erased (cons x xs) nil = refl
  items_erased (cons x xs) (cons m ms) = rw (value_erased x m, items_erased xs ms)

-- Two values that differ only under markers `true` are sanitized to the same result: what
-- `sanitize_values` returns tells nothing of a value that its markers call sensitive, at any depth.
pub sanitize_values-erase :
    (v w m : Value)
    → erase v m ≡ erase w m
    → sanitize_values (some v) (some m) ≡ sanitize_values (some w) (some m)
unfolding sanitize_values
sanitize_values-erase v w m e = sym (value_erased v m) ∙ ap (λ u. sanitize u m) e ∙ value_erased w m
