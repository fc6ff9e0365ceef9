-- ===== src/Operator/Merge.antt =====
-- What is read of the status of an object after a merge patch (operator/src/operator.rs).
use infraweave.Prelude.{
  ◌≡◌, refl, ap, ◌∙◌, false, Option, none, some, String, ◌==◌, List, [], ◌∷◌, arith, eq_iff,
  contains, if◌then◌else◌, Bool-cases, inl, inr,
}
use infraweave.Json.{
  Value, null, number, string, array, object, Fields, end, field, get_key, insert_key, is_null,
  get_key-insert_key, get, and_then,
}
use infraweave.Operator.{
  Resource, finalizer_name, merge_value, merge_fields, remove_key, status_merged, status_field,
  fields_of, texts,
}
use infraweave.Operator.Delete.{without_finalizer, items}

pub get_key-remove_key :
    (k : String) (fs : Fields) (j : String)
    → get_key (remove_key k fs) j ≡ (if k == j then none else get_key fs j)
unfolding remove_key
get_key-remove_key k end j = ground arith
get_key-remove_key k (field i v fs) j =
    ground (arith, get_key-remove_key k fs j, eq_iff i k, eq_iff i j, eq_iff k j)

-- What the fields of a patch make of the value under a key
unfoldable pub overlay : Fields → String → Option Value → Option Value
unfolding merge_value
overlay end k old = old
overlay (field j v fs) k old =
    overlay fs k (if j == k then (if is_null v then none else some (merge_value old v)) else old)

merged_one :
    (j : String) (v : Value) (old : Fields) (k : String)
    → get_key
        (if is_null v then remove_key j old else insert_key j (merge_value (get_key old j) v) old)
        k
      ≡ (if j == k
          then (if is_null v then none else some (merge_value (get_key old k) v))
          else get_key old k)
merged_one j v old k = elim (Bool-cases (is_null v)) [
  | inl e ↦ rw e (get_key-remove_key j old k)
  | inr e ↦ rw e (elim (Bool-cases (j == k)) [
    | inl same ↦
        rw ((eq_iff j k).0 same)
          (ground (arith, get_key-insert_key k (merge_value (get_key old k) v) old k, eq_iff k k))
    | inr other ↦ ground (arith, get_key-insert_key j (merge_value (get_key old j) v) old k, other)
  ])
]

pub get_key-merge_fields :
    (fs old : Fields) (k : String) → get_key (merge_fields old fs) k ≡ overlay fs k (get_key old k)
unfolding merge_value overlay
get_key-merge_fields end old k = refl
get_key-merge_fields (field j v fs) old k =
    get_key-merge_fields fs _ k ∙ ap (overlay fs k) (merged_one j v old k)

get_key-fields_of :
    (o : Option Value) (k : String) → get_key (fields_of o) k ≡ and_then o (λ s. get s k)
get_key-fields_of none k = refl
get_key-fields_of (some null) k = refl
get_key-fields_of (some (Value.bool b)) k = refl
get_key-fields_of (some (number n)) k = refl
get_key-fields_of (some (string s)) k = refl
get_key-fields_of (some (array xs)) k = refl
get_key-fields_of (some (object fs)) k = refl

-- A field of the status after a patch of the status
pub status_field-status_merged :
    (r : Resource) (fs : Fields) (k : String)
    → status_field (status_merged r (object (field "status" (object fs) end))) k
      ≡ overlay fs k (status_field r k)
unfolding merge_value
status_field-status_merged r fs k =
    let old = fields_of (some r.contents) in
    let inner = fields_of (get_key old "status") in
    ap (λ o. and_then o (λ s. get s k))
      (get_key-insert_key "status" (object (merge_fields inner fs)) old "status")
    ∙ get_key-merge_fields fs inner k
    ∙ ap (overlay fs k) (
        get_key-fields_of (get_key old "status") k
        ∙ ap (λ o. and_then o (λ s. get s k)) (get_key-fields_of (some r.contents) "status"))

pub texts-items : (xs : List String) → texts (items xs) ≡ xs
texts-items [] = refl
texts-items (x ∷ xs) = ap (λ ys. x ∷ ys) (texts-items xs)

pub contains-without_finalizer :
    (xs : List String) → contains (without_finalizer xs) finalizer_name ≡ false
contains-without_finalizer [] = refl
contains-without_finalizer (x ∷ xs) = ground (arith, contains-without_finalizer xs)
