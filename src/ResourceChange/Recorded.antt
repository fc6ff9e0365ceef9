-- ===== src/ResourceChange/Recorded.antt =====
-- What `diff_values_with_sensitivity` of defs/src/resource_change.rs records, for every order in
-- which the set of keys is visited.
use infraweave.Prelude.{
  ◌||◌, ◌==◌, eq_iff, ◌≡◌, refl, sym, ap, ◌∙◌, false, ◌&&◌, Option, none, some, String, List, [],
  ◌∷◌, ◌++◌, inl, inr, arith, contains, contains-append, Bool-cases, Option-cases, if◌then◌else◌,
}
use infraweave.Json.{
  Value, null, array, object, Fields, end, field, get_key, keys, insert_key, get_key-insert_key,
  is_object, is_some,
}
use infraweave.Json.Equal.{value_eq, items_eq_refl, value_eq_refl}
use infraweave.ResourceChange.Sanitize.{insert_some}
use infraweave.ResourceChange.Diff.{
  hide_if, Markers, markers_at, is_sensitive, changed_entry, removed_entry, added_entry, added_key,
  kept_key, new_path, for_keys, diff, diff_key, entry, non_empty, compute_changes,
}

for_keys_id :
    (step : String → Fields → Fields) (ks : List String) (changes : Fields)
    → ((key : String) (c : Fields) → step key c ≡ c)
    → for_keys step ks changes ≡ changes
unfolding for_keys
for_keys_id step [] changes h = refl
for_keys_id step (k ∷ ks) changes h = rw (h k changes) (for_keys_id step ks changes h)

module _ (iter_set : List String → List String) where
  diff_key_same :
      (fs am : Fields) (path : String) (m : Markers) (key : String) (changes : Fields)
      → get_key am key ≡ get_key fs key
      → diff_key iter_set fs am path m key changes ≡ changes
  unfolding diff
  diff_key_same end am path m key changes h = rw (h, added_key)
  diff_key_same (field k v fs) am path m key changes h = elim (Bool-cases (k == key)) [
    | inl here ↦
        let found : get_key am key ≡ some v = h ∙ rw here in
        rw here (rw (found, kept_key) (rw (value_eq_refl v)))
    | inr further ↦ rw further (diff_key_same fs am path m key changes (h ∙ rw further))
  ]

  -- A value that does not change records nothing, whatever its markers and the order of the keys.
  pub diff_self :
      (v : Value) (path : String) (m : Markers) (changes : Fields)
      → diff iter_set v path v m changes ≡ changes
  unfolding diff
  diff_self (object fs) path m changes =
      for_keys_id _ (iter_set (keys fs ++ keys fs)) changes
        (λ key c. diff_key_same fs fs path m key c refl)
  diff_self (array xs) path m changes = rw (items_eq_refl xs)
  diff_self v path m changes = rw (value_eq_refl v)

  leaf_diff :
      (before : Value) (path : String) (after : Value) (m : Markers) (changes : Fields)
      → (is_object before && is_object after) ≡ false
      → diff iter_set before path after m changes ≡ (
          if value_eq before after
          then changes
          else insert_key path (changed_entry m before after) changes)
  unfolding diff
  leaf_diff (object fs) path (object gs) m changes h = cc
  leaf_diff (array xs) path (array ys) m changes h = unfold value_eq in refl
  leaf_diff before path after m changes h = refl

-- What the record says of one key, from its values and its markers.
unfoldable pub change_at : Markers → Option Value → Option Value → Option Value
change_at m none none = none
change_at m none (some after) =
    some
      (entry null (hide_if (is_sensitive m.after_sensitive) after) (is_sensitive m.after_unknown))
change_at m (some before) none =
    some (entry (hide_if (is_sensitive m.before_sensitive) before) null false)
change_at m (some before) (some after) =
    let sensitive = is_sensitive m.before_sensitive || is_sensitive m.after_sensitive in
    if value_eq before after
    then none
    else some
        (entry (hide_if sensitive before) (hide_if sensitive after) (is_sensitive m.after_unknown))

-- Not two objects: then the record holds no path below this one.
abbrev pub IsFlatAt : Option Value → Option Value → Type 0
IsFlatAt (some before) (some after) = (is_object before && is_object after) ≡ false
IsFlatAt _ _ = Unit

added_key_flat :
    (am : Fields) (m : Markers) (key : String) (changes : Fields)
    → added_key am "" m key changes
      ≡ insert_some key (change_at (markers_at m key) none (get_key am key)) changes
unfolding added_key change_at new_path added_entry
added_key_flat am m key changes = elim (Option-cases (get_key am key)) [
  | inl absent ↦ rw (absent, added_key, change_at)
  | inr (a, present) ↦ rw (present, added_key, change_at)
]

module _ (iter_set : List String → List String) (am : Fields) (m : Markers) where
  kept_key_flat :
      (v : Value) (key : String) (changes : Fields)
      → IsFlatAt (some v) (get_key am key)
      → kept_key (diff iter_set v) v am "" m key changes
        ≡ insert_some key (change_at (markers_at m key) (some v) (get_key am key)) changes
  unfolding kept_key change_at new_path removed_entry changed_entry
  kept_key_flat v key changes flat = elim (Option-cases (get_key am key)) [
    | inl absent ↦ rw (absent, kept_key, change_at)
    | inr (a, present) ↦
        let leaf : (is_object v && is_object a) ≡ false = rw present at flat in
        rw (present, kept_key, change_at)
          (elim (Bool-cases (value_eq v a)) [
            | inl same ↦ rw same
            | inr differs ↦
                rw differs (leaf_diff iter_set v key a (markers_at m key) changes leaf ∙ rw differs)
          ])
  ]

  diff_key-field :
      (k : String) (v : Value) (bm : Fields) (key : String) (changes : Fields)
      → diff_key iter_set (field k v bm) am "" m key changes ≡ (
          if k == key
          then kept_key (diff iter_set v) v am "" m key changes
          else diff_key iter_set bm am "" m key changes)
  unfolding diff
  diff_key-field k v bm key changes = refl

  diff_key_flat :
      (bm : Fields) (key : String) (changes : Fields)
      → IsFlatAt (get_key bm key) (get_key am key)
      → diff_key iter_set bm am "" m key changes
        ≡ insert_some key (change_at (markers_at m key) (get_key bm key) (get_key am key)) changes
  diff_key_flat end key changes flat = unfold diff in added_key_flat am m key changes
  diff_key_flat (field k v bm) key changes flat =
      diff_key-field k v bm key changes ∙ elim (Bool-cases (k == key)) [
        | inl here ↦ rw here (kept_key_flat v key changes (rw here at flat))
        | inr further ↦ rw further (diff_key_flat bm key changes (rw further at flat))
      ]

-- `o` where it holds a value, and else `p`.
abbrev or_else : Option Value → Option Value → Option Value
or_else none p = p
or_else (some v) p = some v

get_key-insert_some :
    (k : String) (o : Option Value) (fs : Fields) (j : String)
    → get_key (insert_some k o fs) j ≡ (if k == j then or_else o (get_key fs j) else get_key fs j)
get_key-insert_some k none fs j = ground arith
get_key-insert_some k (some v) fs j = get_key-insert_key k v fs j

get_key-for_keys :
    (step : String → Fields → Fields) (change : String → Option Value)
    → ((key : String) (c : Fields) → step key c ≡ insert_some key (change key) c)
    → (ks : List String) (changes : Fields) (j : String)
    → get_key (for_keys step ks changes) j
      ≡ (if contains ks j then or_else (change j) (get_key changes j) else get_key changes j)
unfolding for_keys
get_key-for_keys step change h [] changes j = refl
get_key-for_keys step change h (k ∷ ks) changes j =
    get_key-for_keys step change h ks (step k changes) j
    ∙ rw (h k changes, get_key-insert_some)
        (elim (Bool-cases (k == j)) [
          | inl here ↦ rw here (rw ((eq_iff k j).0 here) (ground arith))
          | inr further ↦ rw further refl
        ])

contains-keys : (fs : Fields) (j : String) → contains (keys fs) j ≡ is_some (get_key fs j)
contains-keys end j = refl
contains-keys (field k v fs) j = ground (arith, contains-keys fs j)

-- The order in which a HashSet yields its elements: each of them, and no others.
abbrev pub IsSetOrder : (List String → List String) → Type 0
IsSetOrder iter_set = (ks : List String) (k : String) → contains (iter_set ks) k ≡ contains ks k

absent_both :
    (m : Markers) (bm am : Fields) (j : String)
    → contains (keys bm ++ keys am) j ≡ false
    → change_at m (get_key bm j) (get_key am j) ≡ none
unfolding change_at
absent_both m bm am j h =
    ground (arith, contains-append (keys bm) (keys am) j, contains-keys bm j, contains-keys am j)

diff-object :
    (iter_set : List String → List String) (bm am : Fields) (m : Markers)
    → diff iter_set (object bm) "" (object am) m end
      ≡ for_keys (diff_key iter_set bm am "" m) (iter_set (keys bm ++ keys am)) end
unfolding diff
diff-object iter_set bm am m = refl

diff_flat :
    (iter_set : List String → List String) (bm am : Fields) (m : Markers) (j : String)
    → IsSetOrder iter_set
    → ((k : String) → IsFlatAt (get_key bm k) (get_key am k))
    → get_key (diff iter_set (object bm) "" (object am) m end) j
      ≡ change_at (markers_at m j) (get_key bm j) (get_key am j)
diff_flat iter_set bm am m j order flat =
    ap (λ fs. get_key fs j) (diff-object iter_set bm am m)
    ∙ get_key-for_keys (diff_key iter_set bm am "" m)
        (λ k. change_at (markers_at m k) (get_key bm k) (get_key am k))
        (λ k c. diff_key_flat iter_set am m bm k c (flat k)) (iter_set (keys bm ++ keys am)) end j
    ∙ rw (order (keys bm ++ keys am) j) (elim (Bool-cases (contains (keys bm ++ keys am) j)) [
      | inl there ↦ rw there (ground arith)
      | inr absent ↦ rw absent (sym (absent_both (markers_at m j) bm am j absent))
    ])

-- What the record of a change, if there is one, says under a key
abbrev pub recorded : Option Fields → String → Option Value
recorded none j = none
recorded (some changes) j = get_key changes j

recorded-non_empty :
    (changes : Fields) (j : String) → recorded (non_empty changes) j ≡ get_key changes j
recorded-non_empty end j = refl
recorded-non_empty (field k v changes) j = refl

-- Of two objects without a key that holds an object on both sides, the record of their change has under
-- each key what the two values under it and its markers say, and nothing else, in whatever order the keys
-- are visited: `[REDACTED]` where a marker is `true`, both values where they differ, no entry where they
-- agree.
pub compute_changes_flat :
    (iter_set : List String → List String) (bm am : Fields) (m : Markers) (j : String)
    → IsSetOrder iter_set
    → ((k : String) → IsFlatAt (get_key bm k) (get_key am k))
    → recorded (compute_changes iter_set (some (object bm)) (some (object am)) m) j
      ≡ change_at (markers_at m j) (get_key bm j) (get_key am j)
unfolding compute_changes
compute_changes_flat iter_set bm am m j order flat =
    recorded-non_empty (diff iter_set (object bm) "" (object am) m end) j
    ∙ diff_flat iter_set bm am m j order flat
