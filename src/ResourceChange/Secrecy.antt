-- ===== src/ResourceChange/Secrecy.antt =====
-- What the audit trail of defs/src/resource_change.rs discloses of a whole resource, and how it
-- agrees with the list of destructive changes of utils/src/terraform.rs.
use infraweave.Prelude.{
  ◌≡◌, refl, sym, ap, ◌∙◌, Bool, true, false, ◌&&◌, inl, inr, none, some, String, List, [], ◌∷◌,
  map, arith, contains, ltb, if◌then◌else◌, Option-cases,
}
use infraweave.Json.{
  Value, string, array, object, Items, nil, cons, Fields, get, get_key, insert_key,
  get_key-insert_key, as_str, as_array, and_then-eq-some, ◌>>=◌, is_some,
}
use infraweave.ResourceChange.Erasure.{erase, sanitize_values-erase}
use infraweave.ResourceChange.Dependencies.{texts}
use infraweave.ResourceChange.Parse.{
  SanitizedResourceChange, ResourceAction, create, delete, replace, no_op, action_of, stored,
  sanitized_change, mode_of, from_terraform_json, any_text, extract_destructive_change, cons_change,
  changes_of, sanitize_resource_changes, sanitize_resource_changes_from_plan, DestructiveChange,
  count_items, cons_destructive, destructive_of, plan_get_destructive_changes,
}

any_text-eq : (s : String) (xs : Items) → any_text s xs ≡ contains (texts xs) s
unfolding any_text texts
any_text-eq s nil = refl
any_text-eq s (cons (string t) xs) = ground (arith, any_text-eq s xs)
any_text-eq s (cons _ xs) = any_text-eq s xs

abbrev pub is_destructive : ResourceAction → Bool
is_destructive delete = true
is_destructive replace = true
is_destructive _ = false

is_destructive-action_of :
    (actions : List String) → is_destructive (action_of actions) ≡ contains actions "delete"
unfolding action_of
is_destructive-action_of actions = ground arith

-- The parts of a resource that parses.
record Parts (iter_set : List String → List String) (resource : Value) (c : SanitizedResourceChange)
    : Type 0 where
  address : String
  resource_type : String
  name : String
  change : Value
  actions : Items
  has_address : (get resource "address" >>= as_str) ≡ some address
  has_change : get resource "change" ≡ some change
  has_actions : (get change "actions" >>= as_array) ≡ some actions
  is_record : sanitized_change iter_set resource address resource_type name change actions ≡ c

from_terraform_json-Parts :
    (iter_set : List String → List String) (resource : Value) (c : SanitizedResourceChange)
    → from_terraform_json iter_set resource ≡ some c
    → Parts iter_set resource c
unfolding from_terraform_json
from_terraform_json-Parts iter_set resource c h =
    let (address, e1, h1) = and_then-eq-some (get resource "address" >>= as_str) _ h in
    let (resource_type, e2, h2) = and_then-eq-some (get resource "type" >>= as_str) _ h1 in
    let (name, e3, h3) = and_then-eq-some (get resource "name" >>= as_str) _ h2 in
    let (change, e4, h4) = and_then-eq-some (get resource "change") _ h3 in
    let (actions, e5, h5) = and_then-eq-some (get change "actions" >>= as_array) _ h4 in
    record {
      address = address;
      resource_type = resource_type;
      name = name;
      change = change;
      actions = actions;
      has_address = e1;
      has_change = e4;
      has_actions = e5;
      is_record = cc h5;
    }

extract-parts :
    (resource change : Value) (address : String) (actions : Items)
    → (get resource "address" >>= as_str) ≡ some address
    → get resource "change" ≡ some change
    → (get change "actions" >>= as_array) ≡ some actions
    → extract_destructive_change resource ≡ (
        if any_text "delete" actions
        then some (record {
          address = address;
          action = if ltb 1 (count_items actions) then "replace" else "delete";
        })
        else none)
unfolding extract_destructive_change
extract-parts resource change address actions d e f = rw (e, f, d) refl

-- The audit trail records each of these resources.
unfoldable pub all_recorded : (List String → List String) → Items → Bool
all_recorded iter_set nil = true
all_recorded iter_set (cons x xs) =
    is_some (from_terraform_json iter_set x) && all_recorded iter_set xs

-- The addresses of the records of a deletion or a replacement
unfoldable pub destroyed_addresses : List SanitizedResourceChange → List String
destroyed_addresses [] = []
destroyed_addresses (c ∷ cs) =
    if is_destructive c.action then c.address ∷ destroyed_addresses cs else destroyed_addresses cs

abbrev addresses : List DestructiveChange → List String
addresses cs = map (λ c. c.address) cs

addresses-cons_destructive :
    (b : Bool) (c : DestructiveChange) (cs : List DestructiveChange)
    → addresses (cons_destructive (if b then some c else none) cs)
      ≡ (if b then c.address ∷ addresses cs else addresses cs)
addresses-cons_destructive true c cs = refl
addresses-cons_destructive false c cs = refl

module _ (iter_set : List String → List String) where
  is_destructive-Parts :
      (resource : Value) (c : SanitizedResourceChange) (parts : Parts iter_set resource c)
      → is_destructive c.action ≡ any_text "delete" parts.actions
  unfolding action_of sanitized_change
  is_destructive-Parts resource c parts =
      ap is_destructive (ap (λ d. d.action) (sym parts.is_record))
      ∙ is_destructive-action_of (texts parts.actions)
      ∙ sym (any_text-eq "delete" parts.actions)

  address-Parts :
      (resource : Value) (c : SanitizedResourceChange) (parts : Parts iter_set resource c)
      → c.address ≡ parts.address
  unfolding sanitized_change
  address-Parts resource c parts = ap (λ d. d.address) (sym parts.is_record)

  destructive_item :
      (x : Value) (c : SanitizedResourceChange) (cs : List DestructiveChange)
      (rs : List SanitizedResourceChange)
      → from_terraform_json iter_set x ≡ some c
      → addresses cs ≡ destroyed_addresses rs
      → addresses (cons_destructive (extract_destructive_change x) cs)
        ≡ destroyed_addresses (c ∷ rs)
  unfolding destroyed_addresses
  destructive_item x c cs rs h same =
      let parts = from_terraform_json-Parts iter_set x c h in
      ap (λ o. addresses (cons_destructive o cs))
        (extract-parts x parts.change parts.address parts.actions parts.has_address parts.has_change
          parts.has_actions)
      ∙ addresses-cons_destructive (any_text "delete" parts.actions) _ cs
      ∙ ap (λ b. if b then parts.address ∷ addresses cs else addresses cs)
          (sym (is_destructive-Parts x c parts))
      ∙ ap (λ a. if is_destructive c.action then a ∷ addresses cs else addresses cs)
          (sym (address-Parts x c parts))
      ∙ ap (λ l. if is_destructive c.action then c.address ∷ l else l) same

  destructive_items :
      (xs : Items)
      → all_recorded iter_set xs ≡ true
      → addresses (destructive_of xs) ≡ destroyed_addresses (changes_of iter_set xs)
  unfolding destructive_of changes_of all_recorded
  destructive_items nil h = unfold destroyed_addresses in refl
  destructive_items (cons x xs) h = elim (Option-cases (from_terraform_json iter_set x)) [
    | inl e ↦ ground (arith, h, e)
    | inr (c, e) ↦
        destructive_item x c (destructive_of xs) (changes_of iter_set xs) e
          (destructive_items xs (ground (arith, h, e)))
        ∙ ap (λ o. destroyed_addresses (cons_change o (changes_of iter_set xs))) (sym e)
  ]

  -- Of a plan whose resources the audit trail records each, the list of destructive changes has the
  -- addresses of the recorded deletions and replacements, in their order.
  pub destructive_iff :
      (plan : Value) (resources : Items)
      → get plan "resource_changes" ≡ some (array resources)
      → all_recorded iter_set resources ≡ true
      → map (λ c. c.address) (plan_get_destructive_changes plan)
        ≡ destroyed_addresses (sanitize_resource_changes_from_plan iter_set plan false)
  unfolding plan_get_destructive_changes sanitize_resource_changes_from_plan
      sanitize_resource_changes
  destructive_iff plan resources h recorded = rw h (destructive_items resources recorded)

-- A resource of a plan, with the state of its change filled in.
abbrev pub with_state : Fields → Fields → Value → Value → Value
with_state resource change before after = object (
    insert_key "change" (object (insert_key "after" after (insert_key "before" before change)))
      resource)

abbrev pub stores_values : ResourceAction → Bool
stores_values create = true
stores_values delete = true
stores_values no_op = true
stores_values _ = false

module _ (iter_set : List String → List String) (mb ma : Value) (vb va wb wa : Value) where
  stored_same :
      (action : ResourceAction) (change : Fields)
      → stores_values action ≡ true
      → get_key change "before_sensitive" ≡ some mb
      → get_key change "after_sensitive" ≡ some ma
      → erase vb mb ≡ erase wb mb
      → erase va ma ≡ erase wa ma
      → stored iter_set action (object (insert_key "after" va (insert_key "before" vb change)))
        ≡ stored iter_set action (object (insert_key "after" wa (insert_key "before" wb change)))
  unfolding stored
  stored_same create change ok hb ha eb ea =
      simp (get_key-insert_key, ha) (rw (sanitize_values-erase va wa ma ea))
  stored_same delete change ok hb ha eb ea =
      simp (get_key-insert_key, hb) (rw (sanitize_values-erase vb wb mb eb))
  stored_same no_op change ok hb ha eb ea = refl
  stored_same _ change ok hb ha eb ea = cc

  -- The audit record of a resource that is created, deleted or left alone is the same for any two
  -- states before and after that differ only in places that their markers call sensitive.
  pub discloses_nothing :
      (resource change : Fields) (actions : Items)
      → get_key change "actions" ≡ some (array actions)
      → stores_values (action_of (texts actions)) ≡ true
      → get_key change "before_sensitive" ≡ some mb
      → get_key change "after_sensitive" ≡ some ma
      → erase vb mb ≡ erase wb mb
      → erase va ma ≡ erase wa ma
      → from_terraform_json iter_set (with_state resource change vb va)
        ≡ from_terraform_json iter_set (with_state resource change wb wa)
  unfolding from_terraform_json sanitized_change mode_of
  discloses_nothing resource change actions acts ok hb ha eb ea =
      simp (get_key-insert_key, acts, stored_same (action_of (texts actions)) change ok hb ha eb ea)
