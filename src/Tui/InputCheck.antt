-- ===== src/Tui/InputCheck.antt =====
-- `validate_value` of cli/src/tui/state/claim_builder_state.rs. An error has the parts of its message.
-- The parsers of numbers (`f64`) and of JSON (serde_json) are parameters that say what they accept.
use infraweave.Prelude.{
  ◌≡◌, refl, ◌∙◌, Bool, true, false, not, ◌&&◌, ◌||◌, Option, none, some, String, Char, List, [],
  ◌∷◌, is_empty, if◌then◌else◌,
}
use infraweave.Tui.Input.{
  VariableInput, starts_with, contains_text, is_bool, is_number, true_text, false_text,
}

pub data ValueError : Type 0 where
  required_empty : String → ValueError
  not_bool not_number : List Char → ValueError
  no_object object_not_json no_array array_not_json : ValueError

-- `==` of texts
abbrev same_text : List Char → List Char → Bool
same_text a b = starts_with a b && starts_with b a

abbrev map_text : List Char
map_text = "m" ∷ "a" ∷ "p" ∷ []

abbrev object_text : List Char
object_text = "o" ∷ "b" ∷ "j" ∷ "e" ∷ "c" ∷ "t" ∷ []

abbrev list_text : List Char
list_text = "l" ∷ "i" ∷ "s" ∷ "t" ∷ []

abbrev array_text : List Char
array_text = "a" ∷ "r" ∷ "r" ∷ "a" ∷ "y" ∷ []

abbrev set_text : List Char
set_text = "s" ∷ "e" ∷ "t" ∷ []

-- What an early return leaves for the checks after it
abbrev first_error : Option ValueError → Option ValueError → Option ValueError
first_error none next = next
first_error (some e) next = some e

abbrev pub is_accepted : Option ValueError → Bool
is_accepted none = true
is_accepted (some e) = false

first_error-is_accepted :
    (a b : Option ValueError) → is_accepted (first_error a b) ≡ (is_accepted a && is_accepted b)
first_error-is_accepted none b = refl
first_error-is_accepted (some e) b = refl

module _ (to_lowercase : List Char → List Char) where
  abbrev pub is_true_or_false : VariableInput → Bool
  is_true_or_false s =
      same_text (to_lowercase s.user_value) true_text
      || same_text (to_lowercase s.user_value) false_text

  abbrev pub is_map : VariableInput → Bool
  is_map s =
      contains_text (to_lowercase s.var_type) map_text
      || contains_text (to_lowercase s.var_type) object_text

  abbrev pub is_list : VariableInput → Bool
  is_list s =
      contains_text (to_lowercase s.var_type) list_text
      || contains_text (to_lowercase s.var_type) array_text
      || contains_text (to_lowercase s.var_type) set_text

  abbrev pub bool_error : VariableInput → Option ValueError
  bool_error s =
      if is_bool to_lowercase s
      then if is_true_or_false s then none else some (not_bool s.user_value)
      else none

module _ (to_lowercase : List Char → List Char) (parses_f64 parses_json : List Char → Bool) where
  abbrev pub number_error : VariableInput → Option ValueError
  number_error s =
      if is_number to_lowercase s
      then if parses_f64 s.user_value then none else some (not_number s.user_value)
      else none

  abbrev pub json_error : Char → ValueError → ValueError → List Char → Option ValueError
  json_error opening wrong_start not_json v =
      if not (starts_with v (opening ∷ []))
      then some wrong_start
      else if parses_json v
      then none
      else some not_json

  abbrev pub map_error : VariableInput → Option ValueError
  map_error s =
      if is_map to_lowercase s then json_error "{" no_object object_not_json s.user_value else none

  abbrev pub list_error : VariableInput → Option ValueError
  list_error s =
      if is_list to_lowercase s then json_error "[" no_array array_not_json s.user_value else none

  unfoldable pub validate_value : VariableInput → Option ValueError
  validate_value s =
      if is_empty s.user_value
      then if s.is_required then some (required_empty s.name) else none
      else first_error (bool_error to_lowercase s)
          (first_error (number_error s) (first_error (map_error s) (list_error s)))

  -- What a text must be for the types that a field names
  abbrev pub is_of_type : VariableInput → Bool
  is_of_type s =
      (not (is_bool to_lowercase s) || is_true_or_false to_lowercase s)
      && ((not (is_number to_lowercase s) || parses_f64 s.user_value)
          && ((not (is_map to_lowercase s)
                || (starts_with s.user_value ("{" ∷ []) && parses_json s.user_value))
              && (not (is_list to_lowercase s)
                  || (starts_with s.user_value ("[" ∷ []) && parses_json s.user_value))))

  if-is_accepted :
      (named holds : Bool) (e : ValueError)
      → is_accepted (if named then if holds then none else some e else none) ≡ (not named || holds)
  if-is_accepted true true e = refl
  if-is_accepted true false e = refl
  if-is_accepted false holds e = refl

  json-is_accepted :
      (named starts parses : Bool) (e f : ValueError)
      → is_accepted
          (if named then if not starts then some e else if parses then none else some f else none)
        ≡ (not named || (starts && parses))
  json-is_accepted true true true e f = refl
  json-is_accepted true true false e f = refl
  json-is_accepted true false parses e f = refl
  json-is_accepted false starts parses e f = refl

  accepted :
      (empty required : Bool) (n : String) (a b c d : Option ValueError)
      → is_accepted (
          if empty
          then if required then some (required_empty n) else none
          else first_error a (first_error b (first_error c d)))
        ≡ (if empty
            then not required
            else (is_accepted a && (is_accepted b && (is_accepted c && is_accepted d))))
  accepted true true n a b c d = refl
  accepted true false n a b c d = refl
  accepted false required n a b c d =
      rw (first_error-is_accepted a, first_error-is_accepted b, first_error-is_accepted c)

  -- A field is accepted exactly where it is empty and not required, or its text is what each of the
  -- types that the field names asks for: `true` or `false` in any case, a number, an object or an array.
  pub validate_value-is_accepted :
      (s : VariableInput)
      → is_accepted (validate_value s)
        ≡ (if is_empty s.user_value then not s.is_required else is_of_type s)
  unfolding validate_value
  validate_value-is_accepted s =
      accepted (is_empty s.user_value) s.is_required s.name (bool_error to_lowercase s)
        (number_error s) (map_error s) (list_error s)
      ∙ rw (
        if-is_accepted (is_bool to_lowercase s),
        if-is_accepted (is_number to_lowercase s),
        json-is_accepted (is_map to_lowercase s),
        json-is_accepted (is_list to_lowercase s),
      )
