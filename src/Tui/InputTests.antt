-- ===== src/Tui/InputTests.antt =====
-- Fields of the claim builder of cli/src/tui/state/claim_builder_state.rs at concrete characters.
use infraweave.Prelude.{
  ◌≡◌, refl, Bool, false, true, some, none, Char, List, [], ◌∷◌, ltb, ◌&&◌, code, arith,
}
use infraweave.Tui.Input.{
  VariableInput, insert_char, delete_char, is_bool, is_number, is_valid_char_for_type,
}
use infraweave.Tui.InputCheck.{
  is_accepted, is_of_type, not_bool, validate_value, validate_value-is_accepted,
}
use infraweave.Tui.InputValid.{delete_char-insert_char, insert_char-insert_char}

abbrev same_case : List Char → List Char
same_case cs = cs

abbrev is_digit : Char → Bool
is_digit c = ltb 47 (code c) && ltb (code c) 58

abbrev text_field : VariableInput
text_field = record {
  name = "bucket";
  description = "";
  var_type = "s" ∷ "t" ∷ [];
  default_value = none;
  is_required = true;
  is_sensitive = false;
  user_value = "x" ∷ "y" ∷ [];
  cursor_position = 1;
}

delete_char-insert_char_example :
    delete_char same_case
      (record text_field { user_value = "x" ∷ "é" ∷ "y" ∷ []; cursor_position = 2 })
    ≡ some text_field
unfolding is_bool is_number insert_char is_valid_char_for_type
delete_char-insert_char_example =
    delete_char-insert_char same_case is_digit "é" text_field
      (record text_field { user_value = "x" ∷ "é" ∷ "y" ∷ []; cursor_position = 2 }) refl refl refl

insert_char-insert_char_example :
    insert_char same_case is_digit "a"
      (record text_field { user_value = "x" ∷ "é" ∷ "y" ∷ []; cursor_position = 2 })
    ≡ none
unfolding is_bool is_number insert_char is_valid_char_for_type
insert_char-insert_char_example =
    insert_char-insert_char same_case is_digit "é" "a" text_field
      (record text_field { user_value = "x" ∷ "é" ∷ "y" ∷ []; cursor_position = 2 }) refl refl
      (omega arith) refl

abbrev yes_field : VariableInput
yes_field = record text_field { var_type = "b" ∷ "o" ∷ "o" ∷ "l" ∷ []; user_value = "y" ∷ [] }

abbrev starts_with_digit : List Char → Bool
starts_with_digit [] = false
starts_with_digit (c ∷ cs) = is_digit c

abbrev ends_brackets : List Char → Bool
ends_brackets [] = false
ends_brackets (c ∷ cs) = true

validate_value-is_accepted_example :
    is_accepted (validate_value same_case starts_with_digit ends_brackets yes_field)
    ≡ is_of_type same_case starts_with_digit ends_brackets yes_field
validate_value-is_accepted_example =
    validate_value-is_accepted same_case starts_with_digit ends_brackets yes_field

rejected :
    validate_value same_case starts_with_digit ends_brackets yes_field ≡ some (not_bool ("y" ∷ []))
unfolding validate_value is_bool
rejected = refl
