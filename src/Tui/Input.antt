-- ===== src/Tui/Input.antt =====
-- `VariableInput` of cli/src/tui/state/claim_builder_state.rs: a text with a cursor that counts bytes.
-- A text is the list of its characters; a position that is no boundary of characters panics: `none`.
use infraweave.Prelude.{
  ℕ, ◌+◌, ◌-◌, Bool, true, false, not, ◌&&◌, ◌||◌, Option, none, some, String, Char, code, List, [],
  ◌∷◌, is_empty, ltb, leb, eqb, if◌then◌else◌,
}

pub record VariableInput : Type 0 where
  pub name : String
  pub description : String
  pub var_type : List Char
  pub default_value : Option String
  pub is_required : Bool
  pub is_sensitive : Bool
  pub user_value : List Char
  pub cursor_position : ℕ

-- The bytes of a character in UTF-8
abbrev pub len_utf8 : Char → ℕ
len_utf8 c =
    if ltb (code c) 128
    then 1
    else if ltb (code c) 2048
    then 2
    else if ltb (code c) 65536
    then 3
    else 4

abbrev pub byte_length : List Char → ℕ
byte_length [] = 0
byte_length (c ∷ cs) = len_utf8 c + byte_length cs

abbrev pub on_rest : Char → Option (List Char) → Option (List Char)
on_rest c none = none
on_rest c (some cs) = some (c ∷ cs)

-- `String::insert` and `String::remove` at a number of bytes
abbrev pub insert : List Char → ℕ → Char → Option (List Char)
insert [] i c = if eqb i 0 then some (c ∷ []) else none
insert (x ∷ xs) i c =
    let rest = insert xs (i - len_utf8 x) c in
    if eqb i 0 then some (c ∷ x ∷ xs) else if leb (len_utf8 x) i then on_rest x rest else none

abbrev pub remove_at : List Char → ℕ → Option (List Char)
remove_at [] i = none
remove_at (x ∷ xs) i =
    let rest = remove_at xs (i - len_utf8 x) in
    if eqb i 0 then some xs else if leb (len_utf8 x) i then on_rest x rest else none

-- `a.starts_with(b)`
abbrev pub starts_with : List Char → List Char → Bool
starts_with a [] = true
starts_with [] (y ∷ ys) = false
starts_with (x ∷ xs) (y ∷ ys) = eqb (code x) (code y) && starts_with xs ys

abbrev pub contains_text : List Char → List Char → Bool
contains_text [] b = starts_with [] b
contains_text (x ∷ xs) b = starts_with (x ∷ xs) b || contains_text xs b

abbrev pub true_text : List Char
true_text = "t" ∷ "r" ∷ "u" ∷ "e" ∷ []

abbrev pub false_text : List Char
false_text = "f" ∷ "a" ∷ "l" ∷ "s" ∷ "e" ∷ []

abbrev bool_text : List Char
bool_text = "b" ∷ "o" ∷ "o" ∷ "l" ∷ []

abbrev number_text : List Char
number_text = "n" ∷ "u" ∷ "m" ∷ "b" ∷ "e" ∷ "r" ∷ []

abbrev int_text : List Char
int_text = "i" ∷ "n" ∷ "t" ∷ []

abbrev pub inserted : VariableInput → Option (List Char) → Option VariableInput
inserted s none = none
inserted s (some v) = some (record s { user_value = v; cursor_position = s.cursor_position + 1 })

abbrev pub insert_if : Char → VariableInput → Option Bool → Option VariableInput
insert_if c s none = none
insert_if c s (some valid) =
    if valid then inserted s (insert s.user_value s.cursor_position c) else some s

abbrev pub is_number_char : (Char → Bool) → Char → Bool
is_number_char is_numeric c = is_numeric c || eqb (code c) (code "-") || eqb (code c) (code ".")

-- The tables of Unicode are parameters: `str::to_lowercase` and `char::is_numeric`.
module _ (to_lowercase : List Char → List Char) where
  unfoldable pub is_bool : VariableInput → Bool
  is_bool s = contains_text (to_lowercase s.var_type) bool_text

  unfoldable pub is_number : VariableInput → Bool
  is_number s =
      contains_text (to_lowercase s.var_type) number_text
      || contains_text (to_lowercase s.var_type) int_text

  unfoldable pub is_bool_prefix : List Char → Bool
  is_bool_prefix v =
      starts_with true_text (to_lowercase v) || starts_with false_text (to_lowercase v)

  abbrev pub deleted : VariableInput → Option (List Char) → Option VariableInput
  deleted s none = none
  deleted s (some v) =
      if is_bool s && not (is_empty s.user_value) && not (is_empty v) && not (is_bool_prefix v)
      then some s
      else some (record s { user_value = v; cursor_position = s.cursor_position - 1 })

  unfoldable pub delete_char : VariableInput → Option VariableInput
  delete_char s =
      if ltb 0 s.cursor_position
      then deleted s (remove_at s.user_value (s.cursor_position - 1))
      else some s

  -- What a Bool field accepts
  abbrev pub is_valid_for_bool : Option (List Char) → Option Bool
  is_valid_for_bool none = none
  is_valid_for_bool (some potential_value) = some (is_bool_prefix potential_value)

module _ (to_lowercase : List Char → List Char) (is_numeric : Char → Bool) where
  unfoldable pub is_valid_char_for_type : Char → VariableInput → Option Bool
  is_valid_char_for_type c s =
      if is_bool to_lowercase s
      then is_valid_for_bool to_lowercase (insert s.user_value s.cursor_position c)
      else if is_number to_lowercase s
      then some (is_number_char is_numeric c)
      else some true

  unfoldable pub insert_char : Char → VariableInput → Option VariableInput
  unfolding is_valid_char_for_type
  insert_char c s = insert_if c s (is_valid_char_for_type c s)

unfoldable pub move_cursor_left : VariableInput → VariableInput
move_cursor_left s =
    if ltb 0 s.cursor_position then record s { cursor_position = s.cursor_position - 1 } else s

unfoldable pub move_cursor_right : VariableInput → VariableInput
move_cursor_right s =
    if ltb s.cursor_position (byte_length s.user_value)
    then record s { cursor_position = s.cursor_position + 1 }
    else s

unfoldable pub move_cursor_home : VariableInput → VariableInput
move_cursor_home s = record s { cursor_position = 0 }

unfoldable pub move_cursor_end : VariableInput → VariableInput
move_cursor_end s = record s { cursor_position = byte_length s.user_value }
