-- ===== src/Redact.antt =====
-- utils/src/redact.rs: what is kept of a value that may be secret. The decimal form of a number is a parameter.
pub mod Hidden
mod Tests
use infraweave.Prelude.{
  ℕ, zero, suc, ◌-◌, ◌+◌, Bool, true, false, ◌&&◌, ◌||◌, Option, none, some, String, List, [], ◌∷◌,
  ◌==◌, map, Char, code, eqb, leb, ltb, has_prefix, concat, join, trim, if◌then◌else◌,
}

-- The characters of a text, counted, taken and dropped
abbrev pub count_chars : String → ℕ
count_chars String.[] = 0
count_chars (String.◌∷◌ c s) = suc (count_chars s)

abbrev pub take_chars : ℕ → String → String
take_chars zero s = ""
take_chars (suc n) String.[] = ""
take_chars (suc n) (String.◌∷◌ c s) = String.◌∷◌ c (take_chars n s)

abbrev pub drop_chars : ℕ → String → String
drop_chars zero s = s
drop_chars (suc n) String.[] = ""
drop_chars (suc n) (String.◌∷◌ c s) = drop_chars n s

-- `to_ascii_lowercase`, by codes
abbrev lower_code : ℕ → ℕ
lower_code c = if leb 65 c && leb c 90 then c + 32 else c

-- Whether the text starts with the needle, where its capital letters are made small
abbrev lower_prefix : String → String → Bool
lower_prefix s String.[] = true
lower_prefix String.[] (String.◌∷◌ d needle) = false
lower_prefix (String.◌∷◌ c s) (String.◌∷◌ d needle) =
    eqb (lower_code (code c)) (code d) && lower_prefix s needle

abbrev lower_contains : String → String → Bool
lower_contains String.[] needle = lower_prefix "" needle
lower_contains (String.◌∷◌ c s) needle =
    lower_prefix (String.◌∷◌ c s) needle || lower_contains s needle

abbrev any_needle : String → List String → Bool
any_needle key [] = false
any_needle key (needle ∷ needles) = lower_contains key needle || any_needle key needles

unfoldable pub is_sensitive_key : String → Bool
is_sensitive_key key = any_needle key (
    "secret" ∷ "password" ∷ "passwd" ∷ "token" ∷ "credential" ∷ "access_key" ∷ "accesskey"
    ∷ "api_key" ∷ "apikey" ∷ "private" ∷ "auth" ∷ [])

-- A key and its value
pub record Split : Type 0 where
  pub key : String
  pub value : String

abbrev pub before : Char → Split → Split
before c s = record { key = String.◌∷◌ c s.key; value = s.value }

-- `match_indices('=')`, with what stands on the two sides
abbrev pub splits : String → List Split
splits String.[] = []
splits (String.◌∷◌ c s) =
    let rest = map (before c) (splits s) in
    if eqb (code c) 61 then record { key = ""; value = s } ∷ rest else rest

abbrev pub find_key : (String → Bool) → List Split → Option Split
find_key p [] = none
find_key p (s ∷ rest) = if p s.key then some s else find_key p rest

unfoldable pub split_at_sensitive_key : String → Option Split
split_at_sensitive_key arg = find_key is_sensitive_key (splits arg)

module _ (show_number : ℕ → String) where
  abbrev describe_len : ℕ → String
  describe_len n = if eqb n 1 then "1 char" else concat (show_number n ∷ " chars" ∷ [])

  -- By the length, and what is kept of the two ends
  abbrev pub masked : ℕ → String → String → String
  masked n head tail =
      if eqb n 0
      then "(empty)"
      else if ltb n 12
      then concat ("***(" ∷ describe_len n ∷ ")" ∷ [])
      else concat (head ∷ "***" ∷ tail ∷ "(" ∷ describe_len n ∷ ")" ∷ [])

  unfoldable pub mask_value : String → String
  mask_value value =
      let n = count_chars value in masked n (take_chars 3 value) (drop_chars (n - 3) value)

  abbrev pub sanitize_split : String → Option Split → String
  sanitize_split arg none = arg
  sanitize_split arg (some s) = concat (s.key ∷ "=" ∷ mask_value s.value ∷ [])

  abbrev pub sanitize_arg : String → String
  sanitize_arg arg = sanitize_split arg (split_at_sensitive_key arg)

  unfoldable pub sanitize_cli_args : List String → String
  sanitize_cli_args args = join " " (map sanitize_arg args)

  abbrev shortened : String → ℕ → String
  shortened kept dropped =
      if eqb dropped 0
      then kept
      else concat (kept ∷ "... (+" ∷ show_number dropped ∷ " chars, see logs)" ∷ [])

  unfoldable pub truncate_for_span : String → String
  truncate_for_span text =
      shortened (take_chars 512 (trim text)) (count_chars (drop_chars 512 (trim text)))
