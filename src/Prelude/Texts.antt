-- ===== src/Prelude/Texts.antt =====
-- Texts by their characters.
use Prim.Native.Nat.{ℕ, zero, suc, ◌-◌}
use Prim.Native.Char.{Char, code}
use Prim.Native.String.{String, ◌++◌ as str_append}
use text.Mathlib.Text.{◌==◌}
use mathlib.Core.Option.{Option, none, some}
use mathlib.Core.Bool.{Bool, true, false, ◌&&◌, ◌||◌}
use mathlib.Core.List.{List, [], ◌∷◌}
use infraweave.Prelude.Tests.{if◌then◌else◌, eqb, leb}

-- The code points
abbrev pub codes : String → List ℕ
codes String.[] = []
codes (String.◌∷◌ c s) = code c ∷ codes s

-- `starts_with`
abbrev pub has_prefix : String → String → Bool
has_prefix s String.[] = true
has_prefix String.[] (String.◌∷◌ d p) = false
has_prefix (String.◌∷◌ c s) (String.◌∷◌ d p) = eqb (code c) (code d) && has_prefix s p

abbrev pub push_char : Char → List String → List String
push_char c [] = String.◌∷◌ c String.[] ∷ []
push_char c (part ∷ parts) = String.◌∷◌ c part ∷ parts

-- `split` at a character, given by its code
abbrev pub split_at : ℕ → String → List String
split_at sep String.[] = "" ∷ []
split_at sep (String.◌∷◌ c s) =
    let rest = split_at sep s in if eqb (code c) sep then "" ∷ rest else push_char c rest

-- `join`
abbrev pub join : String → List String → String
join sep [] = ""
join sep (a ∷ []) = a
join sep (a ∷ b ∷ rest) = str_append a (str_append sep (join sep (b ∷ rest)))

-- `last` of the parts of a split, which are never none
abbrev pub last_part : List String → String
last_part [] = ""
last_part (a ∷ []) = a
last_part (a ∷ b ∷ rest) = last_part (b ∷ rest)

abbrev pub tail : List String → List String
tail [] = []
tail (a ∷ rest) = rest

-- `format!`, one piece after another
abbrev pub concat : List String → String
concat [] = ""
concat (a ∷ rest) = str_append a (concat rest)

abbrev count : String → ℕ
count String.[] = 0
count (String.◌∷◌ c s) = suc (count s)

-- `split` at a text that is not empty: `skip` characters are left of the separator that was found.
abbrev split_from : String → ℕ → String → List String
split_from sep skip String.[] = "" ∷ []
split_from sep zero (String.◌∷◌ c s) =
    let here = has_prefix (String.◌∷◌ c s) sep in
    let rest = split_from sep (if here then count sep - 1 else 0) s in
    if here then "" ∷ rest else push_char c rest
split_from sep (suc skip) (String.◌∷◌ c s) = split_from sep skip s

abbrev pub split_text : String → String → List String
split_text sep s = split_from sep 0 s

-- `char::is_whitespace`
abbrev is_whitespace : Char → Bool
is_whitespace c =
    let n = code c in
    (leb 9 n && leb n 13)
    || eqb n 32
    || eqb n 133
    || eqb n 160
    || eqb n 5760
    || (leb 8192 n && leb n 8202)
    || eqb n 8232
    || eqb n 8233
    || eqb n 8239
    || eqb n 8287
    || eqb n 12288

abbrev trim_start : String → String
trim_start String.[] = ""
trim_start (String.◌∷◌ c s) =
    let rest = trim_start s in if is_whitespace c then rest else String.◌∷◌ c s

abbrev trim_end : String → String
trim_end String.[] = ""
trim_end (String.◌∷◌ c s) =
    let rest = trim_end s in if rest == "" && is_whitespace c then "" else String.◌∷◌ c rest

-- `trim`
abbrev pub trim : String → String
trim s = trim_start (trim_end s)

-- `strip_prefix`
abbrev pub strip_prefix : String → String → Option String
strip_prefix s String.[] = some s
strip_prefix String.[] (String.◌∷◌ d p) = none
strip_prefix (String.◌∷◌ c s) (String.◌∷◌ d p) =
    let rest = strip_prefix s p in if eqb (code c) (code d) then rest else none

-- `split_once`: the texts before and after the first place where the separator stands
abbrev with_first : Char → Option (String × String) → Option (String × String)
with_first c none = none
with_first c (some (before, after)) = some (String.◌∷◌ c before, after)

abbrev pub split_once : String → String → Option (String × String)
split_once String.[] sep = elim (strip_prefix String.[] sep) [
  | some after ↦ some ("", after)
  | none ↦ none
]
split_once (String.◌∷◌ c s) sep =
    let rest = split_once s sep in
    elim (strip_prefix (String.◌∷◌ c s) sep) [
      | some after ↦ some ("", after)
      | none ↦ with_first c rest
    ]

-- `strip_suffix`
abbrev pub strip_suffix : String → String → Option String
strip_suffix String.[] suffix = if suffix == "" then some "" else none
strip_suffix (String.◌∷◌ c s) suffix =
    let rest = strip_suffix s suffix in
    if String.◌∷◌ c s == suffix
    then some ""
    else elim rest [ some stem ↦ some (String.◌∷◌ c stem) | none ↦ none ]

-- `str::contains`
abbrev pub contains_text : String → String → Bool
contains_text String.[] part = part == ""
contains_text (String.◌∷◌ c s) part =
    let rest = contains_text s part in if has_prefix (String.◌∷◌ c s) part then true else rest

-- `str::replace` of a text that is not empty
abbrev pub replace : String → String → String → String
replace s from to = join to (split_text from s)
