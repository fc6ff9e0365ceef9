-- ===== src/Infra/Names.antt =====
-- `validate_name`, `validate_kind` and `get_deployment_details` of env_common/src/logic/api_infra.rs. The
-- regular expression of a name is a function by its parts; `to_lowercase` is a table of Unicode.
use infraweave.Prelude.{
  ℕ, zero, suc, ◌≡◌, refl, ◌∙◌, Bool, true, false, ◌&&◌, ◌||◌, String, List, [], ◌∷◌, ◌==◌, length,
  codes, concat, leb, eqb, if◌then◌else◌, arith,
}
use infraweave.Cloud.{Fetched, fetched, fetch_error}

-- `[a-z0-9]`
abbrev pub is_alphanumeric : ℕ → Bool
is_alphanumeric c = (leb 97 c && leb c 122) || (leb 48 c && leb c 57)

-- `[-a-z0-9]`
abbrev pub is_name_char : ℕ → Bool
is_name_char c = eqb c 45 || is_alphanumeric c

-- `[-a-z0-9]{0,n}[a-z0-9]$`
abbrev pub matches_end : ℕ → List ℕ → Bool
matches_end n [] = false
matches_end n (c ∷ []) = is_alphanumeric c
matches_end zero (c ∷ d ∷ cs) = false
matches_end (suc n) (c ∷ d ∷ cs) = is_name_char c && matches_end n (d ∷ cs)

-- `^[a-z0-9](?:[-a-z0-9]{0,61}[a-z0-9])?$`
abbrev pub matches_name : List ℕ → Bool
matches_name [] = false
matches_name (c ∷ []) = is_alphanumeric c
matches_name (c ∷ d ∷ cs) = is_alphanumeric c && matches_end 61 (d ∷ cs)

abbrev pub unit_or : Bool → String → Fetched (Unit {0})
unit_or true e = fetched tt
unit_or false e = fetch_error e

abbrev invalid_name : String → String
invalid_name name = concat (
    "Deployment name and namespace (" ∷ name
    ∷ ") must be 1-63 characters long, contain only lowercase letters (a-z), digits (0-9), or hyphens (-), and must start and end with a lowercase letter or digit."
    ∷ [])

unfoldable pub validate_name : String → Fetched (Unit {0})
validate_name name = unit_or (matches_name (codes name)) (invalid_name name)

module _ (to_lowercase : String → String) where
  abbrev kind_error : String → String → String
  kind_error kind module_name =
      if to_lowercase module_name == to_lowercase kind
      then concat ("Kind " ∷ kind ∷ " not exist, did you mean " ∷ module_name ∷ "?" ∷ [])
      else concat ("Kind " ∷ kind ∷ " does not exist" ∷ [])

  unfoldable pub validate_kind : String → String → Fetched (Unit {0})
  validate_kind kind module_name = unit_or (module_name == kind) (kind_error kind module_name)

abbrev pub last_is : List ℕ → Bool
last_is [] = false
last_is (c ∷ []) = is_alphanumeric c
last_is (c ∷ d ∷ cs) = last_is (d ∷ cs)

abbrev pub first_is : List ℕ → Bool
first_is [] = false
first_is (c ∷ cs) = is_alphanumeric c

abbrev pub all_name_chars : List ℕ → Bool
all_name_chars [] = true
all_name_chars (c ∷ cs) = is_name_char c && all_name_chars cs

matches_end-eq :
    (n : ℕ) (c : ℕ) (cs : List ℕ)
    → matches_end n (c ∷ cs) ≡ (all_name_chars (c ∷ cs) && last_is (c ∷ cs) && leb (length cs) n)
matches_end-eq n c [] = ground arith
matches_end-eq zero c (d ∷ cs) = ground arith
matches_end-eq (suc n) c (d ∷ cs) = ground (arith, matches_end-eq n d cs)

matches_name-eq :
    (cs : List ℕ)
    → matches_name cs ≡ (all_name_chars cs && first_is cs && last_is cs && leb (length cs) 63)
matches_name-eq [] = refl
matches_name-eq (c ∷ []) = ground arith
matches_name-eq (c ∷ d ∷ cs) = ground (arith, matches_end-eq 61 d cs)

abbrev pub is_ok : {A : Type 0} → Fetched A → Bool
is_ok (fetched a) = true
is_ok (fetch_error e) = false

unit_or-is_ok : (b : Bool) (e : String) → is_ok (unit_or b e) ≡ b
unit_or-is_ok true e = refl
unit_or-is_ok false e = refl

-- A name is valid exactly where it has 1 to 63 characters, all of them lowercase letters, digits or
-- hyphens, and the first and the last no hyphen.
pub validate_name-is_ok :
    (name : String)
    → is_ok (validate_name name) ≡ (
        all_name_chars (codes name)
        && first_is (codes name)
        && last_is (codes name)
        && leb (length (codes name)) 63)
unfolding validate_name
validate_name-is_ok name = unit_or-is_ok _ _ ∙ matches_name-eq (codes name)
