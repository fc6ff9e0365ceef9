-- ===== src/Prelude/Lists.antt =====
-- Lists measured by native numbers, and lists of texts as sets.
use Prim.Native.Nat.{ℕ, zero, suc, ◌+◌, ◌<◌}
use Prim.Native.String.{String}
use text.Mathlib.Text.{◌==◌}
use text.Mathlib.TextEquality.{eq_iff}
use mathlib.Core.Path.{◌≡◌, refl}
use mathlib.Core.Logic.{inl, inr}
use mathlib.Core.Bool.{Bool, true, false, not, ◌&&◌, ◌||◌}
use mathlib.Core.List.{List, [], ◌∷◌, ◌++◌}
use mathlib.Core.Option.{Option, none, some}
use native.Mathlib.Omega.{arith}
use infraweave.Prelude.Tests.{if◌then◌else◌, Bool-cases}

module _ {ℓ} {A : Type ℓ} where
  abbrev pub length : List A → ℕ
  length [] = 0
  length (x ∷ xs) = suc (length xs)

  abbrev pub get_elem? : List A → ℕ → Option A
  get_elem? [] i = none
  get_elem? (x ∷ xs) zero = some x
  get_elem? (x ∷ xs) (suc i) = get_elem? xs i

  abbrev pub is_empty : List A → Bool
  is_empty [] = true
  is_empty (x ∷ xs) = false

  pub length-append : (xs ys : List A) → length (xs ++ ys) ≡ length xs + length ys
  length-append [] ys = omega arith
  length-append (x ∷ xs) ys = omega (arith, length-append xs ys)

  pub get_elem?-lt : (xs : List A) (i : ℕ) → i < length xs → (x : A) × (get_elem? xs i ≡ some x)
  get_elem?-lt [] i h = ground (arith, h)
  get_elem?-lt (x ∷ xs) zero h = (x, refl)
  get_elem?-lt (x ∷ xs) (suc i) h = get_elem?-lt xs i (omega (arith, h))

  pub length-get_elem? : (xs : List A) (i : ℕ) (x : A) → get_elem? xs i ≡ some x → i < length xs
  length-get_elem? [] i x h = ground arith
  length-get_elem? (y ∷ xs) zero x h = omega arith
  length-get_elem? (y ∷ xs) (suc i) x h = omega (arith, length-get_elem? xs i x h)

-- `P` of each element
abbrev pub All {ℓ κ} : {A : Type ℓ} → (A → Type κ) → List A → Type κ
All P [] = Unit
All P (x ∷ xs) = P x × All P xs

pub All-append {ℓ κ} :
    {A : Type ℓ} (P : A → Type κ) (xs ys : List A) → All P (xs ++ ys) → All P xs × All P ys
All-append P [] ys h = (tt, h)
All-append P (x ∷ xs) ys (p, h) = let (a, b) = All-append P xs ys h in ((p, a), b)

pub append-All {ℓ κ} :
    {A : Type ℓ} (P : A → Type κ) (xs ys : List A) → All P xs → All P ys → All P (xs ++ ys)
append-All P [] ys a b = b
append-All P (x ∷ xs) ys (p, a) b = (p, append-All P xs ys a b)

-- `contains` of a list or of a set of texts
abbrev pub contains : List String → String → Bool
contains [] a = false
contains (x ∷ xs) a = x == a || contains xs a

pub contains-append :
    (xs ys : List String) (a : String) → contains (xs ++ ys) a ≡ (contains xs a || contains ys a)
contains-append [] ys a = refl
contains-append (x ∷ xs) ys a = ground (arith, contains-append xs ys a)

-- `HashSet::difference`: what the first holds and the second does not
abbrev pub difference : List String → List String → List String
difference [] ys = []
difference (x ∷ xs) ys = let rest = difference xs ys in if contains ys x then rest else x ∷ rest

pub contains-difference :
    (xs ys : List String) (a : String)
    → contains (difference xs ys) a ≡ (contains xs a && not (contains ys a))
contains-difference [] ys a = refl
contains-difference (x ∷ xs) ys a = elim (Bool-cases (x == a)) [
  | inl e ↦ rw ((eq_iff x a).0 e) (ground (arith, contains-difference xs ys a, eq_iff a a))
  | inr e ↦ ground (arith, contains-difference xs ys a, e)
]

-- `HashSet::remove`
abbrev pub remove : String → List String → List String
remove a [] = []
remove a (x ∷ xs) = let rest = remove a xs in if x == a then rest else x ∷ rest

pub contains-remove :
    (a : String) (xs : List String) (b : String)
    → contains (remove a xs) b ≡ (if a == b then false else contains xs b)
contains-remove a [] b = ground arith
contains-remove a (x ∷ xs) b =
    ground (arith, contains-remove a xs b, eq_iff x a, eq_iff x b, eq_iff a b)
