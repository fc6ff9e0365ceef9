-- ===== src/Json.antt =====
-- `serde_json::Value`. An object is a BTreeMap, so its fields stand in the order of their keys and
-- `insert` keeps that order. A float is kept as the text that it prints as.
pub mod Equal
pub mod Keys
use infraweave.Prelude.{
  ℕ, String, ◌==◌, eq_iff, ◌≡◌, refl, Bool, true, false, ◌&&◌, Option, none, some, List, [], ◌∷◌,
  arith, eqb, if◌then◌else◌,
}
use Prim.Native.Nat.{Ordering}
use Prim.Native.String.{compare}

pub data Number : Type 0 where
  pos_int : ℕ → Number
  neg_int : ℕ → Number
  float : String → Number

mutual
  pub data Value : Type 0 where
    null : Value
    bool : Bool → Value
    number : Number → Value
    string : String → Value
    array : Items → Value
    object : Fields → Value

  pub data Items : Type 0 where
    nil : Items
    cons : Value → Items → Items

  pub data Fields : Type 0 where
    end : Fields
    field : String → Value → Fields → Fields

-- `Map::get`
abbrev pub get_key : Fields → String → Option Value
get_key end k = none
get_key (field j v fs) k = if j == k then some v else get_key fs k

-- `Map::insert`
unfoldable pub insert_key : String → Value → Fields → Fields
insert_key k v end = field k v end
insert_key k v (field j w fs) =
    let rest = insert_key k v fs in
    elim (compare k j) [
      | Ordering.lt ↦ field k v (field j w fs)
      | Ordering.eq ↦ field k v fs
      | Ordering.gt ↦ field j w rest
    ]

abbrev pub keys : Fields → List String
keys end = []
keys (field k v fs) = k ∷ keys fs

-- `Map::is_empty`
abbrev pub is_empty_map : Fields → Bool
is_empty_map end = true
is_empty_map (field k v fs) = false

-- `Value::get` with a key
abbrev pub get : Value → String → Option Value
get (object fs) k = get_key fs k
get _ k = none

abbrev pub as_str : Value → Option String
as_str (string s) = some s
as_str _ = none

abbrev pub as_bool : Value → Option Bool
as_bool (bool b) = some b
as_bool _ = none

abbrev pub as_array : Value → Option Items
as_array (array xs) = some xs
as_array _ = none

abbrev pub as_object : Value → Option Fields
as_object (object fs) = some fs
as_object _ = none

abbrev pub is_object : Value → Bool
is_object (object fs) = true
is_object _ = false

abbrev pub is_array : Value → Bool
is_array (array xs) = true
is_array _ = false

abbrev pub is_null : Value → Bool
is_null null = true
is_null _ = false

-- `and_then` on options
abbrev pub and_then {ℓ κ} : {A : Type ℓ} {B : Type κ} → Option A → (A → Option B) → Option B
and_then none f = none
and_then (some a) f = f a

infixl 5 ◌>>=◌
abbrev pub ◌>>=◌ {ℓ κ} : {A : Type ℓ} {B : Type κ} → Option A → (A → Option B) → Option B
m >>= f = and_then m f

abbrev pub unwrap_or {ℓ} : {A : Type ℓ} → Option A → A → A
unwrap_or none d = d
unwrap_or (some a) d = a

abbrev pub is_some {ℓ} : {A : Type ℓ} → Option A → Bool
is_some none = false
is_some (some a) = true

-- A write to a map is read back under its key, and every other key keeps its value.
pub get_key-insert_key :
    (k : String) (v : Value) (fs : Fields) (j : String)
    → get_key (insert_key k v fs) j ≡ (if k == j then some v else get_key fs j)
unfolding insert_key
get_key-insert_key k v end j = refl
get_key-insert_key k v (field i w fs) j =
    ground (arith, get_key-insert_key k v fs j, eq_iff k i, eq_iff i j, eq_iff k j)

-- Inversion of a successful chain.
pub and_then-eq-some {ℓ κ} :
    {A : Type ℓ} {B : Type κ} (m : Option A) (f : A → Option B) {b : B}
    → and_then m f ≡ some b
    → (a : A) × (m ≡ some a) × (f a ≡ some b)
and_then-eq-some none f h = cc
and_then-eq-some (some a) f h = (a, refl, h)
