-- ===== src/Json/Equal.antt =====
-- The derived `PartialEq` of `serde_json::Value`.
use infraweave.Prelude.{
  ◌==◌, eq_iff, eq_refl, ◌≡◌, refl, subst, Bool, true, false, ◌&&◌, ◌↔◌, arith, eqb, and_true,
}
use infraweave.Json.{
  Number, pos_int, neg_int, float, Value, null, bool, number, string, array, object, Items, nil,
  cons, Fields, end, field,
}

abbrev pub bool_eq : Bool → Bool → Bool
bool_eq true b = b
bool_eq false true = false
bool_eq false false = true

abbrev pub number_eq : Number → Number → Bool
number_eq (pos_int a) (pos_int b) = eqb a b
number_eq (neg_int a) (neg_int b) = eqb a b
number_eq (float a) (float b) = a == b
number_eq _ _ = false

unfoldable mutual
  pub value_eq : Value → Value → Bool
  value_eq null null = true
  value_eq (bool a) (bool b) = bool_eq a b
  value_eq (number a) (number b) = number_eq a b
  value_eq (string a) (string b) = a == b
  value_eq (array xs) (array ys) = items_eq xs ys
  value_eq (object fs) (object gs) = fields_eq fs gs
  value_eq _ _ = false

  pub items_eq : Items → Items → Bool
  items_eq nil nil = true
  items_eq (cons x xs) (cons y ys) = value_eq x y && items_eq xs ys
  items_eq _ _ = false

  pub fields_eq : Fields → Fields → Bool
  fields_eq end end = true
  fields_eq (field j v fs) (field k w gs) = j == k && (value_eq v w && fields_eq fs gs)
  fields_eq _ _ = false

number_eq_sound : (a b : Number) → number_eq a b ≡ true → a ≡ b
number_eq_sound (pos_int a) (pos_int b) h = ground arith
number_eq_sound (neg_int a) (neg_int b) h = ground arith
number_eq_sound (float a) (float b) h = ground (arith, eq_iff a b)
number_eq_sound _ _ h = ground arith

number_eq_refl : (a : Number) → number_eq a a ≡ true
number_eq_refl (pos_int a) = ground arith
number_eq_refl (neg_int a) = ground arith
number_eq_refl (float a) = eq_refl a

mutual
  unfolding value_eq

  value_sound : (v w : Value) → value_eq v w ≡ true → v ≡ w
  value_sound null null h = refl
  value_sound (bool a) (bool b) h = ground arith
  value_sound (number a) (number b) h = ground (arith, number_eq_sound a b)
  value_sound (string a) (string b) h = ground (arith, eq_iff a b)
  value_sound (array xs) (array ys) h = ground (arith, items_sound xs ys)
  value_sound (object fs) (object gs) h = ground (arith, fields_sound fs gs)
  value_sound _ _ h = ground arith

  items_sound : (xs ys : Items) → items_eq xs ys ≡ true → xs ≡ ys
  items_sound nil nil h = refl
  items_sound (cons x xs) (cons y ys) h = ground (arith, value_sound x y, items_sound xs ys)
  items_sound _ _ h = ground arith

  fields_sound : (fs gs : Fields) → fields_eq fs gs ≡ true → fs ≡ gs
  fields_sound end end h = refl
  fields_sound (field j v fs) (field k w gs) h =
      let (key, more) = and_true (j == k) _ h in
      let (val, rest) = and_true (value_eq v w) _ more in
      cc ((eq_iff j k).0 key, value_sound v w val, fields_sound fs gs rest)
  fields_sound _ _ h = ground arith

mutual
  unfolding value_eq

  value_refl : (v : Value) → value_eq v v ≡ true
  value_refl null = refl
  value_refl (bool true) = refl
  value_refl (bool false) = refl
  value_refl (number a) = number_eq_refl a
  value_refl (string a) = eq_refl a
  value_refl (array xs) = items_refl xs
  value_refl (object fs) = fields_refl fs

  items_refl : (xs : Items) → items_eq xs xs ≡ true
  items_refl nil = refl
  items_refl (cons x xs) = rw (value_refl x) (items_refl xs)

  fields_refl : (fs : Fields) → fields_eq fs fs ≡ true
  fields_refl end = refl
  fields_refl (field k v fs) = rw (eq_refl k, value_refl v) (fields_refl fs)

-- The test decides equality.
pub value_eq_iff : (v w : Value) → (value_eq v w ≡ true) ↔ (v ≡ w)
value_eq_iff v w = (value_sound v w, λ e. subst (λ u. value_eq v u ≡ true) e (value_refl v))

pub value_eq_refl : (v : Value) → value_eq v v ≡ true
value_eq_refl v = value_refl v

pub items_eq_refl : (xs : Items) → items_eq xs xs ≡ true
items_eq_refl xs = items_refl xs
