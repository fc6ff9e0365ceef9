-- ===== src/Terraform/Plain.antt =====
-- Values without references, as env_common/src/logic/tf_root_module.rs passes them.
use infraweave.Prelude.{
  ◌≡◌, refl, sym, subst, Bool, true, false, ◌&&◌, Option, none, some, String, List, [], ◌∷◌, arith,
  ltb, ◌^◌, eq_iff, if◌then◌else◌, Bool-cases, inl, inr, is_empty, and_true, some_inj,
}
use infraweave.Json.{Number, pos_int, neg_int, float}
use infraweave.Terraform.{
  Yaml, yaml_null, yaml_bool, yaml_number, yaml_string, yaml_sequence, yaml_mapping, yaml_tagged,
  Sequence, no_more, item, Mapping, no_entry, entry, Expression, number, Expressions, Attributes,
  attribute, Resolved, resolved, error, panic, Capture, TfInputResolver,
}
use infraweave.Terraform.Resolver.{
  number_yaml_to_hcl, replace_all, string_to_expression, resolve, resolve_items, resolve_entries,
  first_of, first_under, as_array, as_object,
}
use infraweave.Terraform.RootModule.{
  can_be_variable, all_variable, all_values, value_of, var_of, assigned, input_of, add_input,
  variables,
}

module _ (self : TfInputResolver) where
  -- No text of the value holds a reference.
  unfoldable mutual
    pub is_plain : Yaml → Bool
    is_plain yaml_null = true
    is_plain (yaml_bool b) = true
    is_plain (yaml_number n) = true
    is_plain (yaml_string s) = is_empty (self.captures s)
    is_plain (yaml_sequence values) = all_plain values
    is_plain (yaml_mapping map) = values_plain map
    is_plain (yaml_tagged value) = is_plain value

    pub all_plain : Sequence → Bool
    all_plain no_more = true
    all_plain (item value values) = is_plain value && all_plain values

    pub values_plain : Mapping → Bool
    values_plain no_entry = true
    values_plain (entry key value map) = is_plain value && values_plain map

  -- What a step gives, where it gives something, can be a variable.
  abbrev Fits : Resolved Expression → Type 0
  Fits (resolved e) = can_be_variable e ≡ true
  Fits _ = Unit

  abbrev FitsAll : Option Expressions → Type 0
  FitsAll (some es) = all_variable es ≡ true
  FitsAll none = Unit

  abbrev FitsUnder : Option Attributes → Type 0
  FitsUnder (some attributes) = all_values attributes ≡ true
  FitsUnder none = Unit

  if_finite : (b : Bool) (n : Number) → Fits (if b then resolved (number n) else panic)
  unfolding can_be_variable
  if_finite true n = refl
  if_finite false n = tt

  number-Fits : (n : Number) → Fits (number_yaml_to_hcl self n)
  unfolding can_be_variable
  number-Fits (pos_int n) = elim (Bool-cases (ltb n (2 ^ 63))) [
    | inl e ↦ rw e refl
    | inr e ↦
        rw e (
          if_finite (self.is_finite (self.to_float (pos_int n)))
            (float (self.to_float (pos_int n))))
  ]
  number-Fits (neg_int n) = refl
  number-Fits (float x) = if_finite (self.is_finite x) (float x)

  string-Fits :
      (s : String) (cs : List Capture) → is_empty cs ≡ true → Fits (replace_all self s s cs)
  unfolding replace_all can_be_variable
  string-Fits s [] h = rw ((eq_iff s s).1 refl) refl
  string-Fits s (c ∷ cs) h = cc

  array-Fits : (o : Option Expressions) → FitsAll o → Fits (as_array self o)
  unfolding can_be_variable
  array-Fits none h = tt
  array-Fits (some es) h = h

  object-Fits : (o : Option Attributes) → FitsUnder o → Fits (as_object self o)
  unfolding can_be_variable
  object-Fits none h = tt
  object-Fits (some attributes) h = h

  first_of-Fits :
      (o : Resolved Expression) (rest : Option Expressions)
      → Fits o
      → FitsAll rest
      → FitsAll (first_of self o rest)
  unfolding can_be_variable
  first_of-Fits (resolved e) (some es) h k = ground (arith, h, k)
  first_of-Fits (resolved e) none h k = tt
  first_of-Fits (error e) rest h k = tt
  first_of-Fits panic rest h k = tt

  under-Fits :
      (b : Bool) (key : String) (e : Expression) (attributes : Attributes)
      → can_be_variable e ≡ true
      → all_values attributes ≡ true
      → FitsUnder (if b then some (attribute key e attributes) else none)
  unfolding can_be_variable
  under-Fits true key e attributes h k = ground (arith, h, k)
  under-Fits false key e attributes h k = tt

  first_under-Fits :
      (key : Yaml) (o : Resolved Expression) (rest : Option Attributes)
      → Fits o
      → FitsUnder rest
      → FitsUnder (first_under self key o rest)
  first_under-Fits (yaml_string key) (resolved e) (some attributes) h k =
      under-Fits (self.is_identifier key) key e attributes h k
  first_under-Fits (yaml_string key) (resolved e) none h k = tt
  first_under-Fits (yaml_string key) (error e) rest h k = tt
  first_under-Fits (yaml_string key) panic rest h k = tt
  first_under-Fits yaml_null o rest h k = tt
  first_under-Fits (yaml_bool b) o rest h k = tt
  first_under-Fits (yaml_number n) o rest h k = tt
  first_under-Fits (yaml_sequence xs) o rest h k = tt
  first_under-Fits (yaml_mapping m) o rest h k = tt
  first_under-Fits (yaml_tagged v) o rest h k = tt

  mutual
    unfolding is_plain resolve string_to_expression can_be_variable

    resolve-Fits : (v : Yaml) → is_plain v ≡ true → Fits (resolve self v)
    resolve-Fits yaml_null h = refl
    resolve-Fits (yaml_bool b) h = refl
    resolve-Fits (yaml_number n) h = number-Fits n
    resolve-Fits (yaml_string s) h = string-Fits s (self.captures s) h
    resolve-Fits (yaml_sequence values) h =
        array-Fits (resolve_items self values) (items-Fits values h)
    resolve-Fits (yaml_mapping map) h = object-Fits (resolve_entries self map) (entries-Fits map h)
    resolve-Fits (yaml_tagged value) h = resolve-Fits value h

    items-Fits : (vs : Sequence) → all_plain vs ≡ true → FitsAll (resolve_items self vs)
    items-Fits no_more h = refl
    items-Fits (item value values) h =
        let (a, b) = and_true (is_plain value) (all_plain values) h in
        first_of-Fits (resolve self value) (resolve_items self values) (resolve-Fits value a)
          (items-Fits values b)

    entries-Fits : (m : Mapping) → values_plain m ≡ true → FitsUnder (resolve_entries self m)
    entries-Fits no_entry h = refl
    entries-Fits (entry key value map) h =
        let (a, b) = and_true (is_plain value) (values_plain map) h in
        first_under-Fits key (resolve self value) (resolve_entries self map) (resolve-Fits value a)
          (entries-Fits map b)

module _ (self : TfInputResolver) (to_camel_case : String → String) where
  plain_or_unset : Option Yaml → Bool
  plain_or_unset none = true
  plain_or_unset (some value) = is_plain self value

  -- Each input has one assignment, in the order of the inputs, and it is the variable of that input where
  -- no value is given or the value holds no reference.
  pub IsWired : Mapping → List (String × String) → List (String × Expression) → Type 0
  IsWired given [] [] = Unit
  IsWired given ((input_name, fq_input_name) ∷ inputs) ((name, e) ∷ rest) =
      (name ≡ input_name)
      × (plain_or_unset (value_of given (to_camel_case input_name)) ≡ true
          → e ≡ var_of fq_input_name)
      × IsWired given inputs rest
  IsWired given _ _ = ⊥

  assigned-var :
      (fq : String) (o : Resolved Expression) (e : Expression)
      → Fits self o
      → assigned self to_camel_case fq o ≡ some e
      → e ≡ var_of fq
  unfolding assigned
  assigned-var fq (resolved x) e h k = ground (arith, h, k)
  assigned-var fq (error x) e h k = cc
  assigned-var fq panic e h k = cc

  input-var :
      (fq : String) (o : Option Yaml) (e : Expression)
      → plain_or_unset o ≡ true
      → input_of self to_camel_case fq o ≡ some e
      → e ≡ var_of fq
  unfolding input_of plain_or_unset
  input-var fq none e h k = sym (some_inj.0 k)
  input-var fq (some value) e h k =
      assigned-var fq (resolve self value) e (resolve-Fits self value h) k

  added :
      (name : String) (o : Option Expression) (p : Option (List (String × Expression)))
      (attributes : List (String × Expression))
      → add_input self to_camel_case name o p ≡ some attributes
      → (e : Expression) × (rest : List (String × Expression)) × (o ≡ some e)
        × (p ≡ some rest)
        × ((name, e) ∷ rest ≡ attributes)
  added name (some e) (some rest) attributes h = (e, rest, refl, refl, some_inj.0 h)
  added name none p attributes h = cc
  added name (some e) none attributes h = cc

  -- Where the inputs of a module are assigned, each input has one assignment, in their order, and it is the
  -- variable of that input where no value is given or the value holds no reference.
  pub variables-IsWired :
      (inputs : List (String × String)) (given : Mapping) (attributes : List (String × Expression))
      → variables self to_camel_case inputs given ≡ some attributes
      → IsWired given inputs attributes
  unfolding variables IsWired
  variables-IsWired [] given attributes h = subst (IsWired given []) (some_inj.0 h) tt
  variables-IsWired ((input_name, fq_input_name) ∷ inputs) given attributes h =
      let value = value_of given (to_camel_case input_name) in
      let (e, rest, e1, e2, e3) =
        added input_name (input_of self to_camel_case fq_input_name value)
          (variables self to_camel_case inputs given) attributes h in
      subst (IsWired given ((input_name, fq_input_name) ∷ inputs)) e3
        (refl, (λ p. input-var fq_input_name value e p e1), variables-IsWired inputs given rest e2)
