-- ===== src/Stack/ExamplesSound.antt =====
-- What `validate_examples` of env_common/src/logic/api_stack.rs accepts.
use infraweave.Prelude.{
  ◌≡◌, refl, sym, ap, ◌∙◌, true, not, ◌&&◌, Option, none, some, String, List, [], ◌∷◌, ◌++◌, ◌==◌,
  eq_iff, arith, All, append-All, Bool-cases, inl, inr, contains, contains-append,
}
use infraweave.Cloud.{TfVariable}
use infraweave.Stack.Claims.{StackError, valid, any_variable}
use infraweave.Stack.Sound.{and_then-valid}
use infraweave.Stack.Examples.{
  Yaml, yaml_string, mapping, yaml_other, panicked, Entries, empty, entry, Named, to_mapping,
  required_variables, retain_other, Checked, required, failed, and_then_checked, conclude,
  full_variable_name, not_camel_case, does_not_exist, check_variable, variable_top_level_keys,
  check_top_level_keys, keys_of, check_entries, check_claim_variables, check_claims_of,
  check_example, is_all_module_example_variables_valid, check_examples, validate_examples,
}

abbrev pub names : List TfVariable → List String
names [] = []
names (v ∷ vs) = v.name ∷ names vs

names-retain_other :
    (name : String) (vs : List TfVariable) (a : String)
    → contains (names (retain_other name vs)) a ≡ (contains (names vs) a && not (name == a))
names-retain_other name [] a = refl
names-retain_other name (v ∷ vs) a =
    ground (arith, names-retain_other name vs a, eq_iff v.name name, eq_iff v.name a, eq_iff name a)

abbrev left_of : Checked → List TfVariable
left_of (required vs) = vs
left_of _ = []

absurd_of_failed : {A : Type 0} (e : StackError) (ws : List TfVariable) → failed e ≡ required ws → A
absurd_of_failed e ws h = cc

and_then_checked-required :
    (m : Checked) (k : List TfVariable → Checked) (vs : List TfVariable)
    → and_then_checked m k ≡ required vs
    → (ws : List TfVariable) × (m ≡ required ws) × (k ws ≡ required vs)
and_then_checked-required (required ws) k vs h = (ws, refl, h)
and_then_checked-required (failed e) k vs h = cc
and_then_checked-required panicked k vs h = cc

module _ (to_camel_case to_snake_case : String → String) (tf_variables : List TfVariable) where
  -- The names that an example sets
  abbrev pub set_under : String → Entries → List String
  set_under claim_key empty = []
  set_under claim_key (entry (yaml_string key) value entries) =
      full_variable_name to_camel_case to_snake_case claim_key key ∷ set_under claim_key entries
  set_under claim_key (entry _ value entries) = set_under claim_key entries

  abbrev pub set_by_claim : String → Yaml → List String
  set_by_claim claim_key (mapping entries) = set_under claim_key entries
  set_by_claim claim_key _ = []

  abbrev pub set_by : Named → List String
  set_by [] = []
  set_by ((claim_key, value) ∷ rest) = set_by_claim claim_key value ++ set_by rest

  abbrev IsKnown : String → Type 0
  IsKnown name = any_variable name tf_variables ≡ true

  -- A step from `vs` to `ws` that sets the names
  abbrev Sets : List String → List TfVariable → List TfVariable → Type 0
  Sets set vs ws =
      All IsKnown set
      × ((a : String) → contains (names ws) a ≡ (contains (names vs) a && not (contains set a)))

  nothing-Sets : (vs ws : List TfVariable) → required vs ≡ required ws → Sets [] vs ws
  nothing-Sets vs ws h =
      (tt, (λ a. ap (λ us. contains (names us) a) (sym (ap left_of h)) ∙ ground arith))

  retain_other-Sets :
      (name : String) (vs ws : List TfVariable)
      → any_variable name tf_variables ≡ true
      → required (retain_other name vs) ≡ required ws
      → Sets (name ∷ []) vs ws
  retain_other-Sets name vs ws k h = (
    (k, tt),
    (λ a.
        ap (λ us. contains (names us) a) (sym (ap left_of h))
        ∙ (names-retain_other name vs a ∙ ground arith)),
  )

  check_variable-Sets :
      (claim_key key : String) (vs ws : List TfVariable)
      → check_variable to_camel_case to_snake_case tf_variables claim_key key vs ≡ required ws
      → Sets (full_variable_name to_camel_case to_snake_case claim_key key ∷ []) vs ws
  check_variable-Sets claim_key key vs ws h =
      let name = full_variable_name to_camel_case to_snake_case claim_key key in
      elim (Bool-cases (not (key == to_camel_case key))) [
        | inl e ↦
            absurd_of_failed (not_camel_case to_camel_case to_snake_case key) ws
              (sym (rw (check_variable, e) refl) ∙ h)
        | inr e ↦ elim (Bool-cases (any_variable name tf_variables)) [
          | inl k ↦ retain_other-Sets name vs ws k (sym (rw (check_variable, e, k) refl) ∙ h)
          | inr k ↦
              absurd_of_failed (does_not_exist to_camel_case to_snake_case claim_key key) ws
                (sym (rw (check_variable, e, k) refl) ∙ h)
        ]
      ]

  append-Sets :
      (s t : List String) (vs ws us : List TfVariable)
      → Sets s vs ws
      → Sets t ws us
      → Sets (s ++ t) vs us
  append-Sets s t vs ws us (p, f) (q, g) =
      (append-All IsKnown s t p q, (λ a. ground (arith, f a, g a, contains-append s t a)))

  check_entries-Sets :
      (claim_key : String) (entries : Entries) (vs ws : List TfVariable)
      → check_entries to_camel_case to_snake_case tf_variables claim_key entries vs ≡ required ws
      → Sets (set_under claim_key entries) vs ws
  check_entries-Sets claim_key empty vs ws h = nothing-Sets vs ws h
  check_entries-Sets claim_key (entry (yaml_string key) value entries) vs ws h =
      let (us, e, f) =
        and_then_checked-required
          (check_variable to_camel_case to_snake_case tf_variables claim_key key vs)
          (check_entries to_camel_case to_snake_case tf_variables claim_key entries) ws h in
      append-Sets (full_variable_name to_camel_case to_snake_case claim_key key ∷ [])
        (set_under claim_key entries) vs us ws (check_variable-Sets claim_key key vs us e)
        (check_entries-Sets claim_key entries us ws f)
  check_entries-Sets claim_key (entry (mapping es) value entries) vs ws h = cc
  check_entries-Sets claim_key (entry yaml_other value entries) vs ws h = cc

  check_claim_variables-Sets :
      (claim_key : String) (value : Yaml) (vs ws : List TfVariable)
      → check_claim_variables to_camel_case to_snake_case tf_variables claim_key value vs
        ≡ required ws
      → Sets (set_by_claim claim_key value) vs ws
  check_claim_variables-Sets claim_key (mapping es) vs ws h =
      check_entries-Sets claim_key es vs ws h
  check_claim_variables-Sets claim_key (yaml_string s) vs ws h = cc
  check_claim_variables-Sets claim_key yaml_other vs ws h = cc

  check_claims_of-Sets :
      (example : Named) (vs ws : List TfVariable)
      → check_claims_of to_camel_case to_snake_case tf_variables example vs ≡ required ws
      → Sets (set_by example) vs ws
  check_claims_of-Sets [] vs ws h = nothing-Sets vs ws h
  check_claims_of-Sets ((claim_key, value) ∷ rest) vs ws h =
      let (us, e, f) =
        and_then_checked-required
          (check_claim_variables to_camel_case to_snake_case tf_variables claim_key value vs)
          (check_claims_of to_camel_case to_snake_case tf_variables rest) ws h in
      append-Sets (set_by_claim claim_key value) (set_by rest) vs us ws
        (check_claim_variables-Sets claim_key value vs us e) (check_claims_of-Sets rest us ws f)

  -- An example sets only variables of the stack, and each that is required.
  abbrev pub IsComplete : Yaml → Type 0
  IsComplete example =
      (entries : Named) × (to_mapping example ≡ some entries)
      × All IsKnown (set_by entries)
      × ((a : String)
          → contains (names (required_variables tf_variables)) a ≡ true
          → contains (set_by entries) a ≡ true)

  conclude-required : (c : Checked) → conclude c ≡ valid → c ≡ required []
  conclude-required (required []) h = refl
  conclude-required (required (v ∷ vs)) h = cc
  conclude-required (failed e) h = cc
  conclude-required panicked h = cc

  module _ (iter : List String → List String) where
    check_example-IsComplete :
        (example : Yaml) (o : Option Named)
        → to_mapping example ≡ o
        → check_example to_camel_case to_snake_case iter tf_variables o ≡ valid
        → IsComplete example
    check_example-IsComplete example none e h = cc
    check_example-IsComplete example (some entries) e h =
        let checked =
          check_claims_of to_camel_case to_snake_case tf_variables entries
            (required_variables tf_variables) in
        let (k, c) =
          and_then-valid
            (check_top_level_keys (variable_top_level_keys tf_variables) (iter (keys_of entries)))
            (conclude checked) h in
        let (known, left) =
          check_claims_of-Sets entries (required_variables tf_variables) []
            (conclude-required checked c) in
        (entries, e, known, (λ a r. ground (arith, left a, r)))

    check_examples-IsComplete :
        (examples : List Yaml)
        → check_examples to_camel_case to_snake_case iter tf_variables examples ≡ valid
        → All IsComplete examples
    unfolding is_all_module_example_variables_valid
    check_examples-IsComplete [] h = tt
    check_examples-IsComplete (example ∷ examples) h =
        let (a, b) =
          and_then-valid
            (check_example to_camel_case to_snake_case iter tf_variables (to_mapping example))
            (check_examples to_camel_case to_snake_case iter tf_variables examples) h in
        (
          check_example-IsComplete example (to_mapping example) refl a,
          check_examples-IsComplete examples b,
        )

    -- Examples are accepted only if each sets variables of the stack alone, and all that are required.
    pub validate_examples-IsComplete :
        (examples : List Yaml)
        → validate_examples to_camel_case to_snake_case iter tf_variables (some examples) ≡ valid
        → All IsComplete examples
    unfolding validate_examples
    validate_examples-IsComplete examples h = check_examples-IsComplete examples h
