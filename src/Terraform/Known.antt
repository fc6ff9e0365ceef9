-- ===== src/Terraform/Known.antt =====
-- The references that env_common/src/logic/tf_input_resolver.rs lets through.
use infraweave.Prelude.{
  ◌≡◌, refl, sym, ◌∙◌, subst, Bool, true, false, not, ◌&&◌, ◌||◌, ◌==◌, String, List, [], ◌∷◌, All,
  arith, eqb, contains, contains_text, replace, concat, if◌then◌else◌, Bool-cases, inl, inr,
}
use infraweave.Terraform.{
  Expression, ModuleError, Resolved, resolved, error, Capture, TfInputResolver,
}
use infraweave.Terraform.Resolver.{
  byte_size, Target, found, missing, prefix_name, target_of, replace_all, string_to_expression,
  stack_target, claim_target,
}

module _ (self : TfInputResolver) where
  -- The stack has the variable, or a module the output, that a reference names.
  abbrev pub is_known : Capture → Bool
  is_known c =
      let field = self.to_snake_case c.field in
      if c.kind == "Stack" && c.claim == "variables"
      then contains self.known_variables (concat ("stack__" ∷ field ∷ []))
      else contains self.known_outputs (prefix_name self c.claim field)
        || contains self.known_variables (prefix_name self c.claim field)

  stack-known :
      (c : Capture) (key : String) (whole : Expression) (part : String)
      → stack_target self c key ≡ found whole part
      → contains self.known_variables key ≡ true
  stack-known c key whole part h = ground (arith, h)

  claim-known :
      (c : Capture) (field key : String) (whole : Expression) (part : String)
      → claim_target self c field key ≡ found whole part
      → (contains self.known_outputs key || contains self.known_variables key) ≡ true
  claim-known c field key whole part h = ground (arith, h)

  either-known :
      (stack : Bool) (c : Capture) (field key other : String) (whole : Expression) (part : String)
      → (if stack then stack_target self c key else claim_target self c field other)
        ≡ found whole part
      → (if stack
          then contains self.known_variables key
          else contains self.known_outputs other || contains self.known_variables other)
        ≡ true
  either-known true c field key other whole part h = stack-known c key whole part h
  either-known false c field key other whole part h = claim-known c field other whole part h

  checked :
      (bad : Bool) (x : ModuleError) (t : Target) (whole : Expression) (part : String)
      → (if bad then missing x else t) ≡ found whole part
      → t ≡ found whole part
  checked true x t whole part h = cc
  checked false x t whole part h = h

  target-known :
      (c : Capture) (whole : Expression) (part : String)
      → target_of self c ≡ found whole part
      → is_known c ≡ true
  unfolding target_of
  target-known c whole part h =
      either-known (c.kind == "Stack" && c.claim == "variables") c (self.to_snake_case c.field)
        (concat ("stack__" ∷ self.to_snake_case c.field ∷ []))
        (prefix_name self c.claim (self.to_snake_case c.field)) whole part
        (checked
          (not (contains_text c.full_ref (concat (c.kind ∷ "::" ∷ c.claim ∷ "::" ∷ c.field ∷ []))))
          _ _ whole part h)

  -- A reference that is the whole text is the last one.
  abbrev pub IsLast : String → List Capture → Type 0
  IsLast input [] = Unit
  IsLast input (c ∷ cs) =
      (eqb (byte_size input) (byte_size c.full_ref) ≡ true → cs ≡ []) × IsLast input cs

  abbrev pub AllKnown : List Capture → Type 0
  AllKnown cs = All (λ c. is_known c ≡ true) cs

  replaced-known :
      (input text : String) (cs : List Capture) (e : Expression)
      → IsLast input cs
      → replace_all self input text cs ≡ resolved e
      → AllKnown cs
  unfolding replace_all
  replaced-known input text [] e alone h = tt
  replaced-known input text (c ∷ cs) e (last, alone) h =
      by_target (λ t k. replaced-known input t cs e alone k) (target_of self c) refl h
    where
      by_target :
          ((t : String) → replace_all self input t cs ≡ resolved e → AllKnown cs)
          → (t : Target) → target_of self c ≡ t
          → (elim t as (λ _. Resolved Expression) [
            | missing x ↦ error x
            | found whole part ↦
                if eqb (byte_size input) (byte_size c.full_ref)
                then resolved whole
                else replace_all self input (replace text c.full_ref part) cs
          ])
            ≡ resolved e
          → AllKnown (c ∷ cs)
      by_target deeper (missing x) k m = cc
      by_target deeper (found whole part) k m =
          elim (Bool-cases (eqb (byte_size input) (byte_size c.full_ref))) [
            | inl y ↦ (target-known c whole part k, subst AllKnown (sym (last y)) tt)
            | inr y ↦ (
              target-known c whole part k,
              deeper (replace text c.full_ref part) (sym (rw y refl) ∙ m),
            )
          ]

  -- Where a text is turned into an expression, each of its references names a variable or an output that is
  -- known; where the regular expression finds no reference after one that is the whole text.
  pub string_to_expression-AllKnown :
      ((s : String) → IsLast s (self.captures s))
      → (input : String) (e : Expression) → string_to_expression self input ≡ resolved e
      → AllKnown (self.captures input)
  unfolding string_to_expression
  string_to_expression-AllKnown alone input e h =
      replaced-known input input (self.captures input) e (alone input) h
