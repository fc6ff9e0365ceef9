-- ===== src/Variables/Sound.antt =====
-- What the checks of utils/src/variables.rs accept.
use Prim.Native.Nat.{Ordering}
use Prim.Native.String.{compare}
use infraweave.Prelude.{
  ◌≡◌, refl, sym, ◌∙◌, true, not, ◌&&◌, ◌||◌, String, List, [], ◌∷◌, ◌++◌, ◌==◌, contains, All,
  All-append, append-All, map, arith, eq_iff, Bool-cases, inl, inr,
}
use infraweave.Json.{object, Fields, get_key, is_some}
use infraweave.Cloud.{TfVariable, ModuleResp}
use infraweave.Variables.{
  verified, variables_of_providers, insert_by_name, sort_by_name, dedup_after, dedup_by_name,
  is_required, missing, verified_unless_missing, verify_required_variables_are_set,
}

abbrev pub names : List TfVariable → List String
names vs = map (λ v. v.name) vs

All-insert_by_name :
    (P : TfVariable → Type 0) (v : TfVariable) (ws : List TfVariable)
    → P v
    → All P ws
    → All P (insert_by_name v ws)
All-insert_by_name P v [] p h = (p, tt)
All-insert_by_name P v (w ∷ ws) p (q, h) =
    elim (compare v.name w.name)
      as (λ o. All P (elim o [ Ordering.gt ↦ w ∷ insert_by_name v ws | _ ↦ v ∷ w ∷ ws ])) [
        | Ordering.gt ↦ (q, All-insert_by_name P v ws p h)
        | Ordering.lt ↦ (p, (q, h))
        | Ordering.eq ↦ (p, (q, h))
      ]

All-sort_by_name :
    (P : TfVariable → Type 0) (vs : List TfVariable) → All P vs → All P (sort_by_name vs)
All-sort_by_name P [] h = tt
All-sort_by_name P (v ∷ vs) (p, h) =
    All-insert_by_name P v (sort_by_name vs) p (All-sort_by_name P vs h)

All-dedup_after :
    (P : TfVariable → Type 0) (last : TfVariable) (vs : List TfVariable)
    → All P vs
    → All P (dedup_after last vs)
All-dedup_after P last [] h = tt
All-dedup_after P last (v ∷ vs) (p, h) = elim (Bool-cases (v.name == last.name)) [
  | inl e ↦ rw e (All-dedup_after P last vs h)
  | inr e ↦ rw e (p, All-dedup_after P v vs h)
]

names-insert_by_name :
    (v : TfVariable) (ws : List TfVariable) (n : String)
    → contains (names (insert_by_name v ws)) n ≡ (v.name == n || contains (names ws) n)
names-insert_by_name v [] n = refl
names-insert_by_name v (w ∷ ws) n = ground (arith, names-insert_by_name v ws n)

names-sort_by_name :
    (vs : List TfVariable) (n : String)
    → contains (names (sort_by_name vs)) n ≡ contains (names vs) n
names-sort_by_name [] n = refl
names-sort_by_name (v ∷ vs) n =
    names-insert_by_name v (sort_by_name vs) n ∙ rw (names-sort_by_name vs n)

names-dedup_after :
    (last : TfVariable) (vs : List TfVariable) (n : String)
    → (last.name == n || contains (names (dedup_after last vs)) n)
      ≡ (last.name == n || contains (names vs) n)
names-dedup_after last [] n = refl
names-dedup_after last (v ∷ vs) n = ground (
  arith,
  names-dedup_after last vs n,
  names-dedup_after v vs n,
  eq_iff v.name last.name,
  eq_iff v.name n,
  eq_iff last.name n,
)

All-dedup_by_name :
    (P : TfVariable → Type 0) (vs : List TfVariable) → All P vs → All P (dedup_by_name vs)
All-dedup_by_name P [] h = tt
All-dedup_by_name P (v ∷ vs) (p, h) = (p, All-dedup_after P v vs h)

names-dedup_by_name :
    (vs : List TfVariable) (n : String)
    → contains (names (dedup_by_name vs)) n ≡ contains (names vs) n
names-dedup_by_name [] n = refl
names-dedup_by_name (v ∷ vs) n = names-dedup_after v vs n

names-append :
    (vs ws : List TfVariable) (n : String)
    → contains (names (vs ++ ws)) n ≡ (contains (names vs) n || contains (names ws) n)
names-append [] ws n = refl
names-append (v ∷ vs) ws n = ground (arith, names-append vs ws n)

module _ (fs : Fields) where
  -- A variable that has to be set is set.
  abbrev pub IsProvided : TfVariable → Type 0
  IsProvided v = is_required v ≡ true → is_some (get_key fs v.name) ≡ true

  missing-All :
      (vs : List TfVariable)
      → verified_unless_missing (missing fs vs) ≡ verified
      → All IsProvided vs
  missing-All [] h = tt
  missing-All (v ∷ vs) h = elim (Bool-cases (is_required v && not (is_some (get_key fs v.name)))) [
    | inl e ↦ ground (arith, h, e)
    | inr e ↦ ((λ r. ground (arith, r, e)), missing-All vs (sym (rw e) ∙ h))
  ]

  name_set :
      (vs : List TfVariable) (n : String)
      → All IsProvided vs
      → All (λ v. (v.name == n) ≡ true → is_required v ≡ true) vs
      → contains (names vs) n ≡ true
      → is_some (get_key fs n) ≡ true
  name_set [] n h r c = ground (arith, c)
  name_set (v ∷ vs) n (p, h) (q, r) c = elim (Bool-cases (v.name == n)) [
    | inl e ↦ rw (sym ((eq_iff v.name n).0 e)) (p (q e))
    | inr e ↦ name_set vs n h r (ground (arith, c, e))
  ]

-- Where the check passes, each name is set that is the name of variables of the module or of providers
-- which all have to be set.
pub verify_required_variables_are_set-is_some :
    (m : ModuleResp) (fs : Fields) (n : String)
    → verify_required_variables_are_set m (object fs) ≡ verified
    → contains (names (m.tf_variables ++ variables_of_providers m.tf_providers)) n ≡ true
    → All
        (λ v. (v.name == n) ≡ true → is_required v ≡ true)
        (m.tf_variables ++ variables_of_providers m.tf_providers)
    → is_some (get_key fs n) ≡ true
unfolding verify_required_variables_are_set
verify_required_variables_are_set-is_some m fs n h c r =
    let provided = variables_of_providers m.tf_providers in
    let sorted = dedup_by_name (sort_by_name provided) in
    let (r1, r2) = All-append _ m.tf_variables provided r in
    name_set fs (m.tf_variables ++ sorted) n (missing-All fs _ h)
      (append-All _ m.tf_variables sorted r1
        (All-dedup_by_name _ _ (All-sort_by_name _ provided r2)))
      (names-append m.tf_variables sorted n
        ∙ rw (names-dedup_by_name (sort_by_name provided) n, names-sort_by_name provided n)
            (sym (names-append m.tf_variables provided n) ∙ c))
