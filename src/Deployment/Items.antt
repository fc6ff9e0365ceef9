-- ===== src/Deployment/Items.antt =====
-- What a list of items that `set_deployment` of env_common/src/logic/api_deployment.rs writes at once
-- does to the table of the items that say who depends on whom.
use Prim.Native.String.{◌++◌ as str_append}
use Prim.Native.String.append
use Prim.Native.Char.{code}
use infraweave.Prelude.{
  ℕ, ◌≡◌, refl, sym, ap, ◌∙◌, Bool, true, false, not, ◌&&◌, ◌||◌, String, List, [], ◌∷◌, ◌++◌, map,
  difference, contains, contains-difference, if◌then◌else◌, ◌==◌, eq_iff, arith, Bool-cases, inl,
  inr,
}
use infraweave.Cloud.{
  Dependent, TransactItem, StoredDeployment, put_deployment, put_dependent, delete,
}
use infraweave.Deployment.Status.{DeploymentResp, Dependency}
use infraweave.Deployment.Store.{
  dependency_pk, dependent_sk, own_sk, pk_of, get_payload, delete_dependent, delete_own, put_own,
  deletions, updates, transaction,
}

-- Which pairs of keys have an item
abbrev pub Table : Type 0
Table = String → String → Bool

module _ {P : Type 0} where
  abbrev pub apply_item : TransactItem P → Table → Table
  apply_item (put_deployment i) t pk sk = if pk == i.pk && sk == i.sk then true else t pk sk
  apply_item (put_dependent i) t pk sk = if pk == i.pk && sk == i.sk then true else t pk sk
  apply_item (delete p q) t pk sk = if pk == p && sk == q then false else t pk sk

  unfoldable pub apply_items : List (TransactItem P) → Table → Table
  apply_items [] t = t
  apply_items (i ∷ is) t = apply_items is (apply_item i t)

  apply_items-append :
      (is js : List (TransactItem P)) (t : Table)
      → apply_items (is ++ js) t ≡ apply_items js (apply_items is t)
  unfolding apply_items
  apply_items-append [] js t = refl
  apply_items-append (i ∷ is) js t = apply_items-append is js (apply_item i t)

  apply_items-put_own :
      (d : DeploymentResp P) (keys : List String) (t : Table) (pk : String)
      → apply_items (map (put_own d) keys) t pk (own_sk d) ≡ (contains keys pk || t pk (own_sk d))
  unfolding apply_items
  apply_items-put_own d [] t pk = refl
  apply_items-put_own d (k ∷ keys) t pk = ground (
    arith,
    apply_items-put_own d keys (apply_item (put_own d k) t) pk,
    eq_iff pk k,
    eq_iff k pk,
    eq_iff (own_sk d) (own_sk d),
  )

  apply_items-delete_own :
      (d : DeploymentResp P) (keys : List String) (t : Table) (pk : String)
      → apply_items (map (delete_own d) keys) t pk (own_sk d)
        ≡ (not (contains keys pk) && t pk (own_sk d))
  unfolding apply_items
  apply_items-delete_own d [] t pk = refl
  apply_items-delete_own d (k ∷ keys) t pk = ground (
    arith,
    apply_items-delete_own d keys (apply_item (delete_own d k) t) pk,
    eq_iff pk k,
    eq_iff k pk,
    eq_iff (own_sk d) (own_sk d),
  )

  absent_after_deletions :
      (d : DeploymentResp P) (keys : List String) (t : Table) (pk sk : String)
      → t pk sk ≡ false
      → apply_items (map (delete_own d) keys) t pk sk ≡ false
  unfolding apply_items
  absent_after_deletions d [] t pk sk h = h
  absent_after_deletions d (k ∷ keys) t pk sk h =
      absent_after_deletions d keys (apply_item (delete_own d k) t) pk sk (ground (arith, h))

  apply_items-delete_dependent :
      (stored : StoredDeployment P) (dependents : List Dependent) (t : Table) (sk : String)
      → apply_items (map (delete_dependent stored) dependents) t stored.pk sk
        ≡ (not (contains (map dependent_sk dependents) sk) && t stored.pk sk)
  unfolding apply_items
  apply_items-delete_dependent stored [] t sk = refl
  apply_items-delete_dependent stored (x ∷ xs) t sk = ground (
    arith,
    apply_items-delete_dependent stored xs (apply_item (delete_dependent stored x) t) sk,
    eq_iff sk (dependent_sk x),
    eq_iff (dependent_sk x) sk,
    eq_iff stored.pk stored.pk,
  )

  -- No item is left that is deleted under its own key, or as a dependent.
  pub deletions-own :
      (d : DeploymentResp P) (old : List Dependency) (dependents : List Dependent) (t : Table)
      (pk : String)
      → contains (map dependency_pk old) pk ≡ true
      → apply_items (deletions d old dependents) t pk (own_sk d) ≡ false
  unfolding deletions
  deletions-own d old dependents t pk h =
      let first = map (delete_dependent (get_payload d false)) dependents in
      ap (λ (f : Table). f pk (own_sk d)) (apply_items-append first _ t)
      ∙ apply_items-delete_own d (map dependency_pk old) (apply_items first t) pk
      ∙ rw h

  pub deletions-dependents :
      (d : DeploymentResp P) (old : List Dependency) (dependents : List Dependent) (t : Table)
      (sk : String)
      → contains (map dependent_sk dependents) sk ≡ true
      → apply_items (deletions d old dependents) t (pk_of d false) sk ≡ false
  unfolding deletions get_payload
  deletions-dependents d old dependents t sk h =
      let first = map (delete_dependent (get_payload d false)) dependents in
      ap (λ (f : Table). f (pk_of d false) sk) (apply_items-append first _ t)
      ∙ absent_after_deletions d (map dependency_pk old) (apply_items first t) (pk_of d false) sk
          (apply_items-delete_dependent (get_payload d false) dependents t sk ∙ rw h)

first_code : String → ℕ
first_code String.[] = 0
first_code (String.◌∷◌ c s) = code c

metadata_differs : (s : String) → (str_append "DEPENDENT#" s == "METADATA") ≡ false
unfolding first_code
metadata_differs s = elim (Bool-cases (str_append "DEPENDENT#" s == "METADATA")) [
  | inl e ↦ absurd (
      omega (
        arith,
        sym (ap first_code (λ i. append.cons "D" "EPENDENT#" s i))
            ∙ ap first_code ((eq_iff _ _).0 e),
      ))
  | inr e ↦ e
]

pub put_deployment-own_sk :
    {P : Type 0} (d : DeploymentResp P) (t : Table) (pk : String)
    → apply_item (put_deployment (get_payload d false)) t pk (own_sk d) ≡ t pk (own_sk d)
unfolding get_payload
put_deployment-own_sk d t pk = rw (metadata_differs _) (ground (arith, ◌&&◌))

module _ {P : Type 0} (iter_set : List String → List String)
    (visits : (xs : List String) (x : String) → contains (iter_set xs) x ≡ contains xs x) where
  updates-mirror :
      (d : DeploymentResp P) (old : List Dependency) (t : Table) (pk : String)
      → t pk (own_sk d) ≡ contains (map dependency_pk old) pk
      → apply_items (updates iter_set d old) t pk (own_sk d)
        ≡ contains (map dependency_pk d.dependencies) pk
  unfolding updates
  updates-mirror d old t pk h =
      let new_keys = map dependency_pk d.dependencies in
      let old_keys = map dependency_pk old in
      let puts = map (put_own d) (iter_set (difference new_keys old_keys)) in
      ap (λ (f : Table). f pk (own_sk d)) (apply_items-append puts _ t)
      ∙ ground (
        arith,
        h,
        apply_items-delete_own d (iter_set (difference old_keys new_keys)) (apply_items puts t) pk,
        apply_items-put_own d (iter_set (difference new_keys old_keys)) t pk,
        visits (difference new_keys old_keys) pk,
        visits (difference old_keys new_keys) pk,
        contains-difference new_keys old_keys pk,
        contains-difference old_keys new_keys pk,
      )

  pub transaction-mirror :
      (d : DeploymentResp P) (old : List Dependency) (dependents : List Dependent) (t : Table)
      (pk : String)
      → d.deleted ≡ false
      → t pk (own_sk d) ≡ contains (map dependency_pk old) pk
      → apply_items (transaction iter_set d false old dependents) t pk (own_sk d)
        ≡ contains (map dependency_pk d.dependencies) pk
  unfolding transaction apply_items
  transaction-mirror d old dependents t pk kept h =
      let first = put_deployment (get_payload d false) in
      ap
        (λ (b : Bool).
          apply_items (first ∷ (if b then deletions d old dependents else updates iter_set d old)) t
            pk (own_sk d))
        kept
      ∙ updates-mirror d old (apply_item first t) pk (put_deployment-own_sk d t pk ∙ h)

pub transaction-deletions :
    {P : Type 0} (iter_set : List String → List String) (d : DeploymentResp P)
    (old : List Dependency) (dependents : List Dependent) (t : Table) (pk sk : String)
    → d.deleted ≡ true
    → apply_items (transaction iter_set d false old dependents) t pk sk
      ≡ apply_items
          (deletions d old dependents)
          (apply_item (put_deployment (get_payload d false)) t)
          pk
          sk
unfolding transaction apply_items
transaction-deletions iter_set d old dependents t pk sk gone =
    let first = put_deployment (get_payload d false) in
    ap
      (λ (b : Bool).
        apply_items (first ∷ (if b then deletions d old dependents else updates iter_set d old)) t
          pk sk)
      gone
